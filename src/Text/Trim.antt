-- ===== src/Text/Trim.antt =====
-- Trimming a text twice is trimming it once.
use Prim.Native.Char.{Char, code}
use coin.Base.{◌≡◌, refl, String, false, arith, Bool-cases, inl, inr, ap}
use coin.Text.{is_space, trim_left, keep_right, trim_right, trim_space}

-- No white space at the front.
abbrev StartsClean : String → Type 0
StartsClean String.[] = Unit {0}
StartsClean (String.◌∷◌ c s) = is_space (code c) ≡ false

trim_left-StartsClean : (s : String) → StartsClean (trim_left s)
unfolding trim_left
trim_left-StartsClean String.[] = tt
trim_left-StartsClean (String.◌∷◌ c s) = ground (arith, trim_left-StartsClean s)

module _ (c : Char) where
  keep_right-StartsClean :
      (rest : String)
      → is_space (code c) ≡ false
      → StartsClean (keep_right (is_space (code c)) (String.◌∷◌ c rest) rest)
  unfolding keep_right
  keep_right-StartsClean String.[] h = rw h h
  keep_right-StartsClean (String.◌∷◌ d rest) h = h

  trim_right-keep_right :
      (rest : String)
      → trim_right rest ≡ rest
      → trim_right (keep_right (is_space (code c)) (String.◌∷◌ c rest) rest)
        ≡ keep_right (is_space (code c)) (String.◌∷◌ c rest) rest
  unfolding keep_right trim_right
  trim_right-keep_right String.[] h = elim (Bool-cases (is_space (code c))) [
    | inl space ↦ rw space refl
    | inr other ↦ rw other (rw other refl)
  ]
  trim_right-keep_right (String.◌∷◌ d rest) h =
      ap (λ r. keep_right (is_space (code c)) (String.◌∷◌ c r) r) h

trim_right-StartsClean : (s : String) → StartsClean s → StartsClean (trim_right s)
unfolding trim_right
trim_right-StartsClean String.[] h = tt
trim_right-StartsClean (String.◌∷◌ c s) h = keep_right-StartsClean c (trim_right s) h

trim_left_clean : (s : String) → StartsClean s → trim_left s ≡ s
unfolding trim_left
trim_left_clean String.[] h = refl
trim_left_clean (String.◌∷◌ c s) h = ground arith

trim_right-trim_right : (s : String) → trim_right (trim_right s) ≡ trim_right s
unfolding trim_right
trim_right-trim_right String.[] = refl
trim_right-trim_right (String.◌∷◌ c s) =
    trim_right-keep_right c (trim_right s) (trim_right-trim_right s)

pub trim_space-trim_space : (s : String) → trim_space (trim_space s) ≡ trim_space s
unfolding trim_space
trim_space-trim_space s =
    let clean = trim_right-StartsClean (trim_left s) (trim_left-StartsClean s) in
    rw (trim_left_clean (trim_right (trim_left s)) clean) (trim_right-trim_right (trim_left s))

-- A text without white space.
abbrev pub HasNoSpace : String → Type 0
HasNoSpace String.[] = Unit {0}
HasNoSpace (String.◌∷◌ c s) = (is_space (code c) ≡ false) × HasNoSpace s

keep_right_whole :
    (c : Char) (s : String)
    → is_space (code c) ≡ false
    → keep_right (is_space (code c)) (String.◌∷◌ c s) s ≡ String.◌∷◌ c s
unfolding keep_right
keep_right_whole c String.[] h = rw h refl
keep_right_whole c (String.◌∷◌ d s) h = refl

trim_right_whole : (s : String) → HasNoSpace s → trim_right s ≡ s
unfolding trim_right
trim_right_whole String.[] h = refl
trim_right_whole (String.◌∷◌ c s) h = rw (trim_right_whole s h.1) (keep_right_whole c s h.0)

trim_left_whole : (s : String) → HasNoSpace s → trim_left s ≡ s
unfolding trim_left
trim_left_whole String.[] h = refl
trim_left_whole (String.◌∷◌ c s) h = rw (h.0) refl

pub trim_space_whole : (s : String) → HasNoSpace s → trim_space s ≡ s
unfolding trim_space
trim_space_whole s h = rw (trim_left_whole s h) (trim_right_whole s h)
