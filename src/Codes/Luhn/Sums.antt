-- ===== src/Codes/Luhn/Sums.antt =====
-- The sum of the loop, as a sum over the parts of a code, and what one digit adds to it.
use mathlib.Core.List.{reverse, reverse-append, reverse-cons, append_assoc}
use coin.Base.{
  ℕ, ◌+◌, ◌%◌, ◌≤◌, ◌≡◌, refl, ◌⊎◌, Bool, true, not, [], ◌∷◌, ◌++◌, ap, ◌∙◌, arith, ◌&&◌,
}
use coin.Codes.Luhn.{Bytes, only_digits, luhn_digit, luhn_sum}

-- A byte is the code of a decimal digit.
abbrev pub IsDigit : ℕ → Type 0
IsDigit c = (48 ≤ c) × (c ≤ 57)

pub luhn_sum-acc :
    (sum : ℕ) (double : Bool) (v : Bytes) → luhn_sum sum double v ≡ sum + luhn_sum 0 double v
unfolding luhn_sum
luhn_sum-acc sum double [] = omega arith
luhn_sum-acc sum double (c ∷ v) = omega (
  arith,
  luhn_sum-acc (sum + luhn_digit double c) (not double) v,
  luhn_sum-acc (0 + luhn_digit double c) (not double) v,
)

pub luhn_sum-cons :
    (double : Bool) (c : ℕ) (v : Bytes)
    → luhn_sum 0 double (c ∷ v) ≡ luhn_digit double c + luhn_sum 0 (not double) v
unfolding luhn_sum
luhn_sum-cons double c v = omega (arith, luhn_sum-acc (0 + luhn_digit double c) (not double) v)

-- Whether the byte after `v` is doubled.
abbrev pub flip : Bytes → Bool → Bool
flip [] double = double
flip (_ ∷ v) double = flip v (not double)

pub luhn_sum-append :
    (double : Bool) (u v : Bytes)
    → luhn_sum 0 double (u ++ v) ≡ luhn_sum 0 double u + luhn_sum 0 (flip u double) v
luhn_sum-append double [] v = unfold luhn_sum in omega arith
luhn_sum-append double (c ∷ u) v = omega (
  arith,
  luhn_sum-cons double c (u ++ v),
  luhn_sum-cons double c u,
  luhn_sum-append (not double) u v,
)

pub luhn_digit_bound : (double : Bool) (c : ℕ) → IsDigit c → luhn_digit double c ≤ 9
unfolding luhn_digit
luhn_digit_bound double c h = ground arith

-- Doubling and casting out nines keeps the ten digits apart.
pub luhn_digit_injective :
    (double : Bool) (c d : ℕ)
    → IsDigit c
    → IsDigit d
    → luhn_digit double c ≡ luhn_digit double d
    → c ≡ d
unfolding luhn_digit
luhn_digit_injective double c d hc hd e = ground arith

-- Two neighbours add the same in either order only if they are equal, or are 0 and 9.
pub luhn_digit_swap :
    (double : Bool) (c d : ℕ)
    → IsDigit c
    → IsDigit d
    → (luhn_digit double c + luhn_digit (not double) d) % 10
      ≡ (luhn_digit double d + luhn_digit (not double) c) % 10
    → (c ≡ d) ⊎ ((c ≡ 48) × (d ≡ 57)) ⊎ ((c ≡ 57) × (d ≡ 48))
unfolding luhn_digit
luhn_digit_swap double c d hc hd e = ground arith

pub only_digits-append : (u v : Bytes) → only_digits (u ++ v) ≡ (only_digits u && only_digits v)
unfolding only_digits
only_digits-append [] v = refl
only_digits-append (c ∷ u) v = ground (arith, only_digits-append u v)

pub only_digits-cons :
    (c : ℕ) (v : Bytes) → only_digits (c ∷ v) ≡ true → IsDigit c × (only_digits v ≡ true)
unfolding only_digits
only_digits-cons c v h = ground arith

pub only_digits_intro : (c : ℕ) (v : Bytes) → IsDigit c → only_digits (c ∷ v) ≡ only_digits v
unfolding only_digits
only_digits_intro c v h = ground arith

pub reverse-middle : (u v : Bytes) (c : ℕ) → reverse (u ++ c ∷ v) ≡ reverse v ++ c ∷ reverse u
reverse-middle u v c =
    reverse-append u (c ∷ v)
    ∙ ap (λ (t : Bytes). t ++ reverse u) (reverse-cons c v)
    ∙ append_assoc (reverse v) (c ∷ []) (reverse u)
