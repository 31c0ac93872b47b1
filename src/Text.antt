-- ===== src/Text.antt =====
-- `strings.TrimSpace`. A text is its code points.
pub mod Trim
pub mod Hash
pub mod Case
use Prim.Native.Char.{code}
use coin.Base.{
  ℕ, ◌+◌, ◌-◌, ◌/◌, ◌%◌, String, Bool, true, false, ◌&&◌, ◌||◌, List, [], ◌∷◌, ◌++◌, ltb, leb, ◌=?◌,
  if◌then◌else◌,
}

-- `unicode.IsSpace`
unfoldable pub is_space : ℕ → Bool
is_space c =
    leb 9 c && leb c 13
    || c =? 32
    || c =? 0x85
    || c =? 0xa0
    || c =? 0x1680
    || leb 0x2000 c && leb c 0x200a
    || c =? 0x2028
    || c =? 0x2029
    || c =? 0x202f
    || c =? 0x205f
    || c =? 0x3000

unfoldable pub trim_left : String → String
trim_left String.[] = String.[]
trim_left (String.◌∷◌ c s) =
    let rest = trim_left s in if is_space (code c) then rest else String.◌∷◌ c s

-- Nothing is kept of a text of white space alone.
pub keep_right : Bool → String → String → String
keep_right space whole String.[] = if space then String.[] else whole
keep_right space whole (String.◌∷◌ c s) = whole

unfoldable pub trim_right : String → String
unfolding keep_right
trim_right String.[] = String.[]
trim_right (String.◌∷◌ c s) =
    let rest = trim_right s in keep_right (is_space (code c)) (String.◌∷◌ c rest) rest

-- `strings.TrimSpace`
unfoldable pub trim_space : String → String
trim_space s = trim_right (trim_left s)
