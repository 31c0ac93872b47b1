-- ===== src/Codes/Luhn.antt =====
-- code.go: `appendLuhn`, `computeLuhnCheckDigit`, `isValidLuhn` and the checks of a code's form.
-- The sum is an int and each byte adds at most 255 * 2 - 9, so no text that fits in memory wraps it.
pub mod Sums
pub mod Detection
use mathlib.Core.List.{reverse}
use coin.Base.{
  ℕ, ◌+◌, ◌-◌, ◌*◌, ◌%◌, Bool, true, false, not, ◌&&◌, ◌||◌, Option, none, some, List, [], ◌∷◌,
  ◌++◌, ltb, ◌=?◌, if◌then◌else◌, length,
}

abbrev pub Bytes : Type 0
Bytes = List ℕ

unfoldable pub only_digits : Bytes → Bool
only_digits [] = true
only_digits (c ∷ v) = if ltb c 48 || ltb 57 c then false else only_digits v

-- What one byte adds to the sum: `int(body[i] - '0')`, a byte subtraction, doubled or not.
unfoldable pub luhn_digit : Bool → ℕ → ℕ
luhn_digit double c =
    let d = (c + 256 - 48) % 256 in
    if double then (if ltb 9 (d * 2) then d * 2 - 9 else d * 2) else d

-- The loop from the last byte to the first, over the reversed bytes.
unfoldable pub luhn_sum : ℕ → Bool → Bytes → ℕ
unfolding luhn_digit
luhn_sum sum double [] = sum
luhn_sum sum double (c ∷ v) = luhn_sum (sum + luhn_digit double c) (not double) v

unfoldable pub compute_luhn_check_digit : Bytes → ℕ
unfolding luhn_sum
compute_luhn_check_digit body = 48 + (10 - luhn_sum 0 true (reverse body) % 10) % 10

-- `none` is the error "luhn body contains non-digit".
unfoldable pub append_luhn : Bytes → Option Bytes
unfolding only_digits compute_luhn_check_digit
append_luhn body =
    if not (only_digits body) then none else some (body ++ compute_luhn_check_digit body ∷ [])

abbrev pub is_empty : Bytes → Bool
is_empty [] = true
is_empty (_ ∷ _) = false

unfoldable pub is_valid_luhn : Bytes → Bool
unfolding only_digits luhn_sum
is_valid_luhn v =
    if not (only_digits v) || is_empty v then false else luhn_sum 0 false (reverse v) % 10 =? 0

unfoldable pub has_exact_digits : Bytes → ℕ → Bool
unfolding only_digits
has_exact_digits v n = length v =? n && only_digits v

abbrev starts_with_byte : ℕ → Bytes → Bool
starts_with_byte p [] = false
starts_with_byte p (c ∷ _) = c =? p

abbrev pub merchant_no_length : ℕ
merchant_no_length = 16

abbrev pub customer_no_length : ℕ
customer_no_length = 16

abbrev pub account_no_length : ℕ
account_no_length = 19

abbrev pub merchant_prefix : ℕ
merchant_prefix = b'1'

abbrev pub customer_prefix : ℕ
customer_prefix = b'2'

unfoldable pub is_valid_merchant_no : Bytes → Bool
unfolding has_exact_digits is_valid_luhn
is_valid_merchant_no v =
    has_exact_digits v merchant_no_length && starts_with_byte merchant_prefix v && is_valid_luhn v

unfoldable pub is_valid_customer_no : Bytes → Bool
unfolding has_exact_digits is_valid_luhn
is_valid_customer_no v =
    has_exact_digits v customer_no_length && starts_with_byte customer_prefix v && is_valid_luhn v

unfoldable pub is_valid_account_no : Bytes → Bool
unfolding has_exact_digits is_valid_luhn
is_valid_account_no v = has_exact_digits v account_no_length && is_valid_luhn v
