-- ===== src/Codes/Provider/Form.antt =====
-- The numbers that the providers issue have the form that code.go checks, and give their sequence
-- numbers back.
use coin.Base.{
  ◌∙◌, if◌then◌else◌, ap, subst, ℕ, zero, suc, ◌+◌, ◌-◌, ◌*◌, ◌/◌, ◌%◌, ◌≤◌, ◌<◌, ◌≡◌, refl, Bool,
  true, false, ◌&&◌, some, [], ◌∷◌, ◌++◌, inl, inr, arith, length, String, ◌⊎◌, Bool-cases, leb,
}
use mathlib.Core.List.{append_assoc}
use coin.Text.{trim_space}
use coin.Text.Hash.{bytes, fnv64a}
use coin.Codes.Luhn.{
  Bytes, only_digits, append_luhn, compute_luhn_check_digit, is_valid_luhn, merchant_prefix,
  customer_prefix, has_exact_digits, is_valid_merchant_no, is_valid_customer_no,
  is_valid_account_no,
}
use coin.Codes.Luhn.Sums.{only_digits-append, only_digits_intro}
use coin.Codes.Luhn.Detection.{compute_luhn_check_digit-IsDigit, is_valid_luhn-append_luhn}
use coin.Codes.Allocator.Steps.{CodeError, code_sequence_exhausted}
use coin.Codes.Provider.{
  of_luhn, pow10, padded, default_region_version, default_bin, extended, prefixed_no,
  merchant_mapping, account_type_code, account_scope, new_account_no,
}

leb_cases : (a b : ℕ) → (a ≤ b) × (leb a b ≡ true) ⊎ (b < a) × (leb a b ≡ false)
leb_cases a b = elim (Bool-cases (leb a b)) [
  | inl e ↦ inl (ground arith, e)
  | inr e ↦ inr (ground arith, e)
]

length-append : (u v : Bytes) → length (u ++ v) ≡ length u + length v
length-append [] v = omega arith
length-append (c ∷ u) v = omega (arith, length-append u v)

pub length-padded : (w n : ℕ) → length (padded w n) ≡ w
unfolding padded
length-padded zero n = refl
length-padded (suc w) n =
    omega (arith, length-append (padded w (n / 10)) ((48 + n % 10) ∷ []), length-padded w (n / 10))

pub only_digits-padded : (w n : ℕ) → only_digits (padded w n) ≡ true
unfolding padded
only_digits-padded zero n = unfold only_digits in refl
only_digits-padded (suc w) n = rw (only_digits-append (padded w (n / 10)) ((48 + n % 10) ∷ [])) (
    rw (only_digits-padded w (n / 10)) (
      rw (only_digits_intro (48 + n % 10) [] (omega arith, omega arith))
        (unfold only_digits in refl)))

-- The number that digits write, behind what was read before.
abbrev pub read : ℕ → Bytes → ℕ
read n [] = n
read n (c ∷ v) = read (n * 10 + (c - 48)) v

read-append : (n : ℕ) (u v : Bytes) → read n (u ++ v) ≡ read (read n u) v
read-append n [] v = refl
read-append n (c ∷ u) v = read-append (n * 10 + (c - 48)) u v

pub read-padded : (w n : ℕ) → n < pow10 w → read 0 (padded w n) ≡ n
unfolding padded pow10
read-padded zero n h = omega arith
read-padded (suc w) n h = omega (
  arith,
  read-append 0 (padded w (n / 10)) ((48 + n % 10) ∷ []),
  read-padded w (n / 10) (omega arith),
)

abbrev drop : ℕ → Bytes → Bytes
drop zero v = v
drop (suc n) [] = []
drop (suc n) (_ ∷ v) = drop n v

abbrev take : ℕ → Bytes → Bytes
take zero v = []
take (suc n) [] = []
take (suc n) (c ∷ v) = c ∷ take n v

drop-append : (u v : Bytes) → drop (length u) (u ++ v) ≡ v
drop-append [] v = refl
drop-append (_ ∷ u) v = drop-append u v

take-append : (u v : Bytes) → take (length u) (u ++ v) ≡ u
take-append [] v = refl
take-append (c ∷ u) v = rw (take-append u v) refl

-- The number that the `w` digits behind the first `k` bytes write.
abbrev sequence_at : ℕ → ℕ → Bytes → ℕ
sequence_at k w code = read 0 (take w (drop k code))

take-padded : (w n : ℕ) (tail : Bytes) → take w (padded w n ++ tail) ≡ padded w n
take-padded w n tail =
    subst (λ (k : ℕ). take k (padded w n ++ tail) ≡ padded w n) (length-padded w n)
      (take-append (padded w n) tail)

sequence_at-padded :
    (head tail : Bytes) (w n : ℕ)
    → n < pow10 w
    → sequence_at (length head) w ((head ++ padded w n) ++ tail) ≡ n
sequence_at-padded head tail w n h =
    rw (append_assoc head (padded w n) tail)
      (rw (drop-append head (padded w n ++ tail)) (rw (take-padded w n tail) (read-padded w n h)))

append_luhn-digits :
    (body : Bytes)
    → only_digits body ≡ true
    → append_luhn body ≡ some (body ++ compute_luhn_check_digit body ∷ [])
unfolding append_luhn
append_luhn-digits body h = rw h refl

-- A code of a head and a sequence number, all digits, is valid and has the number behind its head.
module _ (head : Bytes) (w seq : ℕ) (h : only_digits head ≡ true) where
  body_digits : only_digits (head ++ padded w seq) ≡ true
  body_digits = rw (only_digits-append head (padded w seq)) (rw h (only_digits-padded w seq))

  check_byte : Bytes
  check_byte = compute_luhn_check_digit (head ++ padded w seq) ∷ []

  check_byte-digits : only_digits check_byte ≡ true
  unfolding check_byte
  check_byte-digits =
      let d = compute_luhn_check_digit-IsDigit (head ++ padded w seq) in
      rw (only_digits_intro (compute_luhn_check_digit (head ++ padded w seq)) [] d)
        (unfold only_digits in refl)

  extended-code : extended (head ++ padded w seq) ≡ inr ((head ++ padded w seq) ++ check_byte)
  unfolding check_byte
  extended-code = ap of_luhn (append_luhn-digits (head ++ padded w seq) body_digits)

  code_valid : is_valid_luhn ((head ++ padded w seq) ++ check_byte) ≡ true
  unfolding check_byte
  code_valid =
      is_valid_luhn-append_luhn (head ++ padded w seq)
        (append_luhn-digits (head ++ padded w seq) body_digits)

  code_digits : has_exact_digits ((head ++ padded w seq) ++ check_byte) (length head + w + 1) ≡ true
  unfolding check_byte has_exact_digits
  code_digits = ground (
    arith,
    only_digits-append (head ++ padded w seq) check_byte,
    body_digits,
    check_byte-digits,
    length-append (head ++ padded w seq) check_byte,
    length-append head (padded w seq),
    length-padded w seq,
  )

  code_sequence :
      seq < pow10 w → sequence_at (length head) w ((head ++ padded w seq) ++ check_byte) ≡ seq
  code_sequence = sequence_at-padded head check_byte w seq

-- What a provider makes of a sequence number of at most `w` digits, behind `head`: a code that
-- passes the check, with the number in it. A larger number is an error.
abbrev pub Issues : (Bytes → Bool) → Bytes → ℕ → ℕ → CodeError ⊎ Bytes → Type 0
Issues is_valid head w seq result =
    (seq < pow10 w)
      × ((code : Bytes) × (result ≡ inr code)
          × (is_valid code ≡ true)
          × (sequence_at (length head) w code ≡ seq))
    ⊎ (pow10 w ≤ seq) × (result ≡ inl code_sequence_exhausted)

-- With a head of digits, a code that is made of any sequence number, or refused, is as it should.
issued :
    (is_valid : Bytes → Bool) (head : Bytes) (w size seq : ℕ) {result : CodeError ⊎ Bytes}
    → length head + w + 1 ≡ size
    → only_digits head ≡ true
    → ((code : Bytes)
        → has_exact_digits code size ≡ true
        → is_valid_luhn code ≡ true
        → (v : Bytes) → code ≡ head ++ v
        → is_valid code ≡ true)
    → result
      ≡ (if leb (pow10 w) seq then inl code_sequence_exhausted else extended (head ++ padded w seq))
    → Issues is_valid head w seq result
issued is_valid head w size seq s digits k e = elim (leb_cases (pow10 w) seq) [
  | inl (h, b) ↦ inr (h, e ∙ rw b refl)
  | inr (h, b) ↦ inl (
    h,
    (
      (head ++ padded w seq) ++ check_byte head w seq digits,
      e ∙ rw b (extended-code head w seq digits),
      k ((head ++ padded w seq) ++ check_byte head w seq digits)
          (subst
            (λ (n : ℕ).
              has_exact_digits ((head ++ padded w seq) ++ check_byte head w seq digits) n ≡ true)
            s (code_digits head w seq digits))
          (code_valid head w seq digits) (padded w seq ++ check_byte head w seq digits)
          (append_assoc head (padded w seq) (check_byte head w seq digits)),
      code_sequence head w seq digits h,
    ),
  )
]

merchant_head_digits : only_digits (merchant_prefix ∷ default_region_version) ≡ true
unfolding only_digits
merchant_head_digits = refl

customer_head_digits : only_digits (customer_prefix ∷ default_region_version) ≡ true
unfolding only_digits
customer_head_digits = refl

-- Of every sequence number the allocator makes a merchant number that IsValidMerchantNo accepts
-- and that has the number in the bytes behind the first five, or the error, from 10 ^ 10 on.
pub merchant_no_lem :
    (seq : ℕ)
    → Issues is_valid_merchant_no
        (merchant_prefix ∷ default_region_version)
        10
        seq
        (prefixed_no merchant_prefix (inr seq))
unfolding prefixed_no is_valid_merchant_no
merchant_no_lem seq =
    issued is_valid_merchant_no (merchant_prefix ∷ default_region_version) 10 16 seq refl
      merchant_head_digits (λ code d l v e. rw d (rw l (rw e refl))) refl

-- Of every sequence number the allocator makes a customer number that IsValidCustomerNo accepts
-- and that has the number in the bytes behind the first five, or the error, from 10 ^ 10 on.
pub customer_no_lem :
    (seq : ℕ)
    → Issues is_valid_customer_no
        (customer_prefix ∷ default_region_version)
        10
        seq
        (prefixed_no customer_prefix (inr seq))
unfolding prefixed_no is_valid_customer_no
customer_no_lem seq =
    issued is_valid_customer_no (customer_prefix ∷ default_region_version) 10 16 seq refl
      customer_head_digits (λ code d l v e. rw d (rw l (rw e refl))) refl

account_type_code-form :
    (t : String) → (only_digits (account_type_code t) ≡ true) × (length (account_type_code t) ≡ 2)
unfolding account_type_code only_digits
account_type_code-form t = ground arith

merchant_mapping-form :
    (merchant_no : String)
    → (only_digits (merchant_mapping merchant_no) ≡ true)
      × (length (merchant_mapping merchant_no) ≡ 4)
unfolding merchant_mapping
merchant_mapping-form merchant_no =
    let n = fnv64a (bytes (trim_space merchant_no)) % 10000 in
    (only_digits-padded 4 n, length-padded 4 n)

default_bin_digits : (only_digits default_bin && true) ≡ true
unfolding only_digits
default_bin_digits = refl

account_scope-form :
    (merchant_no account_type : String)
    → (only_digits (account_scope merchant_no account_type) ≡ true)
      × (length (account_scope merchant_no account_type) ≡ 12)
unfolding only_digits account_scope
account_scope-form merchant_no account_type =
    let mapped = merchant_mapping merchant_no in
    let coded = account_type_code account_type in
    let rest = mapped ++ coded in
    let form = account_type_code-form account_type in
    (
      rw (only_digits-append default_bin rest) (
          rw (only_digits-append mapped coded)
            (rw form.0 (rw (merchant_mapping-form merchant_no).0 default_bin_digits))),
      omega (
        arith,
        form.1,
        (merchant_mapping-form merchant_no).1,
        length-append default_bin rest,
        length-append mapped coded,
      ),
    )

-- Of every sequence number of a merchant's account type the allocator makes an account number that
-- IsValidAccountNo accepts and that has the number behind the scope's twelve bytes, or the error,
-- from 10 ^ 6 on.
pub account_no_lem :
    (merchant_no account_type : String) (seq : ℕ)
    → Issues is_valid_account_no
        (account_scope merchant_no account_type)
        6
        seq
        (new_account_no merchant_no account_type (inr seq))
unfolding new_account_no is_valid_account_no
account_no_lem merchant_no account_type seq =
    let form = account_scope-form merchant_no account_type in
    issued is_valid_account_no (account_scope merchant_no account_type) 6 19 seq
      (omega (arith, form.1)) form.0 (λ code d l v e. rw l (rw d refl)) refl
