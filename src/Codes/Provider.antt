-- ===== src/Codes/Provider.antt =====
-- internal/platform/id/code.go and db_code_provider.go: the numbers that the providers make from
-- sequence numbers.
pub mod Form
use Prim.Native.Char.{code}
use coin.Base.{
  ℕ, zero, suc, ◌+◌, ◌-◌, ◌*◌, ◌/◌, ◌%◌, ◌^◌, String, Bool, true, false, ◌&&◌, ◌||◌, ◌=?◌, Option,
  none, some, List, [], ◌∷◌, ◌++◌, ◌⊎◌, inl, inr, leb, ◌==◌, if◌then◌else◌,
}
use coin.Text.{trim_space}
use coin.Text.Hash.{same, bytes, fnv64a}
use coin.Codes.Luhn.{Bytes, append_luhn}
use coin.Codes.Allocator.Steps.{
  CodeError, code_sequence_exhausted, luhn_body_invalid, no_more_fixed_code,
}

-- `pow10`; the digits are at most 10, so the int64 does not wrap.
unfoldable pub pow10 : ℕ → ℕ
pow10 zero = 1
pow10 (suc n) = pow10 n * 10

-- `%0wd` of a number below `pow10 w`
unfoldable pub padded : ℕ → ℕ → Bytes
padded zero n = []
padded (suc w) n = padded w (n / 10) ++ (48 + n % 10) ∷ []

abbrev pub default_bin : Bytes
default_bin = 54 ∷ 50 ∷ 49 ∷ 55 ∷ 55 ∷ 48 ∷ []

-- "000" and "1"
abbrev pub default_region_version : Bytes
default_region_version = 48 ∷ 48 ∷ 48 ∷ 49 ∷ []

abbrev pub of_luhn : Option Bytes → CodeError ⊎ Bytes
of_luhn none = inl luhn_body_invalid
of_luhn (some v) = inr v

abbrev pub extended : Bytes → CodeError ⊎ Bytes
extended body = of_luhn (append_luhn body)

-- The answer of `nextSeq` with what is made of the number.
abbrev pub numbered : CodeError ⊎ ℕ → (ℕ → CodeError ⊎ Bytes) → CodeError ⊎ Bytes
numbered (inl e) k = inl e
numbered (inr seq) k = k seq

-- `NewMerchantNo` and `NewCustomerNo` of the allocator, by the prefix, from what `nextSeq` returns
unfoldable pub prefixed_no : ℕ → CodeError ⊎ ℕ → CodeError ⊎ Bytes
prefixed_no prefix next = numbered next (λ seq.
    if leb (pow10 10) seq
    then inl code_sequence_exhausted
    else extended (prefix ∷ default_region_version ++ padded 10 seq))

-- `merchantMapping`
unfoldable pub merchant_mapping : String → Bytes
merchant_mapping merchant_no = padded 4 (fnv64a (bytes (trim_space merchant_no)) % 10000)

-- What `strings.ToUpper` makes of the letters that it maps into ASCII. Any other letter stands for
-- itself: it is in none of the texts that the result is compared with.
abbrev upper : ℕ → ℕ
upper c =
    if leb 97 c && leb c 122
    then c - 32
    else if c =? 0x131
    then 73
    else if c =? 0x17f
    then 83
    else c

abbrev uppers : String → List ℕ
uppers String.[] = []
uppers (String.◌∷◌ c s) = upper (code c) ∷ uppers s

-- `accountTypeCode`
unfoldable pub account_type_code : String → Bytes
account_type_code account_type =
    let t = uppers (trim_space account_type) in
    if same t (uppers "BUDGET")
    then 48 ∷ 49 ∷ []
    else if same t (uppers "RECEIVABLE")
    then 48 ∷ 50 ∷ []
    else if same t (uppers "CUSTOMER") || same t (uppers "CUSTOM")
    then 49 ∷ 48 ∷ []
    else 49 ∷ 49 ∷ []

-- The scope of an account number's sequence, and the number's first digits.
unfoldable pub account_scope : String → String → Bytes
account_scope merchant_no account_type =
    default_bin ++ merchant_mapping merchant_no ++ account_type_code account_type

-- `NewAccountNo` of the allocator, from what `nextSeq` returns for the scope
unfoldable pub new_account_no : String → String → CodeError ⊎ ℕ → CodeError ⊎ Bytes
new_account_no merchant_no account_type next = numbered next (λ seq.
    if leb (pow10 6) seq
    then inl code_sequence_exhausted
    else extended (account_scope merchant_no account_type ++ padded 6 seq))

-- The sequences of `runtimeCodeProvider`: the merchants' and the customers', which wrap around at
-- ten digits, and the accounts' by their keys.
pub record RuntimeCodeProvider : Type 0 where
  pub merchant_seq : ℕ
  pub customer_seq : ℕ
  pub account_salt : ℕ
  pub account_seq : List (Bytes × ℕ)

-- `NewRuntimeCodeProvider`, from the random uint64
unfoldable pub new_runtime_code_provider : ℕ → RuntimeCodeProvider
new_runtime_code_provider seed = record {
  merchant_seq = seed % 10000000000;
  customer_seq = seed / 7 % 10000000000;
  account_salt = seed % 2 ^ 32;
  account_seq = [];
}

unfoldable pub runtime_merchant_no : RuntimeCodeProvider → (CodeError ⊎ Bytes) × RuntimeCodeProvider
runtime_merchant_no p =
    let seq = (p.merchant_seq + 1) % 10000000000 in
    (extended (49 ∷ default_region_version ++ padded 10 seq), record p { merchant_seq = seq })

unfoldable pub runtime_customer_no : RuntimeCodeProvider → (CodeError ⊎ Bytes) × RuntimeCodeProvider
runtime_customer_no p =
    let seq = (p.customer_seq + 1) % 10000000000 in
    (extended (50 ∷ default_region_version ++ padded 10 seq), record p { customer_seq = seq })

abbrev lookup_seq : Bytes → List (Bytes × ℕ) → Option ℕ
lookup_seq key [] = none
lookup_seq key ((k, n) ∷ rest) = if same key k then some n else lookup_seq key rest

abbrev or_seed : ℕ → Option ℕ → ℕ
or_seed seeded none = seeded
or_seed seeded (some n) = n

-- `%d`: the digits after the first zeros, at least one
abbrev pub strip_zeros : Bytes → Bytes
strip_zeros [] = []
strip_zeros (c ∷ []) = c ∷ []
strip_zeros (c ∷ d ∷ v) = let rest = strip_zeros (d ∷ v) in if c =? 48 then rest else c ∷ d ∷ v

unfoldable pub runtime_account_no :
    String → String → RuntimeCodeProvider → (CodeError ⊎ Bytes) × RuntimeCodeProvider
runtime_account_no merchant_no account_type p =
    let mmmm = merchant_mapping merchant_no in
    let tt' = account_type_code account_type in
    let key = mmmm ++ 58 ∷ tt' in
    let seeded = fnv64a (key ++ 58 ∷ strip_zeros (padded 10 p.account_salt)) % 1000000 in
    let last = or_seed seeded (lookup_seq key p.account_seq) in
    let seq = (last + 1) % 1000000 in
    (
      extended (default_bin ++ mmmm ++ tt' ++ padded 6 seq),
      record p { account_seq = (key, seq) ∷ p.account_seq },
    )

-- One of the three lists of `fixedCodeProvider`, with how many of its codes are used up.
pub record FixedCodes : Type 0 where
  pub codes : List Bytes
  pub used : ℕ

abbrev pub get_elem? {ℓ} : {A : Type ℓ} → List A → ℕ → Option A
get_elem? [] n = none
get_elem? (x ∷ xs) zero = some x
get_elem? (x ∷ xs) (suc n) = get_elem? xs n

-- `NewMerchantNo`, `NewCustomerNo` and `NewAccountNo` of it
unfoldable pub next_fixed_code : FixedCodes → (CodeError ⊎ Bytes) × FixedCodes
next_fixed_code p = elim (get_elem? p.codes p.used) [
  | none ↦ (inl no_more_fixed_code, p)
  | some v ↦ (inr v, record p { used = p.used + 1 })
]
