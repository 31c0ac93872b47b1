-- ===== src/Http.antt =====
-- internal/api: what a handler of the HTTP interface answers. The framework reads the headers, the
-- parameters and the JSON of a body, which is `none` where it cannot be read, and writes the
-- answer; a handler is modelled with all its parts configured.
pub mod Services
pub mod Transactions
pub mod Queries
pub mod Auth
pub mod Admin
use coin.Base.{ℕ, String, Bool, true, false, Option, none, some, ◌≡◌, refl, ◌==◌, if◌then◌else◌}
use coin.Text.{trim_space}
use coin.Domain.Error.{
  Error, account_resolve_failed, account_forbid_debit, account_forbid_credit,
  account_forbid_transfer, insufficient_balance,
}

-- What a step passes on, or the status, code and message that `writeError` ends the request with.
pub data Outcome (A : Type 0) : Type 0 where
  passed : A → Outcome A
  refused : ℕ → String → String → Outcome A

-- The code of a success is always SUCCESS.
pub record Reply (A : Type 0) : Type 0 where
  pub status : ℕ
  pub body : A

module _ {A : Type 0} where
  -- `writeSuccess`
  abbrev pub write_success : A → Outcome (Reply A)
  write_success body = passed (record { status = 200; body = body })

  -- `writeCreated`
  abbrev pub write_created : A → Outcome (Reply A)
  write_created body = passed (record { status = 201; body = body })

  -- `writeTransferError`
  unfoldable pub write_transfer_error : Error → Outcome A
  write_transfer_error account_resolve_failed = refused 404 "ACCOUNT_NOT_FOUND" "account not found"
  write_transfer_error account_forbid_debit =
      refused 403 "ACCOUNT_FORBID_DEBIT" "account forbid debit"
  write_transfer_error account_forbid_credit =
      refused 403 "ACCOUNT_FORBID_CREDIT" "account forbid credit"
  write_transfer_error account_forbid_transfer =
      refused 403 "ACCOUNT_FORBID_TRANSFER" "account forbid transfer"
  write_transfer_error insufficient_balance =
      refused 409 "INSUFFICIENT_BALANCE" "insufficient balance"
  write_transfer_error _ = refused 500 "INTERNAL_ERROR" "transfer validate failed"

  abbrev pub internal_error : String → Outcome A
  internal_error message = refused 500 "INTERNAL_ERROR" message

  abbrev pub invalid_param : String → Outcome A
  invalid_param message = refused 400 "INVALID_PARAM" message

  unfoldable pub found_or : Option A → Outcome A → Outcome A
  found_or none refusal = refusal
  found_or (some a) refusal = passed a

infixl 5 ◌>>=◌ ◌>>◌
unfoldable pub ◌>>=◌ : {A B : Type 0} → Outcome A → (A → Outcome B) → Outcome B
passed a >>= f = f a
refused status code message >>= f = refused status code message

unfoldable pub ◌>>◌ : {B : Type 0} → Outcome (Unit {0}) → Outcome B → Outcome B
passed _ >> k = k
refused status code message >> k = refused status code message

unfoldable pub refuse_if : Bool → Outcome (Unit {0}) → Outcome (Unit {0})
refuse_if c refusal = if c then refusal else passed tt

-- `MerchantNoFromContext`, with the value that the authentication has set
unfoldable pub merchant_no_from_context : Option String → Option String
merchant_no_from_context none = none
merchant_no_from_context (some merchant_no) =
    if trim_space merchant_no == "" then none else some merchant_no

-- The guard of every handler of a merchant.
unfoldable pub authenticated : Option String → Outcome String
unfolding found_or
authenticated context =
    found_or (merchant_no_from_context context)
      (refused 401 "INVALID_SIGNATURE" "merchant context missing")

-- What is passed on has the property.
abbrev pub Ensures : {A : Type 0} → (A → Type 0) → Outcome A → Type 0
Ensures P (passed a) = P a
Ensures P (refused _ _ _) = Unit

pub bind-Ensures :
    {A B : Type 0} (P : A → Type 0) (Q : B → Type 0) (m : Outcome A) (k : A → Outcome B)
    → Ensures P m
    → ((a : A) → P a → Ensures Q (k a))
    → Ensures Q (m >>= k)
unfolding ◌>>=◌
bind-Ensures P Q (passed a) k h next = next a h
bind-Ensures P Q (refused _ _ _) k h next = tt

pub weaken-Ensures :
    {A : Type 0} (P Q : A → Type 0) (m : Outcome A)
    → Ensures P m
    → ((a : A) → P a → Q a)
    → Ensures Q m
weaken-Ensures P Q (passed a) h next = next a h
weaken-Ensures P Q (refused _ _ _) h next = tt

pub bind_any-Ensures :
    {A B : Type 0} (Q : B → Type 0) (m : Outcome A) (k : A → Outcome B)
    → ((a : A) → Ensures Q (k a))
    → Ensures Q (m >>= k)
unfolding ◌>>=◌
bind_any-Ensures Q (passed a) k next = next a
bind_any-Ensures Q (refused _ _ _) k next = tt

pub then-Ensures :
    {B : Type 0} (P : Type 0) (Q : B → Type 0) (m : Outcome (Unit {0})) (k : Outcome B)
    → Ensures (λ _. P) m
    → (P → Ensures Q k)
    → Ensures Q (m >> k)
unfolding ◌>>◌
then-Ensures P Q (passed _) k h next = next h
then-Ensures P Q (refused _ _ _) k h next = tt

pub refuse_if-Ensures :
    {B : Type 0} (Q : B → Type 0) (c : Bool) (status : ℕ) (code message : String) (k : Outcome B)
    → (c ≡ false → Ensures Q k)
    → Ensures Q (refuse_if c (refused status code message) >> k)
unfolding refuse_if ◌>>◌
refuse_if-Ensures Q true status code message k next = tt
refuse_if-Ensures Q false status code message k next = next refl

-- What is found is the given value.
pub found_or-Ensures :
    {A B : Type 0} (Q : B → Type 0) (o : Option A) (status : ℕ) (code message : String)
    (k : A → Outcome B)
    → ((a : A) → o ≡ some a → Ensures Q (k a))
    → Ensures Q (found_or o (refused status code message) >>= k)
unfolding found_or ◌>>=◌
found_or-Ensures Q none status code message k next = tt
found_or-Ensures Q (some a) status code message k next = next a refl
