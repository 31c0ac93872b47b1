-- ===== src/Enrolment.antt =====
-- internal/service/customer_service.go and merchant_service.go: how merchants and customers come to
-- their accounts, over the part of the repository and of the providers of ids and codes that they
-- ask. mapCodeError keeps the kind of an error, and so does an error that is wrapped.
pub mod Opened
use coin.Base.{
  ℕ, zero, suc, String, Bool, true, false, not, ◌&&◌, ◌||◌, Option, none, some, List, [], ◌∷◌, ◌==◌,
  if◌then◌else◌,
}
use coin.Int.{pos}
use coin.Text.{trim_space}
use coin.Text.Hash.{bytes}
use coin.Domain.{
  Merchant, Customer, account_type_budget, account_type_receivable, account_type_writeoff,
}
use coin.Domain.Account.{Account}
use coin.Domain.Error.{
  Error, invalid_merchant_no, invalid_customer_no, invalid_account_no, account_no_exists,
  customer_exists,
}
use coin.Ledger.Schema.{Result, ok, err}
use coin.Codes.Luhn.{is_valid_merchant_no, is_valid_customer_no, is_valid_account_no}

-- An operation on a state of the implementation's own.
abbrev pub Op : Type 0 → Type 0 → Type 0
Op S A = S → Result A × S

module _ {S : Type 0} where
  abbrev pub pure : {A : Type 0} → A → Op S A
  pure a s = (ok a, s)

  abbrev pub fail : {A : Type 0} → Error → Op S A
  fail e s = (err e, s)

  infixl 5 ◌>>=◌
  unfoldable pub ◌>>=◌ : {A B : Type 0} → Op S A → (A → Op S B) → Op S B
  ◌>>=◌ m f s = let (r, s') = m s in elim r [ ok a ↦ f a s' | err e ↦ fail e s' ]

  infixl 5 ◌>>◌
  unfoldable pub ◌>>◌ : {A B : Type 0} → Op S A → Op S B → Op S B
  ◌>>◌ m k s = let (r, s') = m s in elim r [ ok _ ↦ k s' | err e ↦ fail e s' ]

  unfoldable pub fail_if : Bool → Error → Op S (Unit {0})
  fail_if c e s = (if c then err e else ok tt, s)

  abbrev pub gets : {A : Type 0} → (S → A) → Op S A
  gets f s = (ok (f s), s)

  abbrev pub or_fail : {A : Type 0} → Option A → Error → Op S A
  or_fail none e = fail e
  or_fail (some a) e = pure a

-- internal/service/repository.go: `MerchantFeatureConfig`
pub record MerchantFeatureConfig : Type 0 where
  pub auto_create_account_on_customer_create : Bool
  pub auto_create_customer_on_credit : Bool

-- What the services ask of the repository and the providers.
pub record Registry (S : Type 0) : Type 0 where
  pub get_merchant_by_no : String → S → Option Merchant
  pub get_customer_by_out_user_id : String → String → S → Option Customer
  pub get_account_by_customer_no : String → String → S → Option Account
  pub get_merchant_feature_config : String → Op S (Option MerchantFeatureConfig)
  pub create_customer : Customer → Op S (Unit {0})
  pub create_account : Account → Op S (Unit {0})
  pub create_merchant_with_accounts : Merchant → List Account → Op S (Unit {0})
  pub new_uuid : Op S String
  pub new_merchant_no : Op S String
  pub new_customer_no : Op S String
  pub new_account_no : String → String → Op S String

abbrev pub is_account_no_exists : Error → Bool
is_account_no_exists account_no_exists = true
is_account_no_exists _ = false

abbrev is_customer_exists : Error → Bool
is_customer_exists customer_exists = true
is_customer_exists _ = false

abbrev pub customer_account : String → String → String → Account
customer_account merchant_no customer_no account_no = record {
  account_no = account_no;
  merchant_no = merchant_no;
  customer_no = customer_no;
  account_type = "CUSTOMER";
  allow_overdraft = false;
  max_overdraft_limit = pos 0;
  allow_debit_out = true;
  allow_credit_in = true;
  allow_transfer = true;
  book_enabled = true;
  balance = pos 0;
}

abbrev pub system_account : String → String → String → Bool → Bool → Bool → Account
system_account merchant_no account_no account_type overdraft debit_out transfer = record {
  account_no = account_no;
  merchant_no = merchant_no;
  customer_no = "";
  account_type = account_type;
  allow_overdraft = overdraft;
  max_overdraft_limit = pos 0;
  allow_debit_out = debit_out;
  allow_credit_in = true;
  allow_transfer = transfer;
  book_enabled = false;
  balance = pos 0;
}

abbrev pub merchant_of : String → String → String → String → String → String → Merchant
merchant_of merchant_id merchant_no name budget recv writeoff = record {
  merchant_id = merchant_id;
  merchant_no = merchant_no;
  name = name;
  budget_account_no = budget;
  receivable_account_no = recv;
  writeoff_account_no = writeoff;
}

-- The three accounts of `CreateMerchant`.
abbrev pub merchant_accounts : Merchant → List Account
merchant_accounts m =
    system_account m.merchant_no m.budget_account_no account_type_budget true true true
    ∷ system_account m.merchant_no m.receivable_account_no account_type_receivable false true true
    ∷ system_account m.merchant_no m.writeoff_account_no account_type_writeoff false false false
    ∷ []

module _ {S : Type 0} (r : Registry S) where
  -- What follows the creation of an account: its number, or another attempt if it was taken.
  abbrev pub retry_taken :
      String → Result (Unit {0}) × S → (S → Result String × S) → Result String × S
  retry_taken account_no (ok _, s) again = (ok account_no, s)
  retry_taken account_no (err e, s) again = if is_account_no_exists e then again s else (err e, s)

  -- The loop of `ensureDefaultCustomerAccount`, with the attempts that are left.
  unfoldable pub open_account : ℕ → String → String → Op S String
  open_account zero merchant_no customer_no = fail account_no_exists
  open_account (suc n) merchant_no customer_no =
      let again = open_account n merchant_no customer_no in
      r.new_account_no merchant_no "CUSTOMER" >>= λ account_no.
      fail_if (not (is_valid_account_no (bytes account_no))) invalid_account_no >> (λ s.
        retry_taken account_no
          (r.create_account (customer_account merchant_no customer_no account_no) s) again)

  abbrev pub numbered : Option Account → Option String
  numbered none = none
  numbered (some a) = if a.account_no == "" then none else some a.account_no

  abbrev pub opened_or : Option String → Op S String → Op S String
  opened_or none open_it = open_it
  opened_or (some account_no) open_it = pure account_no

  -- `ensureDefaultCustomerAccount`
  unfoldable pub ensure_default_customer_account : String → String → Op S String
  ensure_default_customer_account merchant_no customer_no =
      gets (r.get_account_by_customer_no merchant_no customer_no) >>= λ existing.
      opened_or (numbered existing) (open_account 3 merchant_no customer_no)

  abbrev is_known : Option Customer → Bool
  is_known none = false
  is_known (some c) = not (c.customer_id == "")

  -- `createCustomerOnly`
  unfoldable pub create_customer_only : String → String → Op S Customer
  create_customer_only merchant_no out_user_id = do
    found ← gets (r.get_merchant_by_no merchant_no)
    merchant ← or_fail found invalid_merchant_no
    existing ← gets (r.get_customer_by_out_user_id merchant_no out_user_id)
    fail_if (is_known existing) customer_exists
    customer_id ← r.new_uuid
    customer_no ← r.new_customer_no
    fail_if (not (is_valid_customer_no (bytes customer_no))) invalid_customer_no
    let c : Customer = record {
      customer_id = customer_id;
      customer_no = customer_no;
      merchant_no = merchant.merchant_no;
      out_user_id = out_user_id;
      default_account_no = "";
    }
    r.create_customer c
    pure c

  abbrev config_or_default : Option MerchantFeatureConfig → MerchantFeatureConfig
  config_or_default none = record {
    auto_create_account_on_customer_create = true;
    auto_create_customer_on_credit = true;
  }
  config_or_default (some c) = c

  -- `loadMerchantFeatureConfig`
  unfoldable pub load_merchant_feature_config : String → Op S MerchantFeatureConfig
  load_merchant_feature_config merchant_no = do
    found ← r.get_merchant_feature_config merchant_no
    pure (config_or_default found)

  -- `CreateCustomer`
  unfoldable pub create_customer : String → String → Op S Customer
  create_customer merchant_no out_user_id = do
    c ← create_customer_only merchant_no out_user_id
    config ← load_merchant_feature_config merchant_no
    if config.auto_create_account_on_customer_create
        then (do ensure_default_customer_account merchant_no c.customer_no; pure c)
        else pure c

  -- A customer that another call has created in between is loaded.
  abbrev loaded_if_exists : String → String → Result Customer × S → Result Customer × S
  loaded_if_exists merchant_no out_user_id (ok c, s) = (ok c, s)
  loaded_if_exists merchant_no out_user_id (err e, s) =
      if is_customer_exists e
      then or_fail (r.get_customer_by_out_user_id merchant_no out_user_id s) e s
      else (err e, s)

  abbrev known_or_created : String → String → Option Customer → Op S Customer
  known_or_created merchant_no out_user_id (some c) s = (ok c, s)
  known_or_created merchant_no out_user_id none s =
      loaded_if_exists merchant_no out_user_id (create_customer_only merchant_no out_user_id s)

  -- `EnsureCustomerAccountForCredit`; "" where customers are not created on a credit
  unfoldable pub ensure_customer_account_for_credit : String → String → Op S String
  ensure_customer_account_for_credit merchant_no out_user_id = do
    found ← gets (r.get_merchant_by_no merchant_no)
    merchant ← or_fail found invalid_merchant_no
    config ← load_merchant_feature_config merchant.merchant_no
    if config.auto_create_customer_on_credit
        then (do
          known ← gets (r.get_customer_by_out_user_id merchant.merchant_no out_user_id)
          c ← known_or_created merchant.merchant_no out_user_id known
          ensure_default_customer_account merchant.merchant_no c.customer_no)
        else pure ""

  abbrev resolved_no : String → Op S String
  resolved_no fixed = if fixed == "" then r.new_merchant_no else pure fixed

  -- `CreateMerchant`
  unfoldable pub create_merchant : String → String → Op S Merchant
  create_merchant merchant_no name = do
    merchant_id ← r.new_uuid
    let fixed = trim_space merchant_no
    fail_if (not (fixed == "") && not (is_valid_merchant_no (bytes fixed))) invalid_merchant_no
    resolved ← resolved_no fixed
    budget ← r.new_account_no resolved account_type_budget
    recv ← r.new_account_no resolved account_type_receivable
    writeoff ← r.new_account_no resolved account_type_writeoff
    fail_if (budget == recv || budget == writeoff || recv == writeoff) invalid_account_no
    fail_if
        (not (is_valid_account_no (bytes budget))
          || not (is_valid_account_no (bytes recv))
          || not (is_valid_account_no (bytes writeoff)))
        invalid_account_no
    let m = merchant_of merchant_id resolved name budget recv writeoff
    r.create_merchant_with_accounts m (merchant_accounts m)
    pure m
