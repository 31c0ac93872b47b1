-- ===== src/Ledger/Schema.antt =====
-- The tables of migrations/ that the ledger reads and writes, and a database transaction as a
-- state that fallible statements share. A UUID is the number that its 128 bits stand for; a
-- nullable text column holds "" for NULL, as the statements' COALESCE has it.
use coin.Base.{ℕ, String, Bool, Option, none, some, List, if◌then◌else◌}
use coin.Int.{ℤ}
use coin.Domain.{Merchant, Customer}
use coin.Domain.Error.{Error}
use coin.Domain.Account.{Account}

pub record TxnRow : Type 0 where
  pub txn_no : ℕ
  pub merchant_no : String
  pub out_trade_no : String
  pub title : String
  pub remark : String
  pub biz_type : String
  pub transfer_scene : String
  pub debit_account_no : String
  pub credit_account_no : String
  pub credit_expire_at : Option ℕ
  pub amount : ℤ
  pub refund_of_txn_no : Option ℕ
  pub refundable_amount : ℤ
  pub status : String
  pub error_code : String
  pub error_msg : String

pub record BookRow : Type 0 where
  pub book_no : ℕ
  pub account_no : String
  pub expire_at : ℕ
  pub balance : ℤ

pub record AccountChange : Type 0 where
  pub txn_no : ℕ
  pub account_no : String
  pub delta : ℤ
  pub balance_before : ℤ
  pub balance_after : ℤ

pub record BookChange : Type 0 where
  pub txn_no : ℕ
  pub account_no : String
  pub book_no : ℕ
  pub delta : ℤ
  pub balance_before : ℤ
  pub balance_after : ℤ
  pub expire_at : ℕ
  pub created_at : ℕ

pub record OutboxRow : Type 0 where
  pub event_id : ℕ
  pub txn_no : ℕ
  pub merchant_no : String
  pub out_trade_no : String
  pub status : String
  pub retry_count : ℕ

pub record WebhookRow : Type 0 where
  pub merchant_no : String
  pub url : String
  pub enabled : Bool

pub record Db : Type 0 where
  pub merchants : List Merchant
  pub customers : List Customer
  pub accounts : List Account
  pub books : List BookRow
  pub txns : List TxnRow
  pub account_changes : List AccountChange
  pub book_changes : List BookChange
  pub outbox : List OutboxRow
  pub webhooks : List WebhookRow

pub data Result (A : Type 0) : Type 0 where
  ok : A → Result A
  err : Error → Result A

-- What a statement has written stays written in the transaction when a later one fails; the
-- caller rolls it back.
abbrev pub Tx : Type 0 → Type 0
Tx A = Db → Result A × Db

module _ {A : Type 0} where
  abbrev pub pure : A → Tx A
  pure a db = (ok a, db)

  abbrev pub fail : Error → Tx A
  fail e db = (err e, db)

  abbrev pub gets : (Db → A) → Tx A
  gets f db = (ok (f db), db)

  -- `pgx.ErrNoRows`, or another missing value, as the error `e`
  abbrev pub or_fail : Option A → Error → Tx A
  or_fail none e = fail e
  or_fail (some a) _ = pure a

infixl 5 ◌>>=◌ ◌>>◌
abbrev pub ◌>>=◌ : {A B : Type 0} → Tx A → (A → Tx B) → Tx B
◌>>=◌ m f db = let (r, db') = m db in elim r [ ok a ↦ f a db' | err e ↦ fail e db' ]

abbrev pub ◌>>◌ : {A B : Type 0} → Tx A → Tx B → Tx B
m >> k = m >>= λ _. k

abbrev pub fail_if : Bool → Error → Tx (Unit {0})
fail_if c e db = (if c then err e else ok tt, db)

-- A check that returns an `error` alone.
abbrev pub check : Option Error → Tx (Unit {0})
check none = pure tt
check (some e) = fail e

abbrev pub modify : (Db → Db) → Tx (Unit {0})
modify f db = (ok tt, f db)

-- What the ledger takes from outside: the instants that `time.Now` returns where the sweep, the
-- listing of books and a refund ask for it, and `NOW()` of the transaction; the UUIDs that the
-- generator hands out, `none` for an error; the id of a transaction's outbox event; and the codes
-- of new accounts.
pub record Env : Type 0 where
  pub now_sweep : ℕ
  pub now_list : ℕ
  pub now_refund : ℕ
  pub now_tx : ℕ
  pub uuid : ℕ → Option ℕ
  pub event_id : ℕ → ℕ
  pub new_account_no : String → String → Result String
