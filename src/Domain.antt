-- ===== src/Domain.antt =====
-- internal/domain: the records, constants and errors that the services and the repository share.
-- An instant is the number of nanoseconds since 0001-01-01 UTC, Go's zero time, so `IsZero` is a
-- test for 0; a date is the number of days since then. No earlier time is modelled.
pub mod Error
pub mod Account
pub mod StateMachine
use coin.Base.{ℕ, String, Option, Bool}
use coin.Int.{ℤ}

abbrev pub account_type_budget : String
account_type_budget = "BUDGET"

abbrev pub account_type_receivable : String
account_type_receivable = "RECEIVABLE"

abbrev pub account_type_writeoff : String
account_type_writeoff = "WRITEOFF"

abbrev pub biz_type_transfer : String
biz_type_transfer = "TRANSFER"

abbrev pub biz_type_refund : String
biz_type_refund = "REFUND"

abbrev pub scene_issue : String
scene_issue = "ISSUE"

abbrev pub scene_consume : String
scene_consume = "CONSUME"

abbrev pub scene_p2p : String
scene_p2p = "P2P"

abbrev pub scene_adjust : String
scene_adjust = "ADJUST"

abbrev pub scene_expire_writeoff : String
scene_expire_writeoff = "EXPIRE_WRITEOFF"

pub record Merchant : Type 0 where
  pub merchant_id : String
  pub merchant_no : String
  pub name : String
  pub budget_account_no : String
  pub receivable_account_no : String
  pub writeoff_account_no : String

pub record Customer : Type 0 where
  pub customer_id : String
  pub customer_no : String
  pub merchant_no : String
  pub out_user_id : String
  pub default_account_no : String

pub record TransferTxn : Type 0 where
  pub txn_no : String
  pub merchant_no : String
  pub out_trade_no : String
  pub title : String
  pub remark : String
  pub biz_type : String
  pub transfer_scene : String
  pub debit_account_no : String
  pub credit_account_no : String
  pub credit_expire_at : ℕ
  pub amount : ℤ
  pub refund_of_txn_no : String
  pub refundable_amount : ℤ
  pub status : String
  pub error_code : String
  pub error_msg : String
  pub created_at : ℕ
