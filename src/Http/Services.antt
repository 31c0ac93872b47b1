-- ===== src/Http/Services.antt =====
-- internal/api/business.go: what `BusinessHandler` asks of the services, over a state of any kind.
use coin.Base.{ℕ, String, Bool, Option, List}
use coin.Int.{ℤ}
use coin.Domain.{TransferTxn, Merchant}
use coin.Domain.Error.{Error}
use coin.Domain.Account.{Account}
use coin.Ledger.Schema.{Result}
use coin.Transfer.{TransferRequest}
use coin.Transfer.Routing.{TransferRoutingRequest, TransferRoutingResult}

-- internal/service/txn_query_service.go: `QueryTxn` and its filter
pub record QueryTxn : Type 0 where
  pub txn_no : String
  pub merchant_no : String
  pub out_trade_no : String
  pub out_user_id : String
  pub title : String
  pub remark : String
  pub scene : String
  pub status : String
  pub amount : ℤ
  pub refundable_amount : ℤ
  pub debit_account_no : String
  pub credit_account_no : String
  pub error_code : String
  pub error_msg : String
  pub created_at : ℕ

pub record QueryFilter : Type 0 where
  pub merchant_no : String
  pub out_user_id : String
  pub scene : String
  pub status : String
  pub start_time : Option ℕ
  pub end_time : Option ℕ
  pub page_size : ℤ
  pub page_token : String

-- internal/domain/transaction.go: the records of what is listed
pub record AccountChangeLog : Type 0 where
  pub change_id : ℤ
  pub txn_no : String
  pub account_no : String
  pub delta : ℤ
  pub balance_before : ℤ
  pub balance_after : ℤ
  pub title : String
  pub remark : String
  pub created_at : ℕ

pub record AccountChangeLogListFilter : Type 0 where
  pub merchant_no : String
  pub account_no : String
  pub page_size : ℤ
  pub page_token : String

pub record AccountBook : Type 0 where
  pub book_no : String
  pub account_no : String
  pub expire_at : ℕ
  pub balance : ℤ

pub record BookCreditChangeLog : Type 0 where
  pub change_id : ℤ
  pub txn_no : String
  pub delta : ℤ
  pub title : String
  pub created_at : ℕ

pub record WebhookConfig : Type 0 where
  pub url : String
  pub enabled : Bool

-- What an asynchronous dispatcher offers beside `Enqueue`, the first that it has.
pub data Dispatcher (S : Type 0) : Type 0 where
  -- `transferAsyncTxnDispatcher`
  by_txn : (TransferTxn → S → Bool × S) → Dispatcher S
  -- `transferAsyncStatusDispatcher`
  by_status : (String → String → S → Bool × S) → Dispatcher S
  -- `TransferAsyncDispatcher`
  by_number : (String → S → S) → Dispatcher S

pub record Services (S : Type 0) : Type 0 where
  pub get_merchant_by_no : String → S → Option Merchant
  pub resolve : TransferRoutingRequest → S → Result TransferRoutingResult
  pub resolve_customer_account : String → String → String → S → Result String
  pub ensure_customer_account_for_credit : String → String → S → Result String × S
  pub get_account : String → S → Option Account
  pub get_available_balance : String → S → Result (Option ℤ)
  pub submit : TransferRequest → S → Result TransferTxn × S
  pub dispatcher : Dispatcher S
  pub get_by_txn_no : String → S → Option QueryTxn
  pub get_by_out_trade_no : String → String → S → Option QueryTxn
  pub list : QueryFilter → S → List QueryTxn × String
  pub list_account_change_logs : AccountChangeLogListFilter → S → List AccountChangeLog × String
  pub list_active_account_books : String → ℕ → S → Result (List AccountBook)
  pub list_book_credit_change_logs : String → S → Result (List BookCreditChangeLog)
  pub upsert_webhook_config : String → String → Bool → S → Option Error × S
  pub get_webhook_config : String → S → Result (Option WebhookConfig)
  -- `nowFn`
  pub now : S → ℕ
