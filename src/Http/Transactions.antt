-- ===== src/Http/Transactions.antt =====
-- internal/api/business.go: what the handlers that submit transfers and refunds share. The id of the merchant
-- in the request's context and the fields of the body are given; a field that a body leaves out is
-- its zero.
pub mod Handlers
pub mod Bodies
pub mod Submitted
pub mod Handled
pub mod CreditAccount
pub mod Issued
pub mod Refunded
pub mod Accepted
pub mod Composed
use coin.Base.{
  ℕ, ◌+◌, ◌-◌, ◌*◌, ◌/◌, ◌^◌, String, Bool, true, false, not, ◌&&◌, ◌||◌, Option, none, some, List,
  [], ◌∷◌, ltb, leb, ◌=?◌, ◌==◌, if◌then◌else◌, length,
}
use coin.Int.{ℤ, pos, pos_part, ltb_ℤ, leb_ℤ}
use coin.Text.{trim_space}
use coin.Text.Case.{to_upper}
use coin.Text.Hash.{bytes}
use coin.Domain.{
  TransferTxn, Merchant, biz_type_transfer, biz_type_refund, scene_issue, scene_consume, scene_p2p,
}
use coin.Domain.Error.{
  Error, account_resolve_conflict, account_resolve_failed, duplicate_out_trade_no, txn_not_found,
  txn_status_invalid, account_forbid_debit, account_forbid_credit, account_forbid_transfer,
  refund_amount_exceeded,
}
use coin.Domain.Account.{Account}
use coin.Domain.StateMachine.{txn_status_init}
use coin.Ledger.Schema.{Result, ok, err}
use coin.Transfer.{TransferRequest}
use coin.Transfer.Routing.{TransferRoutingRequest, TransferRoutingResult}
use coin.Http.{
  Outcome, passed, refused, Reply, write_created, write_transfer_error, internal_error,
  invalid_param, found_or, ◌>>=◌, ◌>>◌, refuse_if, authenticated,
}
use coin.Http.Services.{Dispatcher, by_txn, by_status, by_number, Services}

pub record CreditRequest : Type 0 where
  pub out_trade_no : String
  pub title : String
  pub remark : String
  pub debit_account_no : String
  pub credit_account_no : String
  pub user_id : String
  pub expire_in_days : ℤ
  pub amount : ℤ

pub record DebitRequest : Type 0 where
  pub out_trade_no : String
  pub title : String
  pub remark : String
  pub biz_type : String
  pub transfer_scene : String
  pub debit_account_no : String
  pub debit_out_user_id : String
  pub credit_account_no : String
  pub credit_out_user_id : String
  pub amount : ℤ

-- `transferRequest`
pub record P2PRequest : Type 0 where
  pub out_trade_no : String
  pub title : String
  pub remark : String
  pub biz_type : String
  pub transfer_scene : String
  pub from_account_no : String
  pub from_out_user_id : String
  pub to_account_no : String
  pub to_out_user_id : String
  pub to_expire_in_days : ℤ
  pub amount : ℤ

pub record RefundRequest : Type 0 where
  pub out_trade_no : String
  pub title : String
  pub remark : String
  pub biz_type : String
  pub refund_of_txn_no : String
  pub amount : ℤ

-- [A-Za-z0-9_-]
abbrev is_out_trade_no_char : ℕ → Bool
is_out_trade_no_char c =
    leb 65 c && leb c 90 || leb 97 c && leb c 122 || leb 48 c && leb c 57 || c =? 95 || c =? 45

abbrev all_chars : List ℕ → Bool
all_chars [] = true
all_chars (c ∷ v) = is_out_trade_no_char c && all_chars v

-- `isValidOutTradeNo`, the pattern ^[A-Za-z0-9_-]{1,64}$; what it accepts is ASCII
unfoldable pub is_valid_out_trade_no : String → Bool
is_valid_out_trade_no s = let v = bytes s in leb 1 (length v) && leb (length v) 64 && all_chars v

-- `isValidTxnCopy`
unfoldable pub is_valid_txn_copy : String → ℕ → Bool
is_valid_txn_copy v limit = leb (length (bytes v)) limit

abbrev pub max_txn_title_len : ℕ
max_txn_title_len = 128

abbrev pub max_txn_remark_len : ℕ
max_txn_remark_len = 512

-- The nanoseconds of a day.
abbrev pub day : ℕ
day = 86400000000000

-- `calcExpireAtByDays`; `none` is its error
unfoldable pub calc_expire_at_by_days : ℕ → ℤ → Option ℕ
calc_expire_at_by_days now days =
    if leb_ℤ days (pos 0) || ltb ((2 ^ 63 - 1) / day) (pos_part days)
    then none
    else some (now + pos_part days * day)

-- `normalizeExpiryDayUTC`
unfoldable pub normalize_expiry_day_utc : ℕ → ℕ
normalize_expiry_day_utc t = t / day * day

-- The number of a created transaction, and the status that is written for it.
pub record Created : Type 0 where
  pub txn_no : String
  pub status : String

-- The tests that every request passes first, on trimmed fields.
unfoldable pub check_copy : String → String → String → Outcome (Unit {0})
check_copy out_trade_no title remark = do
  refuse_if (not (is_valid_out_trade_no out_trade_no)) (invalid_param "invalid out_trade_no")
  refuse_if
      (not (is_valid_txn_copy title max_txn_title_len)
        || not (is_valid_txn_copy remark max_txn_remark_len))
      (invalid_param "invalid title or remark")

-- A field that may be left out, but must have the value otherwise.
abbrev pub is_other : String → String → Bool
is_other value expected = not (value == "") && not (value == expected)

-- What `strings.TrimSpace(strings.ToUpper(s))` makes of a field.
abbrev pub normalized : String → String
normalized s = trim_space (to_upper s)

-- What the handlers of transfers submit.
abbrev pub transfer_request :
    String
    → String
    → String
    → String
    → String
    → TransferRoutingResult
    → Option ℕ
    → ℤ
    → TransferRequest
transfer_request merchant_no out_trade_no title remark scene parties expire_at amount = record {
  merchant_no = merchant_no;
  out_trade_no = out_trade_no;
  title = title;
  remark = remark;
  biz_type = biz_type_transfer;
  transfer_scene = scene;
  debit_account_no = parties.debit_account_no;
  credit_account_no = parties.credit_account_no;
  credit_expire_at = expire_at;
  refund_of_txn_no = "";
  amount = amount;
  refundable_amount = amount;
  status = txn_status_init;
}

-- The answers of `handleCredit`, `handleDebit` and `handleTransfer` to an error of `Submit`.
abbrev pub submit_error : Error → Outcome (Reply Created)
submit_error duplicate_out_trade_no = refused 409 "DUPLICATE_OUT_TRADE_NO" "duplicate out_trade_no"
submit_error _ = internal_error "submit transfer failed"

-- The answers of `handleRefund`.
abbrev pub refund_error : Error → Outcome (Reply Created)
refund_error duplicate_out_trade_no = refused 409 "DUPLICATE_OUT_TRADE_NO" "duplicate out_trade_no"
refund_error txn_not_found = refused 404 "REFUND_ORIGIN_NOT_FOUND" "origin txn not found"
refund_error txn_status_invalid =
    refused 409 "REFUND_ORIGIN_INVALID" "origin txn invalid for refund"
refund_error account_resolve_failed =
    refused 409 "REFUND_ORIGIN_INVALID" "origin txn invalid for refund"
refund_error account_forbid_debit =
    refused 409 "REFUND_ORIGIN_INVALID" "origin txn invalid for refund"
refund_error account_forbid_credit =
    refused 409 "REFUND_ORIGIN_INVALID" "origin txn invalid for refund"
refund_error account_forbid_transfer =
    refused 409 "REFUND_ORIGIN_INVALID" "origin txn invalid for refund"
refund_error refund_amount_exceeded = refused 409 "REFUND_AMOUNT_EXCEEDED" "refund amount exceeded"
refund_error _ = internal_error "submit refund failed"

module _ {S : Type 0} (svc : Services S) where
  -- `enqueueTxn`
  unfoldable pub enqueue_txn : TransferTxn → S → S
  enqueue_txn txn s = elim svc.dispatcher [
    | by_txn f ↦ (f txn s).1
    | by_status f ↦ (f txn.txn_no txn.status s).1
    | by_number f ↦ f txn.txn_no s
  ]

  -- The merchant of the context, who exists.
  unfoldable pub known_merchant : Option String → S → Outcome String
  known_merchant context s = authenticated context >>= λ merchant_no.
      found_or (svc.get_merchant_by_no merchant_no s)
        (refused 404 "MERCHANT_NOT_FOUND" "merchant not found")
      >>= λ _. passed merchant_no

  abbrev pub resolved_or : Outcome String → String → Result String → Outcome String
  resolved_or missing failed (ok account_no) =
      if account_no == "" then missing else passed account_no
  resolved_or missing failed (err account_resolve_conflict) =
      refused 409 "ACCOUNT_RESOLVE_CONFLICT" "account resolve conflict"
  resolved_or missing failed (err _) = internal_error failed

  -- The account of a party that is named by its number, by its user or by both.
  unfoldable pub party_account : String → String → String → String → String → S → Outcome String
  party_account merchant_no account_no out_user_id missing failed s =
      if out_user_id == ""
      then passed account_no
      else resolved_or (refused 404 "OUT_USER_ID_NOT_FOUND" missing) failed
          (svc.resolve_customer_account merchant_no account_no out_user_id s)

  abbrev pub routed_or : Result TransferRoutingResult → Outcome TransferRoutingResult
  routed_or (ok r) = passed r
  routed_or (err e) = write_transfer_error e

  unfoldable pub routed_parties :
      String → String → String → String → S → Outcome TransferRoutingResult
  routed_parties merchant_no scene debit credit s = routed_or (
      svc.resolve
        (record {
          merchant_no = merchant_no;
          scene = scene;
          debit_account_no = debit;
          credit_account_no = credit;
        })
        s)

  abbrev pub account_or_404 : String → S → Outcome Account
  account_or_404 account_no s =
      found_or (svc.get_account account_no s) (refused 404 "ACCOUNT_NOT_FOUND" "account not found")

  abbrev pub answer_submitted :
      (Error → Outcome (Reply Created)) → Result TransferTxn × S → Outcome (Reply Created) × S
  answer_submitted on_error (err e, s) = (on_error e, s)
  answer_submitted on_error (ok txn, s) =
      (write_created (record { txn_no = txn.txn_no; status = txn_status_init }), enqueue_txn txn s)

  -- The end of each handler: the call of `Submit` for what has passed, and what follows.
  abbrev pub submit_passed :
      (Error → Outcome (Reply Created)) → Outcome TransferRequest → S → Outcome (Reply Created) × S
  submit_passed on_error (refused status code message) s = (refused status code message, s)
  submit_passed on_error (passed req) s = answer_submitted on_error (svc.submit req s)
