-- ===== src/Http/Transactions/Handlers.antt =====
-- internal/api/business.go: `handleCredit`, `handleDebit`, `handleTransfer` and `handleRefund`.
use coin.Base.{ℕ, String, Bool, not, ◌&&◌, ◌||◌, Option, none, some, ◌==◌, if◌then◌else◌}
use coin.Int.{pos, ltb_ℤ, leb_ℤ}
use coin.Text.{trim_space}
use coin.Domain.{biz_type_transfer, biz_type_refund, scene_issue, scene_consume, scene_p2p}
use coin.Domain.Error.{account_resolve_conflict}
use coin.Domain.Account.{Account}
use coin.Domain.StateMachine.{txn_status_init}
use coin.Ledger.Schema.{Result, ok, err}
use coin.Int.{ℤ}
use coin.Transfer.{TransferRequest}
use coin.Http.{
  Outcome, passed, refused, Reply, internal_error, invalid_param, found_or, ◌>>=◌, ◌>>◌, refuse_if,
}
use coin.Http.Services.{Services}
use coin.Http.Transactions.{
  CreditRequest, DebitRequest, P2PRequest, RefundRequest, Created, check_copy, is_other, normalized,
  calc_expire_at_by_days, normalize_expiry_day_utc, known_merchant, party_account, routed_parties,
  account_or_404, transfer_request, submit_error, refund_error, submit_passed,
}

module _ {S : Type 0} (svc : Services S) where
  -- `handleDebit` up to its call of `Submit`
  unfoldable pub debit_submission :
      Option String → Option DebitRequest → S → Outcome TransferRequest
  debit_submission context body s = do
    merchant_no ← known_merchant svc context s
    req ← found_or body (invalid_param "invalid request body")
    let out_trade_no = trim_space req.out_trade_no
    let title = trim_space req.title
    let remark = trim_space req.remark
    let debit_no = trim_space req.debit_account_no
    let debit_user = trim_space req.debit_out_user_id
    refuse_if (out_trade_no == "" || leb_ℤ req.amount (pos 0))
        (invalid_param "out_trade_no and amount are required")
    check_copy out_trade_no title remark
    refuse_if (debit_no == "" && debit_user == "")
        (invalid_param "debit_account_no or debit_out_user_id is required")
    refuse_if (is_other (normalized req.biz_type) biz_type_transfer)
        (invalid_param "biz_type must be TRANSFER")
    refuse_if (is_other (normalized req.transfer_scene) scene_consume)
        (invalid_param "transfer_scene must be CONSUME")
    debit ←
        party_account svc merchant_no debit_no debit_user "account not found by debit_out_user_id"
          "resolve debit account failed" s
    credit ←
        party_account svc merchant_no (trim_space req.credit_account_no)
          (trim_space req.credit_out_user_id) "account not found by credit_out_user_id"
          "resolve credit account failed" s
    parties ← routed_parties svc merchant_no scene_consume debit credit s
    account ← account_or_404 svc parties.credit_account_no s
    refuse_if account.book_enabled (invalid_param "consume credit account does not support book")
    passed (
        transfer_request merchant_no out_trade_no title remark scene_consume parties none
          req.amount)

  -- `handleDebit`
  unfoldable pub handle_debit :
      Option String → Option DebitRequest → S → Outcome (Reply Created) × S
  handle_debit context body s = submit_passed svc submit_error (debit_submission context body s) s

  abbrev pub some_expiry : String → Option ℕ → Outcome (Option ℕ)
  some_expiry message none = invalid_param message
  some_expiry message (some t) = passed (some (normalize_expiry_day_utc t))

  -- The expiry of what a transfer credits to an account with books from one without.
  abbrev pub transfer_expiry : Account → Account → ℤ → S → Outcome (Option ℕ)
  transfer_expiry from to days s =
      if to.book_enabled && not from.book_enabled
      then (if leb_ℤ days (pos 0)
          then invalid_param "to_expire_in_days is required for expiry account"
          else some_expiry "invalid to_expire_in_days" (calc_expire_at_by_days (svc.now s) days))
      else passed none

  -- `handleTransfer` up to its call of `Submit`
  unfoldable pub transfer_submission :
      Option String → Option P2PRequest → S → Outcome TransferRequest
  transfer_submission context body s = do
    merchant_no ← known_merchant svc context s
    req ← found_or body (invalid_param "invalid request body")
    let out_trade_no = trim_space req.out_trade_no
    let title = trim_space req.title
    let remark = trim_space req.remark
    let from_no = trim_space req.from_account_no
    let from_user = trim_space req.from_out_user_id
    let to_no = trim_space req.to_account_no
    let to_user = trim_space req.to_out_user_id
    refuse_if (out_trade_no == "" || leb_ℤ req.amount (pos 0))
        (invalid_param "out_trade_no and amount are required")
    check_copy out_trade_no title remark
    refuse_if (from_no == "" && from_user == "")
        (invalid_param "from_account_no or from_out_user_id is required")
    refuse_if (to_no == "" && to_user == "")
        (invalid_param "to_account_no or to_out_user_id is required")
    refuse_if (is_other (normalized req.biz_type) biz_type_transfer)
        (invalid_param "biz_type must be TRANSFER")
    refuse_if (is_other (normalized req.transfer_scene) scene_p2p)
        (invalid_param "transfer_scene must be P2P")
    refuse_if (ltb_ℤ req.to_expire_in_days (pos 0)) (invalid_param "to_expire_in_days must be >= 0")
    debit ←
        party_account svc merchant_no from_no from_user "account not found by from_out_user_id"
          "resolve from account failed" s
    credit ←
        party_account svc merchant_no to_no to_user "account not found by to_out_user_id"
          "resolve to account failed" s
    parties ← routed_parties svc merchant_no scene_p2p debit credit s
    from ← account_or_404 svc parties.debit_account_no s
    to ← account_or_404 svc parties.credit_account_no s
    expire_at ← transfer_expiry from to req.to_expire_in_days s
    passed (
        transfer_request merchant_no out_trade_no title remark scene_p2p parties expire_at
          req.amount)

  -- `handleTransfer`
  unfoldable pub handle_transfer :
      Option String → Option P2PRequest → S → Outcome (Reply Created) × S
  handle_transfer context body s =
      submit_passed svc submit_error (transfer_submission context body s) s

  abbrev pub created_account : Result String × S → Outcome String × S
  created_account (err e, s) = (internal_error "auto create customer account failed", s)
  created_account (ok account_no, s) = (
    (if trim_space account_no == ""
        then refused 404 "OUT_USER_ID_NOT_FOUND" "account not found by user_id"
        else passed (trim_space account_no)),
    s,
  )

  -- What follows the resolution of the account of a credit.
  abbrev pub resolved_account : String → CreditRequest → Result String → S → Outcome String × S
  resolved_account merchant_no req (ok account_no) s =
      if not (account_no == "")
      then (passed account_no, s)
      else if req.credit_account_no == ""
      then created_account (svc.ensure_customer_account_for_credit merchant_no req.user_id s)
      else (refused 404 "OUT_USER_ID_NOT_FOUND" "account not found by user_id", s)
  resolved_account merchant_no req (err account_resolve_conflict) s =
      (refused 409 "ACCOUNT_RESOLVE_CONFLICT" "account resolve conflict", s)
  resolved_account merchant_no req (err _) s = (internal_error "resolve credit account failed", s)

  -- The account that `handleCredit` credits, which a user without one is given.
  unfoldable pub credit_account : String → CreditRequest → S → Outcome String × S
  credit_account merchant_no req s =
      if req.user_id == ""
      then (passed req.credit_account_no, s)
      else resolved_account merchant_no req
          (svc.resolve_customer_account merchant_no req.credit_account_no req.user_id s) s

  -- The merchant and the trimmed body of a credit.
  unfoldable pub credit_fields :
      Option String → Option CreditRequest → S → Outcome (String × CreditRequest)
  credit_fields context body s = do
    merchant_no ← known_merchant svc context s
    given ← found_or body (invalid_param "invalid request body")
    let req : CreditRequest = record {
      out_trade_no = trim_space given.out_trade_no;
      title = trim_space given.title;
      remark = trim_space given.remark;
      debit_account_no = trim_space given.debit_account_no;
      credit_account_no = trim_space given.credit_account_no;
      user_id = trim_space given.user_id;
      expire_in_days = given.expire_in_days;
      amount = given.amount;
    }
    refuse_if (req.out_trade_no == "" || leb_ℤ req.amount (pos 0))
        (invalid_param "out_trade_no and amount are required")
    check_copy req.out_trade_no req.title req.remark
    refuse_if (req.credit_account_no == "" && req.user_id == "")
        (invalid_param "credit_account_no or user_id is required")
    refuse_if (ltb_ℤ req.expire_in_days (pos 0)) (invalid_param "expire_in_days must be >= 0")
    passed (merchant_no, req)

  abbrev pub credit_expiry : Account → ℤ → S → Outcome (Option ℕ)
  credit_expiry to days s =
      if to.book_enabled && ltb_ℤ (pos 0) days
      then some_expiry "invalid expire_in_days" (calc_expire_at_by_days (svc.now s) days)
      else passed none

  -- The rest of `handleCredit` up to its call of `Submit`.
  unfoldable pub credit_submission : String → CreditRequest → String → S → Outcome TransferRequest
  credit_submission merchant_no req credit s = do
    parties ← routed_parties svc merchant_no scene_issue req.debit_account_no credit s
    account ← account_or_404 svc parties.credit_account_no s
    expire_at ← credit_expiry account req.expire_in_days s
    passed (
        transfer_request merchant_no req.out_trade_no req.title req.remark scene_issue parties
          expire_at req.amount)

  abbrev pub submit_credit :
      String × CreditRequest → Outcome String × S → Outcome (Reply Created) × S
  submit_credit req (refused status code message, s) = (refused status code message, s)
  submit_credit (merchant_no, req) (passed account_no, s) =
      submit_passed svc submit_error (credit_submission merchant_no req account_no s) s

  abbrev pub credit_passed : Outcome (String × CreditRequest) → S → Outcome (Reply Created) × S
  credit_passed (refused status code message) s = (refused status code message, s)
  credit_passed (passed (merchant_no, req)) s =
      submit_credit (merchant_no, req) (credit_account merchant_no req s)

  -- `handleCredit`
  unfoldable pub handle_credit :
      Option String → Option CreditRequest → S → Outcome (Reply Created) × S
  handle_credit context body s = credit_passed (credit_fields context body s) s

  -- `handleRefund` up to its call of `Submit`; `is_valid_uuid` is that of a library
  unfoldable pub refund_submission :
      (String → Bool) → Option String → Option RefundRequest → S → Outcome TransferRequest
  refund_submission is_valid_uuid context body s = do
    merchant_no ← known_merchant svc context s
    req ← found_or body (invalid_param "invalid request body")
    let out_trade_no = trim_space req.out_trade_no
    let title = trim_space req.title
    let remark = trim_space req.remark
    let origin_no = trim_space req.refund_of_txn_no
    refuse_if (out_trade_no == "" || origin_no == "" || leb_ℤ req.amount (pos 0))
        (invalid_param "out_trade_no, refund_of_txn_no and amount are required")
    check_copy out_trade_no title remark
    refuse_if (not (is_valid_uuid origin_no)) (invalid_param "invalid refund_of_txn_no")
    refuse_if (is_other (normalized req.biz_type) biz_type_refund)
        (invalid_param "biz_type must be REFUND")
    passed (record {
      merchant_no = merchant_no;
      out_trade_no = out_trade_no;
      title = title;
      remark = remark;
      biz_type = biz_type_refund;
      transfer_scene = "";
      debit_account_no = "";
      credit_account_no = "";
      credit_expire_at = none;
      refund_of_txn_no = origin_no;
      amount = req.amount;
      refundable_amount = pos 0;
      status = txn_status_init;
    })

  -- `handleRefund`
  unfoldable pub handle_refund :
      (String → Bool) → Option String → Option RefundRequest → S → Outcome (Reply Created) × S
  handle_refund is_valid_uuid context body s =
      submit_passed svc refund_error (refund_submission is_valid_uuid context body s) s
