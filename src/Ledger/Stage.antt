-- ===== src/Ledger/Stage.antt =====
-- repository.go: the stages of a transaction, each in one database transaction: from INIT to
-- PAY_SUCCESS the debit, from PAY_SUCCESS to RECV_SUCCESS the credit.
pub mod Once
pub mod Quota
pub mod Split
use coin.Base.{
  ℕ, String, Bool, true, false, not, ◌&&◌, ◌||◌, Option, none, some, List, [], ◌∷◌, ◌=?◌, ◌==◌,
  if◌then◌else◌,
}
use coin.Int.{ℤ, pos, ltb_ℤ}
use coin.Text.{trim_space}
use coin.Domain.{biz_type_transfer, biz_type_refund}
use coin.Domain.Error.{
  Error, account_resolve_failed, txn_status_invalid, txn_not_found, refund_amount_exceeded,
}
use coin.Domain.StateMachine.{txn_status_init, txn_status_pay_success, txn_status_recv_success}
use coin.Ledger.Schema.{
  Result, ok, err, TxnRow, OutboxRow, Db, Env, Tx, pure, fail, gets, or_fail, ◌>>=◌, ◌>>◌, fail_if,
  modify,
}
use coin.Ledger.Query.Txns.{
  get_txn, update_txn_status, decrease_origin_refundable, insert_outbox_event,
}
use coin.Ledger.Parts.{apply_transfer_credit, apply_refund_credit}
use coin.Ledger.Debit.{apply_account_debit}

-- internal/service/repository.go: `TxnStageApplyResult`
pub record TxnStageApplyResult : Type 0 where
  pub applied : Bool
  pub current_status : String
  pub biz_type : String
  pub debit_account_no : String
  pub credit_account_no : String

abbrev pub no_result : TxnStageApplyResult
no_result = record {
  applied = false;
  current_status = "";
  biz_type = "";
  debit_account_no = "";
  credit_account_no = "";
}

-- `classifyOriginRefundDecreaseMiss`, which returns an error in each case
unfoldable pub classify_origin_refund_decrease_miss : ℕ → String → ℤ → Db → Error
classify_origin_refund_decrease_miss origin_no merchant_no amount db = elim (get_txn origin_no db) [
  | none ↦ txn_not_found
  | some origin ↦
      if not (merchant_no == "") && not (origin.merchant_no == merchant_no)
      then txn_not_found
      else if not (origin.biz_type == biz_type_transfer)
          || not (origin.status == txn_status_recv_success)
      then txn_status_invalid
      else refund_amount_exceeded
]

-- The part of a refund's debit that takes the amount from what the origin can still refund.
unfoldable pub take_refund_quota : ℕ → String → ℤ → Tx (Unit {0})
take_refund_quota origin_no merchant_no amount = do
  taken ← decrease_origin_refundable origin_no merchant_no amount
  if taken
      then pure tt
      else (do e ← gets (classify_origin_refund_decrease_miss origin_no merchant_no amount); fail e)

abbrev set_applied : String → TxnStageApplyResult → TxnStageApplyResult
set_applied status r = record r { applied = true; current_status = status }

-- The INIT stage of `ApplyTxnStage`, for a row whose status and kind have been tested.
unfoldable pub init_stage : Env → TxnRow → TxnStageApplyResult → Tx (Unit {0})
init_stage env stage result =
    if result.biz_type == biz_type_transfer
    then (do
      fail_if (result.debit_account_no == "") account_resolve_failed
      apply_account_debit env stage.txn_no result.debit_account_no stage.amount
      modify (update_txn_status txn_status_pay_success stage.txn_no))
    else (do
      origin ← or_fail stage.refund_of_txn_no txn_status_invalid
      take_refund_quota origin stage.merchant_no stage.amount
      let refund_debit = trim_space result.debit_account_no
      let refund_credit = trim_space result.credit_account_no
      fail_if (refund_debit == "" || refund_credit == "") account_resolve_failed
      apply_account_debit env stage.txn_no refund_debit stage.amount
      modify (update_txn_status txn_status_pay_success stage.txn_no))

abbrev pub outbox_row : Env → TxnRow → OutboxRow
outbox_row env stage = record {
  event_id = env.event_id stage.txn_no;
  txn_no = stage.txn_no;
  merchant_no = stage.merchant_no;
  out_trade_no = stage.out_trade_no;
  status = "PENDING";
  retry_count = 0;
}

-- The PAY_SUCCESS stage.
unfoldable pub pay_success_stage : Env → TxnRow → TxnStageApplyResult → Tx (Unit {0})
pay_success_stage env stage result = do
  fail_if (result.credit_account_no == "") account_resolve_failed
  if result.biz_type == biz_type_transfer
      then (do
        apply_transfer_credit env stage.txn_no result.debit_account_no result.credit_account_no
            stage.transfer_scene stage.amount stage.credit_expire_at)
      else (do
        origin ← or_fail stage.refund_of_txn_no txn_status_invalid
        apply_refund_credit env stage.txn_no result.credit_account_no stage.amount (some origin)
            stage.merchant_no)
  modify (update_txn_status txn_status_recv_success stage.txn_no)
  modify (insert_outbox_event (outbox_row env stage))

-- What `ApplyTxnStage` has read of the row, before anything is applied.
abbrev pub stage_result : TxnRow → TxnStageApplyResult
stage_result stage = record {
  applied = false;
  current_status = trim_space stage.status;
  biz_type = trim_space stage.biz_type;
  debit_account_no = trim_space stage.debit_account_no;
  credit_account_no = trim_space stage.credit_account_no;
}

-- A result, and the end of the database transaction: committed, or rolled back to where it began.
abbrev pub finish : {A : Type 0} → A → A → Tx (Unit {0}) → Db → A × Option Error × Db
finish done failed work db =
    let (r, db') = work db in elim r [ ok _ ↦ (done, none, db') | err e ↦ (failed, some e, db) ]

abbrev pub is_known_biz_type : String → Bool
is_known_biz_type b = b == biz_type_transfer || b == biz_type_refund

-- `ApplyTxnStage`: the result, which is filled in beside an error too, the error and the database.
unfoldable pub apply_txn_stage : Env → ℕ → String → Db → TxnStageApplyResult × Option Error × Db
apply_txn_stage env txn_no expected db = elim (get_txn txn_no db) [
  | none ↦ (no_result, some txn_not_found, db)
  | some stage ↦
      let result = stage_result stage in
      if not (is_known_biz_type result.biz_type)
      then (result, none, db)
      else if not (result.current_status == expected)
      then (result, none, db)
      else if expected == txn_status_init
      then finish (set_applied txn_status_pay_success result) result (init_stage env stage result)
          db
      else if expected == txn_status_pay_success
      then finish (set_applied txn_status_recv_success result) result
          (pay_success_stage env stage result) db
      else (result, some txn_status_invalid, db)
]
