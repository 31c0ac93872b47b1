-- ===== src/Async/Processor.antt =====
-- txn_async_processor.go: how the processor takes a transaction through its stages, over ApplyTxnStage
-- and the rows of the ledger. The log and the profiler change nothing else and are left out. The
-- processor has its repository, its guard and its queues.
pub mod Fate
pub mod Progress
use coin.Base.{
  ℕ, String, Bool, true, false, not, ◌&&◌, ◌||◌, Option, none, some, List, [], ◌∷◌, ◌==◌,
  if◌then◌else◌,
}
use coin.Text.{trim_space}
use coin.Domain.{biz_type_transfer, biz_type_refund}
use coin.Domain.Error.{
  Error, txn_not_found, txn_status_invalid, account_resolve_failed, account_resolve_conflict,
  out_user_id_not_allowed_for_system_account, account_forbid_debit, account_forbid_credit,
  account_forbid_transfer, insufficient_balance, refund_amount_exceeded,
  refund_origin_book_trace_missing, book_disabled, expire_at_required, store_error,
}
use coin.Domain.StateMachine.{
  txn_status_init, txn_status_pay_success, txn_status_recv_success, txn_status_failed,
}
use coin.Ledger.Schema.{Env, Db, TxnRow}
use coin.Ledger.Query.Txns.{get_txn, update_txn_status_from}
use coin.Ledger.Stage.{TxnStageApplyResult, no_result, apply_txn_stage}
use coin.Async.{StageQueue, enqueue_with_route}
use coin.Async.Guard.{ProcessingGuard, try_begin, end_stage}

-- `shouldFailOnError`
unfoldable pub should_fail_on_error : Error → Bool
should_fail_on_error txn_not_found = true
should_fail_on_error txn_status_invalid = true
should_fail_on_error account_resolve_failed = true
should_fail_on_error account_resolve_conflict = true
should_fail_on_error out_user_id_not_allowed_for_system_account = true
should_fail_on_error account_forbid_debit = true
should_fail_on_error account_forbid_credit = true
should_fail_on_error account_forbid_transfer = true
should_fail_on_error insufficient_balance = true
should_fail_on_error refund_amount_exceeded = true
should_fail_on_error refund_origin_book_trace_missing = true
should_fail_on_error book_disabled = true
should_fail_on_error expire_at_required = true
should_fail_on_error _ = false

-- `refundDebitErrorCode`
unfoldable pub refund_debit_error_code : Error → String
refund_debit_error_code txn_not_found = "REFUND_ORIGIN_NOT_FOUND"
refund_debit_error_code txn_status_invalid = "REFUND_ORIGIN_INVALID"
refund_debit_error_code refund_amount_exceeded = "REFUND_AMOUNT_EXCEEDED"
refund_debit_error_code _ = "REFUND_DEBIT_FAILED"

-- The fields of a TransferTxn that routing and processing read.
pub record StageTxn : Type 0 where
  pub txn_no : String
  pub biz_type : String
  pub debit_account_no : String
  pub credit_account_no : String
  pub refund_of_txn_no : String
  pub status : String

pub record AsyncState : Type 0 where
  pub db : Db
  pub guard : ProcessingGuard
  pub init_queue : StageQueue
  pub pay_success_queue : StageQueue
  -- the numbers that the webhook's dispatcher was told
  pub notified : List String

-- `routeKeyForTxnStage`
unfoldable pub route_key_for_txn_stage : StageTxn → String → String
route_key_for_txn_stage txn status =
    let status = trim_space status in
    if status == txn_status_init
    then trim_space txn.debit_account_no
    else if status == txn_status_pay_success
    then trim_space txn.credit_account_no
    else ""

abbrev pub is_processed : TxnStageApplyResult → Bool
is_processed r = r.biz_type == biz_type_transfer || r.biz_type == biz_type_refund

-- The texts are PostgreSQL's: `parse` reads a UUID, `text` writes one; `message` is an error's text.
module _ (parse : String → Option ℕ) (text : ℕ → String) (message : Error → String) where
  abbrev text_or_empty : Option ℕ → String
  text_or_empty none = ""
  text_or_empty (some n) = text n

  abbrev of_row : Option TxnRow → Option StageTxn
  of_row none = none
  of_row (some t) = some (record {
    txn_no = text t.txn_no;
    biz_type = t.biz_type;
    debit_account_no = t.debit_account_no;
    credit_account_no = t.credit_account_no;
    refund_of_txn_no = text_or_empty t.refund_of_txn_no;
    status = t.status;
  })

  abbrev of_number : Option ℕ → Db → Option StageTxn
  of_number none db = none
  of_number (some n) db = of_row (get_txn n db)

  -- `GetTransferTxn` of the repository
  unfoldable pub get_transfer_txn : String → Db → Option StageTxn
  get_transfer_txn txn_no db = of_number (parse txn_no) db

  abbrev first_of : String → String → String
  first_of key other = if key == "" then other else key

  -- The key of a refund whose own row names no account: its origin's account, or its number.
  abbrev origin_key : String → String → Option StageTxn → String
  origin_key status origin_no none = origin_no
  origin_key status origin_no (some origin) =
      if status == txn_status_init
      then first_of (trim_space origin.credit_account_no) origin_no
      else first_of (trim_space origin.debit_account_no) origin_no

  -- `stageRouteKey` for a loaded transaction
  unfoldable pub stage_route_key : String → String → StageTxn → Db → String
  stage_route_key status txn_no target db =
      let status = trim_space status in
      let txn_no = trim_space txn_no in
      let primary = route_key_for_txn_stage target status in
      let origin_no = trim_space target.refund_of_txn_no in
      if not (status == txn_status_init) && not (status == txn_status_pay_success)
      then txn_no
      else if not (primary == "")
      then primary
      else if target.biz_type == biz_type_refund && not (origin_no == "")
      then origin_key status origin_no (get_transfer_txn origin_no db)
      else first_of txn_no (trim_space target.txn_no)

  abbrev pub route_key : String → String → Option StageTxn → Db → String
  route_key status txn_no none db = trim_space txn_no
  route_key status txn_no (some target) db = stage_route_key status txn_no target db

  -- `enqueueByStatusWithTxn`; a transaction that is not given is loaded.
  unfoldable pub enqueue_by_status_with_txn :
      String → String → Option StageTxn → AsyncState → Bool × AsyncState
  enqueue_by_status_with_txn txn_no status txn st =
      let txn_no = trim_space txn_no in
      let status = trim_space status in
      let target = elim txn as (λ _. Option StageTxn) [
        | none ↦ get_transfer_txn txn_no (st.db)
        | some t ↦ some t
      ] in
      let key = route_key status txn_no target (st.db) in
      let init = enqueue_with_route txn_no key st.init_queue in
      let pay = enqueue_with_route txn_no key st.pay_success_queue in
      if txn_no == ""
      then (false, st)
      else if status == txn_status_init
      then (init.0, record st { init_queue = init.1 })
      else if status == txn_status_pay_success
      then (pay.0, record st { pay_success_queue = pay.1 })
      else (status == txn_status_recv_success || status == txn_status_failed, st)

  -- `EnqueueByStatus`
  unfoldable pub enqueue_by_status : String → String → AsyncState → Bool × AsyncState
  enqueue_by_status txn_no status = enqueue_by_status_with_txn txn_no status none

  -- `EnqueueTxn`
  unfoldable pub enqueue_txn : StageTxn → AsyncState → Bool × AsyncState
  enqueue_txn txn st =
      let status = trim_space txn.status in
      if trim_space txn.txn_no == ""
      then (false, st)
      else enqueue_by_status_with_txn (trim_space txn.txn_no)
          (if status == "" then txn_status_init else status) (some txn) st

  abbrev enqueue_loaded : Option StageTxn → AsyncState → AsyncState
  enqueue_loaded none st = st
  enqueue_loaded (some txn) st = (enqueue_txn txn st).1

  -- `Enqueue`
  unfoldable pub enqueue : String → AsyncState → AsyncState
  enqueue txn_no st =
      let txn_no = trim_space txn_no in
      if txn_no == "" then st else enqueue_loaded (get_transfer_txn txn_no (st.db)) st

  abbrev fail_number : Option ℕ → String → String → String → Db → Db
  fail_number none from error_code error_msg db = db
  fail_number (some n) from error_code error_msg db =
      (update_txn_status_from txn_status_failed error_code error_msg n from db).0

  -- `fail`, by `TransitionTransferTxnStatus`; its callers drop the error.
  unfoldable pub fail_txn : String → String → String → String → AsyncState → AsyncState
  fail_txn txn_no from error_code error_msg st = record st {
    db = fail_number (parse txn_no) from error_code error_msg (st.db);
  }

  -- `handleStageError`
  unfoldable pub handle_stage_error : String → String → String → Error → AsyncState → AsyncState
  handle_stage_error txn_no from error_code e st =
      if should_fail_on_error e then fail_txn txn_no from error_code (message e) st else st

  -- `notifyWebhook`, with a dispatcher
  abbrev notify_webhook : String → AsyncState → AsyncState
  notify_webhook txn_no st = record st { notified = txn_no ∷ st.notified }

  abbrev apply_number : Env → Option ℕ → String → Db → TxnStageApplyResult × Option Error × Db
  apply_number env none expected db = (no_result, some store_error, db)
  apply_number env (some n) expected db = apply_txn_stage env n expected db

  -- What follows an error of `ApplyTxnStage`.
  unfoldable pub after_error :
      String → String → TxnStageApplyResult → Error → AsyncState → Option Error × AsyncState
  after_error txn_no expected result e st =
      if not (is_processed result)
      then (some e, st)
      else if expected == txn_status_init
      then (
        some e,
        handle_stage_error txn_no txn_status_init
            (if result.biz_type == biz_type_refund
              then refund_debit_error_code e
              else "DEBIT_FAILED")
            e st,
      )
      else if expected == txn_status_pay_success
      then (
        some e,
        (if result.biz_type == biz_type_refund
            then st
            else handle_stage_error txn_no txn_status_pay_success "CREDIT_FAILED" e st),
      )
      else (
        some txn_status_invalid,
        fail_txn txn_no expected "TXN_STATUS_INVALID" "unknown txn status" st,
      )

  abbrev stage_txn : String → TxnStageApplyResult → String → StageTxn
  stage_txn txn_no result status = record {
    txn_no = txn_no;
    biz_type = result.biz_type;
    debit_account_no = result.debit_account_no;
    credit_account_no = result.credit_account_no;
    refund_of_txn_no = "";
    status = status;
  }

  abbrev enqueue_current : String → Option StageTxn → AsyncState → AsyncState
  enqueue_current txn_no none st = st
  enqueue_current txn_no (some txn) st =
      (enqueue_by_status_with_txn txn.txn_no txn.status (some txn) st).1

  -- What follows a call of `ApplyTxnStage` without an error.
  unfoldable pub after_apply :
      String → String → TxnStageApplyResult → AsyncState → Option Error × AsyncState
  after_apply txn_no expected result st =
      let current = stage_txn txn_no result result.current_status in
      let paid = stage_txn txn_no result txn_status_pay_success in
      if not (is_processed result)
      then (none, st)
      else if not result.applied
      then (
        none,
        (if result.current_status == ""
            then enqueue_current txn_no (get_transfer_txn txn_no (st.db)) st
            else (enqueue_by_status_with_txn txn_no result.current_status (some current) st).1),
      )
      else if expected == txn_status_init
      then (none, (enqueue_by_status_with_txn txn_no txn_status_pay_success (some paid) st).1)
      else if expected == txn_status_pay_success
      then (none, notify_webhook txn_no st)
      else (
        some txn_status_invalid,
        fail_txn txn_no expected "TXN_STATUS_INVALID" "unknown txn status" st,
      )

  abbrev pub after :
      String
      → String
      → AsyncState
      → TxnStageApplyResult × Option Error × Db
      → Option Error × AsyncState
  after txn_no expected st (result, none, db') =
      after_apply txn_no expected result (record st { db = db' })
  after txn_no expected st (result, some e, db') =
      after_error txn_no expected result e (record st { db = db' })

  -- `processStageWithApplyResult`
  unfoldable pub process_stage_with_apply_result :
      Env → String → String → AsyncState → Option Error × AsyncState
  process_stage_with_apply_result env txn_no expected st =
      after txn_no expected st (apply_number env (parse txn_no) expected (st.db))

  -- The end of a stage that the guard let in.
  abbrev ended : String → String → Option Error × AsyncState → Option Error × AsyncState
  ended txn_no expected (e, st) = (e, record st { guard = end_stage txn_no expected st.guard })

  abbrev pub guarded :
      Env → String → String → Bool × ProcessingGuard → AsyncState → Option Error × AsyncState
  guarded env txn_no expected (true, guard) st =
      ended txn_no expected
        (process_stage_with_apply_result env txn_no expected (record st { guard = guard }))
  guarded env txn_no expected (false, guard) st = (none, record st { guard = guard })

  -- `processStage` once the status is known
  unfoldable pub process_expected : Env → String → String → AsyncState → Option Error × AsyncState
  process_expected env txn_no expected st =
      if expected == txn_status_recv_success || expected == txn_status_failed
      then (none, st)
      else guarded env txn_no expected (try_begin txn_no expected st.guard) st

  abbrev process_loaded : Env → String → Option StageTxn → AsyncState → Option Error × AsyncState
  process_loaded env txn_no none st = (some txn_not_found, st)
  process_loaded env txn_no (some txn) st = process_expected env txn_no txn.status st

  -- `processStage`
  unfoldable pub process_stage : Env → String → String → AsyncState → Option Error × AsyncState
  process_stage env txn_no expected st =
      let txn_no = trim_space txn_no in
      let expected = trim_space expected in
      if txn_no == ""
      then (some txn_not_found, st)
      else if expected == ""
      then process_loaded env txn_no (get_transfer_txn txn_no (st.db)) st
      else process_expected env txn_no expected st

  abbrev process_current : Env → String → Option StageTxn → AsyncState → Option Error × AsyncState
  process_current env txn_no none st = (some txn_not_found, st)
  process_current env txn_no (some txn) st = process_stage env txn_no txn.status st

  -- `Process`
  unfoldable pub process : Env → String → AsyncState → Option Error × AsyncState
  process env txn_no st =
      let txn_no = trim_space txn_no in
      if txn_no == ""
      then (some txn_not_found, st)
      else process_current env txn_no (get_transfer_txn txn_no (st.db)) st
