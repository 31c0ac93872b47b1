-- ===== src/Ledger/Stage/Split.antt =====
-- repository.go: the four functions that apply one stage of a transfer or of a refund each, with the
-- account and the amount as arguments, and that they do what `ApplyTxnStage` does when the
-- arguments are the row's own.
use coin.Base.{
  ℕ, ◌≡◌, refl, String, Bool, true, false, not, ◌||◌, ◌&&◌, Option, none, some, Bool-cases, arith,
  if◌then◌else◌, ◌==◌, inl, inr, ◌∙◌,
}
use coin.Int.{ℤ}
use coin.Text.{trim_space}
use coin.Text.Trim.{trim_space-trim_space}
use coin.Domain.{biz_type_transfer, biz_type_refund}
use coin.Domain.Error.{Error, account_resolve_failed, txn_status_invalid, txn_not_found}
use coin.Domain.StateMachine.{txn_status_init, txn_status_pay_success, txn_status_recv_success}
use coin.Ledger.Schema.{Db, Env, err, TxnRow, Tx, pure, or_fail, ◌>>=◌, ◌>>◌, fail_if, modify}
use coin.Ledger.Query.Txns.{get_txn, update_txn_status, insert_outbox_event}
use coin.Ledger.Parts.{apply_transfer_credit, apply_refund_credit}
use coin.Ledger.Debit.{apply_account_debit}
use coin.Ledger.Stage.{
  TxnStageApplyResult, take_refund_quota, init_stage, apply_txn_stage, outbox_row, finish,
  stage_result,
}

-- A locked row of the status `from`, and the work on it.
abbrev on_stage : String → (TxnRow → Tx (Unit {0})) → ℕ → Db → Bool × Option Error × Db
on_stage from work txn_no db = elim (get_txn txn_no db) [
  | none ↦ (false, some txn_not_found, db)
  | some stage ↦
      if not (stage.status == from) then (false, none, db) else finish true false (work stage) db
]

-- The account of a row, or the one that the caller names; two different ones are an error.
abbrev stage_account : String → String → Tx String
stage_account recorded given = do
  let account_no = if recorded == "" then given else recorded
  fail_if (account_no == "") account_resolve_failed
  fail_if (not (given == "") && not (recorded == "") && not (given == recorded))
      account_resolve_failed
  pure account_no

-- The end of a credit stage.
abbrev finish_credit : Env → TxnRow → Tx (Unit {0})
finish_credit env stage = do
  modify (update_txn_status txn_status_recv_success stage.txn_no)
  modify (insert_outbox_event (outbox_row env stage))

-- `ApplyTransferDebitStage`
unfoldable pub apply_transfer_debit_stage : Env → String → ℤ → ℕ → Db → Bool × Option Error × Db
apply_transfer_debit_stage env debit_account_no amount = on_stage txn_status_init (λ stage. do
  account_no ← stage_account stage.debit_account_no debit_account_no
  apply_account_debit env stage.txn_no account_no amount
  modify (update_txn_status txn_status_pay_success stage.txn_no))

-- `ApplyTransferCreditStage`
unfoldable pub apply_transfer_credit_stage : Env → String → ℤ → ℕ → Db → Bool × Option Error × Db
apply_transfer_credit_stage env credit_account_no amount = on_stage txn_status_pay_success (λ stage.
    do
      account_no ← stage_account stage.credit_account_no credit_account_no
      apply_transfer_credit env stage.txn_no stage.debit_account_no account_no stage.transfer_scene
          amount stage.credit_expire_at
      finish_credit env stage)

-- `ApplyRefundDebitStage`
unfoldable pub apply_refund_debit_stage : Env → ℤ → ℕ → Db → Bool × Option Error × Db
apply_refund_debit_stage env amount = on_stage txn_status_init (λ refund. do
  fail_if (not (refund.biz_type == biz_type_refund)) txn_status_invalid
  origin ← or_fail refund.refund_of_txn_no txn_status_invalid
  take_refund_quota origin refund.merchant_no amount
  let refund_debit = trim_space refund.debit_account_no
  let refund_credit = trim_space refund.credit_account_no
  fail_if (refund_debit == "" || refund_credit == "") account_resolve_failed
  apply_account_debit env refund.txn_no refund_debit amount
  modify (update_txn_status txn_status_pay_success refund.txn_no))

-- `ApplyRefundCreditStage`
unfoldable pub apply_refund_credit_stage : Env → String → ℤ → ℕ → Db → Bool × Option Error × Db
apply_refund_credit_stage env credit_account_no amount = on_stage txn_status_pay_success (λ refund.
    do
      origin ← or_fail refund.refund_of_txn_no txn_status_invalid
      account_no ←
          stage_account (trim_space refund.credit_account_no) (trim_space credit_account_no)
      apply_refund_credit env refund.txn_no account_no amount (some origin) refund.merchant_no
      finish_credit env refund)

-- What `ApplyTxnStage` tells a caller that asks only whether the stage was applied.
abbrev pub applied_only : TxnStageApplyResult × Option Error × Db → Bool × Option Error × Db
applied_only (result, error, db) = (result.applied, error, db)

-- The texts of the row have no white space around them.
abbrev pub IsTrimmed : TxnRow → Type 0
IsTrimmed t =
    (trim_space t.status ≡ t.status)
    × (trim_space t.biz_type ≡ t.biz_type)
    × (trim_space t.debit_account_no ≡ t.debit_account_no)
    × (trim_space t.credit_account_no ≡ t.credit_account_no)

module _ (env : Env) (txn_no : ℕ) (db : Db) (stage : TxnRow) (row : get_txn txn_no db ≡ some stage)
    (trimmed : IsTrimmed stage) where
  read_status : (stage_result stage).current_status ≡ stage.status
  read_status = trimmed.0

  read_debit : (stage_result stage).debit_account_no ≡ stage.debit_account_no
  read_debit = trimmed.2

  -- For a transfer's row without white space around its texts, `ApplyTransferDebitStage` with no
  -- account and the row's amount does what `ApplyTxnStage` does for INIT: the same database, the
  -- same error, and applied or not alike.
  pub apply_transfer_debit_stage_lem :
      stage.biz_type ≡ biz_type_transfer
      → apply_transfer_debit_stage env "" stage.amount txn_no db
        ≡ applied_only (apply_txn_stage env txn_no txn_status_init db)
  unfolding apply_transfer_debit_stage apply_txn_stage init_stage
  apply_transfer_debit_stage_lem kind =
      let b : (stage_result stage).biz_type ≡ biz_type_transfer = trimmed.1 ∙ kind in
      let is_it : (stage_result stage).biz_type == biz_type_transfer ≡ true = rw b refl in
      elim (Bool-cases (stage.debit_account_no == "")) [
        | inl empty ↦
            let missing : (stage_result stage).debit_account_no == "" ≡ true =
              rw read_debit empty in
            let refused : stage_account stage.debit_account_no "" db
                ≡ (err account_resolve_failed, db) =
              rw empty refl in
            grind (arith, row, b, is_it, read_status, empty, missing, refused)
        | inr named ↦
            let there : (stage_result stage).debit_account_no == "" ≡ false = rw read_debit named in
            grind (arith, row, b, is_it, read_status, read_debit, named, there)
      ]

  -- For a refund's row without white space around its texts, `ApplyRefundDebitStage` with the row's
  -- amount does what `ApplyTxnStage` does for INIT: the same database, the same error, and applied
  -- or not alike.
  pub apply_refund_debit_stage_lem :
      stage.biz_type ≡ biz_type_refund
      → apply_refund_debit_stage env stage.amount txn_no db
        ≡ applied_only (apply_txn_stage env txn_no txn_status_init db)
  unfolding apply_refund_debit_stage apply_txn_stage init_stage
  apply_refund_debit_stage_lem kind =
      let b : (stage_result stage).biz_type ≡ biz_type_refund = trimmed.1 ∙ kind in
      let is_it : (stage_result stage).biz_type == biz_type_refund ≡ true = rw b refl in
      let is_not : (stage_result stage).biz_type == biz_type_transfer ≡ false = rw b refl in
      let known : stage.biz_type == biz_type_refund ≡ true = rw kind refl in
      let twice = trim_space-trim_space stage.debit_account_no in
      let twice' = trim_space-trim_space stage.credit_account_no in
      grind (arith, row, b, is_it, is_not, known, twice, twice', read_status, read_debit)
