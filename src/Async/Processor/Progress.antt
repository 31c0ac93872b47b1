-- ===== src/Async/Processor/Progress.antt =====
-- A stage that is processed makes progress: it goes one status on, or fails for good. What is paid is
-- handed to the next stage.
use coin.Base.{
  ℕ, ◌≡◌, refl, String, Bool, true, false, not, ◌&&◌, ◌||◌, Option, none, some, ◌⊎◌, inl, inr,
  arith, ◌==◌, eq_iff, if◌then◌else◌, Bool-cases,
}
use coin.Text.{trim_space}
use coin.Domain.{biz_type_refund}
use coin.Domain.Error.{Error}
use coin.Domain.StateMachine.{
  txn_status_init, txn_status_pay_success, txn_status_recv_success, txn_status_failed,
}
use coin.Ledger.Schema.{Env, Db, TxnRow}
use coin.Ledger.Query.Txns.{get_txn}
use coin.Ledger.Stage.{TxnStageApplyResult, apply_txn_stage, is_known_biz_type}
use coin.Ledger.Stage.Once.{has_status, apply_txn_stage-has_status, apply_txn_stage-atomic}
use coin.Async.Guard.{ProcessingGuard, try_begin}
use coin.Async.Processor.{
  AsyncState, after, guarded, should_fail_on_error, process_stage_with_apply_result, process_stage,
  process_expected, after_error, handle_stage_error, is_processed,
}
use coin.Async.Processor.Fate.{
  is_stage, trim_space-is_status, after_apply-db, fail_txn-has_status, found-has_status,
}

-- The answer of `ApplyTxnStage` is no error that a retry may heal.
abbrev pub is_decided : String → TxnStageApplyResult × Option Error × Db → Bool
is_decided expected (r, none, _) = true
is_decided expected (r, some e, _) =
    should_fail_on_error e
    && not (r.biz_type == biz_type_refund && expected == txn_status_pay_success)

-- A stage is a status, is not blank and is not final.
stage_named :
    (s : String)
    → is_stage s ≡ true
    → ((s == "") ≡ false) × ((s == txn_status_recv_success || s == txn_status_failed) ≡ false)
stage_named s h = elim (Bool-cases (s == txn_status_init)) [
  | inl e ↦ rw ((eq_iff s txn_status_init).0 e) (refl, refl)
  | inr a ↦ rw ((eq_iff s txn_status_pay_success).0 (ground (arith, a, h))) (refl, refl)
]

-- A known stage of a known kind is applied, or is an error.
apply_txn_stage-decides :
    (env : Env) (n : ℕ) (expected : String) (db : Db) (row : TxnRow)
    → get_txn n db ≡ some row
    → is_known_biz_type (trim_space row.biz_type) ≡ true
    → (trim_space row.status == expected) ≡ true
    → is_stage expected ≡ true
    → (is_processed (apply_txn_stage env n expected db).0 ≡ true)
      × ((apply_txn_stage env n expected db).1 ≡ none
          → (apply_txn_stage env n expected db).0.applied ≡ true)
unfolding apply_txn_stage
apply_txn_stage-decides env n expected db row found known same stage =
    (grind (arith, found, known, same, stage), grind (arith, found, known, same, stage))

module _ (parse : String → Option ℕ) (text : ℕ → String) (message : Error → String) where
  -- The transaction has gone one status on, or is failed.
  abbrev pub HasProgressed : String → ℕ → Db → Type 0
  HasProgressed expected n db =
      (has_status n
          (if expected == txn_status_init then txn_status_pay_success else txn_status_recv_success)
          db
        ≡ true)
      ⊎ (has_status n txn_status_failed db ≡ true)

  after_error_fails :
      (t expected : String) (n : ℕ) (r : TxnStageApplyResult) (e : Error) (st : AsyncState)
      → is_stage expected ≡ true
      → parse t ≡ some n
      → has_status n expected (st.db) ≡ true
      → is_processed r ≡ true
      → is_decided expected (r, some e, st.db) ≡ true
      → has_status n txn_status_failed (after_error parse text message t expected r e st).1.db
        ≡ true
  unfolding after_error handle_stage_error
  after_error_fails t expected n r e st h p s known decided =
      let i = eq_iff expected txn_status_init in
      let q = eq_iff expected txn_status_pay_success in
      let f = λ (code : String).
        fail_txn-has_status parse text message t expected code (message e) n st p s in
      grind (arith, h, i, q, f, known, decided)

  after-HasProgressed :
      (t expected : String) (n : ℕ) (st : AsyncState)
      → is_stage expected ≡ true
      → parse t ≡ some n
      → has_status n expected (st.db) ≡ true
      → (applied : TxnStageApplyResult × Option Error × Db)
      → (((applied.0.applied ≡ true) × (applied.1 ≡ none))
          ⊎ ((applied.0.applied ≡ false) × (applied.2 ≡ st.db)))
      → (applied.0.applied ≡ true
          → ((expected ≡ txn_status_init) × (has_status n txn_status_pay_success applied.2 ≡ true))
            ⊎ ((expected ≡ txn_status_pay_success)
                × (has_status n txn_status_recv_success applied.2 ≡ true)))
      → ((is_processed applied.0 ≡ true) × (applied.1 ≡ none → applied.0.applied ≡ true))
      → is_decided expected applied ≡ true
      → HasProgressed expected n (after parse text message t expected st applied).1.db
  after-HasProgressed t expected n st h p s (r, none, db') _ k (_, a) d =
      rw (after_apply-db parse text message t expected r (record st { db = db' }) h)
        (inl (elim (k (a refl)) [ inl (e, x) ↦ rw e x | inr (e, x) ↦ rw e x ]))
  after-HasProgressed t expected n st h p s (r, some e, db') (inl (_, f)) k (known, _) d =
      grind (arith, f)
  after-HasProgressed t expected n st h p s (r, some e, db') (inr (_, f)) k (known, _) d =
      inr (after_error_fails t expected n r e (record st { db = db' }) h p (rw f s) known d)

  guarded-HasProgressed :
      (env : Env) (t expected : String) (n : ℕ) (row : TxnRow) (st : AsyncState)
      → parse t ≡ some n
      → get_txn n (st.db) ≡ some row
      → is_known_biz_type (trim_space row.biz_type) ≡ true
      → trim_space row.status ≡ row.status
      → (row.status == expected) ≡ true
      → is_stage expected ≡ true
      → is_decided expected (apply_txn_stage env n expected (st.db)) ≡ true
      → (begun : Bool × ProcessingGuard) → begun.0 ≡ true
      → HasProgressed expected n (guarded parse text message env t expected begun st).1.db
  unfolding process_stage_with_apply_result
  guarded-HasProgressed env t expected n row st p found known clean b h d (true, guard) _ = rw p (
      after-HasProgressed t expected n (record st { guard = guard }) h p
        (found-has_status n row expected (st.db) found b) (apply_txn_stage env n expected (st.db))
        (apply_txn_stage-atomic env n expected (st.db))
        (apply_txn_stage-has_status env n expected (st.db))
        (apply_txn_stage-decides env n expected (st.db) row found known (rw clean b) h) d)
  guarded-HasProgressed env t expected n row st p found known clean b h d (false, guard) e =
      grind (arith, e)

  -- A call of processStage for a transfer or refund in INIT or PAY_SUCCESS, whose number is not
  -- blank and whose stage the guard lets in, takes it one status on or fails it, unless ApplyTxnStage
  -- answers with an error that leaves the transaction to a retry.
  pub process_stage-HasProgressed :
      (env : Env) (txn_no : String) (n : ℕ) (row : TxnRow) (st : AsyncState)
      → parse (trim_space txn_no) ≡ some n
      → (trim_space txn_no == "") ≡ false
      → get_txn n (st.db) ≡ some row
      → is_known_biz_type (trim_space row.biz_type) ≡ true
      → is_stage row.status ≡ true
      → is_decided row.status (apply_txn_stage env n row.status (st.db)) ≡ true
      → (try_begin (trim_space txn_no) row.status st.guard).0 ≡ true
      → HasProgressed row.status n (process_stage parse text message env txn_no row.status st).1.db
  unfolding process_stage process_expected
  process_stage-HasProgressed env txn_no n row st p b found known h d begun =
      let clean = trim_space-is_status row.status (ground (arith, h)) in
      let named = stage_named row.status h in
      rw clean (
        rw b (
          rw named.0 (
            rw named.1 (
              guarded-HasProgressed env (trim_space txn_no) row.status n row st p found known clean
                ((eq_iff row.status row.status).1 refl) h d
                (try_begin (trim_space txn_no) row.status st.guard) begun))))
