-- ===== src/Async/Processor/Fate.antt =====
-- What processing a stage makes of its transaction: the status moves along the state machine's edges,
-- and moves whenever the stage applies or fails for good.
use coin.Base.{
  ℕ, ◌≡◌, refl, ◌∙◌, String, Bool, true, false, ◌&&◌, ◌||◌, Option, none, some, List, [], ◌∷◌, ◌⊎◌,
  inl, inr, arith, ◌==◌, eq_iff, Bool-cases,
}
use coin.Text.{trim_space, trim_left, trim_right, is_space}
use coin.Domain.Error.{Error}
use coin.Domain.StateMachine.{
  txn_status_init, txn_status_pay_success, txn_status_recv_success, txn_status_failed, transit,
}
use coin.Ledger.Schema.{Env, Db, TxnRow}
use coin.Ledger.Query.{find, update_where}
use coin.Ledger.Query.Txns.{of_txn, get_txn, update_txn_status_from}
use coin.Ledger.Stage.{TxnStageApplyResult, apply_txn_stage, stage_result}
use coin.Ledger.Stage.Once.{
  row_has_status, has_status, apply_txn_stage-has_status, apply_txn_stage-atomic,
}
use coin.Async.Guard.{ProcessingGuard, try_begin}
use coin.Async.Processor.{
  AsyncState, after, guarded, process_stage_with_apply_result, process_stage, process_expected,
  after_apply, after_error, handle_stage_error, fail_txn, enqueue_by_status_with_txn,
  get_transfer_txn,
}

abbrev failed_row : String → String → TxnRow → TxnRow
failed_row error_code error_msg t = record t {
  status = txn_status_failed;
  error_code = error_code;
  error_msg = error_msg;
}

find-failed :
    (n : ℕ) (from error_code error_msg : String) (txns : List TxnRow)
    → row_has_status from (find (of_txn n) txns) ≡ true
    → row_has_status txn_status_failed (
        find (of_txn n) (
          update_where
            (λ t. of_txn n t && t.status == from)
            (failed_row error_code error_msg)
            txns))
      ≡ true
find-failed n from error_code error_msg [] h = refl
find-failed n from error_code error_msg (t ∷ txns) h =
    let rest = find-failed n from error_code error_msg txns in
    elim (Bool-cases (of_txn n t)) [
      | inl e ↦ elim (Bool-cases (t.status == from)) [
        | inl f ↦ rw (e, f) (rw e refl)
        | inr f ↦ grind (arith, e, f, h)
      ]
      | inr e ↦ rw e (rw e (rest (rw e at h)))
    ]

-- The transaction is failed from the status, if it has it.
update_txn_status_from-has_status :
    (n : ℕ) (from error_code error_msg : String) (db : Db)
    → has_status n from db ≡ true
    → has_status n txn_status_failed
        (update_txn_status_from txn_status_failed error_code error_msg n from db).0
      ≡ true
unfolding has_status update_txn_status_from get_txn
update_txn_status_from-has_status n from error_code error_msg db h =
    find-failed n from error_code error_msg db.txns h

abbrev pub is_stage : String → Bool
is_stage s = s == txn_status_init || s == txn_status_pay_success

abbrev pub is_status : String → Bool
is_status s = is_stage s || s == txn_status_recv_success || s == txn_status_failed

pub found-has_status :
    (n : ℕ) (row : TxnRow) (expected : String) (db : Db)
    → get_txn n db ≡ some row
    → (row.status == expected) ≡ true
    → has_status n expected db ≡ true
unfolding has_status
found-has_status n row expected db found e = rw found e

pub trim_space-is_status : (s : String) → is_status s ≡ true → trim_space s ≡ s
unfolding trim_space trim_left trim_right is_space
trim_space-is_status s h = elim (Bool-cases (s == txn_status_init)) [
  | inl e ↦ rw ((eq_iff s txn_status_init).0 e) refl
  | inr a ↦ elim (Bool-cases (s == txn_status_pay_success)) [
    | inl e ↦ rw ((eq_iff s txn_status_pay_success).0 e) refl
    | inr b ↦ elim (Bool-cases (s == txn_status_recv_success)) [
      | inl e ↦ rw ((eq_iff s txn_status_recv_success).0 e) refl
      | inr c ↦ elim (Bool-cases (s == txn_status_failed)) [
        | inl e ↦ rw ((eq_iff s txn_status_failed).0 e) refl
        | inr d ↦ grind (arith, a, b, c, d, h)
      ]
    ]
  ]
]

module _ (parse : String → Option ℕ) (text : ℕ → String) (message : Error → String) where
  enqueue_by_status_with_txn-db :
      (txn_no status : String) (st : AsyncState)
      → (txn : Option _)
      → (enqueue_by_status_with_txn parse text message txn_no status txn st).1.db ≡ st.db
  unfolding enqueue_by_status_with_txn
  enqueue_by_status_with_txn-db txn_no status st txn = ground arith

  pub after_apply-db :
      (t expected : String) (r : TxnStageApplyResult) (st : AsyncState)
      → is_stage expected ≡ true
      → (after_apply parse text message t expected r st).1.db ≡ st.db
  unfolding after_apply
  after_apply-db t expected r st h = grind (arith, enqueue_by_status_with_txn-db, h)

  pub fail_txn-has_status :
      (t from error_code error_msg : String) (n : ℕ) (st : AsyncState)
      → parse t ≡ some n
      → has_status n from (st.db) ≡ true
      → has_status n txn_status_failed
          (fail_txn parse text message t from error_code error_msg st).db
        ≡ true
  unfolding fail_txn
  fail_txn-has_status t from error_code error_msg n st p h =
      rw p (update_txn_status_from-has_status n from error_code error_msg (st.db) h)

  -- Behind an error the database is as it was, or the transaction is failed for good.
  after_error-db :
      (t expected : String) (n : ℕ) (r : TxnStageApplyResult) (e : Error) (st : AsyncState)
      → is_stage expected ≡ true
      → parse t ≡ some n
      → has_status n expected (st.db) ≡ true
      → ((after_error parse text message t expected r e st).1.db ≡ st.db)
        ⊎ (has_status n txn_status_failed (after_error parse text message t expected r e st).1.db
            ≡ true)
  unfolding after_error handle_stage_error
  after_error-db t expected n r e st h p s =
      let i = eq_iff expected txn_status_init in
      let q = eq_iff expected txn_status_pay_success in
      let f = λ (code : String). fail_txn-has_status t expected code (message e) n st p s in
      grind (arith, h, i, q, f)

  -- What a stage that was expected at `expected` makes of the transaction `n`.
  abbrev Fate : String → ℕ → Db → Db → Type 0
  Fate expected n db db' =
      (db' ≡ db)
      ⊎ ((expected ≡ txn_status_init) × (has_status n txn_status_pay_success db' ≡ true))
      ⊎ ((expected ≡ txn_status_pay_success) × (has_status n txn_status_recv_success db' ≡ true))
      ⊎ (has_status n txn_status_failed db' ≡ true)

  after-Fate :
      (t expected : String) (n : ℕ) (st : AsyncState)
      → is_stage expected ≡ true
      → parse t ≡ some n
      → has_status n expected (st.db) ≡ true
      → (applied : TxnStageApplyResult × Option Error × Db)
      → (((applied.0.applied ≡ true) × (applied.1 ≡ none))
          ⊎ ((applied.0.applied ≡ false) × (applied.2 ≡ st.db)))
      → (applied.0.applied ≡ true
          → ((expected ≡ txn_status_init) × (has_status n txn_status_pay_success applied.2 ≡ true))
            ⊎ ((expected ≡ txn_status_pay_success)
                × (has_status n txn_status_recv_success applied.2 ≡ true)))
      → Fate expected n (st.db) (after parse text message t expected st applied).1.db
  after-Fate t expected n st h p s (r, none, db') (inl (a, _)) k =
      rw (after_apply-db t expected r (record st { db = db' }) h)
        (elim (k a) [ inl x ↦ inr (inl x) | inr x ↦ inr (inr (inl x)) ])
  after-Fate t expected n st h p s (r, none, db') (inr (_, e)) k =
      inl (after_apply-db t expected r (record st { db = db' }) h ∙ e)
  after-Fate t expected n st h p s (r, some e, db') (inl (_, f)) k = grind (arith, f)
  after-Fate t expected n st h p s (r, some e, db') (inr (_, f)) k =
      elim (after_error-db t expected n r e (record st { db = db' }) h p (rw f s)) [
        | inl same ↦ inl (same ∙ f)
        | inr failed ↦ inr (inr (inr failed))
      ]

  -- The status of the row is another one: the stage is not applied, and nothing is written.
  apply_txn_stage-other :
      (env : Env) (n : ℕ) (expected : String) (db : Db) (row : TxnRow)
      → get_txn n db ≡ some row
      → (trim_space row.status == expected) ≡ false
      → apply_txn_stage env n expected db ≡ (stage_result row, none, db)
  unfolding apply_txn_stage
  apply_txn_stage-other env n expected db row found other = grind (arith, found, other)

  -- The transaction stays as it was, or its status moves along an edge of the state machine.
  abbrev pub IsMoved : TxnRow → ℕ → Db → Db → Type 0
  IsMoved row n db db' =
      (db' ≡ db)
      ⊎ ((next : String) × ((transit (record { status = row.status }) next).1 ≡ none)
          × (has_status n next db' ≡ true))

  Fate-IsMoved :
      (expected : String) (row : TxnRow) (n : ℕ) (db db' : Db)
      → is_stage expected ≡ true
      → row.status ≡ expected
      → Fate expected n db db'
      → IsMoved row n db db'
  unfolding transit
  Fate-IsMoved expected row n db db' h e (inl same) = inl same
  Fate-IsMoved expected row n db db' h e (inr (inl (i, p))) =
      inr (txn_status_pay_success, rw e (rw i refl), p)
  Fate-IsMoved expected row n db db' h e (inr (inr (inl (i, p)))) =
      inr (txn_status_recv_success, rw e (rw i refl), p)
  Fate-IsMoved expected row n db db' h e (inr (inr (inr p))) =
      inr (txn_status_failed, rw e (ground (arith, h)), p)

  after_apply_passed-db :
      (t expected : String) (r : TxnStageApplyResult) (st : AsyncState)
      → r.applied ≡ false
      → (after_apply parse text message t expected r st).1.db ≡ st.db
  unfolding after_apply
  after_apply_passed-db t expected r st h = grind (arith, enqueue_by_status_with_txn-db, h)

  expected_stage :
      (status expected : String)
      → status ≡ expected
      → is_status status ≡ true
      → (expected == txn_status_recv_success || expected == txn_status_failed) ≡ false
      → is_stage expected ≡ true
  expected_stage status expected e k h = ground (arith, rw e at k, h)

  process_stage_with_apply_result-IsMoved :
      (env : Env) (t expected : String) (n : ℕ) (row : TxnRow) (st : AsyncState)
      → parse t ≡ some n
      → get_txn n (st.db) ≡ some row
      → is_status row.status ≡ true
      → (expected == txn_status_recv_success || expected == txn_status_failed) ≡ false
      → IsMoved row n
          (st.db)
          (process_stage_with_apply_result parse text message env t expected st).1.db
  unfolding process_stage_with_apply_result
  process_stage_with_apply_result-IsMoved env t expected n row st p found k unsettled =
      let clean = trim_space-is_status row.status k in
      elim (Bool-cases (row.status == expected)) [
        | inl b ↦
            let e = (eq_iff row.status expected).0 b in
            let h = expected_stage row.status expected e k unsettled in
            rw p (
              Fate-IsMoved expected row n (st.db)
                (after parse text message t expected st
                  (apply_txn_stage env n expected (st.db))).1.db
                h e
                (after-Fate t expected n st h p (found-has_status n row expected (st.db) found b)
                  (apply_txn_stage env n expected (st.db))
                  (apply_txn_stage-atomic env n expected (st.db))
                  (apply_txn_stage-has_status env n expected (st.db))))
        | inr b ↦ rw p (
            rw (apply_txn_stage-other env n expected (st.db) row found (rw clean b))
              (inl (after_apply_passed-db t expected (stage_result row) st refl)))
      ]

  guarded-IsMoved :
      (env : Env) (t expected : String) (n : ℕ) (row : TxnRow) (st : AsyncState)
      → parse t ≡ some n
      → get_txn n (st.db) ≡ some row
      → is_status row.status ≡ true
      → (expected == txn_status_recv_success || expected == txn_status_failed) ≡ false
      → (begun : Bool × ProcessingGuard)
      → IsMoved row n (st.db) (guarded parse text message env t expected begun st).1.db
  guarded-IsMoved env t expected n row st p found k unsettled (true, guard) =
      process_stage_with_apply_result-IsMoved env t expected n row (record st { guard = guard }) p
        found k unsettled
  guarded-IsMoved env t expected n row st p found k unsettled (false, guard) = inl refl

  process_expected-IsMoved :
      (env : Env) (t expected : String) (n : ℕ) (row : TxnRow) (st : AsyncState)
      → parse t ≡ some n
      → get_txn n (st.db) ≡ some row
      → is_status row.status ≡ true
      → IsMoved row n (st.db) (process_expected parse text message env t expected st).1.db
  unfolding process_expected
  process_expected-IsMoved env t expected n row st p found k =
      elim (Bool-cases (expected == txn_status_recv_success || expected == txn_status_failed)) [
        | inl e ↦ rw e (inl refl)
        | inr e ↦
            rw e
              (guarded-IsMoved env t expected n row st p found k e (try_begin t expected st.guard))
      ]

  -- Whatever status a call of processStage expects, of a transaction with one of the four statuses
  -- it leaves the database as it was, or moves the status along an edge of the state machine, so no
  -- settled or failed transaction changes again.
  pub process_stage-IsMoved :
      (env : Env) (txn_no expected : String) (n : ℕ) (row : TxnRow) (st : AsyncState)
      → parse (trim_space txn_no) ≡ some n
      → get_txn n (st.db) ≡ some row
      → is_status row.status ≡ true
      → IsMoved row n (st.db) (process_stage parse text message env txn_no expected st).1.db
  unfolding process_stage get_transfer_txn
  process_stage-IsMoved env txn_no expected n row st p found k =
      let t = trim_space txn_no in
      elim (Bool-cases (t == "")) [
        | inl b ↦ rw b (inl refl)
        | inr b ↦ elim (Bool-cases (trim_space expected == "")) [
          | inl e ↦ rw b (
              rw e (rw p (rw found (process_expected-IsMoved env t row.status n row st p found k))))
          | inr e ↦
              rw b (rw e (process_expected-IsMoved env t (trim_space expected) n row st p found k))
        ]
      ]
