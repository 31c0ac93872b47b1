-- ===== src/Ledger/Stage/Once.antt =====
-- `ApplyTxnStage` is atomic, and applies a stage of a transaction at most once.
use coin.Base.{
  ℕ, ◌≡◌, refl, String, Bool, true, false, Option, none, some, List, [], ◌∷◌, arith, ◌==◌, eq_iff,
  inl, inr, ◌⊎◌, Option-cases,
}
use coin.Text.{trim_space, trim_left, trim_right, is_space}
use coin.Domain.StateMachine.{txn_status_init, txn_status_pay_success, txn_status_recv_success}
use coin.Ledger.Schema.{Db, Env, TxnRow, OutboxRow}
use coin.Ledger.Query.{find, update_where}
use coin.Ledger.Query.Txns.{of_txn, set_status, get_txn, update_txn_status, insert_outbox_event}
use coin.Ledger.Stage.{
  TxnStageApplyResult, init_stage, pay_success_stage, apply_txn_stage, stage_result,
}
use coin.Ledger.Money.{find_sound}
use coin.Ledger.Money.Frame.{Ensures}

-- A call of `ApplyTxnStage` that applies a stage reports no error; any other call leaves the
-- database as it was.
pub apply_txn_stage-atomic :
    (env : Env) (txn_no : ℕ) (expected : String) (db : Db)
    → let (result, error, db') = apply_txn_stage env txn_no expected db in
      ((result.applied ≡ true) × (error ≡ none)) ⊎ ((result.applied ≡ false) × (db' ≡ db))
unfolding apply_txn_stage
apply_txn_stage-atomic env txn_no expected db = ground arith

pub find-update :
    {A : Type 0} (p : A → Bool) (f : A → A) (xs : List A)
    → ((x : A) → p (f x) ≡ p x)
    → (find p (update_where p f xs) ≡ none)
      ⊎ ((a : A) × (find p (update_where p f xs) ≡ some (f a)))
find-update p f [] same = inl refl
find-update p f (x ∷ xs) same =
    let rest = find-update p f xs same in let e = same x in grind (arith, rest, e)

abbrev pub row_has_status : String → Option TxnRow → Bool
row_has_status status none = true
row_has_status status (some t) = t.status == status

-- The row, if it is there, has the status.
unfoldable pub has_status : ℕ → String → Db → Bool
has_status txn_no status db = row_has_status status (get_txn txn_no db)

update_txn_status-has_status :
    (status : String) (txn_no : ℕ) (db : Db)
    → has_status txn_no status (update_txn_status status txn_no db) ≡ true
unfolding has_status update_txn_status get_txn
update_txn_status-has_status status txn_no db =
    let row = find-update (of_txn txn_no) (set_status status) db.txns (λ _. refl) in
    let same = (eq_iff status status).1 refl in grind (arith, row, same)

insert_outbox_event-has_status :
    (e : OutboxRow) (status : String) (txn_no : ℕ) (db : Db)
    → has_status txn_no status (insert_outbox_event e db) ≡ has_status txn_no status db
unfolding has_status insert_outbox_event get_txn
insert_outbox_event-has_status e status txn_no db = ground arith

init_stage-has_status :
    (env : Env) (stage : TxnRow) (result : TxnStageApplyResult) (db : Db)
    → Ensures
        (λ _ db'. has_status stage.txn_no txn_status_pay_success db' ≡ true)
        (init_stage env stage result db)
unfolding init_stage
init_stage-has_status env stage result db = grind (arith, update_txn_status-has_status)

pay_success_stage-has_status :
    (env : Env) (stage : TxnRow) (result : TxnStageApplyResult) (db : Db)
    → Ensures
        (λ _ db'. has_status stage.txn_no txn_status_recv_success db' ≡ true)
        (pay_success_stage env stage result db)
unfolding pay_success_stage
pay_success_stage-has_status env stage result db =
    grind (arith, update_txn_status-has_status, insert_outbox_event-has_status)

-- A row of another status is left alone.
apply_txn_stage-passed :
    (env : Env) (txn_no : ℕ) (expected next : String) (db : Db)
    → has_status txn_no next db ≡ true
    → trim_space next == expected ≡ false
    → ((apply_txn_stage env txn_no expected db).0.applied ≡ false)
      × ((apply_txn_stage env txn_no expected db).2 ≡ db)
unfolding apply_txn_stage has_status
apply_txn_stage-passed env txn_no expected next db status other =
    elim (Option-cases (get_txn txn_no db)) [
      | inl gone ↦ grind (arith, gone)
      | inr (stage, row) ↦
          let same : stage.status == next ≡ true = rw (row, has_status) at status in
          let e = (eq_iff stage.status next).0 same in grind (arith, row, e, other)
    ]

pub apply_txn_stage-has_status :
    (env : Env) (txn_no : ℕ) (expected : String) (db : Db)
    → (apply_txn_stage env txn_no expected db).0.applied ≡ true
    → ((expected ≡ txn_status_init)
        × (has_status txn_no txn_status_pay_success (apply_txn_stage env txn_no expected db).2
            ≡ true))
      ⊎ ((expected ≡ txn_status_pay_success)
          × (has_status txn_no txn_status_recv_success (apply_txn_stage env txn_no expected db).2
              ≡ true))
unfolding apply_txn_stage get_txn
apply_txn_stage-has_status env txn_no expected db applied =
    elim (Option-cases (get_txn txn_no db)) [
      | inl gone ↦ grind (arith, gone, applied)
      | inr (stage, row) ↦
          let same = find_sound (of_txn txn_no) stage db.txns row in
          let first = init_stage-has_status env stage (stage_result stage) db in
          let second = pay_success_stage-has_status env stage (stage_result stage) db in
          let text = eq_iff expected txn_status_init in
          let text' = eq_iff expected txn_status_pay_success in
          grind (arith, row, same, first, second, applied, text, text')
    ]

-- Behind a call that has applied a stage, a second call with the same expected status applies
-- nothing and writes nothing, whatever its environment.
pub apply_txn_stage-once :
    (env env' : Env) (txn_no : ℕ) (expected : String) (db : Db)
    → (apply_txn_stage env txn_no expected db).0.applied ≡ true
    → let db' = (apply_txn_stage env txn_no expected db).2 in
      let again = apply_txn_stage env' txn_no expected db' in
      (again.0.applied ≡ false) × (again.2 ≡ db')
unfolding trim_space trim_left trim_right is_space
apply_txn_stage-once env env' txn_no expected db applied =
    let db' = (apply_txn_stage env txn_no expected db).2 in
    elim (apply_txn_stage-has_status env txn_no expected db applied) [
      | inl (e, status) ↦
          apply_txn_stage-passed env' txn_no expected txn_status_pay_success db' status (rw e refl)
      | inr (e, status) ↦
          apply_txn_stage-passed env' txn_no expected txn_status_recv_success db' status (rw e refl)
    ]
