-- ===== src/Ledger/Money/Conservation.antt =====
-- `ApplyTxnStage` neither makes nor loses money, as long as no balance leaves int64 and the debit
-- has no expired books to write off.
use coin.Base.{
  ℕ, ◌≡◌, refl, String, true, none, some, arith, ◌==◌, eq_iff, ◌∙◌, inl, inr, Option-cases,
}
use coin.Int.{pos, ◌+ℤ◌, ◌-ℤ◌}
use coin.Int.Word.{add64, sub64, IsInt64, add64_exact, sub64_exact}
use coin.Text.{trim_space, trim_left, trim_right, is_space}
use coin.Domain.Account.{Account}
use coin.Domain.StateMachine.{txn_status_init, txn_status_pay_success, txn_status_recv_success}
use coin.Ledger.Schema.{Db, Env, TxnRow}
use coin.Ledger.Query.Accounts.{of_account, set_balance, get_account}
use coin.Ledger.Query.Txns.{of_txn, set_status, get_txn}
use coin.Text.Trim.{trim_space-trim_space}
use coin.Ledger.Money.Credits.{apply_transfer_credit-gone, apply_refund_credit-gone}
use coin.Ledger.Debit.{apply_account_debit}
use coin.Ledger.Stage.{init_stage, pay_success_stage, apply_txn_stage, stage_result}
use coin.Ledger.Money.{find_sound, sum_of-update, total, carried, in_flight, money, HasUniqueKeys}
use coin.Ledger.Money.Frame.{Ensures, Ensures-weaken}
use coin.Ledger.Money.Stages.{
  HasNoneExpired, take_refund_quota-lem, SetsBoth, moved, landed, init_stage-SetsBoth,
  pay_success_stage-SetsBoth,
}

weight_of_pay : (t : TxnRow) → carried (set_status txn_status_pay_success t) ≡ t.amount
unfolding trim_space trim_left trim_right is_space
weight_of_pay t = refl

weight_of_recv : (t : TxnRow) → carried (set_status txn_status_recv_success t) ≡ pos 0
unfolding trim_space trim_left trim_right is_space
weight_of_recv t = refl

weight_of_init : (t : TxnRow) → trim_space t.status ≡ txn_status_init → carried t ≡ pos 0
weight_of_init t h = rw h refl

module _ (db db' : Db) (keys : HasUniqueKeys db) (account_no : String) (a : Account)
    (found : get_account account_no db ≡ some a) (txn_no : ℕ) (stage : TxnRow)
    (row : get_txn txn_no db ≡ some stage) where
  debit_keeps :
      trim_space stage.status ≡ txn_status_init
      → IsInt64 (a.balance -ℤ stage.amount)
      → SetsBoth account_no (sub64 a.balance stage.amount) txn_status_pay_success txn_no db db'
      → money db' ≡ money db
  unfolding get_account get_txn
  debit_keeps status fits (accounts, txns) =
      let exact = sub64_exact a.balance stage.amount fits in
      let v = sub64 a.balance stage.amount in
      let e =
        sum_of-update (λ x. x.balance) (of_account account_no) (set_balance v) a db.accounts
          (keys.0 account_no) found in
      let f =
        sum_of-update carried (of_txn txn_no) (set_status txn_status_pay_success) stage db.txns
          (keys.1 txn_no) row in
      let w = weight_of_pay stage in
      let z = weight_of_init stage status in
      moved (total db.accounts) (total db'.accounts) a.balance (in_flight db.txns)
        (in_flight db'.txns) (carried stage) (carried (set_status txn_status_pay_success stage))
        stage.amount (cc) (cc) z w

  credit_keeps :
      trim_space stage.status ≡ txn_status_pay_success
      → IsInt64 (a.balance +ℤ stage.amount)
      → SetsBoth account_no (add64 a.balance stage.amount) txn_status_recv_success txn_no db db'
      → money db' ≡ money db
  unfolding get_account get_txn
  credit_keeps status fits (accounts, txns) =
      let exact = add64_exact a.balance stage.amount fits in
      let v = add64 a.balance stage.amount in
      let e =
        sum_of-update (λ x. x.balance) (of_account account_no) (set_balance v) a db.accounts
          (keys.0 account_no) found in
      let f =
        sum_of-update carried (of_txn txn_no) (set_status txn_status_recv_success) stage db.txns
          (keys.1 txn_no) row in
      let w : carried stage ≡ stage.amount = rw status refl in
      landed (total db.accounts) (total db'.accounts) a.balance (in_flight db.txns)
        (in_flight db'.txns) (carried stage) (carried (set_status txn_status_recv_success stage))
        stage.amount (cc) (cc) w (weight_of_recv stage)

-- The sums that a stage computes fit in an int64, and its debit has nothing to write off.
abbrev pub FitsStage : Env → TxnRow → Db → Type 0
FitsStage env stage db =
    ((a : Account)
      → get_account (trim_space stage.debit_account_no) db ≡ some a
      → IsInt64 (a.balance -ℤ stage.amount) × HasNoneExpired env db a)
    × ((a : Account)
        → get_account (trim_space stage.credit_account_no) db ≡ some a
        → IsInt64 (a.balance +ℤ stage.amount))

module _ (env : Env) (stage : TxnRow) (db : Db) (keys : HasUniqueKeys db)
    (row : get_txn stage.txn_no db ≡ some stage) (fits : FitsStage env stage db) where
  init_stage-none :
      get_account (trim_space stage.debit_account_no) db ≡ none
      → Ensures (λ _ db'. money db' ≡ money db) (init_stage env stage (stage_result stage) db)
  unfolding init_stage apply_account_debit get_account
  init_stage-none gone =
      let twice = trim_space-trim_space stage.debit_account_no in
      grind (arith, gone, twice, take_refund_quota-lem)

  pay_success_stage-none :
      get_account (trim_space stage.credit_account_no) db ≡ none
      → Ensures
          (λ _ db'. money db' ≡ money db)
          (pay_success_stage env stage (stage_result stage) db)
  unfolding pay_success_stage
  pay_success_stage-none gone =
      let account_no = trim_space stage.credit_account_no in
      let transfer =
        apply_transfer_credit-gone env stage.txn_no account_no stage.amount db gone
          (trim_space stage.debit_account_no) stage.transfer_scene stage.credit_expire_at in
      let refund = λ (o : ℕ).
        apply_refund_credit-gone env stage.txn_no account_no stage.amount db gone (some o)
          stage.merchant_no in
      grind (arith, transfer, refund)

  init_stage-money :
      trim_space stage.status ≡ txn_status_init
      → Ensures (λ _ db'. money db' ≡ money db) (init_stage env stage (stage_result stage) db)
  init_stage-money status =
      let account_no = trim_space stage.debit_account_no in
      elim (Option-cases (get_account account_no db)) [
        | inl gone ↦ init_stage-none gone
        | inr (a, found) ↦
            let (sum, clean) = fits.0 a found in
            Ensures-weaken _ _ (init_stage env stage (stage_result stage) db)
              (λ _ db'.
                debit_keeps db db' keys account_no a found stage.txn_no stage row status sum)
              (init_stage-SetsBoth env stage a db found clean)
      ]

  pay_success_stage-money :
      trim_space stage.status ≡ txn_status_pay_success
      → Ensures
          (λ _ db'. money db' ≡ money db)
          (pay_success_stage env stage (stage_result stage) db)
  pay_success_stage-money status =
      let account_no = trim_space stage.credit_account_no in
      elim (Option-cases (get_account account_no db)) [
        | inl gone ↦ pay_success_stage-none gone
        | inr (a, found) ↦
            let sum = fits.1 a found in
            Ensures-weaken _ _ (pay_success_stage env stage (stage_result stage) db)
              (λ _ db'.
                credit_keeps db db' keys account_no a found stage.txn_no stage row status sum)
              (pay_success_stage-SetsBoth env stage a db found (keys.0 account_no) sum)
      ]

-- No call of `ApplyTxnStage` changes the money that accounts and transactions hold together, where
-- the primary keys are unique, the sums that the stage computes fit an int64, and the account that
-- it debits has no expired book to write off.
pub apply_txn_stage-money :
    (env : Env) (txn_no : ℕ) (expected : String) (db : Db)
    → HasUniqueKeys db
    → ((stage : TxnRow) → get_txn txn_no db ≡ some stage → FitsStage env stage db)
    → money (apply_txn_stage env txn_no expected db).2 ≡ money db
unfolding apply_txn_stage get_txn
apply_txn_stage-money env txn_no expected db keys fits = elim (Option-cases (get_txn txn_no db)) [
  | inl gone ↦ grind (arith, gone)
  | inr (stage, row) ↦
      let same_no = find_sound (of_txn txn_no) stage db.txns row in
      let row' : get_txn stage.txn_no db ≡ some stage = ground (arith, same_no, row) in
      let text = λ (x y : String). (eq_iff x y).0 in
      let first =
        λ (a : trim_space stage.status == expected ≡ true) (b : expected == txn_status_init ≡ true).
          init_stage-money env stage db keys row' (fits stage row)
            (text (trim_space stage.status) expected a ∙ text expected txn_status_init b) in
      let second =
        λ (a : trim_space stage.status == expected ≡ true)
            (b : expected == txn_status_pay_success ≡ true).
          pay_success_stage-money env stage db keys row' (fits stage row)
            (text (trim_space stage.status) expected a ∙ text expected txn_status_pay_success b) in
      grind (arith, row, first, second)
]
