-- ===== src/Tests/Ledger.antt =====
-- The theorems on the ledger, applied.
use coin.Base.{ap, subst, ◌≡◌, refl, true, false, Option, none, some, arith, eq_iff, inl}
use coin.Int.{pos, ◌+ℤ◌, ◌-ℤ◌}
use coin.Int.Word.{IsInt64}
use coin.Ledger.Schema.{TxnRow}
use coin.Ledger.Query.Accounts.{get_account}
use coin.Ledger.Query.Txns.{of_txn, get_txn}
use coin.Text.{trim_space, trim_left, trim_right, is_space}
use coin.Domain.Account.{Account}
use coin.Ledger.Schema.{ok, err}
use coin.Ledger.Query.{update_where}
use coin.Ledger.Query.Txns.{spend}
use coin.Ledger.Debit.{apply_account_debit, debit_plain}
use coin.Ledger.Stage.{init_stage, apply_txn_stage, take_refund_quota}
use coin.Ledger.Stage.Once.{apply_txn_stage-once}
use coin.Ledger.Stage.Quota.{verdict, take_refund_quota_lem}
use coin.Ledger.Money.Stages.{HasNoneExpired}
use coin.Ledger.Money.{money, HasUniqueKeys}
use coin.Ledger.Money.Conservation.{FitsStage, apply_txn_stage-money}
use coin.Tests.Data.{alice, bob, transfer, before, env}

before_keys : HasUniqueKeys before
before_keys = (
  λ n. ((λ h. rw (← (eq_iff "A" n).0 h) refl), ((λ h. refl), tt)),
  λ n. ((λ h. ground arith), ((λ h. ground arith), ((λ h. refl), tt))),
)

-- What an option holds.
abbrev get_or : {A : Type 0} → A → Option A → A
get_or d none = d
get_or d (some a) = a

module _ (stage : TxnRow) (found : get_txn 7 before ≡ some stage) where
  same_stage : transfer ≡ stage
  unfolding get_txn
  same_stage = ap (get_or transfer) found

transfer_fits : FitsStage env transfer before
unfolding get_account trim_space trim_left trim_right is_space ◌+ℤ◌ ◌-ℤ◌
transfer_fits = (
  λ a found.
      subst (λ (x : Account). IsInt64 (x.balance -ℤ pos 30) × HasNoneExpired env before x)
        (ap (get_or alice) found) (record { above = omega arith; below = omega arith }, inl refl),
  λ a found.
      subst (λ (x : Account). IsInt64 (x.balance +ℤ pos 30)) (ap (get_or bob) found)
        (record { above = omega arith; below = omega arith }),
)

before_fits : (stage : TxnRow) → get_txn 7 before ≡ some stage → FitsStage env stage before
before_fits stage found =
    subst (λ (x : TxnRow). FitsStage env x before) (same_stage stage found) transfer_fits

apply_txn_stage-money_example : money (apply_txn_stage env 7 "INIT" before).2 ≡ money before
apply_txn_stage-money_example = apply_txn_stage-money env 7 "INIT" before before_keys before_fits

-- The debit of Alice's 30 is applied.
debit_applies : (apply_txn_stage env 7 "INIT" before).0.applied ≡ true
unfolding apply_txn_stage init_stage apply_account_debit debit_plain get_txn get_account trim_space
    trim_left trim_right is_space
debit_applies = refl

apply_txn_stage-once_example :
    let db' = (apply_txn_stage env 7 "INIT" before).2 in
    let again = apply_txn_stage env 7 "INIT" db' in (again.0.applied ≡ false) × (again.2 ≡ db')
apply_txn_stage-once_example = apply_txn_stage-once env env 7 "INIT" before debit_applies

take_refund_quota_lem_example :
    take_refund_quota 5 "M" (pos 3) before ≡ elim (verdict "M" (pos 3) (get_txn 5 before)) [
      | none ↦ (ok tt, record before { txns = update_where (of_txn 5) (spend (pos 3)) before.txns })
      | some e ↦ (err e, before)
    ]
take_refund_quota_lem_example = take_refund_quota_lem 5 "M" (pos 3) before refl (before_keys.1 5)
