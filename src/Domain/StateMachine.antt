-- ===== src/Domain/StateMachine.antt =====
-- internal/domain/state_machine.go: the status of a transaction and its transitions.
pub mod Paths
use coin.Base.{
  ℕ, zero, suc, ◌+◌, ◌≤◌, ◌≡◌, ◌≢◌, refl, ◌⊎◌, inl, inr, ◌↔◌, String, Bool, true, false, ◌||◌,
  Option, none, some, List, [], ◌∷◌, arith, ◌==◌, eq_iff, if◌then◌else◌, Bool-cases,
}
use coin.Domain.Error.{Error, txn_status_invalid}

abbrev pub txn_status_init : String
txn_status_init = "INIT"

abbrev pub txn_status_pay_success : String
txn_status_pay_success = "PAY_SUCCESS"

abbrev pub txn_status_recv_success : String
txn_status_recv_success = "RECV_SUCCESS"

abbrev pub txn_status_failed : String
txn_status_failed = "FAILED"

pub record TxnStateMachine : Type 0 where
  pub status : String

-- `NewTxnStateMachine`
abbrev pub new_txn_state_machine : String → TxnStateMachine
new_txn_state_machine initial = record { status = initial }

-- The machine after a call, and its error.
unfoldable pub transit : TxnStateMachine → String → TxnStateMachine × Option Error
transit s next =
    let allowed =
      if s.status == txn_status_init
      then next == txn_status_pay_success || next == txn_status_failed
      else if s.status == txn_status_pay_success
      then next == txn_status_recv_success || next == txn_status_failed
      else false in
    if allowed then (record s { status = next }, none) else (s, some txn_status_invalid)
