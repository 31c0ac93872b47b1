-- ===== src/Tests/Recovery.antt =====
-- The recovery worker, run on a table with two transactions.
use coin.Base.{
  ℕ, ◌≡◌, refl, String, true, false, Option, some, [], ◌∷◌, ◌==◌, ◌=?◌, if◌then◌else◌, Bool-cases,
  inl, inr,
}
use coin.Int.{pos}
use coin.Text.{trim_space, trim_left, trim_right, is_space}
use coin.Domain.Error.{Error}
use coin.Domain.StateMachine.{txn_status_init, txn_status_pay_success}
use coin.Async.{here}
use coin.Async.Guard.{new_processing_guard}
use coin.Async.Queue.{new_work}
use coin.Async.Processor.{AsyncState}
use coin.Recovery.{
  TransferRecoveryWorker, StatusTable, list_txn_nos_by_status, run_once,
  list_transfer_txns_by_status, list_transfer_txns_by_status_rows,
}
use coin.Recovery.Offered.{IsOffered, AllListed, IsReached, run_once-IsOffered}
use coin.Tests.Data.{transfer, before}

abbrev parse : String → Option ℕ
parse v = some 7

abbrev text : ℕ → String
text n = if n =? 7 then "7" else "8"

abbrev message : Error → String
message e = ""

abbrev state : AsyncState
state = record {
  db = before;
  guard = new_processing_guard;
  init_queue = (new_work (pos 2) (pos 3)).queue;
  pay_success_queue = (new_work (pos 1) (pos 1)).queue;
  notified = [];
}

abbrev table : StatusTable
table = record {
  rows =
      record { txn = transfer; updated_at = 5 }
      ∷ record { txn = record transfer { txn_no = 8 }; updated_at = 4 }
      ∷ [];
  answers = λ s. true;
}

abbrev worker : TransferRecoveryWorker
worker = record { batch_size = 100; stale_threshold = pos 0 }

-- The older number comes first.
listed : list_txn_nos_by_status parse text message worker 9 table "INIT" ≡ some ("8" ∷ "7" ∷ [])
unfolding list_txn_nos_by_status list_transfer_txns_by_status list_transfer_txns_by_status_rows
listed = refl

init-IsReached : IsReached state.init_queue
init-IsReached = (pos 2, pos 3, [], here)

pay-IsReached : IsReached state.pay_success_queue
pay-IsReached = (pos 1, pos 1, [], here)

text_named : (n : ℕ) → (trim_space (text n) == "") ≡ false
unfolding trim_space trim_right trim_left is_space
text_named n = elim (Bool-cases (n =? 7)) [ inl e ↦ rw e refl | inr e ↦ rw e refl ]

run_once-IsOffered_example :
    AllListed
      (λ t. IsOffered (run_once parse text message worker 9 table state).init_queue (trim_space t))
      (list_txn_nos_by_status parse text message worker 9 table txn_status_init)
    × AllListed
        (λ t.
          IsOffered
            (run_once parse text message worker 9 table state).pay_success_queue
            (trim_space t))
        (list_txn_nos_by_status parse text message worker 9 table txn_status_pay_success)
unfolding trim_space trim_right trim_left is_space
run_once-IsOffered_example =
    run_once-IsOffered parse text message worker 9 table state text_named init-IsReached
      pay-IsReached
