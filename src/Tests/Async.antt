-- ===== src/Tests/Async.antt =====
-- The theorems on the asynchronous processor, applied.
use coin.Base.{
  ℕ, ◌+◌, ◌≤◌, ◌≡◌, refl, String, true, false, not, ◌&&◌, ◌||◌, Option, some, [], ltb, ◌==◌, length,
  if◌then◌else◌, ◌=?◌,
}
use coin.Int.{pos}
use coin.Text.{trim_space, trim_left, trim_right, is_space}
use coin.Domain.Error.{Error}
use coin.Ledger.Query.Accounts.{get_account}
use coin.Ledger.Query.Txns.{get_txn}
use coin.Ledger.Debit.{apply_account_debit, debit_plain}
use coin.Ledger.Stage.{init_stage, apply_txn_stage, is_known_biz_type}
use coin.Async.{
  StageWork, enqueue_with_route, is_pending, total_length, enqueue, Reach, here, next,
  new_stage_queue_with_workers,
}
use coin.Async.Counts.{occurrences, queued}
use coin.Async.Queue.{new_work, Reach-occurrences, enqueue_with_route-accepts}
use coin.Async.Guard
use coin.Async.Guard.{
  Guarded, new_guarded, new_processing_guard, processing_key, processing, try_begin,
  Reach-processing,
}
use coin.Async.Processor.{AsyncState, process_stage}
use coin.Async.Processor.Fate.{IsMoved, process_stage-IsMoved}
use coin.Async.Processor.Progress.{is_decided, HasProgressed, process_stage-HasProgressed}
use coin.Tests.Data.{transfer, before, env}

abbrev work : StageWork
work = record (new_work (pos 2) (pos 3)) {
  queue = (enqueue_with_route " T7" "A" (new_work (pos 2) (pos 3)).queue).1;
}

work_reached : Reach (new_work (pos 2) (pos 3)) work
work_reached = next here (enqueue " T7" "A" refl)

Reach-occurrences_example :
    (queued "T7" work.queue.worker_queues + occurrences "T7" work.working ≤ 1)
    × (total_length work.queue.worker_queues + length work.working ≤ work.queue.max_pending)
Reach-occurrences_example = Reach-occurrences (pos 2) (pos 3) work_reached "T7"

enqueue_with_route-accepts_example :
    let t = trim_space "T8" in
    let (accepted, q) = enqueue_with_route "T8" "B" work.queue in
    (accepted ≡ (
      not (t == "")
      && (is_pending t work.queue || ltb (length work.queue.pending) work.queue.max_pending)))
    × (is_pending t q ≡ (is_pending t work.queue || accepted))
enqueue_with_route-accepts_example =
    enqueue_with_route-accepts (pos 2) (pos 3) "T8" "B" work_reached

abbrev begun : Guarded
begun = Guard.entered ("T7", "INIT") (try_begin "T7" "INIT" new_processing_guard) []

Reach-processing_example :
    (processing (processing_key "T7" "INIT") begun.inside ≤ 1)
    × ((try_begin "T7" "INIT" begun.guard).0 ≡ (
        if processing_key "T7" "INIT" == "+"
        then false
        else processing (processing_key "T7" "INIT") begun.inside =? 0))
Reach-processing_example =
    Reach-processing "T7" "INIT" (Guard.next Guard.here (Guard.begin "T7" "INIT" refl))

abbrev parse : String → Option ℕ
parse _ = some 7

abbrev text : ℕ → String
text _ = "7"

abbrev message : Error → String
message _ = "failed"

abbrev start : AsyncState
start = record {
  db = before;
  guard = new_processing_guard;
  init_queue = new_stage_queue_with_workers (pos 2) (pos 3);
  pay_success_queue = new_stage_queue_with_workers (pos 2) (pos 3);
  notified = [];
}

found : get_txn 7 (start.db) ≡ some transfer
unfolding get_txn
found = refl

process_stage-IsMoved_example :
    IsMoved parse text message transfer 7
      (start.db)
      (process_stage parse text message env "7" "INIT" start).1.db
process_stage-IsMoved_example =
    process_stage-IsMoved parse text message env "7" "INIT" 7 transfer start refl found refl

named : (trim_space "7" == "") ≡ false
unfolding trim_space trim_left trim_right is_space
named = refl

known : is_known_biz_type (trim_space transfer.biz_type) ≡ true
unfolding trim_space trim_left trim_right is_space
known = refl

free : (try_begin (trim_space "7") "INIT" new_processing_guard).0 ≡ true
unfolding try_begin processing_key trim_space trim_left trim_right is_space
free = refl

decided : is_decided "INIT" (apply_txn_stage env 7 "INIT" before) ≡ true
unfolding apply_txn_stage init_stage apply_account_debit debit_plain get_txn get_account trim_space
    trim_left trim_right is_space
decided = refl

process_stage-HasProgressed_example :
    HasProgressed parse text message "INIT" 7
      (process_stage parse text message env "7" "INIT" start).1.db
process_stage-HasProgressed_example =
    process_stage-HasProgressed parse text message env "7" 7 transfer start refl named found known
      refl decided free
