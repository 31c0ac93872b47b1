-- ===== src/Recovery.antt =====
-- internal/service/transfer_recovery_worker.go, with the lists of internal/db/repository.go
-- that it asks for: what is offered to the queues again. The timers of
-- `Start` are left out, and so is the log.
pub mod Offered
pub mod Compensation
use coin.Base.{
  ℕ, zero, suc, ◌+◌, ◌-◌, String, Bool, true, false, ◌&&◌, ◌||◌, Option, none, some, List, [], ◌∷◌,
  map, ltb, leb, ◌=?◌, ◌==◌, if◌then◌else◌,
}
use coin.Int.{ℤ, pos, pos_part, leb_ℤ, ltb_ℤ}
use coin.Domain.Error.{Error}
use coin.Domain.StateMachine.{txn_status_init, txn_status_pay_success}
use coin.Ledger.Schema.{TxnRow}
use coin.Ledger.Query.{select}
use coin.Listing.{take}
use coin.Async.Processor.{AsyncState, enqueue_by_status}

-- A row of txn, with the column that the other statements do not read.
pub record StatusRow : Type 0 where
  pub txn : TxnRow
  pub updated_at : ℕ

-- ORDER BY updated_at ASC, txn_no ASC
abbrev is_older : StatusRow → StatusRow → Bool
is_older r s =
    ltb r.updated_at s.updated_at || r.updated_at =? s.updated_at && ltb r.txn.txn_no s.txn.txn_no

abbrev insert_by_age : StatusRow → List StatusRow → List StatusRow
insert_by_age r [] = r ∷ []
insert_by_age r (s ∷ rows) =
    let rest = insert_by_age r rows in if is_older s r then s ∷ rest else r ∷ s ∷ rows

abbrev oldest_first : List StatusRow → List StatusRow
oldest_first [] = []
oldest_first (r ∷ rows) = insert_by_age r (oldest_first rows)

-- `ListTransferTxnsByStatus`, the statement
unfoldable pub list_transfer_txns_by_status_rows : String → ℕ → List StatusRow → List StatusRow
list_transfer_txns_by_status_rows status limit rows =
    take limit (oldest_first (select (λ r. r.txn.status == status) rows))

-- The limit of both lists.
abbrev limit_of : ℕ → ℕ
limit_of limit = if limit =? 0 then 100 else if ltb 1000 limit then 1000 else limit

-- `ListTransferTxnsByStatus`
unfoldable pub list_transfer_txns_by_status : String → ℕ → List StatusRow → List StatusRow
list_transfer_txns_by_status status limit rows =
    list_transfer_txns_by_status_rows status (limit_of limit) rows

-- `ListStaleTransferTxnNosByStatus`
unfoldable pub list_stale_transfer_txn_nos_by_status : String → ℕ → ℕ → List StatusRow → List ℕ
list_stale_transfer_txn_nos_by_status status stale_before limit rows =
    map (λ r. r.txn.txn_no)
      (take (limit_of limit)
        (oldest_first (select (λ r. r.txn.status == status && leb r.updated_at stale_before) rows)))

-- The threshold is in nanoseconds.
pub record TransferRecoveryWorker : Type 0 where
  pub batch_size : ℕ
  pub stale_threshold : ℤ

-- `NewTransferRecoveryWorkerWithStaleThreshold`
unfoldable pub new_transfer_recovery_worker_with_stale_threshold : ℤ → ℤ → TransferRecoveryWorker
new_transfer_recovery_worker_with_stale_threshold batch_size stale_threshold = record {
  batch_size = if leb_ℤ batch_size (pos 0) then 100 else pos_part batch_size;
  stale_threshold = stale_threshold;
}

-- `NewTransferRecoveryWorker`
unfoldable pub new_transfer_recovery_worker : ℤ → TransferRecoveryWorker
new_transfer_recovery_worker batch_size =
    new_transfer_recovery_worker_with_stale_threshold batch_size (pos 0)

-- The rows as the database has them, and whether it answers for a status.
pub record StatusTable : Type 0 where
  pub rows : List StatusRow
  pub answers : String → Bool

module _ (parse : String → Option ℕ) (text : ℕ → String) (message : Error → String) where
  -- `listTxnNosByStatus`; `none` is an error of the database
  unfoldable pub list_txn_nos_by_status :
      TransferRecoveryWorker → ℕ → StatusTable → String → Option (List String)
  list_txn_nos_by_status w now table status =
      let stale =
        list_stale_transfer_txn_nos_by_status status (now - pos_part w.stale_threshold) w.batch_size
          table.rows in
      let any_age =
        map (λ r. r.txn.txn_no) (list_transfer_txns_by_status status w.batch_size table.rows) in
      if table.answers status
      then some (map text (if ltb_ℤ (pos 0) w.stale_threshold then stale else any_age))
      else none

  abbrev counted : Bool → ℕ → ℕ
  counted accepted n = if accepted then n + 1 else n

  -- The loop over the numbers of a status, with the count of those that are accepted.
  unfoldable pub offer_all : String → List String → ℕ × AsyncState → ℕ × AsyncState
  offer_all status [] (dispatched, st) = (dispatched, st)
  offer_all status (txn_no ∷ txn_nos) (dispatched, st) =
      let (accepted, st') = enqueue_by_status parse text message txn_no status st in
      offer_all status txn_nos (counted accepted dispatched, st')

  abbrev pub offered : String → Option (List String) → AsyncState → AsyncState
  offered status none st = st
  offered status (some txn_nos) st = (offer_all status txn_nos (0, st)).1

  -- `RunOnce`, which passes over a status for which the database does not answer
  unfoldable pub run_once : TransferRecoveryWorker → ℕ → StatusTable → AsyncState → AsyncState
  run_once w now table st =
      offered txn_status_pay_success (list_txn_nos_by_status w now table txn_status_pay_success)
        (offered txn_status_init (list_txn_nos_by_status w now table txn_status_init) st)

  -- The rest of `runOnceWithResult`, which stops at an error: whether there was one, and the count.
  abbrev then_offer :
      String
      → Option (List String)
      → ℕ × AsyncState
      → (ℕ × AsyncState → Bool × ℕ × AsyncState)
      → Bool × ℕ × AsyncState
  then_offer status none (dispatched, st) rest = (false, dispatched, st)
  then_offer status (some txn_nos) (dispatched, st) rest =
      rest (offer_all status txn_nos (dispatched, st))

  -- `runOnceWithResult`
  unfoldable pub run_once_with_result :
      TransferRecoveryWorker → ℕ → StatusTable → AsyncState → Bool × ℕ × AsyncState
  run_once_with_result w now table st =
      then_offer txn_status_init (list_txn_nos_by_status w now table txn_status_init) (0, st)
        (λ x.
          then_offer txn_status_pay_success
            (list_txn_nos_by_status w now table txn_status_pay_success) x (λ y. (true, y.0, y.1)))
