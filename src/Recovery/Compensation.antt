-- ===== src/Recovery/Compensation.antt =====
-- internal/service/compensation_worker.go: the runs of both workers, and what is reported of them.
use coin.Base.{ℕ, suc, String, Bool, Option, none, some, List, if◌then◌else◌}
use coin.Domain.Error.{Error}
use coin.Ledger.Query.Events.{EventRow}
use coin.Async.Processor.{AsyncState}
use coin.Webhook
use coin.Webhook.{Outside, WebhookWorker}
use coin.Recovery
use coin.Recovery.{TransferRecoveryWorker, StatusTable}

pub record CompensationWorker : Type 0 where
  pub txn_worker : Option TransferRecoveryWorker
  pub notify : Option WebhookWorker
  -- whether there is a reporter
  pub reports : Bool

-- What a run changes: the queues, the events, and the counters `IncTxnCompensationRun` and
-- `IncNotifyCompensationRun` of the repository.
pub record CompensationState : Type 0 where
  pub async : AsyncState
  pub events : List EventRow
  pub txn_comp_runs : ℕ
  pub notify_comp_runs : ℕ

abbrev counted : Bool → ℕ → ℕ
counted reports n = if reports then suc n else n

module _ (parse : String → Option ℕ) (text : ℕ → String) (message : Error → String) where
  abbrev recovered :
      Option TransferRecoveryWorker → Bool → ℕ → StatusTable → CompensationState → CompensationState
  recovered none reports now table st = st
  recovered (some w) reports now table st = record st {
    async = Recovery.run_once parse text message w now table (st.async);
    txn_comp_runs = counted reports st.txn_comp_runs;
  }

  abbrev notified :
      CompensationWorker
      → Option WebhookWorker
      → ℕ
      → ℕ
      → (ℕ → Outside)
      → CompensationState
      → CompensationWorker × CompensationState
  notified w none now now_db outside st = (w, st)
  notified w (some n) now now_db outside st =
      let (n', events) = Webhook.run_once now now_db outside n st.events in
      (
        record w { notify = some n' },
        record st { events = events; notify_comp_runs = counted w.reports st.notify_comp_runs },
      )

  -- `RunOnce`
  unfoldable pub run_once :
      CompensationWorker
      → ℕ
      → ℕ
      → ℕ
      → (ℕ → Outside)
      → StatusTable
      → CompensationState
      → CompensationWorker × CompensationState
  run_once w now_txn now now_db outside table st =
      notified w w.notify now now_db outside (recovered w.txn_worker w.reports now_txn table st)
