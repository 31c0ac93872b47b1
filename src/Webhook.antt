-- ===== src/Webhook.antt =====
-- internal/service/webhook_worker.go: the delivery of outbox events to the merchants' webhooks, over
-- the statements that claim and mark events.
pub mod Claim
pub mod Retry
pub mod Cache
use coin.Base.{
  ℕ, ◌+◌, ◌*◌, String, Bool, true, false, not, ◌&&◌, ◌||◌, Option, none, some, List, [], ◌∷◌, ltb,
  leb, ◌=?◌, ◌==◌, if◌then◌else◌, length,
}
use coin.Int.{ℤ, pos, negsuc, pos_part, ◌+ℤ◌, leb_ℤ}
use coin.Int.Word.{wrap64}
use coin.Text.{trim_space}
use coin.Domain.{biz_type_refund}
use coin.Domain.StateMachine.{txn_status_recv_success, txn_status_failed}
use coin.Ledger.Query.{select}
use coin.Ledger.Query.Events.{
  minute, EventRow, is_due, insert_event, order_by_creation, take, picked, is_among, claimed,
  claim_limit, claim_due_outbox_events, claim_due_outbox_events_by_txn_no,
  mark_outbox_event_success, mark_outbox_event_retry,
}

-- A cached answer, with the time up to which it is good.
pub record CacheEntry : Type 0 where
  pub key : String
  pub value : String
  pub expire_at : ℕ

pub record WebhookWorker : Type 0 where
  pub max_retries : ℕ
  pub batch_size : ℤ
  pub backoff : List ℤ
  pub config_cache : List CacheEntry
  pub secret_cache : List CacheEntry
  pub config_cache_ttl : ℕ
  pub secret_cache_ttl : ℕ

abbrev pub some_minute : List ℤ → List ℤ
some_minute [] = pos minute ∷ []
some_minute (d ∷ ds) = d ∷ ds

abbrev pub positive_minutes : List ℤ → List ℤ
positive_minutes [] = []
positive_minutes (m ∷ ms) =
    let rest = positive_minutes ms in
    if leb_ℤ m (pos 0) then rest else wrap64 (pos (pos_part m * minute)) ∷ rest

-- `normalizeWebhookBackoff`; the product is a Duration, an int64.
unfoldable pub normalize_webhook_backoff : List ℤ → List ℤ
normalize_webhook_backoff [] =
    pos minute ∷ pos (5 * minute) ∷ pos (15 * minute) ∷ pos (60 * minute) ∷ pos (360 * minute) ∷ []
normalize_webhook_backoff (m ∷ ms) = some_minute (positive_minutes (m ∷ ms))

abbrev ttl_or_minute : ℤ → ℕ
ttl_or_minute ttl = if leb_ℤ ttl (pos 0) then minute else pos_part ttl

-- `NewWebhookWorkerWithOptions`, without its channel and its profiler
unfoldable pub new_webhook_worker : ℤ → ℤ → List ℤ → ℤ → ℤ → WebhookWorker
new_webhook_worker max_retries batch_size backoff config_ttl secret_ttl = record {
  max_retries = (if leb_ℤ max_retries (pos 0) then 8 else pos_part max_retries);
  batch_size = (if leb_ℤ batch_size (pos 0) then pos 100 else batch_size);
  backoff = normalize_webhook_backoff backoff;
  config_cache = [];
  secret_cache = [];
  config_cache_ttl = ttl_or_minute config_ttl;
  secret_cache_ttl = ttl_or_minute secret_ttl;
}

abbrev pub nth_or_last : ℕ → ℤ → List ℤ → ℤ
nth_or_last n d [] = d
nth_or_last ℕ.zero d (e ∷ ds) = e
nth_or_last (ℕ.suc n) d (e ∷ ds) = nth_or_last n e ds

-- `retryDelay`: the delay at the index, or the last one behind the end
unfoldable pub retry_delay : ℕ → List ℤ → ℤ
retry_delay retry_count [] = pos minute
retry_delay ℕ.zero (d ∷ ds) = d
retry_delay (ℕ.suc n) (d ∷ ds) = nth_or_last n d (d ∷ ds)

-- `markRetry`
unfoldable pub mark_retry : WebhookWorker → ℕ → ℕ → EventRow → List EventRow → List EventRow
mark_retry w now now_db event rows =
    let next_retry = event.retry_count + 1 in
    mark_outbox_event_retry event.event_id next_retry (pos now +ℤ retry_delay next_retry w.backoff)
      (leb w.max_retries next_retry) now_db rows

-- What the repository, or the provider of secrets, reads: a URL and whether it is enabled, or a secret.
pub data Read : Type 0 where
  read_error not_found : Read
  config_found : String → Bool → Read
  secret_found : String → Read

-- What a look-up comes to: an error, nothing that can be used, or a text.
pub data Answer : Type 0 where
  broken unusable : Answer
  usable : String → Answer

abbrev pub answer_of : Read → Answer
answer_of read_error = broken
answer_of not_found = unusable
answer_of (config_found url enabled) =
    if not enabled || trim_space url == "" then unusable else usable url
answer_of (secret_found secret) = if trim_space secret == "" then unusable else usable secret

abbrev pub find_entry : String → List CacheEntry → Option CacheEntry
find_entry key [] = none
find_entry key (c ∷ cs) = let rest = find_entry key cs in if c.key == key then some c else rest

abbrev pub without : String → List CacheEntry → List CacheEntry
without key = select (λ c. not (c.key == key))

-- The value of an entry that is still good.
abbrev pub fresh_value : ℕ → Option CacheEntry → Option String
fresh_value now none = none
fresh_value now (some c) = if ltb c.expire_at now then none else some c.value

abbrev pub store_answer : String → ℕ → Answer → List CacheEntry → Answer × List CacheEntry
store_answer key expire_at broken cache = (broken, cache)
store_answer key expire_at unusable cache = (unusable, cache)
store_answer key expire_at (usable v) cache =
    (usable v, record { key = key; value = v; expire_at = expire_at } ∷ without key cache)

abbrev pub cached_or :
    String → ℕ → Option String → Answer → List CacheEntry → Answer × List CacheEntry
cached_or key expire_at (some v) asked cache = (usable v, cache)
cached_or key expire_at none asked cache = store_answer key expire_at asked (without key cache)

-- `getWebhookConfig` and `getActiveSecret`, with what the repository or the provider of secrets would
-- answer now; the time to live is positive.
unfoldable pub get_cached : ℕ → ℕ → String → Read → List CacheEntry → Answer × List CacheEntry
get_cached now ttl key asked cache =
    cached_or key (now + ttl) (fresh_value now (find_entry key cache)) (answer_of asked) cache

-- What one event finds outside: the times, the two answers, and whether the merchant's server takes
-- the delivery to the URL with the secret (an HTTP status from 200 to 299).
pub record Outside : Type 0 where
  pub now : ℕ
  pub now_db : ℕ
  pub config : Read
  pub secret : Read
  pub accepts : String → String → Bool

abbrev with_secret :
    Outside
    → String
    → EventRow
    → Answer × List CacheEntry
    → WebhookWorker
    → List EventRow
    → WebhookWorker × List EventRow
with_secret o url event (usable secret, cache) w rows = (
  record w { secret_cache = cache },
  (if o.accepts url secret
      then mark_outbox_event_success event.event_id o.now_db rows
      else mark_retry w o.now o.now_db event rows),
)
with_secret o url event (broken, cache) w rows =
    (record w { secret_cache = cache }, mark_retry w o.now o.now_db event rows)
with_secret o url event (unusable, cache) w rows =
    (record w { secret_cache = cache }, mark_retry w o.now o.now_db event rows)

abbrev with_config :
    Outside
    → EventRow
    → Answer × List CacheEntry
    → WebhookWorker
    → List EventRow
    → WebhookWorker × List EventRow
with_config o event (broken, cache) w rows =
    (record w { config_cache = cache }, mark_retry w o.now o.now_db event rows)
with_config o event (unusable, cache) w rows =
    (record w { config_cache = cache }, mark_outbox_event_success event.event_id o.now_db rows)
with_config o event (usable url, cache) w rows =
    with_secret o url event
      (get_cached o.now w.secret_cache_ttl event.merchant_no o.secret w.secret_cache)
      (record w { config_cache = cache }) rows

-- `handleEvent`
unfoldable pub handle_event :
    Outside → EventRow → WebhookWorker → List EventRow → WebhookWorker × List EventRow
handle_event o event w rows =
    with_config o event
      (get_cached o.now w.config_cache_ttl event.merchant_no o.config w.config_cache) w rows

abbrev pub handle_events :
    (ℕ → Outside) → List EventRow → WebhookWorker → List EventRow → WebhookWorker × List EventRow
handle_events outside [] w rows = (w, rows)
handle_events outside (e ∷ es) w rows =
    let (w', rows') = handle_event (outside e.event_id) e w rows in
    handle_events outside es w' rows'

-- `RunOnce`, at the times of the claim
unfoldable pub run_once :
    ℕ → ℕ → (ℕ → Outside) → WebhookWorker → List EventRow → WebhookWorker × List EventRow
run_once now now_db outside w rows =
    let (es, rows') = claim_due_outbox_events w.batch_size now now_db rows in
    handle_events outside es w rows'

-- `DeliverTxn`
unfoldable pub deliver_txn :
    ℕ → ℕ → ℕ → (ℕ → Outside) → WebhookWorker → List EventRow → WebhookWorker × List EventRow
deliver_txn txn_no now now_db outside w rows =
    let (es, rows') = claim_due_outbox_events_by_txn_no txn_no w.batch_size now now_db rows in
    handle_events outside es w rows'

-- `webhookEventType`, from the transaction's kind and status
unfoldable pub webhook_event_type : String → String → String
webhook_event_type biz_type status =
    if status == txn_status_failed
    then "TxnFailed"
    else if biz_type == biz_type_refund && status == txn_status_recv_success
    then "TxnRefunded"
    else "TxnSucceeded"
