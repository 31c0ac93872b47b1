-- ===== src/Webhook/Retry.antt =====
-- How often and how fast a delivery is tried again.
use coin.Base.{
  subst, sym, ℕ, zero, suc, ◌+◌, ◌*◌, ◌≤◌, ◌≡◌, refl, Bool, false, Option, none, some, List, [],
  ◌∷◌, arith, All, leb, ◌=?◌, if◌then◌else◌, length, Bool-cases, inl, inr,
}
use coin.Int.{ℤ, pos, pos_part, leb_ℤ, ◌≤ℤ◌, ◌+ℤ◌}
use coin.Int.Word.{wrap64, wrap64-exact}
use coin.Ledger.Query.{find, update_where}
use coin.Webhook.{
  WebhookWorker, mark_retry, retry_delay, nth_or_last, normalize_webhook_backoff, some_minute,
  positive_minutes,
}
use coin.Ledger.Query.Events.{EventRow, mark_outbox_event_retry, minute}

abbrev pub of_event : ℕ → EventRow → Bool
of_event event_id e = e.event_id =? event_id

-- What a failed delivery makes of its event.
abbrev retried : WebhookWorker → ℕ → ℕ → EventRow → EventRow
retried w now now_db e = record e {
  retry_count = e.retry_count + 1;
  next_retry_at = some (pos now +ℤ retry_delay (e.retry_count + 1) w.backoff);
  status = (if leb w.max_retries (e.retry_count + 1) then "DEAD" else "PENDING");
  updated_at = now_db;
}

find-retried :
    (f : EventRow → EventRow) (id : ℕ) (rows : List EventRow) (e : EventRow)
    → ((r : EventRow) → (f r).event_id ≡ r.event_id)
    → find (of_event id) rows ≡ some e
    → find (of_event id) (update_where (of_event id) f rows) ≡ some (f e)
find-retried f id [] e same h = ground (arith, h)
find-retried f id (r ∷ rows) e same h = elim (Bool-cases (of_event id r)) [
  | inl b ↦ grind (arith, b, h, same r)
  | inr b ↦ rw b (rw b (find-retried f id rows e same (rw b at h)))
]

find-of_event :
    (id : ℕ) (rows : List EventRow) (e : EventRow)
    → find (of_event id) rows ≡ some e
    → e.event_id ≡ id
find-of_event id [] e h = ground (arith, h)
find-of_event id (r ∷ rows) e h = ground (arith, h, find-of_event id rows e)

find-mark_retry :
    (w : WebhookWorker) (id now now_db : ℕ) (rows : List EventRow) (e : EventRow)
    → find (of_event id) rows ≡ some e
    → find (of_event id) (mark_retry w now now_db e rows) ≡ some (retried w now now_db e)
unfolding mark_retry mark_outbox_event_retry
find-mark_retry w id now now_db rows e h =
    let f = λ (r : EventRow). record r {
      retry_count = e.retry_count + 1;
      next_retry_at = some (pos now +ℤ retry_delay (e.retry_count + 1) w.backoff);
      status = (if leb w.max_retries (e.retry_count + 1) then "DEAD" else "PENDING");
      updated_at = now_db;
    } in
    subst (λ (i : ℕ). find (of_event id) (update_where (of_event i) f rows) ≡ some (f e))
      (sym (find-of_event id rows e h)) (find-retried f id rows e (λ _. refl) h)

-- The deliveries of an event that fail at the given times, each with the row as the table has it.
abbrev pub fail_once : WebhookWorker → ℕ × ℕ → Option EventRow → List EventRow → List EventRow
fail_once w t none rows = rows
fail_once w t (some e) rows = mark_retry w t.0 t.1 e rows

pub fail_all : WebhookWorker → ℕ → List (ℕ × ℕ) → List EventRow → List EventRow
fail_all w id [] rows = rows
fail_all w id (t ∷ ts) rows = fail_all w id ts (fail_once w t (find (of_event id) rows) rows)

-- The count and the status of the event after so many failures.
abbrev pub HasFailed : WebhookWorker → ℕ → ℕ → List EventRow → Type 0
HasFailed w id count rows =
    (e : EventRow) × (find (of_event id) rows ≡ some e)
    × (e.retry_count ≡ count)
    × (e.status ≡ (if leb w.max_retries count then "DEAD" else "PENDING"))

fail_once-HasFailed :
    (w : WebhookWorker) (id : ℕ) (t : ℕ × ℕ) (rows : List EventRow) (e : EventRow)
    → find (of_event id) rows ≡ some e
    → HasFailed w id (e.retry_count + 1) (fail_once w t (find (of_event id) rows) rows)
fail_once-HasFailed w id t rows e h =
    rw h (retried w t.0 t.1 e, find-mark_retry w id t.0 t.1 rows e h, refl, refl)

fail_all-HasFailed :
    (w : WebhookWorker) (id : ℕ) (ts : List (ℕ × ℕ)) (rows : List EventRow) (count : ℕ)
    → HasFailed w id count rows
    → HasFailed w id (count + length ts) (fail_all w id ts rows)
unfolding fail_all
fail_all-HasFailed w id [] rows count h = subst (λ (n : ℕ). HasFailed w id n rows) (omega arith) h
fail_all-HasFailed w id (t ∷ ts) rows count (e, found, same, _) =
    subst
      (λ (n : ℕ).
        HasFailed w id n (fail_all w id ts (fail_once w t (find (of_event id) rows) rows)))
      (omega (arith, same))
      (fail_all-HasFailed w id ts (fail_once w t (find (of_event id) rows) rows) (e.retry_count + 1)
        (fail_once-HasFailed w id t rows e found))

-- Each failed delivery of an event counts one up, and the event is dead from the failure on with
-- which the count reaches the most retries, and pending before that.
pub fail_all_lem :
    (w : WebhookWorker) (id : ℕ) (t : ℕ × ℕ) (ts : List (ℕ × ℕ)) (rows : List EventRow)
    → (e : EventRow) → find (of_event id) rows ≡ some e
    → HasFailed w id (e.retry_count + length (t ∷ ts)) (fail_all w id (t ∷ ts) rows)
unfolding fail_all
fail_all_lem w id t ts rows e h =
    subst
      (λ (n : ℕ).
        HasFailed w id n (fail_all w id ts (fail_once w t (find (of_event id) rows) rows)))
      (omega arith)
      (fail_all-HasFailed w id ts (fail_once w t (find (of_event id) rows) rows) (e.retry_count + 1)
        (fail_once-HasFailed w id t rows e h))

abbrev AllLong : List ℤ → Type 0
AllLong = All (λ d. pos minute ≤ℤ d)

some_minute-AllLong : (ds : List ℤ) → AllLong ds → AllLong (some_minute ds)
some_minute-AllLong [] h = (omega arith, tt)
some_minute-AllLong (d ∷ ds) h = h

minutes_long :
    (m : ℤ)
    → leb_ℤ m (pos 0) ≡ false
    → pos_part m ≤ 153722867
    → pos minute ≤ℤ wrap64 (pos (pos_part m * minute))
minutes_long m b h =
    rw (wrap64-exact (pos (pos_part m * minute)) (omega arith) (omega arith)) (ground (arith, b))

positive_minutes-AllLong :
    (ms : List ℤ) → All (λ m. pos_part m ≤ 153722867) ms → AllLong (positive_minutes ms)
positive_minutes-AllLong [] h = tt
positive_minutes-AllLong (m ∷ ms) h = elim (Bool-cases (leb_ℤ m (pos 0))) [
  | inl b ↦ rw b (positive_minutes-AllLong ms h.1)
  | inr b ↦ rw b (minutes_long m b h.0, positive_minutes-AllLong ms h.1)
]

normalize_webhook_backoff-AllLong :
    (ms : List ℤ) → All (λ m. pos_part m ≤ 153722867) ms → AllLong (normalize_webhook_backoff ms)
unfolding normalize_webhook_backoff
normalize_webhook_backoff-AllLong [] h =
    (omega arith, (omega arith, (omega arith, (omega arith, (omega arith, tt)))))
normalize_webhook_backoff-AllLong (m ∷ ms) h =
    some_minute-AllLong (positive_minutes (m ∷ ms)) (positive_minutes-AllLong (m ∷ ms) h)

nth_or_last-AllLong :
    (n : ℕ) (d : ℤ) (ds : List ℤ) → pos minute ≤ℤ d → AllLong ds → pos minute ≤ℤ nth_or_last n d ds
nth_or_last-AllLong n d [] h k = h
nth_or_last-AllLong zero d (e ∷ ds) h k = k.0
nth_or_last-AllLong (suc n) d (e ∷ ds) h k = nth_or_last-AllLong n e ds k.0 k.1

retry_delay-AllLong : (n : ℕ) (ds : List ℤ) → AllLong ds → pos minute ≤ℤ retry_delay n ds
unfolding retry_delay
retry_delay-AllLong n [] h = omega arith
retry_delay-AllLong zero (d ∷ ds) h = h.0
retry_delay-AllLong (suc n) (d ∷ ds) h = nth_or_last-AllLong n d (d ∷ ds) h.0 h

-- With a backoff of minutes that fit into a Duration, no retry comes sooner than in a minute.
pub retry_delay-normalize_webhook_backoff :
    (minutes : List ℤ) (retry_count : ℕ)
    → All (λ m. pos_part m ≤ 153722867) minutes
    → pos minute ≤ℤ retry_delay retry_count (normalize_webhook_backoff minutes)
retry_delay-normalize_webhook_backoff minutes retry_count h =
    retry_delay-AllLong retry_count (normalize_webhook_backoff minutes)
      (normalize_webhook_backoff-AllLong minutes h)
