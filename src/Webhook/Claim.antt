-- ===== src/Webhook/Claim.antt =====
-- Claims of events while the workers claim and mark: ClaimDueOutboxEvents, ClaimDueOutboxEventsByTxnNo,
-- MarkOutboxEventSuccess and MarkOutboxEventRetry.
mod Rows
use coin.Base.{
  ℕ, zero, suc, ◌+◌, ◌*◌, ◌<◌, ◌≤◌, ◌≡◌, refl, Bool, true, false, not, ◌&&◌, ◌||◌, ◌==◌, eq_iff,
  if◌then◌else◌, List, [], ◌∷◌, arith, All, leb, ◌=?◌, Bool-cases, inl, inr,
}
use coin.Int.{ℤ}
use coin.Webhook.Claim.Rows.{Holds, update_where-Holds, weaken-Holds, picked-Holds}
use coin.Ledger.Query.{select, any, update_where}
use coin.Ledger.Query.Events.{
  EventRow, is_due, insert_event, order_by_creation, take, picked, is_among, claimed,
  claim_due_outbox_events, claim_due_outbox_events_by_txn_no, claim_limit, minute,
  mark_outbox_event_success, mark_outbox_event_retry,
}

-- A claim of all due events, or of a transaction's: the limit and the worker's time.
pub data Claim : Type 0 where
  all_due : ℤ → ℕ → Claim
  of_txn : ℕ → ℤ → ℕ → Claim

abbrev pub claim_at : Claim → ℕ → List EventRow → List EventRow × List EventRow
claim_at (all_due limit now) now_db rows = claim_due_outbox_events limit now now_db rows
claim_at (of_txn txn_no limit now) now_db rows =
    claim_due_outbox_events_by_txn_no txn_no limit now now_db rows

-- What the workers do to the table: the number of the event, its count, its next time and whether it
-- is dead, for a retry.
pub data Step : Type 0 where
  claim : Claim → Step
  succeed : ℕ → Step
  retry : ℕ → ℕ → ℤ → Bool → Step

pub record Call : Type 0 where
  pub now_db : ℕ
  pub step : Step

abbrev after_step : Step → ℕ → List EventRow → List EventRow
after_step (claim c) now_db rows = (claim_at c now_db rows).1
after_step (succeed event_id) now_db rows = mark_outbox_event_success event_id now_db rows
after_step (retry event_id count next_at dead) now_db rows =
    mark_outbox_event_retry event_id count next_at dead now_db rows

abbrev pub after : List Call → List EventRow → List EventRow
after [] rows = rows
after (c ∷ calls) rows = after calls (after_step c.step c.now_db rows)

abbrev marks : Step → ℕ → Bool
marks (claim _) n = false
marks (succeed event_id) n = n =? event_id
marks (retry event_id _ _ _) n = n =? event_id

-- One of the calls has marked the event of this number.
abbrev pub is_marked : List Call → ℕ → Bool
is_marked [] n = false
is_marked (c ∷ calls) n = marks c.step n || is_marked calls n

-- In work since this time or later.
abbrev is_working : ℕ → EventRow → Bool
is_working t e = e.status == "PROCESSING" && leb t e.updated_at

-- Work that is not thirty minutes old is not due.
is_working-is_due :
    (t now now_db : ℕ) (e : EventRow)
    → now_db < t + 30 * minute
    → is_working t e ≡ true
    → is_due now now_db e ≡ false
unfolding is_due
is_working-is_due t now now_db e h w =
    let status : e.status ≡ "PROCESSING" = (eq_iff e.status "PROCESSING").0 (ground (arith, w)) in
    rw status (ground (arith, h, w))

-- An event that is held, which its id and its number say, is in work.
abbrev keeps : ℕ → (ℕ → ℕ → Bool) → EventRow → Bool
keeps t held e = not (held e.id e.event_id) || is_working t e

module _ (t : ℕ) where
  claimed-keeps :
      (held : ℕ → ℕ → Bool) (now_db : ℕ) (es rows : List EventRow)
      → t ≤ now_db
      → Holds (keeps t held) rows
      → Holds (keeps t (λ i n. held i n && not false)) (claimed now_db es rows)
  unfolding claimed
  claimed-keeps held now_db es rows h =
      update_where-Holds (keeps t held) _ (is_among es) _ (λ e k b. ground (arith, h, k))
        (λ e k b. ground (arith, k)) rows

  -- Behind a step what is held and is not marked by it is in work.
  after_step-keeps :
      (held : ℕ → ℕ → Bool) (step : Step) (now_db : ℕ) (rows : List EventRow)
      → t ≤ now_db
      → Holds (keeps t held) rows
      → Holds (keeps t (λ i n. held i n && not (marks step n))) (after_step step now_db rows)
  unfolding claim_due_outbox_events claim_due_outbox_events_by_txn_no mark_outbox_event_success
      mark_outbox_event_retry
  after_step-keeps held (claim (all_due limit now)) now_db rows h k =
      claimed-keeps held now_db (picked (is_due now now_db) (claim_limit limit) rows) rows h k
  after_step-keeps held (claim (of_txn txn_no limit now)) now_db rows h k =
      claimed-keeps held now_db
        (picked (λ e. e.txn_no =? txn_no && is_due now now_db e) (claim_limit limit) rows) rows h k
  after_step-keeps held (succeed event_id) now_db rows h k =
      update_where-Holds (keeps t held) _ (λ e. e.event_id =? event_id) _
        (λ e k b. ground (arith, k, b)) (λ e k b. ground (arith, k, b)) rows k
  after_step-keeps held (retry event_id count next_at dead) now_db rows h k =
      update_where-Holds (keeps t held) _ (λ e. e.event_id =? event_id) _
        (λ e k b. ground (arith, k, b)) (λ e k b. ground (arith, k, b)) rows k

  after-keeps :
      (held : ℕ → ℕ → Bool) (calls : List Call) (rows : List EventRow)
      → All (λ (c : Call). t ≤ c.now_db) calls
      → Holds (keeps t held) rows
      → Holds (keeps t (λ i n. held i n && not (is_marked calls n))) (after calls rows)
  after-keeps held [] rows h k = weaken-Holds (keeps t held) _ (λ e b. ground (arith, b)) rows k
  after-keeps held (c ∷ calls) rows h k =
      weaken-Holds _ _ (λ e b. ground (arith, b)) (after (c ∷ calls) rows)
        (after-keeps (λ i n. held i n && not (marks c.step n)) calls
          (after_step c.step c.now_db rows) h.1 (after_step-keeps held c.step c.now_db rows h.0 k))

  claimed-is_working :
      (es rows : List EventRow)
      → Holds (keeps t (λ i _. any (λ f. i =? f.id) es)) (claimed t es rows)
  unfolding claimed
  claimed-is_working es rows =
      update_where-Holds (λ _. true) _ (is_among es) _ (λ e k b. ground arith)
        (λ e k b. ground (arith, b)) rows (everything rows)
    where
      everything : (rows : List EventRow) → Holds (λ _. true) rows
      everything [] = tt
      everything (_ ∷ rows) = (refl, everything rows)

  -- The events of a claim that no later call has marked.
  abbrev held_by : List EventRow → List Call → ℕ → ℕ → Bool
  held_by es calls i n = any (λ f. i =? f.id) es && not (is_marked calls n)

  claim_at-keeps :
      (c : Claim) (rows : List EventRow)
      → Holds (keeps t (λ i _. any (λ f. i =? f.id) (claim_at c t rows).0)) (claim_at c t rows).1
  unfolding claim_due_outbox_events claim_due_outbox_events_by_txn_no
  claim_at-keeps (all_due limit now) rows =
      claimed-is_working (picked (is_due now t) (claim_limit limit) rows) rows
  claim_at-keeps (of_txn txn_no limit now) rows =
      claimed-is_working
        (picked (λ e. e.txn_no =? txn_no && is_due now t e) (claim_limit limit) rows) rows

  claim_at-elsewhere :
      (held : ℕ → ℕ → Bool) (c : Claim) (now_db : ℕ) (rows : List EventRow)
      → now_db < t + 30 * minute
      → Holds (keeps t held) rows
      → Holds (λ e. not (held e.id e.event_id)) (claim_at c now_db rows).0
  unfolding claim_due_outbox_events claim_due_outbox_events_by_txn_no
  claim_at-elsewhere held (all_due limit now) now_db rows h k =
      picked-Holds (keeps t held) _ (is_due now now_db) (claim_limit limit)
        (λ e b d. ground (arith, b, d, is_working-is_due t now now_db e h)) rows k
  claim_at-elsewhere held (of_txn txn_no limit now) now_db rows h k =
      picked-Holds (keeps t held) _ (λ e. e.txn_no =? txn_no && is_due now now_db e)
        (claim_limit limit) (λ e b d. ground (arith, b, d, is_working-is_due t now now_db e h)) rows
        k

  -- Of the events that a claim takes, be it of all due events or of a transaction's, another claim
  -- before thirty minutes of the database's time have passed takes none but those that have been
  -- marked as delivered or for a retry since, whatever claims and marks there were in between, none
  -- of them before the first claim by the database's time.
  pub claim_due_outbox_events-disjoint :
      (first again : Claim) (calls : List Call) (now_db : ℕ) (rows : List EventRow)
      → All (λ (c : Call). t ≤ c.now_db) calls
      → now_db < t + 30 * minute
      → let (taken, rows') = claim_at first t rows in
        All
          (λ e. (not (is_among taken e) || is_marked calls e.event_id) ≡ true)
          (claim_at again now_db (after calls rows')).0
  claim_due_outbox_events-disjoint first again calls now_db rows h soon =
      let (taken, rows') = claim_at first t rows in
      let kept =
        after-keeps (λ i _. any (λ f. i =? f.id) taken) calls rows' h (claim_at-keeps first rows) in
      weaken-Holds _ _ (λ e b. ground (arith, b)) (claim_at again now_db (after calls rows')).0
        (claim_at-elsewhere (held_by taken calls) again now_db (after calls rows') soon kept)
