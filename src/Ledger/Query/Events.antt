-- ===== src/Ledger/Query/Events.antt =====
-- The statements on the table outbox_event that claim and mark events, with the limit that
-- internal/db/repository.go gives them. Times are nanoseconds. A retry count is an int32, and an
-- event is dead before it gets there.
use coin.Base.{
  ℕ, ◌+◌, ◌*◌, String, Bool, true, ◌&&◌, ◌||◌, Option, none, some, List, [], ◌∷◌, ltb, leb, ◌=?◌,
  ◌==◌, if◌then◌else◌,
}
use coin.Int.{ℤ, pos, pos_part, leb_ℤ}
use coin.Ledger.Query.{select, any, update_where}

abbrev pub minute : ℕ
minute = 60000000000

pub record EventRow : Type 0 where
  pub id : ℕ
  pub event_id : ℕ
  pub txn_no : ℕ
  pub merchant_no : String
  pub status : String
  pub retry_count : ℕ
  pub next_retry_at : Option ℤ
  pub created_at : ℕ
  pub updated_at : ℕ

abbrev is_before : ℕ → Option ℤ → Bool
is_before now none = true
is_before now (some at_time) = leb_ℤ at_time (pos now)

-- The condition of `ClaimDueOutboxEvents`, at the worker's time and the database's.
unfoldable pub is_due : ℕ → ℕ → EventRow → Bool
is_due now now_db e =
    e.status == "PENDING" && is_before now e.next_retry_at
    || e.status == "PROCESSING" && leb (e.updated_at + 30 * minute) now_db

-- A table holds its rows by their ids, so a stable sort orders by the time of creation and the id.
abbrev pub insert_event : EventRow → List EventRow → List EventRow
insert_event e [] = e ∷ []
insert_event e (f ∷ es) =
    let rest = insert_event e es in if leb e.created_at f.created_at then e ∷ f ∷ es else f ∷ rest

abbrev pub order_by_creation : List EventRow → List EventRow
order_by_creation [] = []
order_by_creation (e ∷ es) = insert_event e (order_by_creation es)

abbrev pub take {ℓ} : {A : Type ℓ} → ℕ → List A → List A
take ℕ.zero xs = []
take (ℕ.suc n) [] = []
take (ℕ.suc n) (x ∷ xs) = x ∷ take n xs

-- `picked`, with the condition of the statement
unfoldable pub picked : (EventRow → Bool) → ℕ → List EventRow → List EventRow
picked due limit rows = take limit (order_by_creation (select due rows))

abbrev pub is_among : List EventRow → EventRow → Bool
is_among es e = any (λ f. e.id =? f.id) es

-- `claimed`
unfoldable pub claimed : ℕ → List EventRow → List EventRow → List EventRow
claimed now_db es rows =
    update_where (is_among es) (λ e. record e { status = "PROCESSING"; updated_at = now_db }) rows

-- The limit as the repository corrects it.
abbrev pub claim_limit : ℤ → ℕ
claim_limit limit =
    if leb_ℤ limit (pos 0) then 100 else if ltb 1000 (pos_part limit) then 1000 else pos_part limit

-- `ClaimDueOutboxEvents`: the events and the table. The join with the transaction adds its columns.
unfoldable pub claim_due_outbox_events : ℤ → ℕ → ℕ → List EventRow → List EventRow × List EventRow
claim_due_outbox_events limit now now_db rows =
    let es = picked (is_due now now_db) (claim_limit limit) rows in (es, claimed now_db es rows)

-- `ClaimDueOutboxEventsByTxnNo`
unfoldable pub claim_due_outbox_events_by_txn_no :
    ℕ → ℤ → ℕ → ℕ → List EventRow → List EventRow × List EventRow
claim_due_outbox_events_by_txn_no txn_no limit now now_db rows =
    let es = picked (λ e. e.txn_no =? txn_no && is_due now now_db e) (claim_limit limit) rows in
    (es, claimed now_db es rows)

-- `MarkOutboxEventSuccess`
unfoldable pub mark_outbox_event_success : ℕ → ℕ → List EventRow → List EventRow
mark_outbox_event_success event_id now_db rows =
    update_where (λ e. e.event_id =? event_id)
      (λ e. record e { status = "SUCCESS"; updated_at = now_db }) rows

-- `MarkOutboxEventRetry`
unfoldable pub mark_outbox_event_retry : ℕ → ℕ → ℤ → Bool → ℕ → List EventRow → List EventRow
mark_outbox_event_retry event_id retry_count next_at dead now_db rows =
    update_where (λ e. e.event_id =? event_id)
      (λ e. record e {
        retry_count = retry_count;
        next_retry_at = some next_at;
        status = (if dead then "DEAD" else "PENDING");
        updated_at = now_db;
      })
      rows
