-- ===== src/Async/Queue.antt =====
-- The queue of a stage with its workers at work, as steps that interleave in any order.
use coin.Base.{
  subst, ℕ, zero, suc, ◌+◌, ◌%◌, ◌≤◌, ◌<◌, ◌≡◌, refl, ap, ◌∙◌, String, true, false, not, ◌&&◌, ◌||◌,
  some, List, [], ◌∷◌, ◌++◌, ◌⊎◌, inl, inr, arith, ltb, leb, ◌==◌, eq_iff, if◌then◌else◌, length,
  Bool-cases,
}
use coin.Int.{ℤ, pos, negsuc}
use coin.Text.{trim_space}
use coin.Text.Trim.{trim_space-trim_space}
use coin.Text.Hash.{bytes, fnv32a}
use coin.Ledger.Query.{select}
use coin.Async.{
  StageQueue, new_stage_queue_with_workers, worker_index, nth_queue, send, is_pending, enqueue_at,
  enqueue_with_route, total_length, done, receive, empty_queues, positive_or, StageWork, Move,
  enqueue, start, finish, Reach, here, next,
}
use coin.Async.Counts.{
  occurrences, queued, occurrences-append, length-append, any-occurrences, send-queued,
  send-total_length, length-send, nth_queue-total_length, IsTaken, receive-IsTaken,
  select-occurrences, length-select,
}

-- What holds of a stage between any two steps. Every pending number is in a channel or in work, once.
record IsSound (s : StageWork) : Type 0 where
  workers : 0 < length s.queue.worker_queues
  room : 0 < s.queue.max_pending
  capacity : s.queue.max_pending ≤ s.queue.capacity
  bounded : length s.queue.pending ≤ s.queue.max_pending
  size : length s.queue.pending ≡ total_length s.queue.worker_queues + length s.working
  once : (t : String) → occurrences t s.queue.pending ≤ 1
  placed :
      (t : String)
      → occurrences t s.queue.pending ≡ queued t s.queue.worker_queues + occurrences t s.working
  items :
      (t : String) → 0 < occurrences t s.queue.pending → (trim_space t ≡ t) × ((t == "") ≡ false)

worker_index-bound :
    (route_key fallback : String) (q : StageQueue)
    → 0 < length q.worker_queues
    → (index : ℕ) × (worker_index route_key fallback q ≡ some index)
      × (index < length q.worker_queues)
unfolding worker_index
worker_index-bound route_key fallback q h =
    let routed = trim_space route_key in
    let key = (if routed == "" then trim_space fallback else routed) in
    elim (Bool-cases (key == "")) [
      | inl e ↦ (0, ground (arith, e), h)
      | inr e ↦ (fnv32a (bytes key) % length q.worker_queues, ground (arith, e), omega arith)
    ]

-- On a sound stage a number that is not blank is accepted while it is pending or there is room.
enqueue_at-accepts :
    (s : StageWork) (index : ℕ) (t : String)
    → IsSound s
    → (enqueue_at index t s.queue).0
      ≡ (is_pending t s.queue || ltb (length s.queue.pending) s.queue.max_pending)
unfolding enqueue_at
enqueue_at-accepts s index t h =
    ground (arith, h.room, h.capacity, h.size, nth_queue-total_length index s.queue.worker_queues)

enqueue_at-is_pending :
    (index : ℕ) (t : String) (q : StageQueue)
    → is_pending t (enqueue_at index t q).1 ≡ (is_pending t q || (enqueue_at index t q).0)
unfolding enqueue_at
enqueue_at-is_pending index t q = ground (arith, eq_iff t t)

abbrev with_item : ℕ → String → StageQueue → StageQueue
with_item index t q = record q {
  worker_queues = send index t q.worker_queues;
  pending = t ∷ q.pending;
}

enqueue_at-cases :
    (index : ℕ) (t : String) (q : StageQueue)
    → 0 < q.max_pending
    → ((enqueue_at index t q).1 ≡ q)
      ⊎ ((enqueue_at index t q).1 ≡ with_item index t q)
        × (occurrences t q.pending ≡ 0)
        × (length q.pending < q.max_pending)
unfolding enqueue_at
enqueue_at-cases index t q h = elim (Bool-cases (is_pending t q)) [
  | inl e ↦ inl (rw e refl)
  | inr e ↦ elim (Bool-cases (ltb 0 q.max_pending && leb q.max_pending (length q.pending))) [
    | inl f ↦ inl (rw e (rw f refl))
    | inr f ↦ elim (Bool-cases (leb q.capacity (length (nth_queue index q.worker_queues)))) [
      | inl g ↦ inl (rw e (rw f (rw g refl)))
      | inr g ↦ inr (
        rw e (rw f (rw g refl)),
        ground (arith, any-occurrences t q.pending, e),
        ground (arith, f),
      )
    ]
  ]
]

with_item-IsSound :
    (s : StageWork) (index : ℕ) (t : String)
    → index < length s.queue.worker_queues
    → trim_space t ≡ t
    → (t == "") ≡ false
    → occurrences t s.queue.pending ≡ 0
    → length s.queue.pending < s.queue.max_pending
    → IsSound s
    → IsSound (record s { queue = with_item index t s.queue })
with_item-IsSound s index t i e b o l h = record {
  workers = omega (arith, length-send index t s.queue.worker_queues, h.workers);
  room = h.room;
  capacity = h.capacity;
  bounded = omega (arith, l);
  size = omega (arith, send-total_length index t s.queue.worker_queues i, h.size);
  once = λ u. ground (arith, h.once u, o, eq_iff u t);
  placed = λ u. omega (arith, send-queued index u t s.queue.worker_queues i, h.placed u);
  items = λ u p. elim (Bool-cases (u == t)) [
    | inl same ↦ rw ((eq_iff u t).0 same) (e, b)
    | inr other ↦ h.items u (ground (arith, p, other))
  ];
}

enqueue_at-IsSound :
    (s : StageWork) (index : ℕ) (t : String)
    → index < length s.queue.worker_queues
    → trim_space t ≡ t
    → (t == "") ≡ false
    → IsSound s
    → IsSound (record s { queue = (enqueue_at index t s.queue).1 })
enqueue_at-IsSound s index t i e b h = elim (enqueue_at-cases index t s.queue h.room) [
  | inl same ↦ rw same h
  | inr (new, o, l) ↦ rw new (with_item-IsSound s index t i e b o l h)
]

leb-false : (a b : ℕ) → b < a → leb a b ≡ false
leb-false a b h = ground arith

-- A call of `EnqueueWithRoute` comes to the section under the mutex, for some worker.
enqueue_with_route-at :
    (txn_no route_key : String) (q : StageQueue)
    → 0 < length q.worker_queues
    → (trim_space txn_no == "") ≡ false
    → (index : ℕ) × (enqueue_with_route txn_no route_key q ≡ enqueue_at index (trim_space txn_no) q)
      × (index < length q.worker_queues)
unfolding enqueue_with_route
enqueue_with_route-at txn_no route_key q h b =
    let (index, e, i) = worker_index-bound route_key (trim_space txn_no) q h in
    (index, rw b (rw e (rw (leb-false (length q.worker_queues) index i) refl)), i)

enqueue_with_route_blank :
    (txn_no route_key : String) (q : StageQueue)
    → (trim_space txn_no == "") ≡ true
    → enqueue_with_route txn_no route_key q ≡ (false, q)
unfolding enqueue_with_route
enqueue_with_route_blank txn_no route_key q b = rw b refl

enqueue_with_route-IsSound :
    (s : StageWork) (txn_no route_key : String)
    → IsSound s
    → IsSound (record s { queue = (enqueue_with_route txn_no route_key s.queue).1 })
enqueue_with_route-IsSound s txn_no route_key h = elim (Bool-cases (trim_space txn_no == "")) [
  | inl blank ↦ rw (enqueue_with_route_blank txn_no route_key s.queue blank) h
  | inr b ↦
      let (index, e, i) = enqueue_with_route-at txn_no route_key s.queue h.workers b in
      rw e (enqueue_at-IsSound s index (trim_space txn_no) i (trim_space-trim_space txn_no) b h)
]

done_item :
    (t : String) (q : StageQueue)
    → trim_space t ≡ t
    → (t == "") ≡ false
    → done t q ≡ record q { pending = select (λ s. not (t == s)) q.pending }
unfolding done
done_item t q e b = rw e (rw b refl)

start-IsSound :
    (s : StageWork) (n : ℕ) (t : String) (rest : List (List String))
    → receive n s.queue.worker_queues ≡ some (t, rest)
    → IsSound s
    → IsSound
        (record { queue = record (s.queue) { worker_queues = rest }; working = t ∷ s.working })
start-IsSound s n t rest e h =
    let taken = subst (IsTaken s.queue.worker_queues) e (receive-IsTaken n s.queue.worker_queues) in
    record {
      workers = omega (arith, h.workers, taken.1);
      room = h.room;
      capacity = h.capacity;
      bounded = h.bounded;
      size = omega (arith, h.size, taken.0);
      once = h.once;
      placed = λ u. omega (arith, h.placed u, taken.2 u);
      items = h.items;
    }

done-IsSound :
    (s : StageWork) (before after : List String) (t : String)
    → s.working ≡ before ++ t ∷ after
    → IsSound s
    → IsSound (record { queue = done t s.queue; working = before ++ after })
done-IsSound s before after t e h =
    let worked = λ (u : String). ap (occurrences u) e ∙ occurrences-append u before (t ∷ after) in
    let mine = h.placed t in
    let item = h.items t (ground (arith, worked t, mine, eq_iff t t)) in
    rw (done_item t s.queue item.0 item.1) (record {
      workers = h.workers;
      room = h.room;
      capacity = h.capacity;
      bounded = omega (arith, h.bounded, length-select t s.queue.pending);
      size = ground (
        arith,
        h.size,
        h.once t,
        h.placed t,
        worked t,
        eq_iff t t,
        length-select t s.queue.pending,
        ap length e ∙ length-append before (t ∷ after),
        length-append before after,
      );
      once = λ u. ground (arith, h.once u, select-occurrences u t s.queue.pending);
      placed = λ u. ground (
        arith,
        h.once u,
        h.placed u,
        worked u,
        eq_iff u t,
        eq_iff t u,
        select-occurrences u t s.queue.pending,
        occurrences-append u before after,
      );
      items = λ u p. h.items u (ground (arith, p, select-occurrences u t s.queue.pending));
    })

Move-IsSound : {s t : StageWork} → Move s t → IsSound s → IsSound t
Move-IsSound {s} (enqueue txn_no route_key e) h =
    rw e (enqueue_with_route-IsSound s txn_no route_key h)
Move-IsSound {s} (start n t rest e f) h = rw f (start-IsSound s n t rest e h)
Move-IsSound {s} (finish before after t e f) h = rw f (done-IsSound s before after t e h)

Reach-IsSound : {s t : StageWork} → Reach s t → IsSound s → IsSound t
Reach-IsSound here h = h
Reach-IsSound (next r m) h = Move-IsSound m (Reach-IsSound r h)

empty_queues-queued : (t : String) (n : ℕ) → queued t (empty_queues n) ≡ 0
empty_queues-queued t zero = refl
empty_queues-queued t (suc n) = omega (arith, empty_queues-queued t n)

empty_queues-total_length : (n : ℕ) → total_length (empty_queues n) ≡ 0
empty_queues-total_length zero = refl
empty_queues-total_length (suc n) = omega (arith, empty_queues-total_length n)

length-empty_queues : (n : ℕ) → length (empty_queues n) ≡ n
length-empty_queues zero = refl
length-empty_queues (suc n) = omega (arith, length-empty_queues n)

abbrev pub new_work : ℤ → ℤ → StageWork
new_work worker_count size = record {
  queue = new_stage_queue_with_workers worker_count size;
  working = [];
}

queues-IsSound :
    (workers size : ℕ)
    → 0 < workers
    → 0 < size
    → IsSound (record {
      queue = record {
        worker_queues = empty_queues workers;
        capacity = size;
        max_pending = size;
        pending = [];
      };
      working = [];
    })
queues-IsSound workers size w h = record {
  workers = omega (arith, length-empty_queues workers);
  room = h;
  capacity = omega arith;
  bounded = omega arith;
  size = omega (arith, empty_queues-total_length workers);
  once = λ t. omega arith;
  placed = λ t. omega (arith, empty_queues-queued t workers);
  items = λ t p. ground (arith, p);
}

positive_or_positive : (n : ℕ) (a : ℤ) → 0 < n → 0 < positive_or n a
positive_or_positive n (pos a) h = ground arith
positive_or_positive n (negsuc a) h = ground arith

new_work-IsSound : (worker_count size : ℤ) → IsSound (new_work worker_count size)
unfolding new_stage_queue_with_workers
new_work-IsSound worker_count size =
    let workers = positive_or 1 worker_count in
    let room = positive_or 1 size in
    let w = positive_or_positive 1 worker_count (omega arith) in
    let h = positive_or_positive 1 size (omega arith) in
    queues-IsSound (if ltb room workers then room else workers) room (ground (arith, w, h)) h

-- In every stage that a new queue reaches, over any interleaving of calls of EnqueueWithRoute,
-- receives of the workers and ends of their work, a transaction is in one channel or in work at one
-- worker, or in neither, and no more of them are pending than the queue has room for.
pub Reach-occurrences :
    (worker_count size : ℤ) {s : StageWork}
    → Reach (new_work worker_count size) s
    → (t : String)
    → (queued t s.queue.worker_queues + occurrences t s.working ≤ 1)
      × (total_length s.queue.worker_queues + length s.working ≤ s.queue.max_pending)
Reach-occurrences worker_count size {s} r t =
    let h = Reach-IsSound r (new_work-IsSound worker_count size) in
    (omega (arith, h.placed t, h.once t), omega (arith, h.size, h.bounded))

-- In every such stage EnqueueWithRoute accepts a number exactly if it is not blank, and is pending
-- already or is one for which the queue has room: no channel is full before the queue is. Behind the
-- call the number is pending exactly if it was, or is accepted.
pub enqueue_with_route-accepts :
    (worker_count size : ℤ) {s : StageWork} (txn_no route_key : String)
    → Reach (new_work worker_count size) s
    → let t = trim_space txn_no in
      let (accepted, q) = enqueue_with_route txn_no route_key s.queue in
      (accepted ≡ (
        not (t == "")
        && (is_pending t s.queue || ltb (length s.queue.pending) s.queue.max_pending)))
      × (is_pending t q ≡ (is_pending t s.queue || accepted))
enqueue_with_route-accepts worker_count size {s} txn_no route_key r =
    let h = Reach-IsSound r (new_work-IsSound worker_count size) in
    let t = trim_space txn_no in
    elim (Bool-cases (t == "")) [
      | inl blank ↦
          rw (enqueue_with_route_blank txn_no route_key s.queue blank)
            (ground (arith, blank), ground arith)
      | inr b ↦
          let (index, e, i) = enqueue_with_route-at txn_no route_key s.queue h.workers b in
          rw e (
            enqueue_at-accepts s index t h ∙ ground (arith, b),
            enqueue_at-is_pending index t s.queue,
          )
    ]
