-- ===== src/Async.antt =====
-- internal/service/txn_async_processor.go: the queue of a stage, with its workers' channels. A queued
-- item is its transaction number; the time beside it is for profiling.
pub mod Counts
pub mod Queue
pub mod Guard
pub mod Processor
use coin.Base.{
  ℕ, zero, suc, ◌+◌, ◌%◌, String, Bool, true, false, not, ◌&&◌, ◌||◌, Option, none, some, List, [],
  ◌∷◌, ◌++◌, ◌≡◌, ◌=?◌, ltb, leb, ◌==◌, if◌then◌else◌, length,
}
use coin.Int.{ℤ, pos, pos_part, leb_ℤ}
use coin.Text.{trim_space}
use coin.Text.Hash.{bytes, fnv32a}
use coin.Ledger.Query.{any, select}

-- The channels of the workers, each a queue of up to `capacity` items, and the keys of `pending`.
pub record StageQueue : Type 0 where
  pub worker_queues : List (List String)
  pub capacity : ℕ
  pub max_pending : ℕ
  pub pending : List String

abbrev pub positive_or : ℕ → ℤ → ℕ
positive_or n a = if leb_ℤ a (pos 0) then n else pos_part a

abbrev pub empty_queues : ℕ → List (List String)
empty_queues zero = []
empty_queues (suc n) = [] ∷ empty_queues n

-- `newStageQueueWithWorkers`
unfoldable pub new_stage_queue_with_workers : ℤ → ℤ → StageQueue
new_stage_queue_with_workers worker_count size =
    let workers = positive_or 1 worker_count in
    let size = positive_or 1 size in
    record {
      worker_queues = empty_queues (if ltb size workers then size else workers);
      capacity = size;
      max_pending = size;
      pending = [];
    }

-- `none` stands for -1.
unfoldable pub worker_index : String → String → StageQueue → Option ℕ
worker_index route_key fallback q =
    let routed = trim_space route_key in
    let key = (if routed == "" then trim_space fallback else routed) in
    if length q.worker_queues =? 0
    then none
    else if key == ""
    then some 0
    else some (fnv32a (bytes key) % length q.worker_queues)

abbrev pub nth_queue : ℕ → List (List String) → List String
nth_queue n [] = []
nth_queue zero (c ∷ cs) = c
nth_queue (suc n) (c ∷ cs) = nth_queue n cs

-- A send on one channel.
abbrev pub send : ℕ → String → List (List String) → List (List String)
send n txn_no [] = []
send zero txn_no (c ∷ cs) = (c ++ txn_no ∷ []) ∷ cs
send (suc n) txn_no (c ∷ cs) = c ∷ send n txn_no cs

abbrev pub is_pending : String → StageQueue → Bool
is_pending txn_no q = any (λ s. txn_no == s) q.pending

-- The section of `EnqueueWithRoute` under the mutex.
unfoldable pub enqueue_at : ℕ → String → StageQueue → Bool × StageQueue
enqueue_at index txn_no q =
    if is_pending txn_no q
    then (true, q)
    else if ltb 0 q.max_pending && leb q.max_pending (length q.pending)
    then (false, q)
    else if leb q.capacity (length (nth_queue index q.worker_queues))
    then (false, q)
    else (
      true,
      record q { worker_queues = send index txn_no q.worker_queues; pending = txn_no ∷ q.pending },
    )

abbrev pub enqueue_routed : Option ℕ → String → StageQueue → Bool × StageQueue
enqueue_routed none txn_no q = (false, q)
enqueue_routed (some index) txn_no q =
    if leb (length q.worker_queues) index then (false, q) else enqueue_at index txn_no q

unfoldable pub enqueue_with_route : String → String → StageQueue → Bool × StageQueue
enqueue_with_route txn_no route_key q =
    let txn_no = trim_space txn_no in
    if txn_no == "" then (false, q) else enqueue_routed (worker_index route_key txn_no q) txn_no q

abbrev pub total_length : List (List String) → ℕ
total_length [] = 0
total_length (c ∷ cs) = length c + total_length cs

-- `Depth`
unfoldable pub depth : StageQueue → ℕ
depth q = total_length q.worker_queues

-- `Done`
unfoldable pub done : String → StageQueue → StageQueue
done txn_no q =
    let txn_no = trim_space txn_no in
    if txn_no == "" then q else record q { pending = select (λ s. not (txn_no == s)) q.pending }

-- What is received behind the first channel, with that channel in front.
abbrev pub behind :
    List String → Option (String × List (List String)) → Option (String × List (List String))
behind c none = none
behind c (some received) = some (received.0, c ∷ received.1)

-- A receive of a worker from its channel, if there is an item.
unfoldable pub receive : ℕ → List (List String) → Option (String × List (List String))
receive n [] = none
receive zero ([] ∷ cs) = none
receive zero ((txn_no ∷ c) ∷ cs) = some (txn_no, c ∷ cs)
receive (suc n) (c ∷ cs) = behind c (receive n cs)

-- A stage at work: its queue, and the items that workers have received and not finished.
pub record StageWork : Type 0 where
  pub queue : StageQueue
  pub working : List String

-- Any call of `EnqueueWithRoute`, a worker's receive, or the `Done` of any item in work.
pub data Move (s t : StageWork) : Type 0 where
  enqueue :
      (txn_no route_key : String)
      → t ≡ record s { queue = (enqueue_with_route txn_no route_key s.queue).1 }
      → Move s t
  start :
      (worker : ℕ) (txn_no : String) (rest : List (List String))
      → receive worker s.queue.worker_queues ≡ some (txn_no, rest)
      → t
        ≡ record { queue = record (s.queue) { worker_queues = rest }; working = txn_no ∷ s.working }
      → Move s t
  finish :
      (before after : List String) (txn_no : String)
      → s.working ≡ before ++ txn_no ∷ after
      → t ≡ record { queue = done txn_no s.queue; working = before ++ after }
      → Move s t

pub data Reach (s : StageWork) : StageWork → Type 0 where
  here : Reach s s
  next : {t u : StageWork} → Reach s t → Move t u → Reach s u
