-- ===== src/Recovery/Offered.antt =====
-- What a run of the recovery worker leaves in the queues.
use coin.Base.{
  ℕ, ◌≤◌, ◌≡◌, refl, sym, ap, subst, ◌∙◌, ◌⊎◌, inl, inr, String, Bool, true, false, not, ◌&&◌, ◌||◌,
  Option, none, some, List, [], ◌∷◌, map, All, ltb, ◌==◌, length, arith, Bool-cases,
}
use coin.Int.{ℤ}
use coin.Text.{trim_space, is_space}
use coin.Text.Trim.{trim_space-trim_space, trim_space_whole}
use coin.Domain.Error.{Error}
use coin.Domain.StateMachine.{txn_status_init, txn_status_pay_success}
use coin.Async.{
  StageQueue, is_pending, enqueue_at, enqueue_routed, enqueue_with_route, worker_index, StageWork,
  enqueue, Reach, next,
}
use coin.Async.Queue.{new_work, enqueue_with_route-accepts}
use coin.Async.Processor.{
  AsyncState, route_key, get_transfer_txn, enqueue_by_status, enqueue_by_status_with_txn,
}
use coin.Recovery.{
  TransferRecoveryWorker, StatusTable, list_txn_nos_by_status, offer_all, offered, run_once,
}

-- The number is pending in the queue, or the queue is full.
abbrev pub IsOffered : StageQueue → String → Type 0
IsOffered q t = (is_pending t q ≡ true) ⊎ (q.max_pending ≤ length q.pending)

-- A call puts at most its number in front of the pending ones.
abbrev HasGrown : String → StageQueue → StageQueue → Type 0
HasGrown t q q' =
    (q'.max_pending ≡ q.max_pending) × ((q'.pending ≡ q.pending) ⊎ (q'.pending ≡ t ∷ q.pending))

enqueue_at-HasGrown :
    (index : ℕ) (t : String) (q : StageQueue) → HasGrown t q (enqueue_at index t q).1
unfolding enqueue_at
enqueue_at-HasGrown index t q = ground arith

enqueue_routed-HasGrown :
    (o : Option ℕ) (t : String) (q : StageQueue) → HasGrown t q (enqueue_routed o t q).1
enqueue_routed-HasGrown none t q = (refl, inl refl)
enqueue_routed-HasGrown (some index) t q = ground (arith, enqueue_at-HasGrown index t q)

enqueue_with_route-HasGrown :
    (txn_no key : String) (q : StageQueue)
    → HasGrown (trim_space txn_no) q (enqueue_with_route txn_no key q).1
unfolding enqueue_with_route
enqueue_with_route-HasGrown txn_no key q = elim (Bool-cases (trim_space txn_no == "")) [
  | inl e ↦ rw e (refl, inl refl)
  | inr e ↦
      rw e (enqueue_routed-HasGrown (worker_index key (trim_space txn_no) q) (trim_space txn_no) q)
]

-- What is offered stays so.
HasGrown-IsOffered :
    (q q' : StageQueue) (t u : String) → HasGrown u q q' → IsOffered q t → IsOffered q' t
HasGrown-IsOffered q q' t u (room, inl same) h = ground (arith, room, same, h)
HasGrown-IsOffered q q' t u (room, inr grown) (inl p) = inl (rw grown (ground (arith, p)))
HasGrown-IsOffered q q' t u (room, inr grown) (inr full) =
    inr (rw (grown, room) (omega (arith, full)))

init_clean : trim_space "INIT" ≡ "INIT"
unfolding is_space
init_clean = trim_space_whole "INIT" (refl, (refl, (refl, (refl, tt))))

pay_success_clean : trim_space "PAY_SUCCESS" ≡ "PAY_SUCCESS"
unfolding is_space
pay_success_clean =
    trim_space_whole "PAY_SUCCESS"
      (refl, (refl, (refl, (refl, (refl, (refl, (refl, (refl, (refl, (refl, (refl, tt)))))))))))

both : (b c : Bool) → b ≡ false → c ≡ true → (not b && c) ≡ true
both b c e f = rw (e, f) refl

or_true : (b : Bool) → (b || true) ≡ true
or_true true = refl
or_true false = refl

is_full : (b : Bool) (n m : ℕ) → (b || ltb n m) ≡ false → m ≤ n
is_full b n m e = ground (arith, e)

-- What the worker has listed for a status, if the database has answered.
abbrev pub AllListed : (String → Type 0) → Option (List String) → Type 0
AllListed P none = Unit {0}
AllListed P (some ts) = All P ts

module _ (worker_count size : ℤ) where
  -- A number is offered by the call that enqueues it, in every stage that can be reached.
  enqueue_with_route-IsOffered :
      (s : StageWork) (txn_no key : String)
      → Reach (new_work worker_count size) s
      → (trim_space txn_no == "") ≡ false
      → IsOffered (enqueue_with_route txn_no key s.queue).1 (trim_space txn_no)
  enqueue_with_route-IsOffered s txn_no key r named =
      let (accepted, pending) = enqueue_with_route-accepts worker_count size txn_no key r in
      let t = trim_space txn_no in
      let q = s.queue in
      elim (Bool-cases (is_pending t q || ltb (length q.pending) q.max_pending)) [
        | inl room ↦
            inl
              (pending ∙ ap (λ a. is_pending t q || a) (accepted ∙ both _ _ named room) ∙ or_true _)
        | inr full ↦
            HasGrown-IsOffered q (enqueue_with_route txn_no key q).1 t t
              (enqueue_with_route-HasGrown txn_no key q) (inr (is_full _ _ _ full))
      ]

-- The queue can be reached, with some numbers in work.
abbrev pub IsReached : StageQueue → Type 0
IsReached q =
    (worker_count : ℤ) × (size : ℤ) × (working : List String) × Reach (new_work worker_count size)
      (record { queue = q; working = working })

module _ (parse : String → Option ℕ) (text : ℕ → String) (message : Error → String) where
  enqueue-IsReached :
      (q : StageQueue) (txn_no key : String)
      → IsReached q
      → IsReached (enqueue_with_route txn_no key q).1
  enqueue-IsReached q txn_no key (worker_count, size, working, r) =
      (worker_count, size, working, next r (enqueue txn_no key refl))

  -- What EnqueueByStatus does for INIT with a number that is not blank.
  enqueue_by_status_init :
      (txn_no : String) (st : AsyncState)
      → (trim_space txn_no == "") ≡ false
      → (key : String) × ((enqueue_by_status parse text message txn_no txn_status_init st).1
          ≡ record st { init_queue = (enqueue_with_route (trim_space txn_no) key st.init_queue).1 })
  unfolding enqueue_by_status enqueue_by_status_with_txn
  enqueue_by_status_init txn_no st named = (
    route_key parse text message (trim_space txn_status_init) (trim_space txn_no)
        (get_transfer_txn parse text message (trim_space txn_no) (st.db)) (st.db),
    rw (named, init_clean) refl,
  )

  enqueue_by_status_pay :
      (txn_no : String) (st : AsyncState)
      → (trim_space txn_no == "") ≡ false
      → (key : String) × ((enqueue_by_status parse text message txn_no txn_status_pay_success st).1
          ≡ record st {
            pay_success_queue = (enqueue_with_route (trim_space txn_no) key st.pay_success_queue).1;
          })
  unfolding enqueue_by_status enqueue_by_status_with_txn
  enqueue_by_status_pay txn_no st named = (
    route_key parse text message (trim_space txn_status_pay_success) (trim_space txn_no)
        (get_transfer_txn parse text message (trim_space txn_no) (st.db)) (st.db),
    rw (named, pay_success_clean) refl,
  )

  -- EnqueueByStatus for a status is a call of EnqueueWithRoute on one queue, and leaves another.
  abbrev IsRouted : String → (AsyncState → StageQueue) → (AsyncState → StageQueue) → Type 0
  IsRouted status queue other =
      (txn_no : String) (st : AsyncState)
      → (trim_space txn_no == "") ≡ false
      → (key : String) × (queue (enqueue_by_status parse text message txn_no status st).1
          ≡ (enqueue_with_route (trim_space txn_no) key (queue st)).1)
        × (other (enqueue_by_status parse text message txn_no status st).1 ≡ other st)

  enqueued-IsOffered :
      (q : StageQueue) (txn_no key : String)
      → IsReached q
      → (trim_space txn_no == "") ≡ false
      → IsOffered (enqueue_with_route (trim_space txn_no) key q).1 (trim_space txn_no)
  enqueued-IsOffered q txn_no key (worker_count, size, working, r) named =
      subst (IsOffered (enqueue_with_route (trim_space txn_no) key q).1)
        (trim_space-trim_space txn_no)
        (enqueue_with_route-IsOffered worker_count size (record { queue = q; working = working })
          (trim_space txn_no) key r (rw (trim_space-trim_space txn_no) named))

  -- The loop over the numbers of a status offers each, and keeps what is offered and the other queue.
  abbrev HasOffered :
      (AsyncState → StageQueue)
      → (AsyncState → StageQueue)
      → List String
      → AsyncState
      → AsyncState
      → Type 0
  HasOffered queue other txn_nos st st' =
      All (λ t. IsOffered (queue st') (trim_space t)) txn_nos
      × ((u : String) → IsOffered (queue st) u → IsOffered (queue st') u)
      × (other st' ≡ other st)

  offer_all-HasOffered :
      (status : String) (queue other : AsyncState → StageQueue)
      → IsRouted status queue other
      → (txn_nos : List String) (n : ℕ) (st : AsyncState)
      → All (λ t. (trim_space t == "") ≡ false) txn_nos
      → IsReached (queue st)
      → HasOffered queue other txn_nos st (offer_all parse text message status txn_nos (n, st)).1
  unfolding offer_all
  offer_all-HasOffered status queue other routed [] n st named r = (tt, λ u h. h, refl)
  offer_all-HasOffered status queue other routed (t ∷ ts) n st (h, named) r =
      let (key, e, o) = routed t st h in
      let next_st = (enqueue_by_status parse text message t status st).1 in
      let offered_now =
        subst (λ q. IsOffered q (trim_space t)) (sym e) (enqueued-IsOffered (queue st) t key r h) in
      let (all, keep, same) =
        offer_all-HasOffered status queue other routed ts _ next_st named
          (subst IsReached (sym e) (enqueue-IsReached (queue st) (trim_space t) key r)) in
      (
        (keep (trim_space t) offered_now, all),
        (λ u k. keep u (
            subst (λ q. IsOffered q u) (sym e)
              (HasGrown-IsOffered (queue st) (enqueue_with_route (trim_space t) key (queue st)).1 u
                (trim_space (trim_space t))
                (enqueue_with_route-HasGrown (trim_space t) key (queue st)) k))),
        same ∙ o,
      )

  init-IsRouted : IsRouted txn_status_init (λ st. st.init_queue) (λ st. st.pay_success_queue)
  init-IsRouted txn_no st named =
      let (key, e) = enqueue_by_status_init txn_no st named in
      (key, ap (λ (x : AsyncState). x.init_queue) e, ap (λ (x : AsyncState). x.pay_success_queue) e)

  pay-IsRouted : IsRouted txn_status_pay_success (λ st. st.pay_success_queue) (λ st. st.init_queue)
  pay-IsRouted txn_no st named =
      let (key, e) = enqueue_by_status_pay txn_no st named in
      (key, ap (λ (x : AsyncState). x.pay_success_queue) e, ap (λ (x : AsyncState). x.init_queue) e)

  named-All :
      (ns : List ℕ)
      → ((n : ℕ) → (trim_space (text n) == "") ≡ false)
      → All (λ t. (trim_space t == "") ≡ false) (map text ns)
  named-All [] h = tt
  named-All (n ∷ ns) h = (h n, named-All ns h)

  list_txn_nos_by_status-named :
      (w : TransferRecoveryWorker) (now : ℕ) (table : StatusTable) (status : String)
      → ((n : ℕ) → (trim_space (text n) == "") ≡ false)
      → AllListed
          (λ t. (trim_space t == "") ≡ false)
          (list_txn_nos_by_status parse text message w now table status)
  unfolding list_txn_nos_by_status
  list_txn_nos_by_status-named w now table status h = elim (Bool-cases (table.answers status)) [
    | inl e ↦ rw e (named-All _ h)
    | inr e ↦ rw e tt
  ]

  offered-HasOffered :
      (status : String) (queue other : AsyncState → StageQueue)
      → IsRouted status queue other
      → (o : Option (List String)) (st : AsyncState)
      → AllListed (λ t. (trim_space t == "") ≡ false) o
      → IsReached (queue st)
      → let st' = offered parse text message status o st in
        AllListed (λ t. IsOffered (queue st') (trim_space t)) o × (other st' ≡ other st)
  offered-HasOffered status queue other routed none st named r = (tt, refl)
  offered-HasOffered status queue other routed (some ts) st named r =
      let (all, _, same) = offer_all-HasOffered status queue other routed ts 0 st named r in
      (all, same)

  -- Behind a run of the recovery worker each number that it has listed is pending in the queue of
  -- its status, or that queue is full, if the text of a number is not blank and both queues can be
  -- reached.
  pub run_once-IsOffered :
      (w : TransferRecoveryWorker) (now : ℕ) (table : StatusTable) (st : AsyncState)
      → ((n : ℕ) → (trim_space (text n) == "") ≡ false)
      → IsReached st.init_queue
      → IsReached st.pay_success_queue
      → let st' = run_once parse text message w now table st in
        AllListed
          (λ t. IsOffered st'.init_queue (trim_space t))
          (list_txn_nos_by_status parse text message w now table txn_status_init)
        × AllListed
            (λ t. IsOffered st'.pay_success_queue (trim_space t))
            (list_txn_nos_by_status parse text message w now table txn_status_pay_success)
  unfolding run_once
  run_once-IsOffered w now table st h ri rp =
      let inits = list_txn_nos_by_status parse text message w now table txn_status_init in
      let pays = list_txn_nos_by_status parse text message w now table txn_status_pay_success in
      let between = offered parse text message txn_status_init inits st in
      let (init_all, pay_same) =
        offered-HasOffered txn_status_init (λ x. x.init_queue) (λ x. x.pay_success_queue)
          init-IsRouted inits st (list_txn_nos_by_status-named w now table txn_status_init h) ri in
      let (pay_all, init_same) =
        offered-HasOffered txn_status_pay_success (λ x. x.pay_success_queue) (λ x. x.init_queue)
          pay-IsRouted pays between
          (list_txn_nos_by_status-named w now table txn_status_pay_success h)
          (subst IsReached (sym pay_same) rp) in
      (
        subst (λ q. AllListed (λ t. IsOffered q (trim_space t)) inits) (sym init_same) init_all,
        pay_all,
      )
