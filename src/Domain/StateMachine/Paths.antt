-- ===== src/Domain/StateMachine/Paths.antt =====
-- The paths that state_machine.go allows.
use coin.Base.{
  ℕ, suc, ◌+◌, ◌≤◌, ◌≡◌, ◌≢◌, refl, ◌⊎◌, inl, inr, ◌↔◌, String, Option, none, some, List, [], ◌∷◌,
  arith, ◌==◌, eq_iff, if◌then◌else◌, ◌∙◌, ap, sym,
}
use coin.Domain.Error.{Error, txn_status_invalid}
use coin.Domain.StateMachine.{
  txn_status_init, txn_status_pay_success, txn_status_recv_success, txn_status_failed,
  TxnStateMachine, new_txn_state_machine, transit,
}

-- The edges of the documented diagram.
abbrev pub IsEdge : String → String → Type 0
IsEdge s n =
    (s ≡ txn_status_init) × ((n ≡ txn_status_pay_success) ⊎ (n ≡ txn_status_failed))
    ⊎ (s ≡ txn_status_pay_success) × ((n ≡ txn_status_recv_success) ⊎ (n ≡ txn_status_failed))

transit_cases :
    (s : TxnStateMachine) (next : String)
    → (transit s next ≡ (record s { status = next }, none))
      ⊎ (transit s next ≡ (s, some txn_status_invalid))
unfolding transit
transit_cases s next = ground arith

some_ne_none : {A : Type 0} {a : A} → some a ≢ none
some_ne_none e = ground (arith, e)

transit-IsEdge :
    (s : TxnStateMachine) (next : String) → ((transit s next).1 ≡ none) ↔ IsEdge s.status next
unfolding transit
transit-IsEdge s next = (
  λ e. ground (
    arith,
    eq_iff s.status txn_status_init,
    eq_iff s.status txn_status_pay_success,
    eq_iff next txn_status_pay_success,
    eq_iff next txn_status_recv_success,
    eq_iff next txn_status_failed,
  ),
  λ e. ground (
    arith,
    eq_iff s.status txn_status_init,
    eq_iff s.status txn_status_pay_success,
    eq_iff next txn_status_pay_success,
    eq_iff next txn_status_recv_success,
    eq_iff next txn_status_failed,
    eq_iff txn_status_init txn_status_pay_success,
  ),
)

-- Along an edge a call makes the transition and reports no error; any other call leaves the
-- machine as it was and answers `ErrTxnStatusInvalid`.
pub transit_lem :
    (s : TxnStateMachine) (next : String)
    → (IsEdge s.status next × (transit s next ≡ (record s { status = next }, none)))
      ⊎ ((¬ IsEdge s.status next) × (transit s next ≡ (s, some txn_status_invalid)))
transit_lem s next = elim (transit_cases s next) [
  | inl made ↦ inl ((transit-IsEdge s next).0 (ap (λ r. r.1) made), made)
  | inr refused ↦
      inr ((λ e. some_ne_none (sym (ap (λ r. r.1) refused) ∙ (transit-IsEdge s next).1 e)), refused)
]

-- The transitions that are left from a status.
abbrev pub rank : String → ℕ
rank s = if s == txn_status_init then 2 else if s == txn_status_pay_success then 1 else 0

abbrev pub count_none : Option Error → ℕ → ℕ
count_none none n = suc n
count_none (some _) n = n

-- Calls of `Transit` in a row, and how many of them succeed.
unfoldable pub run : TxnStateMachine → List String → TxnStateMachine × ℕ
run s [] = (s, 0)
run s (next ∷ rest) =
    let (s', err) = transit s next in let (t, made) = run s' rest in (t, count_none err made)

transit-rank :
    (s : TxnStateMachine) (next : String)
    → count_none (transit s next).1 (rank (transit s next).0.status) ≤ rank s.status
unfolding transit
transit-rank s next = ground (
  arith,
  eq_iff next txn_status_init,
  eq_iff next txn_status_pay_success,
  eq_iff next txn_status_recv_success,
  eq_iff next txn_status_failed,
  eq_iff txn_status_recv_success txn_status_init,
  eq_iff txn_status_failed txn_status_init,
  eq_iff txn_status_pay_success txn_status_init,
  eq_iff txn_status_recv_success txn_status_pay_success,
  eq_iff txn_status_failed txn_status_pay_success,
)

count_none-add : (o : Option Error) (m n : ℕ) → count_none o m + n ≡ count_none o (m + n)
count_none-add none m n = omega arith
count_none-add (some _) m n = refl

count_none_mono : (o : Option Error) (m n : ℕ) → m ≤ n → count_none o m ≤ count_none o n
count_none_mono none m n h = omega arith
count_none_mono (some _) m n h = h

-- Whatever is asked of a machine, it makes no more transitions than its first status has left.
pub run-rank :
    (s : TxnStateMachine) (asked : List String)
    → (run s asked).1 + rank (run s asked).0.status ≤ rank s.status
unfolding run
run-rank s [] = omega arith
run-rank s (next ∷ rest) =
    let (s', err) = transit s next in
    let (t, made) = run s' rest in
    omega (
      arith,
      count_none-add err made (rank t.status),
      count_none_mono err (made + rank t.status) (rank s'.status) (run-rank s' rest),
      transit-rank s next,
    )

transit_terminal :
    (s : TxnStateMachine) (next : String)
    → rank s.status ≡ 0
    → transit s next ≡ (s, some txn_status_invalid)
unfolding transit
transit_terminal s next h = ground arith

-- A machine in any other status than INIT and PAY_SUCCESS never moves again.
pub run_terminal :
    (s : TxnStateMachine) (asked : List String) → rank s.status ≡ 0 → run s asked ≡ (s, 0)
unfolding run
run_terminal s [] h = refl
run_terminal s (next ∷ rest) h =
    rw (transit_terminal s next h) (ground (arith, run_terminal s rest h))

-- The outcomes of one call.
data Outcome (s : TxnStateMachine) (next : String) : Type 0 where
  refused : transit s next ≡ (s, some txn_status_invalid) → Outcome s next
  paid :
      s.status ≡ txn_status_init
      → transit s next ≡ (new_txn_state_machine txn_status_pay_success, none)
      → Outcome s next
  received :
      s.status ≡ txn_status_pay_success
      → transit s next ≡ (new_txn_state_machine txn_status_recv_success, none)
      → Outcome s next
  failed : transit s next ≡ (new_txn_state_machine txn_status_failed, none) → Outcome s next

transit-Outcome : (s : TxnStateMachine) (next : String) → Outcome s next
transit-Outcome s next = elim (transit_lem s next) [
  | inl (edge, made) ↦ of_edge edge made
  | inr (_, left) ↦ refused left
]
  where
    to :
        {t : String}
        → transit s next ≡ (record s { status = next }, none)
        → next ≡ t
        → transit s next ≡ (new_txn_state_machine t, none)
    to {t} made r = made ∙ ap (λ (x : String). (new_txn_state_machine x, none)) r

    of_edge :
        IsEdge s.status next → transit s next ≡ (record s { status = next }, none) → Outcome s next
    of_edge (inl (a, inl b)) made = paid a (to made b)
    of_edge (inl (a, inr b)) made = failed (to made b)
    of_edge (inr (a, inl b)) made = received a (to made b)
    of_edge (inr (a, inr b)) made = failed (to made b)

pay_ne_recv : ◌≢◌ {A = String} "PAY_SUCCESS" "RECV_SUCCESS"
pay_ne_recv = ground (arith, eq_iff "PAY_SUCCESS" "RECV_SUCCESS")

failed_ne_recv : ◌≢◌ {A = String} "FAILED" "RECV_SUCCESS"
failed_ne_recv = ground (arith, eq_iff "FAILED" "RECV_SUCCESS")

-- A machine that ends in RECV_SUCCESS without having begun there has gone through every status
-- that it had left: from INIT it has made two transitions, by way of PAY_SUCCESS.
pub run_recv_success :
    (s : TxnStateMachine) (asked : List String)
    → s.status ≢ txn_status_recv_success
    → (run s asked).0.status ≡ txn_status_recv_success
    → ((run s asked).1 ≡ rank s.status) × (rank s.status ≢ 0)
unfolding run
run_recv_success s [] ne e = absurd (ne e)
run_recv_success s (next ∷ rest) ne e =
    by_outcome (transit-Outcome s next) (run_recv_success s rest ne)
      (run_recv_success (new_txn_state_machine txn_status_pay_success) rest pay_ne_recv) e
  where
    by_outcome :
        Outcome s next
        → ((run s rest).0.status ≡ txn_status_recv_success
            → ((run s rest).1 ≡ rank s.status) × (rank s.status ≢ 0))
        → ((run (new_txn_state_machine txn_status_pay_success) rest).0.status
              ≡ txn_status_recv_success
            → ((run (new_txn_state_machine txn_status_pay_success) rest).1 ≡ 1)
              × (rank txn_status_pay_success ≢ 0))
        → (run s (next ∷ rest)).0.status ≡ txn_status_recv_success
        → ((run s (next ∷ rest)).1 ≡ rank s.status) × (rank s.status ≢ 0)
    by_outcome (refused q) ih paid_ih = rw q ih
    by_outcome (paid a q) ih paid_ih =
        rw (q, a) (λ f. let (m, _) = paid_ih f in (ap suc m, λ z. omega arith))
    by_outcome (received a q) ih paid_ih =
        rw (q, a, run_terminal (new_txn_state_machine txn_status_recv_success) rest refl)
          (λ f. (refl, λ z. omega arith))
    by_outcome (failed q) ih paid_ih =
        rw (q, run_terminal (new_txn_state_machine txn_status_failed) rest refl)
          (λ f. absurd (failed_ne_recv f))
