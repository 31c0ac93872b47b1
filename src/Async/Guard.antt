-- ===== src/Async/Guard.antt =====
-- internal/service/processing_guard_memory.go: the guard that lets one worker at a time process a
-- stage of a transaction.
use Prim.Native.String.{◌++◌}
use coin.Base.{
  ℕ, ◌+◌, ◌≤◌, ◌≡◌, refl, ap, ◌∙◌, ◌=?◌, String, Bool, true, false, not, List, [], ◌∷◌, arith, inl,
  inr, ◌==◌, eq_iff, if◌then◌else◌, Bool-cases,
}
use coin.Text.{trim_space}
use coin.Ledger.Query.{any, select}

unfoldable pub processing_key : String → String → String
processing_key txn_no stage = trim_space txn_no ++ "+" ++ trim_space stage

-- The keys of `seen`.
pub record ProcessingGuard : Type 0 where
  pub seen : List String

-- `NewProcessingGuard`
abbrev pub new_processing_guard : ProcessingGuard
new_processing_guard = record { seen = [] }

unfoldable pub try_begin : String → String → ProcessingGuard → Bool × ProcessingGuard
try_begin txn_no stage g =
    let key = processing_key txn_no stage in
    if key == "+"
    then (false, g)
    else if any (λ s. key == s) g.seen
    then (false, g)
    else (true, record g { seen = key ∷ g.seen })

-- `End`
unfoldable pub end_stage : String → String → ProcessingGuard → ProcessingGuard
end_stage txn_no stage g =
    let key = processing_key txn_no stage in
    if key == "+" then g else record g { seen = select (λ s. not (key == s)) g.seen }

-- The guard with the workers that are between a `TryBegin` that answered true and their `End`, each
-- with the number and the stage that it began.
pub record Guarded : Type 0 where
  pub guard : ProcessingGuard
  pub inside : List (String × String)

abbrev append {ℓ} : {A : Type ℓ} → List A → List A → List A
append [] ys = ys
append (x ∷ xs) ys = x ∷ append xs ys

abbrev pub entered : String × String → Bool × ProcessingGuard → List (String × String) → Guarded
entered item (true, g) inside = record { guard = g; inside = item ∷ inside }
entered item (false, g) inside = record { guard = g; inside = inside }

pub data Move (s t : Guarded) : Type 0 where
  begin :
      (txn_no stage : String)
      → t ≡ entered (txn_no, stage) (try_begin txn_no stage s.guard) s.inside
      → Move s t
  finish :
      (before after : List (String × String)) (txn_no stage : String)
      → s.inside ≡ append before ((txn_no, stage) ∷ after)
      → t ≡ record { guard = end_stage txn_no stage s.guard; inside = append before after }
      → Move s t

pub data Reach (s : Guarded) : Guarded → Type 0 where
  here : Reach s s
  next : {t u : Guarded} → Reach s t → Move t u → Reach s u

-- How many workers process the key.
abbrev pub processing : String → List (String × String) → ℕ
processing key [] = 0
processing key ((txn_no, stage) ∷ rest) =
    (if key == processing_key txn_no stage then 1 else 0) + processing key rest

processing-append :
    (key : String) (xs ys : List (String × String))
    → processing key (append xs ys) ≡ processing key xs + processing key ys
processing-append key [] ys = omega arith
processing-append key (x ∷ xs) ys = omega (arith, processing-append key xs ys)

any-select :
    (s key : String) (keys : List String)
    → any (λ u. s == u) (select (λ u. not (key == u)) keys)
      ≡ (if key == s then false else any (λ u. s == u) keys)
any-select s key [] = ground arith
any-select s key (u ∷ keys) =
    ground (arith, any-select s key keys, eq_iff key u, eq_iff key s, eq_iff s u)

-- A key is processed once while it is seen, and not at all otherwise.
abbrev IsExclusive : Guarded → Type 0
IsExclusive s =
    (key : String)
    → (processing key s.inside ≡ (if any (λ u. key == u) s.guard.seen then 1 else 0))
      × ((key == "+") ≡ true → processing key s.inside ≡ 0)

try_begin-IsExclusive :
    (txn_no stage : String) (s : Guarded)
    → IsExclusive s
    → IsExclusive (entered (txn_no, stage) (try_begin txn_no stage s.guard) s.inside)
unfolding try_begin
try_begin-IsExclusive txn_no stage s h =
    let own = processing_key txn_no stage in
    elim (Bool-cases (own == "+")) [
      | inl e ↦ rw e h
      | inr e ↦ elim (Bool-cases (any (λ u. own == u) s.guard.seen)) [
        | inl f ↦ rw e (rw f h)
        | inr f ↦ rw e (
            rw f (λ key.
              let k = h key in
              let o = h own in
              (
                ground (arith, k, o, f, eq_iff key own),
                λ p. ground (arith, k, p, e, eq_iff key own),
              )))
      ]
    ]

end_stage-IsExclusive :
    (txn_no stage : String) (before after : List (String × String)) (s : Guarded)
    → s.inside ≡ append before ((txn_no, stage) ∷ after)
    → IsExclusive s
    → IsExclusive (record { guard = end_stage txn_no stage s.guard; inside = append before after })
unfolding end_stage
end_stage-IsExclusive txn_no stage before after s e h =
    let own = processing_key txn_no stage in
    λ key.
      let k = h key in
      let o = h own in
      let all = ap (processing key) e ∙ processing-append key before ((txn_no, stage) ∷ after) in
      let rest = processing-append key before after in
      let chosen = any-select key own s.guard.seen in
      (
        ground (arith, k, all, rest, chosen, eq_iff key own, eq_iff own key),
        λ p. ground (arith, k, p, all, rest),
      )

Move-IsExclusive : {s t : Guarded} → Move s t → IsExclusive s → IsExclusive t
Move-IsExclusive {s} (begin txn_no stage e) h = rw e (try_begin-IsExclusive txn_no stage s h)
Move-IsExclusive {s} (finish before after txn_no stage e f) h =
    rw f (end_stage-IsExclusive txn_no stage before after s e h)

Reach-IsExclusive : {s t : Guarded} → Reach s t → IsExclusive s → IsExclusive t
Reach-IsExclusive here h = h
Reach-IsExclusive (next r m) h = Move-IsExclusive m (Reach-IsExclusive r h)

abbrev pub new_guarded : Guarded
new_guarded = record { guard = new_processing_guard; inside = [] }

-- Over any interleaving of TryBegin and of the End of those it let in, at most one worker is
-- inside for a key, and TryBegin lets the next one in exactly if nobody is inside for its key
-- and the key is not blank.
pub Reach-processing :
    {s : Guarded} (txn_no stage : String)
    → Reach new_guarded s
    → let key = processing_key txn_no stage in
      (processing key s.inside ≤ 1)
      × ((try_begin txn_no stage s.guard).0
          ≡ (if key == "+" then false else processing key s.inside =? 0))
unfolding try_begin
Reach-processing {s} txn_no stage r =
    let h = Reach-IsExclusive r (λ key. (refl, λ _. refl)) (processing_key txn_no stage) in
    (ground (arith, h), ground (arith, h))
