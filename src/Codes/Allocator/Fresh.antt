-- ===== src/Codes/Allocator/Fresh.antt =====
-- No sequence number is handed out twice: how often a number is held, by buckets, by goroutines and
-- by callers that got it, never grows but by a lease, which takes it from the table.
use coin.Base.{
  ap, ◌∙◌, ℕ, ◌+◌, ◌≤◌, ◌≡◌, refl, String, List, [], ◌∷◌, ◌++◌, inl, inr, arith, ◌=?◌,
  if◌then◌else◌,
}
use coin.Codes.Allocator.{has_next, CodeSequence, new_code_bucket}
use coin.Codes.Allocator.Steps.{
  Goroutine, looking, leasing, storing, returned, renewed, Process, System, stepped,
  fresh_processes, act, Move, call, step, Reach, here, next, handed, handed_by, handed_in,
}
use coin.Codes.Allocator.Held.{
  held_bucket, held_by, frontier, opened, held_by_all, held_by_all-append, held_in, held_in-append,
  held_in-middle, stepped-held, act-held,
}

module _ (code_type scope_key : String) (batch low : ℕ) where
  Move-held :
      {s t : System} (v : ℕ)
      → Move code_type scope_key batch low s t
      → frontier code_type scope_key s.rows ≤ frontier code_type scope_key t.rows
        × (held_in v t.processes
            ≤ held_in v s.processes + opened code_type scope_key v s.rows t.rows)
  unfolding held_by
  Move-held v (call before after p e f) = rw e (
      rw f (
        ground (
          arith,
          held_in-append v before (p ∷ after),
          held_in-append v before (record p { goroutines = looking ∷ p.goroutines } ∷ after),
        )))
  Move-held {s} v (step before after p gs gs' g reply e f h) =
      let effect = act code_type scope_key batch low reply g p.bucket p.once s.rows in
      let acted = act-held code_type scope_key batch low reply g p.bucket p.once s.rows v in
      let mine = ap (held_by_all v) f ∙ held_by_all-append v gs (g ∷ gs') in
      rw h (
        rw e (
          acted.0,
          omega (
            arith,
            acted.1,
            mine,
            held_in-middle v before after p,
            held_in-middle v before after (stepped effect gs gs'),
            stepped-held v effect gs gs',
          ),
        ))

  record IsFresh (s : System) : Type 0 where
    once : (v : ℕ) → held_in v s.processes ≤ 1
    ahead : (v : ℕ) → frontier code_type scope_key s.rows ≤ v → held_in v s.processes ≡ 0

  Move-IsFresh : {s t : System} → Move code_type scope_key batch low s t → IsFresh s → IsFresh t
  Move-IsFresh m f = record {
    once = λ v. ground (arith, Move-held v m, f.once v, f.ahead v);
    ahead = λ v h. ground (arith, Move-held v m, f.ahead v);
  }

  Reach-IsFresh : {s t : System} → Reach code_type scope_key batch low s t → IsFresh s → IsFresh t
  Reach-IsFresh here f = f
  Reach-IsFresh (next r m) f = Move-IsFresh m (Reach-IsFresh r f)

abbrev pub occurrences : ℕ → List ℕ → ℕ
occurrences v [] = 0
occurrences v (n ∷ ns) = (if v =? n then 1 else 0) + occurrences v ns

occurrences-append :
    (v : ℕ) (ns ms : List ℕ) → occurrences v (ns ++ ms) ≡ occurrences v ns + occurrences v ms
occurrences-append v [] ms = omega arith
occurrences-append v (n ∷ ns) ms = omega (arith, occurrences-append v ns ms)

handed_by-held : (v : ℕ) (gs : List Goroutine) → occurrences v (handed_by gs) ≤ held_by_all v gs
unfolding held_by
handed_by-held v [] = omega arith
handed_by-held v (looking ∷ gs) = omega (arith, handed_by-held v gs)
handed_by-held v (leasing _ ∷ gs) = omega (arith, handed_by-held v gs)
handed_by-held v (storing _ _ ∷ gs) = omega (arith, handed_by-held v gs)
handed_by-held v (returned (inl _) ∷ gs) = omega (arith, handed_by-held v gs)
handed_by-held v (returned (inr n) ∷ gs) = omega (arith, handed_by-held v gs)
handed_by-held v (renewed ∷ gs) = omega (arith, handed_by-held v gs)

handed_in-held : (v : ℕ) (ps : List Process) → occurrences v (handed_in ps) ≤ held_in v ps
handed_in-held v [] = omega arith
handed_in-held v (p ∷ ps) = omega (
  arith,
  occurrences-append v (handed_by p.goroutines) (handed_in ps),
  handed_by-held v p.goroutines,
  handed_in-held v ps,
)

fresh_processes-held : (v n : ℕ) → held_in v (fresh_processes n) ≡ 0
unfolding held_bucket new_code_bucket has_next
fresh_processes-held v ℕ.zero = refl
fresh_processes-held v (ℕ.suc n) = omega (arith, fresh_processes-held v n)

-- Over every interleaving of the steps of any number of processes that begin with empty buckets,
-- whatever the table holds and however the database answers, no number is returned twice.
pub Reach-handed :
    (code_type scope_key : String) (batch low n : ℕ) (rows : List CodeSequence) {t : System}
    → Reach code_type scope_key batch low (record { rows = rows; processes = fresh_processes n }) t
    → (v : ℕ) → occurrences v (handed t) ≤ 1
Reach-handed code_type scope_key batch low n rows {t} r v =
    let fresh = Reach-IsFresh code_type scope_key batch low r (record {
      once = λ w. omega (arith, fresh_processes-held w n);
      ahead = λ w _. fresh_processes-held w n;
    }) in
    omega (arith, handed_in-held v t.processes, fresh.once v)
