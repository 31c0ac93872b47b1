-- ===== src/Codes/Allocator/Held.antt =====
-- How often a sequence number is held, across each step of a goroutine.
use coin.Base.{
  ℕ, ◌+◌, ◌≤◌, ◌<◌, ◌≡◌, refl, String, Bool, true, false, ◌&&◌, Option, none, some, List, [], ◌∷◌,
  ◌++◌, inl, inr, arith, ltb, leb, ◌=?◌, if◌then◌else◌, Bool-cases, Option-cases,
}
use coin.Ledger.Query.{find, any, update_where}
use coin.Int.{pos}
use coin.Codes.Allocator.{
  CodeSegment, has_next, take, CodeBucket, CodeSequence, of_sequence, Look, took, again, lease,
  look, look_ahead, store_current, store_prefetch, Leased, granted, no_rows, refused,
  lease_code_range, init_code_sequence, lease_range,
}
use coin.Codes.Allocator.Steps.{
  Goroutine, looking, leasing, storing, returned, renewed, Answer, answered, failed, lost, Process,
  Effect, stepped, act,
}

abbrev pub in_range : ℕ → ℕ → ℕ → ℕ
in_range v start end = if leb start v && leb v end then 1 else 0

abbrev pub held : ℕ → CodeSegment → ℕ
held v s = if has_next s then in_range v s.next s.end else 0

abbrev pub held_ahead : ℕ → Option CodeSegment → ℕ
held_ahead v none = 0
held_ahead v (some s) = held v s

unfoldable pub held_bucket : ℕ → CodeBucket → ℕ
held_bucket v b = held v b.current + held_ahead v b.prefetch

abbrev pub held_answer : ℕ → Option (ℕ × ℕ) → ℕ
held_answer v none = 0
held_answer v (some range) = in_range v range.0 range.1

unfoldable pub held_by : ℕ → Goroutine → ℕ
held_by v looking = 0
held_by v (leasing _) = 0
held_by v (storing _ range) = held_answer v range
held_by v (returned (inl _)) = 0
held_by v (returned (inr seq)) = if v =? seq then 1 else 0
held_by v renewed = 0

abbrev pub held_leased : ℕ → Leased → ℕ
held_leased v (granted start end) = in_range v start end
held_leased v no_rows = 0
held_leased v refused = 0

abbrev pub held_look : ℕ → Look → ℕ
held_look v (took seq _) = if v =? seq then 1 else 0
held_look v again = 0
held_look v lease = 0

pub look-held :
    (low v : ℕ) (b : CodeBucket)
    → held_bucket v (look low b).1 + held_look v (look low b).0 ≤ held_bucket v b
unfolding look look_ahead has_next take held_bucket
look-held low v b = elim (Option-cases b.prefetch) [
  | inl e ↦ ground (arith, e)
  | inr (s, e) ↦ ground (arith, e)
]

module _ (code_type scope_key : String) where
  -- The next value of the sequence; a row that is still to come begins with 0.
  abbrev pub frontier : List CodeSequence → ℕ
  frontier [] = 0
  frontier (r ∷ rows) = if of_sequence code_type scope_key r then r.next_value else frontier rows

  pub frontier-find :
      (rows : List CodeSequence) (r : CodeSequence)
      → find (of_sequence code_type scope_key) rows ≡ some r
      → frontier rows ≡ r.next_value
  frontier-find [] r e = ground arith
  frontier-find (s ∷ rows) r e = ground (arith, frontier-find rows r)

  pub frontier-update :
      (batch : ℕ) (rows : List CodeSequence) (r : CodeSequence)
      → find (of_sequence code_type scope_key) rows ≡ some r
      → frontier (
          update_where
            (of_sequence code_type scope_key)
            (λ s. record s { next_value = s.next_value + batch })
            rows)
        ≡ r.next_value + batch
  frontier-update batch [] r e = ground arith
  frontier-update batch (s ∷ rows) r e = ground (arith, frontier-update batch rows r)

  pub frontier-append :
      (rows : List CodeSequence) (r : CodeSequence)
      → any (of_sequence code_type scope_key) rows ≡ false
      → frontier (rows ++ r ∷ []) ≡ frontier (r ∷ [])
  frontier-append [] r e = refl
  frontier-append (s ∷ rows) r e = ground (arith, frontier-append rows r)

  pub frontier_none :
      (rows : List CodeSequence)
      → any (of_sequence code_type scope_key) rows ≡ false
      → frontier rows ≡ 0
  frontier_none [] e = refl
  frontier_none (s ∷ rows) e = ground (arith, frontier_none rows)

  pub frontier-init :
      (rows : List CodeSequence)
      → frontier (init_code_sequence code_type scope_key rows) ≡ frontier rows
  unfolding init_code_sequence
  frontier-init rows = elim (Bool-cases (any (of_sequence code_type scope_key) rows)) [
    | inl e ↦ ground (arith, e)
    | inr e ↦ ground (
      arith,
      e,
      frontier_none rows e,
      frontier-append rows (record { code_type = code_type; scope_key = scope_key; next_value = 0 })
          e,
    )
  ]

  -- What is new below the frontier is what a lease may hand out.
  abbrev pub opened : ℕ → List CodeSequence → List CodeSequence → ℕ
  opened v rows rows' = if leb (frontier rows) v && ltb v (frontier rows') then 1 else 0

  pub lease_code_range-opened :
      (batch v : ℕ) (rows : List CodeSequence)
      → 0 < batch
      → let (r, rows') = lease_code_range batch code_type scope_key rows in
        frontier rows ≤ frontier rows' × (held_leased v r ≤ opened v rows rows')
  unfolding lease_code_range
  lease_code_range-opened batch v rows h =
      elim (Option-cases (find (of_sequence code_type scope_key) rows)) [
        | inl e ↦ ground (arith, e)
        | inr (r, e) ↦ ground (arith, e, frontier-find rows r e, frontier-update batch rows r e)
      ]

  pub lease_range-opened :
      (batch v : ℕ) (once : Bool) (rows : List CodeSequence)
      → let (range, _, rows') = lease_range code_type scope_key (pos batch) once rows in
        frontier rows ≤ frontier rows' × (held_answer v range ≤ opened v rows rows')
  unfolding lease_range
  lease_range-opened batch v once rows =
      let direct = lease_code_range-opened batch v rows in
      let behind = lease_code_range-opened batch v (init_code_sequence code_type scope_key rows) in
      ground (arith, direct, behind, frontier-init rows)

abbrev pub held_by_all : ℕ → List Goroutine → ℕ
held_by_all v [] = 0
held_by_all v (g ∷ gs) = held_by v g + held_by_all v gs

pub held_by_all-append :
    (v : ℕ) (gs hs : List Goroutine)
    → held_by_all v (gs ++ hs) ≡ held_by_all v gs + held_by_all v hs
held_by_all-append v [] hs = omega arith
held_by_all-append v (g ∷ gs) hs = omega (arith, held_by_all-append v gs hs)

abbrev pub held_in : ℕ → List Process → ℕ
held_in v [] = 0
held_in v (p ∷ ps) = held_bucket v p.bucket + held_by_all v p.goroutines + held_in v ps

pub held_in-append :
    (v : ℕ) (ps qs : List Process) → held_in v (ps ++ qs) ≡ held_in v ps + held_in v qs
held_in-append v [] qs = omega arith
held_in-append v (p ∷ ps) qs = omega (arith, held_in-append v ps qs)

abbrev pub held_in_one : ℕ → Process → ℕ
held_in_one v p = held_bucket v p.bucket + held_by_all v p.goroutines

pub held_in-middle :
    (v : ℕ) (before after : List Process) (p : Process)
    → held_in v (before ++ p ∷ after) ≡ held_in v before + held_in_one v p + held_in v after
held_in-middle v before after p = omega (arith, held_in-append v before (p ∷ after))

pub stepped-held :
    (v : ℕ) (e : Effect) (gs gs' : List Goroutine)
    → held_in_one v (stepped e gs gs')
      ≡ held_by_all v gs
        + held_by_all v gs'
        + (held_by v e.goroutine + held_by_all v e.started + held_bucket v e.bucket)
stepped-held v e gs gs' =
    let split : held_by_all v (stepped e gs gs').goroutines
        ≡ held_by_all v gs + held_by_all v (e.goroutine ∷ (e.started ++ gs')) =
      held_by_all-append v gs (e.goroutine ∷ (e.started ++ gs')) in
    omega (arith, split, held_by_all-append v e.started gs')

pub store_current-held :
    (v : ℕ) (range : Option (ℕ × ℕ)) (b : CodeBucket)
    → held_bucket v (store_current range b) ≤ held_bucket v b + held_answer v range
unfolding store_current held_bucket has_next
store_current-held v none b = ground arith
store_current-held v (some range) b = ground arith

pub store_prefetch-held :
    (v : ℕ) (range : Option (ℕ × ℕ)) (b : CodeBucket)
    → held_bucket v (store_prefetch range b) ≤ held_bucket v b + held_answer v range
unfolding store_prefetch held_bucket has_next
store_prefetch-held v none b = ground arith
store_prefetch-held v (some range) b = ground arith

module _ (code_type scope_key : String) (batch low : ℕ) where
  pub act-held :
      (reply : Answer) (g : Goroutine) (b : CodeBucket) (once : Bool) (rows : List CodeSequence)
      → (v : ℕ)
      → let e = act code_type scope_key batch low reply g b once rows in
        frontier code_type scope_key rows ≤ frontier code_type scope_key e.rows
        × (held_by v e.goroutine + held_by_all v e.started + held_bucket v e.bucket
            ≤ held_by v g + held_bucket v b + opened code_type scope_key v rows e.rows)
  unfolding act held_by
  act-held reply looking b once rows v = ground (arith, look-held low v b)
  act-held answered (leasing c) b once rows v =
      ground (arith, lease_range-opened code_type scope_key batch v once rows)
  act-held failed (leasing c) b once rows v = ground arith
  act-held lost (leasing c) b once rows v =
      ground (arith, lease_range-opened code_type scope_key batch v once rows)
  act-held reply (storing true none) b once rows v = ground (arith, store_current-held v none b)
  act-held reply (storing true (some r)) b once rows v =
      ground (arith, store_current-held v (some r) b)
  act-held reply (storing false r) b once rows v = ground (arith, store_prefetch-held v r b)
  act-held reply (returned (inl r)) b once rows v = ground arith
  act-held reply (returned (inr r)) b once rows v = ground arith
  act-held reply renewed b once rows v = ground arith
