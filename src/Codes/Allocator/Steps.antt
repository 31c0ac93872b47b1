-- ===== src/Codes/Allocator/Steps.antt =====
-- `nextSeq` and `renewAsync` of db_code_provider.go as steps of goroutines, for one code type and
-- scope. Each step is a section under the bucket's mutex or a call of `LeaseRange`, and the
-- goroutines of any number of processes on one table interleave in any order.
use coin.Base.{ℕ, String, Bool, true, false, Option, none, some, List, [], ◌∷◌, ◌++◌, ◌≡◌}
use coin.Base.{◌⊎◌, inl, inr}
use coin.Int.{pos}
use coin.Codes.Allocator.{
  CodeBucket, CodeSequence, Look, took, again, lease, look, store_current, store_prefetch,
  lease_range, new_code_bucket,
}

pub data CodeError : Type 0 where
  code_allocator_unavailable : CodeError
  code_sequence_exhausted : CodeError
  luhn_body_invalid : CodeError
  no_more_fixed_code : CodeError

-- Where a goroutine stands: in the loop of `nextSeq`; about to lease, or with the answer of a lease
-- to store, as the caller or as `renewAsync`; or at its end.
pub data Goroutine : Type 0 where
  looking : Goroutine
  leasing : Bool → Goroutine
  storing : Bool → Option (ℕ × ℕ) → Goroutine
  returned : CodeError ⊎ ℕ → Goroutine
  renewed : Goroutine

-- How the database answers a lease: as `LeaseRange` has it, with an error before anything was
-- written, or with an error when the new row was written already.
pub data Answer : Type 0 where
  answered : Answer
  failed : Answer
  lost : Answer

-- One process: its bucket, what `codeSequenceInitOnce` holds of the key, and its goroutines.
pub record Process : Type 0 where
  pub bucket : CodeBucket
  pub once : Bool
  pub goroutines : List Goroutine

pub record System : Type 0 where
  pub rows : List CodeSequence
  pub processes : List Process

-- What a step of a goroutine changes: itself, the goroutines it starts, and the rest.
pub record Effect : Type 0 where
  pub goroutine : Goroutine
  pub started : List Goroutine
  pub bucket : CodeBucket
  pub once : Bool
  pub rows : List CodeSequence

-- The process after the step, with the goroutines beside the one that made it.
abbrev pub stepped : Effect → List Goroutine → List Goroutine → Process
stepped e gs gs' = record {
  bucket = e.bucket;
  once = e.once;
  goroutines = gs ++ (e.goroutine ∷ (e.started ++ gs'));
}

-- What a look comes to. The renewal is the goroutine that leases in the background (`false`).
abbrev pub looked : Look × CodeBucket → Goroutine × List Goroutine × CodeBucket
looked (took seq true, b) = (returned (inr seq), leasing false ∷ [], b)
looked (took seq false, b) = (returned (inr seq), [], b)
looked (again, b) = (looking, [], b)
looked (lease, b) = (leasing true, [], b)

abbrev pub stored : Bool → Option (ℕ × ℕ) → CodeBucket → Goroutine × CodeBucket
stored true none b = (returned (inl code_allocator_unavailable), store_current none b)
stored true (some range) b = (looking, store_current (some range) b)
stored false range b = (renewed, store_prefetch range b)

module _ (code_type scope_key : String) (batch low : ℕ) where
  -- A call of `LeaseRange` by one of the two.
  abbrev pub leases : Answer → Bool → CodeBucket → Bool → List CodeSequence → Effect
  leases reply caller b once rows =
      let (range, once', rows') = lease_range code_type scope_key (pos batch) once rows in
      elim reply [
        | answered ↦ record {
          goroutine = storing caller range;
          started = [];
          bucket = b;
          once = once';
          rows = rows';
        }
        | failed ↦ record {
          goroutine = storing caller none;
          started = [];
          bucket = b;
          once = once;
          rows = rows;
        }
        | lost ↦ record {
          goroutine = storing caller none;
          started = [];
          bucket = b;
          once = once';
          rows = rows';
        }
      ]

  unfoldable pub act : Answer → Goroutine → CodeBucket → Bool → List CodeSequence → Effect
  act reply looking b once rows =
      let (g, started, b') = looked (look low b) in
      record { goroutine = g; started = started; bucket = b'; once = once; rows = rows }
  act reply (leasing caller) b once rows = leases reply caller b once rows
  act reply (storing caller range) b once rows =
      let (g, b') = stored caller range b in
      record { goroutine = g; started = []; bucket = b'; once = once; rows = rows }
  act reply (returned r) b once rows = record {
    goroutine = returned r;
    started = [];
    bucket = b;
    once = once;
    rows = rows;
  }
  act reply renewed b once rows = record {
    goroutine = renewed;
    started = [];
    bucket = b;
    once = once;
    rows = rows;
  }

  -- Any process is called, or any goroutine of any process makes its next step.
  pub data Move (s t : System) : Type 0 where
    call :
        (before after : List Process) (p : Process)
        → s.processes ≡ before ++ p ∷ after
        → t ≡ record s {
          processes = before ++ record p { goroutines = looking ∷ p.goroutines } ∷ after;
        }
        → Move s t
    step :
        (before after : List Process) (p : Process) (gs gs' : List Goroutine) (g : Goroutine)
        → (reply : Answer) → s.processes ≡ before ++ p ∷ after
        → p.goroutines ≡ gs ++ g ∷ gs'
        → t ≡ (
            let e = act reply g p.bucket p.once s.rows in
            record { rows = e.rows; processes = before ++ stepped e gs gs' ∷ after })
        → Move s t

  pub data Reach (s : System) : System → Type 0 where
    here : Reach s s
    next : {t u : System} → Reach s t → Move t u → Reach s u

abbrev pub fresh_process : Process
fresh_process = record { bucket = new_code_bucket; once = false; goroutines = [] }

abbrev pub fresh_processes : ℕ → List Process
fresh_processes ℕ.zero = []
fresh_processes (ℕ.suc n) = fresh_process ∷ fresh_processes n

-- The numbers that `nextSeq` has returned, in every process.
abbrev pub handed_by : List Goroutine → List ℕ
handed_by [] = []
handed_by (returned (inr seq) ∷ gs) = seq ∷ handed_by gs
handed_by (returned (inl _) ∷ gs) = handed_by gs
handed_by (looking ∷ gs) = handed_by gs
handed_by (leasing _ ∷ gs) = handed_by gs
handed_by (storing _ _ ∷ gs) = handed_by gs
handed_by (renewed ∷ gs) = handed_by gs

abbrev pub handed_in : List Process → List ℕ
handed_in [] = []
handed_in (p ∷ ps) = handed_by p.goroutines ++ handed_in ps

abbrev pub handed : System → List ℕ
handed s = handed_in s.processes
