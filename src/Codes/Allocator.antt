-- ===== src/Codes/Allocator.antt =====
-- internal/platform/id/db_code_provider.go: the segments and buckets of the code allocator, and
-- `LeaseRange` of internal/db/repository.go with its two statements. A sequence starts at 0 and
-- grows by positive batches, so its values are natural numbers; the column is a bigint.
pub mod Steps
pub mod Held
pub mod Fresh
use coin.Base.{
  ℕ, ◌+◌, ◌-◌, ◌/◌, ◌^◌, String, Bool, true, false, not, ◌&&◌, ◌||◌, Option, none, some, List, [],
  ◌∷◌, ◌++◌, ltb, leb, ◌==◌, if◌then◌else◌,
}
use coin.Int.{ℤ, pos, pos_part, ltb_ℤ, leb_ℤ}
use coin.Text.{trim_space}
use coin.Ledger.Query.{find, update_where, any}

pub record CodeSegment : Type 0 where
  pub next : ℕ
  pub end : ℕ
  pub valid : Bool

unfoldable pub has_next : CodeSegment → Bool
has_next s = s.valid && leb s.next s.end

-- The number that `take` returns is the `next` that it finds. An end is below the bigint that its
-- row holds, so the increment does not wrap.
unfoldable pub take : CodeSegment → CodeSegment
take s =
    let next = s.next + 1 in
    record s { next = next; valid = (if ltb s.end next then false else s.valid) }

unfoldable pub remaining : CodeSegment → ℕ
unfolding has_next
remaining s = if not (has_next s) then 0 else s.end - s.next + 1

-- The bucket of one code type and scope. Its mutex makes each section below one step.
pub record CodeBucket : Type 0 where
  pub current : CodeSegment
  pub prefetch : Option CodeSegment
  pub renewing : Bool

unfoldable pub new_code_bucket : CodeBucket
new_code_bucket = record {
  current = record { next = 0; end = 0; valid = false };
  prefetch = none;
  renewing = false;
}

pub record HiLoCodeProviderOptions : Type 0 where
  pub batch_size : ℤ
  pub low_watermark : ℤ

pub record DbCodeProvider : Type 0 where
  pub batch_size : ℕ
  pub low_watermark : ℕ

-- `NewDBCodeProvider`, with the first of the options if there is one
unfoldable pub new_db_code_provider : Option HiLoCodeProviderOptions → DbCodeProvider
new_db_code_provider none = record { batch_size = 100; low_watermark = 20 }
new_db_code_provider (some o) =
    let batch = if ltb_ℤ (pos 0) o.batch_size then pos_part o.batch_size else 100 in
    let low = if leb_ℤ (pos 0) o.low_watermark then pos_part o.low_watermark else 20 in
    record { batch_size = batch; low_watermark = (if leb batch low then batch / 2 else low) }

-- What one look of `nextSeq` at the bucket comes to: a number, with the start of a renewal in the
-- background or not; another look, at once or after a wait; or a lease by the caller itself.
pub data Look : Type 0 where
  took : ℕ → Bool → Look
  again : Look
  lease : Look

abbrev pub is_some {ℓ} : {A : Type ℓ} → Option A → Bool
is_some none = false
is_some (some _) = true

-- The look at what was fetched ahead, when the current segment is used up.
unfoldable pub look_ahead : CodeBucket → Option CodeSegment → Look × CodeBucket
unfolding has_next
look_ahead b none = if b.renewing then (again, b) else (lease, record b { renewing = true })
look_ahead b (some s) =
    if has_next s
    then (again, record b { current = s; prefetch = none })
    else if b.renewing
    then (again, b)
    else (lease, record b { renewing = true })

unfoldable pub look : ℕ → CodeBucket → Look × CodeBucket
unfolding has_next take remaining look_ahead
look low b =
    if has_next b.current
    then (let current = take b.current in
        let renews = leb (remaining current) low && not (is_some b.prefetch) && not b.renewing in
        (
          took b.current.next renews,
          record b { current = current; renewing = (if renews then true else b.renewing) },
        ))
    else look_ahead b b.prefetch

abbrev pub segment_of : ℕ × ℕ → CodeSegment
segment_of range = record { next = range.0; end = range.1; valid = true }

-- The end of a lease by the caller.
unfoldable pub store_current : Option (ℕ × ℕ) → CodeBucket → CodeBucket
store_current none b = record b { renewing = false }
store_current (some range) b = record b { current = segment_of range; renewing = false }

-- The end of `renewAsync`
unfoldable pub store_prefetch : Option (ℕ × ℕ) → CodeBucket → CodeBucket
store_prefetch none b = record b { renewing = false }
store_prefetch (some range) b = record b { prefetch = some (segment_of range); renewing = false }

pub record CodeSequence : Type 0 where
  pub code_type : String
  pub scope_key : String
  pub next_value : ℕ

abbrev pub of_sequence : String → String → CodeSequence → Bool
of_sequence code_type scope_key r = r.code_type == code_type && r.scope_key == scope_key

-- `InitCodeSequence`
unfoldable pub init_code_sequence : String → String → List CodeSequence → List CodeSequence
init_code_sequence code_type scope_key rows =
    if any (of_sequence code_type scope_key) rows
    then rows
    else rows ++ record { code_type = code_type; scope_key = scope_key; next_value = 0 } ∷ []

-- What `LeaseCodeRange` comes to: the range; no row; or an error, for a value past a bigint.
pub data Leased : Type 0 where
  granted : ℕ → ℕ → Leased
  no_rows refused : Leased

unfoldable pub lease_code_range :
    ℕ → String → String → List CodeSequence → Leased × List CodeSequence
lease_code_range batch code_type scope_key rows =
    elim (find (of_sequence code_type scope_key) rows) [
      | none ↦ (no_rows, rows)
      | some r ↦
          if ltb (r.next_value + batch) (2 ^ 63)
          then (
            granted r.next_value (r.next_value + batch - 1),
            update_where (of_sequence code_type scope_key)
                (λ s. record s { next_value = s.next_value + batch }) rows,
          )
          else (refused, rows)
    ]

-- What `codeSequenceInitOnce` holds of the key after the lease, with the range.
abbrev leased : Leased × List CodeSequence → Option (ℕ × ℕ) × Bool × List CodeSequence
leased (granted start end, rows) = (some (start, end), true, rows)
leased (no_rows, rows) = (none, false, rows)
leased (refused, rows) = (none, true, rows)

-- `LeaseRange`, from whether the key's row has been initialised, and the table; `none` is an error
unfoldable pub lease_range :
    String → String → ℤ → Bool → List CodeSequence → Option (ℕ × ℕ) × Bool × List CodeSequence
unfolding lease_code_range init_code_sequence
lease_range code_type scope_key batch once rows =
    if trim_space code_type == "" || trim_space scope_key == "" || leb_ℤ batch (pos 0)
    then (none, once, rows)
    else leased (
        lease_code_range (pos_part batch) code_type scope_key
          (if once then rows else init_code_sequence code_type scope_key rows))
