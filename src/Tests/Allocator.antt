-- ===== src/Tests/Allocator.antt =====
-- The theorems on the allocator of codes, applied.
use coin.Base.{◌≤◌, ◌≡◌, refl, List, [], ◌∷◌, inr}
use coin.Codes.Luhn.{is_valid_merchant_no, merchant_prefix}
use coin.Codes.Allocator.{
  CodeSequence, has_next, take, remaining, look, look_ahead, store_current, init_code_sequence,
  lease_code_range, lease_range, new_code_bucket,
}
use coin.Codes.Allocator.Steps.{
  Goroutine, looking, answered, Process, System, Effect, stepped, act, call, step, Reach, here,
  next, fresh_process, handed,
}
use coin.Codes.Allocator.Fresh.{occurrences, Reach-handed}
use coin.Codes.Provider.{default_region_version, prefixed_no}
use coin.Codes.Provider.Form.{Issues, merchant_no_lem}
use coin.Text.{trim_space, trim_left, trim_right, is_space}

abbrev acted : Goroutine → Process → List CodeSequence → Effect
acted g p rows = act "MERCHANT_NO" "GLOBAL" 100 20 answered g p.bucket p.once rows

abbrev alone : List CodeSequence → Process → System
alone rows p = record { rows = rows; processes = p ∷ [] }

abbrev called : Process
called = record fresh_process { goroutines = looking ∷ [] }

abbrev looks : Effect
looks = acted looking called []

abbrev leases : Effect
leases = acted looks.goroutine (stepped looks [] []) looks.rows

abbrev stores : Effect
stores = acted leases.goroutine (stepped leases [] []) leases.rows

abbrev takes : Effect
takes = acted stores.goroutine (stepped stores [] []) stores.rows

abbrev final : System
final = alone takes.rows (stepped takes [] [])

-- One goroutine calls, leases the first range, stores it and takes its first number.
reached : Reach "MERCHANT_NO" "GLOBAL" 100 20 (alone [] fresh_process) final
unfolding act look look_ahead has_next new_code_bucket
reached =
    next
      (next
        (next
          (next (next here (call [] [] fresh_process refl refl))
            (step [] [] called [] [] looking answered refl refl refl))
          (step [] [] (stepped looks [] []) [] [] looks.goroutine answered refl refl refl))
        (step [] [] (stepped leases [] []) [] [] leases.goroutine answered refl refl refl))
      (step [] [] (stepped stores [] []) [] [] stores.goroutine answered refl refl refl)

-- The number is the sequence's first.
handed-final : handed final ≡ 0 ∷ []
unfolding act look look_ahead has_next take remaining new_code_bucket store_current lease_range
    lease_code_range init_code_sequence trim_space trim_left trim_right is_space
handed-final = refl

Reach-handed_example : occurrences 0 (handed final) ≤ 1
Reach-handed_example = Reach-handed "MERCHANT_NO" "GLOBAL" 100 20 1 [] reached 0

merchant_no_lem_example :
    Issues is_valid_merchant_no
      (merchant_prefix ∷ default_region_version)
      10
      42
      (prefixed_no merchant_prefix (inr 42))
merchant_no_lem_example = merchant_no_lem 42
