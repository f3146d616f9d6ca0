-- ===== src/Tests/Witnesses/Lookups.antt =====
-- Instances of the theorems on the lookups of the seeding.
use field_cage.Base.{◌*◌, ◌-◌, ◌≤◌, ◌↔◌, List, [], ◌∷◌, Option, some, length, ◌≡◌, refl}
use field_cage.Text.Bytes.{Bytes, codes}
use field_cage.Net.Ip.{Ip}
use field_cage.Policy.Decide.{domains}
use field_cage.Agent.Seed.{seed_allowlist}
use field_cage.Agent.Lookups.{
  Task, Pool, taken, max_concurrent_lookups, new_pool, numbered, launched, released, stored_by,
  Moves, launch, store, release, here, next, IsFinished, seed_with,
}
use field_cage.Agent.Lookups.Results.{seed_with-finished}
use field_cage.Agent.Lookups.Ends.{taken_le, lookups_finish}
use field_cage.Tests.Samples.{github}
use field_cage.Tests.PolicyRuns.{the_engine}
use field_cage.Tests.Doubles.{list_maps, empty_maps}

abbrev resolve : Bytes → Option (List Ip)
resolve d = some (github ∷ [])

abbrev hosts : List Bytes
hosts = domains the_engine

abbrev one : Task
one = record { index = 0; domain = codes "github.com" }

abbrev two : Task
two = record { index = 1; domain = codes "kayac.com" }

-- both lookups run, and the one that was started last ends first
abbrev both : Pool
both = launched two [] (launched one (two ∷ []) (new_pool hosts))

abbrev all_stored : Pool
all_stored = stored_by resolve [] one [] (stored_by resolve [] two (one ∷ []) both)

abbrev over : Pool
over = released 0 (released 1 all_stored)

both_reached : Moves resolve (new_pool hosts) 2 both
unfolding new_pool numbered launched
both_reached = next (next here (launch _ one (two ∷ []) refl refl)) (launch _ two [] refl refl)

over_reached : Moves resolve (new_pool hosts) 6 over
unfolding launched stored_by released new_pool
over_reached =
    let a = next both_reached (store both [] two (one ∷ []) refl) in
    let b = next a (store _ [] one [] refl) in
    next (next b (release all_stored 1 refl)) (release _ 0 refl)

over-IsFinished : IsFinished over
unfolding launched stored_by released
over-IsFinished = record { no_todo = refl; no_looking = refl; no_stored = refl }

seed_with-finished_example :
    seed_with list_maps over.results the_engine (some empty_maps)
    ≡ seed_allowlist list_maps resolve the_engine (some empty_maps)
seed_with-finished_example =
    seed_with-finished list_maps resolve the_engine (some empty_maps) 6 over over_reached
      over-IsFinished

taken_le_example : taken both ≤ max_concurrent_lookups
taken_le_example = taken_le resolve hosts 2 both both_reached

lookups_finish_example :
    (2 ≤ 3 * length hosts)
    × (IsFinished both ↔ (2 ≡ 3 * length hosts))
    × ((q : Pool) × Moves resolve both (3 * length hosts - 2) q × IsFinished q)
lookups_finish_example = lookups_finish resolve hosts 2 both both_reached
