-- ===== src/Agent/Lookups.antt =====
-- The concurrent lookups of `seedAllowlist` (cmd/agent/main.go): one goroutine for each domain, at most
-- eight at a time, each of which stores its result in its own slot. The order in which the lookups
-- end is left open by a step relation; what a lookup gives is the parameter `resolve`.
pub mod Results
pub mod Ends
use field_cage.Base.{
  ℕ, suc, ◌+◌, Bool, true, List, [], ◌∷◌, ◌++◌, Option, none, some, ltb, length, replicate,
  store_at, ◌≡◌,
}
use field_cage.Text.Bytes.{Bytes}
use field_cage.Net.Ip.{Ip}
use field_cage.Policy.Engine.{Engine}
use field_cage.Policy.Decide.{ips, cidrs}
use field_cage.Ebpf.Maps.{KernelMaps}
use field_cage.Ebpf.Watcher.{Block}
use field_cage.Agent.Seed.{Seeded, seed_dns, seed_ips, seed_cidrs, seed_result, ip_failed}

-- `seedResult`, where no addresses stand for an error
pub record SeedResult : Type 0 where
  pub domain : Bytes
  pub ips : Option (List Ip)

-- what a new slice holds
abbrev pub zero_result : SeedResult
zero_result = record { domain = []; ips = some [] }

-- a domain with the index of its slot
pub record Task : Type 0 where
  pub index : ℕ
  pub domain : Bytes

unfoldable pub numbered : ℕ → List Bytes → List Task
numbered i [] = []
numbered i (d ∷ ds) = record { index = i; domain = d } ∷ numbered (suc i) ds

-- `maxConcurrentLookups`
abbrev pub max_concurrent_lookups : ℕ
max_concurrent_lookups = 8

-- `todo` are the rounds of the loop that are left, `looking` the goroutines that have not stored
-- their results, `stored` how many have stored theirs and have not given back their place in `sem`.
pub record Pool : Type 0 where
  pub todo : List Task
  pub looking : List Task
  pub stored : ℕ
  pub results : List SeedResult

-- the places of `sem` that are taken
abbrev pub taken : Pool → ℕ
taken p = length p.looking + p.stored

-- the pool before the loop
unfoldable pub new_pool : List Bytes → Pool
unfolding numbered
new_pool ds = record {
  todo = numbered 0 ds;
  looking = [];
  stored = 0;
  results = replicate (length ds) zero_result;
}

-- a round of the loop behind `sem <- struct{}{}`
unfoldable pub launched : Task → List Task → Pool → Pool
launched t ts p = record p { todo = ts; looking = t ∷ p.looking }

-- `<-sem` at the end of a goroutine
unfoldable pub released : ℕ → Pool → Pool
released n p = record p { stored = n }

-- all goroutines have ended, so that `wg.Wait` returns
pub record IsFinished (p : Pool) : Type 0 where
  pub no_todo : p.todo ≡ []
  pub no_looking : p.looking ≡ []
  pub no_stored : p.stored ≡ 0

module _ (resolve : Bytes → Option (List Ip)) where
  unfoldable pub result_of : Bytes → SeedResult
  result_of d = record { domain = d; ips = resolve d }

  -- the assignment to `results[i]`, by a goroutine among the others
  unfoldable pub stored_by : List Task → Task → List Task → Pool → Pool
  unfolding result_of
  stored_by xs t ys p = record p {
    looking = xs ++ ys;
    stored = suc p.stored;
    results = store_at t.index (result_of t.domain) p.results;
  }

  pub data Move : Pool → Pool → Type 0 where
    launch :
        (p : Pool) (t : Task) (ts : List Task)
        → p.todo ≡ t ∷ ts
        → ltb (taken p) max_concurrent_lookups ≡ true
        → Move p (launched t ts p)
    store :
        (p : Pool) (xs : List Task) (t : Task) (ys : List Task)
        → p.looking ≡ xs ++ t ∷ ys
        → Move p (stored_by xs t ys p)
    release : (p : Pool) (n : ℕ) → p.stored ≡ suc n → Move p (released n p)

  -- so many steps in any order
  pub data Moves (p : Pool) : ℕ → Pool → Type 0 where
    here : Moves p 0 p
    next : {n : ℕ} {q r : Pool} → Moves p n q → Move q r → Moves p (suc n) r

module _ (lib : KernelMaps) where
  -- the loop over the results
  unfoldable pub seed_results : List SeedResult → Seeded lib → Seeded lib
  unfolding seed_result
  seed_results [] s = s
  seed_results (r ∷ rs) s = seed_results rs (seed_result lib r.domain r.ips s)

  -- `seedAllowlist` with the results of its lookups
  unfoldable pub seed_with : List SeedResult → Engine → Block lib → Seeded lib
  unfolding seed_dns seed_ips seed_cidrs seed_results
  seed_with rs e b = seed_results rs (
      seed_cidrs lib (cidrs e) (
        seed_ips lib ip_failed (ips e)
          (seed_dns lib e.allow_all_dns (record { block = b; warnings = [] }))))
