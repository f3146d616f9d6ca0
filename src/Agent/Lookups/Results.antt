-- ===== src/Agent/Lookups/Results.antt =====
-- The results of the lookups do not depend on the order in which they end.
use field_cage.Base.{
  ℕ, suc, zero, ◌+◌, ◌==◌, List, [], ◌∷◌, ◌++◌, Option, some, length, replicate, map, All, Any,
  get_elem?, store_at, length-store_at, get_elem?-store_at, get_elem?-store_at_other, get_elem?_lt,
  eq_of_get_elem?, get_elem?-map, All-middle, Any-middle, Bool-cases, inl, inr, ◌≡◌, refl, sym, ap,
  ◌∙◌, subst, arith, ◌⊎◌,
}
use field_cage.Text.Bytes.{Bytes}
use field_cage.Net.Ip.{Ip}
use field_cage.Policy.Engine.{Engine}
use field_cage.Policy.Decide.{domains}
use field_cage.Ebpf.Maps.{KernelMaps}
use field_cage.Ebpf.Watcher.{Block}
use field_cage.Agent.Seed.{Seeded, seed_domains, seed_result, seed_allowlist}
use field_cage.Agent.Lookups.{
  SeedResult, zero_result, Task, numbered, Pool, new_pool, launched, released, IsFinished,
  result_of, stored_by, Moves, launch, store, release, here, next, seed_results, seed_with,
}

module _ (resolve : Bytes → Option (List Ip)) (ds : List Bytes) where
  abbrev target : List SeedResult
  target = map (result_of resolve) ds

  abbrev IsOwn : Task → Type 0
  IsOwn t = get_elem? ds t.index ≡ some t.domain

  abbrev Has : ℕ → Task → Type 0
  Has i t = t.index ≡ i

  -- the slot is as it will be, or a task for it is left
  abbrev IsSettled : Pool → ℕ → Type 0
  IsSettled p i =
      (get_elem? p.results i ≡ get_elem? target i) ⊎ (Any (Has i) p.todo ⊎ Any (Has i) p.looking)

  record IsSound (p : Pool) : Type 0 where
    size : length p.results ≡ length ds
    own_todo : All IsOwn p.todo
    own_looking : All IsOwn p.looking
    settled : (i : ℕ) → IsSettled p i

  numbered-IsOwn :
      (i : ℕ) (rest : List Bytes)
      → ((j k : ℕ) → k ≡ i + j → get_elem? ds k ≡ get_elem? rest j)
      → All IsOwn (numbered i rest)
  unfolding numbered
  numbered-IsOwn i [] h = tt
  numbered-IsOwn i (d ∷ rest) h =
      (h 0 i (omega arith), numbered-IsOwn (suc i) rest (λ j k e. h (suc j) k (omega (arith, e))))

  numbered-settled :
      (i j k : ℕ) (rest : List Bytes)
      → k ≡ i + j
      → (get_elem? (replicate (length rest) zero_result) j
          ≡ get_elem? (map (result_of resolve) rest) j)
        ⊎ Any (Has k) (numbered i rest)
  unfolding numbered
  numbered-settled i j k [] e = inl refl
  numbered-settled i zero k (d ∷ rest) e = inr (inl (omega (arith, e)))
  numbered-settled i (suc j) k (d ∷ rest) e =
      elim (numbered-settled (suc i) j k rest (omega (arith, e))) [
        | inl q ↦ inl q
        | inr h ↦ inr (inr h)
      ]

  length-replicate :
      (rest : List Bytes) → length (replicate (length rest) zero_result) ≡ length rest
  length-replicate [] = refl
  length-replicate (d ∷ rest) = ap suc (length-replicate rest)

  new_pool-IsSound : IsSound (new_pool ds)
  unfolding new_pool
  new_pool-IsSound = record {
    size = length-replicate ds;
    own_todo = numbered-IsOwn 0 ds (λ j k e. ap (get_elem? ds) (omega (arith, e)));
    own_looking = tt;
    settled =
        λ i. elim (numbered-settled 0 i i ds (omega arith)) [ inl q ↦ inl q | inr h ↦ inr (inl h) ];
  }

  launch-IsSound :
      (p : Pool) (t : Task) (ts : List Task)
      → p.todo ≡ t ∷ ts
      → IsSound p
      → IsSound (launched t ts p)
  unfolding launched
  launch-IsSound p t ts e s =
      let (own, rest) = subst (All IsOwn) e s.own_todo in
      record {
        size = s.size;
        own_todo = rest;
        own_looking = (own, s.own_looking);
        settled = λ i. elim (s.settled i) [
          | inl q ↦ inl q
          | inr (inr h) ↦ inr (inr (inr h))
          | inr (inl h) ↦ elim (subst (Any (Has i)) e h) [
            | inl q ↦ inr (inr (inl q))
            | inr q ↦ inr (inl q)
          ]
        ];
      }

  -- a slot that was stored into is as it will be
  filled :
      (p : Pool) (t : Task)
      → length p.results ≡ length ds
      → IsOwn t
      → get_elem? (store_at t.index (result_of resolve t.domain) p.results) t.index
        ≡ get_elem? target t.index
  filled p t size own =
      let inside = get_elem?_lt ds t.index t.domain own in
      get_elem?-store_at t.index (result_of resolve t.domain) p.results
        (omega (arith, inside, size))
      ∙ sym (get_elem?-map (result_of resolve) ds t.index t.domain own)

  store-IsSound :
      (p : Pool) (xs : List Task) (t : Task) (ys : List Task)
      → p.looking ≡ xs ++ t ∷ ys
      → IsSound p
      → IsSound (stored_by resolve xs t ys p)
  unfolding stored_by
  store-IsSound p xs t ys e s =
      let (own, rest) = All-middle IsOwn xs t ys (subst (All IsOwn) e s.own_looking) in
      let size = length-store_at t.index (result_of resolve t.domain) p.results ∙ s.size in
      record {
        size = size;
        own_todo = s.own_todo;
        own_looking = rest;
        settled = λ i. elim (Bool-cases (t.index == i)) [
          | inl q ↦
              let same : t.index ≡ i = ground arith in
              inl (
                subst
                  (λ j.
                    get_elem? (store_at t.index (result_of resolve t.domain) p.results) j
                    ≡ get_elem? target j)
                  same (filled p t s.size own))
          | inr q ↦
              let kept =
                get_elem?-store_at_other t.index i (result_of resolve t.domain) p.results q in
              elim (s.settled i) [
                | inl a ↦ inl (kept ∙ a)
                | inr (inl a) ↦ inr (inl a)
                | inr (inr a) ↦ elim (Any-middle (Has i) xs t ys (subst (Any (Has i)) e a)) [
                  | inl b ↦ absurd (ground arith)
                  | inr b ↦ inr (inr b)
                ]
              ]
        ];
      }

  release-IsSound : (p : Pool) (n : ℕ) → IsSound p → IsSound (released n p)
  unfolding released
  release-IsSound p n s = record {
    size = s.size;
    own_todo = s.own_todo;
    own_looking = s.own_looking;
    settled = s.settled;
  }

  Moves-IsSound : {p : Pool} {n : ℕ} {q : Pool} → Moves resolve p n q → IsSound p → IsSound q
  Moves-IsSound here s = s
  Moves-IsSound (next r (launch p t ts e g)) s = launch-IsSound p t ts e (Moves-IsSound r s)
  Moves-IsSound (next r (store p xs t ys e)) s = store-IsSound p xs t ys e (Moves-IsSound r s)
  Moves-IsSound (next r (release p n e)) s = release-IsSound p n (Moves-IsSound r s)

  finished-target : (p : Pool) → IsSound p → IsFinished p → p.results ≡ target
  finished-target p s f = eq_of_get_elem? p.results target (λ i. elim (s.settled i) [
    | inl q ↦ q
    | inr (inl h) ↦ absurd (subst (Any (Has i)) f.no_todo h)
    | inr (inr h) ↦ absurd (subst (Any (Has i)) f.no_looking h)
  ])

module _ (lib : KernelMaps) (resolve : Bytes → Option (List Ip)) where
  seed_results-target :
      (ds : List Bytes) (s : Seeded lib)
      → seed_results lib (map (result_of resolve) ds) s ≡ seed_domains lib resolve ds s
  unfolding seed_results seed_domains result_of
  seed_results-target [] s = refl
  seed_results-target (d ∷ ds) s = seed_results-target ds (seed_result lib d (resolve d) s)

  -- In whatever order the lookups are started, end and give back their places, once all have ended
  -- the seeding with their results is the one that looks up one domain after the other: it leaves
  -- the same maps and the same warnings.
  pub seed_with-finished :
      (e : Engine) (b : Block lib) (n : ℕ) (p : Pool)
      → Moves resolve (new_pool (domains e)) n p
      → IsFinished p
      → seed_with lib p.results e b ≡ seed_allowlist lib resolve e b
  unfolding seed_with seed_allowlist
  seed_with-finished e b n p r f =
      let ds = domains e in
      let sound = Moves-IsSound resolve ds r (new_pool-IsSound resolve ds) in
      ap (λ rs. seed_with lib rs e b) (finished-target resolve ds p sound f)
      ∙ seed_results-target ds _
