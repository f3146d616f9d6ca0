-- ===== src/Agent/Lookups/Ends.antt =====
-- The lookups end, whatever their order, and never more than eight run.
use field_cage.Base.{
  ℕ, suc, zero, ◌+◌, ◌*◌, ◌-◌, ◌≤◌, ◌↔◌, List, [], ◌∷◌, ◌++◌, Option, length, inl, inr, ◌≡◌, refl,
  ap, ◌∙◌, arith, ◌⊎◌,
}
use field_cage.Text.Bytes.{Bytes}
use field_cage.Net.Ip.{Ip}
use field_cage.Agent.Lookups.{
  Task, numbered, Pool, taken, max_concurrent_lookups, new_pool, launched, released, IsFinished,
  stored_by, Move, Moves, launch, store, release, here, next,
}

module _ (resolve : Bytes → Option (List Ip)) where
  -- what is left to do: three steps for each domain
  abbrev left : Pool → ℕ
  left p = 3 * length p.todo + 2 * length p.looking + p.stored

  length-middle :
      (xs : List Task) (t : Task) (ys : List Task) → length (xs ++ t ∷ ys) ≡ suc (length (xs ++ ys))
  length-middle [] t ys = refl
  length-middle (x ∷ xs) t ys = ap suc (length-middle xs t ys)

  Move-left : {p q : Pool} → Move resolve p q → left p ≡ suc (left q)
  unfolding launched stored_by released
  Move-left (launch p t ts e g) = let n = ap length e in omega (arith, n)
  Move-left (store p xs t ys e) = let n = ap length e ∙ length-middle xs t ys in omega (arith, n)
  Move-left (release p n e) = omega (arith, e)

  Moves-left : {p : Pool} {n : ℕ} {q : Pool} → Moves resolve p n q → left p ≡ n + left q
  Moves-left here = omega arith
  Moves-left (next r st) = let a = Moves-left r in let b = Move-left st in omega (arith, a, b)

  length-numbered : (i : ℕ) (ds : List Bytes) → length (numbered i ds) ≡ length ds
  unfolding numbered
  length-numbered i [] = refl
  length-numbered i (d ∷ ds) = ap suc (length-numbered (suc i) ds)

  new_pool-left : (ds : List Bytes) → left (new_pool ds) ≡ 3 * length ds
  unfolding new_pool
  new_pool-left ds = let e = length-numbered 0 ds in omega (arith, e)

  Move-taken : {p q : Pool} → Move resolve p q → taken p ≤ 8 → taken q ≤ 8
  unfolding launched stored_by released
  Move-taken (launch p t ts e g) h = ground arith
  Move-taken (store p xs t ys e) h =
      let n = ap length e ∙ length-middle xs t ys in omega (arith, n, h)
  Move-taken (release p n e) h = omega (arith, e, h)

  Moves-taken : {p : Pool} {n : ℕ} {q : Pool} → Moves resolve p n q → taken p ≤ 8 → taken q ≤ 8
  Moves-taken here h = h
  Moves-taken (next r st) h = Move-taken st (Moves-taken r h)

  -- In any order of the steps, at most eight places are taken, so no more lookups run.
  pub taken_le :
      (ds : List Bytes) (n : ℕ) (p : Pool)
      → Moves resolve (new_pool ds) n p
      → taken p ≤ max_concurrent_lookups
  unfolding new_pool
  taken_le ds n p r = Moves-taken r (omega arith)

  progress :
      (p : Pool) (todo looking : List Task) (stored : ℕ)
      → p.todo ≡ todo
      → p.looking ≡ looking
      → p.stored ≡ stored
      → IsFinished p ⊎ ((q : Pool) × Move resolve p q)
  progress p todo (t ∷ ts) stored a b c = inr (_, store p [] t ts b)
  progress p todo [] (suc n) a b c = inr (_, release p n c)
  progress p [] [] zero a b c = inl (record { no_todo = a; no_looking = b; no_stored = c })
  progress p (t ∷ ts) [] zero a b c =
      let free : taken p ≡ 0 = rw (b, c) refl in inr (_, launch p t ts a (ground arith))

  -- a pool that is not finished has a step
  step_of : (p : Pool) → IsFinished p ⊎ ((q : Pool) × Move resolve p q)
  step_of p = progress p p.todo p.looking p.stored refl refl refl

  finished-left : (p : Pool) → IsFinished p → left p ≡ 0
  finished-left p f =
      let a = ap length f.no_todo in
      let b = ap length f.no_looking in let c = f.no_stored in omega (arith, a, b, c)

  first :
      {p q r : Pool} {n : ℕ} → Move resolve p q → Moves resolve q n r → Moves resolve p (suc n) r
  first s here = next here s
  first s (next r t) = next (first s r) t

  finish : (n : ℕ) (p : Pool) → left p ≡ n → (q : Pool) × Moves resolve p n q × IsFinished q
  finish zero p e = elim (step_of p) [
    | inl f ↦ (p, here, f)
    | inr (q, s) ↦ let a = Move-left s in absurd (omega (arith, a, e))
  ]
  finish (suc n) p e = elim (step_of p) [
    | inl f ↦ let a = finished-left p f in absurd (omega (arith, a, e))
    | inr (q, s) ↦
        let a = Move-left s in
        let (r, steps, f) = finish n q (omega (arith, a, e)) in (r, first s steps, f)
  ]

  finished_of : (p : Pool) → left p ≡ 0 → IsFinished p
  finished_of p e = elim (step_of p) [
    | inl f ↦ f
    | inr (q, s) ↦ let a = Move-left s in absurd (omega (arith, a, e))
  ]

  -- The lookups end: no order has more than three steps for each domain, after that many steps, and
  -- only then, all have ended, and from whatever was reached before, the remaining steps can be taken.
  pub lookups_finish :
      (ds : List Bytes) (n : ℕ) (p : Pool)
      → Moves resolve (new_pool ds) n p
      → (n ≤ 3 * length ds)
        × (IsFinished p ↔ (n ≡ 3 * length ds))
        × ((q : Pool) × Moves resolve p (3 * length ds - n) q × IsFinished q)
  lookups_finish ds n p r =
      let a = Moves-left r in
      let b = new_pool-left ds in
      (
        omega (arith, a, b),
        (
          λ f. let c = finished-left p f in omega (arith, a, b, c),
          λ e. finished_of p (omega (arith, a, b, e)),
        ),
        finish (3 * length ds - n) p (omega (arith, a, b)),
      )
