-- ===== src/Report/Summary/Processes.antt =====
-- The process names of a destination: the cap, and what is counted beyond it.
use field_cage.Base.{
  ℕ, zero, suc, ◌+◌, ◌-◌, ◌≤◌, ltb, take, take-append, Bool, true, false, ◌||◌, ◌++◌, ap, sym,
  subst, ◌∙◌, append-nil, append_assoc, Bool-cases, inr, List, [], ◌∷◌, if◌then◌else◌, length, ◌≡◌,
  ◌⊎◌, refl, arith, inl, length-append,
}
use field_cage.Text.Bytes.{Bytes, is_empty}
use field_cage.Policy.Engine.{has_key}
use field_cage.Report.Summary.Collect.{DestAgg, no_events, bump, max_processes}

-- The process names of some events, in order.
unfoldable pub bump_all : DestAgg → List Bytes → DestAgg
bump_all agg [] = agg
bump_all agg (comm ∷ comms) = bump_all (bump comm agg) comms

-- the distinct names that are not empty, each kept at its first place
unfoldable pub distinct : List Bytes → List Bytes → List Bytes
distinct seen [] = []
distinct seen (c ∷ cs) =
    let known = is_empty c || has_key seen c in
    let rest = distinct (if known then seen else c ∷ seen) cs in if known then rest else c ∷ rest

-- What is kept, and how much is dropped, of some distinct names.
pub record IsCapped (agg : DestAgg) (names : List Bytes) : Type 0 where
  pub kept : agg.procs ≡ take 10 names
  pub dropped : agg.procs_more ≡ length names - 10

take-all : (n : ℕ) (xs : List Bytes) → length xs ≤ n → take n xs ≡ xs
take-all zero [] h = refl
take-all zero (x ∷ xs) h = absurd (omega (arith, h))
take-all (suc n) [] h = refl
take-all (suc n) (x ∷ xs) h = ap (λ r. x ∷ r) (take-all n xs (omega (arith, h)))

-- the names that add nothing
abbrev is_known : DestAgg → Bytes → Bool
is_known agg c = is_empty c || has_key agg.proc_seen c

-- nothing is dropped before the cap is reached
record IsFilling (agg : DestAgg) : Type 0 where
  cap : length agg.procs ≤ max_processes
  full : (agg.procs_more ≡ 0) ⊎ (length agg.procs ≡ max_processes)

bump-IsFilling : (comm : Bytes) (agg : DestAgg) → IsFilling agg → IsFilling (bump comm agg)
unfolding bump
bump-IsFilling comm agg h = record {
  cap = ground (arith, h.cap, length-append agg.procs (comm ∷ []));
  full = ground (arith, h.cap, h.full, length-append agg.procs (comm ∷ []));
}

-- the names that follow, behind those that are kept
abbrev Follows : DestAgg → DestAgg → List Bytes → Type 0
Follows agg agg' names =
    (agg'.procs ≡ take max_processes (agg.procs ++ names))
    × (agg'.procs_more ≡ agg.procs_more + (length (agg.procs ++ names) - max_processes))

bump_known :
    (c : Bytes) (agg : DestAgg)
    → is_known agg c ≡ true
    → bump c agg ≡ record agg { count = agg.count + 1 }
unfolding bump
bump_known c agg h = rw h refl

-- the state behind a new name that is kept, and behind one that is only counted
abbrev bump_next : DestAgg → Bytes → DestAgg
bump_next agg c = record agg {
  count = agg.count + 1;
  proc_seen = c ∷ agg.proc_seen;
  procs = agg.procs ++ c ∷ [];
}

abbrev bump_over : DestAgg → Bytes → DestAgg
bump_over agg c = record agg {
  count = agg.count + 1;
  proc_seen = c ∷ agg.proc_seen;
  procs_more = agg.procs_more + 1;
}

bump_room :
    (c : Bytes) (agg : DestAgg)
    → is_known agg c ≡ false
    → ltb (length agg.procs) max_processes ≡ true
    → bump c agg ≡ bump_next agg c
unfolding bump
bump_room c agg h r = rw (h, r) refl

bump_full :
    (c : Bytes) (agg : DestAgg)
    → is_known agg c ≡ false
    → ltb (length agg.procs) max_processes ≡ false
    → bump c agg ≡ bump_over agg c
unfolding bump
bump_full c agg h r = rw (h, r) refl

distinct_known :
    (seen : List Bytes) (c : Bytes) (cs : List Bytes)
    → (is_empty c || has_key seen c) ≡ true
    → distinct seen (c ∷ cs) ≡ distinct seen cs
unfolding distinct
distinct_known seen c cs h = rw h refl

distinct_new :
    (seen : List Bytes) (c : Bytes) (cs : List Bytes)
    → (is_empty c || has_key seen c) ≡ false
    → distinct seen (c ∷ cs) ≡ c ∷ distinct (c ∷ seen) cs
unfolding distinct
distinct_new seen c cs h = rw h refl

arrive :
    (agg next : DestAgg) (c : Bytes) (cs names : List Bytes)
    → bump c agg ≡ next
    → distinct agg.proc_seen (c ∷ cs) ≡ names
    → Follows agg (bump_all next cs) names
    → Follows agg (bump_all agg (c ∷ cs)) (distinct agg.proc_seen (c ∷ cs))
unfolding bump_all
arrive agg next c cs names p q h =
    subst (λ b. Follows agg (bump_all b cs) (distinct agg.proc_seen (c ∷ cs))) (sym p)
      (subst (Follows agg (bump_all next cs)) (sym q) h)

bump_all-Follows :
    (comms : List Bytes) (agg : DestAgg)
    → IsFilling agg
    → Follows agg (bump_all agg comms) (distinct agg.proc_seen comms)
unfolding bump_all distinct
bump_all-Follows [] agg f =
    let same = append-nil agg.procs in
    (rw same (sym (take-all max_processes agg.procs f.cap)), rw same (omega (arith, f.cap)))
bump_all-Follows (c ∷ cs) agg f =
    let filling = bump-IsFilling c agg f in
    elim (Bool-cases (is_known agg c)) [
      | inl k ↦
          let p = bump_known c agg k in
          arrive agg (record agg { count = agg.count + 1 }) c cs _ p
            (distinct_known agg.proc_seen c cs k)
            (bump_all-Follows cs _ (subst IsFilling p filling))
      | inr k ↦
          let names = distinct (c ∷ agg.proc_seen) cs in
          elim (Bool-cases (ltb (length agg.procs) max_processes)) [
            | inl r ↦
                let p = bump_room c agg k r in
                arrive agg (bump_next agg c) c cs _ p (distinct_new agg.proc_seen c cs k) (
                  subst
                    (λ xs.
                      ((bump_all (bump_next agg c) cs).procs ≡ take max_processes xs)
                      × ((bump_all (bump_next agg c) cs).procs_more
                          ≡ agg.procs_more + (length xs - max_processes)))
                    (append_assoc agg.procs (c ∷ []) names)
                    (bump_all-Follows cs (bump_next agg c) (subst IsFilling p filling)))
            | inr r ↦
                let p = bump_full c agg k r in
                let ten : length agg.procs ≡ max_processes = ground (arith, f.cap) in
                let (kept, dropped) =
                  bump_all-Follows cs (bump_over agg c) (subst IsFilling p filling) in
                arrive agg (bump_over agg c) c cs _ p (distinct_new agg.proc_seen c cs k) (
                  kept
                      ∙ take-append max_processes agg.procs names ten
                      ∙ sym (take-append max_processes agg.procs (c ∷ names) ten),
                  dropped
                      ∙ omega (
                        arith,
                        ten,
                        length-append agg.procs names,
                        length-append agg.procs (c ∷ names),
                      ),
                )
          ]
    ]

-- The process names of a destination are the first ten of the distinct names of its events, in the
-- order of their first occurrence, and the count beside them is the number of the others.
pub processes-IsCapped :
    (comms : List Bytes) → IsCapped (bump_all no_events comms) (distinct [] comms)
processes-IsCapped comms =
    let (kept, dropped) =
      bump_all-Follows comms no_events (record { cap = omega arith; full = inl refl }) in
    record { kept = kept; dropped = omega (arith, dropped) }
