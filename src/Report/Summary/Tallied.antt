-- ===== src/Report/Summary/Tallied.antt =====
-- What a collector counts for each verdict and for each destination.
use field_cage.Base.{
  ℕ, ◌+◌, Bool, true, List, [], ◌∷◌, ==_iff, if◌then◌else◌, ◌≡◌, ◌↔◌, ap, sym, ◌∙◌, arith,
}
use field_cage.Text.Bytes.{equal}
use field_cage.Text.Equal.{equal_iff}
use field_cage.Report.Verdict.{Verdict}
use field_cage.Report.Parse.{Event}
use field_cage.Report.Summary.Collect.{
  Collector, DestKey, DestAgg, Counts, count_one, same_key, bump_key, key_of, add, add_all,
  no_events,
}
use field_cage.Report.Summary.Totals.{count-bump}

-- the number of the events with a property
abbrev pub how_many : (Event → Bool) → List Event → ℕ
how_many p [] = 0
how_many p (ev ∷ evs) = (if p ev then 1 else 0) + how_many p evs

-- `m[v]`, which is 0 for a missing key
abbrev pub count_at : Verdict → Counts → ℕ
count_at v [] = 0
count_at v ((w, n) ∷ m) = if equal w v then n else count_at v m

-- the count of a destination, 0 if it is missing
abbrev pub count_to : DestKey → List (DestKey × DestAgg) → ℕ
count_to k [] = 0
count_to k ((j, agg) ∷ ds) = if same_key j k then agg.count else count_to k ds

count_at-count_one :
    (u v : Verdict) (m : Counts)
    → count_at u (count_one v m) ≡ count_at u m + (if equal v u then 1 else 0)
unfolding count_one
count_at-count_one u v [] = ground arith
count_at-count_one u v ((w, n) ∷ m) =
    ground (arith, equal_iff w v, equal_iff w u, equal_iff v u, count_at-count_one u v m)

same_key_sound : (a b : DestKey) → same_key a b ≡ true → a ≡ b
unfolding same_key
same_key_sound a b h =
    let v : a.verdict ≡ b.verdict = ground (arith, equal_iff a.verdict b.verdict) in
    let d : a.domain ≡ b.domain = ground (arith, equal_iff a.domain b.domain) in
    let i : a.ip ≡ b.ip = ground (arith, equal_iff a.ip b.ip) in
    let p : a.port ≡ b.port = ground (arith, ==_iff a.port b.port) in
    λ t. record { verdict = v t; domain = d t; ip = i t; port = p t }

same_key_refl : (a : DestKey) → same_key a a ≡ true
unfolding same_key
same_key_refl a =
    ground (arith, equal_iff a.verdict a.verdict, equal_iff a.domain a.domain, equal_iff a.ip a.ip)

-- Two destinations are the same key exactly when they are equal.
same_key_iff : (a b : DestKey) → (same_key a b ≡ true) ↔ (a ≡ b)
same_key_iff a b = (same_key_sound a b, λ e. ap (same_key a) (sym e) ∙ same_key_refl a)

count_to-bump_key :
    (k j : DestKey) (comm : _) (ds : List (DestKey × DestAgg))
    → count_to k (bump_key j comm ds) ≡ count_to k ds + (if same_key j k then 1 else 0)
unfolding bump_key
count_to-bump_key k j comm [] = ground (arith, count-bump comm no_events)
count_to-bump_key k j comm ((i, agg) ∷ ds) = ground (
  arith,
  count-bump comm agg,
  same_key_iff i j,
  same_key_iff i k,
  same_key_iff j k,
  count_to-bump_key k j comm ds,
)

-- Whatever events a collector has counted, what it holds for a verdict grows by the number of the
-- events with this verdict, and what it holds for a destination by the number of the events with this
-- verdict, domain, address and port, in whatever order they came.
pub add_all-tallies :
    (c : Collector) (evs : List Event) (v : Verdict) (k : DestKey)
    → (count_at v (add_all c evs).by_verdict
        ≡ count_at v c.by_verdict + how_many (λ (ev : Event). equal ev.verdict v) evs)
      × (count_to k (add_all c evs).dests
          ≡ count_to k c.dests + how_many (λ ev. same_key (key_of ev) k) evs)
unfolding add_all
add_all-tallies c [] v k = (omega arith, omega arith)
add_all-tallies c (ev ∷ evs) v k =
    let (verdicts, dests) = add_all-tallies (add c ev) evs v k in
    unfold add in
    (
      omega (arith, verdicts, count_at-count_one v ev.verdict c.by_verdict),
      omega (arith, dests, count_to-bump_key k (key_of ev) ev.comm c.dests),
    )
