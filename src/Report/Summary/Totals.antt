-- ===== src/Report/Summary/Totals.antt =====
-- The totals of a collector agree.
use field_cage.Base.{ℕ, ◌+◌, Bool, ◌||◌, not, List, [], ◌∷◌, if◌then◌else◌, length, ◌≡◌, ◌∙◌, arith}
use field_cage.Text.Bytes.{Bytes, equal, has_prefix, cut_prefix}
use field_cage.Report.Verdict.{Verdict, is_deny, is_allow, is_skip}
use field_cage.Report.Parse.{Event}
use field_cage.Report.Summary.{summary, count_events, denied_events, allowed_events, skipped_events}
use field_cage.Report.Summary.Collect.{
  Collector, DestKey, DestAgg, Counts, new_collector, count_one, bump, bump_key, add, add_all,
  no_events, key_of,
}

-- the events of all verdicts, and of all destinations
abbrev pub sum_counts : Counts → ℕ
sum_counts [] = 0
sum_counts ((v, n) ∷ m) = n + sum_counts m

abbrev pub sum_dests : List (DestKey × DestAgg) → ℕ
sum_dests [] = 0
sum_dests ((k, agg) ∷ ds) = agg.count + sum_dests ds

sum_counts-count_one : (v : Verdict) (m : Counts) → sum_counts (count_one v m) ≡ sum_counts m + 1
unfolding count_one
sum_counts-count_one v [] = omega arith
sum_counts-count_one v ((w, n) ∷ m) = ground (arith, sum_counts-count_one v m)

pub count-bump : (comm : Bytes) (agg : DestAgg) → (bump comm agg).count ≡ agg.count + 1
unfolding bump
count-bump comm agg = ground arith

sum_dests-bump_key :
    (k : DestKey) (comm : Bytes) (ds : List (DestKey × DestAgg))
    → sum_dests (bump_key k comm ds) ≡ sum_dests ds + 1
unfolding bump_key
sum_dests-bump_key k comm [] = omega (arith, count-bump comm no_events)
sum_dests-bump_key k comm ((j, agg) ∷ ds) =
    ground (arith, count-bump comm agg, sum_dests-bump_key k comm ds)

-- Three counts of the same events.
pub record Agrees (c : Collector) : Type 0 where
  pub verdicts : sum_counts c.by_verdict ≡ c.total
  pub destinations : sum_dests c.dests ≡ c.total

add-Agrees : (c : Collector) (ev : Event) → Agrees c → Agrees (add c ev)
unfolding add
add-Agrees c ev a = record {
  verdicts = omega (arith, sum_counts-count_one ev.verdict c.by_verdict, a.verdicts);
  destinations = omega (arith, sum_dests-bump_key (key_of ev) ev.comm c.dests, a.destinations);
}

-- Whatever events a collector has counted, its total is the sum over the verdicts, and the sum over
-- the destinations, and each event adds one to it.
pub add_all-Agrees :
    (c : Collector) (evs : List Event)
    → Agrees c
    → Agrees (add_all c evs) × ((add_all c evs).total ≡ c.total + length evs)
unfolding add_all
add_all-Agrees c [] a = (a, omega arith)
add_all-Agrees c (ev ∷ evs) a =
    let (kept, total) = add_all-Agrees (add c ev) evs (add-Agrees c ev a) in
    (kept, unfold add in total ∙ omega arith)

-- a verdict that is in none of the groups
unfoldable pub is_unknown : Verdict → Bool
is_unknown v = not (is_deny v || is_allow v || is_skip v)

abbrev weight : Bool → ℕ → ℕ
weight b n = if b then n else 0

-- each verdict is in one group: the first letter tells
groups_apart :
    (v : Verdict) (n : ℕ)
    → weight (is_deny v) n + weight (is_allow v) n + weight (is_skip v) n + weight (is_unknown v) n
      ≡ n
unfolding is_unknown is_deny is_allow is_skip has_prefix cut_prefix equal
groups_apart [] n = omega arith
groups_apart (c ∷ v) n = ground arith

count_groups :
    (m : Counts)
    → count_events is_deny m
        + count_events is_allow m
        + count_events is_skip m
        + count_events is_unknown m
      ≡ sum_counts m
unfolding count_events
count_groups [] = omega arith
count_groups ((v, n) ∷ m) = omega (arith, groups_apart v n, count_groups m)

pub start-Agrees : Agrees new_collector
start-Agrees = omega arith

-- The denied, the allowed and the skipped events of a summary, and those of unknown verdicts, are
-- together all events of the log: no event is lost or counted twice.
pub groups-eq-total :
    (evs : List Event)
    → denied_events (summary (add_all new_collector evs))
        + allowed_events (summary (add_all new_collector evs))
        + skipped_events (summary (add_all new_collector evs))
        + count_events is_unknown (summary (add_all new_collector evs)).by_verdict
      ≡ length evs
unfolding denied_events allowed_events skipped_events summary
groups-eq-total evs =
    let (agrees, total) = add_all-Agrees new_collector evs start-Agrees in
    omega (arith, count_groups (add_all new_collector evs).by_verdict, agrees.verdicts, total)
