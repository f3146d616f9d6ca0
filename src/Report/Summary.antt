-- ===== src/Report/Summary.antt =====
-- internal/report/summary.go: the collector and the summary that it renders. A Go map is a list of
-- its keys and values; the loop of `Summary` over the map of destinations meets them in some order.
pub mod Order
pub mod Collect
pub mod Totals
pub mod Tallied
pub mod Processes
pub mod Sorted
pub mod Ordered
use field_cage.Base.{
  ℕ, ◌+◌, Bool, true, false, ◌||◌, ◌&&◌, not, List, [], ◌∷◌, ◌++◌, Option, none, some, ◌==◌, ltb,
  if◌then◌else◌, length, map, keep, any,
}
use field_cage.Text.Bytes.{Bytes, equal, is_empty, less}
use field_cage.Policy.Engine.{add_key}
use field_cage.Report.Verdict.{
  Verdict, allow, skip_dns, skip_loopback, skip_self, deny_no_domain, deny_policy, is_deny, is_skip,
  is_allow,
}
use Order.{DestStat, sort, sort_stats, sort_texts, severity}
use Collect.{Collector, DestKey, DestAgg, Counts}

-- `Summary`
pub record Summary : Type 0 where
  pub mode : Bytes
  pub total : ℕ
  pub malformed : ℕ
  pub by_verdict : Counts
  pub destinations : List DestStat
  pub suggested_allowlist : List Bytes

-- the row of one destination
unfoldable pub stat_of : DestKey × DestAgg → DestStat
stat_of (k, agg) = record {
  verdict = k.verdict;
  domain = k.domain;
  ip = k.ip;
  port = k.port;
  count = agg.count;
  processes = sort_texts agg.procs;
  more_processes = agg.procs_more;
}

-- the domain of a destination, or its address
unfoldable pub key_name : DestKey → Bytes
key_name k = if is_empty k.domain then k.ip else k.domain

-- the candidates for an allowlist that the loop collects
unfoldable pub suggest : List Bytes → List (DestKey × DestAgg) → List Bytes
suggest names [] = names
suggest names ((k, agg) ∷ ds) =
    suggest
      (if is_skip k.verdict || is_empty (key_name k) then names else add_key (key_name k) names) ds

-- `Collector.Summary`, with the destinations in the order in which the loop meets them
unfoldable pub summary_of : Collector → List (DestKey × DestAgg) → Summary
summary_of c ds = record {
  mode = c.mode;
  total = c.total;
  malformed = c.malformed;
  by_verdict = c.by_verdict;
  destinations = sort_stats (map stat_of ds);
  suggested_allowlist = sort_texts (suggest [] ds);
}

unfoldable pub summary : Collector → Summary
unfolding summary_of
summary c = summary_of c c.dests

-- `Denied`, `Allowed` and `Skipped`
abbrev pub filter : Summary → (Verdict → Bool) → List DestStat
filter s pred = keep (λ (d : DestStat). pred d.verdict) s.destinations

unfoldable pub denied : Summary → List DestStat
denied s = filter s is_deny

unfoldable pub allowed : Summary → List DestStat
allowed s = filter s is_allow

unfoldable pub skipped : Summary → List DestStat
skipped s = filter s is_skip

-- `countEvents`
unfoldable pub count_events : (Verdict → Bool) → Counts → ℕ
count_events pred [] = 0
count_events pred ((v, n) ∷ m) = (if pred v then n else 0) + count_events pred m

unfoldable pub denied_events : Summary → ℕ
denied_events s = count_events is_deny s.by_verdict

unfoldable pub allowed_events : Summary → ℕ
allowed_events s = count_events is_allow s.by_verdict

unfoldable pub skipped_events : Summary → ℕ
skipped_events s = count_events is_skip s.by_verdict

abbrev pub known : List Verdict
known = allow ∷ deny_policy ∷ deny_no_domain ∷ skip_dns ∷ skip_loopback ∷ skip_self ∷ []

-- the row of a verdict, if the map has one
pick : Verdict → Counts → Counts
pick v [] = []
pick v ((w, n) ∷ m) = if equal w v then (w, n) ∷ [] else pick v m

pick_all : List Verdict → Counts → Counts
unfolding pick
pick_all [] m = []
pick_all (v ∷ vs) m = pick v m ++ pick_all vs m

-- `VerdictCounts`: the known verdicts in their order, and the others by name
unfoldable pub verdict_counts : Summary → Counts
unfolding pick_all sort
verdict_counts s =
    pick_all known s.by_verdict
    ++ sort (λ (a b : Verdict × ℕ). less a.0 b.0)
        (keep (λ (p : Verdict × ℕ). not (any (λ v. equal v p.0) known)) s.by_verdict)
