-- ===== src/Report/Summary/Collect.antt =====
-- `Collector` and `Add`.
use field_cage.Base.{
  ℕ, ◌+◌, Bool, ◌||◌, ◌&&◌, List, [], ◌∷◌, ◌++◌, ◌==◌, ltb, if◌then◌else◌, length,
}
use field_cage.Text.Bytes.{Bytes, equal, is_empty}
use field_cage.Policy.Engine.{has_key}
use field_cage.Report.Verdict.{Verdict}
use field_cage.Report.Parse.{Event, ip_string}

abbrev pub max_processes : ℕ
max_processes = 10

-- `destKey`
pub record DestKey : Type 0 where
  pub verdict : Verdict
  pub domain : Bytes
  pub ip : Bytes
  pub port : ℕ

-- `destAgg`
pub record DestAgg : Type 0 where
  pub count : ℕ
  pub procs : List Bytes
  pub proc_seen : List Bytes
  pub procs_more : ℕ

-- the events of each verdict
abbrev pub Counts : Type 0
Counts = List (Verdict × ℕ)

-- `Collector`
pub record Collector : Type 0 where
  pub mode : Bytes
  pub total : ℕ
  pub malformed : ℕ
  pub by_verdict : Counts
  pub dests : List (DestKey × DestAgg)

-- `NewCollector`
abbrev pub new_collector : Collector
new_collector = record { mode = []; total = 0; malformed = 0; by_verdict = []; dests = [] }

-- `m[v]++`
unfoldable pub count_one : Verdict → Counts → Counts
count_one v [] = (v, 1) ∷ []
count_one v ((w, n) ∷ m) = if equal w v then (w, n + 1) ∷ m else (w, n) ∷ count_one v m

-- equality of the keys, field by field
unfoldable pub same_key : DestKey → DestKey → Bool
same_key a b =
    equal a.verdict b.verdict && (equal a.domain b.domain && (equal a.ip b.ip && a.port == b.port))

abbrev pub no_events : DestAgg
no_events = record { count = 0; procs = []; proc_seen = []; procs_more = 0 }

-- an event of the destination, with its process name
unfoldable pub bump : Bytes → DestAgg → DestAgg
bump comm agg =
    let counted = record agg { count = agg.count + 1 } in
    let seen = record counted { proc_seen = comm ∷ agg.proc_seen } in
    if is_empty comm || has_key agg.proc_seen comm
    then counted
    else if ltb (length agg.procs) max_processes
    then record seen { procs = agg.procs ++ comm ∷ [] }
    else record seen { procs_more = agg.procs_more + 1 }

unfoldable pub bump_key : DestKey → Bytes → List (DestKey × DestAgg) → List (DestKey × DestAgg)
bump_key k comm [] = (k, bump comm no_events) ∷ []
bump_key k comm ((j, agg) ∷ ds) =
    if same_key j k then (j, bump comm agg) ∷ ds else (j, agg) ∷ bump_key k comm ds

unfoldable pub key_of : Event → DestKey
key_of ev = record {
  verdict = ev.verdict;
  domain = ev.domain;
  ip = ip_string ev.ip;
  port = ev.port;
}

-- `Add`; its error is always nil
unfoldable pub add : Collector → Event → Collector
add c ev = record c {
  total = c.total + 1;
  by_verdict = count_one ev.verdict c.by_verdict;
  dests = bump_key (key_of ev) ev.comm c.dests;
}

-- the events of a log in their order
unfoldable pub add_all : Collector → List Event → Collector
unfolding add
add_all c [] = c
add_all c (ev ∷ evs) = add_all (add c ev) evs

-- `SetMode` and `SetMalformed`
unfoldable pub set_mode : Collector → Bytes → Collector
set_mode c m = record c { mode = m }

unfoldable pub set_malformed : Collector → ℕ → Collector
set_malformed c n = record c { malformed = n }
