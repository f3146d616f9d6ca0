-- ===== src/Agent/Loop.antt =====
-- `Watcher.Read` (internal/ebpf/loader.go) and the goroutine of `run` (cmd/agent/main.go) that prints
-- a line for each event.
use field_cage.Base.{ℕ, ◌+◌, List, [], ◌∷◌, none, some}
use field_cage.Text.Bytes.{Bytes}
use field_cage.Ebpf.Event.{Event, parse_event}
use field_cage.Ebpf.Cache.{DnsCache, lookup}
use field_cage.Report.Verdict.{Allower, DnsExempt, dst, Line, line_string}
use field_cage.Agent.Exempt.{verdict_for_event}

-- the counter of malformed records, and the events in the order in which `Read` returns them
pub record Reading : Type 0 where
  pub malformed : ℕ
  pub events : List Event

-- a parsed record gets the domain that the cache holds at this moment; a malformed one is skipped
unfoldable pub read_one : DnsCache → Bytes → Reading → Reading
read_one cache raw rest = elim (parse_event raw) [
  | none ↦ record rest { malformed = rest.malformed + 1 }
  | some ev ↦ record rest { events = record ev { domain = lookup cache ev.daddr } ∷ rest.events }
]

-- the records of the ring buffer up to its end, each beside the cache at the time of its reading
unfoldable pub read_all : List (DnsCache × Bytes) → Reading
unfolding read_one
read_all [] = record { malformed = 0; events = [] }
read_all ((cache, raw) ∷ raws) = read_one cache raw (read_all raws)

-- the line that is printed for an event
unfoldable pub line_of : ℕ → Allower → DnsExempt → Event → Line
line_of self allower exempt ev = record {
  verdict = verdict_for_event ev.tgid ev.dport ev.daddr ev.domain self allower exempt;
  pid = ev.pid;
  tgid = ev.tgid;
  comm = ev.comm;
  dst = dst ev.domain ev.daddr;
  dport = ev.dport;
}

unfoldable pub printed : ℕ → Allower → DnsExempt → List Event → List Bytes
unfolding line_of
printed self allower exempt [] = []
printed self allower exempt (ev ∷ evs) =
    line_string (line_of self allower exempt ev) ∷ printed self allower exempt evs
