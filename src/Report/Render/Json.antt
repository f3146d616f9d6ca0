-- ===== src/Report/Render/Json.antt =====
-- internal/report/render_json.go: the values that are handed to encoding/json.
use field_cage.Base.{ℕ, List, map}
use field_cage.Text.Bytes.{Bytes}
use field_cage.Report.Parse
use field_cage.Report.Parse.{Event, ip_string}
use field_cage.Report.Summary.{Summary}
use field_cage.Report.Summary.Collect.{Counts}
use field_cage.Report.Summary.Order.{DestStat, destination}
use field_cage.Report.Render.Format.{Options}
use field_cage.Report.Render.Rows.{limit_rows}

abbrev pub json_schema_version : ℕ
json_schema_version = 1

-- `jsonDest`
pub record JsonDest : Type 0 where
  pub verdict : Bytes
  pub destination : Bytes
  pub domain : Bytes
  pub ip : Bytes
  pub port : ℕ
  pub count : ℕ
  pub processes : List Bytes
  pub more_processes : ℕ

-- `jsonReport`
pub record JsonReport : Type 0 where
  pub schema_version : ℕ
  pub mode : Bytes
  pub total_events : ℕ
  pub malformed_lines : ℕ
  pub by_verdict : Counts
  pub destinations : List JsonDest
  pub omitted_destinations : ℕ
  pub suggested_allowlist : List Bytes

-- `jsonEvent`
pub record JsonEvent : Type 0 where
  pub verdict : Bytes
  pub pid : ℕ
  pub tgid : ℕ
  pub comm : Bytes
  pub destination : Bytes
  pub domain : Bytes
  pub ip : Bytes
  pub port : ℕ

unfoldable pub json_dest : DestStat → JsonDest
json_dest d = record {
  verdict = d.verdict;
  destination = destination d;
  domain = d.domain;
  ip = d.ip;
  port = d.port;
  count = d.count;
  processes = d.processes;
  more_processes = d.more_processes;
}

-- `jsonRenderer.Render`
unfoldable pub json_report : Options → Summary → JsonReport
unfolding json_dest
json_report opts s =
    let rows = limit_rows s.destinations opts.top in
    record {
      schema_version = json_schema_version;
      mode = s.mode;
      total_events = s.total;
      malformed_lines = s.malformed;
      by_verdict = s.by_verdict;
      destinations = map json_dest rows.shown;
      omitted_destinations = rows.omitted;
      suggested_allowlist = s.suggested_allowlist;
    }

-- `rawJSON.WriteEvent`
unfoldable pub json_event : Event → JsonEvent
json_event ev = record {
  verdict = ev.verdict;
  pid = ev.pid;
  tgid = ev.tgid;
  comm = ev.comm;
  destination = Parse.destination ev;
  domain = ev.domain;
  ip = ip_string ev.ip;
  port = ev.port;
}
