-- ===== src/Tests/Witnesses/Reports.antt =====
-- Instances of the theorems on the report.
use field_cage.Base.{
  ◌+◌, ◌≤◌, true, [], ◌∷◌, ◌++◌, none, length, any, keep, All, map, ◌≡◌, refl, arith, ok, false,
}
use field_cage.Text.Bytes.{Bytes, codes, equal, split, cut_prefix, has_suffix, trim_suffix}
use field_cage.Text.Space.{trim_space}
use field_cage.Net.Parse.{parse_ip}
use field_cage.Net.Ip.{mapped_prefix}
use field_cage.Policy.Engine.{has_key, block}
use field_cage.Report.Verdict
use field_cage.Report.Verdict.{verdict_for, is_skip, is_deny, is_allow, skip_dns}
use field_cage.Report.Parse
use field_cage.Report.Collected.{is_verdict_line}
use field_cage.Report.Summary.{
  Summary, summary, summary_of, denied_events, allowed_events, skipped_events, count_events,
}
use field_cage.Report.Summary.{stat_of}
use field_cage.Report.Summary.Order.{DestStat}
use field_cage.Report.Summary.Collect.{
  Collector, DestKey, DestAgg, new_collector, add_all, no_events,
}
use field_cage.Report.Render.Escape.{is_formula_start}
use field_cage.Report.Render.Csv.{csv_raw_header, csv_raw_row}
use field_cage.Report.Render.Harmless.{IsHarmless, closed_rows, write_events-IsHarmless}
use field_cage.Report.Summary.Totals.{is_unknown, groups-eq-total}
use field_cage.Report.Summary.Processes.{bump_all, distinct, IsCapped, processes-IsCapped}
use field_cage.Report.Summary.Sorted.{suggests, suggested_iff}
use field_cage.Report.Summary.Ordered.{IsOrdered, summary-IsOrdered}
use field_cage.Report.Render.Format.{Options}
use field_cage.Report.Render.Annotations.{annotation_lines}
use field_cage.Report.Render.OneLine.{IsOneLine, annotation_lines-IsOneLine}
use field_cage.Agent.Command.{pos, Arguments, Surroundings, read_log, rendered, run_report}
use field_cage.Agent.Reported.{report-counts}
use field_cage.Report.Scan.{scan_lines}
use field_cage.Report.Render.Format.{Renderer, renderer_for, resolve_format}
use field_cage.Report.Render.Escape.{markdown_escape}
use field_cage.Report.Render.Guarded.{is_guarded, markdown_escape-is_guarded}
use field_cage.Report.Clean.{IsClean, parse_line-IsClean}
use field_cage.Text.Bytes.{cut_first, cut_last, has_prefix, trim_right}
use field_cage.Text.Number.{parse_uint}
use field_cage.Text.Case.{is_print}
use field_cage.Tests.Samples.{github, plain_tables}

abbrev reported : Parse.Event
reported = record {
  verdict = codes "DENY(not-in-policy)";
  pid = 513;
  tgid = 513;
  comm = codes "curl";
  domain = codes "example.com";
  ip = github;
  port = 443;
}

groups-eq-total_example :
    denied_events (summary (add_all new_collector (reported ∷ [])))
      + allowed_events (summary (add_all new_collector (reported ∷ [])))
      + skipped_events (summary (add_all new_collector (reported ∷ [])))
      + count_events is_unknown (summary (add_all new_collector (reported ∷ []))).by_verdict
    ≡ 1
groups-eq-total_example = groups-eq-total (reported ∷ [])

processes-IsCapped_example :
    IsCapped
      (bump_all no_events (codes "curl" ∷ codes "git" ∷ codes "curl" ∷ []))
      (distinct [] (codes "curl" ∷ codes "git" ∷ codes "curl" ∷ []))
processes-IsCapped_example = processes-IsCapped (codes "curl" ∷ codes "git" ∷ codes "curl" ∷ [])

abbrev allowed_row : DestStat
allowed_row = record {
  verdict = Verdict.allow;
  domain = codes "github.com";
  ip = codes "140.82.112.4";
  port = 443;
  count = 9;
  processes = codes "git" ∷ [];
  more_processes = 0;
}

abbrev denied_row : DestStat
denied_row = record allowed_row {
  verdict = Verdict.deny_policy;
  domain = codes "example.com";
  count = 1;
}

abbrev mixed : Collector
mixed = add_all new_collector (
    record reported { verdict = codes "ALLOW" }
    ∷ reported
    ∷ record reported { port = 80 }
    ∷ reported
    ∷ [])

summary-IsOrdered_example :
    IsOrdered (summary mixed).destinations
    × (length (keep (λ (d : DestStat). is_deny d.verdict) (summary mixed).destinations)
        ≡ length (keep (λ (d : DestStat). is_deny d.verdict) (map stat_of mixed.dests)))
summary-IsOrdered_example = summary-IsOrdered mixed (λ d. is_deny d.verdict)

abbrev dest : DestKey × DestAgg
dest = (
  record { verdict = Verdict.allow; domain = codes "github.com"; ip = []; port = 443 },
  no_events,
)

suggested_iff_example :
    has_key (summary_of new_collector (dest ∷ [])).suggested_allowlist (codes "github.com")
    ≡ any (suggests (codes "github.com")) (dest ∷ [])
suggested_iff_example = suggested_iff new_collector (dest ∷ []) (codes "github.com")

abbrev options : Options
options = record { top = 0; annotation_level = codes "warning" }

abbrev tricky : Summary
tricky = record {
  mode = block;
  total = 1;
  malformed = 0;
  by_verdict = [];
  destinations = record denied_row { domain = codes "a\n::error::b" } ∷ [];
  suggested_allowlist = [];
}

annotation_lines-IsOneLine_example :
    All IsOneLine (annotation_lines options tricky)
    × (length (annotation_lines options tricky) ≤ 11)
annotation_lines-IsOneLine_example =
    annotation_lines-IsOneLine options tricky (record { no_newline = refl; no_return = refl })

abbrev log_text : Bytes
log_text = codes "verdict=ALLOW pid=x\na message\n"

abbrev arguments : Arguments
arguments = record {
  log_path = codes "-";
  format = codes "auto";
  top = pos 50;
  raw = false;
  level = codes "auto";
  mode = [];
  rest = [];
}

abbrev surroundings : Surroundings
surroundings = record { open_file = λ p. none; stdin = log_text; getenv = λ n. [] }

report-counts_example :
    (r : Renderer) × (renderer_for (codes "text") ≡ ok r)
    × (s : Summary) × (run_report plain_tables surroundings arguments
        ≡ ok (rendered r (record { top = 50; annotation_level = codes "auto" }) s))
    × (s.malformed + s.total ≡ length (keep is_verdict_line (scan_lines log_text)))
unfolding read_log resolve_format scan_lines equal split trim_suffix
report-counts_example =
    report-counts plain_tables surroundings arguments 50 (codes "text") log_text
      (record {
        no_rest = refl;
        at_top = refl;
        resolved = refl;
        known_level = refl;
        not_raw = refl;
        readable = refl;
      })
      refl

markdown_escape-is_guarded_example : is_guarded false (markdown_escape (codes "a|b_c")) ≡ true
markdown_escape-is_guarded_example = markdown_escape-is_guarded (codes "a|b_c")

abbrev line_text : Bytes
line_text =
    codes
      "verdict=DENY(not-in-policy)  pid=513    tgid=513    comm=curl             dst=example.com (140.82.112.4):443"

line_parsed :
    Parse.parse_line plain_tables line_text ≡ ok (record reported { ip = mapped_prefix ++ github })
unfolding Parse.parse_line trim_space parse_ip cut_prefix cut_first cut_last has_prefix trim_right
    parse_uint equal has_suffix trim_suffix Parse.sanitize
line_parsed = refl

newline_unprinted : is_print plain_tables b'\n' ≡ false
unfolding is_print
newline_unprinted = refl

parse_line-IsClean_example : IsClean b'\n' (record reported { ip = mapped_prefix ++ github })
parse_line-IsClean_example =
    parse_line-IsClean plain_tables b'\n' (omega arith) newline_unprinted line_text
      (record reported { ip = mapped_prefix ++ github }) line_parsed

-- a process that is named like a formula
abbrev formula : Parse.Event
formula = record reported { comm = codes "=1+1" }

write_events-IsHarmless_example :
    (closed_rows (formula ∷ reported ∷ [])
      ≡ csv_raw_header ∷ map csv_raw_row (formula ∷ reported ∷ []))
    × All (All IsHarmless) (closed_rows (formula ∷ reported ∷ []))
unfolding is_formula_start
write_events-IsHarmless_example =
    write_events-IsHarmless (formula ∷ reported ∷ []) (refl, (refl, tt))
