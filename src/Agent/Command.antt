-- ===== src/Agent/Command.antt =====
-- cmd/agent/report.go: `runReport` behind the parsing of its flags. What it writes is the renderer with
-- what is handed to it.
use field_cage.Base.{
  ℕ, Bool, ◌||◌, List, [], ◌∷◌, ◌++◌, Option, none, some, if◌then◌else◌, any, Result, ok, err,
}
use field_cage.Text.Bytes.{Bytes, codes, equal, is_empty}
use field_cage.Text.Case.{Tables}
use field_cage.Report.Parse.{Event}
use field_cage.Report.Scan.{ScanError, Progress, Outcome, scan_log, scan_lines}
use field_cage.Report.Collected.{collect}
use field_cage.Report.Summary.{Summary, summary}
use field_cage.Report.Summary.Collect.{Collector, new_collector, set_mode, set_malformed}
use field_cage.Report.Render.Format.{
  FormatError, Renderer, Options, resolve_format, renderer_for, raw_renderer_for, level_auto,
  level_off, level_notice, level_warning, level_error,
}

-- a Go integer
pub data ℤ : Type 0 where
  pos negsuc : ℕ → ℤ

-- the values of the flags, and the arguments behind them
pub record Arguments : Type 0 where
  pub log_path : Bytes
  pub format : Bytes
  pub top : ℤ
  pub raw : Bool
  pub level : Bytes
  pub mode : Bytes
  pub rest : List Bytes

pub data ReportError : Type 0 where
  unexpected_argument : Bytes → ReportError
  negative_top : ReportError
  bad_format : FormatError → ReportError
  invalid_level : Bytes → ReportError
  open_failed : ReportError
  scan_failed : ScanError ⊥ → ReportError

pub data Output : Type 0 where
  events : Renderer → List Event → Output
  rendered : Renderer → Options → Summary → Output

-- What the command reads: the files, its input and the environment.
pub record Surroundings : Type 0 where
  pub open_file : Bytes → Option Bytes
  pub stdin : Bytes
  pub getenv : Bytes → Bytes

abbrev pub levels : List Bytes
levels = level_auto ∷ level_off ∷ level_notice ∷ level_warning ∷ level_error ∷ []

-- the events in the order in which `WriteEvent` gets them
abbrev pub write_event : List Event → Event → Result ⊥ (List Event)
write_event evs ev = ok (evs ++ ev ∷ [])

-- the collector behind the scan
abbrev pub with_scan : Bytes → Progress Collector → Collector
with_scan mode p =
    set_malformed (set_mode p.state (if is_empty mode then p.mode else mode)) p.malformed

-- the log behind its path: a dash or nothing is the input
unfoldable pub read_log : Surroundings → Bytes → Option Bytes
read_log w path = if is_empty path || equal path (codes "-") then some w.stdin else w.open_file path

module _ (t : Tables) where
  abbrev raw_events : Renderer → Outcome ⊥ (List Event) → Result ReportError Output
  raw_events r o = elim o.error [
    | some e ↦ err (scan_failed e)
    | none ↦ ok (events r o.progress.state)
  ]

  unfoldable pub run_raw : Bytes → List Bytes → Result ReportError Output
  unfolding raw_renderer_for scan_log
  run_raw format lines = elim (raw_renderer_for format) [
    | err x ↦ err (bad_format x)
    | ok r ↦ raw_events r (scan_log t write_event [] lines)
  ]

  unfoldable pub render_summary : Bytes → Options → Summary → Result ReportError Output
  unfolding renderer_for
  render_summary format opts s = elim (renderer_for format) [
    | err x ↦ err (bad_format x)
    | ok r ↦ ok (rendered r opts s)
  ]

  abbrev pub finish : Bytes → Options → Option (ScanError ⊥) → Summary → Result ReportError Output
  finish format opts (some e) s = err (scan_failed e)
  finish format opts none s = render_summary format opts s

  abbrev after_scan : Arguments → Bytes → Options → Outcome ⊥ Collector → Result ReportError Output
  after_scan a format opts o = finish format opts o.error (summary (with_scan a.mode o.progress))

  unfoldable pub run_summary : Arguments → Bytes → Options → List Bytes → Result ReportError Output
  unfolding render_summary summary set_mode set_malformed
  run_summary a format opts lines =
      after_scan a format opts (scan_log t collect new_collector lines)

  unfoldable pub run_log : Arguments → Bytes → ℕ → Option Bytes → Result ReportError Output
  unfolding run_raw run_summary scan_lines
  run_log a format top none = err open_failed
  run_log a format top (some log) =
      if a.raw
      then run_raw format (scan_lines log)
      else run_summary a format (record { top = top; annotation_level = a.level }) (scan_lines log)

  unfoldable pub run_format : Surroundings → Arguments → ℕ → Bytes → Result ReportError Output
  unfolding run_log read_log
  run_format w a top format =
      if any (λ l. equal l a.level) levels
      then run_log a format top (read_log w a.log_path)
      else err (invalid_level a.level)

  unfoldable pub run_top : Surroundings → Arguments → ℤ → Result ReportError Output
  unfolding run_format resolve_format
  run_top w a (negsuc n) = err negative_top
  run_top w a (pos n) = elim (resolve_format a.format (some w.getenv)) [
    | err x ↦ err (bad_format x)
    | ok format ↦ run_format w a n format
  ]

  unfoldable pub run_rest : Surroundings → Arguments → List Bytes → Result ReportError Output
  unfolding run_top
  run_rest w a (arg ∷ rest) = err (unexpected_argument arg)
  run_rest w a [] = run_top w a a.top

  -- `runReport`
  unfoldable pub run_report : Surroundings → Arguments → Result ReportError Output
  unfolding run_rest
  run_report w a = run_rest w a a.rest
