-- ===== src/Agent/Reported.antt =====
-- A report that is asked for properly is made, and counts every line.
use field_cage.Base.{
  ℕ, ◌+◌, Bool, true, false, List, [], ◌∷◌, Option, none, some, if◌then◌else◌, any, all, keep,
  length, ◌≡◌, refl, ◌∙◌, arith, Bool-cases, Result-cases, inl, inr, ok,
}
use field_cage.Text.Bytes.{Bytes, equal}
use field_cage.Text.Equal.{equal_comm, equal_refl}
use field_cage.Text.Case.{Tables}
use field_cage.Report.Scan.{ScanError, scan_log, scan_lines}
use field_cage.Report.Collected.{collect, is_verdict_line, fits, scan_log-counts}
use field_cage.Report.Summary.{Summary, summary}
use field_cage.Report.Summary.Collect.{new_collector}
use field_cage.Report.Render.Format.{
  Renderer, Options, resolve_format, renderer_for, formats, format_text, format_json, format_csv,
  format_markdown, format_annotations,
}
use field_cage.Agent.Command.{
  ℤ, pos, Arguments, rendered, Surroundings, levels, with_scan, finish, render_summary, run_summary,
  read_log, run_log, run_format, run_top, run_rest, run_report,
}

abbrev is_format : Bytes → Bool
is_format f = any (λ g. equal g f) formats

resolved-is_format :
    (format : Bytes) (getenv : Bytes → Bytes) (f : Bytes)
    → resolve_format format (some getenv) ≡ ok f
    → is_format f ≡ true
unfolding resolve_format
resolved-is_format format getenv f h = elim (Bool-cases (is_format format)) [
  | inl known ↦ ground (arith, equal_refl format_text, equal_refl format_markdown)
  | inr unknown ↦ ground (arith, equal_refl format_text, equal_refl format_markdown)
]

is_format-renders : (f : Bytes) → is_format f ≡ true → (r : Renderer) × (renderer_for f ≡ ok r)
unfolding renderer_for
is_format-renders f h = elim (Result-cases (renderer_for f)) [
  | inl found ↦ found
  | inr (x, e) ↦ absurd (
      ground (
        arith,
        equal_comm format_text f,
        equal_comm format_json f,
        equal_comm format_csv f,
        equal_comm format_markdown f,
        equal_comm format_annotations f,
      ))
]

-- the summary of a log, with the mode of the flag
module _ (t : Tables) (a : Arguments) (f : Bytes) (opts : Options) where
  pub finish-renders :
      (r : Renderer) (x : Option (ScanError ⊥)) (s : Summary)
      → renderer_for f ≡ ok r
      → x ≡ none
      → finish t f opts x s ≡ ok (rendered r opts s)
  unfolding render_summary
  finish-renders r none s e h = rw (e, render_summary) refl
  finish-renders r (some x) s e h = absurd (ground arith)

  counted_summary :
      (r : Renderer) (lines : List Bytes)
      → renderer_for f ≡ ok r
      → all fits lines ≡ true
      → (s : Summary) × (run_summary t a f opts lines ≡ ok (rendered r opts s))
        × (s.malformed + s.total ≡ length (keep is_verdict_line lines))
  unfolding run_summary
  counted_summary r lines e h =
      let (clean, total) = scan_log-counts t new_collector lines h in
      let o = scan_log t collect new_collector lines in
      let s = summary (with_scan a.mode o.progress) in
      (s, finish-renders r o.error s e clean, omega (arith, total))

-- arguments of a summary: nothing behind the flags, a known format and level, and no raw events
pub record IsProper (w : Surroundings) (a : Arguments) (top : ℕ) (f log : Bytes) : Type 0 where
  pub no_rest : a.rest ≡ []
  pub at_top : a.top ≡ pos top
  pub resolved : resolve_format a.format (some w.getenv) ≡ ok f
  pub known_level : any (λ l. equal l a.level) levels ≡ true
  pub not_raw : a.raw ≡ false
  pub readable : read_log w a.log_path ≡ some log

if-false : {A : Type 0} (b : Bool) (x y : A) → b ≡ false → (if b then x else y) ≡ y
if-false b x y h = rw h refl

module _ (t : Tables) (w : Surroundings) (a : Arguments) where
  rest-run : (rest : List Bytes) → rest ≡ [] → run_rest t w a rest ≡ run_top t w a a.top
  unfolding run_rest
  rest-run [] h = refl
  rest-run (x ∷ rest) h = absurd (ground arith)

  top-run :
      (i : ℤ) (top : ℕ) (f : Bytes)
      → i ≡ pos top
      → resolve_format a.format (some w.getenv) ≡ ok f
      → run_top t w a i ≡ run_format t w a top f
  unfolding run_top
  top-run i top f h r = rw (h, r, run_top) refl

  format-run :
      (top : ℕ) (f log : Bytes)
      → any (λ l. equal l a.level) levels ≡ true
      → read_log w a.log_path ≡ some log
      → run_format t w a top f ≡ run_log t a f top (some log)
  unfolding run_format
  format-run top f log k r = rw (k, r, run_format) refl

  -- a proper report is the summary of its log
  pub run_report-IsProper :
      (top : ℕ) (f log : Bytes)
      → IsProper w a top f log
      → run_report t w a
        ≡ run_summary t a f (record { top = top; annotation_level = a.level }) (scan_lines log)
  unfolding run_report run_log
  run_report-IsProper top f log p =
      rest-run a.rest p.no_rest
      ∙ top-run a.top top f p.at_top p.resolved
      ∙ format-run top f log p.known_level p.readable
      ∙ if-false a.raw _ _ p.not_raw

  -- its format has a renderer
  pub IsProper-renders :
      (top : ℕ) (f log : Bytes) → IsProper w a top f log → (r : Renderer) × (renderer_for f ≡ ok r)
  IsProper-renders top f log p =
      is_format-renders f (resolved-is_format a.format w.getenv f p.resolved)

  -- A report that is not raw, with nothing behind the flags, a limit that is not negative, a known
  -- level and a readable log of lines that fit the scanner's buffer, is rendered in the format that
  -- its flag resolves to; its events and its malformed lines are together the verdict lines of the
  -- log.
  pub report-counts :
      (top : ℕ) (f log : Bytes)
      → IsProper w a top f log
      → all fits (scan_lines log) ≡ true
      → (r : Renderer) × (renderer_for f ≡ ok r)
        × (s : Summary) × (run_report t w a
            ≡ ok (rendered r (record { top = top; annotation_level = a.level }) s))
        × (s.malformed + s.total ≡ length (keep is_verdict_line (scan_lines log)))
  report-counts top f log p h =
      let (r, e) = IsProper-renders top f log p in
      let opts : Options = record { top = top; annotation_level = a.level } in
      let (s, made, total) = counted_summary t a f opts r (scan_lines log) e h in
      (r, e, s, run_report-IsProper top f log p ∙ made, total)
