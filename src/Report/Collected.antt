-- ===== src/Report/Collected.antt =====
-- What a scan of a log collects.
use field_cage.Base.{
  ℕ, ◌+◌, Bool, true, List, [], ◌∷◌, none, ltb, if◌then◌else◌, length, all, ◌≡◌, refl, arith,
  Option-cases, Bool-cases, Result-cases, inl, inr, Result, ok, err, keep,
}
use field_cage.Text.Bytes.{Bytes, has_prefix}
use field_cage.Text.Case.{Tables}
use field_cage.Report.Parse.{Event, parse_line, parse_mode_line, prefix_verdict, scan_buffer_max}
use field_cage.Report.Scan.{Progress, scan_line, scan_from, scan_log}
use field_cage.Report.Summary.Collect.{Collector, add}

-- the callback of a report
abbrev pub collect : Collector → Event → Result ⊥ Collector
collect c ev = ok (add c ev)

abbrev pub is_verdict_line : Bytes → Bool
is_verdict_line line = has_prefix line prefix_verdict

abbrev counted : Progress Collector → ℕ
counted p = p.malformed + p.state.total

-- a line that begins like a verdict is an event or is malformed
abbrev Counts : Progress Collector → Bytes → Result ⊥ (Progress Collector) → Type 0
Counts p line (err e) = ⊥
Counts p line (ok q) = counted q ≡ counted p + (if is_verdict_line line then 1 else 0)

scan_line-Counts :
    (t : Tables) (p : Progress Collector) (line : Bytes)
    → Counts p line (scan_line t collect p line)
unfolding scan_line add
scan_line-Counts t p line = elim (Bool-cases (is_verdict_line line)) [
  | inl a ↦ elim (Result-cases (parse_line t line)) [
    | inl (ev, q) ↦ rw (a, q, scan_line) (rw a (omega arith))
    | inr (x, q) ↦ rw (a, q, scan_line) (rw a (omega arith))
  ]
  | inr a ↦ elim (Option-cases (parse_mode_line t line)) [
    | inl q ↦ rw (a, q, scan_line) (rw a (omega arith))
    | inr (m, q) ↦ rw (a, q, scan_line) (rw a (ground arith))
  ]
]

-- the lines that fit the buffer of the scanner
abbrev pub fits : Bytes → Bool
fits line = ltb (length line) scan_buffer_max

scan_from-counts :
    (t : Tables) (lines : List Bytes) (p : Progress Collector)
    → all fits lines ≡ true
    → ((scan_from t collect p lines).error ≡ none)
      × (counted (scan_from t collect p lines).progress
          ≡ counted p + length (keep is_verdict_line lines))
unfolding scan_from
scan_from-counts t [] p h = (refl, omega arith)
scan_from-counts t (line ∷ lines) p h =
    let fit : fits line ≡ true = ground arith in
    elim (Result-cases (scan_line t collect p line)) [
      | inr (e, q) ↦ absurd (e)
      | inl (p', q) ↦
          let (clean, total) = scan_from-counts t lines p' (ground arith) in
          let step = rw q at (scan_line-Counts t p line) in
          (rw (fit, q, scan_from) clean, rw (fit, q, scan_from) (ground (arith, total, step)))
    ]

-- A scan of lines that fit the scanner's buffer ends without an error, and each line that begins like
-- a verdict is collected as an event or counted as malformed.
pub scan_log-counts :
    (t : Tables) (c : Collector) (lines : List Bytes)
    → all fits lines ≡ true
    → ((scan_log t collect c lines).error ≡ none)
      × ((scan_log t collect c lines).progress.malformed
            + (scan_log t collect c lines).progress.state.total
          ≡ c.total + length (keep is_verdict_line lines))
unfolding scan_log
scan_log-counts t c lines h =
    let start : Progress Collector = record { mode = []; malformed = 0; state = c } in
    let (clean, total) = scan_from-counts t lines start h in (clean, omega (arith, total))
