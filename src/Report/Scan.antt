-- ===== src/Report/Scan.antt =====
-- `ScanLog` of internal/report/parse.go, over the lines that bufio.Scanner yields. The callback is a
-- function on a state, which may fail.
pub mod Lines
use field_cage.Base.{
  ℕ, ◌+◌, List, [], ◌∷◌, Option, none, some, ltb, if◌then◌else◌, length, Result, ok, err, map,
}
use field_cage.Text.Bytes.{Bytes, is_empty, has_prefix, split, codes, trim_suffix}
use field_cage.Text.Case.{Tables}
use field_cage.Report.Parse.{
  Event, ParseError, parse_line, parse_mode_line, prefix_verdict, scan_buffer_max,
}

-- What ends a scan early: the callback's error, or a line that does not fit the buffer.
pub data ScanError (E : Type 0) : Type 0 where
  callback : E → ScanError E
  line_too_long : ScanError E

-- `mode`, `malformed` and the state of the callback
pub record Progress (S : Type 0) : Type 0 where
  pub mode : Bytes
  pub malformed : ℕ
  pub state : S

pub record Outcome (E S : Type 0) : Type 0 where
  pub progress : Progress S
  pub error : Option (ScanError E)

module _ {E S : Type 0} (t : Tables) (fn : S → Event → Result E S) where
  abbrev after_event : Progress S → Result E S → Result E (Progress S)
  after_event p (ok s) = ok (record p { state = s })
  after_event p (err e) = err e

  abbrev on_parsed : Progress S → Result ParseError Event → Result E (Progress S)
  on_parsed p (err x) = ok (record p { malformed = p.malformed + 1 })
  on_parsed p (ok ev) = after_event p (fn p.state ev)

  abbrev on_mode : Progress S → Option Bytes → Progress S
  on_mode p none = p
  on_mode p (some m) = if is_empty p.mode then record p { mode = m } else p

  -- one round of the loop
  unfoldable pub scan_line : Progress S → Bytes → Result E (Progress S)
  scan_line p line =
      if has_prefix line prefix_verdict
      then on_parsed p (parse_line t line)
      else ok (on_mode p (parse_mode_line t line))

  abbrev pub outcome : Progress S → Option (ScanError E) → Outcome E S
  outcome p e = record { progress = p; error = e }

  unfoldable pub scan_from : Progress S → List Bytes → Outcome E S
  unfolding scan_line
  scan_from p [] = outcome p none
  scan_from p (line ∷ lines) =
      let next : Outcome E S = elim (scan_line p line) [
        | ok q ↦ scan_from q lines
        | err e ↦ outcome p (some (callback e))
      ] in
      if ltb (length line) scan_buffer_max then next else outcome p (some line_too_long)

  -- `ScanLog`, from the first state of the callback
  unfoldable pub scan_log : S → List Bytes → Outcome E S
  unfolding scan_from
  scan_log s lines = scan_from (record { mode = []; malformed = 0; state = s }) lines

-- bufio.ScanLines: the last line may lack its newline, and an empty last one is none
drop_last_empty : List Bytes → List Bytes
drop_last_empty [] = []
drop_last_empty (l ∷ []) = if is_empty l then [] else l ∷ []
drop_last_empty (l ∷ m ∷ ls) = l ∷ drop_last_empty (m ∷ ls)

-- One carriage return at the end of a line is taken off, if the line with it fits the buffer: a
-- longer line ends the scan before that.
drop_return : Bytes → Bytes
drop_return s = if ltb (length s) scan_buffer_max then trim_suffix s (codes "\r") else s

unfoldable pub scan_lines : Bytes → List Bytes
unfolding drop_last_empty drop_return
scan_lines log = map drop_return (drop_last_empty (split log b'\n'))
