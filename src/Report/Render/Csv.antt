-- ===== src/Report/Render/Csv.antt =====
-- internal/report/render_csv.go: the rows that are handed to encoding/csv, which quotes them.
use field_cage.Base.{List, [], ◌∷◌, ◌++◌, map, if◌then◌else◌, Bool, true, false}
use field_cage.Text.Bytes.{Bytes, codes}
use field_cage.Text.Number.{decimal}
use field_cage.Report.Parse
use field_cage.Report.Parse.{Event, ip_string}
use field_cage.Report.Summary.{Summary}
use field_cage.Report.Summary.Order.{DestStat, destination}
use field_cage.Report.Render.Escape.{csv_formula_guard}
use field_cage.Report.Render.Format.{Options}
use field_cage.Report.Render.Rows.{limit_rows, list_processes}

abbrev pub csv_header : List Bytes
csv_header =
    codes "verdict"
    ∷ codes "destination"
    ∷ codes "domain"
    ∷ codes "ip"
    ∷ codes "port"
    ∷ codes "count"
    ∷ codes "processes"
    ∷ []

abbrev pub csv_raw_header : List Bytes
csv_raw_header =
    codes "verdict"
    ∷ codes "pid"
    ∷ codes "tgid"
    ∷ codes "comm"
    ∷ codes "destination"
    ∷ codes "domain"
    ∷ codes "ip"
    ∷ codes "port"
    ∷ []

unfoldable pub csv_row : DestStat → List Bytes
csv_row d =
    d.verdict
    ∷ csv_formula_guard (destination d)
    ∷ csv_formula_guard d.domain
    ∷ d.ip
    ∷ decimal d.port
    ∷ decimal d.count
    ∷ csv_formula_guard (list_processes (codes ";") d)
    ∷ []

-- `csvRenderer.Render`
unfoldable pub csv_rows : Options → Summary → List (List Bytes)
unfolding csv_row
csv_rows opts s = csv_header ∷ map csv_row (limit_rows s.destinations opts.top).shown

unfoldable pub csv_raw_row : Event → List Bytes
csv_raw_row ev =
    ev.verdict
    ∷ decimal ev.pid
    ∷ decimal ev.tgid
    ∷ csv_formula_guard ev.comm
    ∷ csv_formula_guard (Parse.destination ev)
    ∷ csv_formula_guard ev.domain
    ∷ ip_string ev.ip
    ∷ decimal ev.port
    ∷ []

-- `rawCSV`: whether the header is written, and the rows so far
pub record RawCsv : Type 0 where
  pub header : Bool
  pub rows : List (List Bytes)

abbrev pub new_raw_csv : RawCsv
new_raw_csv = record { header = false; rows = [] }

unfoldable pub with_header : RawCsv → RawCsv
with_header r =
    if r.header then r else record { header = true; rows = r.rows ++ csv_raw_header ∷ [] }

unfoldable pub write_event : RawCsv → Event → RawCsv
unfolding with_header csv_raw_row
write_event r ev = let q = with_header r in record q { rows = q.rows ++ csv_raw_row ev ∷ [] }

unfoldable pub close_raw : RawCsv → RawCsv
unfolding with_header
close_raw r = with_header r
