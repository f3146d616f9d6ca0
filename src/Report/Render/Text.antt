-- ===== src/Report/Render/Text.antt =====
-- internal/report/render_text.go; the alignment of text/tabwriter is the parameter `align`.
use field_cage.Base.{ℕ, List, [], ◌∷◌, ◌++◌, ltb, ◌==◌, if◌then◌else◌, flatten, map}
use field_cage.Text.Bytes.{Bytes, codes, equal, join}
use field_cage.Text.Number.{decimal}
use field_cage.Report.Verdict.{Verdict}
use field_cage.Report.Parse
use field_cage.Report.Parse.{Event, ip_string}
use field_cage.Report.Summary.{Summary, verdict_counts}
use field_cage.Report.Summary.Order.{DestStat, destination}
use field_cage.Report.Render.Format.{Options, mode_label}
use field_cage.Report.Render.Rows.{limit_rows, process_list}

-- a line of cells
abbrev pub cells : List Bytes → Bytes
cells cs = join cs (codes "\t") ++ codes "\n"

abbrev headline : Summary → Bytes
headline s = flatten (
    codes "field-cage report  mode="
    ∷ mode_label s.mode
    ∷ codes "  events="
    ∷ decimal s.total
    ∷ (if ltb 0 s.malformed then codes "  malformed-lines=" ++ decimal s.malformed else [])
    ∷ codes "\n"
    ∷ [])

unfoldable pub count_line : Verdict × ℕ → Bytes
count_line p = cells (p.0 ∷ decimal p.1 ∷ [])

unfoldable pub row_line : DestStat → Bytes
row_line d = cells (
    decimal d.count
    ∷ d.verdict
    ∷ destination d
    ∷ (if equal d.ip (destination d) then codes "-" else d.ip)
    ∷ decimal d.port
    ∷ process_list d
    ∷ [])

abbrev omitted_line : ℕ → Bytes
omitted_line n =
    if ltb 0 n
    then codes "... " ++ (decimal n ++ codes " more destinations omitted (raise --top)\n")
    else []

abbrev allowlist_lines : List Bytes → Bytes
allowlist_lines [] = []
allowlist_lines (d ∷ ds) =
    codes "\nSUGGESTED ALLOWLIST (review before use)\n"
    ++ flatten (map (λ name. codes "  " ++ (name ++ codes "\n")) (d ∷ ds))

-- `textRenderer.Render`
unfoldable pub text_report : (Bytes → Bytes) → Options → Summary → Bytes
unfolding count_line row_line
text_report align opts s =
    let limited = limit_rows s.destinations opts.top in
    if s.total == 0
    then headline s ++ codes "\nno connection events captured\n"
    else flatten (
        headline s
        ∷ align (flatten (codes "\nVERDICT\tCOUNT\n" ∷ map count_line (verdict_counts s)))
        ∷ align (
            flatten (
              codes "\nCOUNT\tVERDICT\tDESTINATION\tIP\tPORT\tPROCESSES\n"
              ∷ map row_line limited.shown))
        ∷ omitted_line limited.omitted
        ∷ allowlist_lines s.suggested_allowlist
        ∷ [])

-- `newRawText`
abbrev pub text_raw_header : Bytes
text_raw_header = cells (
    codes "VERDICT"
    ∷ codes "PID"
    ∷ codes "TGID"
    ∷ codes "COMM"
    ∷ codes "DESTINATION"
    ∷ codes "IP"
    ∷ codes "PORT"
    ∷ [])

-- `rawText.WriteEvent`
unfoldable pub text_raw_line : Event → Bytes
text_raw_line ev = cells (
    ev.verdict
    ∷ decimal ev.pid
    ∷ decimal ev.tgid
    ∷ ev.comm
    ∷ Parse.destination ev
    ∷ ip_string ev.ip
    ∷ decimal ev.port
    ∷ [])
