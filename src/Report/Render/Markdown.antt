-- ===== src/Report/Render/Markdown.antt =====
-- internal/report/render_markdown.go
use field_cage.Base.{ℕ, List, [], ◌∷◌, ◌++◌, ltb, if◌then◌else◌, flatten, map}
use field_cage.Text.Bytes.{Bytes, codes, equal, is_empty, has_prefix}
use field_cage.Text.Utf8.{encode_rune}
use field_cage.Text.Number.{decimal}
use field_cage.Report.Verdict.{Verdict, is_deny, is_allow, is_skip}
use field_cage.Report.Summary.Order.{DestStat, destination}
use field_cage.Report.Render.Escape.{markdown_escape}
use field_cage.Report.Render.Rows.{limit_rows, process_list}

-- the bytes of some runes
abbrev pub glyph : List ℕ → Bytes
glyph rs = flatten (map encode_rune rs)

abbrev pub seedling : Bytes
seedling = glyph (0x1F331 ∷ [])

abbrev pub clover : Bytes
clover = glyph (0x1F340 ∷ [])

abbrev pub chart : Bytes
chart = glyph (0x1F4CA ∷ [])

abbrev pub warning : Bytes
warning = glyph (0x26A0 ∷ 0xFE0F ∷ [])

abbrev pub check : Bytes
check = glyph (0x2705 ∷ [])

abbrev pub forbidden : Bytes
forbidden = glyph (0x1F6AB ∷ [])

abbrev pub next_track : Bytes
next_track = glyph (0x23ED ∷ 0xFE0F ∷ [])

abbrev pub question : Bytes
question = glyph (0x2753 ∷ [])

abbrev pub clipboard : Bytes
clipboard = glyph (0x1F4CB ∷ [])

-- `modeEmoji`
unfoldable pub mode_emoji : Bytes → Bytes
mode_emoji mode =
    if is_empty mode
    then question
    else if has_prefix mode (codes "block")
    then glyph (0x1F512 ∷ [])
    else glyph (0x1F50D ∷ [])

-- `verdictEmoji`
unfoldable pub verdict_emoji : Verdict → Bytes
verdict_emoji v =
    if is_deny v
    then forbidden
    else if is_allow v
    then check
    else if is_skip v
    then next_track
    else question

-- a code span
abbrev pub code : Bytes → Bytes
code s = codes "`" ++ (s ++ codes "`")

abbrev address_cell : DestStat → Bytes
address_cell d = if equal d.ip (destination d) then codes "&mdash;" else code (markdown_escape d.ip)

unfoldable pub table_row : DestStat → Bytes
table_row d = flatten (
    codes "| "
    ∷ code (markdown_escape (destination d))
    ∷ codes " | "
    ∷ address_cell d
    ∷ codes " | "
    ∷ decimal d.port
    ∷ codes " | "
    ∷ decimal d.count
    ∷ codes " | "
    ∷ code (markdown_escape (process_list d))
    ∷ codes " |\n"
    ∷ [])

abbrev omitted_note : ℕ → Bytes
omitted_note n =
    if ltb 0 n
    then codes "\n_" ++ (decimal n ++ codes " more destinations omitted (raise `--top`)._\n")
    else []

-- `writeTable`
unfoldable pub write_table : ℕ → List DestStat → Bytes
unfolding table_row
write_table top rows =
    let limited = limit_rows rows top in
    codes "| destination | ip | port | count | processes |\n| --- | --- | --: | --: | --- |\n"
    ++ (flatten (map table_row limited.shown) ++ (omitted_note limited.omitted ++ codes "\n"))

-- `writeDetails`
unfoldable pub write_details : ℕ → Bytes → List DestStat → Bytes
unfolding write_table
write_details top summary [] = []
write_details top summary (d ∷ ds) = flatten (
    codes "<details>\n<summary>"
    ∷ markdown_escape summary
    ∷ codes "</summary>\n\n"
    ∷ write_table top (d ∷ ds)
    ∷ codes "</details>\n\n"
    ∷ [])
