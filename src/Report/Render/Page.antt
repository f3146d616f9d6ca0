-- ===== src/Report/Render/Page.antt =====
-- `markdownRenderer.Render` of internal/report/render_markdown.go.
use field_cage.Base.{ℕ, ◌-◌, List, [], ◌∷◌, ◌++◌, ltb, ◌==◌, if◌then◌else◌, flatten, map, length}
use field_cage.Text.Bytes.{Bytes, codes, replace_byte}
use field_cage.Text.Number.{decimal}
use field_cage.Report.Verdict.{Verdict}
use field_cage.Report.Summary.{
  Summary, denied, allowed, skipped, denied_events, allowed_events, skipped_events, verdict_counts,
}
use field_cage.Report.Summary.Order.{DestStat}
use field_cage.Report.Render.Escape.{markdown_escape}
use field_cage.Report.Render.Format.{Options, mode_label}
use field_cage.Report.Render.Markdown.{
  seedling, clover, chart, warning, check, forbidden, next_track, question, clipboard, mode_emoji,
  verdict_emoji, code, write_table, write_details,
}

unfoldable pub page_head : Summary → Bytes
page_head s = flatten (
    codes "## "
    ∷ seedling
    ∷ codes " field-cage report "
    ∷ clover
    ∷ codes "\n\n"
    ∷ mode_emoji s.mode
    ∷ codes " **mode:** "
    ∷ code (markdown_escape (mode_label s.mode))
    ∷ codes " &middot; "
    ∷ chart
    ∷ codes " **events:** "
    ∷ decimal s.total
    ∷ (if ltb 0 s.malformed
        then codes " &middot; "
          ++ (warning ++ (codes " **unparsable log lines:** " ++ decimal s.malformed))
        else [])
    ∷ codes "\n\n"
    ∷ [])

-- the events of verdicts that no group holds
unfoldable pub unknown_events : Summary → ℕ
unknown_events s = s.total - allowed_events s - denied_events s - skipped_events s

abbrev unknown_part : ℕ → Bytes
unknown_part n =
    if ltb 0 n
    then codes " &nbsp;&middot;&nbsp; "
      ++ (question ++ (codes " **" ++ (decimal n ++ codes "** unknown")))
    else []

unfoldable pub totals_line : Summary → Bytes
unfolding unknown_events
totals_line s = flatten (
    check
    ∷ codes " **"
    ∷ decimal (allowed_events s)
    ∷ codes "** allowed &nbsp;&middot;&nbsp; "
    ∷ forbidden
    ∷ codes " **"
    ∷ decimal (denied_events s)
    ∷ codes "** denied &nbsp;&middot;&nbsp; "
    ∷ next_track
    ∷ codes " **"
    ∷ decimal (skipped_events s)
    ∷ codes "** skipped"
    ∷ unknown_part (unknown_events s)
    ∷ codes "\n\n"
    ∷ [])

unfoldable pub tally_row : Verdict × ℕ → Bytes
tally_row p = flatten (
    codes "| "
    ∷ verdict_emoji p.0
    ∷ codes " "
    ∷ code (markdown_escape p.0)
    ∷ codes " | "
    ∷ decimal p.1
    ∷ codes " |\n"
    ∷ [])

abbrev denied_part : ℕ → List DestStat → Bytes
denied_part top [] = []
denied_part top (d ∷ ds) = flatten (
    codes "### "
    ∷ forbidden
    ∷ codes " Denied destinations ("
    ∷ decimal (length (d ∷ ds))
    ∷ codes ")\n\n"
    ∷ write_table top (d ∷ ds)
    ∷ [])

abbrev counted : Bytes → List DestStat → Bytes
counted label rows = label ++ (codes " (" ++ (decimal (length rows) ++ codes ")"))

-- a quote is doubled, as YAML wants it
unfoldable pub allowlist_entry : Bytes → Bytes
allowlist_entry d = codes "  - '" ++ (replace_byte b'\'' (codes "''") d ++ codes "'\n")

abbrev allowlist_part : List Bytes → Bytes
allowlist_part [] = []
allowlist_part (d ∷ ds) = flatten (
    codes "<details>\n<summary>"
    ∷ clipboard
    ∷ codes " Suggested allowlist (review before use)</summary>\n\n```yaml\nallowlist:\n"
    ∷ flatten (map allowlist_entry (d ∷ ds))
    ∷ codes "```\n\n</details>\n"
    ∷ [])

-- `markdownRenderer.Render`
unfoldable pub markdown_report : Options → Summary → Bytes
unfolding page_head totals_line tally_row allowlist_entry
markdown_report opts s =
    if s.total == 0
    then page_head s ++ (check ++ codes " No connection events were captured.\n")
    else flatten (
        page_head s
        ∷ totals_line s
        ∷ codes "| verdict | count |\n| --- | --: |\n"
        ∷ flatten (map tally_row (verdict_counts s))
        ∷ codes "\n"
        ∷ denied_part opts.top (denied s)
        ∷ write_details opts.top (counted (check ++ codes " Allowed destinations") (allowed s))
            (allowed s)
        ∷ write_details opts.top
            (counted (next_track ++ codes " Skipped: DNS, loopback, and the agent's own traffic")
              (skipped s))
            (skipped s)
        ∷ allowlist_part s.suggested_allowlist
        ∷ [])
