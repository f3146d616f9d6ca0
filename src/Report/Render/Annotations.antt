-- ===== src/Report/Render/Annotations.antt =====
-- internal/report/render_annotations.go
use field_cage.Base.{ℕ, zero, suc, ◌&&◌, List, [], ◌∷◌, ◌++◌, ltb, if◌then◌else◌, length}
use field_cage.Text.Bytes.{Bytes, codes, equal, is_empty}
use field_cage.Text.Number.{decimal}
use field_cage.Report.Summary.{Summary, denied}
use field_cage.Report.Summary.Order.{DestStat, destination}
use field_cage.Report.Render.Escape.{annotation_message, annotation_property}
use field_cage.Report.Render.Format.{Options, resolve_level, mode_label, level_off}
use field_cage.Report.Render.Rows.{process_list}

abbrev pub max_annotations : ℕ
max_annotations = 10

-- a workflow command, without its newline
unfoldable pub command : Bytes → Bytes → Bytes → Bytes
command level title message =
    codes "::"
    ++ (level
        ++ (codes " title="
            ++ (annotation_property title ++ (codes "::" ++ annotation_message message))))

abbrev pub annotation_title : Bytes
annotation_title = codes "field-cage"

unfoldable pub denial_message : DestStat → Bytes
denial_message d =
    codes "denied "
    ++ (destination d
        ++ (codes ":"
            ++ (decimal d.port
                ++ (codes " ("
                    ++ (d.verdict
                        ++ (codes ", "
                            ++ (decimal d.count
                                ++ (codes " attempt(s), process: "
                                    ++ (process_list d ++ codes ")")))))))))

unfoldable pub denial : Bytes → DestStat → Bytes
unfolding command denial_message
denial level d =
    command level (annotation_title ++ codes ": denied outbound connection") (denial_message d)

-- the rows up to the limit, and a notice for the rest; `left` counts down to the limit
unfoldable pub annotate : Bytes → ℕ → List DestStat → List Bytes
unfolding denial
annotate level left [] = []
annotate level zero (d ∷ ds) =
    command (codes "notice") annotation_title (
      decimal (length (d ∷ ds))
      ++ codes " more denied destinations not annotated; see the job summary")
    ∷ []
annotate level (suc left) (d ∷ ds) = denial level d ∷ annotate level left ds

unfoldable pub annotation_limit : ℕ → ℕ
annotation_limit top = if ltb 0 top && ltb top max_annotations then top else max_annotations

abbrev nothing_denied : Summary → Bytes
nothing_denied s = command (codes "notice") annotation_title (
    codes "no denied outbound connections (mode="
    ++ (mode_label s.mode ++ (codes ", events=" ++ (decimal s.total ++ codes ")"))))

-- the lines of `annotationsRenderer.Render`
unfoldable pub annotation_lines : Options → Summary → List Bytes
unfolding annotate annotation_limit
annotation_lines opts s =
    let level = resolve_level opts.annotation_level s.mode in
    if equal level level_off
    then []
    else if is_empty (denied s)
    then nothing_denied s ∷ []
    else annotate level (annotation_limit opts.top) (denied s)
