-- ===== src/Report/Render/Format.antt =====
-- The formats and levels of internal/report/render.go.
use field_cage.Base.{
  ℕ, Bool, false, ◌||◌, List, [], ◌∷◌, Option, none, some, if◌then◌else◌, any, Result, ok, err,
}
use field_cage.Text.Bytes.{Bytes, codes, equal, is_empty, has_prefix}

abbrev pub format_auto : Bytes
format_auto = codes "auto"

abbrev pub format_text : Bytes
format_text = codes "text"

abbrev pub format_json : Bytes
format_json = codes "json"

abbrev pub format_csv : Bytes
format_csv = codes "csv"

abbrev pub format_markdown : Bytes
format_markdown = codes "markdown"

abbrev pub format_annotations : Bytes
format_annotations = codes "annotations"

abbrev pub level_auto : Bytes
level_auto = codes "auto"

abbrev pub level_off : Bytes
level_off = codes "off"

abbrev pub level_notice : Bytes
level_notice = codes "notice"

abbrev pub level_warning : Bytes
level_warning = codes "warning"

abbrev pub level_error : Bytes
level_error = codes "error"

-- `Options`
pub record Options : Type 0 where
  pub top : ℕ
  pub annotation_level : Bytes

pub data FormatError : Type 0 where
  unknown_format raw_not_supported : Bytes → FormatError

abbrev pub formats : List Bytes
formats = format_text ∷ format_json ∷ format_csv ∷ format_markdown ∷ format_annotations ∷ []

abbrev on_actions : Option (Bytes → Bytes) → Bool
on_actions none = false
on_actions (some getenv) = equal (getenv (codes "GITHUB_ACTIONS")) (codes "true")

-- `ResolveFormat`; the environment may be nil
unfoldable pub resolve_format : Bytes → Option (Bytes → Bytes) → Result FormatError Bytes
resolve_format format getenv =
    if is_empty format || equal format format_auto
    then (if on_actions getenv then ok format_markdown else ok format_text)
    else if any (λ f. equal f format) formats
    then ok format
    else err (unknown_format format)

pub data Renderer : Type 0 where
  text json csv markdown annotations : Renderer

-- `RendererFor`, which hands the options to the renderer
unfoldable pub renderer_for : Bytes → Result FormatError Renderer
renderer_for format =
    if equal format format_text
    then ok text
    else if equal format format_json
    then ok json
    else if equal format format_csv
    then ok csv
    else if equal format format_markdown
    then ok markdown
    else if equal format format_annotations
    then ok annotations
    else err (unknown_format format)

-- `RawRendererFor`
unfoldable pub raw_renderer_for : Bytes → Result FormatError Renderer
raw_renderer_for format =
    if equal format format_text
    then ok text
    else if equal format format_json
    then ok json
    else if equal format format_csv
    then ok csv
    else if equal format format_markdown || equal format format_annotations
    then err (raw_not_supported format)
    else err (unknown_format format)

-- `resolveLevel`
unfoldable pub resolve_level : Bytes → Bytes → Bytes
resolve_level level mode =
    if is_empty level || equal level level_auto
    then (if has_prefix mode (codes "block") then level_warning else level_notice)
    else level

-- `modeLabel`
unfoldable pub mode_label : Bytes → Bytes
mode_label mode = if is_empty mode then codes "unknown" else mode
