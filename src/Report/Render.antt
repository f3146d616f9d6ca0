-- ===== src/Report/Render.antt =====
-- internal/report/render.go and the renderers.
pub mod Format
pub mod Escape
pub mod Rows
pub mod Csv
pub mod Json
pub mod Annotations
pub mod Limits
pub mod OneLine
pub mod Text
pub mod Markdown
pub mod Page
pub mod Tally
pub mod Guarded
pub mod Harmless
