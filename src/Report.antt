-- ===== src/Report.antt =====
-- internal/report: the verdict of a connection and its log line, the parser that reads the log back,
-- the summary, and the renderers.
pub mod Verdict
pub mod Parse
pub mod Scan
pub mod Summary
pub mod Render
pub mod Collected
pub mod Clean
pub mod RoundTrip
