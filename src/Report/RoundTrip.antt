-- ===== src/Report/RoundTrip.antt =====
-- `Line.String` of internal/report/verdict.go and `ParseLine` of internal/report/parse.go against
-- each other: the destination in Target, the fields in front of it in Fields, the line in Line; Length
-- bounds it.
pub mod Target
pub mod Fields
pub mod Line
pub mod Length
