-- ===== src/Tests/Witnesses.antt =====
-- Instances of the theorems on concrete data.
mod Policies
mod Enforcement
mod Watching
mod Reports
mod Running
mod Reading
mod Lookups
mod Lasting
