-- ===== src/Policy.antt =====
-- internal/policy/policy.go: the policy engine. The types and the constructor are in Build, the
-- decisions in Decide.
pub mod Engine
pub mod Build
pub mod Decide
pub mod Spec
pub mod Refine
pub mod Judge
pub mod Errors
pub mod Wildcards
pub mod Load
pub mod Stored
