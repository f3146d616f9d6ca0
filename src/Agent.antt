-- ===== src/Agent.antt =====
-- cmd/agent: the effective mode, the verdict of an event, and the seeding of the allowlist.
pub mod Mode
pub mod Exempt
pub mod Seed
pub mod Loop
pub mod Enforce
pub mod Agree
pub mod Effective
pub mod Judged
pub mod Command
pub mod Reported
pub mod Reach
pub mod Enforce6
pub mod Start
pub mod Enforced
pub mod Started
pub mod Steps
pub mod Check
pub mod Grounds
pub mod Permitted
pub mod Permitted6
pub mod Readback
pub mod Listed
pub mod Relay
pub mod Lookups
pub mod Delivered
pub mod Main
pub mod Unopened
pub mod Complete
pub mod Opened
pub mod Heard
pub mod Lasting
