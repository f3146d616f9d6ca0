-- ===== src/Ebpf.antt =====
-- internal/ebpf: the enforcement maps and the kernel programs that read them, the connection events,
-- the DNS cache and its watcher, and the resources of the watcher.
pub mod Maps
pub mod Kernel
pub mod Watcher
pub mod Resolvers
pub mod Event
pub mod Cache
pub mod Dns
pub mod Answers
pub mod Cached
pub mod Permits
pub mod Trust
pub mod Seeded
pub mod Distinct
pub mod Shape
pub mod Wire
pub mod Mapped
pub mod Resources
pub mod Replay
pub mod Balance
pub mod Permits6
