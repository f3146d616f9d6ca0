-- ===== src/Net.antt =====
-- The package net of Go's standard library, as far as the program calls it.
pub mod Ip
pub mod Parse
pub mod Cidr
pub mod HostPort
pub mod Dotted
pub mod Texts
