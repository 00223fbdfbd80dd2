-- ===== src/Memory.antt =====
-- pkg/storage/memory/memory.go
pub mod State
pub mod Match
pub mod Write
pub mod Invariant
pub mod Changelog
pub mod Read
pub mod Pages
pub mod Usersets
pub mod Selected
pub mod Starting
pub mod Models
mod Tests
