-- ===== src/Typesystem.antt =====
-- pkg/typesystem/typesystem.go
pub mod Rewrite
pub mod Model
pub mod Built
pub mod Cycle
pub mod Paths
pub mod Walk
pub mod Involves
pub mod Valid
mod Tests
