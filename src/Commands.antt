-- ===== src/Commands.antt =====
-- pkg/server/commands
pub mod Write
mod Tests
