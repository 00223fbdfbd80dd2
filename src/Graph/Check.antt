-- ===== src/Graph/Check.antt =====
-- internal/graph/check.go: LocalChecker, which resolves a Check.
pub mod Env
pub mod Direct
pub mod Resolve
pub mod Member
pub mod Arrival
pub mod Proper
pub mod Complete
pub mod Instance
pub mod Reads
pub mod Sound
pub mod Agree
pub mod Fuel
mod Tests
