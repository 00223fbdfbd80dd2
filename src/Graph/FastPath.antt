-- ===== src/Graph/FastPath.antt =====
-- internal/graph/check_fast_path.go and internal/iterator/stream.go: children of this module.
pub mod Stream
pub mod Merge
pub mod Loops
pub mod DifferenceLoop
pub mod Good
pub mod Heads
pub mod Positions
pub mod Deliver
pub mod Advance
pub mod Union
pub mod Skip
pub mod Same
pub mod Intersection
pub mod AfterLoop
pub mod Minus
pub mod Difference
pub mod Rewrite
pub mod Yields
pub mod Direct
pub mod Exact
pub mod Computed
pub mod Consume
pub mod Common
mod Tests
