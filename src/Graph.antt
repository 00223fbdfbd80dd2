-- ===== src/Graph.antt =====
-- internal/graph: the evaluation of Check.
pub mod Outcome
pub mod Reduce
pub mod Decide
pub mod Check
pub mod FastPath
mod Tests
