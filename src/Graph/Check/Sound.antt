-- ===== src/Graph/Check/Sound.antt =====
-- A check that allows proves membership.
pub mod Direct
pub mod Resolve
