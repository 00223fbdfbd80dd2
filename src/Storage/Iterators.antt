-- ===== src/Storage/Iterators.antt =====
-- pkg/storage/tuple_iterators.go: iterators over a static list. `Next` returns an item, the error
-- ErrIteratorDone or another error, and the iterator that is left.
pub mod Defs
pub mod Drain
pub mod Ordered
pub mod Merge
mod Tests
