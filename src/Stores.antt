-- ===== src/Stores.antt =====
-- The small stores of web/src/stores.
pub mod Stats
pub mod Bookmarks
pub mod Perf
