-- ===== src/Notify.antt =====
-- internal/notify: the coalescing of notifications.
pub mod Coalescer
pub mod Buckets
mod Tests
