-- ===== src/Locking.antt =====
-- internal/state/types/types.go (lock records and handles) and platform/state/locking.
pub mod Handle
pub mod FileBackend
pub mod FileLock
mod Tests
