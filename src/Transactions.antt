-- ===== src/Transactions.antt =====
-- platform/core/state/transactions: the deploy journal, its file backend and its rollback.
pub mod Types
pub mod Backend
pub mod FileBackend
pub mod Journal
pub mod Rollback
mod Tests
