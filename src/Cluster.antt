-- ===== src/Cluster.antt =====
-- platform/deploy/controlplane/cluster: runs that hold a lock and a journal, and retries.
pub mod Coordinator
pub mod Remove
pub mod Retry
mod Tests
