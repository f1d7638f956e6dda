-- ===== src/Deploy.antt =====
-- platform/deploy/exec: the phases of a deployment, tracked in its journal.
pub mod Engine
pub mod Universal
mod Tests
