-- ===== src/Planner.antt =====
-- platform/planner/engine: the actions of a plan, the triggers that a provider supports, and the
-- difference between what is desired and what is deployed.
pub mod Actions
pub mod Config
pub mod Capabilities
pub mod Build
pub mod Diff
mod Tests
