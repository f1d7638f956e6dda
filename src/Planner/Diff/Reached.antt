-- ===== src/Planner/Diff/Reached.antt =====
-- platform/planner/engine/diff.go: carrying out the whole plan.
