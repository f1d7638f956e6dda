-- ===== src/Lease/Laws.antt =====
-- internal/lease/lease.go: after a release no renewal happens, and the release happens once.
