-- ===== src/Registry/Audit.antt =====
-- apps/registry/internal/store/store.go: recordAuditJSON and listAuditJSON. No entry and a nil list are the
-- same list.
pub mod Laws
use runfabric.Prelude.{
  ℕ, zero, suc, ◌-◌, Option, List, [], ◌∷◌, ◌++◌, ◌||◌, if◌then◌else◌, ltb, ◌==◌, length, drop,
}
use runfabric.Prelude.Int.{ℤ, pos, negsuc}
use runfabric.Errors.{Error}
use runfabric.Registry.{AuditEvent}
use runfabric.Registry.Publish.{World, Store, save_locked}

abbrev pub max_events : ℕ
max_events = 5000

unfoldable pub trimmed_log : List AuditEvent → List AuditEvent
trimmed_log log = if ltb max_events (length log) then drop (length log - max_events) log else log

unfoldable pub record_audit : World → AuditEvent → Store → Option Error × Store
record_audit w e st =
    save_locked w
      (record st { db = record st.db { audit_log = trimmed_log (st.db.audit_log ++ e ∷ []) } })

unfoldable pub listed_events : ℤ → ℕ
listed_events (pos n) = if n == 0 || ltb 500 n then 100 else n
listed_events (negsuc n) = 100

-- Subtraction stops at 0, as `start` does.
unfoldable pub list_audit : ℤ → Store → List AuditEvent
list_audit limit st = drop (length st.db.audit_log - listed_events limit) st.db.audit_log
