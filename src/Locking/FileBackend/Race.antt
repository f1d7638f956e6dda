-- ===== src/Locking/FileBackend/Race.antt =====
-- platform/state/locking/file_backend.go: two processes that find the same expired lock. The second
-- has read the record before the first removed it, and goes on afterwards.
use runfabric.Prelude.{
  ℕ, String, ◌≡◌, refl, true, false, Option, none, some, arith, lookup, remove, lookup-remove,
  text_eq_refl,
}
use runfabric.Errors.{ok}
use runfabric.Locking.Handle.{Handle}
use runfabric.Locking.FileBackend.{
  LockDir, LockRecord, lock_path, read, is_expired, clear_expired, remove_lock, create_exclusive,
  take_lock, new_record, handle_for, acquire,
}
use runfabric.Locking.FileBackend.Exclusion.{read-acquire}

clear_expired-expired :
    (seen : ℕ) (path : String) (r : LockRecord) (d : LockDir)
    → is_expired seen r.expires_at ≡ true
    → d.remove_fails ≡ false
    → clear_expired seen path (ok r) d ≡ ok (record d { files = remove path d.files })
unfolding clear_expired remove_lock
clear_expired-expired seen path r d e f = ground arith

take_lock-free :
    (now clock pid : ℕ) (service stage token operation : String) (stale_after : ℕ) (d : LockDir)
    → lookup (lock_path service stage) d.files ≡ none
    → d.open_fails ≡ false
    → d.encode_fails ≡ false
    → (take_lock now clock (some token) pid service stage operation stale_after d).0
      ≡ ok (handle_for clock service stage token)
unfolding take_lock create_exclusive
take_lock-free now clock pid service stage token operation stale_after d free op en = ground arith

-- Two processes read the same expired lock. If the first then acquires it, and no system call fails
-- for the second, the second removes the fresh lock of the first and gets the lock too, while
-- the record of the first was in its file with its full lease.
pub expired_lock_has_two_holders :
    (seen now clock pid seen' now' clock' pid' : ℕ) (token : Option String)
    (token' service stage operation operation' : String) (stale_after stale_after' : ℕ)
    (d : LockDir) (r : LockRecord) (h : Handle LockDir)
    → read service stage d ≡ ok r
    → is_expired seen' r.expires_at ≡ true
    → d.read_fails ≡ false
    → let first = acquire seen now clock token pid service stage operation stale_after d in
      first.0 ≡ ok h
      → first.1.remove_fails ≡ false
      → first.1.open_fails ≡ false
      → first.1.encode_fails ≡ false
      → ((t : String) × (token ≡ some t)
          × (read service stage first.1
              ≡ ok (new_record service stage operation t pid now stale_after)))
        × (d' : LockDir) × (clear_expired seen'
              (lock_path service stage)
              (read service stage d)
              first.1
            ≡ ok d')
        × ((take_lock now' clock' (some token') pid' service stage operation' stale_after' d').0
            ≡ ok (handle_for clock' service stage token'))
expired_lock_has_two_holders seen now clock pid seen' now' clock' pid' token token' service stage
      operation operation' stale_after stale_after' d r h found old f e rm op en =
    let p = lock_path service stage in
    let d1 = (acquire seen now clock token pid service stage operation stale_after d).1 in
    (
      read-acquire now clock pid service stage operation stale_after seen token d h f e,
      record d1 { files = remove p d1.files },
      rw found (clear_expired-expired seen' p r d1 old rm),
      take_lock-free now' clock' pid' service stage token' operation' stale_after' _
          (rw lookup-remove (rw (text_eq_refl p) refl)) op en,
    )
