-- ===== src/Locking/FileBackend/Exclusion.antt =====
-- platform/state/locking/file_backend.go: who holds a lease excludes all others.
use runfabric.Prelude.{
  ℕ, ◌+◌, ◌≤◌, String, ◌≡◌, ◌≢◌, refl, ap, ◌∙◌, inl, inr, Bool, true, false, Option, some, arith,
  lookup, text_eq_refl, if◌then◌else◌,
}
use runfabric.Errors.{Error, wrap, io, ok, err}
use runfabric.Locking.Handle.{Handle}
use runfabric.Locking.FileBackend.{
  LockDir, LockRecord, json, second, lock_path, read, new_record, acquire,
}
use runfabric.Locking.FileBackend.Laws.{
  live-new_record, acquire_held, acquire_ok, acquire_ok_cases, clear_expired_ok,
}

-- What is in the file is what is read.
read-found :
    (service stage : String) (d : LockDir) (r : LockRecord)
    → d.read_fails ≡ false
    → lookup (lock_path service stage) d.files ≡ some (json r)
    → read service stage d ≡ ok r
unfolding read
read-found service stage d r f e = ground arith

module _ (now clock pid : ℕ) (service stage operation : String) (stale_after : ℕ) where
  -- Who has just got a lock reads its own record.
  pub read-acquire :
      (seen : ℕ) (token : Option String) (d : LockDir) (h : Handle LockDir)
      → d.read_fails ≡ false
      → (acquire seen now clock token pid service stage operation stale_after d).0 ≡ ok h
      → (t : String) × (token ≡ some t)
        × (read service stage
              (acquire seen now clock token pid service stage operation stale_after d).1
            ≡ ok (new_record service stage operation t pid now stale_after))
  read-acquire seen token d h f e =
      let (_, (t, et, _, at)) =
        acquire_ok now clock pid service stage operation stale_after seen token d h e in
      let p = lock_path service stage in
      (
        t,
        et,
        read-found service stage _ _ (read_fails-acquire e) (rw at (rw (text_eq_refl p) refl)),
      )
    where
      read_fails-acquire :
          (acquire seen now clock token pid service stage operation stale_after d).0 ≡ ok h
          → (acquire seen now clock token pid service stage operation stale_after d).1.read_fails
            ≡ false
      read_fails-acquire e =
          let (d', c, (_, _, _, _, e')) =
            acquire_ok_cases now clock pid service stage operation stale_after seen token d h e in
          ap (λ (x : LockDir). x.read_fails) e'
          ∙ elim (clear_expired_ok seen (lock_path service stage) (read service stage d) d d' c) [
            | inl (same, _) ↦ ap (λ (x : LockDir). x.read_fails) same ∙ f
            | inr (gone, _) ↦ ap (λ (x : LockDir). x.read_fails) gone ∙ f
          ]

-- Once a lease has been taken, and while it has more than a second to run, whoever asks for its lock
-- with the same files there gets an error and changes nothing of the directory, whichever calls
-- fail, except that the lock file is taken to be readable: the holder alone has the lock.
pub acquire_excludes :
    (seen now clock pid : ℕ) (token : Option String) (service stage operation : String)
    (stale_after : ℕ) (d : LockDir) (h : Handle LockDir) (seen' now' clock' pid' : ℕ)
    (token' : Option String) (operation' : String) (stale_after' : ℕ) (later : LockDir)
    → (acquire seen now clock token pid service stage operation stale_after d).0 ≡ ok h
    → seen' + second ≤ now + stale_after
    → later.files ≡ (acquire seen now clock token pid service stage operation stale_after d).1.files
    → later.read_fails ≡ false
    → let r = acquire seen' now' clock' token' pid' service stage operation' stale_after' later in
      (r.1 ≡ later) × ((h' : Handle LockDir) → r.0 ≢ ok h')
acquire_excludes seen now clock pid token service stage operation stale_after d h seen' now' clock'
      pid' token' operation' stale_after' later e early same f =
    let (_, (t, _, _, at)) =
      acquire_ok now clock pid service stage operation stale_after seen token d h e in
    let p = lock_path service stage in
    let record_of = new_record service stage operation t pid now stale_after in
    let found =
      read-found service stage later record_of f
        (ap (lookup p) same ∙ rw at (rw (text_eq_refl p) refl)) in
    let live = live-new_record service stage operation t pid now stale_after seen' early in
    rw
      (acquire_held seen' now' clock' token' pid' service stage operation' stale_after' later _
        found live)
      (refl, λ h'. refused_error _ _ h')
  where
    refused_error :
        (b : Bool) (x : Error) (h' : Handle LockDir)
        → (if b then err (wrap "create lock dir" io) else err x) ≢ ok h'
    refused_error true x h' p = cc
    refused_error false x h' p = cc
