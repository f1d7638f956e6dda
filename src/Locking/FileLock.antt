-- ===== src/Locking/FileLock.antt =====
-- platform/state/locking/file_lock.go: the older lock without a lease. Its file holds the time at
-- which it was made.
use runfabric.Prelude.{
  ℕ, String, ◌<>◌, Bool, true, false, Option, none, some, List, lookup, insert, remove,
  if◌then◌else◌,
}
use runfabric.Errors.{Error, io, message, wrap, Result, ok, err}

pub record FileLock : Type 0 where
  pub path : String
  pub held : Bool

pub record Dir : Type 0 where
  pub files : List (String × ℕ)
  pub mkdir_fails : Bool
  pub open_fails : Bool
  pub remove_fails : Bool

unfoldable pub acquire : ℕ → String → String → Dir → Result FileLock × Dir
acquire now service stage d =
    let path = ".runfabric/locks/" <> service <> "-" <> stage <> ".lock" in
    if d.mkdir_fails
    then (err (wrap "create lock dir" io), d)
    else if d.open_fails
    then (err (wrap "acquire lock" io), d)
    else elim (lookup path d.files) [
      | some t ↦
          (err (message ("lock already held for service=" <> service <> " stage=" <> stage)), d)
      | none ↦
          (ok (record { path = path; held = true }), record d { files = insert path now d.files })
    ]

-- An absent file is no error; the receiver may be `nil`.
unfoldable pub release : Option FileLock → Dir → Option Error × Option FileLock × Dir
release none d = (none, none, d)
release (some l) d =
    if l.held
    then (if d.remove_fails
        then (some (wrap "release lock" io), some l, d)
        else (none, some (record l { held = false }), record d { files = remove l.path d.files }))
    else (none, some l, d)
