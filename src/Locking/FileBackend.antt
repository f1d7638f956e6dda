-- ===== src/Locking/FileBackend.antt =====
-- platform/state/locking/file_backend.go and the lock record of internal/state/types/types.go.
-- A time is a number of nanoseconds since 1970. RFC 3339 text keeps whole seconds: a field that
-- holds such text is its second, `none` where time.Parse refuses it.
pub mod Laws
pub mod Exclusion
pub mod Race
use runfabric.Prelude.{
  ℕ, ◌+◌, ◌*◌, ◌/◌, String, ◌<>◌, ◌=?=◌, Bool, true, false, ◌||◌, Option, none, some, List, lookup,
  insert, remove, ltb, if◌then◌else◌,
}
use runfabric.Errors.{Error, not_exist, exist, io, parse, message, wrap, Result, ok, err, ◌>>=◌}
use runfabric.Locking.Handle.{Handle, new_handle}

abbrev pub second : ℕ
second = 1000000000

-- t.Format(time.RFC3339) and time.Parse(time.RFC3339, …)
abbrev pub Stamp : Type 0
Stamp = Option ℕ

unfoldable pub format : ℕ → Stamp
format t = some (t / second)

pub record LockRecord : Type 0 where
  pub service : String
  pub stage : String
  pub operation : String
  pub owner_token : String
  pub pid : ℕ
  pub created_at : Stamp
  pub expires_at : Stamp
  pub last_heartbeat_at : Stamp

-- A lock file holds a record, or a text that does not parse as one.
pub data Content : Type 0 where
  json : LockRecord → Content
  garbage : Content

-- os.WriteFile works, is refused when it opens the file, or fails after it has emptied the file.
pub data Rewrite : Type 0 where
  works refused cut_short : Rewrite

-- The lock directory, and which system calls fail on it.
pub record LockDir : Type 0 where
  pub files : List (String × Content)
  pub mkdir_fails : Bool
  pub read_fails : Bool
  pub remove_fails : Bool
  pub open_fails : Bool
  pub encode_fails : Bool
  pub rewrite : Rewrite

unfoldable pub lock_path : String → String → String
lock_path service stage = ".runfabric/locks/" <> service <> "-" <> stage <> ".lock.json"

unfoldable pub unmarshal : Option Content → Result LockRecord
unmarshal none = err not_exist
unmarshal (some (json r)) = ok r
unmarshal (some garbage) = err (wrap "parse lock file" parse)

unfoldable pub read : String → String → LockDir → Result LockRecord
unfolding unmarshal
read service stage d =
    if d.read_fails then err io else unmarshal (lookup (lock_path service stage) d.files)

-- os.Remove, whose error for an absent file every caller ignores.
unfoldable pub remove_lock : String → LockDir → Option Error × LockDir
remove_lock path d =
    if d.remove_fails then (some io, d) else (none, record d { files = remove path d.files })

-- `parseErr == nil && time.Now().UTC().After(expiresAt)`
unfoldable pub is_expired : ℕ → Stamp → Bool
is_expired now none = false
is_expired now (some s) = ltb (s * second) now

unfoldable pub held_error : LockRecord → Error
held_error r = message (
    "lock already held for service=" <> r.service <> " stage=" <> r.stage <> " operation="
    <> r.operation <> " owner=" <> r.owner_token)

-- The first part of `Acquire`: an expired lock is removed, any other that reads is an error.
unfoldable pub clear_expired : ℕ → String → Result LockRecord → LockDir → Result LockDir
clear_expired now path (err e) d = ok d
clear_expired now path (ok existing) d =
    if is_expired now existing.expires_at
    then (elim (remove_lock path d).0 [
      | some e ↦ err (wrap "remove expired lock" e)
      | none ↦ ok (remove_lock path d).1
    ])
    else err (held_error existing)

unfoldable pub new_record : String → String → String → String → ℕ → ℕ → ℕ → LockRecord
unfolding format
new_record service stage operation token pid now stale_after = record {
  service = service;
  stage = stage;
  operation = operation;
  owner_token = token;
  pid = pid;
  created_at = format now;
  expires_at = format (now + stale_after);
  last_heartbeat_at = format now;
}

-- os.OpenFile with O_CREATE|O_EXCL, and the encoder. A failed encoding leaves an unreadable file.
unfoldable pub create_exclusive : String → LockRecord → LockDir → Option Error × LockDir
create_exclusive path r d =
    if d.open_fails then (some (wrap "acquire lock" io), d) else elim (lookup path d.files) [
      | some c ↦ (
        some (message ("lock already exists for service=" <> r.service <> " stage=" <> r.stage)),
        d,
      )
      | none ↦
          if d.encode_fails
          then (some (wrap "write lock file" io), record d { files = insert path garbage d.files })
          else (none, record d { files = insert path (json r) d.files })
    ]

unfoldable pub release : String → String → LockDir → Option Error × LockDir
unfolding remove_lock
release service stage d =
    let (e, d') = remove_lock (lock_path service stage) d in
    (elim e [ none ↦ none | some x ↦ some (wrap "release lock" x) ], d')

-- What `Renew` writes for the record that it has read.
unfoldable pub renewed : ℕ → ℕ → LockRecord → LockRecord
unfolding format
renewed now lease_for r = record r {
  expires_at = format (now + lease_for);
  last_heartbeat_at = format now;
}

unfoldable pub renew_record :
    String → ℕ → String → ℕ → Result LockRecord → LockDir → Option Error × LockDir
renew_record path now owner_token lease_for (err e) d = (some e, d)
renew_record path now owner_token lease_for (ok r) d =
    if r.owner_token =?= owner_token
    then (elim d.rewrite [
      | works ↦ (none, record d { files = insert path (json (renewed now lease_for r)) d.files })
      | refused ↦ (some io, d)
      | cut_short ↦ (some io, record d { files = insert path garbage d.files })
    ])
    else (some (message "lock owner mismatch"), d)

unfoldable pub renew : ℕ → String → String → String → ℕ → LockDir → Option Error × LockDir
renew now service stage owner_token lease_for d =
    renew_record (lock_path service stage) now owner_token lease_for (read service stage d) d

-- The handle renews by the clock at the time of the renewal: `clock` is the time of its renewals.
unfoldable pub handle_for : ℕ → String → String → String → Handle LockDir
handle_for clock service stage token =
    new_handle service stage token release (some (renew clock)) none

-- The end of `Acquire`: `token` is the random one, `none` where reading random bytes fails.
unfoldable pub take_lock :
    ℕ
    → ℕ
    → Option String
    → ℕ
    → String
    → String
    → String
    → ℕ
    → LockDir
    → Result (Handle LockDir) × LockDir
take_lock now clock none pid service stage operation stale_after d = (err io, d)
take_lock now clock (some token) pid service stage operation stale_after d =
    let r = new_record service stage operation token pid now stale_after in
    let (e, d') = create_exclusive (lock_path service stage) r d in
    (elim e [ some x ↦ err x | none ↦ ok (handle_for clock service stage token) ], d')

-- `seen` is the time of the expiry test and `now` that of the new record.
unfoldable pub acquire :
    ℕ
    → ℕ
    → ℕ
    → Option String
    → ℕ
    → String
    → String
    → String
    → ℕ
    → LockDir
    → Result (Handle LockDir) × LockDir
acquire seen now clock token pid service stage operation stale_after d =
    if d.mkdir_fails
    then (err (wrap "create lock dir" io), d)
    else elim (clear_expired seen (lock_path service stage) (read service stage d) d) [
      | err e ↦ (err e, d)
      | ok d' ↦ take_lock now clock token pid service stage operation stale_after d'
    ]
