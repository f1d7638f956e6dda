-- ===== src/Locking/Tests.antt =====
-- platform/state/locking: runs of the theorems on small lock directories.
use runfabric.Prelude.{
  ℕ, String, ◌≡◌, ◌≢◌, refl, true, false, some, [], lookup, insert, remove, arith,
}
use runfabric.Errors.{ok}
use runfabric.Locking.Handle.{Handle}
use runfabric.Locking.FileBackend.{
  LockDir, LockRecord, works, lock_path, read, is_expired, new_record, handle_for, acquire,
  clear_expired, take_lock, create_exclusive, remove_lock,
}
use runfabric.Locking.FileBackend.Exclusion.{acquire_excludes}
use runfabric.Locking.FileBackend.Race.{expired_lock_has_two_holders}

abbrev empty_dir : LockDir
empty_dir = record {
  files = [];
  mkdir_fails = false;
  read_fails = false;
  remove_fails = false;
  open_fails = false;
  encode_fails = false;
  rewrite = works;
}

-- One minute and fifteen minutes.
abbrev minute : ℕ
minute = 60000000000

abbrev lease : ℕ
lease = 900000000000

abbrev locked : LockDir
locked = (acquire 0 minute 0 (some "t1") 7 "svc" "dev" "deploy" lease empty_dir).1

abbrev handle : Handle LockDir
handle = handle_for 0 "svc" "dev" "t1"

abbrev stored : LockRecord
stored = new_record "svc" "dev" "deploy" "t1" 7 minute lease

takes_free_lock :
    (acquire 0 minute 0 (some "t1") 7 "svc" "dev" "deploy" lease empty_dir).0 ≡ ok handle
unfolding acquire handle_for take_lock clear_expired read lookup create_exclusive
takes_free_lock = refl

reads_back : read "svc" "dev" locked ≡ ok stored
unfolding read acquire new_record clear_expired lookup take_lock create_exclusive insert lock_path
reads_back = refl

keeps_reading : locked.read_fails ≡ false
unfolding acquire clear_expired read lookup take_lock create_exclusive
keeps_reading = refl

-- As the files are there, on a disk that takes no new file.
abbrev locked_full : LockDir
locked_full = record locked { open_fails = true }

acquire_excludes_example :
    ((acquire minute minute 0 (some "t2") 8 "svc" "dev" "remove" lease locked_full).1 ≡ locked_full)
    × ((h : Handle LockDir)
        → (acquire minute minute 0 (some "t2") 8 "svc" "dev" "remove" lease locked_full).0 ≢ ok h)
acquire_excludes_example =
    acquire_excludes 0 minute 0 7 (some "t1") "svc" "dev" "deploy" lease empty_dir handle minute
      minute 0 8 (some "t2") "remove" lease locked_full takes_free_lock (omega arith) refl
      keeps_reading

sound :
    (locked.remove_fails ≡ false)
    × (locked.mkdir_fails ≡ false)
    × (locked.read_fails ≡ false)
    × (locked.open_fails ≡ false)
    × (locked.encode_fails ≡ false)
unfolding acquire clear_expired read lookup take_lock create_exclusive
sound = (refl, refl, refl, refl, refl)

-- The lease of `t1` has run out when both `t2` and `t3` look at it.
abbrev late : ℕ
late = 1000000000000

abbrev second_holder : LockDir
second_holder = (acquire late late 0 (some "t2") 8 "svc" "dev" "deploy" lease locked).1

expired : is_expired late stored.expires_at ≡ true
unfolding is_expired new_record
expired = refl

takes_expired_lock :
    (acquire late late 0 (some "t2") 8 "svc" "dev" "deploy" lease locked).0
    ≡ ok (handle_for 0 "svc" "dev" "t2")
unfolding acquire handle_for take_lock clear_expired read lookup create_exclusive new_record insert
    lock_path is_expired remove_lock remove
takes_expired_lock = refl

still_sound :
    (second_holder.remove_fails ≡ false)
    × (second_holder.open_fails ≡ false)
    × (second_holder.encode_fails ≡ false)
unfolding acquire handle_for take_lock clear_expired read lookup create_exclusive new_record insert
    lock_path is_expired remove_lock remove
still_sound = (refl, refl, refl)

expired_lock_has_two_holders_example :
    ((t : String) × (some "t2" ≡ some t)
      × (read "svc" "dev" second_holder ≡ ok (new_record "svc" "dev" "deploy" t 8 late lease)))
    × (d : LockDir) × (clear_expired late
          (lock_path "svc" "dev")
          (read "svc" "dev" locked)
          second_holder
        ≡ ok d)
    × ((take_lock late 0 (some "t3") 9 "svc" "dev" "remove" lease d).0
        ≡ ok (handle_for 0 "svc" "dev" "t3"))
expired_lock_has_two_holders_example =
    expired_lock_has_two_holders late late 0 8 late late 0 9 (some "t2") "t3" "svc" "dev" "deploy"
      "remove" lease lease locked stored (handle_for 0 "svc" "dev" "t2") reads_back expired
      keeps_reading takes_expired_lock still_sound.0 still_sound.1 still_sound.2
