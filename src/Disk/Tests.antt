-- ===== src/Disk/Tests.antt =====
-- platform/core/state/core/atomic_write.go: runs of the theorems on a small disk.
use runfabric.Prelude.{
  String, take, ◌≡◌, ◌⊎◌, ◌=?=◌, Bool, true, false, none, some, [], ◌∷◌, lookup,
}
use runfabric.Disk.{Disk, WriteStep, sync_temp, write_steps, all_steps}
use runfabric.Disk.Atomic.{write_is_atomic}

-- The flush of the temporary file fails.
abbrev failing : WriteStep → Bool
failing sync_temp = true
failing _ = false

abbrev old_disk : Disk String
old_disk = record {
  files = ("a", "old") ∷ ("b", "kept") ∷ [];
  temp = none;
  torn = "";
  read_fails = false;
  remove_fails = false;
  fails = failing;
}

write_is_atomic_example :
    (lookup "a" (write_steps (take 7 all_steps) "a" "new" old_disk).1.files
      ≡ lookup "a" old_disk.files)
    ⊎ (("a" =?= "a") ≡ true)
      × (lookup "a" (write_steps (take 7 all_steps) "a" "new" old_disk).1.files ≡ some "new")
write_is_atomic_example = write_is_atomic "a" "new" old_disk 7 "a"
