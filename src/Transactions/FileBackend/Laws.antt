-- ===== src/Transactions/FileBackend/Laws.antt =====
-- platform/core/state/transactions/file_backend.go: it keeps the promise of its interface.
use runfabric.Prelude.{
  String, ◌≡◌, refl, ◌∙◌, ap, ◌⊎◌, inl, inr, Bool, true, false, not, Option, none, some, arith,
  List, insert, lookup-insert_self, Option-cases,
}
use runfabric.Prelude.Int.{le_int}
use runfabric.Errors.{Error, ok, wrap}
use runfabric.Disk.{Disk, WriteStep, write_error}
use runfabric.Disk.Atomic.{write_state_file_cases, read_fails-write_state_file}
use runfabric.Transactions.Types.{JournalFile}
use runfabric.Transactions.Backend.{IsVersioned}
use runfabric.Transactions.FileBackend.{
  Content, json, path, load, save, find_conflict, write_journal, file_backend,
}

abbrev pub readable : Disk Content → Bool
readable d = not d.read_fails

-- `load` after a write that went through.
load-written :
    (j : JournalFile) (d : Disk Content) (before : List (String × Content))
    → d.read_fails ≡ false
    → d.files ≡ insert (path j.service j.stage) (json j) before
    → load j.service j.stage d ≡ ok j
unfolding load
load-written j d before r e = rw (r, e, lookup-insert_self) refl

write_journal_cases :
    (j : JournalFile) (d : Disk Content)
    → ((write_journal j d).0 ≡ none)
        × ((write_journal j d).1.files ≡ insert (path j.service j.stage) (json j) d.files)
      ⊎ ((s : WriteStep) × ((write_journal j d).0 ≡ some (wrap "write journal" (write_error s)))
          × ((write_journal j d).1.files ≡ d.files))
unfolding write_journal
write_journal_cases j d = elim (write_state_file_cases (path j.service j.stage) (json j) d).0 [
  | inl (e, f) ↦ inl (rw (e, write_journal) refl, f)
  | inr (s, e, f) ↦ inr (s, rw (e, write_journal) refl, f)
]

read_fails-write_journal :
    (j : JournalFile) (d : Disk Content) → (write_journal j d).1.read_fails ≡ d.read_fails
unfolding write_journal
read_fails-write_journal j d = read_fails-write_state_file _ _ d

-- A load sees the files and whether reads fail, and nothing else of the disk.
load-same_files :
    (service stage : String) (d d' : Disk Content)
    → d'.read_fails ≡ d.read_fails
    → d'.files ≡ d.files
    → load service stage d' ≡ load service stage d
unfolding load
load-same_files service stage d d' r f = rw (r, f) refl

-- What `save` does is decided by the conflict test.
save_cases :
    (j : JournalFile) (d : Disk Content)
    → let c : Option Error = find_conflict j (load j.service j.stage d) in
      ((c ≡ none) × (save j d ≡ write_journal j d))
      ⊎ ((x : Error) × (c ≡ some x) × (save j d ≡ (some x, d)))
unfolding save
save_cases j d = elim (Option-cases (find_conflict j (load j.service j.stage d))) [
  | inl e ↦ inl (e, rw (e, save) refl)
  | inr (x, e) ↦ inr (x, e, rw (e, save) refl)
]

save_readable :
    (j : JournalFile) (d : Disk Content) → readable d ≡ true → readable (save j d).1 ≡ true
save_readable j d r = elim (save_cases j d) [
  | inl (c, e) ↦ rw e (rw read_fails-write_journal r)
  | inr (x, c, e) ↦ rw e r
]

pub save_ok_load :
    (j : JournalFile) (d : Disk Content)
    → readable d ≡ true
    → (save j d).0 ≡ none
    → load j.service j.stage (save j d).1 ≡ ok j
save_ok_load j d r h = elim (save_cases j d) [
  | inl (c, e) ↦ elim (write_journal_cases j d) [
    | inl (n, f) ↦ rw e (load-written j _ d.files (read_fails-write_journal j d ∙ ground arith) f)
    | inr (x, n, f) ↦ cc (ap (λ (p : Option Error × Disk Content). p.0) e)
  ]
  | inr (x, c, e) ↦ cc (ap (λ (p : Option Error × Disk Content). p.0) e)
]

find_conflict-none :
    (j e : JournalFile) → find_conflict j (ok e) ≡ none → le_int j.version e.version ≡ false
unfolding find_conflict
find_conflict-none j e h = ground arith

pub save_ok_above :
    (j e : JournalFile) (d : Disk Content)
    → load j.service j.stage d ≡ ok e
    → (save j d).0 ≡ none
    → le_int j.version e.version ≡ false
save_ok_above j e d l h = elim (save_cases j d) [
  | inl (c, _) ↦ find_conflict-none j e (rw l at c)
  | inr (x, c, p) ↦ cc (ap (λ (p : Option Error × Disk Content). p.0) p)
]

pub save_error_keeps :
    (j : JournalFile) (d : Disk Content) (x : Error)
    → (save j d).0 ≡ some x
    → (service stage : String) → load service stage (save j d).1 ≡ load service stage d
save_error_keeps j d x h service stage = elim (save_cases j d) [
  | inl (c, e) ↦ elim (write_journal_cases j d) [
    | inl (n, f) ↦ cc (ap (λ (p : Option Error × Disk Content). p.0) e)
    | inr (y, n, f) ↦ rw e (load-same_files service stage d _ (read_fails-write_journal j d) f)
  ]
  | inr (y, c, e) ↦ rw e refl
]

-- The file backend, where reads work, keeps the promise of the journal's backend: a save that returns
-- no error is read back, and went above the version of the journal that could be loaded before; and
-- one that returns an error changes no journal. Where the load of a save fails, as for a file that
-- does not parse, the save goes ahead without a test for a conflict, and nothing is promised of
-- what was there.
pub file_backend-IsVersioned : IsVersioned file_backend readable
file_backend-IsVersioned = record {
  save_readable = save_readable;
  save_ok_load = save_ok_load;
  save_ok_above = save_ok_above;
  save_error_keeps = save_error_keeps;
}
