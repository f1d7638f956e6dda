-- ===== src/Transactions/Backend.antt =====
-- platform/core/state/transactions/backend.go: the interface that `Journal` saves through, and what
-- its implementations promise.
use runfabric.Prelude.{String, ◌≡◌, Bool, Option, none, some, true, false}
use runfabric.Prelude.Int.{le_int}
use runfabric.Errors.{Error, Result, ok}
use runfabric.Transactions.Types.{JournalFile}

-- `S` is the state behind the interface, which `save` and `delete` change.
pub record Backend (S : Type 0) : Type 0 where
  pub load : String → String → S → Result JournalFile
  pub save : JournalFile → S → Option Error × S
  pub delete : String → String → S → Option Error × S

-- Optimistic concurrency, where `readable` says that reads work: there, a save that returns no error
-- can be loaded back. If a journal could be loaded before the save, the save went above its version;
-- where the load failed, nothing is said of what was there. A save that returns an error changed no
-- journal.
pub record IsVersioned {S : Type 0} (b : Backend S) (readable : S → Bool) : Type 0 where
  pub save_readable : (j : JournalFile) (s : S) → readable s ≡ true → readable (b.save j s).1 ≡ true
  pub save_ok_load :
      (j : JournalFile) (s : S)
      → readable s ≡ true
      → (b.save j s).0 ≡ none
      → b.load j.service j.stage (b.save j s).1 ≡ ok j
  pub save_ok_above :
      (j e : JournalFile) (s : S)
      → b.load j.service j.stage s ≡ ok e
      → (b.save j s).0 ≡ none
      → le_int j.version e.version ≡ false
  pub save_error_keeps :
      (j : JournalFile) (s : S) (x : Error)
      → (b.save j s).0 ≡ some x
      → (service stage : String) → b.load service stage (b.save j s).1 ≡ b.load service stage s
