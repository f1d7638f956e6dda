-- ===== src/Transactions/Journal/Laws.antt =====
-- platform/core/state/transactions/journal.go: what every committing method leaves behind.
use runfabric.Prelude.{String, ◌≡◌, refl, Bool, true, none, text_eq_refl}
use runfabric.Prelude.Int.{incr}
use runfabric.Errors.{ok}
use runfabric.Transactions.Types.{JournalFile, verify_checksum}
use runfabric.Transactions.Backend.{Backend, IsVersioned}
use runfabric.Transactions.Journal.{next_revision, commit}

module _ (digest : JournalFile → String) {S : Type 0} (b : Backend S) where
  pub verify-next_revision :
      (now : String) (f : JournalFile)
      → verify_checksum digest (next_revision b digest now f) ≡ true
  unfolding verify_checksum next_revision
  verify-next_revision now f = text_eq_refl _

  -- A commit that returns no error, through a backend that keeps its promise, can be loaded back;
  -- what is loaded has a checksum that verifies, the next version, and otherwise the journal's data.
  pub commit_ok :
      {readable : S → Bool}
      → IsVersioned b readable
      → (now : String) (f : JournalFile) (s : S) → readable s ≡ true
      → (commit b digest now f s).error ≡ none
      → let j : JournalFile = (commit b digest now f s).file in
        (b.load f.service f.stage (commit b digest now f s).store ≡ ok j)
        × (verify_checksum digest j ≡ true)
        × (j.version ≡ incr f.version)
        × (j.operations ≡ f.operations)
        × (j.checkpoints ≡ f.checkpoints)
        × (j.status ≡ f.status)
  unfolding commit next_revision
  commit_ok laws now f s r h = (
    laws.save_ok_load (next_revision b digest now f) s r h,
    verify-next_revision now f,
    refl,
    refl,
    refl,
    refl,
  )
