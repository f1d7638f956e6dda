-- ===== src/Transactions/Journal/Writers.antt =====
-- platform/core/state/transactions/journal.go and file_backend.go: several processes that hold the
-- journal of one service and stage.
use runfabric.Prelude.{String, ◌≡◌, ◌≢◌, true, false, none, Option-cases, refl, ◌∙◌, inl, inr}
use runfabric.Prelude.Int.{pos, max_int, incr, le_int, lt-incr, le_int_refl}
use runfabric.Errors.{ok}
use runfabric.Disk.{Disk}
use runfabric.Transactions.Types.{JournalFile, verify_checksum}
use runfabric.Transactions.FileBackend.{Content, load, save, file_backend}
use runfabric.Transactions.FileBackend.Laws.{save_ok_load, save_ok_above, save_error_keeps}
use runfabric.Transactions.Journal.{commit, next_revision}
use runfabric.Transactions.Journal.Laws.{verify-next_revision}

module _ (digest : JournalFile → String) where
  -- Two processes loaded the same revision of a journal, and each changed it. Once the commit of
  -- one to the files has returned no error, where reads work and its version was below the greatest
  -- int, the commit of the other gives an error, and what is loaded after both is the journal as
  -- the first one committed it: with a checksum that verifies, a greater version, and the
  -- operations, checkpoints and status that it had.
  pub second_writer_is_refused :
      (now now' : String) (f g : JournalFile) (d : Disk Content)
      → g.service ≡ f.service
      → g.stage ≡ f.stage
      → g.version ≡ f.version
      → f.version ≢ pos max_int
      → d.read_fails ≡ false
      → (commit file_backend digest now f d).error ≡ none
      → let first = commit file_backend digest now f d in
        let second = commit file_backend digest now' g first.store in
        (second.error ≢ none)
        × (load f.service f.stage second.store ≡ ok first.file)
        × (verify_checksum digest first.file ≡ true)
        × (le_int first.file.version f.version ≡ false)
        × (first.file.operations ≡ f.operations)
        × (first.file.checkpoints ≡ f.checkpoints)
        × (first.file.status ≡ f.status)
  unfolding commit next_revision
  second_writer_is_refused now now' f g d se st v m r h =
      let j = next_revision file_backend digest now f in
      let k = next_revision file_backend digest now' g in
      let s = (save j d).1 in
      let loaded : load f.service f.stage s ≡ ok j = save_ok_load j d (rw r refl) h in
      elim (Option-cases (save k s).0) [
        | inl free ↦
            let above = save_ok_above k j s (rw (se, st) loaded) free in
            cc (rw v at above, le_int_refl (incr f.version))
        | inr (x, e) ↦ (
          λ n. cc,
          save_error_keeps k s x e f.service f.stage ∙ loaded,
          verify-next_revision digest file_backend now f,
          lt-incr f.version m,
          refl,
          refl,
          refl,
        )
      ]
