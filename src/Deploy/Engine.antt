-- ===== src/Deploy/Engine.antt =====
-- platform/deploy/exec: fault.go, phases.go, context.go, engine.go, checkpoints.go, idempotency.go. Of the context the fields
-- that the engine and the universal deployment use are kept; a phase changes the context and the deployed
-- resources `W`, and does not reach the journal. `R` is a provider's result.
pub mod Laws
use runfabric.Prelude.{
  ℕ, suc, String, ◌<>◌, ◌=?=◌, Bool, true, false, ◌&&◌, Option, none, some, List, [], ◌∷◌,
  if◌then◌else◌,
}
use runfabric.Errors.{Error, message}
use runfabric.Transactions.Types.{JournalFile, JournalCheckpoint, Operation}
use runfabric.Transactions.Backend.{Backend}
use runfabric.Transactions.Journal.{Outcome, checkpoint, record_op}

abbrev pub checkpoint_deploy_functions : String
checkpoint_deploy_functions = "deploy_functions"

pub record FaultConfig : Type 0 where
  pub fail_before_phase : String
  pub fail_after_phase : String
  pub fail_on_resource : String
  pub enabled : Bool

unfoldable pub check_before : FaultConfig → String → Option Error
check_before f phase =
    if f.enabled && f.fail_before_phase =?= phase
    then some (message ("injected failure before phase " <> phase))
    else none

unfoldable pub check_after : FaultConfig → String → Option Error
check_after f phase =
    if f.enabled && f.fail_after_phase =?= phase
    then some (message ("injected failure after phase " <> phase))
    else none

pub record Context (R : Type 0) : Type 0 where
  pub root : String
  pub stage : String
  pub faults : FaultConfig
  pub result : Option R

pub record Phase (R W : Type 0) : Type 0 where
  pub name : String
  pub run : Context R → W → Option Error × Context R × W

-- `journal` is `nil` or a journal's file and `store` the state behind its backend; `ticks` counts the
-- readings of the clock.
pub record Session (S R W : Type 0) : Type 0 where
  pub journal : Option JournalFile
  pub store : S
  pub context : Context R
  pub resources : W
  pub ticks : ℕ

-- A call returns an error or `nil`, or it panics: a method of a `nil` journal reads its file.
pub data Ended (S R W : Type 0) : Type 0 where
  returned : Option Error → Session S R W → Ended S R W
  panicked : Session S R W → Ended S R W

-- `completed[name]` for the checkpoints of a journal.
unfoldable pub is_done : String → List JournalCheckpoint → Bool
is_done name [] = false
is_done name (c ∷ cs) = if c.status =?= "done" && c.name =?= name then true else is_done name cs

unfoldable pub completed_checkpoints : Option JournalFile → String → Bool
unfolding is_done
completed_checkpoints none name = false
completed_checkpoints (some f) name = is_done name f.checkpoints

module _ {S R W : Type 0} where
  -- `if err != nil { return err }` and the rest of the function.
  unfoldable pub unless_error :
      Option Error → Session S R W → (Session S R W → Ended S R W) → Ended S R W
  unless_error (some e) s rest = returned (some e) s
  unless_error none s rest = rest s

  -- The session after a method of the journal.
  unfoldable pub journalled : Outcome S → Session S R W → Session S R W
  journalled o s = record s { journal = some o.file; store = o.store; ticks = suc s.ticks }

  -- The session after a phase.
  unfoldable pub progressed : Context R → W → Session S R W → Session S R W
  progressed c w s = record s { context = c; resources = w }

module _ {S R W : Type 0} (b : Backend S) (digest : JournalFile → String) (clock : ℕ → String) where
  -- `e.Journal.Checkpoint(name, status)`
  unfoldable pub checkpoint_journal :
      String
      → String
      → Option JournalFile
      → Session S R W
      → (Session S R W → Ended S R W)
      → Ended S R W
  checkpoint_journal name status none s rest = panicked s
  checkpoint_journal name status (some f) s rest =
      let o = checkpoint b digest (clock s.ticks) name status f s.store in
      unless_error o.error (journalled o s) rest

  unfoldable pub run_body : Phase R W → Session S R W → (Session S R W → Ended S R W) → Ended S R W
  run_body p s rest =
      let (e, c, w) = p.run s.context s.resources in unless_error e (progressed c w s) rest

  -- The body of the loop for a phase that is not completed.
  unfoldable pub run_phase : Phase R W → Session S R W → (Session S R W → Ended S R W) → Ended S R W
  run_phase p s rest = unless_error (check_before s.context.faults p.name) s λ s.
      checkpoint_journal p.name "in_progress" s.journal s λ s. run_body p s λ s.
        checkpoint_journal p.name "done" s.journal s
          (λ s. unless_error (check_after s.context.faults p.name) s rest)

  unfoldable pub run_phases : (String → Bool) → List (Phase R W) → Session S R W → Ended S R W
  run_phases completed [] s = returned none s
  run_phases completed (p ∷ ps) s =
      if completed p.name
      then run_phases completed ps s
      else run_phase p s (run_phases completed ps)

  -- Engine.Run
  unfoldable pub run : List (Phase R W) → Session S R W → Ended S R W
  run phases s = run_phases (completed_checkpoints s.journal) phases s

-- The search of RecordOnce.
unfoldable pub is_recorded : Operation → List Operation → Bool
is_recorded op [] = false
is_recorded op (x ∷ ops) =
    if x.type_of =?= op.type_of && x.resource =?= op.resource then true else is_recorded op ops

module _ {S : Type 0} (b : Backend S) (digest : JournalFile → String) where
  unfoldable pub record_once : String → Operation → JournalFile → S → Outcome S
  record_once now op f s =
      if is_recorded op f.operations
      then record { error = none; file = f; store = s }
      else record_op b digest now op f s
