-- ===== src/Deploy/Universal.antt =====
-- platform/deploy/exec/universal.go. `deploy` is `deployFn`: its error, its result (`nil` or a
-- provider's result), and the resources that it leaves.
pub mod Laws
use runfabric.Prelude.{
  ℕ, suc, ◌+◌, String, ◌=?=◌, Bool, true, false, Option, none, some, List, [], ◌∷◌, if◌then◌else◌,
}
use runfabric.Errors.{Error, Result, ok, err}
use runfabric.Disk.{Disk}
use runfabric.Transactions.Types.{JournalFile, status_active}
use runfabric.Transactions.Backend.{Backend}
use runfabric.Transactions.FileBackend.{Content, load}
use runfabric.Transactions.Journal.{Outcome, new_journal, increment_attempt, mark_completed}
use runfabric.Deploy.Engine.{
  FaultConfig, Context, Phase, Session, Ended, returned, panicked, run, checkpoint_deploy_functions,
}

-- The closure of the only phase.
unfoldable pub after_deploy :
    {R W : Type 0} → Context R → Option Error × Option R × W → Option Error × Context R × W
after_deploy c (some e, r, w) = (some e, c, w)
after_deploy c (none, r, w) = (none, record c { result = r }, w)

unfoldable pub deploy_phase : {R W : Type 0} → (W → Option Error × Option R × W) → Phase R W
unfolding after_deploy
deploy_phase deploy = record {
  name = checkpoint_deploy_functions;
  run = λ c w. after_deploy c (deploy w);
}

-- `(*DeployResult, error)`, unless the call panics.
pub data Deployed (S R W : Type 0) : Type 0 where
  deployed : Option R → Option Error → Session S R W → Deployed S R W
  crashed : Session S R W → Deployed S R W

unfoldable pub initial_context : {R : Type 0} → String → String → FaultConfig → Context R
initial_context root stage faults = record {
  root = root;
  stage = stage;
  faults = faults;
  result = none;
}

module _ {S R W : Type 0} (b : Backend S) (digest : JournalFile → String) (clock : ℕ → String) where
  -- `_ = journal.IncrementAttempt()`, which reads the clock twice
  unfoldable pub count_attempt : Option JournalFile → Session S R W → Session S R W
  count_attempt none s = s
  count_attempt (some f) s =
      let o = increment_attempt b digest (clock s.ticks) (clock (suc s.ticks)) f s.store in
      record s { journal = some o.file; store = o.store; ticks = 2 + s.ticks }

  -- `_ = journal.MarkCompleted()`
  unfoldable pub complete : Option JournalFile → Session S R W → Session S R W
  complete none s = s
  complete (some f) s =
      let o = mark_completed b digest (clock s.ticks) f s.store in
      record s { journal = some o.file; store = o.store; ticks = suc s.ticks }

  -- The end of RunDeploy, which returns the result of the context.
  unfoldable pub finish_deploy : Session S R W → Deployed S R W
  finish_deploy s = deployed s.context.result none (complete s.journal s)

  -- What the provider returns where the engine passed the phase over.
  unfoldable pub after_redeploy : Option Error × Option R × W → Session S R W → Deployed S R W
  after_redeploy (some e, r, w) s = deployed none (some e) (record s { resources = w })
  after_redeploy (none, r, w) s =
      let c = s.context in
      finish_deploy (record s { context = record c { result = r }; resources = w })

module _ {S R W : Type 0} (b : Backend S) (digest : JournalFile → String) (clock : ℕ → String)
    (deploy : W → Option Error × Option R × W) where
  unfoldable pub ensure_result : Option R → Session S R W → Deployed S R W
  unfolding after_redeploy
  ensure_result (some r) s = finish_deploy b digest clock s
  ensure_result none s = after_redeploy b digest clock (deploy s.resources) s

  unfoldable pub after_engine : Ended S R W → Deployed S R W
  unfolding ensure_result
  after_engine (returned (some e) s) = deployed none (some e) s
  after_engine (returned none s) = ensure_result s.context.result s
  after_engine (panicked s) = crashed s

  -- RunDeploy, with the journal, the state behind its backend and the resources in the session.
  unfoldable pub run_deploy : String → String → FaultConfig → Session S R W → Deployed S R W
  unfolding count_attempt after_engine deploy_phase
  run_deploy root stage faults s =
      let s1 = record s { context = initial_context root stage faults } in
      after_engine
        (run b digest clock (deploy_phase deploy ∷ []) (count_attempt b digest clock s1.journal s1))

-- A journal that goes on, or a new one: above the version of a journal that has ended.
unfoldable pub reopened : String → String → String → Result JournalFile → JournalFile
reopened service stage now (err e) = new_journal service stage "deploy" now
reopened service stage now (ok f) =
    if f.status =?= status_active
    then f
    else record (new_journal service stage "deploy" now) { version = f.version }

unfoldable pub open_deploy_journal :
    String → String → String → String → Disk Content → Option JournalFile
unfolding reopened
open_deploy_journal now service stage root d =
    if root =?= "" then none else some (reopened service stage now (load service stage d))
