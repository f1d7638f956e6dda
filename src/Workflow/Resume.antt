-- ===== src/Workflow/Resume.antt =====
-- platform/workflow/runtime/workflow_runtime.go: resumeRunLocked, the loop over the steps of a run.
use runfabric.Prelude.{
  ℕ, zero, suc, ◌-◌, String, ◌<>◌, ◌=?=◌, Bool, ◌&&◌, Option, none, some, List, [], ◌∷◌, ltb,
  if◌then◌else◌, length, get_elem?, modify, lookup,
}
use runfabric.Errors.{Error, message}
use runfabric.Workflow.Runs.{
  WorkflowRun, WorkflowStepRun, RunStatus, StepStatus, Any, text, is_blank, format, checkpoint,
  run_status_text, step_status_text, is_workflow_run_terminal, is_step_ok, is_step_paused,
  is_step_running, is_run_paused, is_run_new,
}
use runfabric.Workflow.World.{World, Handler, Done, done, with_save, with_load}
use runfabric.Workflow.Step.{step_checkpoint, end_run, mark_cancelled, run_failure}
use runfabric.Workflow.Attempts.{execute_step}

-- `decision, _ := step.Input["approvalDecision"].(string)`
unfoldable pub text_of : Option Any → String
text_of (some (text s)) = s
text_of _ = ""

unfoldable pub approval_decision : WorkflowStepRun → String
unfolding text_of
approval_decision s = text_of (lookup "approvalDecision" s.input)

-- The index of the first step of that id.
unfoldable pub find_step : String → List WorkflowStepRun → Option ℕ
find_step id [] = none
find_step id (s ∷ rest) =
    if s.step_id =?= id
    then some 0
    else elim (find_step id rest) [ none ↦ none | some i ↦ some (suc i) ]

unfoldable pub replay_start : WorkflowRun → Option ℕ
unfolding find_step
replay_start run =
    if run.replay_from_step =?= "" then none else find_step run.replay_from_step run.steps

-- The two tests that pass a step by.
unfoldable pub is_skipped : Option ℕ → ℕ → WorkflowStepRun → Bool
is_skipped (some start) idx s = ltb idx start
is_skipped none idx s = is_step_ok s.status

unfoldable pub first_unsuccessful_step : List WorkflowStepRun → Option WorkflowStepRun
first_unsuccessful_step [] = none
first_unsuccessful_step (s ∷ rest) =
    if is_step_ok s.status then first_unsuccessful_step rest else some s

unfoldable pub await_approval : ℕ → ℕ → WorkflowRun → WorkflowRun
await_approval now idx run = record run {
  status = RunStatus.paused;
  checkpoint = some (step_checkpoint now idx StepStatus.paused "awaiting human approval" run);
}

unfoldable pub make_pending : WorkflowStepRun → WorkflowStepRun
make_pending s = record s { status = StepStatus.pending }

unfoldable pub approved : ℕ → ℕ → WorkflowRun → WorkflowRun
unfolding make_pending
approved now idx run = record run {
  steps = modify idx make_pending run.steps;
  checkpoint = some (step_checkpoint now idx StepStatus.pending "approval decision received" run);
}

-- A step that was running when the process stopped is tried again: its attempt does not count.
unfoldable pub take_back : WorkflowStepRun → WorkflowStepRun
take_back s = record s { status = StepStatus.pending; attempt_count = s.attempt_count - 1 }

unfoldable pub restarted : ℕ → ℕ → WorkflowRun → WorkflowRun
unfolding take_back
restarted now idx run = record run {
  steps = modify idx take_back run.steps;
  checkpoint = some (step_checkpoint now idx StepStatus.pending "resumed after restart" run);
}

-- The end of the run, where a step did not succeed and where all did.
unfoldable pub unsuccessful_run : ℕ → WorkflowStepRun → WorkflowRun → WorkflowRun
unsuccessful_run now failed run =
    let reason =
      if failed.error =?= ""
      then "step "
        <> failed.step_id
        <> " did not complete (status "
        <> step_status_text failed.status
        <> ")"
      else failed.error in
    record (end_run now
      (record run { replay_from_step = ""; status = run_failure failed.status })) {
        checkpoint = some (checkpoint now failed.step_id (step_status_text failed.status) reason);
      }

unfoldable pub successful_run : ℕ → WorkflowRun → WorkflowRun
successful_run now run =
    record (end_run now (record run { replay_from_step = ""; status = RunStatus.ok })) {
      checkpoint = some (checkpoint now "" (run_status_text RunStatus.ok) "");
    }

unfoldable pub finish_run : WorkflowRun → World → Done
finish_run run w = elim (first_unsuccessful_step run.steps) [
  | some failed ↦ with_save (unsuccessful_run w.now failed run) w λ r w'.
      done (some r)
        (some (
          message (
            "workflow step "
            <> failed.step_id
            <> " did not succeed (status "
            <> step_status_text failed.status
            <> ")")))
        w'
  | none ↦ with_save (successful_run w.now run) w (λ r w'. done (some r) none w')
]

-- `if step.Status == StepStatusPaused { … }` and `if step.Status == StepStatusRunning { … }`, with
-- the rest of the loop's body.
unfoldable pub prepare_step :
    ℕ → WorkflowStepRun → WorkflowRun → World → (WorkflowRun → World → Done) → Done
prepare_step idx s run w rest =
    if is_step_paused s.status
    then (if approval_decision s =?= ""
        then with_save (await_approval w.now idx run) w (λ r w'. done (some r) none w')
        else with_save (approved w.now idx run) w rest)
    else if is_step_running s.status
    then with_save (restarted w.now idx run) w rest
    else rest run w

-- `run, err = r.executeStep(…)` and the tests on what it returns.
unfoldable pub after_run : Option WorkflowRun → Done → (WorkflowRun → World → Done) → Done
after_run none d next = d
after_run (some run) d next = if is_run_paused run.status then d else next run d.world

unfoldable pub after_error : Option Error → Done → (WorkflowRun → World → Done) → Done
unfolding after_run
after_error (some e) d next = d
after_error none d next = after_run d.run d next

unfoldable pub after_step : Done → (WorkflowRun → World → Done) → Done
unfolding after_error
after_step d next = after_error d.error d next

-- A run that has not started yet.
unfoldable pub started : ℕ → WorkflowRun → WorkflowRun
started now run = record run {
  status = RunStatus.running;
  started_at = if is_blank run.started_at then format now else run.started_at;
}

module _ (handler : Handler) where
  -- The body of the loop for a step that is not passed by.
  unfoldable pub run_step :
      ℕ → WorkflowStepRun → (WorkflowRun → World → Done) → WorkflowRun → World → Done
  run_step idx s next run w = prepare_step idx s run w λ run' w'.
      if run'.cancel_requested
      then mark_cancelled run' idx w'
      else after_step (execute_step handler idx run' w') next

  unfoldable pub loop_body :
      ℕ → Option ℕ → (WorkflowRun → World → Done) → WorkflowRun → World → Done
  loop_body idx start next run w = elim (get_elem? run.steps idx) [
    | none ↦ next run w
    | some s ↦ if is_skipped start idx s then next run w else run_step idx s next run w
  ]

  -- The loop over the indices that are left.
  unfoldable pub steps_loop : ℕ → ℕ → Option ℕ → WorkflowRun → World → Done
  steps_loop zero idx start run w = finish_run run w
  steps_loop (suc left) idx start run w =
      loop_body idx start (steps_loop left (suc idx) start) run w

  unfoldable pub run_all : WorkflowRun → World → Done
  run_all run w = steps_loop (length run.steps) 0 (replay_start run) run w

  unfoldable pub resume_run : World → Done
  resume_run w = with_load w λ run w'.
      if is_workflow_run_terminal run.status && run.replay_from_step =?= ""
      then done (some run) none w'
      else if is_run_new run.status
      then with_save (started w'.now run) w' run_all
      else run_all run w'
