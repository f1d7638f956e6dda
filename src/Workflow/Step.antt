-- ===== src/Workflow/Step.antt =====
-- platform/workflow/runtime/workflow_runtime.go: executeStep and markCancelled. `idx` is the index of
-- a step of the run; the source panics where the stored run has fewer steps, and the model changes
-- nothing there.
use runfabric.Prelude.{
  ℕ, ◌+◌, ◌*◌, String, ◌<>◌, ◌=?=◌, Option, none, some, [], if◌then◌else◌, get_elem?, modify,
  modify_from,
}
use runfabric.Prelude.Int.{pos}
use runfabric.Errors.{message}
use runfabric.Workflow.Runs.{
  WorkflowRun, WorkflowStepRun, WorkflowCheckpoint, RunStatus, StepStatus, blank, is_blank, format,
  duration_ms, checkpoint, run_status_text, step_status_text, is_workflow_step_terminal,
}
use runfabric.Workflow.World.{
  World, StepExecutionResult, CtxErr, deadline_exceeded, canceled, ctx_err_text, Done, done,
  with_save,
}

-- `checkpoint(r.nowUTC(), step.StepID, …)` for the step at `idx`
unfoldable pub step_id_at : ℕ → WorkflowRun → String
step_id_at idx run = elim (get_elem? run.steps idx) [ none ↦ "" | some s ↦ s.step_id ]

unfoldable pub step_checkpoint : ℕ → ℕ → StepStatus → String → WorkflowRun → WorkflowCheckpoint
unfolding step_id_at
step_checkpoint now idx status last_err run =
    checkpoint now (step_id_at idx run) (step_status_text status) last_err

-- `run.EndedAt = …; run.DurationMs = …`
unfoldable pub end_run : ℕ → WorkflowRun → WorkflowRun
end_run now run = record run {
  ended_at = format now;
  duration_ms = duration_ms run.started_at (format now);
}

-- One step of `markCancelled`.
unfoldable pub cancel_step : ℕ → WorkflowStepRun → WorkflowStepRun
cancel_step now s =
    if is_workflow_step_terminal s.status
    then s
    else let ended = if is_blank s.ended_at then format now else s.ended_at in
      record s {
        status = StepStatus.cancelled;
        ended_at = ended;
        duration_ms =
            if is_blank s.started_at then s.duration_ms else duration_ms s.started_at ended;
        error = if s.error =?= "" then "cancel requested" else s.error;
      }

unfoldable pub cancelled_run : ℕ → ℕ → WorkflowRun → WorkflowRun
unfolding cancel_step end_run
cancelled_run now from_idx run =
    let r = record run {
      steps = modify_from from_idx (cancel_step now) run.steps;
      status = RunStatus.cancelled;
    } in
    record (end_run now r) {
      checkpoint =
          some (checkpoint now "" (run_status_text RunStatus.cancelled) "cancel requested");
    }

unfoldable pub mark_cancelled : WorkflowRun → ℕ → World → Done
mark_cancelled run from_idx w =
    with_save (cancelled_run w.now from_idx run) w (λ r w'. done (some r) none w')

-- What is saved before an attempt.
unfoldable pub start_step : ℕ → ℕ → ℕ → WorkflowStepRun → WorkflowStepRun
start_step now max attempt s = record s {
  max_attempts = max;
  attempt_count = attempt;
  status = StepStatus.running;
  started_at = if is_blank s.started_at then format now else s.started_at;
  ended_at = blank;
  duration_ms = pos 0;
  error = "";
}

unfoldable pub begin_attempt : ℕ → ℕ → ℕ → ℕ → WorkflowRun → WorkflowRun
unfolding start_step step_checkpoint
begin_attempt now max attempt idx run = record run {
  steps = modify idx (start_step now max attempt) run.steps;
  status = RunStatus.running;
  checkpoint = some (step_checkpoint now idx StepStatus.running "" run);
}

-- `step.EndedAt` and `step.DurationMs` after the handler's call.
unfoldable pub end_step : ℕ → WorkflowStepRun → WorkflowStepRun
end_step now s = record s {
  ended_at = format now;
  duration_ms = duration_ms s.started_at (format now);
}

unfoldable pub pause_step : StepExecutionResult → WorkflowStepRun → WorkflowStepRun
pause_step res s = record s {
  status = StepStatus.paused;
  error = res.pause_reason;
  output = res.output;
  metadata = res.metadata;
}

unfoldable pub complete_step : Option StepExecutionResult → WorkflowStepRun → WorkflowStepRun
complete_step none s = record s { status = StepStatus.ok; error = ""; output = []; metadata = [] }
complete_step (some res) s = record s {
  status = StepStatus.ok;
  error = "";
  output = res.output;
  metadata = res.metadata;
}

unfoldable pub fail_step : StepStatus → String → WorkflowStepRun → WorkflowStepRun
fail_step status error s = record s { status = status; error = error }

unfoldable pub update_step :
    ℕ → ℕ → (WorkflowStepRun → WorkflowStepRun) → StepStatus → String → WorkflowRun → WorkflowRun
unfolding end_step step_checkpoint
update_step now idx f status last_err run = record run {
  steps = modify idx (λ s. f (end_step now s)) run.steps;
  checkpoint = some (step_checkpoint now idx status last_err run);
}

-- `execErr == nil && execCtxErr == nil`, with the pause that the handler may ask for.
unfoldable pub on_success : ℕ → Option StepExecutionResult → WorkflowRun → World → Done
on_success idx none run w =
    with_save (update_step w.now idx (complete_step none) StepStatus.ok "" run) w
      (λ r w'. done (some r) none w')
on_success idx (some res) run w =
    if res.pause
    then with_save
        (record (update_step w.now idx (pause_step res) StepStatus.paused res.pause_reason run) {
          status = RunStatus.paused;
        })
        w (λ r w'. done (some r) none w')
    else with_save (update_step w.now idx (complete_step (some res)) StepStatus.ok "" run) w
        (λ r w'. done (some r) none w')

-- `errors.Is(execCtxErr, context.DeadlineExceeded)`
unfoldable pub failure_status : Option CtxErr → StepStatus
failure_status (some deadline_exceeded) = StepStatus.timed_out
failure_status (some canceled) = StepStatus.failed
failure_status none = StepStatus.failed

-- `err = execErr`, or else `execCtxErr`; one of the two is there.
unfoldable pub failure_text : Option String → Option CtxErr → String
unfolding ctx_err_text
failure_text (some e) c = e
failure_text none (some c) = ctx_err_text c
failure_text none none = "step execution failed"

unfoldable pub run_failure : StepStatus → RunStatus
run_failure StepStatus.timed_out = RunStatus.timed_out
run_failure _ = RunStatus.failed

-- The last attempt has failed.
unfoldable pub give_up : ℕ → StepStatus → String → WorkflowRun → World → Done
give_up idx status text run w =
    with_save (end_run w.now (record run { status = run_failure status })) w λ r w'.
      done (some r) (some (message ("workflow step " <> step_id_at idx r <> " failed: " <> text)))
        w'

-- The run's own context ended during the attempt or the backoff.
unfoldable pub abort_step : CtxErr → StepStatus
abort_step deadline_exceeded = StepStatus.timed_out
abort_step canceled = StepStatus.cancelled

unfoldable pub abort_run : CtxErr → RunStatus
abort_run deadline_exceeded = RunStatus.timed_out
abort_run canceled = RunStatus.cancelled

unfoldable pub abort : ℕ → CtxErr → WorkflowRun → World → Done
abort idx c run w =
    let r = record run {
      steps = modify idx (fail_step (abort_step c) (ctx_err_text c)) run.steps;
      status = abort_run c;
    } in
    with_save
      (record (end_run w.now r) {
        checkpoint = some (step_checkpoint w.now idx (abort_step c) (ctx_err_text c) run);
      })
      w
      λ r' w'.
        done (some r')
          (some (message ("workflow step " <> step_id_at idx r' <> " aborted: " <> ctx_err_text c)))
          w'

-- What is saved before the next attempt.
unfoldable pub reset_step : WorkflowStepRun → WorkflowStepRun
reset_step s = record s { status = StepStatus.pending }

unfoldable pub retry_run : ℕ → ℕ → String → WorkflowRun → WorkflowRun
unfolding reset_step step_checkpoint
retry_run now idx text run = record run {
  steps = modify idx reset_step run.steps;
  checkpoint = some (step_checkpoint now idx StepStatus.pending text run);
}

-- `r.Sleep(backoff)`
unfoldable pub backoff_at : ℕ → WorkflowRun → ℕ
backoff_at idx run = elim (get_elem? run.steps idx) [ none ↦ 0 | some s ↦ s.backoff_ms ]

unfoldable pub sleep : ℕ → WorkflowRun → World → World
unfolding backoff_at
sleep idx run w = record w { now = w.now + backoff_at idx run * 1000000 }
