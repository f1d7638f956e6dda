-- ===== src/Workflow/Tests.antt =====
-- platform/workflow/runtime/workflow_runtime.go: runs of the theorems on a run of two steps.
use runfabric.Prelude.{
  ltb, ◌≡◌, zero, suc, ◌+◌, ◌-◌, ◌≤◌, String, refl, true, false, none, some, List, [], ◌∷◌, ◌==◌,
}
use runfabric.Prelude.Int.{pos}
use runfabric.Workflow.Runs.{WorkflowRun, WorkflowStepRun, RunStatus, StepStatus, blank}
use runfabric.Workflow.World.{World, Handler}
use runfabric.Workflow.Keeps.{OnSome, Keeps}
use runfabric.Workflow.Soundness.{IsSound}
use runfabric.Workflow.Attempts.{max_attempts_of, execute_step}
use runfabric.Workflow.Resume.{resume_run}
use runfabric.Workflow.Completion.{resume_run-IsSound}
use runfabric.Workflow.History.{
  Op, resumed, cancel, replay, environment, perform_all, history-IsSound,
}
use runfabric.Workflow.Budget.{attempt_budget}
use runfabric.Workflow.Cancel.{IsStopped, cancel_stops_step}

abbrev step : String → StepStatus → WorkflowStepRun
step id status = record {
  step_id = id;
  kind = "code";
  input = [];
  status = status;
  attempt_count = 0;
  max_attempts = 2;
  timeout_ms = 0;
  backoff_ms = 5;
  started_at = blank;
  ended_at = blank;
  duration_ms = pos 0;
  error = "";
  output = [];
  metadata = [];
}

abbrev second_step : WorkflowStepRun
second_step = step "b" StepStatus.pending

abbrev two_steps : WorkflowRun
two_steps = record {
  run_id = "r1";
  service = "svc";
  stage = "dev";
  provider = "aws-lambda";
  workflow_name = "w";
  workflow_hash = "h";
  entrypoint = "";
  status = RunStatus.running;
  started_at = blank;
  ended_at = blank;
  updated_at = blank;
  duration_ms = pos 0;
  cancel_requested = false;
  replay_from_step = "";
  checkpoint = none;
  steps = step "a" StepStatus.ok ∷ second_step ∷ [];
  nodes = [];
  total_input_tokens = 0;
  total_output_tokens = 0;
}

-- Another process asked to cancel the run.
abbrev to_cancel : WorkflowRun
to_cancel = record two_steps { cancel_requested = true }

abbrev world : WorkflowRun → World
world run = record {
  stage = "dev";
  run_id = "r1";
  stored = some run;
  load_fails = λ n. false;
  save_fails = λ n. false;
  loads = 0;
  saves = 0;
  now = 1000000000;
  calls = 0;
}

-- The first call fails, and the later ones do not.
abbrev flaky : Handler
flaky calls run s = record {
  result = none;
  exec_err = elim calls [ zero ↦ some "unavailable" | suc n ↦ none ];
  ctx_err = none;
  run_ctx_err = none;
  cancels = false;
  elapsed = 10;
}

resume_run-IsSound_example : Keeps IsSound IsSound (resume_run flaky (world two_steps))
resume_run-IsSound_example = resume_run-IsSound flaky (world two_steps) (λ e. cc)

abbrev operations : List Op
operations =
    resumed none
    ∷ cancel
    ∷ replay none "b"
    ∷ environment (λ n. n == 2) (λ n. n == 4) 5
    ∷ resumed none
    ∷ []

history-IsSound_example : OnSome IsSound (perform_all flaky operations (world two_steps)).stored
history-IsSound_example = history-IsSound flaky operations (world two_steps) (λ e. cc)

attempt_budget_example :
    (execute_step flaky 1 two_steps (world two_steps)).world.calls
    ≤ 0 + (max_attempts_of second_step - second_step.attempt_count)
attempt_budget_example = attempt_budget flaky 1 two_steps second_step (world two_steps) refl

has_attempts : ltb 0 (max_attempts_of second_step - second_step.attempt_count) ≡ true
unfolding max_attempts_of
has_attempts = refl

cancel_stops_step_example :
    IsStopped 1 to_cancel (world to_cancel) (execute_step flaky 1 two_steps (world to_cancel))
cancel_stops_step_example =
    cancel_stops_step flaky 1 two_steps to_cancel second_step (world to_cancel) refl has_attempts
      refl refl
