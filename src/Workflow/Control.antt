-- ===== src/Workflow/Control.antt =====
-- platform/workflow/runtime/workflow_runtime.go: the operations that a client calls. `lock` is the
-- error of taking the run's lock, which every return gives back; a nil runtime or handler is left
-- out.
use runfabric.Prelude.{
  ℕ, ◌/◌, String, ◌<>◌, ◌=?=◌, false, Option, none, some, List, [], ◌∷◌, ◌==◌, if◌then◌else◌,
  modify, modify_from, insert,
}
use runfabric.Prelude.Int.{pos}
use runfabric.Errors.{Error, message, wrap, Result, ok, err}
use runfabric.Workflow.Runs.{
  WorkflowRun, WorkflowStepRun, RunStatus, StepStatus, Any, text, blank, format, checkpoint,
  run_status_text, step_status_text, is_step_paused,
}
use runfabric.Workflow.World.{
  World, Handler, Done, done, with_save, with_load, mark_cancel_requested,
}
use runfabric.Workflow.Step.{end_run}
use runfabric.Workflow.Resume.{find_step, resume_run}

-- A negative number of attempts, which the source treats as 0, is 0; durations are not negative.
pub record WorkflowStepSpec : Type 0 where
  pub id : String
  pub kind : String
  pub input : List (String × Any)
  pub max_attempts : ℕ
  pub timeout : ℕ
  pub backoff : ℕ

pub record WorkflowRunSpec : Type 0 where
  pub run_id : String
  pub service : String
  pub stage : String
  pub provider : String
  pub workflow_name : String
  pub workflow_hash : String
  pub entrypoint : String
  pub steps : List WorkflowStepSpec

-- Durations are nanoseconds; the record keeps whole milliseconds.
unfoldable pub pending_step : WorkflowStepSpec → WorkflowStepRun
pending_step s = record {
  step_id = s.id;
  kind = s.kind;
  input = s.input;
  status = StepStatus.pending;
  attempt_count = 0;
  max_attempts = if s.max_attempts == 0 then 1 else s.max_attempts;
  timeout_ms = s.timeout / 1000000;
  backoff_ms = s.backoff / 1000000;
  started_at = blank;
  ended_at = blank;
  duration_ms = pos 0;
  error = "";
  output = [];
  metadata = [];
}

-- The loop over the steps, which stops at one without an id.
unfoldable pub pending_steps : List WorkflowStepSpec → Result (List WorkflowStepRun)
unfolding pending_step
pending_steps [] = ok []
pending_steps (s ∷ rest) =
    if s.id =?= ""
    then err (message "step id is required")
    else elim (pending_steps rest) [ err e ↦ err e | ok l ↦ ok (pending_step s ∷ l) ]

unfoldable pub initial_run : ℕ → String → WorkflowRunSpec → List WorkflowStepRun → WorkflowRun
initial_run now run_id spec steps = record {
  run_id = run_id;
  service = spec.service;
  stage = spec.stage;
  provider = spec.provider;
  workflow_name = spec.workflow_name;
  workflow_hash = spec.workflow_hash;
  entrypoint = spec.entrypoint;
  status = RunStatus.running;
  started_at = format now;
  ended_at = blank;
  updated_at = blank;
  duration_ms = pos 0;
  cancel_requested = false;
  replay_from_step = "";
  checkpoint = some (record {
    current_step_id = "";
    current_status = run_status_text RunStatus.running;
    updated_at = format now;
    last_error = "";
  });
  steps = steps;
  nodes = [];
  total_input_tokens = 0;
  total_output_tokens = 0;
}

-- A run without steps has ended.
unfoldable pub without_steps : ℕ → WorkflowRun → WorkflowRun
without_steps now run = elim run.steps [
  | [] ↦ end_run now (record run { status = RunStatus.ok })
  | s ∷ rest ↦ run
]

-- The end of `CreateRun`: the run is saved unless a step has no id.
unfoldable pub save_created :
    String → WorkflowRunSpec → Result (List WorkflowStepRun) → World → Done
save_created run_id spec (err e) w = done none (some e) w
save_created run_id spec (ok steps) w =
    with_save (without_steps w.now (initial_run w.now run_id spec steps)) w
      (λ r w'. done (some r) none w')

-- `fresh` is the random id that newWorkflowRunID returns.
unfoldable pub create_run : String → WorkflowRunSpec → World → Done
create_run fresh spec w =
    if spec.stage =?= ""
    then done none (some (message "stage is required")) w
    else if spec.service =?= ""
    then done none (some (message "service is required")) w
    else save_created (if spec.run_id =?= "" then fresh else spec.run_id) spec
        (pending_steps spec.steps) w

-- The fields of a step that a replay sets back.
unfoldable pub replay_step : WorkflowStepRun → WorkflowStepRun
replay_step s = record s {
  status = StepStatus.pending;
  attempt_count = 0;
  started_at = blank;
  ended_at = blank;
  duration_ms = pos 0;
  error = "";
  output = [];
  metadata = [];
}

unfoldable pub replayed_run : ℕ → ℕ → String → WorkflowRun → WorkflowRun
unfolding replay_step
replayed_run now start step_id run = record run {
  steps = modify_from start replay_step run.steps;
  replay_from_step = step_id;
  cancel_requested = false;
  status = RunStatus.running;
  ended_at = blank;
  duration_ms = pos 0;
  checkpoint = some (checkpoint now step_id (step_status_text StepStatus.pending) "");
}

-- `approvalDecision`, and `approvalReviewer` if there is one, in the step's input.
unfoldable pub decide : String → String → WorkflowStepRun → WorkflowStepRun
decide decision reviewer s =
    let input' = insert "approvalDecision" (text decision) s.input in
    record s {
      input = if reviewer =?= "" then input' else insert "approvalReviewer" (text reviewer) input';
      status = if is_step_paused s.status then StepStatus.pending else s.status;
      attempt_count = 0;
    }

unfoldable pub decided_run : ℕ → ℕ → String → String → String → WorkflowRun → WorkflowRun
unfolding decide
decided_run now idx step_id decision reviewer run = record run {
  steps = modify idx (decide decision reviewer) run.steps;
  status = RunStatus.running;
  checkpoint = some (checkpoint now step_id (step_status_text StepStatus.pending) "");
}

-- The loop of `ResolveApproval`, with the index of the first step of that id.
unfoldable pub save_decision : Option ℕ → String → String → String → WorkflowRun → World → Done
save_decision none step_id decision reviewer run w =
    done none
      (some (message ("step \"" <> step_id <> "\" not found in run \"" <> w.run_id <> "\""))) w
save_decision (some idx) step_id decision reviewer run w =
    with_save (decided_run w.now idx step_id decision reviewer run) w (λ r w'. done none none w')

unfoldable pub resolve_approval : Option Error → String → String → String → World → Done
resolve_approval (some e) step_id decision reviewer w =
    done none (some (wrap "acquire run lock" e)) w
resolve_approval none step_id decision reviewer w = with_load w λ run w'.
    if decision =?= ""
    then done none (some (message "approval decision is required")) w'
    else save_decision (find_step step_id run.steps) step_id decision reviewer run w'

-- CancelRun takes no lock.
unfoldable pub cancel_run : World → Option Error × World
unfolding mark_cancel_requested
cancel_run w = mark_cancel_requested w

module _ (handler : Handler) where
  unfoldable pub resume : Option Error → World → Done
  resume (some e) w = done none (some (wrap "acquire run lock" e)) w
  resume none w = resume_run handler w

  unfoldable pub after_create : Option Error → Done → Option Error → Done
  after_create lock created (some e) = done none (some e) created.world
  after_create lock created none = resume lock created.world

  unfoldable pub start_run : Option Error → String → WorkflowRunSpec → World → Done
  start_run lock fresh spec w =
      let created = create_run fresh spec w in after_create lock created created.error

  -- The steps from the index on are set back, and the run is resumed under the same lock.
  unfoldable pub replay_from : Option ℕ → String → WorkflowRun → World → Done
  replay_from none step_id run w =
      done none
        (some (message ("step \"" <> step_id <> "\" does not exist in run \"" <> w.run_id <> "\"")))
        w
  replay_from (some start) step_id run w =
      with_save (replayed_run w.now start step_id run) w (λ r w'. resume_run handler w')

  unfoldable pub replay_locked : Option Error → String → World → Done
  replay_locked (some e) step_id w = done none (some (wrap "acquire run lock" e)) w
  replay_locked none step_id w =
      with_load w (λ run w'. replay_from (find_step step_id run.steps) step_id run w')

  unfoldable pub replay_run_from_step : Option Error → String → World → Done
  replay_run_from_step lock step_id w =
      if step_id =?= ""
      then done none (some (message "step id is required")) w
      else replay_locked lock step_id w
