-- ===== src/Workflow/Runs.antt =====
-- platform/core/state/core/runs.go: the run records. A status is one of the source's constants, the
-- empty text, or another text that a file may hold. Token counts are naturals; the floating-point
-- costs, which the runtime never reads, are left out.
use runfabric.Prelude.{
  ℕ, ◌-◌, ◌*◌, ◌/◌, String, Bool, true, false, Option, List, leb, if◌then◌else◌,
}
use runfabric.Prelude.Int.{ℤ, pos, negsuc}

-- A value of type `any`: the runtime looks only for texts.
pub data Any : Type 0 where
  text : String → Any
  other : ℕ → Any

-- An RFC 3339 text: empty, one that time.Parse reads as the seconds from the year 1, or another.
pub data Stamp : Type 0 where
  blank unreadable : Stamp
  at : ℕ → Stamp

pub data RunStatus : Type 0 where
  unset pending running paused ok failed cancelled timed_out : RunStatus
  other : String → RunStatus

pub data NodeStatus : Type 0 where
  unset running ok failed : NodeStatus
  other : String → NodeStatus

pub data StepStatus : Type 0 where
  unset pending running paused ok failed cancelled timed_out : StepStatus
  other : String → StepStatus

pub record NodeRun : Type 0 where
  pub node_id : String
  pub node_type : String
  pub status : NodeStatus
  pub started_at : Stamp
  pub ended_at : Stamp
  pub duration_ms : ℤ
  pub error : String
  pub input_tokens : ℕ
  pub output_tokens : ℕ

pub record WorkflowStepRun : Type 0 where
  pub step_id : String
  pub kind : String
  pub input : List (String × Any)
  pub status : StepStatus
  pub attempt_count : ℕ
  pub max_attempts : ℕ
  pub timeout_ms : ℕ
  pub backoff_ms : ℕ
  pub started_at : Stamp
  pub ended_at : Stamp
  pub duration_ms : ℤ
  pub error : String
  pub output : List (String × Any)
  pub metadata : List (String × Any)

pub record WorkflowCheckpoint : Type 0 where
  pub current_step_id : String
  pub current_status : String
  pub updated_at : Stamp
  pub last_error : String

pub record WorkflowRun : Type 0 where
  pub run_id : String
  pub service : String
  pub stage : String
  pub provider : String
  pub workflow_name : String
  pub workflow_hash : String
  pub entrypoint : String
  pub status : RunStatus
  pub started_at : Stamp
  pub ended_at : Stamp
  pub updated_at : Stamp
  pub duration_ms : ℤ
  pub cancel_requested : Bool
  pub replay_from_step : String
  pub checkpoint : Option WorkflowCheckpoint
  pub steps : List WorkflowStepRun
  pub nodes : List NodeRun
  pub total_input_tokens : ℕ
  pub total_output_tokens : ℕ

unfoldable pub is_workflow_run_terminal : RunStatus → Bool
is_workflow_run_terminal RunStatus.ok = true
is_workflow_run_terminal RunStatus.failed = true
is_workflow_run_terminal RunStatus.cancelled = true
is_workflow_run_terminal RunStatus.timed_out = true
is_workflow_run_terminal _ = false

unfoldable pub is_workflow_step_terminal : StepStatus → Bool
is_workflow_step_terminal StepStatus.ok = true
is_workflow_step_terminal StepStatus.failed = true
is_workflow_step_terminal StepStatus.cancelled = true
is_workflow_step_terminal StepStatus.timed_out = true
is_workflow_step_terminal _ = false

-- `string(status)`
unfoldable pub run_status_text : RunStatus → String
run_status_text RunStatus.unset = ""
run_status_text RunStatus.pending = "pending"
run_status_text RunStatus.running = "running"
run_status_text RunStatus.paused = "paused"
run_status_text RunStatus.ok = "ok"
run_status_text RunStatus.failed = "failed"
run_status_text RunStatus.cancelled = "cancelled"
run_status_text RunStatus.timed_out = "timed_out"
run_status_text (RunStatus.other s) = s

unfoldable pub step_status_text : StepStatus → String
step_status_text StepStatus.unset = ""
step_status_text StepStatus.pending = "pending"
step_status_text StepStatus.running = "running"
step_status_text StepStatus.paused = "paused"
step_status_text StepStatus.ok = "ok"
step_status_text StepStatus.failed = "failed"
step_status_text StepStatus.cancelled = "cancelled"
step_status_text StepStatus.timed_out = "timed_out"
step_status_text (StepStatus.other s) = s

-- The tests `status == …` of the runtime.
abbrev pub is_step_ok : StepStatus → Bool
is_step_ok StepStatus.ok = true
is_step_ok _ = false

abbrev pub is_step_paused : StepStatus → Bool
is_step_paused StepStatus.paused = true
is_step_paused _ = false

abbrev pub is_step_running : StepStatus → Bool
is_step_running StepStatus.running = true
is_step_running _ = false

abbrev pub is_step_timed_out : StepStatus → Bool
is_step_timed_out StepStatus.timed_out = true
is_step_timed_out _ = false

abbrev pub is_step_failed : StepStatus → Bool
is_step_failed StepStatus.failed = true
is_step_failed _ = false

abbrev pub is_run_paused : RunStatus → Bool
is_run_paused RunStatus.paused = true
is_run_paused _ = false

-- `run.Status == "" || run.Status == RunStatusPending`
abbrev pub is_run_new : RunStatus → Bool
is_run_new RunStatus.unset = true
is_run_new RunStatus.pending = true
is_run_new _ = false

abbrev pub is_blank : Stamp → Bool
is_blank blank = true
is_blank _ = false

-- t.Format(time.RFC3339), which drops the fraction of a second. A time counts nanoseconds.
unfoldable pub format : ℕ → Stamp
format t = at (t / 1000000000)

-- The milliseconds of a difference in seconds. A time.Duration stops at 2^63 - 1 nanoseconds.
unfoldable pub milliseconds : ℕ → ℕ
milliseconds s = if leb (s * 1000) 9223372036854 then s * 1000 else 9223372036854

unfoldable pub duration_between : ℕ → ℕ → ℤ
duration_between start end =
    if leb start end
    then pos (milliseconds (end - start))
    else negsuc (milliseconds (start - end) - 1)

unfoldable pub duration_ms : Stamp → Stamp → ℤ
unfolding duration_between milliseconds
duration_ms (at start) (at end) = duration_between start end
duration_ms _ _ = pos 0

unfoldable pub checkpoint : ℕ → String → String → String → WorkflowCheckpoint
checkpoint now step_id status last_err = record {
  current_step_id = step_id;
  current_status = status;
  updated_at = format now;
  last_error = last_err;
}
