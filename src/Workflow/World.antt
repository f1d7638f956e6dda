-- ===== src/Workflow/World.antt =====
-- What the runtime works on where no other store is set: the file of the run of `stage` and `run_id`,
-- the clock, and the step handler. A file is taken to hold a run of its own stage and id, and one
-- that does not parse fails every load, as one that cannot be read. Which loads and saves fail is
-- told by their number, so that one may fail after others of the same operation have worked. A save
-- of a run with another id moves on to the file of that run.
use runfabric.Prelude.{
  ℕ, suc, ◌+◌, String, ◌=?=◌, Bool, true, Option, none, some, List, if◌then◌else◌,
}
use runfabric.Errors.{Error, not_exist, io, message, Result, ok, err}
use runfabric.Workflow.Runs.{WorkflowRun, WorkflowStepRun, Any, format}

pub data CtxErr : Type 0 where
  deadline_exceeded canceled : CtxErr

unfoldable pub ctx_err_text : CtxErr → String
ctx_err_text deadline_exceeded = "context deadline exceeded"
ctx_err_text canceled = "context canceled"

pub record StepExecutionResult : Type 0 where
  pub output : List (String × Any)
  pub metadata : List (String × Any)
  pub pause : Bool
  pub pause_reason : String

-- One call of the handler, and what happens around it: `result` is `nil` or a result, `exec_err` the
-- text of the handler's error, `ctx_err` the error of the step's context, `run_ctx_err` that of the
-- run's context after the backoff, `cancels` whether a CancelRun arrived during the call, and
-- `elapsed` the time that the call took.
pub record Reply : Type 0 where
  pub result : Option StepExecutionResult
  pub exec_err : Option String
  pub ctx_err : Option CtxErr
  pub run_ctx_err : Option CtxErr
  pub cancels : Bool
  pub elapsed : ℕ

-- `calls` counts the handler's calls, so that each may have another reply.
abbrev pub Handler : Type 0
Handler = ℕ → WorkflowRun → WorkflowStepRun → Reply

pub record World : Type 0 where
  pub stage : String
  pub run_id : String
  pub stored : Option WorkflowRun
  -- which of the loads fail, by their number, and which of the saves
  pub load_fails : ℕ → Bool
  pub save_fails : ℕ → Bool
  pub loads : ℕ
  pub saves : ℕ
  pub now : ℕ
  pub calls : ℕ

-- What a function of the runtime returns, `(*WorkflowRun, error)`, with the world that it leaves.
pub record Done : Type 0 where
  pub run : Option WorkflowRun
  pub error : Option Error
  pub world : World

abbrev pub done : Option WorkflowRun → Option Error → World → Done
done run error w = record { run = run; error = error; world = w }

-- The next load, or save, is another one.
abbrev pub loaded : World → World
loaded w = record w { loads = suc w.loads }

abbrev pub unsaved : World → World
unsaved w = record w { saves = suc w.saves }

-- LoadWorkflowRun of the run in question
unfoldable pub load_run : World → Result WorkflowRun
load_run w =
    if w.stage =?= ""
    then err (message "stage is required")
    else if w.run_id =?= ""
    then err (message "runId is required")
    else if w.load_fails w.loads
    then err io
    else elim w.stored [ none ↦ err not_exist | some r ↦ ok r ]

-- The checks of SaveWorkflowRun.
unfoldable pub save_refusal : WorkflowRun → World → Option Error
save_refusal run w =
    if run.run_id =?= ""
    then some (message "runId is required")
    else if run.stage =?= ""
    then some (message "stage is required")
    else if w.save_fails w.saves
    then some io
    else none

-- SaveWorkflowRun stamps the run that it is given, and the file gets that run.
unfoldable pub stamped : WorkflowRun → World → WorkflowRun
stamped run w = record run { updated_at = format w.now }

unfoldable pub written : WorkflowRun → World → World
unfolding stamped
written run w = record w {
  stage = run.stage;
  run_id = run.run_id;
  stored = some (stamped run w);
  saves = suc w.saves;
}

-- `if err := r.saveRun(run); err != nil { return nil, err }` and the rest of the function.
unfoldable pub with_save : WorkflowRun → World → (WorkflowRun → World → Done) → Done
with_save run w rest = elim (save_refusal run w) [
  | some e ↦ done none (some e) (unsaved w)
  | none ↦ rest (stamped run w) (written run w)
]

-- `run, err := r.loadRun(…); if err != nil { return nil, err }` and the rest of the function.
unfoldable pub with_load : World → (WorkflowRun → World → Done) → Done
with_load w rest = elim (load_run w) [
  | err e ↦ done none (some e) (loaded w)
  | ok run ↦ rest run (loaded w)
]

-- MarkWorkflowRunCancelRequested, which takes no lock.
unfoldable pub mark_cancel_requested : World → Option Error × World
unfolding written load_run save_refusal
mark_cancel_requested w = elim (load_run w) [
  | err e ↦ (some e, loaded w)
  | ok run ↦
      let run' = record run { cancel_requested = true } in
      let w' = loaded w in
      elim (save_refusal run' w') [ some e ↦ (some e, unsaved w') | none ↦ (none, written run' w') ]
]

-- The handler's call, after which the world has moved on.
unfoldable pub after_call : Reply → World → World
after_call r w =
    let w' = record w { calls = suc w.calls; now = w.now + r.elapsed } in
    if r.cancels then (mark_cancel_requested w').1 else w'
