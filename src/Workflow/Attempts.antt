-- ===== src/Workflow/Attempts.antt =====
-- platform/workflow/runtime/workflow_runtime.go: the loop of executeStep over the attempts of a step,
-- from the innermost part outwards.
use runfabric.Prelude.{
  ℕ, zero, suc, ◌-◌, ◌<>◌, Bool, true, false, ◌||◌, Option, none, some, ltb, ◌==◌, if◌then◌else◌,
  get_elem?,
}
use runfabric.Errors.{message}
use runfabric.Workflow.Runs.{WorkflowRun, WorkflowStepRun, is_step_timed_out, is_step_failed}
use runfabric.Workflow.World.{
  World, Handler, Reply, CtxErr, Done, done, with_save, with_load, after_call,
}
use runfabric.Workflow.Step.{
  step_checkpoint, end_run, mark_cancelled, begin_attempt, fail_step, update_step, on_success,
  failure_status, failure_text, run_failure, give_up, abort, retry_run, sleep,
}

unfoldable pub succeeded : Reply → Bool
succeeded r = elim r.exec_err [
  | some e ↦ false
  | none ↦ elim r.ctx_err [ some c ↦ false | none ↦ true ]
]

-- After the loop: the attempts were used up before.
unfoldable pub exhausted : ℕ → WorkflowRun → World → Done
exhausted idx run w = elim (get_elem? run.steps idx) [
  | none ↦ done (some run) none w
  | some s ↦
      if is_step_failed s.status || is_step_timed_out s.status
      then with_save
          (record (end_run w.now (record run { status = run_failure s.status })) {
            checkpoint = some (step_checkpoint w.now idx s.status s.error run);
          })
          w
          (λ r w'.
            done (some r) (some (message ("workflow step " <> s.step_id <> " failed: " <> s.error)))
              w')
      else done (some run) none w
]

-- `maxAttempts`, which is at least 1.
unfoldable pub max_attempts_of : WorkflowStepRun → ℕ
max_attempts_of s = if s.max_attempts == 0 then 1 else s.max_attempts

-- `if ctxErr := ctx.Err(); ctxErr != nil`, and else the rest of the loop, `next`.
unfoldable pub after_backoff :
    ℕ → Option CtxErr → (WorkflowRun → World → Done) → WorkflowRun → World → Done
after_backoff idx (some c) next run w = abort idx c run w
after_backoff idx none next run w = next run w

-- A failed attempt: `next` is the rest of the loop.
unfoldable pub on_failure :
    ℕ → ℕ → ℕ → Reply → (WorkflowRun → World → Done) → WorkflowRun → World → Done
on_failure idx attempt max reply next run w =
    let status = failure_status reply.ctx_err in
    let text = failure_text reply.exec_err reply.ctx_err in
    with_save (update_step w.now idx (fail_step status text) status text run) w λ run1 w1.
      if ltb attempt max
      then with_save (retry_run w1.now idx text run1) w1
          (λ run2 w2. after_backoff idx reply.run_ctx_err next run2 (sleep idx run2 w2))
      else give_up idx status text run1 w1

-- After the handler's call the run is loaded again.
unfoldable pub after_handler : ℕ → ℕ → ℕ → Reply → (WorkflowRun → World → Done) → World → Done
after_handler idx attempt max reply next w = with_load w λ run w'.
    if succeeded reply
    then on_success idx reply.result run w'
    else on_failure idx attempt max reply next run w'

-- The handler is called where the step is there.
unfoldable pub after_reply :
    ℕ → ℕ → ℕ → (WorkflowRun → World → Done) → Option Reply → WorkflowRun → World → Done
after_reply idx attempt max next none run w = done (some run) none w
after_reply idx attempt max next (some reply) run w =
    after_handler idx attempt max reply next (after_call reply w)

module _ (handler : Handler) where
  -- The handler's reply to the step as it was saved.
  unfoldable pub reply_at : ℕ → WorkflowRun → World → Option Reply
  reply_at idx run w = elim (get_elem? run.steps idx) [
    | none ↦ none
    | some s ↦ some (handler w.calls run s)
  ]

  unfoldable pub run_attempt : ℕ → ℕ → ℕ → (WorkflowRun → World → Done) → WorkflowRun → World → Done
  run_attempt idx attempt max next latest w =
      with_save (begin_attempt w.now max attempt idx latest) w
        (λ run1 w1. after_reply idx attempt max next (reply_at idx run1 w1) run1 w1)

  -- One round of the loop, which loads the run and looks for a cancel request first.
  unfoldable pub attempt_step : ℕ → ℕ → ℕ → (WorkflowRun → World → Done) → World → Done
  attempt_step idx attempt max next w = with_load w λ latest w'.
      if latest.cancel_requested
      then mark_cancelled latest idx w'
      else run_attempt idx attempt max next latest w'

  -- The loop, with the number of attempts that are left.
  unfoldable pub attempts : ℕ → ℕ → ℕ → ℕ → WorkflowRun → World → Done
  attempts zero idx attempt max run w = exhausted idx run w
  attempts (suc left) idx attempt max run w =
      attempt_step idx attempt max (attempts left idx (suc attempt) max) w

  unfoldable pub execute_step : ℕ → WorkflowRun → World → Done
  execute_step idx run w = elim (get_elem? run.steps idx) [
    | none ↦ done (some run) none w
    | some s ↦
        attempts (max_attempts_of s - s.attempt_count) idx (suc s.attempt_count) (max_attempts_of s)
          run w
  ]
