-- ===== src/Workflow/Budget.antt =====
-- platform/workflow/runtime/workflow_runtime.go: how often executeStep calls the handler.
use runfabric.Prelude.{
  ℕ, zero, suc, ◌+◌, ◌-◌, ◌≤◌, ◌≡◌, refl, inl, inr, Bool, true, false, Option, none, some, arith,
  if◌then◌else◌, ltb, get_elem?, Option-cases,
}
use runfabric.Errors.{ok, err}
use runfabric.Workflow.Runs.{WorkflowRun, WorkflowStepRun}
use runfabric.Workflow.World.{
  World, Handler, Reply, Done, CtxErr, done, loaded, unsaved, stamped, written, load_run,
  save_refusal, with_save, with_load, mark_cancel_requested, after_call, StepExecutionResult,
}
use runfabric.Workflow.Keeps.{mark_cancel_requested_cases}
use runfabric.Workflow.Step.{mark_cancelled, on_success, give_up, abort, sleep}
use runfabric.Workflow.Attempts.{
  after_backoff, exhausted, on_failure, after_handler, after_reply, run_attempt, attempt_step,
  attempts, max_attempts_of, execute_step,
}

-- At most `n` calls of the handler have been made.
abbrev Within : ℕ → Done → Type 0
Within n d = d.world.calls ≤ n

with_save-Within :
    (n : ℕ) (run : WorkflowRun) (w : World) (rest : WorkflowRun → World → Done)
    → w.calls ≤ n
    → Within n (rest (stamped run w) (written run w))
    → Within n (with_save run w rest)
unfolding with_save
with_save-Within n run w rest h k =
    elim (save_refusal run w)
      as (λ o. Within n (elim o [
        | some e ↦ done none (some e) (unsaved w)
        | none ↦ rest (stamped run w) (written run w)
      ])) [ none ↦ k | some e ↦ h ]

with_load-Within :
    (n : ℕ) (w : World) (rest : WorkflowRun → World → Done)
    → w.calls ≤ n
    → ((r : WorkflowRun) → Within n (rest r (loaded w)))
    → Within n (with_load w rest)
unfolding with_load
with_load-Within n w rest h k =
    elim (load_run w)
      as (λ o.
        Within n
          (elim o [ err e ↦ done none (some e) (loaded w) | ok run ↦ rest run (loaded w) ])) [
            | err e ↦ h
            | ok r ↦ k r
          ]

if-Within :
    (n : ℕ) (b : Bool) (x y : Done) → Within n x → Within n y → Within n (if b then x else y)
if-Within n true x y h k = h
if-Within n false x y h k = k

-- A cancel request is no call, and the handler's call is one.
calls-mark_cancel_requested : (w : World) → (mark_cancel_requested w).1.calls ≡ w.calls
calls-mark_cancel_requested w = (mark_cancel_requested_cases w).1

calls-after_call : (r : Reply) (w : World) → (after_call r w).calls ≡ suc w.calls
unfolding after_call
calls-after_call r w =
    let w' : World = record w { calls = suc w.calls; now = w.now + r.elapsed } in
    elim r.cancels as (λ b. (if b then (mark_cancel_requested w').1 else w').calls ≡ suc w.calls) [
      | true ↦ calls-mark_cancel_requested w'
      | false ↦ refl
    ]

-- The rest of the loop, where it may make `left` calls more.
abbrev Next : ℕ → (WorkflowRun → World → Done) → Type 0
Next left next = (run : WorkflowRun) (w : World) → Within (w.calls + left) (next run w)

module _ (n : ℕ) where
  mark_cancelled-Within :
      (run : WorkflowRun) (idx : ℕ) (w : World) → w.calls ≤ n → Within n (mark_cancelled run idx w)
  unfolding mark_cancelled written
  mark_cancelled-Within run idx w h = with_save-Within n _ w _ h h

  exhausted-Within :
      (idx : ℕ) (run : WorkflowRun) (w : World) → w.calls ≤ n → Within n (exhausted idx run w)
  unfolding exhausted written
  exhausted-Within idx run w h = elim (Option-cases (get_elem? run.steps idx)) [
    | inl e ↦ rw (e, exhausted) h
    | inr (s, e) ↦ rw (e, exhausted) (if-Within n _ _ _ (with_save-Within n _ w _ h h) h)
  ]

  on_success-Within :
      (idx : ℕ) (res : Option StepExecutionResult) (run : WorkflowRun) (w : World)
      → w.calls ≤ n
      → Within n (on_success idx res run w)
  unfolding on_success written
  on_success-Within idx none run w h = with_save-Within n _ w _ h h
  on_success-Within idx (some res) run w h =
      if-Within n res.pause _ _ (with_save-Within n _ w _ h h) (with_save-Within n _ w _ h h)

  after_backoff-Within :
      (idx left : ℕ) (c : Option CtxErr) (next : WorkflowRun → World → Done) (run : WorkflowRun)
      (w : World)
      → Next left next
      → w.calls + left ≤ n
      → Within n (after_backoff idx c next run w)
  unfolding after_backoff abort written
  after_backoff-Within idx left (some c) next run w k h =
      with_save-Within n _ w _ (omega arith) (omega arith)
  after_backoff-Within idx left none next run w k h = omega (arith, k run w)

  on_failure-Within :
      (idx attempt max left : ℕ) (reply : Reply) (next : WorkflowRun → World → Done)
      (run : WorkflowRun) (w : World)
      → Next left next
      → w.calls + left ≤ n
      → Within n (on_failure idx attempt max reply next run w)
  unfolding on_failure written sleep give_up
  on_failure-Within idx attempt max left reply next run w k h =
      let m : w.calls ≤ n = omega arith in
      with_save-Within n _ w _ m (
        if-Within n (ltb attempt max) _ _
          (with_save-Within n _ _ _ m
            (after_backoff-Within idx left reply.run_ctx_err next _ _ k h))
          (with_save-Within n _ _ _ m m))

  after_handler-Within :
      (idx attempt max left : ℕ) (reply : Reply) (next : WorkflowRun → World → Done) (w : World)
      → Next left next
      → w.calls + left ≤ n
      → Within n (after_handler idx attempt max reply next w)
  unfolding after_handler
  after_handler-Within idx attempt max left reply next w k h =
      let m : w.calls ≤ n = omega arith in
      with_load-Within n w _ m λ run.
        if-Within n _ _ _ (on_success-Within idx reply.result run (loaded w) m)
          (on_failure-Within idx attempt max left reply next run (loaded w) k h)

after_reply-Within :
    (n idx attempt max left : ℕ) (next : WorkflowRun → World → Done) (reply : Option Reply)
    (run : WorkflowRun) (w : World)
    → Next left next
    → w.calls + suc left ≤ n
    → Within n (after_reply idx attempt max next reply run w)
unfolding after_reply
after_reply-Within n idx attempt max left next none run w k h = omega arith
after_reply-Within n idx attempt max left next (some reply) run w k h =
    after_handler-Within n idx attempt max left reply next _ k
      (omega (arith, calls-after_call reply w))

module _ (handler : Handler) where
  attempts-Within :
      (left idx attempt max : ℕ) (run : WorkflowRun) (w : World)
      → Within (w.calls + left) (attempts handler left idx attempt max run w)
  unfolding attempts attempt_step run_attempt written
  attempts-Within zero idx attempt max run w = exhausted-Within _ idx run w (omega arith)
  attempts-Within (suc left) idx attempt max run w =
      let m : w.calls ≤ w.calls + suc left = omega arith in
      with_load-Within _ w _ m λ latest.
        if-Within _ latest.cancel_requested _ _ (mark_cancelled-Within _ latest idx (loaded w) m) (
          with_save-Within _ _ (loaded w) _ m (
            after_reply-Within _ idx attempt max left _ _ _ _
              (attempts-Within left idx (suc attempt) max) (omega arith)))

  -- Executing a step calls the handler at most as often as the step has attempts left: the greater
  -- of its maximum and 1, less the attempts that its run has counted so far. So a step whose
  -- attempts are used up is not tried again, whatever happens to the stored run meanwhile.
  pub attempt_budget :
      (idx : ℕ) (run : WorkflowRun) (s : WorkflowStepRun) (w : World)
      → get_elem? run.steps idx ≡ some s
      → (execute_step handler idx run w).world.calls
        ≤ w.calls + (max_attempts_of s - s.attempt_count)
  unfolding execute_step
  attempt_budget idx run s w e = rw (e, execute_step) (attempts-Within _ idx _ _ run w)
