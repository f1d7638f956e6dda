-- ===== src/Workflow/Soundness.antt =====
-- platform/workflow/runtime/workflow_runtime.go: a run is stored and returned as succeeded only if all
-- of its steps have succeeded.
use runfabric.Prelude.{
  ℕ, zero, suc, String, ◌≡◌, ◌≢◌, refl, inl, inr, Option, none, some, All, ◌||◌, ltb, get_elem?,
  Option-cases, Bool-cases, subst, sym,
}
use runfabric.Workflow.Runs.{
  WorkflowRun, WorkflowStepRun, RunStatus, StepStatus, is_step_failed, is_step_timed_out,
}
use runfabric.Workflow.World.{
  World, Handler, Reply, Done, CtxErr, deadline_exceeded, canceled, loaded, stamped, written,
  StepExecutionResult,
}
use runfabric.Workflow.Keeps.{
  OnSome, Keeps, if-Keeps, with_save-Keeps, with_load-Keeps, after_call-OnSome,
}
use runfabric.Workflow.Step.{
  end_run, cancelled_run, mark_cancelled, begin_attempt, update_step, on_success, run_failure,
  give_up, abort_run, abort, retry_run, sleep,
}
use runfabric.Workflow.Attempts.{
  after_backoff, succeeded, exhausted, reply_at, on_failure, after_handler, after_reply,
  run_attempt, attempt_step, attempts, execute_step,
}

-- A run that succeeded has only steps that did, and is not to be replayed.
abbrev pub IsSound : WorkflowRun → Type 0
IsSound r =
    r.status ≡ RunStatus.ok
    → All (λ (s : WorkflowStepRun). s.status ≡ StepStatus.ok) r.steps × (r.replay_from_step ≡ "")

abbrev pub IsOpen : WorkflowRun → Type 0
IsOpen r = r.status ≢ RunStatus.ok

abbrev IsRunning : WorkflowRun → Type 0
IsRunning r = r.status ≡ RunStatus.running

-- A failed step gives a failed run.
pub IsOpen-run_failure : (s : StepStatus) → run_failure s ≢ RunStatus.ok
unfolding run_failure
IsOpen-run_failure StepStatus.timed_out e = cc
IsOpen-run_failure _ e = cc

pub mark_cancelled-Keeps :
    (run : WorkflowRun) (idx : ℕ) (w : World)
    → OnSome IsSound w.stored
    → Keeps IsSound IsOpen (mark_cancelled run idx w)
unfolding mark_cancelled cancelled_run stamped written
mark_cancelled-Keeps run idx w h = with_save-Keeps IsSound IsOpen _ w _ h ((λ e. cc), (λ e. cc))

on_success-Keeps :
    (idx : ℕ) (res : Option StepExecutionResult) (run : WorkflowRun) (w : World)
    → IsRunning run
    → OnSome IsSound w.stored
    → Keeps IsSound IsOpen (on_success idx res run w)
unfolding on_success update_step stamped written
on_success-Keeps idx none run w r h = with_save-Keeps IsSound IsOpen _ w _ h ((λ e. cc), (λ e. cc))
on_success-Keeps idx (some res) run w r h = elim (Bool-cases res.pause) [
  | inl p ↦ rw p (with_save-Keeps IsSound IsOpen _ w _ h ((λ e. cc), (λ e. cc)))
  | inr p ↦ rw p (with_save-Keeps IsSound IsOpen _ w _ h ((λ e. cc), (λ e. cc)))
]

give_up-Keeps :
    (idx : ℕ) (status : StepStatus) (text : String) (run : WorkflowRun) (w : World)
    → OnSome IsSound w.stored
    → Keeps IsSound IsOpen (give_up idx status text run w)
unfolding give_up end_run stamped written
give_up-Keeps idx status text run w h =
    with_save-Keeps IsSound IsOpen _ w _ h
      ((λ e. absurd (IsOpen-run_failure status e)), IsOpen-run_failure status)

abort-Keeps :
    (idx : ℕ) (c : CtxErr) (run : WorkflowRun) (w : World)
    → OnSome IsSound w.stored
    → Keeps IsSound IsOpen (abort idx c run w)
unfolding abort abort_run end_run stamped written
abort-Keeps idx deadline_exceeded run w h =
    with_save-Keeps IsSound IsOpen _ w _ h ((λ e. cc), (λ e. cc))
abort-Keeps idx canceled run w h = with_save-Keeps IsSound IsOpen _ w _ h ((λ e. cc), (λ e. cc))

exhausted-Keeps :
    (idx : ℕ) (run : WorkflowRun) (w : World)
    → OnSome IsSound w.stored
    → IsOpen run
    → Keeps IsSound IsOpen (exhausted idx run w)
unfolding exhausted end_run stamped written
exhausted-Keeps idx run w h o = elim (Option-cases (get_elem? run.steps idx)) [
  | inl e ↦ rw (e, exhausted) (h, o)
  | inr (s, e) ↦
      rw (e, exhausted)
        (elim (Bool-cases (is_step_failed s.status || is_step_timed_out s.status)) [
          | inl f ↦ rw f (
              with_save-Keeps IsSound IsOpen _ w _ h
                ((λ e. absurd (IsOpen-run_failure s.status e)), IsOpen-run_failure s.status))
          | inr f ↦ rw f (h, o)
        ])
]

-- What the rest of a function is asked to keep.
abbrev pub Next : (WorkflowRun → World → Done) → Type 0
Next next =
    (run : WorkflowRun) (w : World)
    → OnSome IsSound w.stored
    → IsOpen run
    → Keeps IsSound IsOpen (next run w)

after_backoff-Keeps :
    (idx : ℕ) (c : Option CtxErr) (next : WorkflowRun → World → Done) (run : WorkflowRun)
    (w : World)
    → Next next
    → IsRunning run
    → OnSome IsSound w.stored
    → Keeps IsSound IsOpen (after_backoff idx c next run w)
unfolding after_backoff
after_backoff-Keeps idx (some c) next run w k r h = abort-Keeps idx c run w h
after_backoff-Keeps idx none next run w k r h = k run w h (λ e. cc)

on_failure-Keeps :
    (idx attempt max : ℕ) (reply : Reply) (next : WorkflowRun → World → Done) (run : WorkflowRun)
    (w : World)
    → Next next
    → IsRunning run
    → OnSome IsSound w.stored
    → Keeps IsSound IsOpen (on_failure idx attempt max reply next run w)
unfolding on_failure update_step retry_run sleep stamped written
on_failure-Keeps idx attempt max reply next run w k r h =
    with_save-Keeps IsSound IsOpen _ w _ h (elim (Bool-cases (ltb attempt max)) [
      | inl f ↦ rw f (
          with_save-Keeps IsSound IsOpen _ _ _ (λ e. cc)
            (after_backoff-Keeps idx reply.run_ctx_err next _ _ k r (λ e. cc)))
      | inr f ↦ rw f (give_up-Keeps idx _ _ _ _ (λ e. cc))
    ])

running-IsSound : (o : Option WorkflowRun) → OnSome IsRunning o → OnSome IsSound o
running-IsSound none h = tt
running-IsSound (some r) h = λ e. cc

after_handler-Keeps :
    (idx attempt max : ℕ) (reply : Reply) (next : WorkflowRun → World → Done) (w : World)
    → Next next
    → OnSome IsRunning w.stored
    → Keeps IsSound IsOpen (after_handler idx attempt max reply next w)
unfolding after_handler
after_handler-Keeps idx attempt max reply next w k h =
    let sound = running-IsSound w.stored h in
    with_load-Keeps IsSound IsOpen w _ sound λ r e.
      let running : IsRunning r = subst (λ (o : Option WorkflowRun). OnSome IsRunning o) e h in
      elim (Bool-cases (succeeded reply)) [
        | inl f ↦ rw f (on_success-Keeps idx reply.result r (loaded w) running sound)
        | inr f ↦ rw f (on_failure-Keeps idx attempt max reply next r (loaded w) k running sound)
      ]

after_reply-Keeps :
    (idx attempt max : ℕ) (next : WorkflowRun → World → Done) (reply : Option Reply)
    (run : WorkflowRun) (w : World)
    → Next next
    → w.stored ≡ some run
    → IsRunning run
    → Keeps IsSound IsOpen (after_reply idx attempt max next reply run w)
unfolding after_reply stamped
after_reply-Keeps idx attempt max next none run w k e r =
    (subst (λ (o : Option WorkflowRun). OnSome IsSound o) (sym e) (λ e. cc), λ e. cc)
after_reply-Keeps idx attempt max next (some reply) run w k e r =
    after_handler-Keeps idx attempt max reply next _ k (
      after_call-OnSome IsRunning (λ run w h. h) reply w
        (subst (λ (o : Option WorkflowRun). OnSome IsRunning o) (sym e) r))

module _ (handler : Handler) where
  run_attempt-Keeps :
      (idx attempt max : ℕ) (next : WorkflowRun → World → Done) (latest : WorkflowRun) (w : World)
      → Next next
      → OnSome IsSound w.stored
      → Keeps IsSound IsOpen (run_attempt handler idx attempt max next latest w)
  unfolding run_attempt begin_attempt stamped written
  run_attempt-Keeps idx attempt max next latest w k h =
      with_save-Keeps IsSound IsOpen _ w _ h
        (after_reply-Keeps idx attempt max next (reply_at handler idx _ _) _ _ k refl refl)

  attempt_step-Keeps :
      (idx attempt max : ℕ) (next : WorkflowRun → World → Done) (w : World)
      → Next next
      → OnSome IsSound w.stored
      → Keeps IsSound IsOpen (attempt_step handler idx attempt max next w)
  unfolding attempt_step
  attempt_step-Keeps idx attempt max next w k h = with_load-Keeps IsSound IsOpen w _ h λ latest e.
      if-Keeps IsSound IsOpen latest.cancel_requested _ _
        (λ _. mark_cancelled-Keeps latest idx (loaded w) h)
        (λ _. run_attempt-Keeps idx attempt max next latest (loaded w) k h)

  attempts-Keeps : (left idx attempt max : ℕ) → Next (attempts handler left idx attempt max)
  unfolding attempts
  attempts-Keeps zero idx attempt max run w h o = exhausted-Keeps idx run w h o
  attempts-Keeps (suc left) idx attempt max run w h o =
      attempt_step-Keeps idx attempt max (attempts handler left idx (suc attempt) max) w
        (attempts-Keeps left idx (suc attempt) max) h

  pub execute_step-Keeps : (idx : ℕ) → Next (execute_step handler idx)
  unfolding execute_step
  execute_step-Keeps idx run w h o = elim (Option-cases (get_elem? run.steps idx)) [
    | inl e ↦ rw (e, execute_step) (h, o)
    | inr (s, e) ↦ rw (e, execute_step) (attempts-Keeps _ idx _ _ run w h o)
  ]
