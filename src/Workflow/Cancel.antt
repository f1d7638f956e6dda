-- ===== src/Workflow/Cancel.antt =====
-- platform/workflow/runtime/workflow_runtime.go: what a cancel request does to a run.
use runfabric.Prelude.{
  ℕ, zero, suc, ◌-◌, ◌≤◌, ◌<◌, ◌≡◌, ◌≢◌, refl, inl, inr, ◌⊎◌, Bool, true, false, none, some,
  get_elem?, get_elem?-modify_from, get_elem?-modify_from_before, Bool-cases, subst, ltb, sym,
  if◌then◌else◌,
}
use runfabric.Errors.{Result-cases}
use runfabric.Workflow.Runs.{
  WorkflowRun, WorkflowStepRun, RunStatus, StepStatus, is_workflow_step_terminal,
}
use runfabric.Workflow.World.{
  World, Handler, Done, done, loaded, unsaved, stamped, written, load_run, save_refusal, with_load,
  with_save,
}
use runfabric.Workflow.Keeps.{stored-load_run}
use runfabric.Workflow.Step.{cancel_step, cancelled_run, mark_cancelled, end_run}
use runfabric.Workflow.Attempts.{attempts, attempt_step, max_attempts_of, execute_step}

cancel_step-id :
    (now : ℕ) (s : WorkflowStepRun)
    → is_workflow_step_terminal s.status ≡ true
    → cancel_step now s ≡ s
unfolding cancel_step
cancel_step-id now s e = rw (e, cancel_step) refl

cancel_step_cases :
    (now : ℕ) (s : WorkflowStepRun)
    → ((is_workflow_step_terminal s.status ≡ true) × (cancel_step now s ≡ s))
      ⊎ ((is_workflow_step_terminal s.status ≡ false)
          × ((cancel_step now s).status ≡ StepStatus.cancelled))
unfolding cancel_step
cancel_step_cases now s = elim (Bool-cases (is_workflow_step_terminal s.status)) [
  | inl e ↦ inl (e, cancel_step-id now s e)
  | inr e ↦ inr (e, rw (e, cancel_step) refl)
]

-- `after` is `before` marked cancelled from the step `idx` on.
pub record IsCancelled (idx : ℕ) (before after : WorkflowRun) : Type 0 where
  pub status : after.status ≡ RunStatus.cancelled
  pub earlier : (i : ℕ) → i < idx → get_elem? after.steps i ≡ get_elem? before.steps i
  -- a step that was settled stays as it is, and any other is cancelled
  pub later :
      (i : ℕ) (s : WorkflowStepRun)
      → idx ≤ i
      → get_elem? before.steps i ≡ some s
      → (t : WorkflowStepRun) × (get_elem? after.steps i ≡ some t)
        × (((is_workflow_step_terminal s.status ≡ true) × (t ≡ s))
            ⊎ ((is_workflow_step_terminal s.status ≡ false) × (t.status ≡ StepStatus.cancelled)))

-- The handler is not called, and an error leaves the stored run, or the run that is stored and
-- returned is the one before, marked cancelled.
abbrev pub IsStopped : ℕ → WorkflowRun → World → Done → Type 0
IsStopped idx before w d =
    (d.world.calls ≡ w.calls)
    × (((d.error ≢ none) × (d.run ≡ none) × (d.world.stored ≡ w.stored))
        ⊎ ((d.error ≡ none)
            × ((after : WorkflowRun) × (d.run ≡ some after)
                × (d.world.stored ≡ some after)
                × IsCancelled idx before after)))

cancelled_run-IsCancelled :
    (idx now : ℕ) (run : WorkflowRun) (w : World)
    → IsCancelled idx run (stamped (cancelled_run now idx run) w)
unfolding cancelled_run stamped end_run
cancelled_run-IsCancelled idx now run w = record {
  status = refl;
  earlier = λ i h. get_elem?-modify_from_before (cancel_step now) idx i run.steps h;
  later = λ i s h e. (
    cancel_step now s,
    get_elem?-modify_from (cancel_step now) idx i run.steps s h e,
    cancel_step_cases now s,
  );
}

mark_cancelled-IsStopped :
    (idx : ℕ) (run : WorkflowRun) (w : World) → IsStopped idx run w (mark_cancelled run idx w)
unfolding mark_cancelled with_save written
mark_cancelled-IsStopped idx run w =
    let r = cancelled_run w.now idx run in
    elim (save_refusal r w)
      as (λ o. IsStopped idx run w (elim o [
        | some e ↦ done none (some e) (unsaved w)
        | none ↦ done (some (stamped r w)) none (written r w)
      ])) [
        | some e ↦ (refl, inl ((λ p. cc), refl, refl))
        | none ↦
            (refl, inr (refl, (stamped r w, refl, refl, cancelled_run-IsCancelled idx w.now run w)))
      ]

if-IsStopped :
    (idx : ℕ) (before : WorkflowRun) (w : World) (b : Bool) (x y : Done)
    → b ≡ true
    → IsStopped idx before w x
    → IsStopped idx before w (if b then x else y)
if-IsStopped idx before w true x y h k = k
if-IsStopped idx before w false x y h k = cc

module _ (handler : Handler) (idx : ℕ) (run latest : WorkflowRun) (s : WorkflowStepRun)
    (w : World) where
  attempts-IsStopped :
      (left attempt max : ℕ)
      → ltb 0 left ≡ true
      → w.stored ≡ some latest
      → latest.cancel_requested ≡ true
      → IsStopped idx latest w (attempts handler left idx attempt max run w)
  unfolding attempts attempt_step with_load
  attempts-IsStopped zero attempt max h e c = cc
  attempts-IsStopped (suc left) attempt max h e c = elim (Result-cases (load_run w)) [
    | inl (x, f) ↦ rw (f, with_load) (refl, inl ((λ p. cc), refl, refl))
    | inr (r, f) ↦
        let same : latest ≡ r = cc (e, stored-load_run w r f) in
        let asked : r.cancel_requested ≡ true = cc in
        rw (f, with_load)
          (if-IsStopped idx latest w _ _ _ asked (
            subst (λ x. IsStopped idx x w (mark_cancelled r idx (loaded w))) (sym same)
              (mark_cancelled-IsStopped idx r (loaded w))))
  ]

  -- A step with attempts left, whose stored run has a cancel request, is not executed: the handler is
  -- not called. Either the load or the save fails, and with an error the stored run is as it was; or
  -- the run is stored and returned as cancelled, with the steps before this one as they were, and
  -- from this one on every step that was not settled cancelled and every other as it was.
  pub cancel_stops_step :
      get_elem? run.steps idx ≡ some s
      → ltb 0 (max_attempts_of s - s.attempt_count) ≡ true
      → w.stored ≡ some latest
      → latest.cancel_requested ≡ true
      → IsStopped idx latest w (execute_step handler idx run w)
  unfolding execute_step
  cancel_stops_step e b l c = rw (e, execute_step) (attempts-IsStopped _ _ _ b l c)
