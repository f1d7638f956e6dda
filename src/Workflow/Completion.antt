-- ===== src/Workflow/Completion.antt =====
-- platform/workflow/runtime/workflow_runtime.go: what the resumption of a run says of its steps.
use runfabric.Prelude.{
  ℕ, zero, suc, ◌=?=◌, ◌≡◌, refl, inl, inr, false, ◌&&◌, Option, none, some, List, [], ◌∷◌, All,
  arith, get_elem?, Option-cases, Bool-cases, subst, eq_iff,
}
use runfabric.Errors.{Error}
use runfabric.Workflow.Runs.{
  WorkflowRun, WorkflowStepRun, StepStatus, is_step_ok, is_step_paused, is_step_running,
  is_run_paused, is_run_new, is_workflow_run_terminal,
}
use runfabric.Workflow.World.{World, Handler, Done, loaded, stamped, written}
use runfabric.Workflow.Keeps.{OnSome, Keeps, if-Keeps, with_save-Keeps, with_load-Keeps}
use runfabric.Workflow.Step.{end_run}
use runfabric.Workflow.Soundness.{
  IsSound, IsOpen, IsOpen-run_failure, mark_cancelled-Keeps, execute_step-Keeps,
}
use runfabric.Workflow.Resume.{
  first_unsuccessful_step, unsuccessful_run, successful_run, finish_run, approval_decision,
  await_approval, approved, restarted, prepare_step, after_run, after_error, after_step, run_step,
  is_skipped, loop_body, steps_loop, run_all, started, resume_run,
}

-- There is no unsuccessful step exactly if every step is ok.
first_unsuccessful_step-none :
    (steps : List WorkflowStepRun)
    → first_unsuccessful_step steps ≡ none
    → All (λ (s : WorkflowStepRun). s.status ≡ StepStatus.ok) steps
unfolding first_unsuccessful_step
first_unsuccessful_step-none [] h = tt
first_unsuccessful_step-none (s ∷ rest) h = elim (Bool-cases (is_step_ok s.status)) [
  | inl e ↦ (ground arith, first_unsuccessful_step-none rest (rw e at h))
  | inr e ↦ let n : some s ≡ none = rw e at h in cc n
]

-- The run that a function returns may have succeeded, and is sound either way.
abbrev Next : (WorkflowRun → World → Done) → Type 0
Next next =
    (run : WorkflowRun) (w : World)
    → OnSome IsSound w.stored
    → IsOpen run
    → Keeps IsSound IsSound (next run w)

open-IsSound : (o : Option WorkflowRun) → OnSome IsOpen o → OnSome IsSound o
open-IsSound none h = tt
open-IsSound (some r) h = λ e. absurd (h e)

finish_run-Keeps : Next finish_run
unfolding finish_run unsuccessful_run successful_run end_run stamped written
finish_run-Keeps run w h o = elim (Option-cases (first_unsuccessful_step run.steps)) [
  | inl e ↦
      let all = first_unsuccessful_step-none run.steps e in
      rw (e, finish_run)
        (with_save-Keeps IsSound IsSound _ w _ h ((λ _. (all, refl)), (λ _. (all, refl))))
  | inr (s, e) ↦
      rw (e, finish_run)
        (with_save-Keeps IsSound IsSound _ w _ h (
          (λ x. absurd (IsOpen-run_failure s.status x)),
          (λ x. absurd (IsOpen-run_failure s.status x)),
        ))
]

prepare_step-Keeps :
    (idx : ℕ) (s : WorkflowStepRun) (rest : WorkflowRun → World → Done) (run : WorkflowRun)
    (w : World)
    → Next rest
    → OnSome IsSound w.stored
    → IsOpen run
    → Keeps IsSound IsSound (prepare_step idx s run w rest)
unfolding prepare_step await_approval approved restarted stamped written
prepare_step-Keeps idx s rest run w k h o =
    if-Keeps IsSound IsSound (is_step_paused s.status) _ _
      (λ _.
        if-Keeps IsSound IsSound (approval_decision s =?= "") _ _
          (λ _. with_save-Keeps IsSound IsSound _ w _ h ((λ e. cc), (λ e. cc)))
          (λ _. with_save-Keeps IsSound IsSound _ w _ h (k _ _ (λ e. absurd (o e)) o)))
      (λ _.
        if-Keeps IsSound IsSound (is_step_running s.status) _ _
          (λ _. with_save-Keeps IsSound IsSound _ w _ h (k _ _ (λ e. absurd (o e)) o))
          (λ _. k run w h o))

after_run-Keeps :
    (o : Option WorkflowRun) (d : Done) (next : WorkflowRun → World → Done)
    → Next next
    → OnSome IsOpen o
    → Keeps IsSound IsSound d
    → Keeps IsSound IsSound (after_run o d next)
unfolding after_run
after_run-Keeps none d next k o h = h
after_run-Keeps (some r) d next k o h =
    if-Keeps IsSound IsSound (is_run_paused r.status) _ _ (λ _. h) (λ _. k r d.world h.0 o)

after_step-Keeps :
    (d : Done) (next : WorkflowRun → World → Done)
    → Next next
    → Keeps IsSound IsOpen d
    → Keeps IsSound IsSound (after_step d next)
unfolding after_step
after_step-Keeps d next k h = decided d.error
  where
    decided : (e : Option Error) → Keeps IsSound IsSound (after_error e d next)
    decided (some e) = (h.0, open-IsSound d.run h.1)
    decided none = after_run-Keeps d.run d next k h.1 (h.0, open-IsSound d.run h.1)

-- What is not returned early: a run that has not succeeded.
IsOpen-unless_returned :
    (r : WorkflowRun)
    → IsSound r
    → (is_workflow_run_terminal r.status && r.replay_from_step =?= "") ≡ false
    → IsOpen r
unfolding is_workflow_run_terminal
IsOpen-unless_returned r sound b e =
    let f : (r.replay_from_step =?= "") ≡ false = rw e at b in
    cc (f, (eq_iff r.replay_from_step "").1 (sound e).1)

module _ (handler : Handler) where
  run_step-Keeps :
      (idx : ℕ) (s : WorkflowStepRun) (next : WorkflowRun → World → Done)
      → Next next
      → Next (run_step handler idx s next)
  unfolding run_step
  run_step-Keeps idx s next k run w h o =
      prepare_step-Keeps idx s _ run w
        (λ run' w' h' o'.
          if-Keeps IsSound IsSound run'.cancel_requested _ _
            (λ _. let c = mark_cancelled-Keeps run' idx w' h' in (c.0, open-IsSound _ c.1))
            (λ _. after_step-Keeps _ next k (execute_step-Keeps handler idx run' w' h' o')))
        h o

  loop_body-Keeps :
      (idx : ℕ) (start : Option ℕ) (next : WorkflowRun → World → Done)
      → Next next
      → Next (loop_body handler idx start next)
  unfolding loop_body
  loop_body-Keeps idx start next k run w h o = elim (Option-cases (get_elem? run.steps idx)) [
    | inl e ↦ rw (e, loop_body) (k run w h o)
    | inr (s, e) ↦
        rw (e, loop_body)
          (if-Keeps IsSound IsSound (is_skipped start idx s) _ _ (λ _. k run w h o)
            (λ _. run_step-Keeps idx s next k run w h o))
  ]

  steps_loop-Keeps : (left idx : ℕ) (start : Option ℕ) → Next (steps_loop handler left idx start)
  unfolding steps_loop
  steps_loop-Keeps zero idx start run w h o = finish_run-Keeps run w h o
  steps_loop-Keeps (suc left) idx start run w h o =
      loop_body-Keeps idx start _ (steps_loop-Keeps left (suc idx) start) run w h o

  -- If the stored run counts as succeeded only where all of its steps have, then so it does after a
  -- resumption, whatever the handler replies, whether or not the run is cancelled during a call of
  -- it, and whichever of the loads and saves of the resumption fail, each for itself; and the run
  -- that the resumption returns counts as succeeded only where all of its steps have.
  pub resume_run-IsSound :
      (w : World) → OnSome IsSound w.stored → Keeps IsSound IsSound (resume_run handler w)
  unfolding resume_run run_all started stamped written
  resume_run-IsSound w h = with_load-Keeps IsSound IsSound w _ h λ r e.
      let sound : IsSound r = subst (λ (o : Option WorkflowRun). OnSome IsSound o) e h in
      if-Keeps IsSound IsSound (is_workflow_run_terminal r.status && r.replay_from_step =?= "") _ _
        (λ _. (h, sound))
        (λ b.
          let o = IsOpen-unless_returned r sound b in
          if-Keeps IsSound IsSound (is_run_new r.status) _ _
            (λ _.
              with_save-Keeps IsSound IsSound _ (loaded w) _ h
                (steps_loop-Keeps _ 0 _ _ _ (λ e. cc) (λ e. cc)))
            (λ _. steps_loop-Keeps _ 0 _ r (loaded w) h o))
