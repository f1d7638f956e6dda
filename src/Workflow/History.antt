-- ===== src/Workflow/History.antt =====
-- platform/workflow/runtime/workflow_runtime.go: the operations of its clients in any order, with an
-- environment that lets time pass and says which of the loads and saves to come fail.
use runfabric.Prelude.{
  ℕ, ◌+◌, String, ◌=?=◌, ◌≡◌, refl, Bool, Option, none, some, List, [], ◌∷◌, All, subst, sym,
}
use runfabric.Errors.{Error, Result, ok, err}
use runfabric.Workflow.Runs.{WorkflowRun, WorkflowStepRun, RunStatus, StepStatus}
use runfabric.Workflow.World.{World, Handler, Done, loaded, stamped, written}
use runfabric.Workflow.Keeps.{
  OnSome, Keeps, if-Keeps, with_save-Keeps, with_load-Keeps, mark_cancel_requested-OnSome,
}
use runfabric.Workflow.Step.{end_run}
use runfabric.Workflow.Soundness.{IsSound}
use runfabric.Workflow.Completion.{resume_run-IsSound}
use runfabric.Workflow.Control.{
  WorkflowRunSpec, create_run, save_created, save_decision, after_create, replay_from,
  replay_locked, initial_run, without_steps, resolve_approval, decided_run, cancel_run, resume,
  start_run, replay_run_from_step, replayed_run,
}

pub data Op : Type 0 where
  -- the arguments are those of the operations in `Control`
  create : String → WorkflowRunSpec → Op
  start : Option Error → String → WorkflowRunSpec → Op
  resumed : Option Error → Op
  cancel : Op
  replay : Option Error → String → Op
  approve : Option Error → String → String → String → Op
  -- from now on these loads and these saves fail, and so much time has passed
  environment : (ℕ → Bool) → (ℕ → Bool) → ℕ → Op

module _ (handler : Handler) where
  unfoldable pub perform : Op → World → World
  perform (create fresh spec) w = (create_run fresh spec w).world
  perform (start lock fresh spec) w = (start_run handler lock fresh spec w).world
  perform (resumed lock) w = (resume handler lock w).world
  perform cancel w = (cancel_run w).1
  perform (replay lock step_id) w = (replay_run_from_step handler lock step_id w).world
  perform (approve lock step_id decision reviewer) w =
      (resolve_approval lock step_id decision reviewer w).world
  perform (environment load_fails save_fails elapsed) w = record w {
    load_fails = load_fails;
    save_fails = save_fails;
    now = w.now + elapsed;
  }

  unfoldable pub perform_all : List Op → World → World
  unfolding perform
  perform_all [] w = w
  perform_all (op ∷ ops) w = perform_all ops (perform op w)

abbrev Anything : WorkflowRun → Type 0
Anything r = Unit

abbrev Sound : Done → Type 0
Sound = Keeps IsSound Anything

any_run : (o : Option WorkflowRun) → OnSome Anything o
any_run none = tt
any_run (some r) = tt

without_steps-IsSound :
    (now : ℕ) (run : WorkflowRun)
    → run.status ≡ RunStatus.running
    → run.replay_from_step ≡ ""
    → IsSound (without_steps now run)
unfolding without_steps end_run
without_steps-IsSound now run s r = empty run.steps refl
  where
    empty :
        (l : List WorkflowStepRun)
        → run.steps ≡ l
        → IsSound
            (elim l [ [] ↦ end_run now (record run { status = RunStatus.ok }) | x ∷ rest ↦ run ])
    empty [] e =
        λ _. (subst (λ l. All (λ (x : WorkflowStepRun). x.status ≡ StepStatus.ok) l) (sym e) tt, r)
    empty (x ∷ rest) e = λ o. cc (s, o)

save_created-Sound :
    (run_id : String) (spec : WorkflowRunSpec) (steps : Result (List WorkflowStepRun)) (w : World)
    → OnSome IsSound w.stored
    → Sound (save_created run_id spec steps w)
unfolding save_created initial_run stamped written
save_created-Sound run_id spec (err e) w h = (h, tt)
save_created-Sound run_id spec (ok steps) w h =
    with_save-Keeps IsSound Anything _ w _ h
      (without_steps-IsSound w.now (initial_run w.now run_id spec steps) refl refl, tt)

create_run-Sound :
    (fresh : String) (spec : WorkflowRunSpec) (w : World)
    → OnSome IsSound w.stored
    → Sound (create_run fresh spec w)
unfolding create_run
create_run-Sound fresh spec w h =
    if-Keeps IsSound Anything (spec.stage =?= "") _ _ (λ _. (h, tt))
      (λ _.
        if-Keeps IsSound Anything (spec.service =?= "") _ _ (λ _. (h, tt))
          (λ _. save_created-Sound _ spec _ w h))

save_decision-Sound :
    (idx : Option ℕ) (step_id decision reviewer : String) (run : WorkflowRun) (w : World)
    → OnSome IsSound w.stored
    → Sound (save_decision idx step_id decision reviewer run w)
unfolding save_decision decided_run stamped written
save_decision-Sound none step_id decision reviewer run w h = (h, tt)
save_decision-Sound (some idx) step_id decision reviewer run w h =
    with_save-Keeps IsSound Anything _ w _ h ((λ e. cc), tt)

resolve_approval-Sound :
    (lock : Option Error) (step_id decision reviewer : String) (w : World)
    → OnSome IsSound w.stored
    → Sound (resolve_approval lock step_id decision reviewer w)
unfolding resolve_approval
resolve_approval-Sound (some e) step_id decision reviewer w h = (h, tt)
resolve_approval-Sound none step_id decision reviewer w h =
    with_load-Keeps IsSound Anything w _ h λ run _.
      if-Keeps IsSound Anything (decision =?= "") _ _ (λ _. (h, tt))
        (λ _. save_decision-Sound _ step_id decision reviewer run (loaded w) h)

module _ (handler : Handler) where
  resume-Sound :
      (lock : Option Error) (w : World) → OnSome IsSound w.stored → Sound (resume handler lock w)
  unfolding resume
  resume-Sound (some e) w h = (h, tt)
  resume-Sound none w h = ((resume_run-IsSound handler w h).0, any_run _)

  after_create-Sound :
      (lock : Option Error) (created : Done) (e : Option Error)
      → Sound created
      → Sound (after_create handler lock created e)
  unfolding after_create
  after_create-Sound lock created (some e) h = (h.0, tt)
  after_create-Sound lock created none h = resume-Sound lock created.world h.0

  replay_from-Sound :
      (first : Option ℕ) (step_id : String) (run : WorkflowRun) (w : World)
      → OnSome IsSound w.stored
      → Sound (replay_from handler first step_id run w)
  unfolding replay_from replayed_run stamped written
  replay_from-Sound none step_id run w h = (h, tt)
  replay_from-Sound (some first) step_id run w h =
      with_save-Keeps IsSound Anything _ w _ h
        ((resume_run-IsSound handler _ (λ e. cc)).0, any_run _)

  replay_locked-Sound :
      (lock : Option Error) (step_id : String) (w : World)
      → OnSome IsSound w.stored
      → Sound (replay_locked handler lock step_id w)
  unfolding replay_locked
  replay_locked-Sound (some e) step_id w h = (h, tt)
  replay_locked-Sound none step_id w h =
      with_load-Keeps IsSound Anything w _ h (λ run _. replay_from-Sound _ step_id run (loaded w) h)

  perform-IsSound :
      (op : Op) (w : World) → OnSome IsSound w.stored → OnSome IsSound (perform handler op w).stored
  unfolding perform start_run cancel_run replay_run_from_step
  perform-IsSound (create fresh spec) w h = (create_run-Sound fresh spec w h).0
  perform-IsSound (start lock fresh spec) w h =
      (after_create-Sound lock _ _ (create_run-Sound fresh spec w h)).0
  perform-IsSound (resumed lock) w h = (resume-Sound lock w h).0
  perform-IsSound cancel w h = mark_cancel_requested-OnSome IsSound (λ r w s. s) w h
  perform-IsSound (replay lock step_id) w h =
      (if-Keeps IsSound Anything (step_id =?= "") _ _ (λ _. (h, tt))
        (λ _. replay_locked-Sound lock step_id w h)).0
  perform-IsSound (approve lock step_id decision reviewer) w h =
      (resolve_approval-Sound lock step_id decision reviewer w h).0
  perform-IsSound (environment l s t) w h = h

  -- Whatever the clients do in whatever order, with a cancel request during any call of the
  -- handler, and whichever of the loads and saves of every operation fail, each for itself: if it
  -- holds at first, a run that is stored as succeeded has only steps that succeeded, and no replay
  -- is open for it.
  pub history-IsSound :
      (ops : List Op) (w : World)
      → OnSome IsSound w.stored
      → OnSome IsSound (perform_all handler ops w).stored
  unfolding perform_all
  history-IsSound [] w h = h
  history-IsSound (op ∷ ops) w h = history-IsSound ops _ (perform-IsSound op w h)
