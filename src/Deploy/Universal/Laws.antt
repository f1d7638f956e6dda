-- ===== src/Deploy/Universal/Laws.antt =====
-- platform/deploy/exec/universal.go: what a deployment returns, and the journal that it starts from.
use runfabric.Prelude.{
  ℕ, String, ◌≡◌, refl, sym, ap, ◌⊎◌, inl, inr, true, false, Option, none, some, [], ◌∷◌,
  if◌then◌else◌,
}
use runfabric.Errors.{Error}
use runfabric.Transactions.Types.{JournalFile}
use runfabric.Transactions.Backend.{Backend}
use runfabric.Deploy.Engine.{
  FaultConfig, Context, Session, Ended, returned, panicked, run, run_phases, run_phase,
  completed_checkpoints, checkpoint_deploy_functions,
}
use runfabric.Deploy.Engine.Laws.{OnSuccess, run_phase-OnSuccess}
use runfabric.Deploy.Universal.{
  after_deploy, deploy_phase, Deployed, deployed, crashed, initial_context, count_attempt,
  finish_deploy, after_redeploy, ensure_result, after_engine, run_deploy,
}

module _ {S R W : Type 0} (b : Backend S) (digest : JournalFile → String) (clock : ℕ → String)
    (deploy : W → Option Error × Option R × W) where
  -- A call of the provider returned the result without an error.
  abbrev Provided : Option R → Type 0
  Provided r = (w : W) × ((deploy w).0 ≡ none) × ((deploy w).1 ≡ r)

  -- What is returned without an error is what the provider returned; with one, there is no result.
  abbrev pub IsProvided : Deployed S R W → Type 0
  IsProvided (deployed r none s) = Provided r
  IsProvided (deployed r (some e) s) = r ≡ none
  IsProvided (crashed s) = ⊥

  after_redeploy-IsProvided :
      (w : W) (d : Option Error × Option R × W) (s : Session S R W)
      → deploy w ≡ d
      → IsProvided (after_redeploy b digest clock d s)
  unfolding after_redeploy finish_deploy
  after_redeploy-IsProvided w (some e, r, w') s q = refl
  after_redeploy-IsProvided w (none, r, w') s q = (w, rw q refl, rw q refl)

  -- The context's result after the engine: none, or the provider's.
  abbrev Pending : Session S R W → Type 0
  Pending s = (s.context.result ≡ none) ⊎ Provided s.context.result

  ensure_result-IsProvided :
      (r : Option R) (s : Session S R W)
      → s.context.result ≡ r
      → Pending s
      → IsProvided (ensure_result b digest clock deploy r s)
  unfolding ensure_result finish_deploy
  ensure_result-IsProvided none s e h = after_redeploy-IsProvided s.resources _ s refl
  ensure_result-IsProvided (some r) s e (inl q) = cc (e, q)
  ensure_result-IsProvided (some r) s e (inr p) = p

  after_engine-IsProvided :
      (d : Ended S R W) → OnSuccess Pending d → IsProvided (after_engine b digest clock deploy d)
  unfolding after_engine
  after_engine-IsProvided (returned (some e) s) h = refl
  after_engine-IsProvided (returned none s) h = ensure_result-IsProvided _ s refl h
  after_engine-IsProvided (panicked s) h = h

  Ran-Pending :
      (w : W) (d : Option Error × Option R × W) (c : Context R) (s : Session S R W)
      → deploy w ≡ d
      → (after_deploy c d).0 ≡ none
      → s.context ≡ (after_deploy c d).1
      → Pending s
  unfolding after_deploy
  Ran-Pending w (some e, r, w') c s q n x = cc
  Ran-Pending w (none, r, w') c s q n x =
      inr (w, rw q refl, rw q (ap (λ (y : Context R). y.result) (sym x)))

  engine-Pending :
      (f : JournalFile) (s : Session S R W)
      → s.journal ≡ some f
      → s.context.result ≡ none
      → OnSuccess Pending (run b digest clock (deploy_phase deploy ∷ []) s)
  unfolding run run_phases deploy_phase
  engine-Pending f s e n =
      elim (completed_checkpoints s.journal checkpoint_deploy_functions)
        as (λ c. OnSuccess Pending (
          if c
          then returned none s
          else run_phase b digest clock (deploy_phase deploy) s (λ t. returned none t))) [
            | true ↦ inl n
            | false ↦
                run_phase-OnSuccess b digest clock Pending (deploy_phase deploy) f s _ e
                  (λ t g u d k (w, m, x). Ran-Pending w _ s.context t refl m x)
          ]

  -- A deployment with a journal never panics. If it returns no error, its result is what a call of
  -- the provider returned in this run, even where the journal has the phase as completed; with an
  -- error it returns no result.
  pub run_deploy_result :
      (root stage : String) (faults : FaultConfig) (f : JournalFile) (s : Session S R W)
      → s.journal ≡ some f
      → IsProvided (run_deploy b digest clock deploy root stage faults s)
  unfolding run_deploy count_attempt initial_context
  run_deploy_result root stage faults f s e =
      rw (e, run_deploy) (after_engine-IsProvided _ (engine-Pending _ _ refl refl))
