-- ===== src/Workflow/Keeps.antt =====
-- Rules for what a function of the runtime leaves behind: `P` of the stored run, `Q` of the run that
-- it returns.
use runfabric.Prelude.{
  ◌≡◌, refl, ◌⊎◌, suc, ◌+◌, Bool, true, false, Option, none, some, Option-cases, inl, inr, subst,
  sym, if◌then◌else◌, arith,
}
use runfabric.Errors.{ok, Result-cases}
use runfabric.Workflow.Runs.{WorkflowRun}
use runfabric.Workflow.World.{
  World, Reply, Done, done, loaded, unsaved, load_run, save_refusal, stamped, written, with_save,
  with_load, mark_cancel_requested, after_call,
}

abbrev pub OnSome {ℓ} : {A : Type 0} → (A → Type ℓ) → Option A → Type ℓ
OnSome P none = Unit
OnSome P (some a) = P a

abbrev pub Keeps : (P Q : WorkflowRun → Type 0) → Done → Type 0
Keeps P Q d = OnSome P d.world.stored × OnSome Q d.run

pub stored-load_run : (w : World) (r : WorkflowRun) → load_run w ≡ ok r → w.stored ≡ some r
unfolding load_run
stored-load_run w r h = ground arith

module _ (P Q : WorkflowRun → Type 0) where
  pub with_save-Keeps :
      (run : WorkflowRun) (w : World) (rest : WorkflowRun → World → Done)
      → OnSome P w.stored
      → Keeps P Q (rest (stamped run w) (written run w))
      → Keeps P Q (with_save run w rest)
  unfolding with_save
  with_save-Keeps run w rest h k =
      elim (save_refusal run w)
        as (λ o. Keeps P Q (elim o [
          | some e ↦ done none (some e) (unsaved w)
          | none ↦ rest (stamped run w) (written run w)
        ])) [ none ↦ k | some e ↦ (h, tt) ]

  pub with_load-Keeps :
      (w : World) (rest : WorkflowRun → World → Done)
      → OnSome P w.stored
      → ((r : WorkflowRun) → w.stored ≡ some r → Keeps P Q (rest r (loaded w)))
      → Keeps P Q (with_load w rest)
  unfolding with_load
  with_load-Keeps w rest h k = elim (Result-cases (load_run w)) [
    | inl (e, f) ↦ rw (f, with_load) (h, tt)
    | inr (r, f) ↦ rw (f, with_load) (k r (stored-load_run w r f))
  ]

module _ (P Q : WorkflowRun → Type 0) where
  pub if-Keeps :
      (b : Bool) (x y : Done)
      → (b ≡ true → Keeps P Q x)
      → (b ≡ false → Keeps P Q y)
      → Keeps P Q (if b then x else y)
  if-Keeps true x y h k = h refl
  if-Keeps false x y h k = k refl

-- A cancel request leaves the stored run, or sets its flag, and it is no call of the handler.
pub mark_cancel_requested_cases :
    (w : World)
    → (((mark_cancel_requested w).1.stored ≡ w.stored)
        ⊎ ((run : WorkflowRun) × (w.stored ≡ some run)
            × ((mark_cancel_requested w).1.stored
                ≡ some (stamped (record run { cancel_requested = true }) w))))
      × ((mark_cancel_requested w).1.calls ≡ w.calls)
unfolding mark_cancel_requested written stamped
mark_cancel_requested_cases w = elim (Result-cases (load_run w)) [
  | inl (e, f) ↦ rw (f, mark_cancel_requested) (inl refl, refl)
  | inr (r, f) ↦
      elim (Option-cases (save_refusal (record r { cancel_requested = true }) (loaded w))) [
        | inl g ↦
            rw (f, mark_cancel_requested)
              (rw (g, mark_cancel_requested) (inr (r, stored-load_run w r f, refl), refl))
        | inr (e, g) ↦
            rw (f, mark_cancel_requested) (rw (g, mark_cancel_requested) (inl refl, refl))
      ]
]

module _ (P : WorkflowRun → Type 0)
    (keep : (run : WorkflowRun) (w : World)
      → P run
      → P (stamped (record run { cancel_requested = true }) w)) where
  -- A predicate of the stored run that the cancel flag does not change outlives a cancel request.
  pub mark_cancel_requested-OnSome :
      (w : World) → OnSome P w.stored → OnSome P (mark_cancel_requested w).1.stored
  mark_cancel_requested-OnSome w h = elim (mark_cancel_requested_cases w).0 [
    | inl e ↦ subst (λ (o : Option WorkflowRun). OnSome P o) (sym e) h
    | inr (run, e, f) ↦
        subst (λ (o : Option WorkflowRun). OnSome P o) (sym f)
          (keep run w (subst (λ (o : Option WorkflowRun). OnSome P o) e h))
  ]

  -- So it outlives the handler's call.
  pub after_call-OnSome :
      (r : Reply) (w : World) → OnSome P w.stored → OnSome P (after_call r w).stored
  unfolding after_call
  after_call-OnSome r w h =
      let w' : World = record w { calls = suc w.calls; now = w.now + r.elapsed } in
      elim r.cancels as (λ b. OnSome P (if b then (mark_cancel_requested w').1 else w').stored) [
        | true ↦ mark_cancel_requested-OnSome w' h
        | false ↦ h
      ]
