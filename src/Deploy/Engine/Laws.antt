-- ===== src/Deploy/Engine/Laws.antt =====
-- platform/deploy/exec/engine.go: what a run of the phases leaves in the journal.
use runfabric.Prelude.{
  ℕ, String, ◌=?=◌, ◌≡◌, ◌≢◌, refl, ◌⊎◌, inl, inr, Bool, true, false, Option, none, some, List, [],
  ◌∷◌, if◌then◌else◌, All, arith, eq_iff, Bool-cases, sym, ap, ◌∙◌,
}
use runfabric.Errors.{Error}
use runfabric.Transactions.Types.{JournalFile, JournalCheckpoint}
use runfabric.Transactions.Backend.{Backend}
use runfabric.Transactions.Journal.{commit, next_revision, set_checkpoint, checkpoint}
use runfabric.Deploy.Engine.{
  Context, Phase, Session, Ended, returned, panicked, is_done, completed_checkpoints, unless_error,
  journalled, progressed, checkpoint_journal, run_body, run_phase, run_phases, run,
}

is_done-set_checkpoint :
    (name m status : String) (cs : List JournalCheckpoint)
    → m ≢ name
    → is_done m (set_checkpoint name status cs) ≡ is_done m cs
unfolding is_done set_checkpoint
is_done-set_checkpoint name m status [] h = ground (arith, eq_iff name m)
is_done-set_checkpoint name m status (c ∷ cs) h = ground (
  arith,
  eq_iff name m,
  eq_iff c.name name,
  eq_iff c.name m,
  is_done-set_checkpoint name m status cs h,
)

is_done-set_done :
    (name : String) (cs : List JournalCheckpoint)
    → is_done name (set_checkpoint name "done" cs) ≡ true
unfolding is_done set_checkpoint
is_done-set_done name [] = ground (arith, eq_iff name name)
is_done-set_done name (c ∷ cs) = ground (arith, eq_iff c.name name, is_done-set_done name cs)

stays_done :
    (name m : String) (cs : List JournalCheckpoint)
    → is_done m cs ≡ true
    → is_done m (set_checkpoint name "done" (set_checkpoint name "in_progress" cs)) ≡ true
stays_done name m cs h = elim (Bool-cases (m =?= name)) [
  | inl e ↦ rw ((eq_iff m name).0 e) (is_done-set_done name _)
  | inr e ↦
      let n : m ≢ name = λ q. cc (e, (eq_iff m name).1 q) in
      is_done-set_checkpoint name m "done" _ n
      ∙ is_done-set_checkpoint name m "in_progress" cs n
      ∙ h
]

-- `Q` holds where no error is returned, and nothing panics.
abbrev pub OnSuccess : {S R W : Type 0} → (Session S R W → Type 0) → Ended S R W → Type 0
OnSuccess Q (returned none s) = Q s
OnSuccess Q (returned (some e) s) = Unit
OnSuccess Q (panicked s) = ⊥

-- Nothing that was completed is undone.
abbrev Extends : {S R W : Type 0} → Session S R W → Session S R W → Type 0
Extends s t =
    (m : String)
    → completed_checkpoints s.journal m ≡ true
    → completed_checkpoints t.journal m ≡ true

some_injective : {A : Type 0} (a b : A) → some a ≡ some b → a ≡ b
some_injective a b e = cc

module _ {S R W : Type 0} (Q : Session S R W → Type 0) where
  unless_error-OnSuccess :
      (e : Option Error) (s : Session S R W) (rest : Session S R W → Ended S R W)
      → (e ≡ none → OnSuccess Q (rest s))
      → OnSuccess Q (unless_error e s rest)
  unfolding unless_error
  unless_error-OnSuccess none s rest h = h refl
  unless_error-OnSuccess (some e) s rest h = tt

  module _ (b : Backend S) (digest : JournalFile → String) (clock : ℕ → String) where
    -- The journal's file after a checkpoint.
    checkpoint_journal-OnSuccess :
        (name status : String) (o : Option JournalFile) (f : JournalFile) (s : Session S R W)
        (rest : Session S R W → Ended S R W)
        → o ≡ some f
        → ((t : Session S R W) (g : JournalFile)
            → t.journal ≡ some g
            → g.checkpoints ≡ set_checkpoint name status f.checkpoints
            → t.context ≡ s.context
            → OnSuccess Q (rest t))
        → OnSuccess Q (checkpoint_journal b digest clock name status o s rest)
    unfolding checkpoint_journal checkpoint commit next_revision journalled
    checkpoint_journal-OnSuccess name status none f s rest e k = cc
    checkpoint_journal-OnSuccess name status (some g) f s rest e k =
        unless_error-OnSuccess _ _ rest λ n.
          k _ _ refl
            (ap (λ (x : JournalFile). set_checkpoint name status x.checkpoints)
              (some_injective g f e))
            refl

abbrev Passed :
    {S R W : Type 0} → (String → Bool) → List (Phase R W) → Session S R W → Session S R W → Type 0
Passed completed phases s t =
    All (λ p. (completed p.name ≡ true) ⊎ (completed_checkpoints t.journal p.name ≡ true)) phases
    × Extends s t

if-OnSuccess :
    {S R W : Type 0} (Q : Session S R W → Type 0) (c : Bool) (x y : Ended S R W)
    → (c ≡ true → OnSuccess Q x)
    → (c ≡ false → OnSuccess Q y)
    → OnSuccess Q (if c then x else y)
if-OnSuccess Q true x y h k = h refl
if-OnSuccess Q false x y h k = k refl

weaken :
    {S R W : Type 0} (P Q : Session S R W → Type 0)
    → ((t : Session S R W) → P t → Q t)
    → (d : Ended S R W) → OnSuccess P d
    → OnSuccess Q d
weaken P Q k (returned none t) h = k t h
weaken P Q k (returned (some e) t) h = tt
weaken P Q k (panicked t) h = h

-- The phase was run in the context `c` without an error, and left the context of `t`.
abbrev Ran : {S R W : Type 0} → Phase R W → Context R → Session S R W → Type 0
Ran {W = W} p c t = (w : W) × ((p.run c w).0 ≡ none) × (t.context ≡ (p.run c w).1)

Ran-same :
    {S R W : Type 0} (p : Phase R W) (c c' : Context R) (t t' : Session S R W)
    → c' ≡ c
    → t'.context ≡ t.context
    → Ran p c' t
    → Ran p c t'
Ran-same p c c' t t' x y (w, n, e) = (w, rw (sym x) n, y ∙ rw (sym x) e)

module _ {S R W : Type 0} (b : Backend S) (digest : JournalFile → String) (clock : ℕ → String) where
  run_body-OnSuccess :
      (Q : Session S R W → Type 0) (p : Phase R W) (s : Session S R W)
      (rest : Session S R W → Ended S R W)
      → ((t : Session S R W) → t.journal ≡ s.journal → Ran p s.context t → OnSuccess Q (rest t))
      → OnSuccess Q (run_body b digest clock p s rest)
  unfolding run_body progressed
  run_body-OnSuccess Q p s rest k =
      unless_error-OnSuccess Q (p.run s.context s.resources).0 _ rest
        (λ n. k _ refl (s.resources, n, refl))

  -- A phase that is run and ends without an error is completed.
  pub run_phase-OnSuccess :
      (Q : Session S R W → Type 0) (p : Phase R W) (f : JournalFile) (s : Session S R W)
      (rest : Session S R W → Ended S R W)
      → s.journal ≡ some f
      → ((t : Session S R W) (g : JournalFile)
          → t.journal ≡ some g
          → is_done p.name g.checkpoints ≡ true
          → ((m : String) → is_done m f.checkpoints ≡ true → is_done m g.checkpoints ≡ true)
          → Ran p s.context t
          → OnSuccess Q (rest t))
      → OnSuccess Q (run_phase b digest clock p s rest)
  unfolding run_phase
  run_phase-OnSuccess Q p f s rest e k = unless_error-OnSuccess Q _ s _ λ n.
      checkpoint_journal-OnSuccess Q b digest clock p.name "in_progress" _ f s _ e λ t g u c x.
        run_body-OnSuccess Q p t _ λ t' j ran.
          checkpoint_journal-OnSuccess Q b digest clock p.name "done" _ g t' _ (j ∙ u)
            λ t'' g' u' c' x'. unless_error-OnSuccess Q _ t'' rest λ n'.
              k t'' g' u' (rw c' (is_done-set_done p.name g.checkpoints))
                (λ m h. rw (c', c) (stays_done p.name m f.checkpoints h))
                (Ran-same p _ _ t' t'' x x' ran)

  -- The phases that the run has passed are completed, or were before it began.
  run_phases-OnSuccess :
      (completed : String → Bool) (phases : List (Phase R W)) (f : JournalFile) (s : Session S R W)
      → s.journal ≡ some f
      → OnSuccess (Passed completed phases s) (run_phases b digest clock completed phases s)
  unfolding run_phases completed_checkpoints
  run_phases-OnSuccess completed [] f s e = (tt, λ m h. h)
  run_phases-OnSuccess completed (p ∷ phases) f s e =
      if-OnSuccess (Passed completed (p ∷ phases) s) (completed p.name) _ _
        (λ c.
          weaken (Passed completed phases s) (Passed completed (p ∷ phases) s)
            (λ t h. ((inl c, h.0), h.1)) _ (run_phases-OnSuccess completed phases f s e))
        λ c. run_phase-OnSuccess (Passed completed (p ∷ phases) s) p f s _ e λ t g u d k ran.
          weaken (Passed completed phases t) (Passed completed (p ∷ phases) s)
            (λ t' h. ((inr (h.1 p.name (rw u d)), h.0), λ m q. h.1 m (rw u (k m (rw e at q))))) _
            (run_phases-OnSuccess completed phases g t u)

  Passed-is_completed :
      (phases : List (Phase R W)) (s t : Session S R W)
      → Passed (completed_checkpoints s.journal) phases s t
      → All (λ (p : Phase R W). completed_checkpoints t.journal p.name ≡ true) phases
  Passed-is_completed [] s t h = tt
  Passed-is_completed (p ∷ phases) s t ((inl c, h), k) =
      (k p.name c, Passed-is_completed phases s t (h, k))
  Passed-is_completed (p ∷ phases) s t ((inr c, h), k) = (c, Passed-is_completed phases s t (h, k))

  -- A run with a journal never panics, and where it returns no error the journal has a completed
  -- checkpoint for each of its phases, those that it passed over included.
  pub run_completes :
      (phases : List (Phase R W)) (f : JournalFile) (s : Session S R W)
      → s.journal ≡ some f
      → OnSuccess
          (λ t. All (λ (p : Phase R W). completed_checkpoints t.journal p.name ≡ true) phases)
          (run b digest clock phases s)
  unfolding run
  run_completes phases f s e =
      weaken (Passed (completed_checkpoints s.journal) phases s)
        (λ t. All (λ (p : Phase R W). completed_checkpoints t.journal p.name ≡ true) phases)
        (Passed-is_completed phases s) _ (run_phases-OnSuccess _ phases f s e)
