-- ===== src/Transactions/Rollback.antt =====
-- platform/core/state/transactions/rollback.go. A `Rollbacker` changes the deployed resources `W`,
-- and `nil` is no journal.
use mathlib.Core.List.{reverse-append, append_assoc, append-nil}
use runfabric.Prelude.{
  ℕ, zero, suc, ◌≡◌, refl, sym, ◌∙◌, ap, Option, none, some, List, [], ◌∷◌, ◌++◌, reverse, length,
  get_elem?, Option-cases, inl, inr,
}
use runfabric.Errors.{Error}
use runfabric.Transactions.Types.{Operation, JournalFile}
use runfabric.Transactions.Journal.{reverse_loop, reverse_ops}

abbrev with_error : Option Error → List Error → List Error
with_error none errs = errs
with_error (some e) errs = e ∷ errs

module _ {W : Type 0} (rollback : Operation → W → Option Error × W) where
  unfoldable pub rollback_loop : List Operation → W → List Error × W
  rollback_loop [] w = ([], w)
  rollback_loop (op ∷ ops) w =
      let (e, w') = rollback op w in
      let (errs, w'') = rollback_loop ops w' in (with_error e errs, w'')

  unfoldable pub execute_rollback : Option JournalFile → W → List Error × W
  unfolding rollback_loop reverse_ops
  execute_rollback none w = ([], w)
  execute_rollback (some f) w = rollback_loop (reverse_ops f.operations) w

abbrev prefix : ℕ → List Operation → List Operation
prefix zero ops = []
prefix (suc i) [] = []
prefix (suc i) (op ∷ ops) = op ∷ prefix i ops

prefix-suc :
    (i : ℕ) (ops : List Operation) (op : Operation)
    → get_elem? ops i ≡ some op
    → prefix (suc i) ops ≡ prefix i ops ++ op ∷ []
prefix-suc i [] op h = cc
prefix-suc zero (x ∷ ops) op h = cc
prefix-suc (suc i) (x ∷ ops) op h = ap (λ (l : List Operation). x ∷ l) (prefix-suc i ops op h)

prefix-past :
    (i : ℕ) (ops : List Operation) → get_elem? ops i ≡ none → prefix (suc i) ops ≡ prefix i ops
prefix-past zero [] h = refl
prefix-past (suc i) [] h = refl
prefix-past zero (x ∷ ops) h = cc
prefix-past (suc i) (x ∷ ops) h = ap (λ (l : List Operation). x ∷ l) (prefix-past i ops h)

prefix-length : (ops : List Operation) → prefix (length ops) ops ≡ ops
prefix-length [] = refl
prefix-length (op ∷ ops) = ap (λ (l : List Operation). op ∷ l) (prefix-length ops)

reverse_loop-prefix :
    (i : ℕ) (ops out : List Operation) → reverse_loop i ops out ≡ out ++ reverse (prefix i ops)
unfolding reverse_loop
reverse_loop-prefix zero ops out = sym (append-nil out)
reverse_loop-prefix (suc i) ops out = elim (Option-cases (get_elem? ops i)) [
  | inl e ↦ rw (prefix-past i ops e) (rw (e, reverse_loop) (reverse_loop-prefix i ops out))
  | inr (op, e) ↦ rw (prefix-suc i ops op e) (
      rw (e, reverse_loop)
        (rw (reverse-append, reverse_loop-prefix i ops (out ++ op ∷ [])) (simp append_assoc)))
]

-- `Reverse` is the recorded operations, last first.
reverse_ops-eq-reverse : (ops : List Operation) → reverse_ops ops ≡ reverse ops
unfolding reverse_ops
reverse_ops-eq-reverse ops =
    reverse_loop-prefix (length ops) ops [] ∙ ap reverse (prefix-length ops)

-- Apply the operations of a deployment, in the order in which they were recorded.
abbrev pub apply_all {ℓ} : {W : Type ℓ} → (Operation → W → W) → List Operation → W → W
apply_all apply [] w = w
apply_all apply (op ∷ ops) w = apply_all apply ops (apply op w)

module _ {W : Type 0} (rollback : Operation → W → Option Error × W) where
  rollback_loop-undoes :
      (apply : Operation → W → W)
      → ((op : Operation) (w : W) → rollback op (apply op w) ≡ (none, w))
      → (ops rest : List Operation) (w : W)
      → rollback_loop rollback (reverse ops ++ rest) (apply_all apply ops w)
        ≡ rollback_loop rollback rest w
  unfolding rollback_loop
  rollback_loop-undoes apply undoes [] rest w = refl
  rollback_loop-undoes apply undoes (op ∷ ops) rest w =
      rw (reverse-append (op ∷ []) ops, append_assoc)
        (rollback_loop-undoes apply undoes ops (op ∷ rest) (apply op w) ∙ rw (undoes op w) refl)

  -- Where rolling one operation back undoes it without an error, the rollback of a journal undoes
  -- the whole deployment that it records, without an error.
  pub execute_rollback_undoes :
      (apply : Operation → W → W) (f : JournalFile) (w : W)
      → ((op : Operation) (w : W) → rollback op (apply op w) ≡ (none, w))
      → execute_rollback rollback (some f) (apply_all apply f.operations w) ≡ ([], w)
  unfolding execute_rollback
  execute_rollback_undoes apply f w undoes =
      rw (reverse_ops-eq-reverse, ← append-nil (reverse f.operations))
        (rollback_loop-undoes apply undoes f.operations [] w)
