-- ===== src/Mcp/Glob/Ends.antt =====
-- platform/workflow/runtime/workflow_mcp_runtime.go: the rounds that globMatch has left.
use runfabric.Prelude.{ℕ, suc, ◌+◌, ◌*◌, ◌<◌, ◌≤◌, none, some, List, ◌∷◌, length, arith}
use runfabric.Mcp.Glob.{Saved}

-- `limit` is more than a pattern and a text have bytes.
module _ (limit size : ℕ) where
  abbrev pub rounds : List ℕ → List ℕ → Saved → ℕ
  rounds p s none = (size + 1) * limit + length p + length s
  rounds p s (some (q, t)) = length t * limit + length p + length s

  abbrev pub IsBounded : List ℕ → List ℕ → Saved → Type 0
  IsBounded p s none = length s ≤ size
  IsBounded p s (some (q, t)) =
      (length s ≤ length t) × (length t ≤ size) × (length q + length t < limit)

  pub byte-rounds :
      (d c : ℕ) (p s : List ℕ) (saved : Saved) (fuel : ℕ)
      → rounds (d ∷ p) (c ∷ s) saved < suc fuel
      → rounds p s saved < fuel
  byte-rounds d c p s none fuel lt = omega arith
  byte-rounds d c p s (some (q, t)) fuel lt = omega arith

  pub star-rounds :
      (d c : ℕ) (p s : List ℕ) (saved : Saved) (fuel : ℕ)
      → IsBounded (d ∷ p) (c ∷ s) saved
      → rounds (d ∷ p) (c ∷ s) saved < suc fuel
      → rounds p (c ∷ s) (some (p, c ∷ s)) < fuel
  star-rounds d c p s none fuel h lt = grind arith
  star-rounds d c p s (some (q, t)) fuel h lt = grind (arith, h.0)
