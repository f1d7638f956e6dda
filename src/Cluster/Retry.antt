-- ===== src/Cluster/Retry.antt =====
-- Loops that call an operation again: Retry of platform/deploy/controlplane/cluster/retry.go with its
-- backoff.go, and RetryWithBackoff of platform/deploy/apiutil/retry.go. `fn` is the operation's error
-- at each call, counted from 1, and `ended` the context's error where the context is done in the
-- wait that follows a call. A duration counts nanoseconds.
use runfabric.Prelude.{
  ℕ, zero, suc, ◌*◌, Option, none, some, List, [], ◌∷◌, ◌==◌, leb, ltb, if◌then◌else◌,
}
use runfabric.Prelude.Int.{ℤ, pos}
use runfabric.Errors.{Error}

abbrev pub millisecond : ℕ
millisecond = 1000000

abbrev pub second : ℕ
second = 1000000000

-- Backoff of backoff.go, for an attempt from 1 on.
unfoldable pub backoff : ℕ → ℕ
backoff attempt =
    if leb attempt 1
    then 200 * millisecond
    else if attempt == 2
    then 500 * millisecond
    else if attempt == 3
    then 1 * second
    else 2 * second

-- The error that is returned, the number of calls, and the waits, the last one first.
pub record Tried : Type 0 where
  pub error : Option Error
  pub calls : ℕ
  pub waits : List ℕ

-- `backoff *= 2`, with its cap.
unfoldable pub doubled : ℕ → ℕ
doubled backoff = if ltb (5 * second) (2 * backoff) then 5 * second else 2 * backoff

unfoldable pub initial : ℤ → ℕ
initial (pos (suc n)) = suc n
initial other = 200 * millisecond

module _ (fn : ℕ → Option Error) (ended : ℕ → Option Error) where
  -- The loop at the call `i` with `left` calls after it: no wait follows the last one.
  unfoldable pub retry_loop : ℕ → ℕ → List ℕ → Tried
  unfolding backoff
  retry_loop zero i waits = record { error = fn i; calls = i; waits = waits }
  retry_loop (suc left) i waits = elim (fn i) [
    | none ↦ record { error = none; calls = i; waits = waits }
    | some e ↦ elim (ended i) [
      | some x ↦ record { error = some x; calls = i; waits = backoff i ∷ waits }
      | none ↦ retry_loop left (suc i) (backoff i ∷ waits)
    ]
  ]

  -- With no attempts nothing is called, and `lastErr` is still nil.
  unfoldable pub retry : ℤ → Tried
  unfolding retry_loop
  retry (pos (suc n)) = retry_loop n 1 []
  retry attempts = record { error = none; calls = 0; waits = [] }

  unfoldable pub backoff_loop : ℕ → ℕ → ℕ → List ℕ → Tried
  unfolding doubled
  backoff_loop zero backoff i waits = record { error = fn i; calls = i; waits = waits }
  backoff_loop (suc left) backoff i waits = elim (fn i) [
    | none ↦ record { error = none; calls = i; waits = waits }
    | some e ↦ elim (ended i) [
      | some x ↦ record { error = some x; calls = i; waits = backoff ∷ waits }
      | none ↦ backoff_loop left (doubled backoff) (suc i) (backoff ∷ waits)
    ]
  ]

  unfoldable pub retry_with_backoff : ℤ → ℤ → Tried
  unfolding backoff_loop initial
  retry_with_backoff (pos (suc n)) initial_backoff = backoff_loop n (initial initial_backoff) 1 []
  retry_with_backoff attempts initial_backoff = record { error = none; calls = 0; waits = [] }
