-- ===== src/Mcp/Retry/Laws.antt =====
-- platform/workflow/runtime/workflow_retry_strategies.go and callWithRetry: how often a call is made.
use runfabric.Prelude.{
  ℕ, zero, suc, String, ◌+◌, ◌<◌, ◌≤◌, ◌≡◌, ◌≢◌, refl, sym, true, ◌==◌, leb, Option, none, some,
  List, [], ◌∷◌, ◌++◌, if◌then◌else◌, arith, ◌⊎◌, inl, inr, Bool-cases, Option-cases, All,
  All-append, subst,
}
use runfabric.Prelude.Int.{ℤ, pos, negsuc}
use runfabric.Mcp.Retry.{
  RetryStrategy, default_strategy, aws_strategy, gcp_strategy, azure_strategy, attempt_limit,
  should_retry, Outcome, retries, wait_after, call_loop, call_with_retry, or_default,
}

-- How often an operation is tried at most.
abbrev pub most_calls : Option RetryStrategy → ℕ
most_calls none = 1
most_calls (some s) = if leb (attempt_limit s) 50 then attempt_limit s else 50

or_default_pos : (max : ℤ) (own : ℕ) → 1 ≤ own → 1 ≤ or_default max own
unfolding or_default
or_default_pos (pos zero) own h = h
or_default_pos (pos (suc n)) own h = omega arith
or_default_pos (negsuc n) own h = h

most_calls_pos : (s : Option RetryStrategy) → 1 ≤ most_calls s
unfolding attempt_limit
most_calls_pos none = omega arith
most_calls_pos (some (default_strategy max base)) = ground (arith, or_default_pos max 3)
most_calls_pos (some (aws_strategy max)) = ground (arith, or_default_pos max 5)
most_calls_pos (some (gcp_strategy max)) = ground (arith, or_default_pos max 4)
most_calls_pos (some (azure_strategy max)) = ground (arith, or_default_pos max 4)

retries_lt :
    (s : Option RetryStrategy) (attempt : ℕ) (failure : Option String)
    → retries s attempt failure ≡ true
    → attempt < most_calls s
unfolding retries should_retry
retries_lt none attempt failure h = cc
retries_lt (some s) attempt none h = cc
retries_lt (some s) attempt (some text) h = ground arith

most_calls_le : (s : Option RetryStrategy) → most_calls s ≤ 50
most_calls_le none = omega arith
most_calls_le (some s) = ground arith

module _ {V : Type 0} (reply : ℕ → Option V × Option String) (random : ℕ → ℕ)
    (cancelled : ℕ → Option String) (s : Option RetryStrategy) where
  -- An outcome is the answer to the last call, or the context's error after it; every call from
  -- the first on and before the last failed with an error that the strategy retries.
  pub record IsOutcome (P : ℤ → Type 0) (first : ℕ) (o : Outcome V) : Type 0 where
    pub reached : first ≤ o.calls
    pub bounded : o.calls ≤ most_calls s
    pub answers :
        ((o.result ≡ (reply o.calls).0) × (o.failure ≡ (reply o.calls).1))
        ⊎ ((o.result ≡ none) × (o.failure ≡ cancelled o.calls) × (o.failure ≢ none))
    pub retried : (k : ℕ) → first ≤ k → k < o.calls → retries s k (reply k).1 ≡ true
    pub waited : All P o.waits

  -- An attempt after a retried one.
  IsOutcome-earlier :
      (P : ℤ → Type 0) (first : ℕ) (o : Outcome V)
      → retries s first (reply first).1 ≡ true
      → IsOutcome P (suc first) o
      → IsOutcome P first o
  IsOutcome-earlier P first o r h = record {
    reached = omega (arith, h.reached);
    bounded = h.bounded;
    answers = h.answers;
    retried = λ k le lt. elim (Bool-cases (k == first)) [
      | inl e ↦
          subst (λ x. retries s x (reply x).1 ≡ true) (sym (let q : k ≡ first = ground arith in q))
            r
      | inr e ↦ h.retried k (ground arith) lt
    ];
    waited = h.waited;
  }

  call_loop_ok :
      (P : ℤ → Type 0)
      → ((k : ℕ) (failure : Option String)
          → 1 ≤ k
          → retries s k failure ≡ true
          → P (wait_after random s k))
      → (fuel attempt : ℕ) (waits : List ℤ) → attempt + fuel ≡ 51
      → 1 ≤ attempt
      → attempt ≤ most_calls s
      → All P waits
      → (o : Outcome V) × (call_loop reply random cancelled s fuel attempt waits ≡ some o)
        × IsOutcome P attempt o
  unfolding call_loop
  call_loop_ok P keeps zero attempt waits e first most all = absurd (omega (arith, most_calls_le s))
  call_loop_ok P keeps (suc fuel) attempt waits e first most all =
      elim (Bool-cases (retries s attempt (reply attempt).1)) [
        | inl again ↦
            let all' =
              All-append P waits (wait_after random s attempt ∷ []) all
                (keeps attempt (reply attempt).1 first again, tt) in
            elim (Option-cases (cancelled attempt)) [
              | inl none_yet ↦
                  let (o, q, h) =
                    call_loop_ok P keeps fuel (suc attempt)
                      (waits ++ wait_after random s attempt ∷ []) (omega arith) (omega arith)
                      (retries_lt s attempt (reply attempt).1 again) all' in
                  (
                    o,
                    rw (again, call_loop) (rw (none_yet, call_loop) q),
                    IsOutcome-earlier P attempt o again h,
                  )
              | inr (c, stop) ↦ (
                record {
                  result = none;
                  failure = some c;
                  calls = attempt;
                  waits = waits ++ wait_after random s attempt ∷ [];
                },
                rw (again, call_loop) (rw (stop, call_loop)),
                record {
                  reached = omega arith;
                  bounded = most;
                  answers = inr (refl, sym stop, λ p. cc);
                  retried = λ k le lt. absurd (omega arith);
                  waited = all';
                },
              )
            ]
        | inr last ↦ (
          record {
            result = (reply attempt).0;
            failure = (reply attempt).1;
            calls = attempt;
            waits = waits;
          },
          rw (last, call_loop),
          record {
            reached = omega arith;
            bounded = most;
            answers = inl (refl, refl);
            retried = λ k le lt. absurd (omega arith);
            waited = all;
          },
        )
      ]

-- callWithRetry returns, after at most as many calls as the strategy and the ceiling of 50 allow,
-- and one without a strategy: the answer to its last call, or the error of the context in the wait
-- after it. Every call before the last failed with an error that the strategy retries.
pub call_with_retry_returns :
    {V : Type 0} (reply : ℕ → Option V × Option String) (random : ℕ → ℕ)
    (cancelled : ℕ → Option String) (s : Option RetryStrategy)
    → (o : Outcome V) × (call_with_retry reply random cancelled s ≡ some o)
      × IsOutcome reply random cancelled s (λ d. Unit {0}) 1 o
unfolding call_with_retry
call_with_retry_returns reply random cancelled s =
    call_loop_ok reply random cancelled s (λ d. Unit {0}) (λ k f p r. tt) 50 1 [] (omega arith)
      (omega arith) (most_calls_pos s) tt
