-- ===== src/Mcp/Retry.antt =====
-- platform/workflow/runtime/workflow_retry_strategies.go, and callWithRetry of
-- workflow_mcp_runtime.go. An error of the client is read through its text.
pub mod Laws
use runfabric.Prelude.{
  ℕ, zero, suc, String, ◌=?=◌, ◌+◌, ◌-◌, ◌*◌, ◌/◌, ◌%◌, ◌^◌, Bool, true, false, not, ◌||◌, ◌&&◌,
  ◌==◌, leb, ltb, Option, none, some, List, [], ◌∷◌, ◌++◌, if◌then◌else◌,
}
use runfabric.Prelude.Int.{ℤ, pos, negsuc, le_int}
use runfabric.Prelude.Text.{contains_text, trim_space, to_lower}

-- A time.Duration, a 64-bit number of nanoseconds, from its value modulo 2 ^ 64.
unfoldable pub duration : ℕ → ℤ
duration n =
    if ltb (n % 18446744073709551616) 9223372036854775808
    then pos (n % 18446744073709551616)
    else negsuc (18446744073709551615 - n % 18446744073709551616)

abbrev pub millisecond : ℕ
millisecond = 1000000

abbrev pub second : ℕ
second = 1000000000

pub data RetryStrategy : Type 0 where
  -- the maximum of attempts and the base of the backoff
  default_strategy : ℤ → ℤ → RetryStrategy
  -- the maximum of attempts
  aws_strategy gcp_strategy azure_strategy : ℤ → RetryStrategy

-- The maximum where it is positive, or else the strategy's own.
unfoldable pub or_default : ℤ → ℕ → ℕ
or_default (pos zero) own = own
or_default (pos (suc n)) own = suc n
or_default (negsuc n) own = own

unfoldable pub attempt_limit : RetryStrategy → ℕ
unfolding or_default
attempt_limit (default_strategy max base) = or_default max 3
attempt_limit (aws_strategy max) = or_default max 5
attempt_limit (gcp_strategy max) = or_default max 4
attempt_limit (azure_strategy max) = or_default max 4

unfoldable pub is_transient : RetryStrategy → String → Bool
is_transient (default_strategy max base) text = true
is_transient (aws_strategy max) text =
    contains_text text "ThrottlingException"
    || contains_text text "ServiceUnavailableException"
    || contains_text text "TooManyRequestsException"
    || contains_text text "throttl"
is_transient (gcp_strategy max) text =
    contains_text text "RESOURCE_EXHAUSTED"
    || contains_text text "UNAVAILABLE"
    || contains_text text "DEADLINE_EXCEEDED"
    || contains_text text "quota"
is_transient (azure_strategy max) text =
    contains_text text "429"
    || contains_text text "RateLimitError"
    || contains_text text "ServiceBusy"
    || contains_text text "rate limit"

unfoldable pub should_retry : RetryStrategy → ℕ → Option String → Bool
unfolding attempt_limit is_transient
should_retry s attempt none = false
should_retry s attempt (some text) = ltb attempt (attempt_limit s) && is_transient s text

-- `1 << uint(attempt-1)` at the type of a duration.
unfoldable pub doubled : ℕ → ℕ
doubled zero = 0
doubled (suc k) = 2 ^ k

unfoldable pub capped : ℤ → ℕ → ℤ
unfolding le_int
capped d most = if le_int d (pos most) then d else pos most

unfoldable pub base_backoff : ℤ → ℕ
base_backoff (pos zero) = 100 * millisecond
base_backoff (pos (suc n)) = suc n
base_backoff (negsuc n) = 100 * millisecond

unfoldable pub backoff : RetryStrategy → ℕ → ℤ
unfolding duration doubled capped base_backoff
backoff (default_strategy max base) attempt = duration (base_backoff base * attempt)
backoff (aws_strategy max) attempt =
    capped (duration (100 * millisecond * doubled attempt)) (10 * second)
backoff (gcp_strategy max) attempt = capped (duration (second * doubled attempt)) (32 * second)
backoff (azure_strategy max) attempt = duration (20 * second + attempt * 10 * second)

unfoldable pub provider_retry_strategy : String → RetryStrategy
unfolding trim_space to_lower
provider_retry_strategy provider =
    let name = to_lower (trim_space provider) in
    if name =?= "aws-lambda"
    then aws_strategy (pos 0)
    else if name =?= "gcp-functions"
    then gcp_strategy (pos 0)
    else if name =?= "azure-functions"
    then azure_strategy (pos 0)
    else default_strategy (pos 0) (pos 0)

-- The random number is what `rand.Int63n` draws from, taken modulo its bound.
unfoldable pub with_jitter : ℤ → ℕ → ℤ
with_jitter (pos zero) random = pos 0
with_jitter (pos (suc n)) random = pos (suc n / 2 + random % (suc n / 2 + 1))
with_jitter (negsuc n) random = negsuc n

abbrev max_retry_attempts : ℕ
max_retry_attempts = 50

-- What callWithRetry returns, and what it did: its calls and the times that it waited.
pub record Outcome (V : Type 0) : Type 0 where
  pub result : Option V
  pub failure : Option String
  pub calls : ℕ
  pub waits : List ℤ

unfoldable pub retries : Option RetryStrategy → ℕ → Option String → Bool
unfolding should_retry
retries none attempt failure = false
retries (some s) attempt failure =
    should_retry s attempt failure && not (leb max_retry_attempts attempt)

unfoldable pub wait_after : (ℕ → ℕ) → Option RetryStrategy → ℕ → ℤ
unfolding backoff with_jitter
wait_after random none attempt = pos 0
wait_after random (some s) attempt = with_jitter (backoff s attempt) (random attempt)

-- The client's answer to each attempt, the random numbers, and the context's error, if any, at the
-- end of the wait that follows an attempt.
module _ {V : Type 0} (reply : ℕ → Option V × Option String) (random : ℕ → ℕ)
    (cancelled : ℕ → Option String) where
  unfoldable pub call_loop : Option RetryStrategy → ℕ → ℕ → List ℤ → Option (Outcome V)
  unfolding retries wait_after
  call_loop s zero attempt waits = none
  call_loop s (suc fuel) attempt waits =
      let r = reply attempt in
      let waits' = waits ++ wait_after random s attempt ∷ [] in
      elim (retries s attempt r.1) [
        | false ↦ some (record { result = r.0; failure = r.1; calls = attempt; waits = waits })
        | true ↦ elim (cancelled attempt) [
          | some e ↦
              some (record { result = none; failure = some e; calls = attempt; waits = waits' })
          | none ↦ call_loop s fuel (suc attempt) waits'
        ]
      ]

  unfoldable pub call_with_retry : Option RetryStrategy → Option (Outcome V)
  unfolding call_loop
  call_with_retry s = call_loop s max_retry_attempts 1 []
