-- ===== src/Mcp/Calls/Laws.antt =====
-- platform/workflow/runtime/workflow_mcp_runtime.go: what reaches the client, and what is recorded.
use runfabric.Prelude.{
  ℕ, String, ◌≡◌, ◌≢◌, ◌≤◌, refl, ap, true, false, Option, none, some, List, [], ◌∷◌, ◌++◌, arith,
  Option-cases, inl, inr, ◌⊎◌,
}
use runfabric.Prelude.Text.{trim_space}
use runfabric.Mcp.Retry.{RetryStrategy, Outcome}
use runfabric.Mcp.Retry.Laws.{most_calls, call_with_retry_returns}
use runfabric.Mcp.Policy.{
  McpRuntime, Records, missing, other, records, append_metadata_record, ensure_allowed,
}
use runfabric.Mcp.Policy.Laws.{is_list, permits, ensure_allowed_iff}
use runfabric.Mcp.Calls.{Call, Metadata, Caller, Answer, call_of, correlate, audited_call}

abbrev pub entries : {R : Type 0} → Records R → List R
entries (records l) = l
entries missing = []
entries other = []

-- The call was let through, and was recorded if it succeeded.
abbrev pub IsMade : {V : Type 0} → Option RetryStrategy → Call → Records Call → Answer V → Type 0
IsMade retry c before a =
    (1 ≤ a.calls)
    × (a.calls ≤ most_calls retry)
    × (((a.error ≡ none) × (entries a.metadata.mcp_calls ≡ entries before ++ c ∷ []))
        ⊎ ((a.error ≢ none) × (a.metadata.mcp_calls ≡ before)))

-- The call was denied before the client saw it.
abbrev pub IsDenied : {V : Type 0} → Records Call → Answer V → Type 0
IsDenied before a = (a.calls ≡ 0) × (a.error ≢ none) × (a.metadata.mcp_calls ≡ before)

list_cases :
    {R : Type 0} (m : Records R)
    → is_list m ≡ true
    → (m ≡ missing) ⊎ ((l : List R) × (m ≡ records l))
list_cases missing h = inl refl
list_cases other h = cc
list_cases (records l) h = inr (l, refl)

entries-append :
    (c : Call) (m n : Records Call)
    → m ≡ n
    → entries (append_metadata_record "mcpCalls" m c).0
      ≡ entries (append_metadata_record "mcpCalls" n c).0
entries-append c m n e = ap (λ x. entries (append_metadata_record "mcpCalls" x c).0) e

module _ {V : Type 0} (reply : ℕ → Option V × Option String) (random : ℕ → ℕ)
    (cancelled : ℕ → Option String) (rt : McpRuntime) (by : Caller)
    (retry : Option RetryStrategy) where
  correlate_ok :
      (c : Call) (m : Metadata) (o : Outcome V)
      → is_list m.mcp_calls ≡ true
      → 1 ≤ o.calls
      → o.calls ≤ most_calls retry
      → IsMade retry c m.mcp_calls (correlate reply random cancelled rt by retry c m o)
  unfolding correlate append_metadata_record
  correlate_ok c m o h first most = elim (Option-cases o.failure) [
    | inr (text, e) ↦ rw (e, correlate) (first, most, inr (λ q. cc, refl))
    | inl e ↦ elim (list_cases m.mcp_calls h) [
      | inl q ↦ rw (e, q, correlate) (first, most, inl (refl, entries-append c m.mcp_calls _ q))
      | inr (l, q) ↦
          rw (e, q, correlate) (first, most, inl (refl, entries-append c m.mcp_calls _ q))
    ]
  ]

  -- Where both kinds of records can be appended, a call always returns. A call that the policies
  -- do not permit fails before it reaches the client and is not recorded as a call. A call that
  -- they permit reaches the client at least once, and at most as often as its strategy allows, and
  -- is recorded once if it succeeds and not at all if it fails.
  pub audited_call_cases :
      (kind server target : String) (m : Metadata)
      → is_list m.mcp_policy ≡ true
      → is_list m.mcp_calls ≡ true
      → (a : Answer V) × (audited_call reply random cancelled rt by retry kind server target m
          ≡ some a)
        × (((permits rt kind (trim_space server) (trim_space target) ≡ false)
              × IsDenied m.mcp_calls a)
            ⊎ ((permits rt kind (trim_space server) (trim_space target) ≡ true)
                × IsMade retry (call_of by kind server target) m.mcp_calls a))
  unfolding audited_call
  audited_call_cases kind server target m hp hc =
      let allowed = ensure_allowed_iff rt kind server target m.mcp_policy hp in
      elim (Option-cases (ensure_allowed rt kind server target m.mcp_policy).0) [
        | inr (x, e) ↦ (
          record {
            result = none;
            error = some x;
            metadata = record m {
              mcp_policy = (ensure_allowed rt kind server target m.mcp_policy).1;
            };
            calls = 0;
          },
          rw (e, audited_call),
          inl (ground (arith, allowed, e), (refl, λ q. cc, refl)),
        )
        | inl e ↦
            let m' = record m {
              mcp_policy = (ensure_allowed rt kind server target m.mcp_policy).1;
            } in
            let (o, q, h) = call_with_retry_returns reply random cancelled retry in
            (
              correlate reply random cancelled rt by retry (call_of by kind server target) m' o,
              rw (e, audited_call) (rw (q, audited_call)),
              inr (
                ground (arith, allowed, e),
                correlate_ok (call_of by kind server target) m' o hc h.reached h.bounded,
              ),
            )
      ]
