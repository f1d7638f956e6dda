-- ===== src/Mcp/Calls.antt =====
-- platform/workflow/runtime/workflow_mcp_runtime.go: CallTool, ReadResource and GetPrompt. The client
-- is what it answers to each attempt; its arguments besides server and target play no part here.
pub mod Laws
use runfabric.Prelude.{ℕ, String, Option, none, some}
use runfabric.Mcp.Retry.{RetryStrategy, Outcome, call_with_retry}
use runfabric.Mcp.Policy.{
  McpRuntime, McpError, failed, Decision, Records, append_metadata_record, ensure_allowed,
}

pub record McpBinding : Type 0 where
  pub server : String
  pub tool : String
  pub resource : String
  pub prompt : String

-- An entry under the key "mcpCalls".
pub record Call : Type 0 where
  pub kind : String
  pub server : String
  pub target : String
  pub run_id : String
  pub step_id : String
  pub workflow_hash : String

pub record Metadata : Type 0 where
  pub mcp_policy : Records Decision
  pub mcp_calls : Records Call

-- The run and the step that make the call.
pub record Caller : Type 0 where
  pub run_id : String
  pub step_id : String
  pub workflow_hash : String

-- What a call returns, the metadata that it leaves, and how often it reached the client.
pub record Answer (V : Type 0) : Type 0 where
  pub result : Option V
  pub error : Option McpError
  pub metadata : Metadata
  pub calls : ℕ

abbrev pub call_of : Caller → String → String → String → Call
call_of by kind server target = record {
  kind = kind;
  server = server;
  target = target;
  run_id = by.run_id;
  step_id = by.step_id;
  workflow_hash = by.workflow_hash;
}

module _ {V : Type 0} (reply : ℕ → Option V × Option String) (random : ℕ → ℕ)
    (cancelled : ℕ → Option String) (rt : McpRuntime) (by : Caller)
    (retry : Option RetryStrategy) where
  -- After the client has answered; appendMCPCorrelation.
  unfoldable pub correlate : Call → Metadata → Outcome V → Answer V
  unfolding append_metadata_record
  correlate c m o = elim o.failure [
    | some text ↦ record {
      result = none;
      error = some (failed text);
      metadata = m;
      calls = o.calls;
    }
    | none ↦
        let (calls', e) = append_metadata_record "mcpCalls" m.mcp_calls c in
        elim e [
          | some bad ↦ record { result = none; error = some bad; metadata = m; calls = o.calls }
          | none ↦ record {
            result = o.result;
            error = none;
            metadata = record m { mcp_calls = calls' };
            calls = o.calls;
          }
        ]
  ]

  -- The body that the three operations share, by their kind.
  unfoldable pub audited_call : String → String → String → Metadata → Option (Answer V)
  unfolding ensure_allowed call_with_retry correlate
  audited_call kind server target m =
      let (e, decisions) = ensure_allowed rt kind server target m.mcp_policy in
      let m' = record m { mcp_policy = decisions } in
      elim e [
        | some x ↦ some (record { result = none; error = some x; metadata = m'; calls = 0 })
        | none ↦ elim (call_with_retry reply random cancelled retry) [
          | none ↦ none
          | some o ↦ some (correlate (call_of by kind server target) m' o)
        ]
      ]

  unfoldable pub call_tool : McpBinding → Metadata → Option (Answer V)
  unfolding audited_call
  call_tool b m = audited_call "tool" b.server b.tool m

  unfoldable pub read_resource : McpBinding → Metadata → Option (Answer V)
  unfolding audited_call
  read_resource b m = audited_call "resource" b.server b.resource m

  unfoldable pub get_prompt : McpBinding → Metadata → Option (Answer V)
  unfolding audited_call
  get_prompt b m = audited_call "prompt" b.server b.prompt m
