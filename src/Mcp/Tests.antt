-- ===== src/Mcp/Tests.antt =====
-- Calls of MCP servers: runs of the theorems on a small policy.
use runfabric.Prelude.{ℕ, suc, String, ◌≡◌, refl, ◌⊎◌, true, false, Option, none, some, [], ◌∷◌}
use runfabric.Prelude.Int.{pos}
use runfabric.Prelude.Text.{codes, trim_space}
use runfabric.Mcp.Glob.{glob_match}
use runfabric.Mcp.Glob.Laws.{matches, glob_match-eq-matches}
use runfabric.Mcp.Retry.{aws_strategy, Outcome, call_with_retry}
use runfabric.Mcp.Retry.Laws.{IsOutcome, call_with_retry_returns}
use runfabric.Mcp.Policy.{McpPolicyRuleSet, McpRuntime, missing, ensure_allowed}
use runfabric.Mcp.Policy.Laws.{is_none, permits, ensure_allowed_iff}
use runfabric.Mcp.Calls.{Metadata, Caller, Answer, call_of, audited_call}
use runfabric.Mcp.Calls.Laws.{IsDenied, IsMade, audited_call_cases}

glob_match-eq-matches_example :
    glob_match (codes "db.*.delete") (codes "db.users.all.delete")
    ≡ some (matches (codes "db.*.delete") (codes "db.users.all.delete"))
glob_match-eq-matches_example =
    glob_match-eq-matches (codes "db.*.delete") (codes "db.users.all.delete") refl

-- The first two attempts are throttled.
abbrev throttled : ℕ → Option ℕ × Option String
throttled (suc (suc (suc k))) = (some 7, none)
throttled k = (none, some "ThrottlingException: slow down")

abbrev none_drawn : ℕ → ℕ
none_drawn k = 0

abbrev never : ℕ → Option String
never k = none

call_with_retry_returns_example :
    (o : Outcome ℕ) × (call_with_retry throttled none_drawn never (some (aws_strategy (pos 0)))
      ≡ some o)
    × IsOutcome throttled none_drawn never (some (aws_strategy (pos 0))) (λ d. Unit {0}) 1 o
call_with_retry_returns_example =
    call_with_retry_returns throttled none_drawn never (some (aws_strategy (pos 0)))

abbrev no_rules : McpPolicyRuleSet
no_rules = record { servers = []; tools = []; resources = []; prompts = [] }

abbrev runtime : McpRuntime
runtime = record {
  servers = ("db", record { url = "https://db" }) ∷ [];
  policy = record {
    default_deny = true;
    allow = record no_rules { servers = "db" ∷ [] };
    deny = record no_rules { tools = "db.*delete*" ∷ [] };
    providers = [];
  };
  provider = "aws-lambda";
  active_region = "eu-west-1";
}

ensure_allowed_iff_example :
    is_none (ensure_allowed runtime "tool" "db" "users.delete" missing).0
    ≡ permits runtime "tool" (trim_space "db") (trim_space "users.delete")
ensure_allowed_iff_example = ensure_allowed_iff runtime "tool" "db" "users.delete" missing refl

abbrev fresh : Metadata
fresh = record { mcp_policy = missing; mcp_calls = missing }

abbrev caller : Caller
caller = record { run_id = "r1"; step_id = "s1"; workflow_hash = "h1" }

audited_call_cases_example :
    (a : Answer ℕ) × (audited_call throttled none_drawn never runtime caller
        (some (aws_strategy (pos 0)))
        "tool"
        "db"
        "users.list"
        fresh
      ≡ some a)
    × (((permits runtime "tool" (trim_space "db") (trim_space "users.list") ≡ false)
          × IsDenied fresh.mcp_calls a)
        ⊎ ((permits runtime "tool" (trim_space "db") (trim_space "users.list") ≡ true)
            × IsMade
                (some (aws_strategy (pos 0)))
                (call_of caller "tool" "db" "users.list")
                fresh.mcp_calls
                a))
audited_call_cases_example =
    audited_call_cases throttled none_drawn never runtime caller (some (aws_strategy (pos 0)))
      "tool" "db" "users.list" fresh refl refl
