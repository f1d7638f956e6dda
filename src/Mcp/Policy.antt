-- ===== src/Mcp/Policy.antt =====
-- platform/workflow/runtime/workflow_mcp_runtime.go: which calls the policies of the configuration
-- (platform/core/model/config/mcp.go) allow, and what is recorded of them. `%q` is a text between
-- quotes: regions hold no character that it would escape.
pub mod Laws
use runfabric.Prelude.{
  ℕ, String, ◌<>◌, ◌=?=◌, Bool, true, false, not, ◌||◌, ◌&&◌, Option, none, some, List, [], ◌∷◌,
  ◌++◌, if◌then◌else◌, lookup,
}
use runfabric.Prelude.Text.{trim_space}
use runfabric.Mcp.Glob.{wildcard_match}

pub record McpServerConfig : Type 0 where
  pub url : String

pub record McpPolicyRuleSet : Type 0 where
  pub servers : List String
  pub tools : List String
  pub resources : List String
  pub prompts : List String

-- `Models` is for the model selection, and is not read here.
pub record McpProviderPolicyRule : Type 0 where
  pub required_region : String
  pub required_auth : String
  pub deny_cross_region : Bool
  pub deny_regions : List String

pub record McpPolicyConfig : Type 0 where
  pub default_deny : Bool
  pub allow : McpPolicyRuleSet
  pub deny : McpPolicyRuleSet
  pub providers : List (String × McpProviderPolicyRule)

pub record McpPolicyError : Type 0 where
  pub action : String
  pub server : String
  pub target : String
  pub reason : String

-- An entry under the key "mcpPolicy".
pub record Decision : Type 0 where
  pub action : String
  pub server : String
  pub target : String
  pub outcome : String
  pub reason : String

-- A value of the metadata: `nil`, a list of records, or something else.
pub data Records (R : Type 0) : Type 0 where
  missing other : Records R
  records : List R → Records R

-- The `error` of a call: a denial, a bad entry of the metadata, or the error that the client or the
-- context gave.
pub data McpError : Type 0 where
  denied : McpPolicyError → McpError
  bad_metadata : String → McpError
  failed : String → McpError

-- A record that cannot be appended leaves the metadata alone.
unfoldable pub append_metadata_record :
    {R : Type 0} → String → Records R → R → Records R × Option McpError
append_metadata_record key missing r = (records (r ∷ []), none)
append_metadata_record key other r = (other, some (bad_metadata key))
append_metadata_record key (records l) r = (records (l ++ r ∷ []), none)

unfoldable pub first_match : List String → String → Option String
first_match [] value = none
first_match (p ∷ rest) value =
    let later = first_match rest value in
    elim (wildcard_match p value) [ some true ↦ some (trim_space p) | _ ↦ later ]

unfoldable pub rule_set_by_action : McpPolicyRuleSet → String → List String
rule_set_by_action set action =
    if action =?= "tool"
    then set.tools
    else if action =?= "resource"
    then set.resources
    else if action =?= "prompt"
    then set.prompts
    else []

-- The parts of MCPRuntime that the policies read.
pub record McpRuntime : Type 0 where
  pub servers : List (String × McpServerConfig)
  pub policy : McpPolicyConfig
  pub provider : String
  pub active_region : String

-- An error, if any, and the decisions as they are then recorded.
abbrev Verdict : Type 0
Verdict = Option McpError × Records Decision

-- The loop over the denied regions: whether one of them matches.
unfoldable pub in_denied_region : List String → String → Bool
in_denied_region [] region = false
in_denied_region (r ∷ rest) region =
    let later = in_denied_region rest region in
    elim (wildcard_match r region) [ some true ↦ not (region =?= "") || later | _ ↦ later ]

-- The rule of the active provider, if the policy has one.
unfoldable pub provider_rule : McpRuntime → Option McpProviderPolicyRule
unfolding lookup
provider_rule rt = if rt.provider =?= "" then none else lookup rt.provider rt.policy.providers

module _ (action server target : String) where
  unfoldable pub append_decision : Records Decision → String → String → Verdict
  unfolding append_metadata_record
  append_decision m outcome reason =
      let (m', e) = append_metadata_record "mcpPolicy" m (record {
        action = action;
        server = server;
        target = target;
        outcome = outcome;
        reason = reason;
      }) in
      (e, m')

  unfoldable pub deny_decision : Records Decision → String → Verdict
  unfolding append_decision
  deny_decision m reason =
      let (e, m') = append_decision m "denied" reason in
      elim e [
        | some bad ↦ (some bad, m')
        | none ↦ (
          some (
              denied
                (record { action = action; server = server; target = target; reason = reason })),
          m',
        )
      ]

  unfoldable pub enforce_provider_policy :
      String → McpProviderPolicyRule → Records Decision → Verdict
  unfolding deny_decision append_decision in_denied_region
  enforce_provider_policy region pp m =
      if pp.deny_cross_region
        && not (region =?= "")
        && not (pp.required_region =?= "")
        && not (region =?= pp.required_region)
      then deny_decision m (
          "cross-region call denied (active:" <> region <> " required:" <> pp.required_region
          <> ")")
      else if in_denied_region pp.deny_regions region
      then deny_decision m ("region \"" <> region <> "\" is in provider deny list")
      else if not (pp.required_auth =?= "")
      then append_decision m "require" ("auth-required:" <> pp.required_auth)
      else (none, m)

  -- What comes after the deny rules: the first allow rule that matches, or the default.
  unfoldable pub apply_allow_rules : McpPolicyConfig → Records Decision → Verdict
  unfolding append_decision deny_decision first_match rule_set_by_action
  apply_allow_rules policy m = elim (first_match policy.allow.servers server) [
    | some p ↦ append_decision m "allowed" ("matched policies.mcp.allow.servers (" <> p <> ")")
    | none ↦ elim (first_match (rule_set_by_action policy.allow action) (server <> "." <> target)) [
      | some p ↦
          append_decision m "allowed" ("matched policies.mcp.allow." <> action <> "s (" <> p <> ")")
      | none ↦
          if policy.default_deny
          then deny_decision m "denied by policies.mcp.defaultDeny"
          else append_decision m "allowed" "allowed by default (defaultDeny=false)"
    ]
  ]

  unfoldable pub check_provider : McpRuntime → Records Decision → Verdict
  unfolding provider_rule enforce_provider_policy
  check_provider rt m = elim (provider_rule rt) [
    | none ↦ (none, m)
    | some pp ↦ enforce_provider_policy rt.active_region pp m
  ]

  unfoldable pub apply_rules : McpRuntime → Records Decision → Verdict
  unfolding deny_decision first_match rule_set_by_action check_provider apply_allow_rules
  apply_rules rt m = elim (first_match rt.policy.deny.servers server) [
    | some p ↦ deny_decision m ("matched policies.mcp.deny.servers (" <> p <> ")")
    | none ↦
        elim (first_match (rule_set_by_action rt.policy.deny action) (server <> "." <> target)) [
          | some p ↦ deny_decision m ("matched policies.mcp.deny." <> action <> "s (" <> p <> ")")
          | none ↦
              let (e, m') = check_provider rt m in
              elim e [ some x ↦ (some x, m') | none ↦ apply_allow_rules rt.policy m' ]
        ]
  ]

  -- ensureAllowed after it has trimmed the names.
  unfoldable pub decide : McpRuntime → Records Decision → Verdict
  unfolding deny_decision lookup apply_rules
  decide rt m =
      if server =?= ""
      then deny_decision m "server is required"
      else if target =?= ""
      then deny_decision m "target is required"
      else elim (lookup server rt.servers) [
        | none ↦ deny_decision m "server is not configured under integrations.mcp.servers"
        | some c ↦ apply_rules rt m
      ]

unfoldable pub ensure_allowed : McpRuntime → String → String → String → Records Decision → Verdict
unfolding decide trim_space
ensure_allowed rt action server target m =
    decide action (trim_space server) (trim_space target) rt m
