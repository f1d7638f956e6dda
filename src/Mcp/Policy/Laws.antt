-- ===== src/Mcp/Policy/Laws.antt =====
-- platform/workflow/runtime/workflow_mcp_runtime.go: which calls are allowed.
use runfabric.Prelude.{
  String, ◌<>◌, ◌=?=◌, ◌≡◌, refl, Bool, true, false, not, ◌||◌, ◌&&◌, Option, none, some, List, [],
  ◌∷◌, lookup, arith, Option-cases, Bool-cases, inl, inr,
}
use runfabric.Prelude.Text.{trim_space}
use runfabric.Mcp.Glob.{wildcard_match}
use runfabric.Mcp.Policy.{
  McpPolicyConfig, McpProviderPolicyRule, McpRuntime, Decision, Records, missing, other, records,
  append_metadata_record, append_decision, deny_decision, first_match, rule_set_by_action,
  in_denied_region, enforce_provider_policy, apply_allow_rules, provider_rule, check_provider,
  apply_rules, decide, ensure_allowed,
}

abbrev pub is_none : {A : Type 0} → Option A → Bool
is_none none = true
is_none (some a) = false

abbrev pub is_some : {A : Type 0} → Option A → Bool
is_some none = false
is_some (some a) = true

abbrev pub is_list : {R : Type 0} → Records R → Bool
is_list other = false
is_list missing = true
is_list (records l) = true

abbrev is_match : String → String → Bool
is_match p value = elim (wildcard_match p value) [ some true ↦ true | _ ↦ false ]

abbrev matches_any : List String → String → Bool
matches_any [] value = false
matches_any (p ∷ rest) value = is_match p value || matches_any rest value

abbrev crosses_region : McpProviderPolicyRule → String → Bool
crosses_region pp region =
    pp.deny_cross_region
    && not (region =?= "")
    && not (pp.required_region =?= "")
    && not (region =?= pp.required_region)

abbrev provider_permits : McpRuntime → Bool
provider_permits rt = elim (provider_rule rt) [
  | none ↦ true
  | some pp ↦
      not (crosses_region pp rt.active_region)
      && (rt.active_region =?= "" || not (matches_any pp.deny_regions rt.active_region))
]

-- Deny rules and the provider's rule come first, whatever is allowed.
abbrev rules_permit : McpRuntime → String → String → String → Bool
rules_permit rt action server target =
    not (matches_any rt.policy.deny.servers server)
    && not (matches_any (rule_set_by_action rt.policy.deny action) (server <> "." <> target))
    && provider_permits rt
    && (matches_any rt.policy.allow.servers server
        || matches_any (rule_set_by_action rt.policy.allow action) (server <> "." <> target)
        || not rt.policy.default_deny)

-- Only a call of a tool, resource or prompt of a configured server can be allowed.
abbrev pub permits : McpRuntime → String → String → String → Bool
permits rt action server target =
    not (server =?= "")
    && not (target =?= "")
    && is_some (lookup server rt.servers)
    && rules_permit rt action server target

first_match-none :
    (ps : List String) (value : String)
    → is_none (first_match ps value) ≡ not (matches_any ps value)
unfolding first_match
first_match-none [] value = refl
first_match-none (p ∷ rest) value = ground (arith, first_match-none rest value)

in_denied_region-matches :
    (rs : List String) (region : String)
    → in_denied_region rs region ≡ (not (region =?= "") && matches_any rs region)
unfolding in_denied_region
in_denied_region-matches [] region = ground arith
in_denied_region-matches (r ∷ rest) region = ground (arith, in_denied_region-matches rest region)

module _ (action server target : String) where
  append_ok :
      (m : Records Decision) (outcome reason : String)
      → is_list m ≡ true
      → ((append_decision action server target m outcome reason).0 ≡ none)
        × (is_list (append_decision action server target m outcome reason).1 ≡ true)
  unfolding append_decision append_metadata_record
  append_ok missing outcome reason h = (refl, refl)
  append_ok other outcome reason h = cc
  append_ok (records l) outcome reason h = (refl, refl)

  deny_fails :
      (m : Records Decision) (reason : String)
      → is_none (deny_decision action server target m reason).0 ≡ false
  unfolding deny_decision append_decision append_metadata_record
  deny_fails missing reason = refl
  deny_fails other reason = refl
  deny_fails (records l) reason = refl

  enforce_ok :
      (region : String) (pp : McpProviderPolicyRule) (m : Records Decision)
      → is_list m ≡ true
      → (is_none (enforce_provider_policy action server target region pp m).0 ≡ (
          not (crosses_region pp region)
          && (region =?= "" || not (matches_any pp.deny_regions region))))
        × (is_none (enforce_provider_policy action server target region pp m).0 ≡ true
            → is_list (enforce_provider_policy action server target region pp m).1 ≡ true)
  unfolding enforce_provider_policy
  enforce_ok region pp m h = elim (Bool-cases (crosses_region pp region)) [
    | inl cross ↦ rw cross (ground (arith, deny_fails m _), λ q. ground (arith, deny_fails m _, q))
    | inr stays ↦
        let r = in_denied_region-matches pp.deny_regions region in
        rw stays (elim (Bool-cases (in_denied_region pp.deny_regions region)) [
          | inl d ↦
              rw d (ground (arith, d, r, deny_fails m _), λ q. ground (arith, deny_fails m _, q))
          | inr d ↦ rw d (elim (Bool-cases (pp.required_auth =?= "")) [
            | inl a ↦ rw a (ground (arith, d, r), λ q. h)
            | inr a ↦
                let k = append_ok m "require" ("auth-required:" <> pp.required_auth) h in
                rw a (ground (arith, d, r, k.0), λ q. k.1)
          ])
        ])
  ]

  check_provider_ok :
      (rt : McpRuntime) (m : Records Decision)
      → is_list m ≡ true
      → (is_none (check_provider action server target rt m).0 ≡ provider_permits rt)
        × (provider_permits rt ≡ true → is_list (check_provider action server target rt m).1 ≡ true)
  unfolding check_provider
  check_provider_ok rt m h = elim (Option-cases (provider_rule rt)) [
    | inl e ↦ ground (arith, e, h)
    | inr (pp, e) ↦ let q = enforce_ok rt.active_region pp m h in ground (arith, e, q.0, q.1)
  ]

  apply_allow_rules_ok :
      (policy : McpPolicyConfig) (m : Records Decision)
      → is_list m ≡ true
      → is_none (apply_allow_rules action server target policy m).0 ≡ (
          matches_any policy.allow.servers server
          || matches_any (rule_set_by_action policy.allow action) (server <> "." <> target)
          || not policy.default_deny)
  unfolding apply_allow_rules
  apply_allow_rules_ok policy m h =
      let a = first_match-none policy.allow.servers server in
      let b = first_match-none (rule_set_by_action policy.allow action) (server <> "." <> target) in
      elim (Option-cases (first_match policy.allow.servers server)) [
        | inr (p, e) ↦ ground (arith, e, a, append_ok m _ _ h)
        | inl e ↦
            elim (Option-cases
              (first_match (rule_set_by_action policy.allow action) (server <> "." <> target))) [
                | inr (p, e') ↦ ground (arith, e, e', a, b, append_ok m _ _ h)
                | inl e' ↦
                    rw (e, apply_allow_rules)
                      (rw (e', apply_allow_rules)
                        (elim (Bool-cases policy.default_deny) [
                          | inl d ↦ rw d (ground (arith, e, e', a, b, d, deny_fails m _))
                          | inr d ↦ rw d (ground (arith, e, e', a, b, d, append_ok m _ _ h))
                        ]))
              ]
      ]

  apply_rules_ok :
      (rt : McpRuntime) (m : Records Decision)
      → is_list m ≡ true
      → is_none (apply_rules action server target rt m).0 ≡ rules_permit rt action server target
  unfolding apply_rules
  apply_rules_ok rt m h =
      let a = first_match-none rt.policy.deny.servers server in
      let b =
        first_match-none (rule_set_by_action rt.policy.deny action) (server <> "." <> target) in
      let (c, k) = check_provider_ok rt m h in
      elim (Option-cases (first_match rt.policy.deny.servers server)) [
        | inr (p, e) ↦ rw (e, apply_rules) (ground (arith, e, a, deny_fails m _))
        | inl e ↦
            elim (Option-cases
              (first_match (rule_set_by_action rt.policy.deny action) (server <> "." <> target))) [
                | inr (p, e') ↦
                    rw (e, apply_rules)
                      (rw (e', apply_rules) (ground (arith, e, e', a, b, deny_fails m _)))
                | inl e' ↦ elim (Option-cases (check_provider action server target rt m).0) [
                  | inr (x, q) ↦
                      rw (e, apply_rules)
                        (rw (e', apply_rules)
                          (rw (q, apply_rules) (ground (arith, e, e', a, b, c, q))))
                  | inl q ↦
                      let r =
                        apply_allow_rules_ok rt.policy (check_provider action server target rt m).1
                          (k (ground (arith, c, q))) in
                      rw (e, apply_rules)
                        (rw (e', apply_rules)
                          (rw (q, apply_rules) (ground (arith, e, e', a, b, c, q, r))))
                ]
              ]
      ]

  decide_ok :
      (rt : McpRuntime) (m : Records Decision)
      → is_list m ≡ true
      → is_none (decide action server target rt m).0 ≡ permits rt action server target
  unfolding decide
  decide_ok rt m h = elim (Bool-cases (server =?= "")) [
    | inl e ↦ rw e (deny_fails m _)
    | inr e ↦ elim (Bool-cases (target =?= "")) [
      | inl e' ↦ rw (e, e') (deny_fails m _)
      | inr e' ↦ elim (Option-cases (lookup server rt.servers)) [
        | inl q ↦ rw (e, e', q, decide) (ground (arith, e, e', q, deny_fails m _))
        | inr (c, q) ↦ rw (e, e', q, decide) (ground (arith, e, e', q, apply_rules_ok rt m h))
      ]
    ]
  ]

-- Where decisions can be recorded, a call is allowed exactly if its trimmed server and target are
-- given, the server is configured, no deny rule matches the server or `server.target`, the rule of
-- the active provider does not exclude the region, and an allow rule matches or denial is not the
-- default.
pub ensure_allowed_iff :
    (rt : McpRuntime) (action server target : String) (m : Records Decision)
    → is_list m ≡ true
    → is_none (ensure_allowed rt action server target m).0
      ≡ permits rt action (trim_space server) (trim_space target)
unfolding ensure_allowed
ensure_allowed_iff rt action server target m h =
    decide_ok action (trim_space server) (trim_space target) rt m h
