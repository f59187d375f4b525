-- ===== src/Core/Policy/Enforcement.antt =====
-- What an execution profile permits, said of the profile and the tool alone, and the engines of
-- src/core/policy that enforce it.
use devagent_ts.Base.{
  Bool, true, false, not, ◌&&◌, ◌||◌, Option, none, some, String, string_eq, List, [], ◌∷◌, ◌++◌,
  ◌≡◌, ◌≢◌, refl, arith, if◌then◌else◌, ◌<◌, Option-cases, inl, inr, ◌⊎◌, includes, ◌↔◌,
}
use devagent_ts.Core.Policy.Tools.{
  ToolRisk, read, ToolDefinition, rank, tool_risk_at_least, tool_is_mutating,
}
use devagent_ts.Core.Policy.Profiles.{
  ExecutionProfile, execution_profile, readonly, CommandPermission, NetworkPermission,
  FilesystemPermission,
}
use devagent_ts.Core.Policy.Rules.{
  PolicyRule, PolicyRequest, PolicyDecision, is_read_only_mode, is_depleted, deny_tools_rule,
  EnvironmentPolicyContext, execution_profile_rule, mode_restriction_rule, budget_guard_rule,
  confirmation_rule, profile_rule, needs_network, network_denies, writes_disabled,
  commands_disabled, needs_open_egress, is_registry_tool,
}
use devagent_ts.Core.Policy.Engine.{
  effective, first_decision, check, profile_posture, rule_policy_engine, denied_tool_rules,
}

-- The profile's permissions cover what the tool declares.
pub record Permits (p : ExecutionProfile) (tool : ToolDefinition) : Type 0 where
  pub not_listed : includes tool.id p.denied_tools ≡ false
  pub commands : tool.side_effects.process ≡ true → p.permissions.commands ≢ CommandPermission.none
  pub no_network : p.permissions.network ≡ NetworkPermission.none → needs_network tool ≡ false
  pub registry_only :
      p.permissions.network ≡ NetworkPermission.registry
      → needs_network tool ≡ true
      → is_registry_tool tool ≡ true
  pub declared_only :
      p.permissions.network ≡ NetworkPermission.allowlisted → needs_open_egress tool ≡ false
  pub writes :
      tool.side_effects.filesystem ≡ true
      → (p.permissions.filesystem ≡ FilesystemPermission.workspace)
        ⊎ (p.permissions.filesystem ≡ FilesystemPermission.unrestricted)
  pub external : tool.side_effects.external_mutation ≡ true → p.allow_external_mutation ≡ true
  pub financial : tool.side_effects.financial ≡ true → p.allow_financial ≡ true
  pub below_ceiling : rank tool.risk < rank p.risk_ceiling

-- None of the seven tests of the ladder holds.
ladder {ℓ} :
    {A : Type ℓ} (a b c d e f g : Bool) (x : A)
    → (if a
        then some x
        else if b
        then some x
        else if c
        then some x
        else if d
        then some x
        else if e
        then some x
        else if f
        then some x
        else if g
        then some x
        else none)
      ≡ none
    → (a ≡ false)
      × (b ≡ false)
      × (c ≡ false)
      × (d ≡ false)
      × (e ≡ false)
      × (f ≡ false)
      × (g ≡ false)
ladder a b c d e f g x h = ground arith

network_permitted :
    (n : NetworkPermission) (tool : ToolDefinition)
    → (needs_network tool && network_denies n tool) ≡ false
    → (n ≡ NetworkPermission.none → needs_network tool ≡ false)
      × (n ≡ NetworkPermission.registry → needs_network tool ≡ true → is_registry_tool tool ≡ true)
      × (n ≡ NetworkPermission.allowlisted → needs_open_egress tool ≡ false)
unfolding needs_network needs_open_egress
network_permitted NetworkPermission.none tool h = (ground arith, cc, cc)
network_permitted NetworkPermission.registry tool h = (cc, ground arith, cc)
network_permitted NetworkPermission.allowlisted tool h = (cc, cc, ground arith)
network_permitted NetworkPermission.open_egress tool h = (cc, cc, cc)

commands_permitted :
    (c : CommandPermission) (b : Bool)
    → (b && commands_disabled c) ≡ false
    → b ≡ true
    → c ≢ CommandPermission.none
commands_permitted c b h k = ground arith

writes_permitted :
    (f : FilesystemPermission) (b : Bool)
    → (b && writes_disabled f) ≡ false
    → b ≡ true
    → (f ≡ FilesystemPermission.workspace) ⊎ (f ≡ FilesystemPermission.unrestricted)
writes_permitted f b h k = ground arith

flag_permitted : (b flag : Bool) → (b && not flag) ≡ false → b ≡ true → flag ≡ true
flag_permitted b flag h k = ground arith

below : (a b : ToolRisk) → tool_risk_at_least a b ≡ false → rank a < rank b
unfolding tool_risk_at_least
below a b h = ground arith

profile_rule-Permits :
    (p : ExecutionProfile) (tool : ToolDefinition) → profile_rule p tool ≡ none → Permits p tool
unfolding profile_rule
profile_rule-Permits p tool h =
    let (a, b, c, d, e, f, g) = ladder _ _ _ _ _ _ _ _ h in
    let (no_net, registry, declared) = network_permitted p.permissions.network tool c in
    record {
      not_listed = a;
      commands = commands_permitted _ _ b;
      no_network = no_net;
      registry_only = registry;
      declared_only = declared;
      writes = writes_permitted _ _ d;
      external = flag_permitted _ _ e;
      financial = flag_permitted _ _ f;
      below_ceiling = below _ _ g;
    }

network_not_denied :
    (n : NetworkPermission) (tool : ToolDefinition)
    → (n ≡ NetworkPermission.none → needs_network tool ≡ false)
    → (n ≡ NetworkPermission.registry → needs_network tool ≡ true → is_registry_tool tool ≡ true)
    → (n ≡ NetworkPermission.allowlisted → needs_open_egress tool ≡ false)
    → (needs_network tool && network_denies n tool) ≡ false
network_not_denied NetworkPermission.none tool a b c = ground (arith, a refl)
network_not_denied NetworkPermission.registry tool a b c = ground (arith, b refl)
network_not_denied NetworkPermission.allowlisted tool a b c = ground (arith, c refl)
network_not_denied NetworkPermission.open_egress tool a b c = ground arith

commands_not_disabled :
    (c : CommandPermission) (b : Bool)
    → (b ≡ true → c ≢ CommandPermission.none)
    → (b && commands_disabled c) ≡ false
commands_not_disabled c b h = ground arith

writes_not_disabled :
    (f : FilesystemPermission) (b : Bool)
    → (b ≡ true → (f ≡ FilesystemPermission.workspace) ⊎ (f ≡ FilesystemPermission.unrestricted))
    → (b && writes_disabled f) ≡ false
writes_not_disabled f false h = refl
writes_not_disabled f true h = elim (h refl) [ inl e ↦ rw e refl | inr e ↦ rw e refl ]

flag_set : (b flag : Bool) → (b ≡ true → flag ≡ true) → (b && not flag) ≡ false
flag_set b flag h = ground arith

not_at_least : (a b : ToolRisk) → rank a < rank b → tool_risk_at_least a b ≡ false
unfolding tool_risk_at_least
not_at_least a b h = ground arith

Permits-profile_rule :
    (p : ExecutionProfile) (tool : ToolDefinition) → Permits p tool → profile_rule p tool ≡ none
unfolding profile_rule
Permits-profile_rule p tool h =
    rw
      (
        h.not_listed,
        commands_not_disabled p.permissions.commands tool.side_effects.process h.commands,
        network_not_denied p.permissions.network tool h.no_network h.registry_only h.declared_only,
        writes_not_disabled p.permissions.filesystem tool.side_effects.filesystem h.writes,
        flag_set tool.side_effects.external_mutation p.allow_external_mutation h.external,
        flag_set tool.side_effects.financial p.allow_financial h.financial,
        not_at_least tool.risk p.risk_ceiling h.below_ceiling,
      )
      refl

-- The profile that a request is held to: its own, or the one that the engine was built with.
abbrev pub active_profile : ExecutionProfile → PolicyRequest → ExecutionProfile
active_profile p r = elim r.environment [ none ↦ p | some env ↦ env.profile ]

abbrev is_none {ℓ} : {A : Type ℓ} → Option A → Bool
is_none none = true
is_none (some a) = false

abbrev tail : ToolRisk → List PolicyRule
tail floor = mode_restriction_rule ∷ budget_guard_rule ∷ confirmation_rule floor true ∷ []

tail-allowed :
    (floor : ToolRisk) (e : PolicyRequest)
    → (first_decision (tail floor) e).allowed
      ≡ not (tool_is_mutating e.tool && (is_read_only_mode e.mode || is_depleted e.budget))
unfolding first_decision mode_restriction_rule budget_guard_rule confirmation_rule
tail-allowed floor e = ground arith

listed-allowed :
    (ids : List String) (rules : List PolicyRule) (e : PolicyRequest)
    → (first_decision (denied_tool_rules ids ++ rules) e).allowed
      ≡ (not (includes e.tool.id ids) && (first_decision rules e).allowed)
unfolding first_decision deny_tools_rule
listed-allowed [] rules e = ground arith
listed-allowed (i ∷ ids) rules e = ground arith

profile_rule_denies :
    (p : ExecutionProfile) (tool : ToolDefinition) (d : PolicyDecision)
    → profile_rule p tool ≡ some d
    → d.allowed ≡ false
unfolding profile_rule
profile_rule_denies p tool d h = ground arith

profile-allowed :
    (rules : List PolicyRule) (e : PolicyRequest) (env : EnvironmentPolicyContext)
    → e.environment ≡ some env
    → (first_decision (execution_profile_rule ∷ rules) e).allowed
      ≡ (is_none (profile_rule env.profile e.tool) && (first_decision rules e).allowed)
unfolding first_decision execution_profile_rule
profile-allowed rules e env h = elim (Option-cases (profile_rule env.profile e.tool)) [
  | inl q ↦ ground arith
  | inr (d, q) ↦ ground (arith, profile_rule_denies env.profile e.tool d q)
]

-- The verdict as three independent tests.
posture-allowed :
    (p : ExecutionProfile) (e : PolicyRequest) (env : EnvironmentPolicyContext)
    → e.environment ≡ some env
    → (first_decision (profile_posture p).rules e).allowed ≡ (
        not (includes e.tool.id p.denied_tools)
        && (is_none (profile_rule env.profile e.tool)
            && not (tool_is_mutating e.tool && (is_read_only_mode e.mode || is_depleted e.budget))))
unfolding profile_posture rule_policy_engine
posture-allowed p e env h = rw (
  listed-allowed p.denied_tools (execution_profile_rule ∷ tail p.confirmation_floor) e,
  profile-allowed (tail p.confirmation_floor) e env h,
  tail-allowed p.confirmation_floor e,
)

check-allowed :
    (p : ExecutionProfile) (r : PolicyRequest)
    → (check (profile_posture p) r).allowed ≡ (
        not (includes r.tool.id p.denied_tools)
        && (is_none (profile_rule (active_profile p r) r.tool)
            && not (tool_is_mutating r.tool && (is_read_only_mode r.mode || is_depleted r.budget))))
unfolding check effective profile_posture rule_policy_engine
check-allowed p r = elim (Option-cases r.environment) [
  | inl q ↦
      rw (q, effective)
        (posture-allowed p
          (record r { environment = some (record { profile = p; trading_mode = none }) }) _ refl)
  | inr (env, q) ↦ rw (q, effective) (posture-allowed p r env q)
]

is_none-Permits :
    (p : ExecutionProfile) (tool : ToolDefinition)
    → (is_none (profile_rule p tool) ≡ true) ↔ Permits p tool
is_none-Permits p tool = (
  λ h. profile_rule-Permits p tool (ground arith),
  λ h. let e = Permits-profile_rule p tool h in rw e refl,
)

tests_iff :
    (a b c d e : Bool)
    → ((not a && (b && not (c && (d || e)))) ≡ true)
      ↔ ((a ≡ false) × (b ≡ true) × (c ≡ true → (d ≡ false) × (e ≡ false)))
tests_iff a b c d e = (λ h. (ground arith, ground arith, ground arith), λ h. ground arith)

-- An engine built from a profile allows a request, with or without a confirmation, exactly when
-- the tool is not on that profile's deny list, the profile of the request's environment, or in
-- its absence that of the engine, permits the tool, and the tool does not mutate state in a
-- read-only mode or on a depleted budget.
pub profile_posture_allows_iff :
    (p : ExecutionProfile) (r : PolicyRequest)
    → ((check (profile_posture p) r).allowed ≡ true) ↔ (
        (includes r.tool.id p.denied_tools ≡ false)
        × Permits (active_profile p r) r.tool
        × (tool_is_mutating r.tool ≡ true
            → (is_read_only_mode r.mode ≡ false) × (is_depleted r.budget ≡ false)))
profile_posture_allows_iff p r =
    let (tests, back) =
      tests_iff (includes r.tool.id p.denied_tools)
        (is_none (profile_rule (active_profile p r) r.tool)) (tool_is_mutating r.tool)
        (is_read_only_mode r.mode) (is_depleted r.budget) in
    let (permits, unpermits) = is_none-Permits (active_profile p r) r.tool in
    rw (check-allowed p r)
      (λ h. let (a, b, c) = tests h in (a, permits b, c), λ (a, b, c). back (a, unpermits b, c))

observes :
    (tool : ToolDefinition)
    → Permits (execution_profile readonly) tool
    → (tool_is_mutating tool ≡ false) × (needs_network tool ≡ false) × (tool.risk ≡ read)
unfolding execution_profile tool_is_mutating
observes tool permits = (ground (arith, permits.commands), permits.no_network refl, ground arith)

-- An engine built from the `readonly` profile allows, of the requests that bring no environment
-- of their own, only those for tools of risk `read` that mutate nothing and need no network.
pub readonly_posture_observes :
    (r : PolicyRequest)
    → r.environment ≡ none
    → (check (profile_posture (execution_profile readonly)) r).allowed ≡ true
    → (tool_is_mutating r.tool ≡ false) × (needs_network r.tool ≡ false) × (r.tool.risk ≡ read)
readonly_posture_observes r no_env h =
    let (_, permits, _) = (profile_posture_allows_iff (execution_profile readonly) r).0 h in
    observes r.tool (rw no_env at permits)
