-- ===== src/Core/Policy/Rules.antt =====
-- The requests, decisions and built-in rules of src/core/policy/policy-engine.ts. The text of a
-- decision's reason is left out; the rule that made it is kept. The fields `task`, `agent` and
-- `workspace` of a request, which no rule reads, are left out too.
use devagent_ts.Base.{
  Bool, true, false, not, ◌&&◌, ◌||◌, Option, none, some, String, string_eq, List, [], ◌∷◌,
  if◌then◌else◌, ◌==◌, includes, any,
}
use devagent_ts.Core.Policy.Tools.{
  ToolRisk, ToolDefinition, Confirmation, never, required, tool_risk_at_least, tool_is_mutating,
}
use devagent_ts.Core.Policy.Profiles.{
  ExecutionProfile, CommandPermission, NetworkPermission, FilesystemPermission,
}

-- An element of an array: a string, or anything else, with what `String(x)` makes of it.
pub data Element : Type 0 where
  word : String → Element
  thing : String → Element

-- A value of `args`, as the rules read it: a string, an array, or anything else.
pub data ArgValue : Type 0 where
  text : String → ArgValue
  items : List Element → ArgValue
  other : ArgValue

pub record EnvironmentPolicyContext : Type 0 where
  pub profile : ExecutionProfile
  pub trading_mode : Option String

-- `BudgetUsage`, and the `depleted` flag that the guard looks for; an absent flag is `false`.
pub record BudgetSnapshot : Type 0 where
  pub elapsed_ms_is_negative : Bool
  pub depleted : Bool

pub record PolicyRequest : Type 0 where
  pub tool : ToolDefinition
  pub args : String → Option ArgValue
  pub agent_id : String
  pub run_id : String
  pub mode : Option String
  pub unattended : Bool
  pub environment : Option EnvironmentPolicyContext
  pub budget : Option BudgetSnapshot

pub record PolicyDecision : Type 0 where
  pub allowed : Bool
  pub require_confirmation : Bool
  pub rule : Option String

-- `evaluate` of a `PolicyRule`; `none` defers to the next rule.
abbrev pub PolicyRule : Type 0
PolicyRule = PolicyRequest → Option PolicyDecision

abbrev pub denied_by : String → PolicyDecision
denied_by id = record { allowed = false; require_confirmation = false; rule = some id }

abbrev pub confirmed_by : String → PolicyDecision
confirmed_by id = record { allowed = true; require_confirmation = true; rule = some id }

abbrev pub allowed_by : String → PolicyDecision
allowed_by id = record { allowed = true; require_confirmation = false; rule = some id }

unfoldable pub deny_tools_rule : List String → PolicyRule
deny_tools_rule denied r =
    if not (includes r.tool.id denied) then none else some (denied_by "deny-tools")

unfoldable pub deny_risk_above_rule : ToolRisk → PolicyRule
deny_risk_above_rule ceiling r =
    if not (tool_risk_at_least r.tool.risk ceiling)
    then none
    else some (denied_by "deny-risk-above")

unfoldable pub is_registry_tool : ToolDefinition → Bool
is_registry_tool tool =
    if includes tool.id ("run_tests" ∷ "run_lint" ∷ "run_format" ∷ "run_build" ∷ "run_script" ∷ [])
    then true
    else any (λ t. t == "package-manager" || t == "registry") tool.tags

-- `tool.network?.required ?? tool.sideEffects.network`
unfoldable pub needs_network : ToolDefinition → Bool
needs_network tool = elim tool.network [ none ↦ tool.side_effects.network | some n ↦ n.required ]

-- `tool.network?.required && !tool.network.proxyable`
unfoldable pub needs_open_egress : ToolDefinition → Bool
needs_open_egress tool = elim tool.network [ none ↦ false | some n ↦ n.required && not n.proxyable ]

abbrev pub commands_disabled : CommandPermission → Bool
commands_disabled CommandPermission.none = true
commands_disabled _ = false

abbrev pub network_denies : NetworkPermission → ToolDefinition → Bool
network_denies NetworkPermission.none tool = true
network_denies NetworkPermission.registry tool = not (is_registry_tool tool)
network_denies NetworkPermission.allowlisted tool = needs_open_egress tool
network_denies NetworkPermission.open_egress tool = false

abbrev pub writes_disabled : FilesystemPermission → Bool
writes_disabled FilesystemPermission.none = true
writes_disabled FilesystemPermission.read = true
writes_disabled _ = false

-- The body of `ExecutionProfileRule.evaluate` after its first test.
unfoldable pub profile_rule : ExecutionProfile → ToolDefinition → Option PolicyDecision
profile_rule profile tool =
    let deny : Option PolicyDecision = some (denied_by "execution-profile") in
    if includes tool.id profile.denied_tools
    then deny
    else if tool.side_effects.process && commands_disabled profile.permissions.commands
    then deny
    else if needs_network tool && network_denies profile.permissions.network tool
    then deny
    else if tool.side_effects.filesystem && writes_disabled profile.permissions.filesystem
    then deny
    else if tool.side_effects.external_mutation && not profile.allow_external_mutation
    then deny
    else if tool.side_effects.financial && not profile.allow_financial
    then deny
    else if tool_risk_at_least tool.risk profile.risk_ceiling
    then deny
    else none

unfoldable pub execution_profile_rule : PolicyRule
unfolding profile_rule
execution_profile_rule r = elim r.environment [
  | none ↦ none
  | some env ↦ profile_rule env.profile r.tool
]

-- `!request.mode || !READ_ONLY_MODES.has(request.mode)` is the failure of this test.
unfoldable pub is_read_only_mode : Option String → Bool
is_read_only_mode none = false
is_read_only_mode (some m) = includes m ("ask" ∷ "review" ∷ [])

unfoldable pub mode_restriction_rule : PolicyRule
mode_restriction_rule r =
    if not (is_read_only_mode r.mode)
    then none
    else if not (tool_is_mutating r.tool)
    then none
    else some (denied_by "mode-restriction")

unfoldable pub is_depleted : Option BudgetSnapshot → Bool
is_depleted none = false
is_depleted (some b) = b.elapsed_ms_is_negative || b.depleted

unfoldable pub budget_guard_rule : PolicyRule
budget_guard_rule r =
    if not (is_depleted r.budget)
    then none
    else if not (tool_is_mutating r.tool)
    then none
    else some (denied_by "budget-guard")

-- `floors.reduce((a, b) => (toolRiskAtLeast(b, a) ? b : a))` over the engine's floor and the
-- profile's, if there is one.
unfoldable pub combined_floor : ToolRisk → Option EnvironmentPolicyContext → ToolRisk
combined_floor floor none = floor
combined_floor floor (some env) =
    if tool_risk_at_least env.profile.confirmation_floor floor
    then env.profile.confirmation_floor
    else floor

abbrev pub is_never : Confirmation → Bool
is_never never = true
is_never _ = false

abbrev pub is_required : Confirmation → Bool
is_required required = true
is_required _ = false

unfoldable pub confirmation_rule : ToolRisk → Bool → PolicyRule
confirmation_rule require_confirmation_for financial_always r =
    if financial_always && r.tool.side_effects.financial
    then some (confirmed_by "confirmation")
    else if is_never r.tool.confirmation
    then none
    else if tool_risk_at_least r.tool.risk (combined_floor require_confirmation_for r.environment)
    then some (confirmed_by "confirmation")
    else if is_required r.tool.confirmation
    then some (confirmed_by "confirmation")
    else none
