-- ===== src/Core/Policy/Examples.antt =====
-- Requests to engines of src/core/policy, and the theorems at them.
use devagent_ts.Base.{
  Bool, true, false, Option, none, some, String, string_eq, List, [], ◌∷◌, ◌≡◌, refl, arith, ◌==◌,
  includes, if◌then◌else◌, ◌↔◌, inl,
}
use devagent_ts.Core.Policy.Tools.{
  ToolRisk, ToolDefinition, read, low, medium, high, critical, never, optional, no_side_effects,
  default_execution_spec, tool_is_mutating, tool_risk_at_least,
}
use devagent_ts.Core.Policy.Profiles.{execution_profile, readonly, development, production}
use devagent_ts.Core.Policy.Rules.{
  combined_floor, budget_guard_rule, mode_restriction_rule, execution_profile_rule, deny_tools_rule,
  PolicyRequest, text, confirmed_by, confirmation_rule, is_read_only_mode, is_depleted,
  needs_network,
}
use devagent_ts.Core.Policy.Engine.{
  first_decision, RulePolicyEngineOptions, rule_policy_engine, check, standard_posture,
  restricted_posture, parity_posture, profile_posture, effective,
}
use devagent_ts.Core.Policy.Silence.{is_silent, financial_is_asked, high_risk_is_asked}
use devagent_ts.Core.Policy.Denial.{engine-Denied, read_only, delete_file_preempts}
use devagent_ts.Core.Policy.Enforcement.{
  Permits, active_profile, profile_posture_allows_iff, readonly_posture_observes,
}
use devagent_ts.Core.Policy.Floors.{laxer_floor_wins}

abbrev tool : String → ToolRisk → ToolDefinition
tool id risk = record {
  id = id;
  description = "";
  capabilities = [];
  pack = "core";
  tags = [];
  risk = risk;
  side_effects = no_side_effects;
  execution = default_execution_spec;
  confirmation = optional;
  network = none;
}

abbrev request : ToolDefinition → PolicyRequest
request t = record {
  tool = t;
  args = λ name. if name == "path" then some (text "notes.md") else none;
  agent_id = "devagent";
  run_id = "run_1";
  mode = some "ask";
  unattended = false;
  environment = none;
  budget = none;
}

abbrev trade : ToolDefinition
trade = record (tool "paper_trade" high) {
  side_effects = record no_side_effects { financial = true };
  confirmation = never;
}

abbrev no_pattern : String → Bool
no_pattern s = false

financial_is_asked_example :
    (is_silent (check (standard_posture no_pattern) (request trade)) ≡ false)
    × ((floor ceiling : Option ToolRisk) (denied : List String)
        → is_silent (check (restricted_posture no_pattern floor denied ceiling []) (request trade))
          ≡ false)
    × (includes {A = String} "paper_trade" ("run_shell" ∷ "git" ∷ "github" ∷ []) ≡ false
        → is_silent (check (parity_posture no_pattern) (request trade)) ≡ false)
financial_is_asked_example = financial_is_asked no_pattern (request trade) refl

high_risk_is_asked_example :
    is_silent (check (standard_posture no_pattern) (request (tool "docker" critical))) ≡ false
high_risk_is_asked_example =
    high_risk_is_asked no_pattern (request (tool "docker" critical)) refl refl (omega arith)

abbrev plain_options : RulePolicyEngineOptions
plain_options = record {
  rules = [];
  require_confirmation_for = none;
  denied_tool_ids = [];
  deny_risk_above = none;
  profile = none;
}

abbrev writer : ToolDefinition
writer = record (tool "write_file" medium) {
  side_effects = record no_side_effects { filesystem = true };
}

engine-Denied_example : (check (rule_policy_engine plain_options) (request writer)).allowed ≡ false
engine-Denied_example =
    engine-Denied plain_options (request writer) tt
      (unfold is_read_only_mode tool_is_mutating in read_only refl refl)

-- The read-only mode `ask` does not keep the deletion from being offered.
delete_file_preempts_example :
    (check (standard_posture no_pattern) (request (tool "delete_file" high))
      ≡ confirmed_by "delete-file")
    × (check
          (restricted_posture no_pattern none ("delete_file" ∷ []) (some low) [])
          (request (tool "delete_file" high))
        ≡ confirmed_by "delete-file")
delete_file_preempts_example =
    delete_file_preempts no_pattern (request (tool "delete_file" high)) none (some low)
      ("delete_file" ∷ []) refl

profile_posture_allows_iff_example :
    ((check (profile_posture (execution_profile development)) (request writer)).allowed ≡ true) ↔ (
      (includes "write_file" (execution_profile development).denied_tools ≡ false)
      × Permits (active_profile (execution_profile development) (request writer)) writer
      × (tool_is_mutating writer ≡ true
          → (is_read_only_mode (some "ask") ≡ false) × (is_depleted none ≡ false)))
profile_posture_allows_iff_example =
    profile_posture_allows_iff (execution_profile development) (request writer)

lookup_is_allowed :
    (check (profile_posture (execution_profile readonly)) (request (tool "read_file" read))).allowed
    ≡ true
unfolding check profile_posture rule_policy_engine effective execution_profile first_decision
    deny_tools_rule execution_profile_rule mode_restriction_rule budget_guard_rule confirmation_rule
    is_read_only_mode tool_is_mutating is_depleted needs_network tool_risk_at_least combined_floor
lookup_is_allowed = refl

readonly_posture_observes_example :
    (tool_is_mutating (tool "read_file" read) ≡ false)
    × (needs_network (tool "read_file" read) ≡ false)
    × (◌≡◌ {A = ToolRisk} read read)
readonly_posture_observes_example =
    readonly_posture_observes (request (tool "read_file" read)) refl lookup_is_allowed

abbrev in_production : PolicyRequest
in_production = record (request (tool "docker" high)) {
  environment = some (record { profile = execution_profile production; trading_mode = none });
}

-- A tool of high risk is not asked about in the production profile, whose floor is `critical`.
laxer_floor_wins_example : confirmation_rule high true in_production ≡ none
unfolding execution_profile
laxer_floor_wins_example =
    laxer_floor_wins high in_production
      (record { profile = execution_profile production; trading_mode = none }) refl refl refl
      (inl (omega arith, omega arith))
