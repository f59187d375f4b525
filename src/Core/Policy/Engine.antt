-- ===== src/Core/Policy/Engine.antt =====
-- `RulePolicyEngine` of src/core/policy/policy-engine.ts, and the postures of
-- src/core/policy/postures.ts that build one.
use devagent_ts.Base.{
  Bool, true, false, Option, none, some, String, List, [], ◌∷◌, ◌++◌, if◌then◌else◌, is_empty,
}
use devagent_ts.Core.Policy.Tools.{ToolRisk, medium, high, critical}
use devagent_ts.Core.Policy.Profiles.{ExecutionProfile}
use devagent_ts.Core.Policy.Rules.{
  PolicyRule, PolicyRequest, PolicyDecision, allowed_by, deny_risk_above_rule, deny_tools_rule,
  execution_profile_rule, mode_restriction_rule, budget_guard_rule, confirmation_rule,
}
use devagent_ts.Core.Policy.ArgRules.{destructive_shell_rule, git_publish_rule, delete_file_rule}

pub data PolicyPostureName : Type 0 where
  parity standard restricted : PolicyPostureName

pub record RulePolicyEngineOptions : Type 0 where
  pub rules : List PolicyRule
  pub require_confirmation_for : Option ToolRisk
  pub denied_tool_ids : List String
  pub deny_risk_above : Option ToolRisk
  pub profile : Option ExecutionProfile

pub record RulePolicyEngine : Type 0 where
  pub rules : List PolicyRule
  pub bound_profile : Option ExecutionProfile

abbrev pub risk_ceiling_rules : Option ToolRisk → List PolicyRule
risk_ceiling_rules none = []
risk_ceiling_rules (some ceiling) = deny_risk_above_rule ceiling ∷ []

abbrev pub denied_tool_rules : List String → List PolicyRule
denied_tool_rules ids = if is_empty ids then [] else deny_tools_rule ids ∷ []

abbrev pub profile_rules : Option ExecutionProfile → List PolicyRule
profile_rules none = []
profile_rules (some profile) = execution_profile_rule ∷ []

-- The default of `requireConfirmationFor` is that of `ConfirmationRule`.
abbrev pub floor_or_high : Option ToolRisk → ToolRisk
floor_or_high none = high
floor_or_high (some floor) = floor

-- The constructor: the caller's rules, then the built-in ones in this order.
unfoldable pub rule_policy_engine : RulePolicyEngineOptions → RulePolicyEngine
rule_policy_engine opts = record {
  rules =
      opts.rules
      ++ (risk_ceiling_rules opts.deny_risk_above
          ++ (denied_tool_rules opts.denied_tool_ids
              ++ (profile_rules opts.profile
                  ++ mode_restriction_rule
                    ∷ budget_guard_rule
                    ∷ confirmation_rule (floor_or_high opts.require_confirmation_for) true
                    ∷ [])));
  bound_profile = opts.profile;
}

-- The request with the engine's profile, where the caller gave no environment.
unfoldable pub effective : Option ExecutionProfile → PolicyRequest → PolicyRequest
effective none r = r
effective (some profile) r = elim r.environment [
  | none ↦ record r { environment = some (record { profile = profile; trading_mode = none }) }
  | some env ↦ r
]

-- The loop of `check`: the first decision, or the default.
unfoldable pub first_decision : List PolicyRule → PolicyRequest → PolicyDecision
first_decision [] r = allowed_by "default-allow"
first_decision (rule ∷ rules) r = elim (rule r) [
  | none ↦ first_decision rules r
  | some decision ↦ decision
]

unfoldable pub check : RulePolicyEngine → PolicyRequest → PolicyDecision
check engine r = first_decision engine.rules (effective engine.bound_profile r)

module _ (is_destructive : String → Bool) where
  unfoldable pub arg_rules : Bool → List PolicyRule
  arg_rules allow_benign_faces =
      destructive_shell_rule is_destructive allow_benign_faces
      ∷ git_publish_rule allow_benign_faces
      ∷ delete_file_rule
      ∷ []

  unfoldable pub parity_posture : RulePolicyEngine
  parity_posture = rule_policy_engine (record {
    rules = arg_rules true;
    require_confirmation_for = some critical;
    denied_tool_ids = [];
    deny_risk_above = none;
    profile = none;
  })

  unfoldable pub standard_posture : RulePolicyEngine
  standard_posture = rule_policy_engine (record {
    rules = arg_rules false;
    require_confirmation_for = some high;
    denied_tool_ids = [];
    deny_risk_above = none;
    profile = none;
  })

  -- The options of `restrictedPosture`, in order: the floor, the denied tools, the ceiling and
  -- the extra rules.
  unfoldable pub restricted_posture :
      Option ToolRisk → List String → Option ToolRisk → List PolicyRule → RulePolicyEngine
  restricted_posture floor denied ceiling extra = rule_policy_engine (record {
    rules = extra ++ arg_rules false;
    require_confirmation_for = elim floor [ none ↦ some medium | some f ↦ some f ];
    denied_tool_ids = denied;
    deny_risk_above = ceiling;
    profile = none;
  })

  -- `postureByName`, with the options of `restrictedPosture`, which the other two ignore.
  unfoldable pub posture_by_name :
      PolicyPostureName
      → Option ToolRisk
      → List String
      → Option ToolRisk
      → List PolicyRule
      → RulePolicyEngine
  posture_by_name parity floor denied ceiling extra = parity_posture
  posture_by_name standard floor denied ceiling extra = standard_posture
  posture_by_name restricted floor denied ceiling extra =
      restricted_posture floor denied ceiling extra

-- `profilePosture` at a profile.
unfoldable pub profile_posture : ExecutionProfile → RulePolicyEngine
profile_posture profile = rule_policy_engine (record {
  rules = [];
  require_confirmation_for = some profile.confirmation_floor;
  denied_tool_ids = profile.denied_tools;
  deny_risk_above = none;
  profile = some profile;
})

-- `AllowAllPolicyEngine.check`
unfoldable pub allow_all_check : PolicyDecision
allow_all_check = allowed_by "allow-all"
