-- ===== src/Core/Policy/Floors.antt =====
-- The two confirmation floors of `ConfirmationRule`, src/core/policy/policy-engine.ts.
use devagent_ts.Base.{true, false, none, some, ◌≡◌, arith, ◌<◌, ◌≤◌, max, ◌⊎◌}
use devagent_ts.Core.Policy.Tools.{ToolRisk, rank, tool_risk_at_least, optional}
use devagent_ts.Core.Policy.Rules.{
  PolicyRequest, EnvironmentPolicyContext, confirmation_rule, combined_floor,
}

rank-combined_floor :
    (floor : ToolRisk) (env : EnvironmentPolicyContext)
    → rank (combined_floor floor (some env))
      ≡ max (rank floor) (rank env.profile.confirmation_floor)
unfolding combined_floor tool_risk_at_least
rank-combined_floor floor env = ground arith

-- Of the engine's floor and the profile's the higher one counts, which is the one that asks less:
-- where a tool with no financial effects that leaves confirmation optional reaches only one of
-- the two floors, whichever it is, the rule does not ask.
pub laxer_floor_wins :
    (floor : ToolRisk) (r : PolicyRequest) (env : EnvironmentPolicyContext)
    → r.environment ≡ some env
    → r.tool.side_effects.financial ≡ false
    → r.tool.confirmation ≡ optional
    → ((rank floor ≤ rank r.tool.risk) × (rank r.tool.risk < rank env.profile.confirmation_floor))
      ⊎ ((rank env.profile.confirmation_floor ≤ rank r.tool.risk) × (rank r.tool.risk < rank floor))
    → confirmation_rule floor true r ≡ none
unfolding confirmation_rule tool_risk_at_least
laxer_floor_wins floor r env e plain opt h = ground (arith, rank-combined_floor floor env)
