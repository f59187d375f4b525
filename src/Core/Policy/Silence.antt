-- ===== src/Core/Policy/Silence.antt =====
-- Which requests an engine of src/core/policy lets through without asking.
use devagent_ts.Base.{
  Bool, true, false, not, ◌&&◌, Option, none, some, String, string_eq, List, [], ◌∷◌, ◌++◌, ◌≡◌,
  arith, All, ◌≤◌, inl, inr, ◌⊎◌, includes, ==-comm,
}
use devagent_ts.Core.Policy.Tools.{ToolRisk, rank, tool_risk_at_least, high}
use devagent_ts.Core.Policy.Profiles.{ExecutionProfile}
use devagent_ts.Core.Policy.Rules.{
  PolicyRule, PolicyRequest, PolicyDecision, deny_risk_above_rule, deny_tools_rule,
  execution_profile_rule, mode_restriction_rule, budget_guard_rule, confirmation_rule,
  combined_floor, is_never,
}
use devagent_ts.Core.Policy.ArgRules.{destructive_shell_rule, git_publish_rule, delete_file_rule}
use devagent_ts.Core.Policy.Engine.{
  RulePolicyEngineOptions, rule_policy_engine, risk_ceiling_rules, denied_tool_rules, profile_rules,
  floor_or_high, effective, first_decision, check, arg_rules, parity_posture, standard_posture,
  restricted_posture,
}

-- What a rule says, if it decides.
abbrev pub Says : (PolicyDecision → Type 0) → Option PolicyDecision → Type 0
Says P none = Unit
Says P (some d) = P d

module _ (P : PolicyDecision → Type 0) (r : PolicyRequest) where
  first_decision_cons :
      (rule : PolicyRule) (rules : List PolicyRule)
      → Says P (rule r)
      → P (first_decision rules r)
      → P (first_decision (rule ∷ rules) r)
  unfolding first_decision
  first_decision_cons rule rules says rest = decide (rule r) says
    where
      decide :
          (o : Option PolicyDecision)
          → Says P o
          → P (elim o [ none ↦ first_decision rules r | some decision ↦ decision ])
      decide none says = rest
      decide (some d) says = says

  -- A property of decisions that every rule respects that decides first, and that the later
  -- rules give.
  pub first_decision-append :
      (xs ys : List PolicyRule)
      → All (λ rule. Says P (rule r)) xs
      → P (first_decision ys r)
      → P (first_decision (xs ++ ys) r)
  first_decision-append [] ys says rest = rest
  first_decision-append (x ∷ xs) ys says rest =
      first_decision_cons x (xs ++ ys) says.0 (first_decision-append xs ys says.1 rest)

pub tool-effective :
    (p : Option ExecutionProfile) (r : PolicyRequest) → (effective p r).tool ≡ r.tool
unfolding effective
tool-effective p r = ground arith

-- The tool runs and nobody is asked.
abbrev pub is_silent : PolicyDecision → Bool
is_silent d = d.allowed && not d.require_confirmation

abbrev pub Loud : PolicyDecision → Type 0
Loud d = is_silent d ≡ false

ceiling-Loud :
    (c : Option ToolRisk) (r : PolicyRequest)
    → All (λ rule. Says Loud (rule r)) (risk_ceiling_rules c)
unfolding deny_risk_above_rule
ceiling-Loud none r = tt
ceiling-Loud (some c) r = (ground arith, tt)

denied-Loud :
    (ids : List String) (r : PolicyRequest)
    → All (λ rule. Says Loud (rule r)) (denied_tool_rules ids)
unfolding deny_tools_rule
denied-Loud [] r = tt
denied-Loud (i ∷ ids) r = (ground arith, tt)

profile-Loud :
    (p : Option ExecutionProfile) (r : PolicyRequest)
    → All (λ rule. Says Loud (rule r)) (profile_rules p)
unfolding execution_profile_rule
profile-Loud none r = tt
profile-Loud (some p) r = (ground arith, tt)

-- The request cannot be let through by the last rule: it moves money, or its risk reaches the
-- floor and the tool has not opted out.
abbrev pub Asks : ToolRisk → PolicyRequest → Type 0
Asks floor r =
    (r.tool.side_effects.financial ≡ true)
    ⊎ ((is_never r.tool.confirmation ≡ false)
        × (tool_risk_at_least r.tool.risk (combined_floor floor r.environment) ≡ true))

tail-Loud :
    (floor : ToolRisk) (r : PolicyRequest)
    → Asks floor r
    → Loud (
        first_decision
          (mode_restriction_rule ∷ budget_guard_rule ∷ confirmation_rule floor true ∷ [])
          r)
unfolding first_decision mode_restriction_rule budget_guard_rule confirmation_rule
tail-Loud floor r asks = ground arith

-- Whatever an engine's options, where none of the caller's own rules lets the request through
-- silently, a request for a tool with financial side effects, or for one that has not opted out
-- of confirmation and whose risk reaches the combined floor, is denied or needs a confirmation.
pub engine-Loud :
    (opts : RulePolicyEngineOptions) (r : PolicyRequest)
    → All (λ rule. Says Loud (rule (effective opts.profile r))) opts.rules
    → Asks (floor_or_high opts.require_confirmation_for) (effective opts.profile r)
    → is_silent (check (rule_policy_engine opts) r) ≡ false
unfolding check rule_policy_engine
engine-Loud opts r own asks =
    let e = effective opts.profile r in
    first_decision-append Loud e opts.rules _ own (
      first_decision-append Loud e (risk_ceiling_rules opts.deny_risk_above) _
        (ceiling-Loud opts.deny_risk_above e)
        (first_decision-append Loud e (denied_tool_rules opts.denied_tool_ids) _
          (denied-Loud opts.denied_tool_ids e)
          (first_decision-append Loud e (profile_rules opts.profile) _ (profile-Loud opts.profile e)
            (tail-Loud (floor_or_high opts.require_confirmation_for) e asks))))

module _ (is_destructive : String → Bool) where
  arg_rules-Loud :
      (r : PolicyRequest) → All (λ rule. Says Loud (rule r)) (arg_rules is_destructive false)
  unfolding arg_rules destructive_shell_rule git_publish_rule delete_file_rule
  arg_rules-Loud r = (ground arith, (ground arith, (ground arith, tt)))

  -- The argument rules of the parity posture let through only these three tools.
  parity_rules-Loud :
      (r : PolicyRequest)
      → includes r.tool.id ("run_shell" ∷ "git" ∷ "github" ∷ []) ≡ false
      → All (λ rule. Says Loud (rule r)) (arg_rules is_destructive true)
  unfolding arg_rules destructive_shell_rule git_publish_rule delete_file_rule
  parity_rules-Loud r other = (
    ground (arith, ==-comm "run_shell" r.tool.id),
    (ground (arith, ==-comm "git" r.tool.id, ==-comm "github" r.tool.id), (ground arith, tt)),
  )

  -- A tool with financial side effects never runs unasked: under the standard posture, under the
  -- restricted posture with no rules of the caller's, whatever its other options, and, if the
  -- tool is none of `run_shell`, `git` and `github`, under the parity posture.
  pub financial_is_asked :
      (r : PolicyRequest)
      → r.tool.side_effects.financial ≡ true
      → (is_silent (check (standard_posture is_destructive) r) ≡ false)
        × ((floor ceiling : Option ToolRisk) (denied : List String)
            → is_silent (check (restricted_posture is_destructive floor denied ceiling []) r)
              ≡ false)
        × (includes r.tool.id ("run_shell" ∷ "git" ∷ "github" ∷ []) ≡ false
            → is_silent (check (parity_posture is_destructive) r) ≡ false)
  unfolding standard_posture restricted_posture parity_posture effective
  financial_is_asked r financial = (
    engine-Loud _ r (arg_rules-Loud r) (inl financial),
    λ floor ceiling denied. engine-Loud _ r (arg_rules-Loud r) (inl financial),
    λ other. engine-Loud _ r (parity_rules-Loud r other) (inl financial),
  )

  -- Under the standard posture a tool of high or critical risk that has not opted out of
  -- confirmation never runs unasked, when the request carries no profile of its own.
  pub high_risk_is_asked :
      (r : PolicyRequest)
      → r.environment ≡ none
      → is_never r.tool.confirmation ≡ false
      → rank high ≤ rank r.tool.risk
      → is_silent (check (standard_posture is_destructive) r) ≡ false
  unfolding standard_posture effective
  high_risk_is_asked r no_env asked risk =
      engine-Loud _ r (arg_rules-Loud r)
        (inr (asked, rw no_env (unfold combined_floor tool_risk_at_least in ground arith)))
