-- ===== src/Core/Policy/Denial.antt =====
-- When an engine of src/core/policy refuses a request outright, and where the argument rules of
-- a posture pre-empt that.
use devagent_ts.Base.{
  Bool, true, false, Option, none, some, String, string_eq, List, [], ◌∷◌, ◌++◌, ◌≡◌, refl, arith,
  All, ◌≤◌, inl, inr, ◌⊎◌, includes,
}
use devagent_ts.Core.Policy.Tools.{ToolRisk, rank, tool_risk_at_least, tool_is_mutating}
use devagent_ts.Core.Policy.Profiles.{ExecutionProfile}
use devagent_ts.Core.Policy.Rules.{
  PolicyRule, PolicyRequest, PolicyDecision, deny_risk_above_rule, deny_tools_rule,
  is_read_only_mode, is_depleted, execution_profile_rule, mode_restriction_rule, budget_guard_rule,
  confirmation_rule, profile_rule, confirmed_by, denied_by, EnvironmentPolicyContext,
}
use devagent_ts.Core.Policy.ArgRules.{destructive_shell_rule, git_publish_rule, delete_file_rule}
use devagent_ts.Core.Policy.Engine.{
  RulePolicyEngineOptions, rule_policy_engine, risk_ceiling_rules, denied_tool_rules, profile_rules,
  floor_or_high, effective, first_decision, check, arg_rules, standard_posture, restricted_posture,
}
use devagent_ts.Core.Policy.Silence.{Says}

abbrev pub Denied : PolicyDecision → Type 0
Denied d = d.allowed ≡ false

-- A rule of the list denies the request.
abbrev Denies : List PolicyRule → PolicyRequest → Type 0
Denies [] r = ⊥
Denies (rule ∷ rules) r = ((d : PolicyDecision) × (rule r ≡ some d)) ⊎ Denies rules r

-- In a list whose every rule denies or defers, one that decides is enough.
first_decision-Denied :
    (xs : List PolicyRule) (r : PolicyRequest) (ys : List PolicyRule)
    → All (λ rule. Says Denied (rule r)) xs
    → Denies xs r ⊎ Denied (first_decision ys r)
    → Denied (first_decision (xs ++ ys) r)
unfolding first_decision
first_decision-Denied [] r ys says (inl h) = absurd h
first_decision-Denied [] r ys says (inr h) = h
first_decision-Denied (x ∷ xs) r ys says (inl (inl (d, e))) = ground arith
first_decision-Denied (x ∷ xs) r ys says (inl (inr h)) =
    ground (arith, first_decision-Denied xs r ys says.1 (inl h))
first_decision-Denied (x ∷ xs) r ys says (inr h) =
    ground (arith, first_decision-Denied xs r ys says.1 (inr h))

ceiling-Denied :
    (c : Option ToolRisk) (r : PolicyRequest)
    → All (λ rule. Says Denied (rule r)) (risk_ceiling_rules c)
unfolding deny_risk_above_rule
ceiling-Denied none r = tt
ceiling-Denied (some c) r = (ground arith, tt)

denied_tool_rules-Denied :
    (ids : List String) (r : PolicyRequest)
    → All (λ rule. Says Denied (rule r)) (denied_tool_rules ids)
unfolding deny_tools_rule
denied_tool_rules-Denied [] r = tt
denied_tool_rules-Denied (i ∷ ids) r = (ground arith, tt)

profile-Denied :
    (p : Option ExecutionProfile) (r : PolicyRequest)
    → All (λ rule. Says Denied (rule r)) (profile_rules p)
unfolding execution_profile_rule profile_rule
profile-Denied none r = tt
profile-Denied (some p) r = (ground arith, tt)

-- The reasons for which the built-in rules refuse a request.
pub data Forbidden (opts : RulePolicyEngineOptions) (r : PolicyRequest) : Type 0 where
  above_ceiling :
      (ceiling : ToolRisk)
      → opts.deny_risk_above ≡ some ceiling
      → rank ceiling ≤ rank r.tool.risk
      → Forbidden opts r
  listed : includes r.tool.id opts.denied_tool_ids ≡ true → Forbidden opts r
  read_only : is_read_only_mode r.mode ≡ true → tool_is_mutating r.tool ≡ true → Forbidden opts r
  over_budget : is_depleted r.budget ≡ true → tool_is_mutating r.tool ≡ true → Forbidden opts r

tail-Denied :
    (floor : ToolRisk) (r : PolicyRequest)
    → tool_is_mutating r.tool ≡ true
    → (is_read_only_mode r.mode ≡ true) ⊎ (is_depleted r.budget ≡ true)
    → Denied (
        first_decision
          (mode_restriction_rule ∷ budget_guard_rule ∷ confirmation_rule floor true ∷ [])
          r)
unfolding first_decision mode_restriction_rule budget_guard_rule
tail-Denied floor r mutating h = ground arith

ceiling-Denies :
    (c : Option ToolRisk) (ceiling : ToolRisk) (r : PolicyRequest)
    → c ≡ some ceiling
    → rank ceiling ≤ rank r.tool.risk
    → Denies (risk_ceiling_rules c) r
unfolding deny_risk_above_rule tool_risk_at_least
ceiling-Denies none ceiling r e h = cc
ceiling-Denies (some c) ceiling r e h = inl (denied_by "deny-risk-above", ground arith)

denied-Denies :
    (ids : List String) (r : PolicyRequest)
    → includes r.tool.id ids ≡ true
    → Denies (denied_tool_rules ids) r
unfolding deny_tools_rule
denied-Denies [] r h = cc
denied-Denies (i ∷ ids) r h = inl (denied_by "deny-tools", ground arith)

-- `effective` changes the environment only, which these reasons do not read.
effective-Forbidden :
    (opts : RulePolicyEngineOptions) (p : Option ExecutionProfile) (r : PolicyRequest)
    → Forbidden opts r
    → Forbidden opts (effective p r)
unfolding effective
effective-Forbidden opts none r f = f
effective-Forbidden opts (some p) r f = kept r.environment f
  where
    kept :
        (o : Option EnvironmentPolicyContext)
        → Forbidden opts r
        → Forbidden opts (elim o [
          | none ↦ record r { environment = some (record { profile = p; trading_mode = none }) }
          | some env ↦ r
        ])
    kept none (above_ceiling c e h) = above_ceiling c e h
    kept none (listed h) = listed h
    kept none (read_only h k) = read_only h k
    kept none (over_budget h k) = over_budget h k
    kept (some env) f = f

-- A reason to refuse in one group of rules, or after the last group.
builtin_layers :
    (opts : RulePolicyEngineOptions) (e : PolicyRequest)
    → All (λ rule. Says Denied (rule e)) opts.rules
    → Denies (risk_ceiling_rules opts.deny_risk_above) e
      ⊎ (Denies (denied_tool_rules opts.denied_tool_ids) e
          ⊎ Denied (
              first_decision
                (mode_restriction_rule
                  ∷ budget_guard_rule
                  ∷ confirmation_rule (floor_or_high opts.require_confirmation_for) true
                  ∷ [])
                e))
    → Denied (first_decision (rule_policy_engine opts).rules e)
unfolding rule_policy_engine
builtin_layers opts e own why = first_decision-Denied opts.rules e _ own (
    inr (
      first_decision-Denied (risk_ceiling_rules opts.deny_risk_above) e _
        (ceiling-Denied opts.deny_risk_above e) (past_ceiling why)))
  where
    past_denied :
        Denies (denied_tool_rules opts.denied_tool_ids) e
          ⊎ Denied (
              first_decision
                (mode_restriction_rule
                  ∷ budget_guard_rule
                  ∷ confirmation_rule (floor_or_high opts.require_confirmation_for) true
                  ∷ [])
                e)
        → Denies (denied_tool_rules opts.denied_tool_ids) e
          ⊎ Denied (
              first_decision
                (profile_rules opts.profile
                  ++ mode_restriction_rule
                    ∷ budget_guard_rule
                    ∷ confirmation_rule (floor_or_high opts.require_confirmation_for) true
                    ∷ [])
                e)
    past_denied (inl d) = inl d
    past_denied (inr t) = inr (
        first_decision-Denied (profile_rules opts.profile) e _ (profile-Denied opts.profile e)
          (inr t))

    past_ceiling :
        Denies (risk_ceiling_rules opts.deny_risk_above) e
          ⊎ (Denies (denied_tool_rules opts.denied_tool_ids) e
              ⊎ Denied (
                  first_decision
                    (mode_restriction_rule
                      ∷ budget_guard_rule
                      ∷ confirmation_rule (floor_or_high opts.require_confirmation_for) true
                      ∷ [])
                    e))
        → Denies (risk_ceiling_rules opts.deny_risk_above) e
          ⊎ Denied (
              first_decision
                (denied_tool_rules opts.denied_tool_ids
                  ++ (profile_rules opts.profile
                      ++ mode_restriction_rule
                        ∷ budget_guard_rule
                        ∷ confirmation_rule (floor_or_high opts.require_confirmation_for) true
                        ∷ []))
                e)
    past_ceiling (inl c) = inl c
    past_ceiling (inr t) = inr (
        first_decision-Denied (denied_tool_rules opts.denied_tool_ids) e _
          (denied_tool_rules-Denied opts.denied_tool_ids e) (past_denied t))

builtin-Denied :
    (opts : RulePolicyEngineOptions) (e : PolicyRequest)
    → All (λ rule. Says Denied (rule e)) opts.rules
    → Forbidden opts e
    → Denied (first_decision (rule_policy_engine opts).rules e)
builtin-Denied opts e own (above_ceiling c at h) =
    builtin_layers opts e own (inl (ceiling-Denies opts.deny_risk_above c e at h))
builtin-Denied opts e own (listed h) =
    builtin_layers opts e own (inr (inl (denied-Denies opts.denied_tool_ids e h)))
builtin-Denied opts e own (read_only h k) =
    builtin_layers opts e own (inr (inr (tail-Denied _ e k (inl h))))
builtin-Denied opts e own (over_budget h k) =
    builtin_layers opts e own (inr (inr (tail-Denied _ e k (inr h))))

-- Where the caller's own rules only deny or defer, an engine refuses every request whose tool's
-- risk reaches the ceiling of the options, whose tool is on the deny list of the options, or
-- whose tool mutates state while the mode is `ask` or `review` or the budget is depleted.
pub engine-Denied :
    (opts : RulePolicyEngineOptions) (r : PolicyRequest)
    → All (λ rule. Says Denied (rule (effective opts.profile r))) opts.rules
    → Forbidden opts r
    → (check (rule_policy_engine opts) r).allowed ≡ false
unfolding check rule_policy_engine
engine-Denied opts r own f =
    builtin-Denied opts (effective opts.profile r) own (effective-Forbidden opts opts.profile r f)

-- The argument rules of a posture stand before the built-in ones: a request for `delete_file` is
-- put to the user, and not refused, under the standard posture and under the restricted posture
-- without extra rules, whatever the mode, the budget, the deny list and the risk ceiling are.
pub delete_file_preempts :
    (is_destructive : String → Bool) (r : PolicyRequest) (floor ceiling : Option ToolRisk)
    (denied : List String)
    → r.tool.id ≡ "delete_file"
    → (check (standard_posture is_destructive) r ≡ confirmed_by "delete-file")
      × (check (restricted_posture is_destructive floor denied ceiling []) r
          ≡ confirmed_by "delete-file")
unfolding standard_posture restricted_posture rule_policy_engine check first_decision arg_rules
    effective destructive_shell_rule git_publish_rule delete_file_rule
delete_file_preempts is_destructive r floor ceiling denied h = (rw h refl, rw h refl)
