-- ===== src/Tools/Gateway/Approvals.antt =====
-- A gateway of src/tools/gateway/tool-gateway.ts whose policy engine is one of
-- src/core/policy/postures.ts.
use devagent_ts.Core.Policy.Engine.{
  check, parity, standard, restricted, PolicyPostureName, posture_by_name,
}
use devagent_ts.Base.{
  arith, ◌∷◌, [], ◌≢◌, ℕ, ◌≡◌, refl, Bool, true, false, Option, some, String, string_eq, inl, inr,
  ◌⊎◌, Bool-cases, includes, List,
}
use devagent_ts.Tools.Gateway.Invocation.{
  policy_request, launched, begin, Launch, InvokeContext, Gateway, Setting,
}
use devagent_ts.Tools.Idempotency.{IdempotencyManager}
use devagent_ts.Core.Policy.Rules.{PolicyDecision, PolicyRequest}
use devagent_ts.Core.Policy.Tools.{ToolRisk}
use devagent_ts.Core.Policy.Silence.{financial_is_asked, is_silent}
use devagent_ts.Tools.Gateway.Launching.{launched_iff}

loud_asks :
    (d : PolicyDecision) → is_silent d ≡ false → d.allowed ≡ true → d.require_confirmation ≡ true
loud_asks d h k = ground arith

module _ (is_destructive : String → Bool) where
  posture_asks :
      (posture : PolicyPostureName) (floor ceiling : Option ToolRisk) (denied : List String)
      (r : PolicyRequest)
      → (posture ≢ parity) ⊎ (includes r.tool.id ("run_shell" ∷ "git" ∷ "github" ∷ []) ≡ false)
      → r.tool.side_effects.financial ≡ true
      → is_silent (check (posture_by_name is_destructive posture floor denied ceiling []) r) ≡ false
  unfolding posture_by_name
  posture_asks parity floor ceiling denied r (inl n) f = absurd (n refl)
  posture_asks parity floor ceiling denied r (inr other) f =
      (financial_is_asked is_destructive r f).2 other
  posture_asks standard floor ceiling denied r o f = (financial_is_asked is_destructive r f).0
  posture_asks restricted floor ceiling denied r o f =
      (financial_is_asked is_destructive r f).1 floor ceiling denied

module _ {S : Setting} (is_destructive : String → Bool) where
  -- In an attended run, a gateway whose engine is one of the postures, with no rules of the
  -- caller's own, starts the handler of a tool with financial side effects only if this very call
  -- has been confirmed or its context skips the policy. For the parity posture the tools that its
  -- shell and git rules may let through are excepted.
  pub financial_is_confirmed :
      (now : ℕ) (gateway : Gateway S) (ctx : InvokeContext S) (name : String) (raw : S.Raw)
      (m m' : IdempotencyManager S.Data) (l : Launch S) (posture : PolicyPostureName)
      (floor ceiling : Option ToolRisk) (denied : List String)
      → gateway.policy_engine
        ≡ some (check (posture_by_name is_destructive posture floor denied ceiling []))
      → (posture ≢ parity) ⊎ (includes l.tool.id ("run_shell" ∷ "git" ∷ "github" ∷ []) ≡ false)
      → ctx.unattended ≡ false
      → begin now gateway ctx name raw m ≡ (m', launched l)
      → l.tool.side_effects.financial ≡ true
      → (ctx.skip_policy ≡ true) ⊎ (ctx.confirmed ≡ true)
  financial_is_confirmed now gateway ctx name raw m m' l posture floor ceiling denied e o u h f =
      elim (Bool-cases ctx.skip_policy) [
        | inl y ↦ inl y
        | inr n ↦
            let (found, canon, permitted, starts) =
              (launched_iff now gateway ctx name raw m m' l).0 h in
            let engine = check (posture_by_name is_destructive posture floor denied ceiling []) in
            let loud =
              posture_asks is_destructive posture floor ceiling denied
                (policy_request ctx l.tool l.args) o f in
            let allows : (engine (policy_request ctx l.tool l.args)).allowed ≡ true =
              permitted.allowed engine e n in
            let asks : (engine (policy_request ctx l.tool l.args)).require_confirmation ≡ true =
              loud_asks (engine (policy_request ctx l.tool l.args)) loud allows in
            elim (permitted.asked engine e n asks) [ inl y ↦ cc (u, y) | inr y ↦ inr y ]
      ]
