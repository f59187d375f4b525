-- ===== src/Tools/Gateway/Permissions.antt =====
-- Which calls the gateway of src/tools/gateway/tool-gateway.ts lets run.
use devagent_ts.Base.{
  ◌∙◌, sym, ap, ℕ, ◌<◌, ◌≡◌, refl, Bool, true, false, ◌||◌, Option, none, some, string_eq, any,
  includes, is_empty, if◌then◌else◌, arith, ◌⊎◌, ◌↔◌, leb,
}
use devagent_ts.Core.Policy.Tools.{ToolDefinition}
use devagent_ts.Core.Policy.Rules.{PolicyRequest, PolicyDecision}
use devagent_ts.Runtime.Budget.Limits.{Floats}
use devagent_ts.Runtime.Budget.Managers.{Manager, assert_time_left, elapsed_ms}
use devagent_ts.Tools.Gateway.Invocation.{
  refusal, policy_refusal, is_cut_off, decision_refusal, policy_request, Gateway, lacks_capability,
  InvokeContext, Setting,
}

deadline_ahead {ℓ} :
    {E : Type ℓ} (o : Option ℕ) (elapsed : ℕ) (error : ℕ → E)
    → (elim o [ none ↦ none | some d ↦ if leb d elapsed then some (error d) else none ] ≡ none)
      ↔ ((deadline : ℕ) → o ≡ some deadline → elapsed < deadline)
deadline_ahead none elapsed error = (λ h d k. cc, λ h. refl)
deadline_ahead (some c) elapsed error = (λ h d k. ground arith, λ h. ground (arith, h c refl))

engine_cleared {ℓ κ} :
    {E : Type ℓ} {R : Type κ} (o : Option E) (is_skipped : Bool) (refuse : E → Option R)
    → (elim o [ none ↦ none | some e ↦ if is_skipped then none else refuse e ] ≡ none)
      ↔ ((e : E) → o ≡ some e → is_skipped ≡ false → refuse e ≡ none)
engine_cleared none is_skipped refuse = (λ h e k. cc, λ h. refl)
engine_cleared (some e) true refuse = (λ h e' k s. cc, λ h. refl)
engine_cleared (some e) false refuse =
    (λ h e' k s. let same : e ≡ e' = cc k in ap refuse (sym same) ∙ h, λ h. h e refl refl)

module _ {F : Floats} (now : ℕ) where
  time_left :
      (b : Manager F)
      → (assert_time_left now b ≡ none)
        ↔ ((deadline : ℕ) → b.budget.deadline_ms ≡ some deadline → elapsed_ms now b < deadline)
  unfolding assert_time_left
  time_left b = deadline_ahead b.budget.deadline_ms (elapsed_ms now b) _

  goes_on :
      (is_aborted : Bool) (o : Option (Manager F))
      → ((is_aborted || elim o [
        | none ↦ false
        | some m ↦ elim (assert_time_left now m) [ none ↦ false | some e ↦ true ]
      ])
          ≡ false)
        ↔ ((is_aborted ≡ false)
            × ((b : Manager F) (deadline : ℕ)
                → o ≡ some b
                → b.budget.deadline_ms ≡ some deadline
                → elapsed_ms now b < deadline))
  goes_on is_aborted none = (λ h. (ground arith, λ b d k. cc), λ h. ground arith)
  goes_on is_aborted (some m) = (
    λ h. (
      ground arith,
      λ b d k e.
          let left : assert_time_left now m ≡ none = ground arith in
          let same : m ≡ b = cc k in (time_left b).0 (rw (← same) left) d e,
    ),
    λ h. ground (arith, (time_left m).1 (λ d. h.1 m d refl), h.0),
  )

module _ {S : Setting} where
  -- The run may use the tool, the policy lets the call through, and the run goes on.
  pub record Permitted (now : ℕ) (gateway : Gateway S) (ctx : InvokeContext S)
      (tool : ToolDefinition) (args : S.Args) : Type 0 where
    pub capable :
        ctx.skip_capability_check ≡ false
        → is_empty ctx.capabilities ≡ false
        → is_empty tool.capabilities ≡ false
        → any (λ c. includes c ctx.capabilities) tool.capabilities ≡ true
    pub allowed :
        (engine : PolicyRequest → PolicyDecision)
        → gateway.policy_engine ≡ some engine
        → ctx.skip_policy ≡ false
        → (engine (policy_request ctx tool args)).allowed ≡ true
    pub asked :
        (engine : PolicyRequest → PolicyDecision)
        → gateway.policy_engine ≡ some engine
        → ctx.skip_policy ≡ false
        → (engine (policy_request ctx tool args)).require_confirmation ≡ true
        → (ctx.unattended ≡ true) ⊎ (ctx.confirmed ≡ true)
    pub not_aborted : ctx.is_aborted ≡ false
    pub in_time :
        (b : Manager S.floats) (deadline : ℕ)
        → ctx.budget ≡ some b
        → b.budget.deadline_ms ≡ some deadline
        → elapsed_ms now b < deadline

  capability_granted :
      (ctx : InvokeContext S) (tool : ToolDefinition)
      → (lacks_capability ctx tool ≡ false) ↔ (
          ctx.skip_capability_check ≡ false
          → is_empty ctx.capabilities ≡ false
          → is_empty tool.capabilities ≡ false
          → any (λ c. includes c ctx.capabilities) tool.capabilities ≡ true)
  unfolding lacks_capability
  capability_granted ctx tool = (λ h. ground arith, λ h. ground arith)

  unanswered :
      (ctx : InvokeContext S) (args : S.Args) (d : PolicyDecision)
      → (decision_refusal ctx args d ≡ none) ↔ (
          (d.allowed ≡ true)
          × (d.require_confirmation ≡ true → (ctx.unattended ≡ true) ⊎ (ctx.confirmed ≡ true)))
  unanswered ctx args d = (λ h. ground arith, λ h. ground arith)

  -- What stage 4 asks of the engine, if there is one and it is not skipped.
  abbrev Cleared : Gateway S → InvokeContext S → ToolDefinition → S.Args → Type 0
  Cleared gateway ctx tool args =
      (engine : PolicyRequest → PolicyDecision)
      → gateway.policy_engine ≡ some engine
      → ctx.skip_policy ≡ false
      → decision_refusal ctx args (engine (policy_request ctx tool args)) ≡ none

  policy_passes :
      (gateway : Gateway S) (ctx : InvokeContext S) (tool : ToolDefinition) (args : S.Args)
      → (policy_refusal gateway ctx tool args ≡ none) ↔ Cleared gateway ctx tool args
  unfolding policy_refusal
  policy_passes gateway ctx tool args =
      engine_cleared gateway.policy_engine ctx.skip_policy
        (λ engine. decision_refusal ctx args (engine (policy_request ctx tool args)))

  refusal_parts :
      (now : ℕ) (gateway : Gateway S) (ctx : InvokeContext S) (tool : ToolDefinition)
      (args : S.Args)
      → (refusal now gateway ctx tool args ≡ none) ↔ (
          (lacks_capability ctx tool ≡ false)
          × (policy_refusal gateway ctx tool args ≡ none)
          × (is_cut_off now ctx ≡ false))
  unfolding refusal
  refusal_parts now gateway ctx tool args = (λ h. ground arith, λ h. ground arith)

  pub Permitted-refusal :
      (now : ℕ) (gateway : Gateway S) (ctx : InvokeContext S) (tool : ToolDefinition)
      (args : S.Args)
      → (refusal now gateway ctx tool args ≡ none) ↔ Permitted now gateway ctx tool args
  unfolding is_cut_off
  Permitted-refusal now gateway ctx tool args =
      let parts = refusal_parts now gateway ctx tool args in
      let cleared = policy_passes gateway ctx tool args in
      let goes = goes_on now ctx.is_aborted ctx.budget in
      (
        λ h.
            let (cap, pol, time) = parts.0 h in
            record {
              capable = (capability_granted ctx tool).0 cap;
              allowed = λ e p s.
                  ((unanswered ctx args (e (policy_request ctx tool args))).0
                    (cleared.0 pol e p s)).0;
              asked = λ e p s.
                  ((unanswered ctx args (e (policy_request ctx tool args))).0
                    (cleared.0 pol e p s)).1;
              not_aborted = (goes.0 time).0;
              in_time = (goes.0 time).1;
            },
        λ h. parts.1 (
          (capability_granted ctx tool).1 h.capable,
          cleared.1 (λ e p s.
              (unanswered ctx args (e (policy_request ctx tool args))).1
                (h.allowed e p s, h.asked e p s)),
          goes.1 (h.not_aborted, h.in_time),
        ),
      )
