-- ===== src/Runtime/Budget/Growth.antt =====
-- What a consumption does to one manager, src/runtime/budget/budget-manager.ts.
use devagent_ts.Base.{
  suc, ◌+◌, ◌≤◌, Option, none, some, ◌≡◌, inl, inr, refl, sym, ◌∙◌, arith, nat_eq, Bool-cases,
  Option-cases,
}
use mathlib.Core.Path.{subst}
use devagent_ts.Runtime.Budget.Limits.{Floats, BudgetError, over, model_call_budget, token_budget}
use devagent_ts.Runtime.Budget.Managers.{
  Manager, ModelCall, own_tool_call, own_cost, own_tokens, tracked_model_call, with_cloud,
  count_descendant_tool_call, count_descendant_model_call,
}
use devagent_ts.Runtime.Budget.Charging.{Within, over-Within}

-- What every consumption does to a manager.
pub record Grows {F : Floats} (m n : Manager F) : Type 0 where
  pub same_budget : n.budget ≡ m.budget
  pub tools : m.tool_calls ≤ n.tool_calls
  pub models : m.model_calls ≤ n.model_calls
  pub tokens : m.total_tokens ≤ n.total_tokens

module _ {F : Floats} where
  pub Grows-refl : (m : Manager F) → Grows m m
  Grows-refl m = record {
    same_budget = refl;
    tools = omega arith;
    models = omega arith;
    tokens = omega arith;
  }

  pub Grows-trans : (m n k : Manager F) → Grows m n → Grows n k → Grows m k
  Grows-trans m n k g h = record {
    same_budget = h.same_budget ∙ g.same_budget;
    tools = omega (arith, g.tools, h.tools);
    models = omega (arith, g.models, h.models);
    tokens = omega (arith, g.tokens, h.tokens);
  }

  pub own_tool_call-Grows : (m : Manager F) → Grows m (own_tool_call m).0
  unfolding own_tool_call
  own_tool_call-Grows m = record {
    same_budget = refl;
    tools = omega arith;
    models = omega arith;
    tokens = omega arith;
  }

  own_cost-Grows : (c : Option F.Amount) (m : Manager F) → Grows m (own_cost c m).0
  unfolding own_cost
  own_cost-Grows none m = Grows-refl m
  own_cost-Grows (some c) m = record {
    same_budget = refl;
    tools = omega arith;
    models = omega arith;
    tokens = omega arith;
  }

  pub with_cloud-Grows : (c : ModelCall F) (m : Manager F) → Grows m (with_cloud c m)
  unfolding with_cloud
  with_cloud-Grows c m = elim (Bool-cases c.cloud) [
    | inl y ↦
        rw (y, with_cloud)
          (record {
            same_budget = refl;
            tools = omega arith;
            models = omega arith;
            tokens = omega arith;
          })
    | inr n ↦ rw (n, with_cloud) (Grows-refl m)
  ]

  abbrev with_tokens : ModelCall F → Manager F → Manager F
  with_tokens c m = record m {
    total_tokens = m.total_tokens + (c.prompt_tokens + c.completion_tokens);
  }

  abbrev with_model_call : Manager F → Manager F
  with_model_call m = record m { model_calls = suc m.model_calls }

  with_tokens-Grows : (c : ModelCall F) (m : Manager F) → Grows m (with_tokens c m)
  with_tokens-Grows c m = record {
    same_budget = refl;
    tools = omega arith;
    models = omega arith;
    tokens = omega arith;
  }

  with_model_call-Grows : (m : Manager F) → Grows m (with_model_call m)
  with_model_call-Grows m = record {
    same_budget = refl;
    tools = omega arith;
    models = omega arith;
    tokens = omega arith;
  }

  abbrev token_error : ModelCall F → Manager F → Option (BudgetError F)
  token_error c m = over token_budget (with_tokens c m).total_tokens m.budget.max_total_tokens

  abbrev model_error : Manager F → Option (BudgetError F)
  model_error m = over model_call_budget (suc m.model_calls) m.budget.max_model_calls

  own_tokens-Grows : (c : ModelCall F) (m : Manager F) → Grows m (own_tokens c m).0
  unfolding own_tokens
  own_tokens-Grows c m = elim (Option-cases (token_error c m)) [
    | inr (e, thrown) ↦ rw (thrown, own_tokens) (with_tokens-Grows c m)
    | inl fits ↦
        rw (fits, own_tokens)
          (Grows-trans m (with_tokens c m) _ (with_tokens-Grows c m)
            (own_cost-Grows c.cost_usd (with_tokens c m)))
  ]

  pub tracked-Grows : (c : ModelCall F) (m : Manager F) → Grows m (tracked_model_call c m).0
  unfolding tracked_model_call
  tracked-Grows c m = elim (Option-cases (model_error m)) [
    | inr (e, thrown) ↦ rw (thrown, tracked_model_call) (with_model_call-Grows m)
    | inl fits ↦
        rw (fits, tracked_model_call)
          (Grows-trans m (with_model_call m) _ (with_model_call-Grows m)
            (own_tokens-Grows c (with_model_call m)))
  ]

  own_cost_counts :
      (c : Option F.Amount) (m : Manager F)
      → ((own_cost c m).0.total_tokens ≡ m.total_tokens)
        × ((own_cost c m).0.model_calls ≡ m.model_calls)
  unfolding own_cost
  own_cost_counts none m = (refl, refl)
  own_cost_counts (some c) m = (refl, refl)

  own_tokens_counts :
      (c : ModelCall F) (m : Manager F)
      → (own_tokens c m).1 ≡ none
      → ((own_tokens c m).0.total_tokens ≡ m.total_tokens + (c.prompt_tokens + c.completion_tokens))
        × Within m.budget.max_total_tokens (own_tokens c m).0.total_tokens
        × ((own_tokens c m).0.model_calls ≡ m.model_calls)
  unfolding own_tokens
  own_tokens_counts c m h = elim (Option-cases (token_error c m)) [
    | inr (e, thrown) ↦ let raised : some e ≡ none = rw (thrown, own_tokens) at h in absurd cc
    | inl fits ↦
        let (tokens, models) = own_cost_counts c.cost_usd (with_tokens c m) in
        rw (fits, own_tokens)
          (
            tokens,
            subst (Within m.budget.max_total_tokens) (sym tokens)
                (over-Within token_budget _ _ fits),
            models,
          )
  ]

  pub tracked_counts :
      (c : ModelCall F) (m : Manager F)
      → (tracked_model_call c m).1 ≡ none
      → ((tracked_model_call c m).0.total_tokens
          ≡ m.total_tokens + (c.prompt_tokens + c.completion_tokens))
        × Within m.budget.max_total_tokens (tracked_model_call c m).0.total_tokens
        × ((tracked_model_call c m).0.model_calls ≡ suc m.model_calls)
        × Within m.budget.max_model_calls (tracked_model_call c m).0.model_calls
  unfolding tracked_model_call
  tracked_counts c m h = elim (Option-cases (model_error m)) [
    | inr (e, thrown) ↦
        let raised : some e ≡ none = rw (thrown, tracked_model_call) at h in absurd cc
    | inl fits ↦
        let (tokens, within, models) =
          own_tokens_counts c (with_model_call m) (rw (fits, tracked_model_call) at h) in
        rw (fits, tracked_model_call)
          (
            tokens,
            within,
            models,
            subst (Within m.budget.max_model_calls) (sym models)
                (over-Within model_call_budget _ _ fits),
          )
  ]

  pub counted_tool-Grows : (m : Manager F) → Grows m (count_descendant_tool_call m)
  unfolding count_descendant_tool_call
  counted_tool-Grows m = record {
    same_budget = refl;
    tools = omega arith;
    models = omega arith;
    tokens = omega arith;
  }

  pub counted_model-Grows :
      (c : ModelCall F) (m : Manager F) → Grows m (count_descendant_model_call c m)
  unfolding count_descendant_model_call
  counted_model-Grows c m = record {
    same_budget = refl;
    tools = omega arith;
    models = omega arith;
    tokens = omega arith;
  }

  pub with_cloud_counts :
      (c : ModelCall F) (m : Manager F)
      → ((with_cloud c m).total_tokens ≡ m.total_tokens)
        × ((with_cloud c m).model_calls ≡ m.model_calls)
        × ((with_cloud c m).budget ≡ m.budget)
  unfolding with_cloud
  with_cloud_counts c m = elim (Bool-cases c.cloud) [
    | inl y ↦ rw (y, with_cloud) (refl, refl, refl)
    | inr n ↦ rw (n, with_cloud) (refl, refl, refl)
  ]

  -- The manager's own part of a model call that throws nothing.
  pub model_call_counts :
      (c : ModelCall F) (m : Manager F)
      → (tracked_model_call c (with_cloud c m)).1 ≡ none
      → let m' = (tracked_model_call c (with_cloud c m)).0 in
        (m'.total_tokens ≡ m.total_tokens + (c.prompt_tokens + c.completion_tokens))
        × Within m.budget.max_total_tokens m'.total_tokens
        × (m'.model_calls ≡ m.model_calls + 1)
        × Within m.budget.max_model_calls m'.model_calls
  model_call_counts c m h =
      let (tokens, within, models, models_within) = tracked_counts c (with_cloud c m) h in
      let (same_tokens, same_models, same_budget) = with_cloud_counts c m in
      let m' = (tracked_model_call c (with_cloud c m)).0 in
      (
        omega (arith, tokens, same_tokens),
        subst (λ b. Within b.max_total_tokens m'.total_tokens) same_budget within,
        omega (arith, models, same_models),
        subst (λ b. Within b.max_model_calls m'.model_calls) same_budget models_within,
      )
