-- ===== src/Runtime/Budget/Ceilings.antt =====
-- The ceilings of a run bind the runs that it delegates, src/runtime/budget/budget-manager.ts.
use devagent_ts.Base.{
  ℕ, suc, ◌+◌, ◌≤◌, false, Option, none, some, List, [], ◌∷◌, ◌≡◌, inl, inr, refl, ◌∙◌, arith,
  nat_eq, Option-cases,
}
use mathlib.Core.Path.{subst}
use devagent_ts.Runtime.Budget.Limits.{Floats, RunBudget, BudgetError, tool_call_budget}
use devagent_ts.Runtime.Budget.Managers.{
  Manager, ModelCall, manager, own_tool_call, with_cloud, propagated, count_descendant_tool_call,
  count_descendant_model_call,
}
use devagent_ts.Runtime.Budget.Tree.{
  Tree, tool_calls, model_calls, charge, consume_tool_call, consume_model_call, derive_child,
}
use devagent_ts.Runtime.Budget.Charging.{Within, over-Within, Within-le, charge-R, charge_counts}
use devagent_ts.Runtime.Budget.Growth.{
  Grows, Grows-refl, Grows-trans, own_tool_call-Grows, with_cloud-Grows, tracked-Grows,
  counted_tool-Grows, counted_model-Grows, model_call_counts,
}

Within-zero : (limit : Option ℕ) → Within limit 0
Within-zero none = tt
Within-zero (some limit) = omega arith

-- What the runs of a tree do, as far as the ceilings see it: delegate, with the new run, its
-- parent, the declared budget and the share; call a tool; call a model.
pub data Event (F : Floats) : Type 0 where
  delegates : ℕ → ℕ → ℕ → ℕ → Option (RunBudget F) → Option F.Amount → Event F
  calls_tool : ℕ → Event F
  calls_model : ModelCall F → ℕ → Event F

-- The calls of the whole tree that were let through, and their tokens.
pub record Granted : Type 0 where
  pub tools : ℕ
  pub models : ℕ
  pub tokens : ℕ

abbrev pub tokens_of : {F : Floats} → ModelCall F → ℕ
tokens_of c = c.prompt_tokens + c.completion_tokens

module _ {F : Floats} where
  abbrev pub tool_granted : Option (BudgetError F) → Granted → Granted
  tool_granted none g = record g { tools = suc g.tools }
  tool_granted (some e) g = g

  abbrev pub model_granted : ModelCall F → Option (BudgetError F) → Granted → Granted
  model_granted c none g = record g { models = suc g.models; tokens = g.tokens + tokens_of c }
  model_granted c (some e) g = g

  unfoldable pub happens : Event F → Tree F × Granted → Tree F × Granted
  happens (delegates now system_now child parent declared share) (t, g) =
      (derive_child now system_now child parent declared share t, g)
  happens (calls_tool id) (t, g) = let (t', e) = consume_tool_call id t in (t', tool_granted e g)
  happens (calls_model c id) (t, g) =
      let (t', e) = consume_model_call c id t in (t', model_granted c e g)

  unfoldable pub run : List (Event F) → Tree F × Granted → Tree F × Granted
  run [] s = s
  run (e ∷ es) s = run es (happens e s)

  -- The calls that were let through are within the ceilings of the budget `b` of the top manager,
  -- and it has counted them.
  record Bound (b : RunBudget F) (s : Tree F × Granted) : Type 0 where
    same_budget : s.0.1.budget ≡ b
    tools : s.1.tools ≤ s.0.1.tool_calls
    models : s.1.models ≤ s.0.1.model_calls
    tokens : s.1.tokens ≤ s.0.1.total_tokens
    tools_within : Within b.max_tool_calls s.1.tools
    models_within : Within b.max_model_calls s.1.models
    tokens_within : Within b.max_total_tokens s.1.tokens

  grown-Bound :
      (b : RunBudget F) (ms ms' : List (Manager F × ℕ)) (top top' : Manager F) (g : Granted)
      → Grows top top'
      → Bound b ((ms, top), g)
      → Bound b ((ms', top'), g)
  grown-Bound b ms ms' top top' g grows h = record {
    same_budget = grows.same_budget ∙ h.same_budget;
    tools = omega (arith, grows.tools, h.tools);
    models = omega (arith, grows.models, h.models);
    tokens = omega (arith, grows.tokens, h.tokens);
    tools_within = h.tools_within;
    models_within = h.models_within;
    tokens_within = h.tokens_within;
  }

  module _ (ms : List (Manager F × ℕ)) (top : Manager F) (id : ℕ) where
    tool_call-Grows : Grows top (charge tool_calls false tt id ms top).0.1
    tool_call-Grows =
        charge-R tool_calls Grows Grows-refl Grows-trans (λ d m. counted_tool-Grows m)
          (λ d m. own_tool_call-Grows m) false tt id ms top

    tool_call_counts :
        (charge tool_calls false tt id ms top).1 ≡ none
        → let top' = (charge tool_calls false tt id ms top).0.1 in
          (top'.tool_calls ≡ top.tool_calls + 1) × Within top.budget.max_tool_calls top'.tool_calls
    unfolding own_tool_call count_descendant_tool_call
    tool_call_counts h =
        charge_counts tool_calls (λ m. m.tool_calls) (λ d. 1) (λ b. b.max_tool_calls)
          (λ d m. (refl, refl)) (λ d. refl)
          (λ d m fits. (omega arith, over-Within tool_call_budget _ _ fits)) false tt id ms top h

    model_call-Grows : (c : ModelCall F) → Grows top (charge model_calls false c id ms top).0.1
    model_call-Grows c =
        charge-R model_calls Grows Grows-refl Grows-trans (λ d m. counted_model-Grows d m)
          (λ d m.
            Grows-trans m (with_cloud d m) _ (with_cloud-Grows d m)
              (tracked-Grows d (with_cloud d m)))
          false c id ms top

    model_call_models :
        (c : ModelCall F)
        → (charge model_calls false c id ms top).1 ≡ none
        → let top' = (charge model_calls false c id ms top).0.1 in
          (top'.model_calls ≡ top.model_calls + 1)
          × Within top.budget.max_model_calls top'.model_calls
    unfolding count_descendant_model_call
    model_call_models c h =
        charge_counts model_calls (λ m. m.model_calls) (λ d. 1) (λ b. b.max_model_calls)
          (λ d m. (refl, refl)) (λ d. refl)
          (λ d m fits. let (_, _, n, w) = model_call_counts d m fits in (n, w)) false c id ms top h

    model_call_tokens :
        (c : ModelCall F)
        → (charge model_calls false c id ms top).1 ≡ none
        → let top' = (charge model_calls false c id ms top).0.1 in
          (top'.total_tokens ≡ top.total_tokens + tokens_of c)
          × Within top.budget.max_total_tokens top'.total_tokens
    unfolding count_descendant_model_call propagated
    model_call_tokens c h =
        charge_counts model_calls (λ m. m.total_tokens) (λ d. tokens_of d) (λ b. b.max_total_tokens)
          (λ d m. (refl, refl)) (λ d. refl)
          (λ d m fits. let (n, w, _, _) = model_call_counts d m fits in (n, w)) false c id ms top h

  happens-Bound :
      (b : RunBudget F) (e : Event F) (ms : List (Manager F × ℕ)) (top : Manager F) (g : Granted)
      → Bound b ((ms, top), g)
      → Bound b (happens e ((ms, top), g))
  unfolding happens consume_tool_call consume_model_call derive_child
  happens-Bound b (delegates now system_now child parent declared share) ms top g h =
      grown-Bound b ms _ top top g (Grows-refl top) h
  happens-Bound b (calls_tool id) ms top g h =
      let tool_top = (charge tool_calls false tt id ms top).0.1 in
      let grows = tool_call-Grows ms top id in
      elim (Option-cases (charge tool_calls false tt id ms top).1) [
        | inr (e, thrown) ↦ rw thrown (grown-Bound b ms _ top _ g grows h)
        | inl fits ↦
            let (counted, within) = tool_call_counts ms top id fits in
            rw fits (record {
              same_budget = grows.same_budget ∙ h.same_budget;
              tools = omega (arith, counted, h.tools);
              models = omega (arith, grows.models, h.models);
              tokens = omega (arith, grows.tokens, h.tokens);
              tools_within =
                  Within-le b.max_tool_calls (suc g.tools) tool_top.tool_calls
                    (omega (arith, counted, h.tools))
                    (subst (λ k. Within k.max_tool_calls tool_top.tool_calls) h.same_budget within);
              models_within = h.models_within;
              tokens_within = h.tokens_within;
            })
      ]
  happens-Bound b (calls_model c id) ms top g h =
      let model_top = (charge model_calls false c id ms top).0.1 in
      let grows = model_call-Grows ms top id c in
      elim (Option-cases (charge model_calls false c id ms top).1) [
        | inr (e, thrown) ↦ rw thrown (grown-Bound b ms _ top _ g grows h)
        | inl fits ↦
            let (models, models_within) = model_call_models ms top id c fits in
            let (tokens, tokens_within) = model_call_tokens ms top id c fits in
            rw fits (record {
              same_budget = grows.same_budget ∙ h.same_budget;
              tools = omega (arith, grows.tools, h.tools);
              models = omega (arith, models, h.models);
              tokens = omega (arith, tokens, h.tokens);
              tools_within = h.tools_within;
              models_within =
                  Within-le b.max_model_calls (suc g.models) model_top.model_calls
                    (omega (arith, models, h.models))
                    (subst (λ k. Within k.max_model_calls model_top.model_calls) h.same_budget
                      models_within);
              tokens_within =
                  Within-le b.max_total_tokens (g.tokens + tokens_of c) model_top.total_tokens
                    (omega (arith, tokens, h.tokens))
                    (subst (λ k. Within k.max_total_tokens model_top.total_tokens) h.same_budget
                      tokens_within);
            })
      ]

  run-Bound :
      (b : RunBudget F) (es : List (Event F)) (ms : List (Manager F × ℕ)) (top : Manager F)
      (g : Granted)
      → Bound b ((ms, top), g)
      → Bound b (run es ((ms, top), g))
  unfolding run
  run-Bound b [] ms top g h = h
  run-Bound b (e ∷ es) ms top g h =
      let ((ms', top'), g') = happens e ((ms, top), g) in
      run-Bound b es ms' top' g' (happens-Bound b e ms top g h)

  -- However a run delegates, with whatever budgets and shares, the tool calls that the managers
  -- of the whole tree let through, their model calls and the tokens of these are within the
  -- ceilings of the budget that the run began with.
  pub run-ceilings :
      (run_id now : ℕ) (budget : RunBudget F) (es : List (Event F))
      → let granted =
          (run es
            (([], manager run_id budget now), record { tools = 0; models = 0; tokens = 0 })).1 in
        Within budget.max_tool_calls granted.tools
        × Within budget.max_model_calls granted.models
        × Within budget.max_total_tokens granted.tokens
  unfolding manager
  run-ceilings run_id now budget es =
      let h =
        run-Bound budget es [] (manager run_id budget now)
          (record { tools = 0; models = 0; tokens = 0 })
          (record {
            same_budget = refl;
            tools = omega arith;
            models = omega arith;
            tokens = omega arith;
            tools_within = Within-zero budget.max_tool_calls;
            models_within = Within-zero budget.max_model_calls;
            tokens_within = Within-zero budget.max_total_tokens;
          }) in
      (h.tools_within, h.models_within, h.tokens_within)
