-- ===== src/Runtime/Budget/Managers.antt =====
-- One manager of src/runtime/budget: what it records of its own calls, and the budget that it
-- derives for a child.
use devagent_ts.Base.{
  ℕ, suc, ◌+◌, ◌-◌, Bool, true, false, Option, none, some, min, max, if◌then◌else◌, leb,
}
use devagent_ts.Runtime.Budget.Limits.{
  Floats, RunBudget, BudgetError, over, over_amount, wall_clock_budget, tool_call_budget,
  model_call_budget, token_budget, cost_budget, iteration_budget, cloud_call_budget,
  cloud_spend_budget, parallel_budget,
}

pub record Manager (F : Floats) : Type 0 where
  pub run_id : ℕ
  pub budget : RunBudget F
  pub started_at : ℕ
  pub tool_calls : ℕ
  pub model_calls : ℕ
  pub total_tokens : ℕ
  pub cost_usd : F.Amount
  pub iterations : ℕ
  pub cloud_calls : ℕ
  pub cloud_spend_usd : F.Amount
  pub active_parallel : ℕ
  pub peak_parallel : ℕ
  pub descendant_tool_calls : ℕ
  pub descendant_model_calls : ℕ
  pub descendant_total_tokens : ℕ

-- The options of `consumeModelCall`; absent counts of tokens are zero.
pub record ModelCall (F : Floats) : Type 0 where
  pub prompt_tokens : ℕ
  pub completion_tokens : ℕ
  pub cost_usd : Option F.Amount
  pub cloud : Bool

-- Math.max(1, Math.floor((limit - used) * share)): what is used beyond the limit leaves a
-- portion below one.
abbrev pub shared_count : (F : Floats) → F.Amount → ℕ → Option ℕ → Option ℕ
shared_count F share used none = none
shared_count F share used (some limit) = some (max 1 (F.portion (limit - used) share))

abbrev pub shared_amount : (F : Floats) → F.Amount → F.Amount → Option F.Amount → Option F.Amount
shared_amount F share used none = none
shared_amount F share used (some limit) = some (F.rounded (F.times (F.minus limit used) share))

abbrev pub share_or_half : (F : Floats) → Option F.Amount → F.Amount
share_or_half F none = F.half
share_or_half F (some share) = if F.is_share share then share else F.half

abbrev pub shorter : Option ℕ → Option ℕ → Option ℕ
shorter declared none = declared
shorter none (some remaining) = some remaining
shorter (some declared) (some remaining) = some (min declared remaining)

module _ {F : Floats} where
  unfoldable pub manager : ℕ → RunBudget F → ℕ → Manager F
  manager run_id budget now = record {
    run_id = run_id;
    budget = budget;
    started_at = now;
    tool_calls = 0;
    model_calls = 0;
    total_tokens = 0;
    cost_usd = F.no_amount;
    iterations = 0;
    cloud_calls = 0;
    cloud_spend_usd = F.no_amount;
    active_parallel = 0;
    peak_parallel = 0;
    descendant_tool_calls = 0;
    descendant_model_calls = 0;
    descendant_total_tokens = 0;
  }

  -- `elapsedMs`: the subtraction stops at zero, as the source's `Math.max(0, …)` does.
  unfoldable pub elapsed_ms : ℕ → Manager F → ℕ
  elapsed_ms now m = now - m.started_at

  unfoldable pub assert_time_left : ℕ → Manager F → Option (BudgetError F)
  unfolding elapsed_ms
  assert_time_left now m = elim m.budget.deadline_ms [
    | none ↦ none
    | some deadline ↦
        if leb deadline (elapsed_ms now m)
        then some (wall_clock_budget (elapsed_ms now m) deadline)
        else none
  ]

  -- `consumeToolCall` of the tracker: the manager after it, and what it throws.
  unfoldable pub own_tool_call : Manager F → Manager F × Option (BudgetError F)
  own_tool_call m =
      let m' = record m { tool_calls = suc m.tool_calls } in
      (m', over tool_call_budget m'.tool_calls m.budget.max_tool_calls)

  -- The rest of the tracker's `consumeModelCall`, from the cost on.
  unfoldable pub own_cost : Option F.Amount → Manager F → Manager F × Option (BudgetError F)
  own_cost none m = (m, none)
  own_cost (some cost) m =
      let m' = record m { cost_usd = F.rounded (F.plus m.cost_usd cost) } in
      (m', over_amount F cost_budget m'.cost_usd m.budget.max_cost_usd)

  -- From the tokens on.
  unfoldable pub own_tokens : ModelCall F → Manager F → Manager F × Option (BudgetError F)
  own_tokens c m =
      let m' = record m {
        total_tokens = m.total_tokens + (c.prompt_tokens + c.completion_tokens);
      } in
      elim (over token_budget m'.total_tokens m.budget.max_total_tokens) [
        | none ↦ own_cost c.cost_usd m'
        | some e ↦ (m', some e)
      ]

  -- `consumeModelCall` of the tracker.
  unfoldable pub tracked_model_call : ModelCall F → Manager F → Manager F × Option (BudgetError F)
  tracked_model_call c m =
      let m' = record m { model_calls = suc m.model_calls } in
      elim (over model_call_budget m'.model_calls m.budget.max_model_calls) [
        | none ↦ own_tokens c m'
        | some e ↦ (m', some e)
      ]

  -- The cloud counts, which `consumeModelCall` of the manager makes first.
  unfoldable pub with_cloud : ModelCall F → Manager F → Manager F
  with_cloud c m = elim c.cloud [
    | false ↦ m
    | true ↦ record m {
      cloud_calls = suc m.cloud_calls;
      cloud_spend_usd = elim c.cost_usd [
        | none ↦ m.cloud_spend_usd
        | some cost ↦ F.plus m.cloud_spend_usd cost
      ];
    }
  ]

  -- The checks of the cloud ceilings, which it makes last.
  unfoldable pub cloud_check : ModelCall F → Manager F → Option (BudgetError F)
  cloud_check c m = elim c.cloud [
    | false ↦ none
    | true ↦ elim (over cloud_call_budget m.cloud_calls m.budget.max_cloud_calls) [
      | some e ↦ some e
      | none ↦ over_amount F cloud_spend_budget m.cloud_spend_usd m.budget.max_cloud_spend_usd
    ]
  ]

  -- The detail that `propagateUp` gets.
  unfoldable pub propagated : ModelCall F → ModelCall F
  propagated c = record c {
    cost_usd = some (elim c.cost_usd [ none ↦ F.no_amount | some cost ↦ cost ]);
  }

  unfoldable pub count_descendant_tool_call : Manager F → Manager F
  count_descendant_tool_call m = record m { descendant_tool_calls = suc m.descendant_tool_calls }

  unfoldable pub count_descendant_model_call : ModelCall F → Manager F → Manager F
  count_descendant_model_call c m = record m {
    descendant_model_calls = suc m.descendant_model_calls;
    descendant_total_tokens = m.descendant_total_tokens + (c.prompt_tokens + c.completion_tokens);
  }

  -- `consumeIteration`; what it propagates changes nothing.
  unfoldable pub consume_iteration : Manager F → Manager F × Option (BudgetError F)
  consume_iteration m =
      let m' = record m { iterations = suc m.iterations } in
      (m', over iteration_budget m'.iterations m.budget.max_iterations)

  -- `consumeCloudCall`; what it propagates changes nothing.
  unfoldable pub consume_cloud_call : Manager F → Manager F × Option (BudgetError F)
  consume_cloud_call m =
      let m' = record m { cloud_calls = suc m.cloud_calls } in
      (m', over cloud_call_budget m'.cloud_calls m.budget.max_cloud_calls)

  unfoldable pub consume_cloud_spend : F.Amount → Manager F → Manager F × Option (BudgetError F)
  consume_cloud_spend cost m =
      let m' = record m { cloud_spend_usd = F.rounded (F.plus m.cloud_spend_usd cost) } in
      (m', over_amount F cloud_spend_budget m'.cloud_spend_usd m.budget.max_cloud_spend_usd)

  -- The slot is taken, or an error says that it is not.
  unfoldable pub acquire_parallel_slot : Manager F → Manager F × Option (BudgetError F)
  acquire_parallel_slot m =
      elim (over parallel_budget (suc m.active_parallel) m.budget.max_parallel_executions) [
        | some e ↦ (m, some e)
        | none ↦ (
          record m {
            active_parallel = suc m.active_parallel;
            peak_parallel = max m.peak_parallel (suc m.active_parallel);
          },
          none,
        )
      ]

  -- The first call of a slot's release function.
  unfoldable pub release_parallel_slot : Manager F → Manager F
  release_parallel_slot m = record m { active_parallel = m.active_parallel - 1 }

  unfoldable pub remaining_wall_clock_ms : ℕ → Manager F → Option ℕ
  unfolding elapsed_ms
  remaining_wall_clock_ms now m = elim m.budget.deadline_ms [
    | none ↦ none
    | some deadline ↦ some (deadline - elapsed_ms now m)
  ]

  unfoldable pub derive_child_budget :
      ℕ → Manager F → Option (RunBudget F) → Option F.Amount → RunBudget F
  derive_child_budget now m (some declared) share = record declared {
    deadline_ms = shorter declared.deadline_ms (remaining_wall_clock_ms now m);
  }
  derive_child_budget now m none share =
      let s = share_or_half F share in
      record {
        max_tool_calls = shared_count F s m.tool_calls m.budget.max_tool_calls;
        max_model_calls = shared_count F s m.model_calls m.budget.max_model_calls;
        max_total_tokens = shared_count F s m.total_tokens m.budget.max_total_tokens;
        max_cost_usd = shared_amount F s m.cost_usd m.budget.max_cost_usd;
        deadline_ms = remaining_wall_clock_ms now m;
        max_iterations = shared_count F s m.iterations m.budget.max_iterations;
        max_cloud_calls = shared_count F s m.cloud_calls m.budget.max_cloud_calls;
        max_cloud_spend_usd = shared_amount F s m.cloud_spend_usd m.budget.max_cloud_spend_usd;
        max_parallel_executions = none;
      }
