-- ===== src/Runtime/Budget/Limits.antt =====
-- The ceilings and errors of src/runtime/budget, and `ExecutionBudget` of src/core/types.ts. The
-- platform's floating-point numbers are a parameter; counts and times are natural numbers.
use devagent_ts.Base.{ℕ, Bool, true, false, Option, none, some, ltb}

-- The floating-point operations that the source uses on amounts and shares.
pub record Floats : Type 1 where
  pub Amount : Type 0
  pub no_amount : Amount
  pub plus : Amount → Amount → Amount
  pub minus : Amount → Amount → Amount
  pub times : Amount → Amount → Amount
  -- Math.round(x * 1e6) / 1e6
  pub rounded : Amount → Amount
  -- a > b
  pub exceeds : Amount → Amount → Bool
  -- share > 0 && share <= 1
  pub is_share : Amount → Bool
  -- 0.5
  pub half : Amount
  -- Math.floor(n * share)
  pub portion : ℕ → Amount → ℕ

pub record RunBudget (F : Floats) : Type 0 where
  pub max_tool_calls : Option ℕ
  pub max_model_calls : Option ℕ
  pub max_total_tokens : Option ℕ
  pub max_cost_usd : Option F.Amount
  pub deadline_ms : Option ℕ
  pub max_iterations : Option ℕ
  pub max_cloud_calls : Option ℕ
  pub max_cloud_spend_usd : Option F.Amount
  pub max_parallel_executions : Option ℕ

-- The error classes, with the count consumed and the limit where these are counts.
pub data BudgetError (F : Floats) : Type 0 where
  wall_clock_budget : ℕ → ℕ → BudgetError F
  tool_call_budget : ℕ → ℕ → BudgetError F
  model_call_budget : ℕ → ℕ → BudgetError F
  token_budget : ℕ → ℕ → BudgetError F
  cost_budget : F.Amount → F.Amount → BudgetError F
  iteration_budget : ℕ → ℕ → BudgetError F
  cloud_call_budget : ℕ → ℕ → BudgetError F
  cloud_spend_budget : F.Amount → F.Amount → BudgetError F
  parallel_budget : ℕ → ℕ → BudgetError F

-- `limit !== undefined && consumed > limit`, and the error then.
abbrev pub over {ℓ} : {E : Type ℓ} → (ℕ → ℕ → E) → ℕ → Option ℕ → Option E
over error consumed none = none
over error consumed (some limit) = elim (ltb limit consumed) [
  | true ↦ some (error consumed limit)
  | false ↦ none
]

abbrev pub over_amount {ℓ} :
    {E : Type ℓ} (F : Floats) → (F.Amount → F.Amount → E) → F.Amount → Option F.Amount → Option E
over_amount F error consumed none = none
over_amount F error consumed (some limit) = elim (F.exceeds consumed limit) [
  | true ↦ some (error consumed limit)
  | false ↦ none
]
