-- ===== src/Runtime/Budget/Examples.antt =====
-- A run that delegates, with amounts counted in millionths, and the theorems at it.
use devagent_ts.Base.{
  ℕ, ◌+◌, ◌-◌, ◌*◌, ◌/◌, ◌≡◌, refl, true, ◌&&◌, none, some, List, [], ◌∷◌, leb, ltb,
}
use devagent_ts.Runtime.Budget.Limits.{Floats, RunBudget}
use devagent_ts.Runtime.Budget.Managers.{
  manager, derive_child_budget, elapsed_ms, remaining_wall_clock_ms, own_tool_call, own_cost,
  own_tokens, tracked_model_call, with_cloud, cloud_check, propagated, count_descendant_tool_call,
  count_descendant_model_call,
}
use devagent_ts.Runtime.Budget.Tree.{
  charge, consume_tool_call, consume_model_call, derive_child, manager_of,
}
use devagent_ts.Runtime.Budget.Charging.{Within}
use devagent_ts.Runtime.Budget.Ceilings.{
  Event, delegates, calls_tool, calls_model, happens, run, run-ceilings,
}

evaluation : Unit {0}
unfolding manager derive_child_budget elapsed_ms remaining_wall_clock_ms own_tool_call own_cost
    own_tokens tracked_model_call with_cloud cloud_check propagated count_descendant_tool_call
    count_descendant_model_call charge consume_tool_call consume_model_call derive_child manager_of
    happens run
evaluation = tt

abbrev millionths : Floats
millionths = record {
  Amount = ℕ;
  no_amount = 0;
  plus = λ a b. a + b;
  minus = λ a b. a - b;
  times = λ a b. a * b / 1_000_000;
  rounded = λ a. a;
  exceeds = λ a b. ltb b a;
  is_share = λ a. ltb 0 a && leb a 1_000_000;
  half = 500_000;
  portion = λ n a. n * a / 1_000_000;
}

abbrev two_tools : RunBudget millionths
two_tools = record {
  max_tool_calls = some 2;
  max_model_calls = none;
  max_total_tokens = some 1000;
  max_cost_usd = none;
  deadline_ms = some 60;
  max_iterations = none;
  max_cloud_calls = none;
  max_cloud_spend_usd = none;
  max_parallel_executions = none;
}

abbrev generous : RunBudget millionths
generous = record two_tools {
  max_tool_calls = none;
  max_total_tokens = none;
  deadline_ms = some 900;
}

-- A child with no ceiling on tools calls three.
abbrev delegation : List (Event millionths)
delegation =
    delegates 10 12 1 0 (some generous) none
    ∷ calls_tool 1
    ∷ calls_model
        (record { prompt_tokens = 600; completion_tokens = 100; cost_usd = none; cloud = true }) 1
    ∷ calls_tool 1
    ∷ calls_tool 1
    ∷ []

run-ceilings_example :
    let granted =
      (run delegation
        (([], manager 0 two_tools 0), record { tools = 0; models = 0; tokens = 0 })).1 in
    Within (some 2) granted.tools × Within none granted.models × Within (some 1000) granted.tokens
run-ceilings_example = run-ceilings 0 0 two_tools delegation

two_are_granted :
    (run delegation (([], manager 0 two_tools 0), record { tools = 0; models = 0; tokens = 0 })).1
    ≡ record { tools = 2; models = 1; tokens = 700 }
unfolding evaluation
two_are_granted = refl
