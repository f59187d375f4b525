-- ===== src/Core/Tasks/Graph/Examples.antt =====
-- A graph of four nodes, and the theorems on graphs at it.
use devagent_ts.Core.Tasks.Graph.Order.{topological_order, visit, supported}
use devagent_ts.Core.Tasks.Graph.Ordered.{topological_order-supported}
use devagent_ts.Base.{
  ℕ, arith, ◌==◌, if◌then◌else◌, includes, true, false, none, some, String, List, [], ◌∷◌, ◌≡◌, ◌≢◌,
  ◌⊎◌, ◌↔◌, ◌<◌, ◌≤◌, refl, length, All, ok, string_eq,
}
use devagent_ts.Core.Tasks.Graph.Nodes.{
  GraphNodeStatus, pending, ready, blocked, completed, failed, skipped, normal, TaskNode,
  transitions, status_eq,
}
use devagent_ts.Core.Tasks.Graph.{
  TaskNodeSpec, Graph, get, update, move, moved, retry, skip_dependents, cascade, cascade_skip,
  summary, summary_from, tally, settled,
}
use devagent_ts.Core.Tasks.Graph.Counts.{sum_of, summary_counts}
use devagent_ts.Core.Tasks.Graph.Lookup.{
  transitions_to, retries, apply_all, get-apply_all_final, retry_outcome,
}
use devagent_ts.Core.Tasks.Graph.Fates.{UniqueIds, Fates, NoDependents}
use devagent_ts.Core.Tasks.Graph.Cascade.{cascade_skip_correct}

evaluation : Unit {0}
unfolding get update move moved retry transitions skip_dependents cascade cascade_skip summary
    summary_from tally settled
evaluation = tt

abbrev task : String → List String → GraphNodeStatus → TaskNode
task id deps status = record {
  id = id;
  goal = id;
  dependencies = deps;
  priority = normal;
  deadline_ms = none;
  resource_locks = [];
  exclusive = false;
  max_retries = 1;
  skip_reason = none;
  deadline_exceeded = false;
  status = status;
  attempt = 1;
  added_at = 0;
}

abbrev plan_graph : Graph
plan_graph =
    task "read" [] completed
    ∷ task "build" ("read" ∷ []) failed
    ∷ task "test" ("build" ∷ []) pending
    ∷ task "ship" ("test" ∷ "read" ∷ []) blocked
    ∷ []

plan_graph-UniqueIds : UniqueIds plan_graph
plan_graph-UniqueIds = ((refl, (refl, (refl, tt))), ((refl, (refl, tt)), ((refl, tt), (tt, tt))))

summary_counts_example :
    (sum_of (summary plan_graph) ≡ (summary plan_graph).total)
    × ((summary plan_graph).total ≡ length plan_graph)
    × ((settled plan_graph ≡ true) ↔ (
        ((summary plan_graph).blocked ≡ 0)
        × ((summary plan_graph).pending ≡ 0)
        × ((summary plan_graph).running ≡ 0)))
summary_counts_example = summary_counts plan_graph

get-apply_all_final_example :
    get (apply_all plan_graph (transitions_to "read" failed ∷ retries "build" ∷ [])) "read"
    ≡ some (task "read" [] completed)
unfolding evaluation
get-apply_all_final_example =
    get-apply_all_final plan_graph (transitions_to "read" failed ∷ retries "build" ∷ []) "read"
      (task "read" [] completed) refl refl

retry_outcome_example :
    ((retry plan_graph "build" ≡ ok (plan_graph, false)) × ((failed ≢ failed) ⊎ (1 < 1)))
    ⊎ ((retry plan_graph "build" ≡ ok (moved plan_graph "build" ready, true))
        × (failed ≡ failed)
        × (1 ≤ 1)
        × (get (moved plan_graph "build" ready) "build" ≡ some (task "build" ("read" ∷ []) ready)))
unfolding evaluation
retry_outcome_example = retry_outcome plan_graph "build" (task "build" ("read" ∷ []) failed) refl

cascade_skip_correct_example :
    (g' : Graph) × (done : List String) × (cascade_skip plan_graph "build" "build failed"
      ≡ some (g', done))
    × All (λ c. NoDependents c g') ("build" ∷ done)
    × Fates ("build" ∷ done) done "build failed" plan_graph g'
unfolding evaluation
cascade_skip_correct_example =
    cascade_skip_correct plan_graph "build" "build failed" plan_graph-UniqueIds

-- Both dependents of the failed node are skipped, the second one through the first.
two_skipped :
    cascade_skip plan_graph "build" "build failed"
    ≡ some (
      task "read" [] completed
          ∷ task "build" ("read" ∷ []) failed
          ∷ record (task "test" ("build" ∷ []) skipped) { skip_reason = some "build failed" }
          ∷ record (task "ship" ("test" ∷ "read" ∷ []) skipped) {
            skip_reason = some "build failed";
          }
          ∷ [],
      "test" ∷ "ship" ∷ [],
    )
unfolding evaluation
two_skipped = refl

abbrev review_spec : TaskNodeSpec
review_spec = record {
  id = some "review";
  goal = "review";
  dependencies = "test" ∷ [];
  priority = none;
  deadline_ms = none;
  resource_locks = [];
  exclusive = false;
  max_retries = 0;
}

abbrev order_of_names : String → ℕ
order_of_names id =
    if id == "read" then 0 else if id == "build" then 1 else if id == "test" then 2 else 3

plan_graph_order : topological_order plan_graph ≡ "read" ∷ "build" ∷ "test" ∷ "ship" ∷ []
unfolding evaluation topological_order visit
plan_graph_order = refl

topological_order-supported_example :
    (supported plan_graph [] (topological_order plan_graph) ≡ true)
    × All (λ n. includes n.id (topological_order plan_graph) ≡ true) plan_graph
topological_order-supported_example =
    topological_order-supported order_of_names plan_graph
      (tt, ((omega arith, tt), ((omega arith, tt), ((omega arith, (omega arith, tt)), tt))))
