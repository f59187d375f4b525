-- ===== src/Core/Tasks/Scheduler/Examples.antt =====
-- A scheduler on three nodes, and the theorems on it.
use devagent_ts.Base.{
  true, includes, length, ◌≤◌, false, none, some, String, List, [], ◌∷◌, ◌≡◌, refl, arith,
  string_eq, nat_eq,
}
use devagent_ts.Base.Dict.{get as dict_get, set, delete}
use devagent_ts.Core.Tasks.Graph.Nodes.{
  GraphNodeStatus, TaskNode, pending, ready, running, normal, transitions, status_eq,
}
use devagent_ts.Core.Tasks.Graph.{
  Graph, get, update, move, moved, ready_nodes, running_nodes, deps_satisfied, is_completed,
}
use devagent_ts.Core.Tasks.Graph.Fates.{UniqueIds}
use devagent_ts.Core.Concurrency.Locks.{holder, try_acquire, grant, is_free}
use devagent_ts.Core.Concurrency.Locks.Tables.{grant_each}
use devagent_ts.Core.Tasks.Scheduler.{
  scheduler, Outcome, Call, claims, completes, finishes, claim_next, claim_ready, claim_first,
  claim_node, needed_resources, sorted, insert, goes_before, is_critical, fail_expired_nodes,
  expire, is_expired, cancel_pending, step, run,
}
use devagent_ts.Core.Tasks.Scheduler.Claims.{swept}
use devagent_ts.Core.Tasks.Scheduler.Running.{runs}
use devagent_ts.Core.Tasks.Scheduler.Workers.{
  Turn, claims_next, ends_node, run_turns, run-workers_limit,
}
use devagent_ts.Core.Tasks.Scheduler.Limits.{Claimed, claim_next-Claimed}
use devagent_ts.Core.Tasks.Scheduler.Parked.{Parked, retried_never_runs}

evaluation : Unit {0}
unfolding claim_next claim_ready claim_first claim_node needed_resources sorted insert goes_before
    is_critical fail_expired_nodes expire is_expired cancel_pending ready_nodes running_nodes
    deps_satisfied is_completed get update move moved transitions try_acquire grant is_free
    grant_each dict_get set delete
evaluation = tt

abbrev node : String → List String → List String → GraphNodeStatus → TaskNode
node id deps locks status = record {
  id = id;
  goal = id;
  dependencies = deps;
  priority = normal;
  deadline_ms = none;
  resource_locks = locks;
  exclusive = false;
  max_retries = 1;
  skip_reason = none;
  deadline_exceeded = false;
  status = status;
  attempt = 1;
  added_at = 0;
}

-- The commit waits for the edit, which is running, and the tests may start.
abbrev tasks : Graph
tasks =
    node "edit" [] ("workspace" ∷ []) running
    ∷ node "commit" ("edit" ∷ []) ("git" ∷ []) pending
    ∷ node "test" [] ("db" ∷ []) pending
    ∷ []

tasks-UniqueIds : UniqueIds tasks
tasks-UniqueIds = ((refl, (refl, tt)), ((refl, tt), (tt, tt)))

abbrev failure_text : TaskNode → String
failure_text n = n.goal

abbrev calls : List Call
calls =
    claims false 1 ∷ completes "test" Outcome.success ∷ finishes (holder 1) ∷ claims false 2 ∷ []

claim_next-Claimed_example :
    Claimed
      (swept (scheduler tasks 2 0) 1)
      (claim_next false 1 (scheduler tasks 2 0)).0
      "test"
      (holder 1)
unfolding evaluation
claim_next-Claimed_example =
    claim_next-Claimed false 1 (scheduler tasks 2 0) _ "test" (holder 1) tasks-UniqueIds refl

-- The edit has not been claimed yet.
abbrev idle_tasks : Graph
idle_tasks =
    node "edit" [] ("workspace" ∷ []) pending
    ∷ node "commit" ("edit" ∷ []) ("git" ∷ []) pending
    ∷ node "test" [] ("db" ∷ []) pending
    ∷ []

none_runs : (j : String) → runs j idle_tasks ≡ false
unfolding get
none_runs j = ground arith

-- The edit and the tests are claimed, the tests end, and a third claim finds nothing to run.
abbrev turns : List Turn
turns =
    claims_next false 1
    ∷ claims_next false 2
    ∷ ends_node "test" Outcome.success (holder 2)
    ∷ claims_next false 3
    ∷ []

run-workers_limit_example :
    let (s, out) = run_turns failure_text turns (scheduler idle_tasks 2 0, []) in
    ((j : String) → runs j s.graph ≡ true → includes j out ≡ true)
    × (length out ≤ 2)
    × (s.in_flight ≡ length out)
run-workers_limit_example =
    run-workers_limit failure_text idle_tasks 2 0 turns ((refl, (refl, tt)), ((refl, tt), (tt, tt)))
      none_runs

retried_never_runs_example :
    (get (step failure_text (scheduler tasks 2 0) (completes "edit" Outcome.failure)).graph "edit"
      ≡ some (node "edit" [] ("workspace" ∷ []) ready))
    × Parked "edit" 1
        (run failure_text (scheduler tasks 2 0) (completes "edit" Outcome.failure ∷ calls)).graph
unfolding evaluation
retried_never_runs_example =
    retried_never_runs failure_text (scheduler tasks 2 0) "edit"
      (node "edit" [] ("workspace" ∷ []) running) calls tasks-UniqueIds refl refl (omega arith)
