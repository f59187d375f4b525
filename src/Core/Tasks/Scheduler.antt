-- ===== src/Core/Tasks/Scheduler.antt =====
-- `Scheduler`, src/core/tasks/scheduler.ts. The clock and the state of the abort signal are
-- arguments of the calls that read them. A node object is the node of its id in the graph.
pub mod Claims
pub mod Ids
pub mod Limits
pub mod Parked
pub mod Running
pub mod Workers
mod Examples
use devagent_ts.Base.{
  ℕ, suc, ◌+◌, ◌-◌, Bool, true, false, not, ◌&&◌, ◌||◌, Option, none, some, String, List, [], ◌∷◌,
  map, filter, any, is_empty, includes, add_all, if◌then◌else◌, ◌==◌, ltb, leb, string_eq,
}
use devagent_ts.Core.Tasks.Graph.Nodes.{
  TaskNode, TaskPriority, GraphNodeStatus, status_eq, critical, normal, pending, ready, running,
  completed, failed, cancelled,
}
use devagent_ts.Core.Tasks.Graph.{Graph, get, move, moved, ready_nodes, running_nodes, cascade_skip}
use devagent_ts.Core.Concurrency.Locks
use devagent_ts.Core.Concurrency.Locks.{Registry, Release, try_acquire}

pub record Scheduler : Type 0 where
  pub graph : Graph
  pub locks : Registry
  pub max_parallel : ℕ
  pub started_at : ℕ
  pub in_flight : ℕ

-- A new scheduler with its own registry of locks; the default of `maxParallel` is 4.
abbrev pub scheduler : Graph → ℕ → ℕ → Scheduler
scheduler g max_parallel now = record {
  graph = g;
  locks = Locks.empty;
  max_parallel = max_parallel;
  started_at = now;
  in_flight = 0;
}

-- ["pending", "ready", "blocked", "running"].includes(status)
abbrev pub is_cancellable : GraphNodeStatus → Bool
is_cancellable s = includes s (pending ∷ ready ∷ GraphNodeStatus.blocked ∷ running ∷ [])

-- The graph, and the nodes cancelled.
unfoldable pub cancel_pending : Graph → Graph × List String
cancel_pending g = (
  map (λ n. if is_cancellable n.status then move cancelled n else n) g,
  map (λ n. n.id) (filter (λ n. is_cancellable n.status) g),
)

unfoldable pub is_expired : ℕ → ℕ → TaskNode → Bool
is_expired started now n = elim n.deadline_ms [
  | none ↦ false
  | some deadline ↦ includes n.status (pending ∷ ready ∷ []) && ltb (started + deadline) now
]

unfoldable pub expire : ℕ → ℕ → TaskNode → TaskNode
unfolding is_expired
expire started now n =
    if is_expired started now n then record (move failed n) { deadline_exceeded = true } else n

unfoldable pub fail_expired_nodes : ℕ → ℕ → Graph → Graph
fail_expired_nodes started now g = map (expire started now) g

unfoldable pub is_critical : TaskPriority → Bool
is_critical critical = true
is_critical normal = false

-- The comparison of `claimNext` is negative: `a` goes before `b`.
unfoldable pub goes_before : TaskNode → TaskNode → Bool
unfolding is_critical
goes_before a b =
    let critical_a = is_critical a.priority in
    let critical_b = is_critical b.priority in
    if critical_a && not critical_b
    then true
    else if critical_b && not critical_a
    then false
    else ltb a.added_at b.added_at

-- The stable sort by that comparison.
unfoldable pub insert : TaskNode → List TaskNode → List TaskNode
insert n [] = n ∷ []
insert n (m ∷ ms) = let rest = insert n ms in if goes_before m n then m ∷ rest else n ∷ m ∷ ms

unfoldable pub sorted : List TaskNode → List TaskNode
sorted [] = []
sorted (n ∷ ns) = insert n (sorted ns)

unfoldable pub all_known_resources : Graph → List String → List String
all_known_resources [] seen = seen
all_known_resources (n ∷ g) seen = all_known_resources g (add_all seen n.resource_locks)

-- What `claimNext` hands out: the node's id, and the release function of its locks.
abbrev pub Claim : Type 0
Claim = Option (String × Release)

-- The body of the loop of `claimNext` once the locks of a node have been tried.
unfoldable pub claim_node :
    TaskNode → Scheduler → Registry → Option Release → Scheduler × Claim → Scheduler × Claim
claim_node n s locks none rest = rest
claim_node n s locks (some release) rest = (
  record s {
    graph = moved (moved s.graph n.id ready) n.id running;
    locks = locks;
    in_flight = suc s.in_flight;
  },
  some (n.id, release),
)

unfoldable pub needed_resources : Scheduler → TaskNode → List String
needed_resources s n = if n.exclusive then all_known_resources s.graph [] else n.resource_locks

-- The loop of `claimNext`; a refused attempt at the locks leaves the registry as it was.
unfoldable pub claim_first : Scheduler → Bool → List TaskNode → Scheduler × Claim
claim_first s any_running [] = (s, none)
claim_first s any_running (n ∷ ns) =
    let rest = claim_first s any_running ns in
    let (locks, release) = try_acquire s.locks (needed_resources s n) in
    if n.exclusive && any_running then rest else claim_node n s locks release rest

unfoldable pub claim_ready : Scheduler → Scheduler × Claim
claim_ready s =
    let any_running = running_nodes s.graph in
    if any (λ n. n.exclusive) any_running
    then (s, none)
    else claim_first s (not (is_empty any_running)) (sorted (ready_nodes s.graph))

unfoldable pub claim_next : Bool → ℕ → Scheduler → Scheduler × Claim
claim_next aborted now s =
    if aborted
    then (record s { graph = (cancel_pending s.graph).0 }, none)
    else if leb s.max_parallel s.in_flight
    then (s, none)
    else claim_ready (record s { graph = fail_expired_nodes s.started_at now s.graph })

pub data Outcome : Type 0 where
  success failure blocked : Outcome

-- `reason` stands for the text that the source builds from the node's goal and attempts. Lack of
-- fuel, which `cascade_skip_total` excludes, would leave the graph.
unfoldable pub skip_after : Graph → String → String → Graph
skip_after g id reason = elim (cascade_skip g id reason) [ none ↦ g | some r ↦ r.0 ]

unfoldable pub complete_node : (TaskNode → String) → Graph → TaskNode → Outcome → Graph
complete_node reason g n success = moved g n.id completed
complete_node reason g n failure =
    if leb n.attempt n.max_retries
    then moved (moved g n.id failed) n.id ready
    else skip_after (moved g n.id failed) n.id (reason n)
complete_node reason g n blocked = moved g n.id GraphNodeStatus.blocked

unfoldable pub complete : (TaskNode → String) → Graph → String → Outcome → Graph
complete reason g id outcome = elim (get g id) [
  | none ↦ g
  | some n ↦ complete_node reason g n outcome
]

-- The release function that comes with a claim.
unfoldable pub finish_claim : Scheduler → Release → Scheduler
finish_claim s release = record s {
  in_flight = s.in_flight - 1;
  locks = (Locks.release s.locks release).0;
}

unfoldable pub has_runnable_work : Bool → Graph → Bool
has_runnable_work aborted g = if aborted then false else not (is_empty (ready_nodes g))

-- A call of the executor.
pub data Call : Type 0 where
  claims : Bool → ℕ → Call
  completes : String → Outcome → Call
  finishes : Release → Call

unfoldable pub step : (TaskNode → String) → Scheduler → Call → Scheduler
step reason s (claims aborted now) = (claim_next aborted now s).0
step reason s (completes id outcome) = record s { graph = complete reason s.graph id outcome }
step reason s (finishes release) = finish_claim s release

unfoldable pub run : (TaskNode → String) → Scheduler → List Call → Scheduler
run reason s [] = s
run reason s (c ∷ cs) = run reason (step reason s c) cs
