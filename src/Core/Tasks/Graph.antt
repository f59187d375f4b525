-- ===== src/Core/Tasks/Graph.antt =====
-- `TaskGraph`, src/core/tasks/task-graph.ts. The map of nodes is the list of its values in the
-- order of insertion, the key of a node being its id. Of a node's metadata the two entries that
-- the control plane itself writes are kept. `Date.now()` and new ids are arguments.
pub mod Nodes
pub mod Keys
pub mod Lookup
pub mod Counts
pub mod Fates
pub mod Cascade
pub mod Order
pub mod Ranks
pub mod Visits
pub mod Ordered
mod Examples
use devagent_ts.Base.{
  ℕ, zero, suc, ◌+◌, Bool, true, false, not, ◌&&◌, ◌||◌, Option, none, some, String, List, [], ◌∷◌,
  ◌++◌, if◌then◌else◌, ◌==◌, all, any, filter, find?, is_empty, includes, nat_eq, string_eq, ltb,
  length, count, Result, ok, err, add,
}
use Nodes.{
  GraphNodeStatus, pending, ready, running, blocked, completed, failed, cancelled, skipped,
  status_eq, transitions, TaskNode, TaskNodeSpec, TaskPriority, normal, has_status, is_skippable,
  is_terminal, or_else,
}

abbrev pub Graph : Type 0
Graph = List TaskNode

unfoldable pub get : Graph → String → Option TaskNode
get g id = find? (λ n. n.id == id) g

-- The node of that id is changed in place.
unfoldable pub update : String → (TaskNode → TaskNode) → Graph → Graph
update id f [] = []
update id f (n ∷ g) = let rest = update id f g in if n.id == id then f n ∷ g else n ∷ rest

pub data GraphError : Type 0 where
  duplicate_node : String → GraphError
  no_node : String → GraphError

-- `add`: `fresh` is the id that `newTaskId` makes, `now` the time.
unfoldable pub add_node : Graph → TaskNodeSpec → String → ℕ → Result GraphError (Graph × TaskNode)
add_node g spec fresh now =
    let id = or_else spec.id fresh in
    let node : TaskNode = record {
      id = id;
      goal = spec.goal;
      dependencies = spec.dependencies;
      priority = or_else spec.priority normal;
      deadline_ms = spec.deadline_ms;
      resource_locks = spec.resource_locks;
      exclusive = spec.exclusive;
      max_retries = spec.max_retries;
      skip_reason = none;
      deadline_exceeded = false;
      status = pending;
      attempt = 0;
      added_at = now;
    } in
    elim (get g id) [ none ↦ ok (g ++ node ∷ [], node) | some _ ↦ err (duplicate_node id) ]

unfoldable pub require : Graph → String → Result GraphError TaskNode
require g id = elim (get g id) [ none ↦ err (no_node id) | some n ↦ ok n ]

-- The assignment of `transition` to a node: a move that is not in the table is ignored.
unfoldable pub move : GraphNodeStatus → TaskNode → TaskNode
unfolding transitions
move to n =
    if includes to (transitions n.status)
    then record n { status = to; attempt = if to == running then n.attempt + 1 else n.attempt }
    else n

-- `transition` of a node that is in the graph.
unfoldable pub moved : Graph → String → GraphNodeStatus → Graph
moved g id to = update id (move to) g

unfoldable pub transition : Graph → String → GraphNodeStatus → Result GraphError Graph
transition g id to = elim (get g id) [ none ↦ err (no_node id) | some n ↦ ok (moved g id to) ]

unfoldable pub retry : Graph → String → Result GraphError (Graph × Bool)
retry g id = elim (get g id) [
  | none ↦ err (no_node id)
  | some n ↦
      if not (n.status == failed)
      then ok (g, false)
      else if ltb n.max_retries n.attempt
      then ok (g, false)
      else ok (moved g id ready, true)
]

unfoldable pub is_completed : Option TaskNode → Bool
is_completed none = false
is_completed (some d) = d.status == completed

unfoldable pub deps_satisfied : Graph → TaskNode → Bool
deps_satisfied g n = all (λ dep. is_completed (get g dep)) n.dependencies

unfoldable pub ready_nodes : Graph → List TaskNode
ready_nodes g = filter (λ n. n.status == pending && deps_satisfied g n) g

unfoldable pub running_nodes : Graph → List TaskNode
running_nodes g = filter (λ n. n.status == running) g

-- One pass of `cascadeSkip` over the nodes for one id of its queue: the nodes, the ids seen, and
-- the ids that join the queue.
unfoldable pub skip_dependents :
    String → String → List String → Graph → Graph × List String × List String
skip_dependents current reason seen [] = ([], seen, [])
skip_dependents current reason seen (n ∷ g) =
    let hit = includes current n.dependencies && not (includes n.id seen) in
    let skips = hit && is_skippable n.status in
    let (g', seen', new) = skip_dependents current reason (if hit then add n.id seen else seen) g in
    (
      (if skips then record n { status = skipped; skip_reason = some reason } else n) ∷ g',
      seen',
      if skips then n.id ∷ new else new,
    )

-- The loop of `cascadeSkip` on fuel: the graph and the ids skipped. `none` is lack of fuel.
unfoldable pub cascade :
    ℕ → String → Graph → List String → List String → List String → Option (Graph × List String)
cascade fuel reason g seen [] done = some (g, done)
cascade zero reason g seen (current ∷ queue) done = none
cascade (suc fuel) reason g seen (current ∷ queue) done =
    let (g', seen', new) = skip_dependents current reason seen g in
    cascade fuel reason g' seen' (queue ++ new) (done ++ new)

-- Each round takes an id from the queue, and each id that joins it was a node to be skipped.
unfoldable pub cascade_skip : Graph → String → String → Option (Graph × List String)
cascade_skip g from reason =
    cascade (suc (count (λ n. is_skippable n.status) g)) reason g [] (from ∷ []) []

pub record Summary : Type 0 where
  pub total : ℕ
  pub completed : ℕ
  pub failed : ℕ
  pub skipped : ℕ
  pub cancelled : ℕ
  pub blocked : ℕ
  pub pending : ℕ
  pub running : ℕ

-- The branch of the loop of `summary` for one node.
unfoldable pub tally : GraphNodeStatus → Summary → Summary
tally GraphNodeStatus.completed s = record s { completed = suc s.completed }
tally GraphNodeStatus.failed s = record s { failed = suc s.failed }
tally GraphNodeStatus.skipped s = record s { skipped = suc s.skipped }
tally GraphNodeStatus.cancelled s = record s { cancelled = suc s.cancelled }
tally GraphNodeStatus.blocked s = record s { blocked = suc s.blocked }
tally GraphNodeStatus.running s = record s { running = suc s.running }
tally _ s = record s { pending = suc s.pending }

unfoldable pub summary_from : Summary → Graph → Summary
summary_from s [] = s
summary_from s (n ∷ g) = summary_from (tally n.status s) g

unfoldable pub summary : Graph → Summary
summary g =
    summary_from
      (record {
        total = length g;
        completed = 0;
        failed = 0;
        skipped = 0;
        cancelled = 0;
        blocked = 0;
        pending = 0;
        running = 0;
      })
      g

unfoldable pub settled : Graph → Bool
settled g = all (λ n. is_terminal n.status) g

-- `nodes.set(n.id, n)`: a node of that id keeps its place.
unfoldable pub put : TaskNode → Graph → Graph
put n [] = n ∷ []
put n (m ∷ g) = let rest = put n g in if m.id == n.id then n ∷ g else m ∷ rest

pub to_json : Graph → List TaskNode
to_json g = g

unfoldable pub from_json : Graph → List TaskNode → Graph
from_json g [] = g
from_json g (n ∷ ns) = from_json (put n g) ns
