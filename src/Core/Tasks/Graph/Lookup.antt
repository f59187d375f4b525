-- ===== src/Core/Tasks/Graph/Lookup.antt =====
-- Reading a node of src/core/tasks/task-graph.ts after a change, and what never changes.
use devagent_ts.Base.{
  ltb, ◌≤◌, ◌<◌, ◌≢◌, Bool, true, false, Option, none, some, String, string_eq, eq_iff, List, [],
  ◌∷◌, ◌≡◌, ◌⊎◌, inl, inr, arith, if◌then◌else◌, ◌==◌, includes, Bool-cases, Result, ok, err, ==-eq,
}
use devagent_ts.Core.Tasks.Graph.Nodes.{
  GraphNodeStatus, TaskNode, status_eq, completed, cancelled, skipped, failed, ready,
}
use devagent_ts.Core.Tasks.Graph.{Graph, get, update, move, moved, transition, retry, GraphError}

abbrev pub map_node : (TaskNode → TaskNode) → Option TaskNode → Option TaskNode
map_node f none = none
map_node f (some n) = some (f n)

pub get-update :
    (f : TaskNode → TaskNode) (g : Graph) (id j : String)
    → ((n : TaskNode) → (f n).id ≡ n.id)
    → get (update id f g) j ≡ (if id == j then map_node f (get g j) else get g j)
unfolding get update
get-update f [] id j keeps = ground arith
get-update f (n ∷ g) id j keeps =
    ground (arith, get-update f g id j keeps, keeps n, eq_iff n.id id, eq_iff n.id j, eq_iff id j)

pub id-move : (to : GraphNodeStatus) (n : TaskNode) → (move to n).id ≡ n.id
unfolding move
id-move to n = ground arith

pub get-moved :
    (g : Graph) (id j : String) (to : GraphNodeStatus)
    → get (moved g id to) j ≡ (if id == j then map_node (move to) (get g j) else get g j)
unfolding moved
get-moved g id j to = get-update (move to) g id j (id-move to)

pub id-get : (g : Graph) (id : String) (n : TaskNode) → get g id ≡ some n → n.id ≡ id
unfolding get
id-get [] id n e = cc
id-get (m ∷ g) id n e = elim (Bool-cases (m.id == id)) [
  | inl here ↦ ground (arith, eq_iff m.id id)
  | inr there ↦ id-get g id n (ground arith)
]

-- No move leaves these three.
abbrev pub is_final : GraphNodeStatus → Bool
is_final s = includes s (completed ∷ cancelled ∷ skipped ∷ [])

move_final : (to : GraphNodeStatus) (n : TaskNode) → is_final n.status ≡ true → move to n ≡ n
unfolding move
move_final to n h = ground arith

pub get-moved_final :
    (g : Graph) (id j : String) (to : GraphNodeStatus) (n : TaskNode)
    → get g j ≡ some n
    → is_final n.status ≡ true
    → get (moved g id to) j ≡ some n
get-moved_final g id j to n e h = ground (arith, get-moved g id j to, move_final to n)

-- A request to change a node's status.
pub data Change : Type 0 where
  transitions_to : String → GraphNodeStatus → Change
  retries : String → Change

-- An error leaves the graph as it was.
abbrev pub after : Graph → Result GraphError Graph → Graph
after g (ok g') = g'
after g (err e) = g

abbrev pub graph_of : Result GraphError (Graph × Bool) → Result GraphError Graph
graph_of (ok r) = ok r.0
graph_of (err e) = err e

pub apply : Graph → Change → Graph
apply g (transitions_to id to) = after g (transition g id to)
apply g (retries id) = after g (graph_of (retry g id))

pub apply_all : Graph → List Change → Graph
apply_all g [] = g
apply_all g (c ∷ cs) = apply_all (apply g c) cs

get-apply_final :
    (g : Graph) (c : Change) (j : String) (n : TaskNode)
    → get g j ≡ some n
    → is_final n.status ≡ true
    → get (apply g c) j ≡ some n
unfolding apply transition retry
get-apply_final g (transitions_to id to) j n e h = ground (arith, get-moved_final g id j to n)
get-apply_final g (retries id) j n e h = ground (arith, get-moved_final g id j ready n)

-- A node that is completed, cancelled or skipped stays exactly as it is, attempts included, under
-- any series of calls of `transition` and `retry`, on it or on other nodes.
pub get-apply_all_final :
    (g : Graph) (cs : List Change) (j : String) (n : TaskNode)
    → get g j ≡ some n
    → is_final n.status ≡ true
    → get (apply_all g cs) j ≡ some n
unfolding apply_all
get-apply_all_final g [] j n e h = e
get-apply_all_final g (c ∷ cs) j n e h =
    get-apply_all_final (apply g c) cs j n (get-apply_final g c j n e h) h

move_retry : (n : TaskNode) → n.status ≡ failed → move ready n ≡ record n { status = ready }
unfolding move
move_retry n h = ground arith

pub get-moved_retry :
    (g : Graph) (id : String) (n : TaskNode)
    → get g id ≡ some n
    → n.status ≡ failed
    → get (moved g id ready) id ≡ some (record n { status = ready })
get-moved_retry g id n e h = ground (arith, get-moved g id id ready, move_retry n, eq_iff id id)

-- `retry` of a node of the graph answers `true` exactly when the node is failed and has attempts
-- left, and then the node is ready and otherwise as it was, attempts included; when it answers
-- `false` the graph is unchanged.
pub retry_outcome :
    (g : Graph) (id : String) (n : TaskNode)
    → get g id ≡ some n
    → ((retry g id ≡ ok (g, false)) × ((n.status ≢ failed) ⊎ (n.max_retries < n.attempt)))
      ⊎ ((retry g id ≡ ok (moved g id ready, true))
          × (n.status ≡ failed)
          × (n.attempt ≤ n.max_retries)
          × (get (moved g id ready) id ≡ some (record n { status = ready })))
unfolding retry
retry_outcome g id n e = elim (Bool-cases (n.status == failed)) [
  | inl f ↦ elim (Bool-cases (ltb n.max_retries n.attempt)) [
    | inl spent ↦ inl (ground arith, inr (ground arith))
    | inr left ↦ inr (
      ground arith,
      ==-eq n.status failed f,
      ground arith,
      get-moved_retry g id n e (==-eq n.status failed f),
    )
  ]
  | inr other ↦ inl (ground arith, inl (λ q. absurd (ground arith)))
]
