-- ===== src/Core/Tasks/Graph/Keys.antt =====
-- The keys of the map of src/core/tasks/task-graph.ts: `add` and `fromJSON` keep them unique.
use devagent_ts.Base.{
  ◌⊎◌, ==-eq, ℕ, false, Option, none, some, String, List, [], ◌∷◌, ◌++◌, All, All-append, ◌==◌, ◌≡◌,
  refl, ap, ◌∙◌, arith, string_eq, eq_iff, Bool-cases, Option-cases, inl, inr, ==-comm, Result, ok,
  err,
}
use devagent_ts.Core.Tasks.Graph.Nodes.{TaskNode, TaskNodeSpec, or_else, pending}
use devagent_ts.Core.Tasks.Graph.{
  normal, duplicate_node, Graph, get, add_node, put, from_json, GraphError,
}
use devagent_ts.Core.Tasks.Graph.Fates.{UniqueIds}

id-put :
    (x : String) (n : TaskNode) (g : Graph)
    → (n.id == x) ≡ false
    → All (λ m. (m.id == x) ≡ false) g
    → All (λ m. (m.id == x) ≡ false) (put n g)
unfolding put
id-put x n [] h hs = (h, tt)
id-put x n (m ∷ g) h hs = elim (Bool-cases (m.id == n.id)) [
  | inl e ↦ rw e (h, hs.1)
  | inr e ↦ rw e (hs.0, id-put x n g h hs.1)
]

UniqueIds-put : (n : TaskNode) (g : Graph) → UniqueIds g → UniqueIds (put n g)
unfolding put
UniqueIds-put n [] u = (tt, tt)
UniqueIds-put n (m ∷ g) u = elim (Bool-cases (m.id == n.id)) [
  | inl e ↦ rw e (rw (← (==-eq m.id n.id e)) u)
  | inr e ↦ rw e (id-put m.id n g (==-comm n.id m.id ∙ e) u.0, UniqueIds-put n g u.1)
]

UniqueIds-from_json : (g : Graph) (ns : List TaskNode) → UniqueIds g → UniqueIds (from_json g ns)
unfolding from_json
UniqueIds-from_json g [] u = u
UniqueIds-from_json g (n ∷ ns) u = UniqueIds-from_json (put n g) ns (UniqueIds-put n g u)

get-none : (g : Graph) (id : String) → get g id ≡ none → All (λ m. (m.id == id) ≡ false) g
unfolding get
get-none [] id h = tt
get-none (m ∷ g) id h = elim (Bool-cases (m.id == id)) [
  | inl e ↦ absurd (ground arith)
  | inr e ↦ (e, get-none g id (ground arith))
]

UniqueIds-snoc :
    (g : Graph) (n : TaskNode)
    → All (λ m. (m.id == n.id) ≡ false) g
    → UniqueIds g
    → UniqueIds (g ++ n ∷ [])
UniqueIds-snoc [] n other u = (tt, tt)
UniqueIds-snoc (m ∷ g) n other u = (
  All-append (λ k. (k.id == m.id) ≡ false) g (n ∷ []) u.0 (==-comm n.id m.id ∙ other.0, tt),
  UniqueIds-snoc g n other.1 u.1,
)

get-snoc :
    (g : Graph) (n : TaskNode)
    → All (λ m. (m.id == n.id) ≡ false) g
    → get (g ++ n ∷ []) n.id ≡ some n
unfolding get
get-snoc [] n other = ground (arith, eq_iff n.id n.id)
get-snoc (m ∷ g) n other = ground (arith, get-snoc g n other.1, other.0)

-- The node that `add` makes.
abbrev new_node : TaskNodeSpec → String → ℕ → TaskNode
new_node spec id now = record {
  id = id;
  goal = spec.goal;
  dependencies = spec.dependencies;
  priority = or_else spec.priority normal;
  deadline_ms = spec.deadline_ms;
  resource_locks = spec.resource_locks;
  exclusive = spec.exclusive;
  max_retries = spec.max_retries;
  skip_reason = none;
  deadline_exceeded = false;
  status = pending;
  attempt = 0;
  added_at = now;
}

-- Its result, by what the map has under the id.
abbrev checked : Graph → TaskNode → String → Option TaskNode → Result GraphError (Graph × TaskNode)
checked g n id none = ok (g ++ n ∷ [], n)
checked g n id (some m) = err (duplicate_node id)

-- `add` throws exactly when the graph has the id. Otherwise it appends a node of that id, pending
-- and without attempts, which is then found under its id, and the ids of a graph whose ids are
-- unique stay unique.
pub add_node_outcome :
    (g : Graph) (spec : TaskNodeSpec) (fresh : String) (now : ℕ)
    → UniqueIds g
    → let id = or_else spec.id fresh in
      ((m : TaskNode) × (get g id ≡ some m) × (add_node g spec fresh now ≡ err (duplicate_node id)))
      ⊎ ((n : TaskNode) × (get g id ≡ none)
          × (add_node g spec fresh now ≡ ok (g ++ n ∷ [], n))
          × (n.id ≡ id)
          × (n.status ≡ pending)
          × (n.attempt ≡ 0)
          × (get (g ++ n ∷ []) n.id ≡ some n)
          × UniqueIds (g ++ n ∷ []))
unfolding add_node
add_node_outcome g spec fresh now u = elim (Option-cases (get g (or_else spec.id fresh))) [
  | inl e ↦
      let n = new_node spec (or_else spec.id fresh) now in
      let other : All (λ m. (m.id == n.id) ≡ false) g = get-none g n.id e in
      inr (
        n,
        e,
        ap (checked g n (or_else spec.id fresh)) e,
        refl,
        refl,
        refl,
        get-snoc g n other,
        UniqueIds-snoc g n other u,
      )
  | inr (m, e) ↦
      inl
        (m, e, ap (checked g (new_node spec (or_else spec.id fresh) now) (or_else spec.id fresh)) e)
]
