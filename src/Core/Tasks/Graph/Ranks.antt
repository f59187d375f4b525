-- ===== src/Core/Tasks/Graph/Ranks.antt =====
-- Orders of a graph's nodes, and ranks below which dependencies stand, for `topologicalOrder` of
-- src/core/tasks/task-graph.ts.
use devagent_ts.Base.{
  ℕ, ◌≤◌, ◌<◌, Bool, true, false, not, ◌||◌, none, some, String, string_eq, List, [], ◌∷◌, ◌++◌,
  all, includes, count, ◌==◌, ◌≡◌, refl, sym, ap, ◌∙◌, arith, ==-refl, ==-eq, Bool-cases, inl, inr,
  All,
}
use mathlib.Core.Path.{subst}
use devagent_ts.Core.Tasks.Graph.Nodes.{TaskNode}
use devagent_ts.Core.Tasks.Graph.{Graph, get}
use devagent_ts.Core.Tasks.Graph.Order.{dependencies_of, supported}

pub all_of :
    (p : String → Bool) (xs : List String)
    → ((x : String) → includes x xs ≡ true → p x ≡ true)
    → all p xs ≡ true
all_of p [] h = refl
all_of p (x ∷ xs) h =
    let here : p x ≡ true = h x (rw (==-refl x) refl) in
    let rest : all p xs ≡ true = all_of p xs (λ y k. h y (ground (arith, k))) in
    rw (here, rest) refl

pub supported-snoc :
    (g : Graph) (earlier ids : List String) (id : String)
    → supported g earlier ids ≡ true
    → includes id earlier ≡ false
    → includes id ids ≡ false
    → ((d : String)
        → includes d (dependencies_of g id) ≡ true
        → (includes d earlier || includes d ids) ≡ true)
    → supported g earlier (ids ++ id ∷ []) ≡ true
supported-snoc g earlier [] id h k l deps =
    let below : all (λ d. includes d earlier) (dependencies_of g id) ≡ true =
      all_of (λ d. includes d earlier) (dependencies_of g id) (λ d m. ground (arith, deps d m)) in
    rw (k, below) refl
supported-snoc g earlier (i ∷ ids) id h k l deps =
    let other : (i == id) ≡ false = ground (arith, l) in
    let later =
      supported-snoc g (i ∷ earlier) ids id (ground (arith, h)) (ground (arith, k, other))
        (ground (arith, l)) (λ d m. ground (arith, deps d m)) in
    ground (arith, h, later)

-- Nodes that are not seen yet.
abbrev pub unseen : Graph → List String → ℕ
unseen g seen = count (λ n. not (includes n.id seen)) g

pub unseen_fewer :
    (g : Graph) (seen more : List String)
    → ((x : String) → includes x seen ≡ true → includes x more ≡ true)
    → unseen g more ≤ unseen g seen
unseen_fewer [] seen more h = omega arith
unseen_fewer (n ∷ g) seen more h = ground (arith, h n.id, unseen_fewer g seen more h)

pub unseen_marked :
    (g : Graph) (id : String) (seen : List String) (n : TaskNode)
    → get g id ≡ some n
    → includes id seen ≡ false
    → unseen g (id ∷ seen) < unseen g seen
unfolding get
unseen_marked [] id seen n h k = cc h
unseen_marked (m ∷ g) id seen n h k =
    let fewer : unseen g (id ∷ seen) ≤ unseen g seen =
      unseen_fewer g seen (id ∷ seen) (λ x q. ground (arith, q)) in
    elim (Bool-cases (m.id == id)) [
      | inl y ↦
          let same : m.id ≡ id = ==-eq m.id id y in
          let was : includes m.id seen ≡ false = ap (λ i. includes i seen) same ∙ k in
          let is : (id == m.id) ≡ true = ap (λ i. id == i) same ∙ ==-refl id in
          rw (was, is) (omega (arith, fewer))
      | inr o ↦ ground (arith, fewer, unseen_marked g id seen n (ground (arith, h, o)) k)
    ]

-- The dependencies of every node have a lower rank: the graph has no cycle.
abbrev pub IsRanked : (String → ℕ) → Graph → Type 0
IsRanked rank g = All (λ n. All (λ d. rank d < rank n.id) n.dependencies) g

pub dependencies_found :
    (g : Graph) (m : TaskNode) (id : String)
    → (m.id == id) ≡ true
    → dependencies_of (m ∷ g) id ≡ m.dependencies
unfolding get
dependencies_found g m id h = rw (h, dependencies_of) refl

pub dependencies_later :
    (g : Graph) (m : TaskNode) (id : String)
    → (m.id == id) ≡ false
    → dependencies_of (m ∷ g) id ≡ dependencies_of g id
unfolding get
dependencies_later g m id h = rw (h, dependencies_of) refl

pub dependencies_none : (g : Graph) (id : String) → get g id ≡ none → dependencies_of g id ≡ []
dependencies_none g id h = rw (h, dependencies_of) refl

pub dependencies_ranked :
    (rank : String → ℕ) (g : Graph) (id : String)
    → IsRanked rank g
    → All (λ d. rank d < rank id) (dependencies_of g id)
unfolding get
dependencies_ranked rank [] id h = tt
dependencies_ranked rank (m ∷ g) id h = elim (Bool-cases (m.id == id)) [
  | inl y ↦
      subst (λ ds. All (λ d. rank d < rank id) ds) (sym (dependencies_found g m id y))
        (subst (λ i. All (λ d. rank d < rank i) m.dependencies) (==-eq m.id id y) h.0)
  | inr o ↦
      subst (λ ds. All (λ d. rank d < rank id) ds) (sym (dependencies_later g m id o))
        (dependencies_ranked rank g id h.1)
]
