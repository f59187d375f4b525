-- ===== src/Core/Tasks/Graph/Ordered.antt =====
-- What `topologicalOrder` of src/core/tasks/task-graph.ts gives on a graph without cycles.
use devagent_ts.Base.{
  All-map, ℕ, zero, suc, ◌+◌, ◌≤◌, ◌<◌, Bool, true, false, String, string_eq, List, [], ◌∷◌,
  includes, length, map, each_of, ◌≡◌, refl, arith, ==-refl, Bool-cases, inl, inr, All,
}
use devagent_ts.Core.Tasks.Graph.{Graph}
use devagent_ts.Core.Tasks.Graph.Order.{visit, topological_order, supported}
use devagent_ts.Core.Tasks.Graph.Ranks.{IsRanked, unseen}
use devagent_ts.Core.Tasks.Graph.Visits.{
  includes-snoc, finish_visit, visit_dependencies, Visited-none, visit_each, VisitsWell,
}

visit_well : (rank : String → ℕ) (g : Graph) (fuel : ℕ) → IsRanked rank g → VisitsWell rank g fuel
unfolding visit
visit_well rank g zero ranked id s r above = let never : ⊥ = omega (arith, r.enough) in absurd never
visit_well rank g (suc fuel) ranked id s r above = elim (Bool-cases (includes id s.0)) [
  | inl y ↦ elim (Bool-cases (includes id s.1)) [
    | inl z ↦ rw (y, visit) (Visited-none g s r.seen_all r.ordered, z)
    | inr z ↦ let never : ⊥ = omega (arith, above id y z) in absurd never
  ]
  | inr o ↦
      let out : includes id s.1 ≡ false = ground (arith, o, r.seen_all id) in
      let (v, deps) =
        visit_dependencies rank g fuel id s ranked (visit_well rank g fuel ranked) r above o in
      rw (o, visit) (finish_visit g id s _ o out v deps, includes-snoc id _)
]

bounded : (rank : String → ℕ) (ids : List String) → (k : ℕ) × All (λ d. rank d < k) ids
bounded rank [] = (0, tt)
bounded rank (id ∷ ids) =
    let (k, below) = bounded rank ids in
    (suc (rank id) + k, (omega arith, All-map _ _ ids (λ d h. omega (arith, h)) below))

ids_each :
    (p : String → Bool) (g : Graph)
    → ((x : String) → includes x (map (λ n. n.id) g) ≡ true → p x ≡ true)
    → All (λ n. p n.id ≡ true) g
ids_each p [] h = tt
ids_each p (n ∷ g) h =
    (h n.id (ground (arith, ==-refl n.id)), ids_each p g (λ x k. h x (ground (arith, k))))

unseen_at_first : (g : Graph) → unseen g [] ≤ length g
unseen_at_first [] = omega arith
unseen_at_first (n ∷ g) = ground (arith, unseen_at_first g)

-- On a graph without cycles `topologicalOrder` comes to its end with every node of the graph in
-- the order; each id of the order stands there once, and after everything it depends on.
pub topological_order-supported :
    (rank : String → ℕ) (g : Graph)
    → IsRanked rank g
    → (supported g [] (topological_order g) ≡ true)
      × All (λ n. includes n.id (topological_order g) ≡ true) g
unfolding topological_order
topological_order-supported rank g ranked =
    let ids = map (λ n. n.id) g in
    let fuel = suc (length g) in
    let (k, below) = bounded rank ids in
    let (v, hits) =
      visit_each rank g fuel k ids ([], []) (visit_well rank g fuel ranked)
        (record {
          enough = omega (arith, unseen_at_first g);
          seen_all = λ x h. cc h;
          ordered = refl;
        })
        below (λ x h m. cc h) in
    (v.ordered, ids_each (λ x. includes x (each_of (visit g fuel) ids ([], [])).1) g hits)
