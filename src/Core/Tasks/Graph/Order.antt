-- ===== src/Core/Tasks/Graph/Order.antt =====
-- `topologicalOrder`, src/core/tasks/task-graph.ts.
use devagent_ts.Base.{
  ℕ, zero, suc, Bool, true, false, not, ◌&&◌, none, some, String, string_eq, List, [], ◌∷◌, ◌++◌,
  all, includes, length, map, each_of,
}
use devagent_ts.Core.Tasks.Graph.{Graph, get}

-- this.nodes.get(id)?.dependencies ?? []
abbrev pub dependencies_of : Graph → String → List String
dependencies_of g id = elim (get g id) [ none ↦ [] | some n ↦ n.dependencies ]

-- `visit` on fuel, on the ids seen and the order so far.
unfoldable pub visit : Graph → ℕ → String → List String × List String → List String × List String
visit g zero id s = s
visit g (suc fuel) id s = elim (includes id s.0) [
  | true ↦ s
  | false ↦
      let t = each_of (visit g fuel) (dependencies_of g id) (id ∷ s.0, s.1) in (t.0, t.1 ++ id ∷ [])
]

-- A call of `visit` on an id that is not seen marks it, so that no more calls are nested than one
-- more than the nodes.
unfoldable pub topological_order : Graph → List String
topological_order g = (each_of (visit g (suc (length g))) (map (λ n. n.id) g) ([], [])).1

-- Each id stands once, after everything it depends on, where `earlier` stands before them all.
abbrev pub supported : Graph → List String → List String → Bool
supported g earlier [] = true
supported g earlier (id ∷ ids) =
    not (includes id earlier)
    && all (λ d. includes d earlier) (dependencies_of g id)
    && supported g (id ∷ earlier) ids
