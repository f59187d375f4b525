-- ===== src/Core/Tasks/Graph/Visits.antt =====
-- What the nested calls of `visit` in `topologicalOrder` do, src/core/tasks/task-graph.ts.
use devagent_ts.Base.{
  ℕ, suc, ◌≤◌, ◌<◌, true, false, String, string_eq, List, [], ◌∷◌, ◌++◌, includes, includes-append,
  each_of, ◌==◌, ◌≡◌, refl, sym, ap, ◌∙◌, arith, ==-refl, ==-eq, Bool-cases, Option-cases, inl, inr,
  All,
}
use mathlib.Core.Path.{subst}
use devagent_ts.Core.Tasks.Graph.{Graph, get}
use devagent_ts.Core.Tasks.Graph.Order.{dependencies_of, visit, supported}
use devagent_ts.Core.Tasks.Graph.Ranks.{
  dependencies_ranked, unseen_marked, dependencies_none, IsRanked, supported-snoc, unseen_fewer,
  unseen,
}

-- What a visit, or a series of them, makes of the ids seen and the order: both grow, the order
-- stays one that is supported, of ids seen, and what is seen now and not in the order was so
-- before.
pub record Visited (g : Graph) (s t : List String × List String) : Type 0 where
  pub seen_more : (x : String) → includes x s.0 ≡ true → includes x t.0 ≡ true
  pub more : (x : String) → includes x s.1 ≡ true → includes x t.1 ≡ true
  pub seen_all : (x : String) → includes x t.1 ≡ true → includes x t.0 ≡ true
  pub ordered : supported g [] t.1 ≡ true
  pub was_open :
      (x : String)
      → includes x t.0 ≡ true
      → includes x t.1 ≡ false
      → (includes x s.0 ≡ true) × (includes x s.1 ≡ false)
  pub stays_open :
      (x : String) → includes x s.0 ≡ true → includes x s.1 ≡ false → includes x t.1 ≡ false

-- The ids that are seen and not yet in the order have ranks above `k`.
abbrev pub OpenAbove : (String → ℕ) → ℕ → List String × List String → Type 0
OpenAbove rank k s = (x : String) → includes x s.0 ≡ true → includes x s.1 ≡ false → k < rank x

pub record IsReady (g : Graph) (fuel : ℕ) (s : List String × List String) : Type 0 where
  pub enough : unseen g s.0 < fuel
  pub seen_all : (x : String) → includes x s.1 ≡ true → includes x s.0 ≡ true
  pub ordered : supported g [] s.1 ≡ true

-- What `visit` does for an id below the open ones.
abbrev pub VisitsWell : (String → ℕ) → Graph → ℕ → Type 0
VisitsWell rank g fuel =
    (id : String) (s : List String × List String)
    → IsReady g fuel s
    → OpenAbove rank (rank id) s
    → Visited g s (visit g fuel id s) × (includes id (visit g fuel id s).1 ≡ true)

pub Visited-none :
    (g : Graph) (s : List String × List String)
    → ((x : String) → includes x s.1 ≡ true → includes x s.0 ≡ true)
    → supported g [] s.1 ≡ true
    → Visited g s s
Visited-none g s all_seen is = record {
  seen_more = λ x h. h;
  more = λ x h. h;
  seen_all = all_seen;
  ordered = is;
  was_open = λ x h k. (h, k);
  stays_open = λ x h k. k;
}

pub Visited-trans :
    (g : Graph) (s t u : List String × List String) → Visited g s t → Visited g t u → Visited g s u
Visited-trans g s t u a b = record {
  seen_more = λ x h. b.seen_more x (a.seen_more x h);
  more = λ x h. b.more x (a.more x h);
  seen_all = b.seen_all;
  ordered = b.ordered;
  was_open = λ x h k. let (p, q) = b.was_open x h k in a.was_open x p q;
  stays_open = λ x h k. b.stays_open x (a.seen_more x h) (a.stays_open x h k);
}

pub IsReady-Visited :
    (g : Graph) (fuel : ℕ) (s t : List String × List String)
    → IsReady g fuel s
    → Visited g s t
    → IsReady g fuel t
IsReady-Visited g fuel s t r v = record {
  enough = omega (arith, r.enough, unseen_fewer g s.0 t.0 v.seen_more);
  seen_all = v.seen_all;
  ordered = v.ordered;
}

pub visit_each :
    (rank : String → ℕ) (g : Graph) (fuel k : ℕ) (ids : List String) (s : List String × List String)
    → VisitsWell rank g fuel
    → IsReady g fuel s
    → All (λ d. rank d < k) ids
    → ((x : String) → includes x s.0 ≡ true → includes x s.1 ≡ false → k ≤ rank x)
    → Visited g s (each_of (visit g fuel) ids s)
      × ((x : String) → includes x ids ≡ true → includes x (each_of (visit g fuel) ids s).1 ≡ true)
visit_each rank g fuel k [] s well r below above =
    (Visited-none g s r.seen_all r.ordered, λ x h. cc h)
visit_each rank g fuel k (id ∷ ids) s well r below above =
    let t = visit g fuel id s in
    let (first, hit) = well id s r (λ x h m. omega (arith, below.0, above x h m)) in
    let (rest, hits) =
      visit_each rank g fuel k ids t well (IsReady-Visited g fuel s t r first) below.1
        (λ x h m. let (p, q) = first.was_open x h m in above x p q) in
    (
      Visited-trans g s t _ first rest,
      λ x h. elim (Bool-cases (id == x)) [
        | inl y ↦ rest.more x (ap (λ i. includes i t.1) (sym (==-eq id x y)) ∙ hit)
        | inr o ↦ hits x (ground (arith, h, o))
      ],
    )

-- The visits of the dependencies of an id that is not seen.
pub visit_dependencies :
    (rank : String → ℕ) (g : Graph) (fuel : ℕ) (id : String) (s : List String × List String)
    → IsRanked rank g
    → VisitsWell rank g fuel
    → IsReady g (suc fuel) s
    → OpenAbove rank (rank id) s
    → includes id s.0 ≡ false
    → let t = each_of (visit g fuel) (dependencies_of g id) (id ∷ s.0, s.1) in
      Visited g (id ∷ s.0, s.1) t
      × ((x : String) → includes x (dependencies_of g id) ≡ true → includes x t.1 ≡ true)
visit_dependencies rank g fuel id s ranked well r above o =
    let marked : (x : String) → includes x s.1 ≡ true → includes x (id ∷ s.0) ≡ true =
      λ x h. ground (arith, r.seen_all x h) in
    elim (Option-cases (get g id)) [
      | inl q ↦
          subst
            (λ ds.
              Visited g (id ∷ s.0, s.1) (each_of (visit g fuel) ds (id ∷ s.0, s.1))
              × ((x : String)
                  → includes x ds ≡ true
                  → includes x (each_of (visit g fuel) ds (id ∷ s.0, s.1)).1 ≡ true))
            (sym (dependencies_none g id q))
            (Visited-none g (id ∷ s.0, s.1) marked r.ordered, λ x h. cc h)
      | inr (n, q) ↦
          visit_each rank g fuel (rank id) (dependencies_of g id) (id ∷ s.0, s.1) well
            (record {
              enough = omega (arith, r.enough, unseen_marked g id s.0 n q o);
              seen_all = marked;
              ordered = r.ordered;
            })
            (dependencies_ranked rank g id ranked)
            (λ x h m. elim (Bool-cases (id == x)) [
              | inl y ↦ omega (arith, ap rank (==-eq id x y))
              | inr d ↦ omega (arith, above x (ground (arith, h, d)) m)
            ])
    ]

pub includes-snoc : (id : String) (ids : List String) → includes id (ids ++ id ∷ []) ≡ true
includes-snoc id ids = includes-append id ids (id ∷ []) ∙ ground (arith, ==-refl id)

-- The visit of an id that is not seen, from those of its dependencies.
pub finish_visit :
    (g : Graph) (id : String) (s t : List String × List String)
    → includes id s.0 ≡ false
    → includes id s.1 ≡ false
    → Visited g (id ∷ s.0, s.1) t
    → ((x : String) → includes x (dependencies_of g id) ≡ true → includes x t.1 ≡ true)
    → Visited g s (t.0, t.1 ++ id ∷ [])
finish_visit g id s t o out v deps =
    let fresh : includes id t.1 ≡ false = v.stays_open id (rw (==-refl id) refl) out in
    let here : includes id t.0 ≡ true = v.seen_more id (rw (==-refl id) refl) in
    record {
      seen_more = λ x h. v.seen_more x (ground (arith, h));
      more = λ x h. includes-append x t.1 (id ∷ []) ∙ rw (v.more x h) refl;
      seen_all = λ x h. elim (Bool-cases (id == x)) [
        | inl y ↦ ap (λ i. includes i t.0) (sym (==-eq id x y)) ∙ here
        | inr d ↦ v.seen_all x (ground (arith, h, d, includes-append x t.1 (id ∷ [])))
      ];
      ordered = supported-snoc g [] t.1 id v.ordered refl fresh (λ d m. ground (arith, deps d m));
      was_open = λ x h m.
          let apart : (id == x) ≡ false = ground (arith, m, includes-append x t.1 (id ∷ [])) in
          let absent : includes x t.1 ≡ false =
            ground (arith, m, includes-append x t.1 (id ∷ [])) in
          let (p, q) = v.was_open x h absent in (ground (arith, p, apart), q);
      stays_open = λ x h m. elim (Bool-cases (id == x)) [
        | inl y ↦
            let there : includes id s.0 ≡ true = ap (λ i. includes i s.0) (==-eq id x y) ∙ h in
            cc (o, there)
        | inr d ↦
            let absent = v.stays_open x (ground (arith, h)) m in
            includes-append x t.1 (id ∷ []) ∙ rw (absent, d) refl
      ];
    }
