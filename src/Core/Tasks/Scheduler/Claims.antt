-- ===== src/Core/Tasks/Scheduler/Claims.antt =====
-- What `claimNext` of src/core/tasks/scheduler.ts hands out.
use devagent_ts.Base.{
  ℕ, suc, ◌<◌, Bool, true, false, not, ◌&&◌, Option, none, some, List, [], ◌∷◌, filter, any,
  is_empty, All, ◌==◌, leb, ◌≡◌, ◌⊎◌, inl, inr, refl, ap, arith, string_eq, eq_iff, Bool-cases,
  Option-cases,
}
use devagent_ts.Core.Tasks.Graph.Nodes.{TaskNode, status_eq, pending, ready, running}
use devagent_ts.Core.Tasks.Graph.{Graph, get, moved, ready_nodes, running_nodes, deps_satisfied}
use devagent_ts.Core.Tasks.Graph.Fates.{UniqueIds}
use devagent_ts.Core.Concurrency.Locks.{Registry, Release, try_acquire}
use devagent_ts.Core.Tasks.Scheduler.{
  Scheduler, goes_before, insert, sorted, Claim, claim_node, needed_resources, claim_first,
  claim_ready, claim_next, fail_expired_nodes, cancel_pending,
}

-- On a graph whose ids are those of a map, a node is found under its id.
get_own-cons :
    (x : TaskNode) (h g : Graph)
    → All (λ m. (m.id == x.id) ≡ false) h
    → All (λ n. get g n.id ≡ some n) h
    → All (λ n. get (x ∷ g) n.id ≡ some n) h
unfolding get
get_own-cons x [] g other own = tt
get_own-cons x (n ∷ h) g other own =
    (ground (arith, eq_iff x.id n.id, eq_iff n.id x.id), get_own-cons x h g other.1 own.1)

get_own : (g : Graph) → UniqueIds g → All (λ n. get g n.id ≡ some n) g
unfolding get
get_own [] unique = tt
get_own (x ∷ g) unique =
    (ground (arith, eq_iff x.id x.id), get_own-cons x g g unique.0 (get_own g unique.1))

All-filter-true {ℓ κ} :
    {A : Type ℓ} (P : A → Type κ) (p : A → Bool) (xs : List A)
    → All P xs
    → All (λ x. P x × (p x ≡ true)) (filter p xs)
All-filter-true P p [] h = tt
All-filter-true P p (x ∷ xs) h = elim (Bool-cases (p x)) [
  | inl e ↦ rw e ((h.0, e), All-filter-true P p xs h.1)
  | inr e ↦ rw e (All-filter-true P p xs h.1)
]

All-insert {κ} :
    (P : TaskNode → Type κ) (n : TaskNode) (ns : List TaskNode)
    → P n
    → All P ns
    → All P (insert n ns)
unfolding insert
All-insert P n [] h hs = (h, tt)
All-insert P n (m ∷ ms) h hs = elim (Bool-cases (goes_before m n)) [
  | inl e ↦ rw e (hs.0, All-insert P n ms h hs.1)
  | inr e ↦ rw e (h, hs)
]

All-sorted {κ} : (P : TaskNode → Type κ) (ns : List TaskNode) → All P ns → All P (sorted ns)
unfolding sorted
All-sorted P [] h = tt
All-sorted P (n ∷ ns) h = All-insert P n (sorted ns) h.0 (All-sorted P ns h.1)

-- A node that may be claimed: it is the node of its id, pending, and its dependencies are
-- completed.
abbrev pub Runnable : Graph → TaskNode → Type 0
Runnable g n = (get g n.id ≡ some n) × ((n.status == pending && deps_satisfied g n) ≡ true)

sorted-Runnable : (g : Graph) → UniqueIds g → All (Runnable g) (sorted (ready_nodes g))
unfolding ready_nodes
sorted-Runnable g unique =
    All-sorted (Runnable g) _ (All-filter-true (λ n. get g n.id ≡ some n) _ g (get_own g unique))

-- The state after a claim of a node.
abbrev pub claimed : Scheduler → TaskNode → Registry → Scheduler
claimed s n locks = record s {
  graph = moved (moved s.graph n.id ready) n.id running;
  locks = locks;
  in_flight = suc s.in_flight;
}

-- A claim of a node that satisfies `P`, with its locks.
pub record Granted {κ} (P : TaskNode → Type κ) (s : Scheduler) (any_running : Bool)
    (r : Scheduler × Claim) : Type κ where
  pub node : TaskNode
  pub locks : Registry
  pub release : Release
  pub holds : P node
  pub isolated : (node.exclusive && any_running) ≡ false
  pub acquired : try_acquire s.locks (needed_resources s node) ≡ (locks, some release)
  pub result : r ≡ (claimed s node locks, some (node.id, release))

claim_first_cases {κ} :
    (P : TaskNode → Type κ) (s : Scheduler) (b : Bool) (ns : List TaskNode)
    → All P ns
    → (claim_first s b ns ≡ (s, none)) ⊎ Granted P s b (claim_first s b ns)
unfolding claim_first claim_node
claim_first_cases P s b [] h = inl refl
claim_first_cases P s b (n ∷ ns) h = elim (Bool-cases (n.exclusive && b)) [
  | inl e ↦ rw e (claim_first_cases P s b ns h.1)
  | inr e ↦ elim (Option-cases (try_acquire s.locks (needed_resources s n)).1) [
    | inl refused ↦ rw (e, refused) (claim_first_cases P s b ns h.1)
    | inr (release, got) ↦
        rw (e, got)
          (inr (record {
            node = n;
            locks = (try_acquire s.locks (needed_resources s n)).0;
            release = release;
            holds = h.0;
            isolated = e;
            acquired =
                ap (λ (o : Option Release). ((try_acquire s.locks (needed_resources s n)).0, o))
                  got;
            result = refl;
          }))
  ]
]

-- The state in which `claimNext` looks for a node: the expired ones are failed.
abbrev pub swept : Scheduler → ℕ → Scheduler
swept s now = record s { graph = fail_expired_nodes s.started_at now s.graph }

-- The four ways of `claimNext`.
pub claim_next_cases :
    (aborted : Bool) (now : ℕ) (s : Scheduler)
    → UniqueIds (swept s now).graph
    → (claim_next aborted now s ≡ (record s { graph = (cancel_pending s.graph).0 }, none))
      ⊎ ((claim_next aborted now s ≡ (s, none))
          ⊎ ((claim_next aborted now s ≡ (swept s now, none))
              ⊎ ((s.in_flight < s.max_parallel)
                  × (aborted ≡ false)
                  × (any (λ n. n.exclusive) (running_nodes (swept s now).graph) ≡ false)
                  × Granted
                      (Runnable (swept s now).graph)
                      (swept s now)
                      (not (is_empty (running_nodes (swept s now).graph)))
                      (claim_next aborted now s))))
unfolding claim_next claim_ready
claim_next_cases true now s unique = inl refl
claim_next_cases false now s unique = elim (Bool-cases (leb s.max_parallel s.in_flight)) [
  | inl full ↦ rw full (inr (inl refl))
  | inr free ↦ elim (Bool-cases (any (λ n. n.exclusive) (running_nodes (swept s now).graph))) [
    | inl alone ↦ rw (free, alone) (inr (inr (inl refl)))
    | inr shared ↦
        rw (free, shared)
          (elim (claim_first_cases (Runnable (swept s now).graph) (swept s now)
            (not (is_empty (running_nodes (swept s now).graph)))
            (sorted (ready_nodes (swept s now).graph)) (sorted-Runnable _ unique)) [
              | inl idle ↦ inr (inr (inl idle))
              | inr granted ↦ inr (inr (inr (ground arith, refl, refl, granted)))
            ])
  ]
]
