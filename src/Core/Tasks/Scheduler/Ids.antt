-- ===== src/Core/Tasks/Scheduler/Ids.antt =====
-- The calls of src/core/tasks/scheduler.ts keep the ids of the graph.
use devagent_ts.Base.{
  ℕ, Bool, false, String, List, [], ◌∷◌, map, All, ◌==◌, leb, ◌≡◌, arith, string_eq, Bool-cases,
  Option-cases, inl, inr,
}
use devagent_ts.Core.Tasks.Graph.Nodes.{
  TaskNode, GraphNodeStatus, ready, failed, running, cancelled,
}
use devagent_ts.Core.Tasks.Graph.{Graph, get, update, move, moved}
use devagent_ts.Core.Tasks.Graph.Lookup.{id-move}
use devagent_ts.Core.Tasks.Graph.Fates.{Fates, UniqueIds, UniqueIds-Fates}
use devagent_ts.Core.Tasks.Graph.Cascade.{cascade_skip_correct}
use devagent_ts.Core.Tasks.Scheduler.{
  Scheduler, Outcome, complete, complete_node, skip_after, expire, fail_expired_nodes,
  cancel_pending, claim_next, step, Call, claims, completes, finishes, finish_claim,
}
use devagent_ts.Core.Tasks.Scheduler.Claims.{claim_next_cases, swept}

pub id-update :
    (x id : String) (f : TaskNode → TaskNode) (g : Graph)
    → ((n : TaskNode) → (f n).id ≡ n.id)
    → All (λ m. (m.id == x) ≡ false) g
    → All (λ m. (m.id == x) ≡ false) (update id f g)
unfolding update
id-update x id f [] keeps h = tt
id-update x id f (n ∷ g) keeps h = elim (Bool-cases (n.id == id)) [
  | inl e ↦ rw e (rw (keeps n) h.0, h.1)
  | inr e ↦ rw e (h.0, id-update x id f g keeps h.1)
]

pub UniqueIds-update :
    (id : String) (f : TaskNode → TaskNode) (g : Graph)
    → ((n : TaskNode) → (f n).id ≡ n.id)
    → UniqueIds g
    → UniqueIds (update id f g)
unfolding update
UniqueIds-update id f [] keeps u = tt
UniqueIds-update id f (n ∷ g) keeps u = elim (Bool-cases (n.id == id)) [
  | inl e ↦ rw (e, keeps n) u
  | inr e ↦ rw e (id-update n.id id f g keeps u.0, UniqueIds-update id f g keeps u.1)
]

pub UniqueIds-moved :
    (g : Graph) (id : String) (to : GraphNodeStatus) → UniqueIds g → UniqueIds (moved g id to)
unfolding moved
UniqueIds-moved g id to u = UniqueIds-update id (move to) g (id-move to) u

id-map :
    (x : String) (f : TaskNode → TaskNode) (g : Graph)
    → ((n : TaskNode) → (f n).id ≡ n.id)
    → All (λ m. (m.id == x) ≡ false) g
    → All (λ m. (m.id == x) ≡ false) (map f g)
id-map x f [] keeps h = tt
id-map x f (n ∷ g) keeps h = (rw (keeps n) h.0, id-map x f g keeps h.1)

UniqueIds-map :
    (f : TaskNode → TaskNode) (g : Graph)
    → ((n : TaskNode) → (f n).id ≡ n.id)
    → UniqueIds g
    → UniqueIds (map f g)
UniqueIds-map f [] keeps u = tt
UniqueIds-map f (n ∷ g) keeps u =
    (rw (keeps n) (id-map n.id f g keeps u.0), UniqueIds-map f g keeps u.1)

pub id-expire : (started now : ℕ) (n : TaskNode) → (expire started now n).id ≡ n.id
unfolding expire
id-expire started now n = ground (arith, id-move failed n)

pub UniqueIds-fail_expired_nodes :
    (started now : ℕ) (g : Graph) → UniqueIds g → UniqueIds (fail_expired_nodes started now g)
unfolding fail_expired_nodes
UniqueIds-fail_expired_nodes started now g u = UniqueIds-map _ g (id-expire started now) u

UniqueIds-cancel_pending : (g : Graph) → UniqueIds g → UniqueIds (cancel_pending g).0
unfolding cancel_pending
UniqueIds-cancel_pending g u = UniqueIds-map _ g (λ n. ground (arith, id-move cancelled n)) u

-- What a failed node's cascade does, the fuel being enough.
pub skip_after-Fates :
    (g : Graph) (from reason : String)
    → UniqueIds g
    → (causes ids : List String) × Fates causes ids reason g (skip_after g from reason)
unfolding skip_after
skip_after-Fates g from reason u =
    let (g', done, e, _, fates) = cascade_skip_correct g from reason u in
    (from ∷ done, done, rw (e, skip_after) fates)

UniqueIds-skip_after :
    (g : Graph) (from reason : String) → UniqueIds g → UniqueIds (skip_after g from reason)
UniqueIds-skip_after g from reason u =
    let (causes, ids, fates) = skip_after-Fates g from reason u in
    UniqueIds-Fates causes ids reason g _ fates u

module _ (reason : TaskNode → String) where
  UniqueIds-complete_node :
      (g : Graph) (n : TaskNode) (o : Outcome)
      → UniqueIds g
      → UniqueIds (complete_node reason g n o)
  unfolding complete_node
  UniqueIds-complete_node g n Outcome.success u = UniqueIds-moved g n.id _ u
  UniqueIds-complete_node g n Outcome.blocked u = UniqueIds-moved g n.id _ u
  UniqueIds-complete_node g n Outcome.failure u = elim (Bool-cases (leb n.attempt n.max_retries)) [
    | inl e ↦
        rw e (UniqueIds-moved (moved g n.id failed) n.id ready (UniqueIds-moved g n.id failed u))
    | inr e ↦ rw e (
        UniqueIds-skip_after (moved g n.id failed) n.id (reason n)
          (UniqueIds-moved g n.id failed u))
  ]

  UniqueIds-complete :
      (g : Graph) (id : String) (o : Outcome) → UniqueIds g → UniqueIds (complete reason g id o)
  unfolding complete
  UniqueIds-complete g id o u = elim (Option-cases (get g id)) [
    | inl e ↦ rw (e, complete) u
    | inr (n, e) ↦ rw (e, complete) (UniqueIds-complete_node g n o u)
  ]

  UniqueIds-claim_next :
      (aborted : Bool) (now : ℕ) (s : Scheduler)
      → UniqueIds s.graph
      → UniqueIds (claim_next aborted now s).0.graph
  UniqueIds-claim_next aborted now s u =
      let swept_u : UniqueIds (swept s now).graph =
        UniqueIds-fail_expired_nodes s.started_at now s.graph u in
      elim (claim_next_cases aborted now s swept_u) [
        | inl e ↦ rw e (UniqueIds-cancel_pending s.graph u)
        | inr (inl e) ↦ rw e u
        | inr (inr (inl e)) ↦ rw e swept_u
        | inr (inr (inr (_, _, _, granted))) ↦ rw granted.result (
            UniqueIds-moved (moved (swept s now).graph granted.node.id ready) granted.node.id
              running (UniqueIds-moved (swept s now).graph granted.node.id ready swept_u))
      ]

  pub UniqueIds-step :
      (s : Scheduler) (c : Call) → UniqueIds s.graph → UniqueIds (step reason s c).graph
  unfolding step finish_claim
  UniqueIds-step s (claims aborted now) u = UniqueIds-claim_next aborted now s u
  UniqueIds-step s (completes id o) u = UniqueIds-complete s.graph id o u
  UniqueIds-step s (finishes release) u = u
