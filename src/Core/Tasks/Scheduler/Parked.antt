-- ===== src/Core/Tasks/Scheduler/Parked.antt =====
-- Nodes that have left the states `pending` and `running`, under the calls of
-- src/core/tasks/scheduler.ts.
use devagent_ts.Base.{
  ap, ℕ, ◌≤◌, Bool, true, not, some, String, List, [], ◌∷◌, map, includes, if◌then◌else◌, ◌==◌, leb,
  ◌≡◌, inl, inr, refl, ◌∙◌, arith, string_eq, eq_iff, Bool-cases, Option-cases,
}
use devagent_ts.Core.Tasks.Graph.Nodes.{
  TaskNode, GraphNodeStatus, status_eq, pending, ready, running, failed, completed, cancelled,
  transitions,
}
use devagent_ts.Core.Tasks.Graph.{Graph, get, move, moved}
use devagent_ts.Core.Tasks.Graph.Lookup.{id-get, get-moved, get-moved_retry, map_node, id-move}
use devagent_ts.Core.Tasks.Graph.Fates.{Fates, kept, skips, UniqueIds}
use devagent_ts.Core.Tasks.Scheduler.{
  Registry, Scheduler, Outcome, complete, complete_node, skip_after, expire, is_expired,
  fail_expired_nodes, cancel_pending, claim_next, step, run, Call, claims, completes, finishes,
  finish_claim,
}
use devagent_ts.Core.Tasks.Scheduler.Claims.{claim_next_cases, Runnable, swept, claimed}
use devagent_ts.Core.Tasks.Scheduler.Ids.{
  skip_after-Fates, UniqueIds-moved, UniqueIds-step, UniqueIds-fail_expired_nodes, id-expire,
}

abbrev pub is_parked : GraphNodeStatus → Bool
is_parked s = not (includes s (pending ∷ running ∷ []))

-- The node of that id is neither pending nor running, and has had that many attempts.
abbrev pub Parked : String → ℕ → Graph → Type 0
Parked j a g = (m : TaskNode) × (get g j ≡ some m) × (is_parked m.status ≡ true) × (m.attempt ≡ a)

abbrev KeepsParked : (TaskNode → TaskNode) → Type 0
KeepsParked f =
    (n : TaskNode)
    → is_parked n.status ≡ true
    → (is_parked (f n).status ≡ true) × ((f n).attempt ≡ n.attempt)

move-KeepsParked : (to : GraphNodeStatus) → is_parked to ≡ true → KeepsParked (move to)
unfolding move
move-KeepsParked to h n p = elim (Bool-cases (includes to (transitions n.status))) [
  | inl e ↦ rw e (h, ground arith)
  | inr e ↦ rw e (p, refl)
]

Parked-moved :
    (g : Graph) (id j : String) (a : ℕ) (to : GraphNodeStatus)
    → is_parked to ≡ true
    → Parked j a g
    → Parked j a (moved g id to)
Parked-moved g id j a to h (m, e, p, q) = elim (Bool-cases (id == j)) [
  | inl same ↦ (
    move to m,
    ground (arith, get-moved g id j to),
    (move-KeepsParked to h m p).0,
    (move-KeepsParked to h m p).1 ∙ q,
  )
  | inr other ↦ (m, ground (arith, get-moved g id j to), p, q)
]

pub get-map :
    (f : TaskNode → TaskNode) (g : Graph) (j : String)
    → ((n : TaskNode) → (f n).id ≡ n.id)
    → get (map f g) j ≡ map_node f (get g j)
unfolding get
get-map f [] j keeps = refl
get-map f (n ∷ g) j keeps = ground (arith, get-map f g j keeps, keeps n)

Parked-map :
    (f : TaskNode → TaskNode) (g : Graph) (j : String) (a : ℕ)
    → ((n : TaskNode) → (f n).id ≡ n.id)
    → KeepsParked f
    → Parked j a g
    → Parked j a (map f g)
Parked-map f g j a keeps parks (m, e, p, q) =
    (f m, ground (arith, get-map f g j keeps), (parks m p).0, (parks m p).1 ∙ q)

expire-KeepsParked : (started now : ℕ) → KeepsParked (expire started now)
unfolding expire
expire-KeepsParked started now n p = elim (Bool-cases (is_expired started now n)) [
  | inl e ↦ rw e (move-KeepsParked failed refl n p)
  | inr e ↦ rw e (p, refl)
]

Parked-fail_expired_nodes :
    (started now : ℕ) (g : Graph) (j : String) (a : ℕ)
    → Parked j a g
    → Parked j a (fail_expired_nodes started now g)
unfolding fail_expired_nodes
Parked-fail_expired_nodes started now g j a p =
    Parked-map _ g j a (id-expire started now) (expire-KeepsParked started now) p

cancel-KeepsParked : (b : TaskNode → Bool) → KeepsParked (λ n. if b n then move cancelled n else n)
cancel-KeepsParked b n p = elim (Bool-cases (b n)) [
  | inl e ↦ rw e (move-KeepsParked cancelled refl n p)
  | inr e ↦ rw e (p, refl)
]

Parked-cancel_pending :
    (g : Graph) (j : String) (a : ℕ) → Parked j a g → Parked j a (cancel_pending g).0
unfolding cancel_pending
Parked-cancel_pending g j a p =
    Parked-map _ g j a (λ n. ground (arith, id-move cancelled n)) (cancel-KeepsParked _) p

Parked-Fates :
    (causes ids : List String) (reason : String) (g h : Graph) (j : String) (a : ℕ)
    → Fates causes ids reason g h
    → Parked j a g
    → Parked j a h
unfolding get
Parked-Fates causes ids reason [] h j a f (m, e, p, q) = absurd cc
Parked-Fates causes ids reason (n ∷ g) [] j a f p = absurd f
Parked-Fates causes ids reason (n ∷ g) (k ∷ h) j a (kept same, f) (m, e, p, q) =
    elim (Bool-cases (n.id == j)) [
      | inl here ↦ (m, ground arith, p, q)
      | inr there ↦
          let (m', e', p', q') = Parked-Fates causes ids reason g h j a f (m, ground arith, p, q) in
          (m', ground arith, p', q')
    ]
Parked-Fates causes ids reason (n ∷ g) (k ∷ h) j a (skips c x y z w same, f) (m, e, p, q) =
    elim (Bool-cases (n.id == j)) [
      | inl here ↦ (k, ground arith, ground arith, ground arith)
      | inr there ↦
          let (m', e', p', q') = Parked-Fates causes ids reason g h j a f (m, ground arith, p, q) in
          (m', ground arith, p', q')
    ]

Parked-skip_after :
    (g : Graph) (from reason j : String) (a : ℕ)
    → UniqueIds g
    → Parked j a g
    → Parked j a (skip_after g from reason)
Parked-skip_after g from reason j a u p =
    let (causes, ids, fates) = skip_after-Fates g from reason u in
    Parked-Fates causes ids reason g _ j a fates p

-- Only a pending node is claimed.
Parked-claimed :
    (s : Scheduler) (n : TaskNode) (locks : Registry) (j : String) (a : ℕ)
    → Runnable s.graph n
    → Parked j a s.graph
    → Parked j a (claimed s n locks).graph
Parked-claimed s n locks j a (own, runnable) (m, e, p, q) = elim (Bool-cases (n.id == j)) [
  | inl same ↦ absurd (ground (arith, eq_iff n.id j))
  | inr other ↦ (
    m,
    ground (
      arith,
      get-moved s.graph n.id j ready,
      get-moved (moved s.graph n.id ready) n.id j running,
    ),
    p,
    q,
  )
]

Parked-claim_next :
    (aborted : Bool) (now : ℕ) (s : Scheduler) (j : String) (a : ℕ)
    → UniqueIds s.graph
    → Parked j a s.graph
    → Parked j a (claim_next aborted now s).0.graph
Parked-claim_next aborted now s j a u p =
    let swept_p : Parked j a (swept s now).graph =
      Parked-fail_expired_nodes s.started_at now s.graph j a p in
    let swept_u : UniqueIds (swept s now).graph =
      UniqueIds-fail_expired_nodes s.started_at now s.graph u in
    elim (claim_next_cases aborted now s swept_u) [
      | inl e ↦ rw e (Parked-cancel_pending s.graph j a p)
      | inr (inl e) ↦ rw e p
      | inr (inr (inl e)) ↦ rw e swept_p
      | inr (inr (inr (_, _, _, granted))) ↦
          rw granted.result
            (Parked-claimed (swept s now) granted.node granted.locks j a granted.holds swept_p)
    ]

module _ (reason : TaskNode → String) where
  Parked-complete_node :
      (g : Graph) (n : TaskNode) (o : Outcome) (j : String) (a : ℕ)
      → UniqueIds g
      → Parked j a g
      → Parked j a (complete_node reason g n o)
  unfolding complete_node
  Parked-complete_node g n Outcome.success j a u p = Parked-moved g n.id j a completed refl p
  Parked-complete_node g n Outcome.blocked j a u p =
      Parked-moved g n.id j a GraphNodeStatus.blocked refl p
  Parked-complete_node g n Outcome.failure j a u p =
      elim (Bool-cases (leb n.attempt n.max_retries)) [
        | inl e ↦ rw e (
            Parked-moved (moved g n.id failed) n.id j a ready refl
              (Parked-moved g n.id j a failed refl p))
        | inr e ↦ rw e (
            Parked-skip_after (moved g n.id failed) n.id (reason n) j a
              (UniqueIds-moved g n.id failed u) (Parked-moved g n.id j a failed refl p))
      ]

  Parked-complete :
      (g : Graph) (id : String) (o : Outcome) (j : String) (a : ℕ)
      → UniqueIds g
      → Parked j a g
      → Parked j a (complete reason g id o)
  unfolding complete
  Parked-complete g id o j a u p = elim (Option-cases (get g id)) [
    | inl e ↦ rw (e, complete) p
    | inr (n, e) ↦ rw (e, complete) (Parked-complete_node g n o j a u p)
  ]

  Parked-step :
      (s : Scheduler) (c : Call) (j : String) (a : ℕ)
      → UniqueIds s.graph
      → Parked j a s.graph
      → Parked j a (step reason s c).graph
  unfolding step finish_claim
  Parked-step s (claims aborted now) j a u p = Parked-claim_next aborted now s j a u p
  Parked-step s (completes id o) j a u p = Parked-complete s.graph id o j a u p
  Parked-step s (finishes release) j a u p = p

  Parked-run :
      (s : Scheduler) (cs : List Call) (j : String) (a : ℕ)
      → UniqueIds s.graph
      → Parked j a s.graph
      → Parked j a (run reason s cs).graph
  unfolding run
  Parked-run s [] j a u p = p
  Parked-run s (c ∷ cs) j a u p =
      Parked-run (step reason s c) cs j a (UniqueIds-step reason s c u) (Parked-step s c j a u p)

  complete_failure :
      (g : Graph) (id : String) (n : TaskNode)
      → get g id ≡ some n
      → n.status ≡ running
      → n.attempt ≤ n.max_retries
      → complete reason g id Outcome.failure ≡ moved (moved g id failed) id ready
  unfolding complete complete_node
  complete_failure g id n e r budget =
      let same : n.id ≡ id = id-get g id n e in
      let left : leb n.attempt n.max_retries ≡ true = ground arith in
      rw (e, complete, left, same) refl

  move_failed : (n : TaskNode) → n.status ≡ running → move failed n ≡ record n { status = failed }
  unfolding move
  move_failed n h = ground arith

  -- When a running node of a graph fails and has attempts left, `complete` makes it ready, and
  -- then no series of calls of the scheduler, whatever the executor claims, completes and
  -- releases, makes it pending or running again: its count of attempts stays what it was.
  pub retried_never_runs :
      (s : Scheduler) (id : String) (n : TaskNode) (cs : List Call)
      → UniqueIds s.graph
      → get s.graph id ≡ some n
      → n.status ≡ running
      → n.attempt ≤ n.max_retries
      → (get (step reason s (completes id Outcome.failure)).graph id
          ≡ some (record n { status = ready }))
        × Parked id n.attempt (run reason s (completes id Outcome.failure ∷ cs)).graph
  unfolding step run
  retried_never_runs s id n cs u e r budget =
      let first : get (moved s.graph id failed) id ≡ some (record n { status = failed }) =
        ground (arith, get-moved s.graph id id failed, eq_iff id id, move_failed n) in
      let second : get (step reason s (completes id Outcome.failure)).graph id
          ≡ some (record n { status = ready }) =
        ap (λ gr. get gr id) (complete_failure s.graph id n e r budget)
        ∙ get-moved_retry (moved s.graph id failed) id (record n { status = failed }) first refl in
      (
        second,
        Parked-run (step reason s (completes id Outcome.failure)) cs id n.attempt
            (UniqueIds-step reason s (completes id Outcome.failure) u)
            (record n { status = ready }, second, refl, refl),
      )
