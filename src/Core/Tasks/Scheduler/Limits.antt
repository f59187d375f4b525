-- ===== src/Core/Tasks/Scheduler/Limits.antt =====
-- The limits that `Scheduler` of src/core/tasks/scheduler.ts keeps, and what it hands out.
use devagent_ts.Base.{
  ℕ, suc, ◌+◌, ◌≤◌, Bool, true, false, not, Option, some, none, String, List, [], ◌∷◌, any,
  is_empty, if◌then◌else◌, ◌≡◌, inl, inr, refl, sym, ap, ◌∙◌, arith, string_eq, nat_eq, eq_iff,
  ==-eq,
}
use devagent_ts.Core.Tasks.Graph.Nodes.{
  TaskNode, status_eq, pending, ready, running, transitions, is_terminal, cancelled,
}
use devagent_ts.Core.Tasks.Graph.{Graph, get, move, moved, deps_satisfied, running_nodes, settled}
use devagent_ts.Core.Tasks.Graph.Lookup.{get-moved}
use devagent_ts.Core.Tasks.Graph.Fates.{UniqueIds}
use devagent_ts.Core.Concurrency.Locks.{Registry, Release, nothing, holder, try_acquire, release}
use devagent_ts.Core.Concurrency.Locks.Exclusion.{
  IsConsistent, empty-IsConsistent, try_acquire-IsConsistent, release-IsConsistent,
}
use devagent_ts.Core.Tasks.Scheduler.{
  Scheduler, scheduler, Claim, needed_resources, cancel_pending, is_cancellable, claim_next, step,
  run, Call, claims, completes, finishes, finish_claim,
}
use devagent_ts.Core.Tasks.Scheduler.Claims.{claim_next_cases, Granted, Runnable, swept, claimed}
use mathlib.Core.Path.{subst}
use devagent_ts.Core.Tasks.Scheduler.Ids.{UniqueIds-step, UniqueIds-fail_expired_nodes}

cancelled_terminal :
    (n : TaskNode)
    → is_terminal (if is_cancellable n.status then move cancelled n else n).status ≡ true
unfolding move transitions
cancelled_terminal n = ground arith

-- After `cancelPending` every node is in a terminal state.
pub cancel_pending-settled : (g : Graph) → settled (cancel_pending g).0 ≡ true
unfolding cancel_pending settled
cancel_pending-settled [] = refl
cancel_pending-settled (n ∷ g) = ground (arith, cancelled_terminal n, cancel_pending-settled g)

move_running :
    (n : TaskNode)
    → n.status ≡ pending
    → move running (move ready n) ≡ record n { status = running; attempt = n.attempt + 1 }
unfolding move transitions
move_running n h = ground arith

get-claimed :
    (s : Scheduler) (n : TaskNode) (locks : Registry)
    → get s.graph n.id ≡ some n
    → n.status ≡ pending
    → get (claimed s n locks).graph n.id
      ≡ some (record n { status = running; attempt = n.attempt + 1 })
get-claimed s n locks e h = ground (
  arith,
  get-moved s.graph n.id n.id ready,
  get-moved (moved s.graph n.id ready) n.id n.id running,
  eq_iff n.id n.id,
  move_running n,
)

-- What a claim promises: the node was pending with its dependencies completed, it is now running
-- with one more attempt, there was room for it, its locks were free and are held by the release
-- function, and no exclusive node shares the time with it.
pub record Claimed (before : Scheduler) (after : Scheduler) (id : String) (release : Release)
    : Type 0 where
  pub node : TaskNode
  pub was_pending : (get before.graph id ≡ some node) × (node.status ≡ pending)
  pub dependencies_done : deps_satisfied before.graph node ≡ true
  pub is_running :
      get after.graph id ≡ some (record node { status = running; attempt = node.attempt + 1 })
  pub within_limit :
      (after.in_flight ≡ suc before.in_flight) × (after.in_flight ≤ after.max_parallel)
  pub holds_locks :
      try_acquire before.locks (needed_resources before node) ≡ (after.locks, some release)
  pub no_exclusive : any (λ n. n.exclusive) (running_nodes before.graph) ≡ false
  pub alone_if_exclusive : node.exclusive ≡ true → is_empty (running_nodes before.graph) ≡ true

Granted-claimed :
    (s : Scheduler)
    → (r : Scheduler × Claim) → suc s.in_flight ≤ s.max_parallel
    → any (λ n. n.exclusive) (running_nodes s.graph) ≡ false
    → (granted : Granted (Runnable s.graph) s (not (is_empty (running_nodes s.graph))) r)
    → Claimed s (claimed s granted.node granted.locks) granted.node.id granted.release
Granted-claimed s r room none_exclusive granted =
    let n = granted.node in
    let is_pending : n.status ≡ pending =
      ==-eq n.status pending (ground (arith, granted.holds.1)) in
    record {
      node = n;
      was_pending = (granted.holds.0, is_pending);
      dependencies_done = ground (arith, granted.holds.1);
      is_running = get-claimed s n granted.locks granted.holds.0 is_pending;
      within_limit = (refl, room);
      holds_locks = granted.acquired;
      no_exclusive = none_exclusive;
      alone_if_exclusive = λ h. ground (arith, granted.isolated);
    }

Granted-Claimed :
    (s : Scheduler)
    → (r : Scheduler × Claim) → suc s.in_flight ≤ s.max_parallel
    → any (λ n. n.exclusive) (running_nodes s.graph) ≡ false
    → Granted (Runnable s.graph) s (not (is_empty (running_nodes s.graph))) r
    → (s' : Scheduler) (id : String) (release : Release) → r ≡ (s', some (id, release))
    → Claimed s s' id release
Granted-Claimed s r room none_exclusive granted s' id release e =
    let n = granted.node in
    let same : (claimed s n granted.locks, some (n.id, granted.release))
        ≡ (s', some (id, release)) =
      sym granted.result ∙ e in
    let same_id : n.id ≡ id = cc in
    let same_release : granted.release ≡ release = cc in
    subst (λ t. Claimed s t id release) (ap (λ q. q.0) same)
      (subst (λ i. Claimed s (claimed s n granted.locks) i release) same_id
        (subst (λ l. Claimed s (claimed s n granted.locks) n.id l) same_release
          (Granted-claimed s r room none_exclusive granted)))

-- Where the ids are those of a map and `claimNext` hands out a node, then, in the graph in which
-- the nodes whose deadline has passed are failed, the node was pending with its dependencies
-- completed and no exclusive node was running, nor any node if this one is exclusive. Now it is
-- running with one more attempt, within the limit of nodes in flight, and its resources are
-- those that `tryAcquire` gave to the release function.
pub claim_next-Claimed :
    (aborted : Bool) (now : ℕ) (s s' : Scheduler) (id : String) (release : Release)
    → UniqueIds s.graph
    → claim_next aborted now s ≡ (s', some (id, release))
    → Claimed (swept s now) s' id release
claim_next-Claimed aborted now s s' id release u e =
    elim (claim_next_cases aborted now s
      (UniqueIds-fail_expired_nodes s.started_at now s.graph u)) [
        | inl q ↦ absurd cc
        | inr (inl q) ↦ absurd cc
        | inr (inr (inl q)) ↦ absurd cc
        | inr (inr (inr (room, _, shared, granted))) ↦
            Granted-Claimed (swept s now) _ room shared granted s' id release e
      ]

-- The invariant of a scheduler.
pub record Valid (max : ℕ) (s : Scheduler) : Type 0 where
  pub unique : UniqueIds s.graph
  pub same_limit : s.max_parallel ≡ max
  pub bounded : s.in_flight ≤ max
  pub locked : IsConsistent s.locks

try_acquire-Valid :
    (reg reg' : Registry) (rs : List String) (o : Option Release)
    → try_acquire reg rs ≡ (reg', o)
    → IsConsistent reg
    → IsConsistent reg'
try_acquire-Valid reg reg' rs o e h =
    subst (λ p. IsConsistent p.0) e (try_acquire-IsConsistent reg rs h)

claim_next-Valid :
    (max : ℕ) (aborted : Bool) (now : ℕ) (s : Scheduler)
    → Valid max s
    → let s' = (claim_next aborted now s).0 in
      (s'.max_parallel ≡ max) × (s'.in_flight ≤ max) × IsConsistent s'.locks
claim_next-Valid max aborted now s v =
    let swept_u = UniqueIds-fail_expired_nodes s.started_at now s.graph v.unique in
    elim (claim_next_cases aborted now s swept_u) [
      | inl q ↦ rw q (v.same_limit, v.bounded, v.locked)
      | inr (inl q) ↦ rw q (v.same_limit, v.bounded, v.locked)
      | inr (inr (inl q)) ↦ rw q (v.same_limit, v.bounded, v.locked)
      | inr (inr (inr (room, _, shared, granted))) ↦ rw granted.result (
        v.same_limit,
        omega (arith, room, v.same_limit),
        try_acquire-Valid s.locks granted.locks _ _ granted.acquired v.locked,
      )
    ]

-- How many claims a call hands out.
abbrev handed : Claim → ℕ
handed none = 0
handed (some c) = 1

abbrev pub handed_by : Call → Scheduler → ℕ
handed_by (claims aborted now) s = handed (claim_next aborted now s).1
handed_by (completes id o) s = 0
handed_by (finishes r) s = 0

-- Whether a call is one of a release function.
abbrev pub given_back : Call → ℕ
given_back (claims aborted now) = 0
given_back (completes id o) = 0
given_back (finishes r) = 1

abbrev pub all_given_back : List Call → ℕ
all_given_back [] = 0
all_given_back (c ∷ cs) = given_back c + all_given_back cs

module _ (reason : TaskNode → String) where
  step-Valid : (max : ℕ) (s : Scheduler) (c : Call) → Valid max s → Valid max (step reason s c)
  unfolding step finish_claim release
  step-Valid max s (claims aborted now) v =
      let (same_limit, bounded, locked) = claim_next-Valid max aborted now s v in
      record {
        unique = UniqueIds-step reason s (claims aborted now) v.unique;
        same_limit = same_limit;
        bounded = bounded;
        locked = locked;
      }
  step-Valid max s (completes id o) v = record {
    unique = UniqueIds-step reason s (completes id o) v.unique;
    same_limit = v.same_limit;
    bounded = v.bounded;
    locked = v.locked;
  }
  step-Valid max s (finishes nothing) v = record {
    unique = v.unique;
    same_limit = v.same_limit;
    bounded = omega (arith, v.bounded);
    locked = v.locked;
  }
  step-Valid max s (finishes (holder id)) v = record {
    unique = v.unique;
    same_limit = v.same_limit;
    bounded = omega (arith, v.bounded);
    locked = release-IsConsistent s.locks id v.locked;
  }

  run-Valid : (max : ℕ) (s : Scheduler) (cs : List Call) → Valid max s → Valid max (run reason s cs)
  unfolding run
  run-Valid max s [] v = v
  run-Valid max s (c ∷ cs) v = run-Valid max (step reason s c) cs (step-Valid max s c v)

  -- The claims that a series of calls hands out.
  abbrev pub handed_out : Scheduler → List Call → ℕ
  handed_out s [] = 0
  handed_out s (c ∷ cs) = handed_by c s + handed_out (step reason s c) cs

  claim_next-in_flight :
      (aborted : Bool) (now : ℕ) (s : Scheduler)
      → UniqueIds s.graph
      → (claim_next aborted now s).0.in_flight ≡ s.in_flight + handed_by (claims aborted now) s
  claim_next-in_flight aborted now s u =
      elim (claim_next_cases aborted now s
        (UniqueIds-fail_expired_nodes s.started_at now s.graph u)) [
          | inl q ↦ rw q (omega arith)
          | inr (inl q) ↦ rw q (omega arith)
          | inr (inr (inl q)) ↦ rw q (omega arith)
          | inr (inr (inr (room, _, shared, granted))) ↦ rw granted.result (omega arith)
        ]

  step-in_flight :
      (s : Scheduler) (c : Call)
      → UniqueIds s.graph
      → s.in_flight + handed_by c s ≤ (step reason s c).in_flight + given_back c
  unfolding step finish_claim
  step-in_flight s (claims aborted now) u =
      let counted = claim_next-in_flight aborted now s u in omega (arith, counted)
  step-in_flight s (completes id o) u = omega arith
  step-in_flight s (finishes r) u = omega arith

  handed_out-given_back :
      (max : ℕ) (s : Scheduler) (cs : List Call)
      → Valid max s
      → s.in_flight + handed_out s cs ≤ max + all_given_back cs
  handed_out-given_back max s [] v = omega (arith, v.bounded)
  handed_out-given_back max s (c ∷ cs) v =
      let one = step-in_flight s c v.unique in
      let rest = handed_out-given_back max (step reason s c) cs (step-Valid max s c v) in
      omega (arith, one, rest)

  -- On a graph whose ids are those of a map, after any series of calls of a new scheduler, the
  -- nodes that `claimNext` has handed out exceed the calls of the release functions that came
  -- with them by at most `maxParallel`, the counter of nodes in flight is within `maxParallel`
  -- too, and the ids are still those of a map.
  pub run-scheduler_limits :
      (g : Graph) (max_parallel now : ℕ) (cs : List Call)
      → UniqueIds g
      → let s = scheduler g max_parallel now in
        (handed_out s cs ≤ max_parallel + all_given_back cs)
        × ((run reason s cs).in_flight ≤ max_parallel)
        × UniqueIds (run reason s cs).graph
  run-scheduler_limits g max_parallel now cs u =
      let s = scheduler g max_parallel now in
      let first : Valid max_parallel s = record {
        unique = u;
        same_limit = refl;
        bounded = omega arith;
        locked = empty-IsConsistent;
      } in
      let v = run-Valid max_parallel s cs first in
      let bound = handed_out-given_back max_parallel s cs first in
      (omega (arith, bound), v.bounded, v.unique)
