-- ===== src/Core/Tasks/Scheduler/Workers.antt =====
-- The workers of `drain`, src/core/tasks/scheduler.ts: each claims a node, applies the outcome of
-- the executor and then calls the release function, without a pause between the last two.
use devagent_ts.Base.{
  ap, sym, ℕ, suc, ◌≤◌, Bool, true, false, ◌||◌, none, some, String, List, [], ◌∷◌, includes,
  length, if◌then◌else◌, ◌==◌, ◌≡◌, inl, inr, refl, ◌∙◌, arith, string_eq, Bool-cases, ==-eq,
}
use devagent_ts.Core.Tasks.Graph.Nodes.{TaskNode}
use devagent_ts.Core.Tasks.Graph.{Graph}
use devagent_ts.Core.Tasks.Graph.Fates.{UniqueIds}
use devagent_ts.Core.Concurrency.Locks.{Release}
use devagent_ts.Core.Tasks.Scheduler.{
  Scheduler, scheduler, Outcome, Claim, claims, completes, finishes, complete, claim_next, step,
  finish_claim,
}
use devagent_ts.Core.Tasks.Scheduler.Claims.{claim_next_cases, swept}
use devagent_ts.Core.Tasks.Scheduler.Ids.{UniqueIds-step, UniqueIds-fail_expired_nodes}
use devagent_ts.Core.Tasks.Scheduler.Running.{
  runs, fail_expired_nodes-StartsNone, cancel_pending-StartsNone, complete-Ends, claimed-runs,
}

-- What a worker does: it claims, or the executor of a node has ended.
pub data Turn : Type 0 where
  claims_next : Bool → ℕ → Turn
  ends_node : String → Outcome → Release → Turn

-- The ids of the nodes that workers have in hand.
abbrev pub taken : Claim → List String → List String
taken none out = out
taken (some (id, release)) out = id ∷ out

abbrev pub without : String → List String → List String
without id [] = []
without id (x ∷ xs) = let rest = without id xs in if x == id then xs else x ∷ rest

includes-without :
    (id j : String) (l : List String) → (id == j) ≡ false → includes j (without id l) ≡ includes j l
includes-without id j [] h = refl
includes-without id j (x ∷ l) h = elim (Bool-cases (x == id)) [
  | inl y ↦ let other : (x == j) ≡ false = ap (λ i. i == j) (==-eq x id y) ∙ h in rw (y, other) refl
  | inr n ↦ rw n (ap (λ b. (x == j) || b) (includes-without id j l h))
]

length-without :
    (id : String) (l : List String) → includes id l ≡ true → suc (length (without id l)) ≡ length l
length-without id [] h = cc h
length-without id (x ∷ l) h = elim (Bool-cases (x == id)) [
  | inl y ↦ rw y refl
  | inr n ↦
      let later : includes id l ≡ true = rw n at h in rw n (ap suc (length-without id l later))
]

-- The nodes in hand are counted, and every running node is one of them.
record Manned (max : ℕ) (s : Scheduler) (out : List String) : Type 0 where
  unique : UniqueIds s.graph
  same_limit : s.max_parallel ≡ max
  counted : s.in_flight ≡ length out
  bounded : s.in_flight ≤ max
  in_hand : (j : String) → runs j s.graph ≡ true → includes j out ≡ true

module _ (reason : TaskNode → String) where
  abbrev pub turn : Turn → Scheduler × List String → Scheduler × List String
  turn (claims_next aborted now) (s, out) =
      (step reason s (claims aborted now), taken (claim_next aborted now s).1 out)
  turn (ends_node id o release) (s, out) =
      if includes id out
      then (step reason (step reason s (completes id o)) (finishes release), without id out)
      else (s, out)

  abbrev pub run_turns : List Turn → Scheduler × List String → Scheduler × List String
  run_turns [] p = p
  run_turns (t ∷ ts) p = run_turns ts (turn t p)

  claims-Manned :
      (max : ℕ) (aborted : Bool) (now : ℕ) (s : Scheduler) (out : List String)
      → Manned max s out
      → Manned max (claim_next aborted now s).0 (taken (claim_next aborted now s).1 out)
  unfolding step
  claims-Manned max aborted now s out v =
      let u : UniqueIds (claim_next aborted now s).0.graph =
        UniqueIds-step reason s (claims aborted now) v.unique in
      let quiet = fail_expired_nodes-StartsNone s.started_at now s.graph in
      elim (claim_next_cases aborted now s
        (UniqueIds-fail_expired_nodes s.started_at now s.graph v.unique)) [
          | inl q ↦ rw q (record {
            unique = rw q at u;
            same_limit = v.same_limit;
            counted = v.counted;
            bounded = v.bounded;
            in_hand = λ j p. v.in_hand j (cancel_pending-StartsNone s.graph j p);
          })
          | inr (inl q) ↦ rw q v
          | inr (inr (inl q)) ↦ rw q (record {
            unique = rw q at u;
            same_limit = v.same_limit;
            counted = v.counted;
            bounded = v.bounded;
            in_hand = λ j p. v.in_hand j (quiet j p);
          })
          | inr (inr (inr (room, _, shared, granted))) ↦ rw granted.result (record {
            unique = rw granted.result at u;
            same_limit = v.same_limit;
            counted = ap suc v.counted;
            bounded = omega (arith, room, v.same_limit);
            in_hand = λ j p. elim (Bool-cases (granted.node.id == j)) [
              | inl here ↦ rw here refl
              | inr other ↦ rw other (
                  v.in_hand j
                    (quiet j (claimed-runs (swept s now) granted.node granted.locks j p other)))
            ];
          })
        ]

  ends-Manned :
      (max : ℕ) (s : Scheduler) (out : List String) (id : String) (o : Outcome) (release : Release)
      → includes id out ≡ true
      → Manned max s out
      → Manned max
          (step reason (step reason s (completes id o)) (finishes release))
          (without id out)
  unfolding step finish_claim
  ends-Manned max s out id o release there v =
      let (none_started, ended) = complete-Ends reason s.graph id o v.unique in
      let fewer = length-without id out there in
      record {
        unique = UniqueIds-step reason s (completes id o) v.unique;
        same_limit = v.same_limit;
        counted = omega (arith, fewer, v.counted);
        bounded = omega (arith, v.bounded);
        in_hand = λ j p. elim (Bool-cases (id == j)) [
          | inl here ↦
              let gone =
                ap (λ i. runs i (complete reason s.graph id o)) (sym (==-eq id j here)) ∙ ended in
              cc (gone, p)
          | inr other ↦ includes-without id j out other ∙ v.in_hand j (none_started j p)
        ];
      }

  turn-Manned :
      (max : ℕ) (t : Turn) (s : Scheduler) (out : List String)
      → Manned max s out
      → Manned max (turn t (s, out)).0 (turn t (s, out)).1
  unfolding step
  turn-Manned max (claims_next aborted now) s out v = claims-Manned max aborted now s out v
  turn-Manned max (ends_node id o release) s out v = elim (Bool-cases (includes id out)) [
    | inl y ↦ rw y (ends-Manned max s out id o release y v)
    | inr n ↦ rw n v
  ]

  run-Manned :
      (max : ℕ) (ts : List Turn) (s : Scheduler) (out : List String)
      → Manned max s out
      → Manned max (run_turns ts (s, out)).0 (run_turns ts (s, out)).1
  run-Manned max [] s out v = v
  run-Manned max (t ∷ ts) s out v =
      run-Manned max ts (turn t (s, out)).0 (turn t (s, out)).1 (turn-Manned max t s out v)

  -- On a graph whose ids are those of a map and in which no node is running, under any
  -- interleaving of workers of a new scheduler that claim nodes and, when the executor of one of
  -- theirs has given an outcome, apply it and release the claim: every node that is running in
  -- the graph is in the hand of a worker, at most `maxParallel` nodes are in hand, and the counter
  -- of nodes in flight is their number.
  pub run-workers_limit :
      (g : Graph) (max_parallel now : ℕ) (ts : List Turn)
      → UniqueIds g
      → ((j : String) → runs j g ≡ false)
      → let (s, out) = run_turns ts (scheduler g max_parallel now, []) in
        ((j : String) → runs j s.graph ≡ true → includes j out ≡ true)
        × (length out ≤ max_parallel)
        × (s.in_flight ≡ length out)
  run-workers_limit g max_parallel now ts u idle =
      let v = run-Manned max_parallel ts (scheduler g max_parallel now) [] (record {
        unique = u;
        same_limit = refl;
        counted = refl;
        bounded = omega arith;
        in_hand = λ j p. let not_there = idle j in cc (not_there, p);
      }) in
      (v.in_hand, omega (arith, v.counted, v.bounded), v.counted)
