-- ===== src/Core/Tasks/Scheduler/Running.antt =====
-- The nodes that run under the workers of src/core/tasks/scheduler.ts.
use devagent_ts.Base.{
  ap, sym, ℕ, Bool, true, false, Option, none, some, String, List, [], ◌∷◌, map, includes, ◌==◌,
  leb, ◌≡◌, inl, inr, refl, ◌∙◌, arith, string_eq, Bool-cases, Option-cases, ==-refl,
}
use devagent_ts.Core.Tasks.Graph.Nodes.{
  TaskNode, GraphNodeStatus, status_eq, ready, running, failed, completed, cancelled, transitions,
}
use devagent_ts.Core.Tasks.Graph.{Graph, get, move, moved}
use devagent_ts.Core.Tasks.Graph.Lookup.{id-get, get-moved, map_node, id-move}
use devagent_ts.Core.Tasks.Graph.Fates.{Fates, kept, skips, UniqueIds}
use devagent_ts.Core.Tasks.Scheduler.{
  Registry, Scheduler, Outcome, complete, complete_node, skip_after, expire, is_expired,
  fail_expired_nodes, cancel_pending,
}
use devagent_ts.Core.Tasks.Scheduler.Claims.{claimed}
use devagent_ts.Core.Tasks.Scheduler.Ids.{skip_after-Fates, UniqueIds-moved, id-expire}
use devagent_ts.Core.Tasks.Scheduler.Parked.{get-map}

abbrev pub is_running : GraphNodeStatus → Bool
is_running s = includes s (running ∷ [])

abbrev pub node_runs : Option TaskNode → Bool
node_runs none = false
node_runs (some n) = is_running n.status

-- The node of that id is running.
abbrev pub runs : String → Graph → Bool
runs j g = node_runs (get g j)

-- No node is running in the second graph that is not in the first.
abbrev pub StartsNone : Graph → Graph → Type 0
StartsNone g h = (j : String) → runs j h ≡ true → runs j g ≡ true

abbrev IsQuiet : (TaskNode → TaskNode) → Type 0
IsQuiet f = (n : TaskNode) → is_running (f n).status ≡ true → is_running n.status ≡ true

move-IsQuiet : (to : GraphNodeStatus) → is_running to ≡ false → IsQuiet (move to)
unfolding move
move-IsQuiet to h n p = elim (Bool-cases (includes to (transitions n.status))) [
  | inl e ↦ absurd (ground (arith, e))
  | inr e ↦ ground (arith, e)
]

map_node-quiet :
    (f : TaskNode → TaskNode) (o : Option TaskNode)
    → IsQuiet f
    → node_runs (map_node f o) ≡ true
    → node_runs o ≡ true
map_node-quiet f none q h = h
map_node-quiet f (some n) q h = q n h

moved-StartsNone :
    (g : Graph) (id : String) (to : GraphNodeStatus)
    → is_running to ≡ false
    → StartsNone g (moved g id to)
moved-StartsNone g id to h j p = elim (Bool-cases (id == j)) [
  | inl same ↦
      let at : get (moved g id to) j ≡ map_node (move to) (get g j) =
        get-moved g id j to ∙ rw same refl in
      map_node-quiet (move to) (get g j) (move-IsQuiet to h) (sym (ap node_runs at) ∙ p)
  | inr other ↦
      let at : get (moved g id to) j ≡ get g j = get-moved g id j to ∙ rw other refl in
      sym (ap node_runs at) ∙ p
]

map-StartsNone :
    (f : TaskNode → TaskNode) (g : Graph)
    → ((n : TaskNode) → (f n).id ≡ n.id)
    → IsQuiet f
    → StartsNone g (map f g)
map-StartsNone f g keeps q j p =
    map_node-quiet f (get g j) q (sym (ap node_runs (get-map f g j keeps)) ∙ p)

pub fail_expired_nodes-StartsNone :
    (started now : ℕ) (g : Graph) → StartsNone g (fail_expired_nodes started now g)
unfolding fail_expired_nodes expire
fail_expired_nodes-StartsNone started now g =
    map-StartsNone (expire started now) g (id-expire started now) (λ n p.
      elim (Bool-cases (is_expired started now n)) [
        | inl e ↦ move-IsQuiet failed refl n (rw e at p)
        | inr e ↦ rw e at p
      ])

pub cancel_pending-StartsNone : (g : Graph) → StartsNone g (cancel_pending g).0
unfolding cancel_pending
cancel_pending-StartsNone g =
    map-StartsNone _ g (λ n. ground (arith, id-move cancelled n))
      (λ n p. ground (arith, p, move-IsQuiet cancelled refl n))

Fates-StartsNone :
    (causes ids : List String) (reason : String) (g h : Graph)
    → Fates causes ids reason g h
    → StartsNone g h
unfolding get
Fates-StartsNone causes ids reason [] [] f j p = p
Fates-StartsNone causes ids reason [] (k ∷ h) f j p = absurd f
Fates-StartsNone causes ids reason (n ∷ g) [] f j p = absurd f
Fates-StartsNone causes ids reason (n ∷ g) (k ∷ h) (kept same, f) j p =
    ground (arith, p, same, Fates-StartsNone causes ids reason g h f j)
Fates-StartsNone causes ids reason (n ∷ g) (k ∷ h) (skips c x y z w same, f) j p =
    ground (arith, p, same, Fates-StartsNone causes ids reason g h f j)

skip_after-StartsNone :
    (g : Graph) (from reason : String) → UniqueIds g → StartsNone g (skip_after g from reason)
skip_after-StartsNone g from reason u =
    let (causes, ids, fates) = skip_after-Fates g from reason u in
    Fates-StartsNone causes ids reason g _ fates

StartsNone-trans : (g h k : Graph) → StartsNone g h → StartsNone h k → StartsNone g k
StartsNone-trans g h k a b j p = a j (b j p)

stays_ended : (g h : Graph) (j : String) → StartsNone g h → runs j g ≡ false → runs j h ≡ false
stays_ended g h j a p = elim (Bool-cases (runs j h)) [
  | inl y ↦ let still = a j y in cc (still, p)
  | inr n ↦ n
]

abbrev ends : GraphNodeStatus → Bool
ends to = includes to (completed ∷ failed ∷ GraphNodeStatus.blocked ∷ [])

node_runs-move :
    (to : GraphNodeStatus) (o : Option TaskNode)
    → ends to ≡ true
    → node_runs (map_node (move to) o) ≡ false
unfolding move transitions
node_runs-move to none h = refl
node_runs-move to (some n) h = ground (arith, h)

moved-ends :
    (g : Graph) (id : String) (to : GraphNodeStatus)
    → ends to ≡ true
    → runs id (moved g id to) ≡ false
moved-ends g id to h =
    let at : get (moved g id to) id ≡ map_node (move to) (get g id) =
      get-moved g id id to ∙ rw (==-refl id) refl in
    ap node_runs at ∙ node_runs-move to (get g id) h

-- A step of a worker ends the node that it is about and starts none.
Ends : Graph → String → Graph → Type 0
Ends g id h = StartsNone g h × (runs id h ≡ false)

module _ (reason : TaskNode → String) where
  complete_node-Ends :
      (g : Graph) (n : TaskNode) (o : Outcome)
      → UniqueIds g
      → Ends g n.id (complete_node reason g n o)
  unfolding complete_node Ends
  complete_node-Ends g n Outcome.success u =
      (moved-StartsNone g n.id completed refl, moved-ends g n.id completed refl)
  complete_node-Ends g n Outcome.blocked u = (
    moved-StartsNone g n.id GraphNodeStatus.blocked refl,
    moved-ends g n.id GraphNodeStatus.blocked refl,
  )
  complete_node-Ends g n Outcome.failure u =
      let h = moved g n.id failed in
      let first = moved-StartsNone g n.id failed refl in
      let ended = moved-ends g n.id failed refl in
      elim (Bool-cases (leb n.attempt n.max_retries)) [
        | inl e ↦
            let next = moved-StartsNone h n.id ready refl in
            rw e (
              StartsNone-trans g h (moved h n.id ready) first next,
              stays_ended h (moved h n.id ready) n.id next ended,
            )
        | inr e ↦
            let next = skip_after-StartsNone h n.id (reason n) (UniqueIds-moved g n.id failed u) in
            rw e (
              StartsNone-trans g h (skip_after h n.id (reason n)) first next,
              stays_ended h (skip_after h n.id (reason n)) n.id next ended,
            )
      ]

  pub complete-Ends :
      (g : Graph) (id : String) (o : Outcome)
      → UniqueIds g
      → StartsNone g (complete reason g id o) × (runs id (complete reason g id o) ≡ false)
  unfolding complete Ends
  complete-Ends g id o u = elim (Option-cases (get g id)) [
    | inl e ↦ rw (e, complete) (λ j p. p, ap node_runs e)
    | inr (n, e) ↦
        let (none_started, ended) = complete_node-Ends g n o u in
        rw (e, complete)
          (
            none_started,
            ap (λ i. runs i (complete_node reason g n o)) (sym (id-get g id n e)) ∙ ended,
          )
  ]

-- Only the claimed node starts.
pub claimed-runs :
    (s : Scheduler) (n : TaskNode) (locks : Registry) (j : String)
    → runs j (claimed s n locks).graph ≡ true
    → (n.id == j) ≡ false
    → runs j s.graph ≡ true
claimed-runs s n locks j p other =
    let at : get (claimed s n locks).graph j ≡ get s.graph j =
      get-moved (moved s.graph n.id ready) n.id j running
      ∙ rw other (get-moved s.graph n.id j ready ∙ rw other refl) in
    sym (ap node_runs at) ∙ p
