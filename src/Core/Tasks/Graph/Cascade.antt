-- ===== src/Core/Tasks/Graph/Cascade.antt =====
-- `cascadeSkip` of src/core/tasks/task-graph.ts.
use devagent_ts.Base.{
  includes-append, ==-comm, ℕ, zero, suc, ◌+◌, ◌≤◌, Bool, true, false, not, ◌&&◌, some, String,
  string_eq, eq_iff, List, [], ◌∷◌, ◌++◌, ◌≡◌, inl, inr, refl, sym, ap, ◌∙◌, arith, if◌then◌else◌,
  ◌==◌, includes, Bool-cases, All, All-append, All-map, count, length, length-append, add,
  includes-add,
}
use devagent_ts.Core.Tasks.Graph.Nodes.{TaskNode, is_skippable, skipped, status_eq}
use devagent_ts.Core.Tasks.Graph.{Graph, skip_dependents, cascade, cascade_skip}
use mathlib.Core.List.{append_assoc, append-nil}
use mathlib.Core.Path.{subst}
use devagent_ts.Core.Tasks.Graph.Fates.{
  UniqueIds-Fates, Fates-trans, Fates-refl, NoDependents-Fates, kept, Fates-weaken, skips, Fates,
  NoDependents, UniqueIds,
}

-- The nodes that a cascade may still skip.
abbrev skippable_count : Graph → ℕ
skippable_count g = count (λ n. is_skippable n.status) g

-- Each id that joins the queue is a node that is no longer skippable.
skip_dependents_count :
    (current reason : String) (seen : List String) (g : Graph)
    → length (skip_dependents current reason seen g).2
        + skippable_count (skip_dependents current reason seen g).0
      ≡ skippable_count g
unfolding skip_dependents
skip_dependents_count current reason seen [] = refl
skip_dependents_count current reason seen (n ∷ g) =
    let hit = includes current n.dependencies && not (includes n.id seen) in
    ground (arith, skip_dependents_count current reason (if hit then add n.id seen else seen) g)

cascade_total :
    (fuel : ℕ) (reason : String) (g : Graph) (seen queue done : List String)
    → length queue + skippable_count g ≤ fuel
    → (r : Graph × List String) × (cascade fuel reason g seen queue done ≡ some r)
unfolding cascade
cascade_total fuel reason g seen [] done h = ((g, done), refl)
cascade_total zero reason g seen (c ∷ queue) done h = absurd (omega arith)
cascade_total (suc fuel) reason g seen (c ∷ queue) done h =
    let (g', seen', new) = skip_dependents c reason seen g in
    cascade_total fuel reason g' seen' (queue ++ new) (done ++ new)
      (omega (arith, skip_dependents_count c reason seen g, length-append queue new))

-- The loop always ends with its queue empty.
pub cascade_skip_total :
    (g : Graph) (from reason : String)
    → (r : Graph × List String) × (cascade_skip g from reason ≡ some r)
unfolding cascade_skip
cascade_skip_total g from reason = cascade_total _ reason g [] (from ∷ []) [] (omega arith)

abbrev SeenDone : List String → Graph → Type 0
SeenDone seen g = All (λ n. includes n.id seen ≡ true → is_skippable n.status ≡ false) g

ids_kept :
    (x current reason : String) (seen : List String) (g : Graph)
    → All (λ m. (m.id == x) ≡ false) g
    → includes x (skip_dependents current reason seen g).1 ≡ includes x seen
unfolding skip_dependents
ids_kept x current reason seen [] other = refl
ids_kept x current reason seen (n ∷ g) other =
    let hit = includes current n.dependencies && not (includes n.id seen) in
    ground (
      arith,
      ids_kept x current reason (if hit then add n.id seen else seen) g,
      other.1,
      includes-add n.id x seen,
    )

-- Adding an id that none of the nodes has.
SeenDone-add :
    (id : String) (seen : List String) (g : Graph)
    → All (λ m. (m.id == id) ≡ false) g
    → SeenDone seen g
    → SeenDone (add id seen) g
SeenDone-add id seen [] other h = tt
SeenDone-add id seen (m ∷ g) other h = (
  λ q. ground (arith, other.0, includes-add id m.id seen, ==-comm id m.id, h.0),
  SeenDone-add id seen g other.1 h.1,
)

abbrev next_seen : String → List String → TaskNode → List String
next_seen current seen n =
    if includes current n.dependencies && not (includes n.id seen) then add n.id seen else seen

SeenDone-next :
    (current : String) (seen : List String) (n : TaskNode) (g : Graph)
    → All (λ m. (m.id == n.id) ≡ false) g
    → SeenDone seen g
    → SeenDone (next_seen current seen n) g
SeenDone-next current seen n g other h =
    elim (Bool-cases (includes current n.dependencies && not (includes n.id seen))) [
      | inl e ↦ rw e (SeenDone-add n.id seen g other h)
      | inr e ↦ rw e h
    ]

Fates-cons :
    (current reason : String) (skip : Bool) (n : TaskNode) (new : List String) (g g' : Graph)
    → (skip ≡ true → (includes current n.dependencies ≡ true) × (is_skippable n.status ≡ true))
    → Fates (current ∷ []) new reason g g'
    → Fates
        (current ∷ [])
        (if skip then n.id ∷ new else new)
        reason
        (n ∷ g)
        ((if skip then record n { status = skipped; skip_reason = some reason } else n) ∷ g')
Fates-cons current reason false n new g g' why rest = (kept refl, rest)
Fates-cons current reason true n new g g' why rest = (
  skips current (ground (arith, eq_iff current current)) (why refl).0
      (ground (arith, eq_iff n.id n.id)) (why refl).1 refl,
  Fates-weaken (current ∷ []) (current ∷ []) new (n.id ∷ new) reason (λ x h. h)
      (λ x h. ground arith) g g' rest,
)

-- One pass: the nodes that the id touches have their fate, none of its dependents is left, and
-- what has been seen is done with.
pass_Fates :
    (current reason : String) (seen : List String) (g : Graph)
    → let (g', seen', new) = skip_dependents current reason seen g in
      Fates (current ∷ []) new reason g g'
unfolding skip_dependents
pass_Fates current reason seen [] = tt
pass_Fates current reason seen (n ∷ g) =
    let (g', _, new) = skip_dependents current reason (next_seen current seen n) g in
    Fates-cons current reason
      (includes current n.dependencies && not (includes n.id seen) && is_skippable n.status) n new g
      g' (λ e. (ground arith, ground arith))
      (pass_Fates current reason (next_seen current seen n) g)

pass_NoDependents :
    (current reason : String) (seen : List String) (g : Graph)
    → UniqueIds g
    → SeenDone seen g
    → NoDependents current (skip_dependents current reason seen g).0
unfolding skip_dependents
pass_NoDependents current reason seen [] unique done = tt
pass_NoDependents current reason seen (n ∷ g) unique done = (
  λ d. ground (arith, done.0),
  pass_NoDependents current reason (next_seen current seen n) g unique.1
      (SeenDone-next current seen n g unique.0 done.1),
)

pass_SeenDone :
    (current reason : String) (seen : List String) (g : Graph)
    → UniqueIds g
    → SeenDone seen g
    → SeenDone (skip_dependents current reason seen g).1 (skip_dependents current reason seen g).0
unfolding skip_dependents
pass_SeenDone current reason seen [] unique done = tt
pass_SeenDone current reason seen (n ∷ g) unique done = (
  λ d. ground (
    arith,
    done.0,
    ids_kept n.id current reason (next_seen current seen n) g unique.0,
    includes-add n.id n.id seen,
  ),
  pass_SeenDone current reason (next_seen current seen n) g unique.1
      (SeenDone-next current seen n g unique.0 done.1),
)

-- The loop: what it has taken from the queue has no dependents left, and everything that has
-- happened to the graph `g₀` is the fate of its nodes for the ids skipped so far.
pub record Progress (from reason : String) (start : Graph) (seen queue done processed : List String)
    (g : Graph) : Type 0 where
  pub order : from ∷ done ≡ processed ++ queue
  pub cleared : All (λ c. NoDependents c g) processed
  pub fates : Fates (from ∷ done) done reason start g
  pub seen_done : SeenDone seen g
  pub unique : UniqueIds g

cleared-pass :
    (c reason : String) (seen : List String) (g : Graph) (processed : List String)
    → All (λ d. NoDependents d g) processed
    → All (λ d. NoDependents d (skip_dependents c reason seen g).0) processed
cleared-pass c reason seen g processed h =
    All-map (λ d. NoDependents d g) _ processed
      (λ d.
        NoDependents-Fates (c ∷ []) (skip_dependents c reason seen g).2 reason d g _
          (pass_Fates c reason seen g))
      h

round_order :
    (from c : String) (queue done processed new : List String)
    → from ∷ done ≡ processed ++ c ∷ queue
    → from ∷ (done ++ new) ≡ (processed ++ c ∷ []) ++ (queue ++ new)
round_order from c queue done processed new h =
    ap (λ (l : List String). l ++ new) h
    ∙ append_assoc processed (c ∷ queue) new
    ∙ sym (append_assoc processed (c ∷ []) (queue ++ new))

-- One round of the loop.
round_Progress :
    (from reason : String) (start g : Graph) (seen : List String) (c : String)
    (queue done processed : List String)
    → Progress from reason start seen (c ∷ queue) done processed g
    → let (g', seen', new) = skip_dependents c reason seen g in
      Progress from reason start seen' (queue ++ new) (done ++ new) (processed ++ c ∷ []) g'
round_Progress from reason start g seen c queue done processed p =
    let (g', seen', new) = skip_dependents c reason seen g in
    let here : includes c (from ∷ done) ≡ true =
      ap (λ (l : List String). includes c l) p.order
      ∙ ground (arith, includes-append c processed (c ∷ queue), eq_iff c c) in
    let now : Fates (from ∷ (done ++ new)) (done ++ new) reason g g' =
      Fates-weaken (c ∷ []) (from ∷ (done ++ new)) new (done ++ new) reason
        (λ x h. ground (arith, eq_iff c x, includes-append x done new))
        (λ x h. ground (arith, includes-append x done new)) g g' (pass_Fates c reason seen g) in
    let before : Fates (from ∷ (done ++ new)) (done ++ new) reason start g =
      Fates-weaken (from ∷ done) (from ∷ (done ++ new)) done (done ++ new) reason
        (λ x h. ground (arith, includes-append x done new))
        (λ x h. ground (arith, includes-append x done new)) start g p.fates in
    record {
      order = round_order from c queue done processed new p.order;
      cleared =
          All-append (λ d. NoDependents d g') processed (c ∷ [])
            (cleared-pass c reason seen g processed p.cleared)
            (pass_NoDependents c reason seen g p.unique p.seen_done, tt);
      fates = Fates-trans (from ∷ (done ++ new)) (done ++ new) reason start g g' before now;
      seen_done = pass_SeenDone c reason seen g p.unique p.seen_done;
      unique = UniqueIds-Fates (c ∷ []) new reason g g' (pass_Fates c reason seen g) p.unique;
    }

abbrev CascadeEnd : String → String → Graph → Graph → List String → Type 0
CascadeEnd from reason start g done =
    All (λ c. NoDependents c g) (from ∷ done) × Fates (from ∷ done) done reason start g

cascade-Progress :
    (fuel : ℕ) (from reason : String) (start g : Graph) (seen queue done processed : List String)
    (g' : Graph) (done' : List String)
    → Progress from reason start seen queue done processed g
    → cascade fuel reason g seen queue done ≡ some (g', done')
    → All (λ c. NoDependents c g') (from ∷ done') × Fates (from ∷ done') done' reason start g'
unfolding cascade
cascade-Progress fuel from reason start g seen [] done processed g' done' p e =
    let same_graph : g ≡ g' = ground arith in
    let same_done : done ≡ done' = ground arith in
    let all_cleared : All (λ c. NoDependents c g) (from ∷ done) =
      subst (All (λ c. NoDependents c g)) (sym (p.order ∙ append-nil processed)) p.cleared in
    subst (λ gr. CascadeEnd from reason start gr done') same_graph
      (subst (λ d. CascadeEnd from reason start g d) same_done (all_cleared, p.fates))
cascade-Progress zero from reason start g seen (c ∷ queue) done processed g' done' p e = cc
cascade-Progress (suc fuel) from reason start g seen (c ∷ queue) done processed g' done' p e =
    let (g1, seen1, new) = skip_dependents c reason seen g in
    cascade-Progress fuel from reason start g1 seen1 (queue ++ new) (done ++ new)
      (processed ++ c ∷ []) g' done'
      (round_Progress from reason start g seen c queue done processed p) e

SeenDone-nil : (g : Graph) → SeenDone [] g
SeenDone-nil [] = tt
SeenDone-nil (n ∷ g) = ((λ h. cc), SeenDone-nil g)

-- On a graph whose ids are those of a map, `cascadeSkip` comes to an end, and then no node that
-- is pending, ready or blocked depends on the first node or on one that was skipped. Nothing
-- else has happened to the graph than that nodes which were pending, ready or blocked and depend
-- on the first node or on a skipped one are skipped, with the reason, and are listed.
pub cascade_skip_correct :
    (g : Graph) (from reason : String)
    → UniqueIds g
    → (g' : Graph) × (done : List String) × (cascade_skip g from reason ≡ some (g', done))
      × All (λ c. NoDependents c g') (from ∷ done)
      × Fates (from ∷ done) done reason g g'
unfolding cascade_skip
cascade_skip_correct g from reason unique =
    let ((g', done), e) = cascade_skip_total g from reason in
    let (cleared, fates) =
      cascade-Progress _ from reason g g [] (from ∷ []) [] [] g' done
        (record {
          order = refl;
          cleared = tt;
          fates = Fates-refl (from ∷ []) [] reason g;
          seen_done = SeenDone-nil g;
          unique = unique;
        })
        e in
    (g', done, e, cleared, fates)
