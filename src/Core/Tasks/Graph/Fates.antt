-- ===== src/Core/Tasks/Graph/Fates.antt =====
-- What `cascadeSkip` of src/core/tasks/task-graph.ts may do to the nodes of a graph.
use devagent_ts.Base.{
  true, false, some, String, string_eq, List, [], ◌∷◌, ◌≡◌, refl, ◌∙◌, arith, ◌==◌, includes, All,
}
use devagent_ts.Core.Tasks.Graph.Nodes.{TaskNode, is_skippable, skipped, status_eq}
use devagent_ts.Core.Tasks.Graph.{Graph}

-- What a cascade makes of a node: nothing, or, if it may be skipped and depends on one of the
-- causes, a skipped node, whose id is among the ids skipped.
pub data Fate (causes ids : List String) (reason : String) (n m : TaskNode) : Type 0 where
  kept : m ≡ n → Fate causes ids reason n m
  skips :
      (c : String)
      → includes c causes ≡ true
      → includes c n.dependencies ≡ true
      → includes n.id ids ≡ true
      → is_skippable n.status ≡ true
      → m ≡ record n { status = skipped; skip_reason = some reason }
      → Fate causes ids reason n m

-- The nodes of two graphs in order, with such a fate each.
abbrev pub Fates : List String → List String → String → Graph → Graph → Type 0
Fates causes ids reason [] [] = Unit
Fates causes ids reason [] (m ∷ h) = ⊥
Fates causes ids reason (n ∷ g) [] = ⊥
Fates causes ids reason (n ∷ g) (m ∷ h) = Fate causes ids reason n m × Fates causes ids reason g h

-- No node that may still be skipped depends on `c`.
abbrev pub NoDependents : String → Graph → Type 0
NoDependents c g = All (λ n. includes c n.dependencies ≡ true → is_skippable n.status ≡ false) g

-- The ids are those of a map's keys.
abbrev pub UniqueIds : Graph → Type 0
UniqueIds [] = Unit
UniqueIds (n ∷ g) = All (λ m. (m.id == n.id) ≡ false) g × UniqueIds g

module _ (causes causes' ids ids' : List String) (reason : String)
    (more_causes : (x : String) → includes x causes ≡ true → includes x causes' ≡ true)
    (more_ids : (x : String) → includes x ids ≡ true → includes x ids' ≡ true) where
  pub Fate-weaken : {n m : TaskNode} → Fate causes ids reason n m → Fate causes' ids' reason n m
  Fate-weaken (kept e) = kept e
  Fate-weaken {n} (skips c h d i s e) = skips c (more_causes c h) d (more_ids n.id i) s e

  pub Fates-weaken : (g h : Graph) → Fates causes ids reason g h → Fates causes' ids' reason g h
  Fates-weaken [] [] f = tt
  Fates-weaken [] (m ∷ h) f = f
  Fates-weaken (n ∷ g) [] f = f
  Fates-weaken (n ∷ g) (m ∷ h) f = (Fate-weaken f.0, Fates-weaken g h f.1)

module _ (causes ids : List String) (reason : String) where
  pub Fate-trans :
      {n m k : TaskNode}
      → Fate causes ids reason n m
      → Fate causes ids reason m k
      → Fate causes ids reason n k
  Fate-trans (kept e) (kept f) = kept (f ∙ e)
  Fate-trans {n} {m} {k} (kept e) (skips c h d i s f) =
      skips c h (ground arith) (ground arith) (ground arith) (ground arith)
  Fate-trans (skips c h d i s e) (kept f) = skips c h d i s (f ∙ e)
  Fate-trans {n} {m} {k} (skips c h d i s e) (skips c' h' d' i' s' f) = absurd (ground arith)

  pub Fates-trans :
      (g h k : Graph)
      → Fates causes ids reason g h
      → Fates causes ids reason h k
      → Fates causes ids reason g k
  Fates-trans [] [] k f f' = f'
  Fates-trans [] (m ∷ h) k f f' = absurd f
  Fates-trans (n ∷ g) [] k f f' = absurd f
  Fates-trans (n ∷ g) (m ∷ h) [] f f' = f'
  Fates-trans (n ∷ g) (m ∷ h) (l ∷ k) f f' = (Fate-trans f.0 f'.0, Fates-trans g h k f.1 f'.1)

  pub Fates-refl : (g : Graph) → Fates causes ids reason g g
  Fates-refl [] = tt
  Fates-refl (n ∷ g) = (kept refl, Fates-refl g)

  -- What a fate keeps of a node.
  pub Fate-keeps :
      {n m : TaskNode}
      → Fate causes ids reason n m
      → (m.id ≡ n.id)
        × (m.dependencies ≡ n.dependencies)
        × (is_skippable n.status ≡ false → is_skippable m.status ≡ false)
  Fate-keeps {n} {m} (kept e) = (ground arith, ground arith, ground arith)
  Fate-keeps {n} {m} (skips c h d i s e) = (ground arith, ground arith, ground arith)

  pub NoDependents-Fates :
      (c : String) (g h : Graph) → Fates causes ids reason g h → NoDependents c g → NoDependents c h
  NoDependents-Fates c [] [] f nod = tt
  NoDependents-Fates c [] (m ∷ h) f nod = absurd f
  NoDependents-Fates c (n ∷ g) [] f nod = tt
  NoDependents-Fates c (n ∷ g) (m ∷ h) f nod =
      (λ d. ground (arith, Fate-keeps f.0), NoDependents-Fates c g h f.1 nod.1)

  pub differs-Fates :
      (x : String) (g h : Graph)
      → Fates causes ids reason g h
      → All (λ m. (m.id == x) ≡ false) g
      → All (λ m. (m.id == x) ≡ false) h
  differs-Fates x [] [] f nod = tt
  differs-Fates x [] (m ∷ h) f nod = absurd f
  differs-Fates x (n ∷ g) [] f nod = tt
  differs-Fates x (n ∷ g) (m ∷ h) f nod =
      (ground (arith, Fate-keeps f.0), differs-Fates x g h f.1 nod.1)

  pub UniqueIds-Fates : (g h : Graph) → Fates causes ids reason g h → UniqueIds g → UniqueIds h
  UniqueIds-Fates [] [] f u = tt
  UniqueIds-Fates [] (m ∷ h) f u = absurd f
  UniqueIds-Fates (n ∷ g) [] f u = tt
  UniqueIds-Fates (n ∷ g) (m ∷ h) f u =
      let (same, _, _) = Fate-keeps f.0 in
      (rw same (differs-Fates n.id g h f.1 u.0), UniqueIds-Fates g h f.1 u.1)
