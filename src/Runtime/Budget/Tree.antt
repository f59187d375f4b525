-- ===== src/Runtime/Budget/Tree.antt =====
-- The managers of a run and of its delegated runs, src/runtime/budget/budget-manager.ts: the
-- children, the newest first, each with the run of its parent, and the manager at the top. A
-- number that none of the children has is that of the top manager.
use devagent_ts.Base.{ℕ, Bool, true, false, Option, none, some, List, [], ◌∷◌, ◌==◌, nat_eq, find?}
use devagent_ts.Runtime.Budget.Limits.{Floats, RunBudget, BudgetError}
use devagent_ts.Runtime.Budget.Managers.{
  Manager, ModelCall, manager, own_tool_call, tracked_model_call, with_cloud, cloud_check,
  propagated, count_descendant_tool_call, count_descendant_model_call, derive_child_budget,
}

abbrev pub Tree : Floats → Type 0
Tree F = List (Manager F × ℕ) × Manager F

-- A kind of consumption that a child passes on to its parent: what it counts for a descendant,
-- its own accounting, the detail that is passed on, and the checks that follow.
pub record Dimension (F : Floats) (D : Type 0) : Type 0 where
  pub descendant : D → Manager F → Manager F
  pub own : D → Manager F → Manager F × Option (BudgetError F)
  pub passed : D → D
  pub check : D → Manager F → Option (BudgetError F)

module _ {F : Floats} where
  abbrev pub tool_calls : Dimension F (Unit {0})
  tool_calls = record {
    descendant = λ d m. count_descendant_tool_call m;
    own = λ d m. own_tool_call m;
    passed = λ d. d;
    check = λ d m. none;
  }

  abbrev pub model_calls : Dimension F (ModelCall F)
  model_calls = record {
    descendant = λ c m. count_descendant_model_call c m;
    own = λ c m. tracked_model_call c (with_cloud c m);
    passed = λ c. propagated c;
    check = λ c m. cloud_check c m;
  }

  abbrev pub first_error : Option (BudgetError F) → Option (BudgetError F) → Option (BudgetError F)
  first_error (some e) later = some e
  first_error none later = later

  abbrev pub entered : {D : Type 0} → Dimension F D → Bool → D → Manager F → Manager F
  entered dim false d m = m
  entered dim true d m = dim.descendant d m

  -- A consumption by the run `id`; the flag says that it comes from a child. An error stops it
  -- where it is thrown.
  unfoldable pub charge :
      {D : Type 0}
      → Dimension F D
      → Bool
      → D
      → ℕ
      → List (Manager F × ℕ)
      → Manager F
      → Tree F × Option (BudgetError F)
  charge dim from_child d id [] top =
      let (top', e) = dim.own d (entered dim from_child d top) in
      (([], top'), first_error e (dim.check d top'))
  charge dim from_child d id ((m, parent) ∷ ms) top = elim (m.run_id == id) [
    | false ↦
        let ((ms', top'), e) = charge dim from_child d id ms top in (((m, parent) ∷ ms', top'), e)
    | true ↦
        let (m', e) = dim.own d (entered dim from_child d m) in
        elim e [
          | some err ↦ (((m', parent) ∷ ms, top), some err)
          | none ↦
              let ((ms', top'), e') = charge dim true (dim.passed d) parent ms top in
              (((m', parent) ∷ ms', top'), first_error e' (dim.check d m'))
        ]
  ]

  -- `consumeToolCall` and `consumeModelCall` of the manager of a run.
  unfoldable pub consume_tool_call : ℕ → Tree F → Tree F × Option (BudgetError F)
  consume_tool_call id (ms, top) = charge tool_calls false tt id ms top

  unfoldable pub consume_model_call : ModelCall F → ℕ → Tree F → Tree F × Option (BudgetError F)
  consume_model_call c id (ms, top) = charge model_calls false c id ms top

  unfoldable pub manager_of : ℕ → Tree F → Manager F
  manager_of id (ms, top) = elim (find? (λ p. p.0.run_id == id) ms) [ none ↦ top | some p ↦ p.0 ]

  -- `deriveChild` for the new run `child`: the parent reads its own clock, and the child, which is
  -- not given the parent's, that of the system.
  unfoldable pub derive_child :
      ℕ → ℕ → ℕ → ℕ → Option (RunBudget F) → Option F.Amount → Tree F → Tree F
  derive_child now system_now child parent declared share (ms, top) = (
    (
      manager child (derive_child_budget now (manager_of parent (ms, top)) declared share)
          system_now,
      parent,
    )
        ∷ ms,
    top,
  )
