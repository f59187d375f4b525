-- ===== src/Runtime/Budget/Charging.antt =====
-- A consumption that goes up the tree of managers, src/runtime/budget/budget-manager.ts.
use devagent_ts.Base.{
  ℕ, ◌+◌, ◌≤◌, Bool, true, false, Option, none, some, List, [], ◌∷◌, ◌==◌, ◌≡◌, inl, inr, refl, ap,
  ◌∙◌, arith, nat_eq, Bool-cases, Option-cases,
}
use mathlib.Core.Path.{subst}
use devagent_ts.Runtime.Budget.Limits.{Floats, RunBudget, BudgetError, over}
use devagent_ts.Runtime.Budget.Managers.{Manager}
use devagent_ts.Runtime.Budget.Tree.{Dimension, first_error, entered, charge}

-- A count that no limit forbids.
abbrev pub Within : Option ℕ → ℕ → Type 0
Within none n = Unit
Within (some limit) n = n ≤ limit

pub over-Within :
    {E : Type 0} (error : ℕ → ℕ → E) (n : ℕ) (limit : Option ℕ)
    → over error n limit ≡ none
    → Within limit n
over-Within error n none h = tt
over-Within error n (some limit) h = ground arith

pub Within-le : (limit : Option ℕ) (m n : ℕ) → m ≤ n → Within limit n → Within limit m
Within-le none m n h w = tt
Within-le (some limit) m n h w = omega (arith, h, w)

first_error_none : {F : Floats} (a b : Option (BudgetError F)) → first_error a b ≡ none → a ≡ none
first_error_none none b h = refl
first_error_none (some e) b h = cc

module _ {F : Floats} {D : Type 0} (dim : Dimension F D) where
  -- A relation between a manager before and after, which the steps of a consumption respect.
  module _ (R : Manager F → Manager F → Type 0) (same : (m : Manager F) → R m m)
      (then_ : (m n k : Manager F) → R m n → R n k → R m k)
      (counts : (d : D) (m : Manager F) → R m (dim.descendant d m))
      (owns : (d : D) (m : Manager F) → R m (dim.own d m).0) where
    entered-R : (b : Bool) (d : D) (m : Manager F) → R m (dim.own d (entered dim b d m)).0
    entered-R false d m = owns d m
    entered-R true d m =
        then_ m (dim.descendant d m) (dim.own d (dim.descendant d m)).0 (counts d m)
          (owns d (dim.descendant d m))

    pub charge-R :
        (b : Bool) (d : D) (id : ℕ) (ms : List (Manager F × ℕ)) (top : Manager F)
        → R top (charge dim b d id ms top).0.1
    unfolding charge
    charge-R b d id [] top = entered-R b d top
    charge-R b d id ((m, parent) ∷ ms) top = elim (Bool-cases (m.run_id == id)) [
      | inr other ↦ rw (other, charge) (charge-R b d id ms top)
      | inl here ↦ elim (Option-cases (dim.own d (entered dim b d m)).1) [
        | inl fits ↦ rw (here, fits, charge) (charge-R true (dim.passed d) parent ms top)
        | inr (e, thrown) ↦ rw (here, thrown, charge) (same top)
      ]
    ]

  -- A count `f`, of which a consumption makes `weight`, with its limit.
  module _ (f : Manager F → ℕ) (weight : D → ℕ) (limit : RunBudget F → Option ℕ)
      (counts : (d : D) (m : Manager F)
        → (f (dim.descendant d m) ≡ f m) × ((dim.descendant d m).budget ≡ m.budget))
      (passes : (d : D) → weight (dim.passed d) ≡ weight d)
      (owns : (d : D) (m : Manager F)
        → (dim.own d m).1 ≡ none
        → (f (dim.own d m).0 ≡ f m + weight d) × Within (limit m.budget) (f (dim.own d m).0)) where
    entered_counts :
        (b : Bool) (d : D) (m : Manager F)
        → (dim.own d (entered dim b d m)).1 ≡ none
        → (f (dim.own d (entered dim b d m)).0 ≡ f m + weight d)
          × Within (limit m.budget) (f (dim.own d (entered dim b d m)).0)
    entered_counts false d m h = owns d m h
    entered_counts true d m h =
        let (same_count, same_budget) = counts d m in
        let (counted, fits) = owns d (dim.descendant d m) h in
        (
          counted ∙ ap (λ n. n + weight d) same_count,
          subst (λ b. Within (limit b) (f (dim.own d (dim.descendant d m)).0)) same_budget fits,
        )

    pub charge_counts :
        (b : Bool) (d : D) (id : ℕ) (ms : List (Manager F × ℕ)) (top : Manager F)
        → (charge dim b d id ms top).1 ≡ none
        → (f (charge dim b d id ms top).0.1 ≡ f top + weight d)
          × Within (limit top.budget) (f (charge dim b d id ms top).0.1)
    unfolding charge
    charge_counts b d id [] top h = entered_counts b d top (first_error_none _ _ h)
    charge_counts b d id ((m, parent) ∷ ms) top h = elim (Bool-cases (m.run_id == id)) [
      | inr other ↦ rw (other, charge) (charge_counts b d id ms top (rw (other, charge) at h))
      | inl here ↦ elim (Option-cases (dim.own d (entered dim b d m)).1) [
        | inl fits ↦
            let (counted, within) =
              charge_counts true (dim.passed d) parent ms top
                (first_error_none _ _ (rw (here, fits, charge) at h)) in
            rw (here, fits, charge) (counted ∙ ap (λ n. f top + n) (passes d), within)
        | inr (e, thrown) ↦ let raised : some e ≡ none = rw (here, thrown, charge) at h in absurd cc
      ]
    ]
