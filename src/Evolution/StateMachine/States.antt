-- ===== src/Evolution/StateMachine/States.antt =====
-- The states of src/evolution/state-machine.ts, in the order of its two lists.
use devagent_ts.Base.{ℕ, zero, suc, ◌≡◌, refl, List, [], ◌∷◌, ◌++◌, StrictEq, eq_by_rank}

pub data EvolutionState : Type 0 where
  observed diagnosed targeted hypothesis candidate evaluating validated generalized : EvolutionState
  eligible delivered ci_pending ci_passed review_pending approved accepted active : EvolutionState
  rejected ci_failed changes_requested regressed rollback : EvolutionState

abbrev pub progress_states : List EvolutionState
progress_states =
    observed ∷ diagnosed ∷ targeted ∷ hypothesis ∷ candidate ∷ evaluating ∷ validated ∷ generalized
    ∷ eligible ∷ delivered ∷ ci_pending ∷ ci_passed ∷ review_pending ∷ approved ∷ accepted ∷ active
    ∷ []

abbrev pub failure_states : List EvolutionState
failure_states = rejected ∷ ci_failed ∷ changes_requested ∷ regressed ∷ rollback ∷ []

abbrev pub rank : EvolutionState → ℕ
rank observed = 0
rank diagnosed = 1
rank targeted = 2
rank hypothesis = 3
rank candidate = 4
rank evaluating = 5
rank validated = 6
rank generalized = 7
rank eligible = 8
rank delivered = 9
rank ci_pending = 10
rank ci_passed = 11
rank review_pending = 12
rank approved = 13
rank accepted = 14
rank active = 15
rank rejected = 16
rank ci_failed = 17
rank changes_requested = 18
rank regressed = 19
rank rollback = 20

abbrev pub nth : List EvolutionState → ℕ → EvolutionState
nth [] n = observed
nth (s ∷ l) zero = s
nth (s ∷ l) (suc n) = nth l n

abbrev pub unrank : ℕ → EvolutionState
unrank n = nth (progress_states ++ failure_states) n

pub unrank-rank : (s : EvolutionState) → unrank (rank s) ≡ s
unrank-rank observed = refl
unrank-rank diagnosed = refl
unrank-rank targeted = refl
unrank-rank hypothesis = refl
unrank-rank candidate = refl
unrank-rank evaluating = refl
unrank-rank validated = refl
unrank-rank generalized = refl
unrank-rank eligible = refl
unrank-rank delivered = refl
unrank-rank ci_pending = refl
unrank-rank ci_passed = refl
unrank-rank review_pending = refl
unrank-rank approved = refl
unrank-rank accepted = refl
unrank-rank active = refl
unrank-rank rejected = refl
unrank-rank ci_failed = refl
unrank-rank changes_requested = refl
unrank-rank regressed = refl
unrank-rank rollback = refl

instance abbrev pub state_eq : StrictEq EvolutionState
state_eq = eq_by_rank rank unrank unrank-rank
