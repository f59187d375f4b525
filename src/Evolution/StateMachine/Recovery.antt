-- ===== src/Evolution/StateMachine/Recovery.antt =====
-- Which states of src/evolution/state-machine.ts can still become active.
use devagent_ts.Base.{
  Bool, true, false, List, [], ◌∷◌, ◌==◌, ◌≡◌, ◌≢◌, refl, arith, none, length, map, ap, includes,
  ==-eq, ◌&&◌, ◌≤◌,
}
use devagent_ts.Evolution.StateMachine.States.{
  EvolutionState, state_eq, active, candidate, evaluating, validated, generalized, eligible,
  delivered, ci_pending, ci_passed, review_pending, approved, accepted, observed, diagnosed,
  targeted, hypothesis, rejected, ci_failed, changes_requested, regressed, rollback,
}
use devagent_ts.Evolution.StateMachine.{
  Machine, Request, transition, run, legal_transitions, is_terminal_failure,
}
use devagent_ts.Evolution.StateMachine.Trails.{run_of_rejected}

-- The requests that take a state to `active`: the happy path, joined from the recovery paths.
way_to_active : EvolutionState → List EvolutionState
way_to_active observed =
    diagnosed ∷ targeted ∷ hypothesis ∷ candidate ∷ evaluating ∷ validated ∷ generalized ∷ eligible
    ∷ delivered ∷ ci_pending ∷ ci_passed ∷ review_pending ∷ approved ∷ accepted ∷ active ∷ []
way_to_active diagnosed =
    targeted ∷ hypothesis ∷ candidate ∷ evaluating ∷ validated ∷ generalized ∷ eligible ∷ delivered
    ∷ ci_pending ∷ ci_passed ∷ review_pending ∷ approved ∷ accepted ∷ active ∷ []
way_to_active targeted =
    hypothesis ∷ candidate ∷ evaluating ∷ validated ∷ generalized ∷ eligible ∷ delivered
    ∷ ci_pending ∷ ci_passed ∷ review_pending ∷ approved ∷ accepted ∷ active ∷ []
way_to_active hypothesis =
    candidate ∷ evaluating ∷ validated ∷ generalized ∷ eligible ∷ delivered ∷ ci_pending ∷ ci_passed
    ∷ review_pending ∷ approved ∷ accepted ∷ active ∷ []
way_to_active candidate =
    evaluating ∷ validated ∷ generalized ∷ eligible ∷ delivered ∷ ci_pending ∷ ci_passed
    ∷ review_pending ∷ approved ∷ accepted ∷ active ∷ []
way_to_active evaluating =
    validated ∷ generalized ∷ eligible ∷ delivered ∷ ci_pending ∷ ci_passed ∷ review_pending
    ∷ approved ∷ accepted ∷ active ∷ []
way_to_active validated =
    generalized ∷ eligible ∷ delivered ∷ ci_pending ∷ ci_passed ∷ review_pending ∷ approved
    ∷ accepted ∷ active ∷ []
way_to_active generalized =
    eligible ∷ delivered ∷ ci_pending ∷ ci_passed ∷ review_pending ∷ approved ∷ accepted ∷ active
    ∷ []
way_to_active eligible =
    delivered ∷ ci_pending ∷ ci_passed ∷ review_pending ∷ approved ∷ accepted ∷ active ∷ []
way_to_active delivered =
    ci_pending ∷ ci_passed ∷ review_pending ∷ approved ∷ accepted ∷ active ∷ []
way_to_active ci_pending = ci_passed ∷ review_pending ∷ approved ∷ accepted ∷ active ∷ []
way_to_active ci_passed = review_pending ∷ approved ∷ accepted ∷ active ∷ []
way_to_active review_pending = approved ∷ accepted ∷ active ∷ []
way_to_active approved = accepted ∷ active ∷ []
way_to_active accepted = active ∷ []
way_to_active active = []
way_to_active rejected = []
way_to_active ci_failed =
    candidate ∷ evaluating ∷ validated ∷ generalized ∷ eligible ∷ delivered ∷ ci_pending ∷ ci_passed
    ∷ review_pending ∷ approved ∷ accepted ∷ active ∷ []
way_to_active changes_requested =
    candidate ∷ evaluating ∷ validated ∷ generalized ∷ eligible ∷ delivered ∷ ci_pending ∷ ci_passed
    ∷ review_pending ∷ approved ∷ accepted ∷ active ∷ []
way_to_active regressed = rollback ∷ active ∷ []
way_to_active rollback = active ∷ []

abbrev request : EvolutionState → Request
request s = record { to = s; note = none; at = 0 }

-- Each move of the path is in the table, and it ends at `e`.
abbrev is_path : EvolutionState → List EvolutionState → EvolutionState → Bool
is_path s [] e = s == e
is_path s (t ∷ l) e = includes t (legal_transitions s) && is_path t l e

follow :
    (l : List EvolutionState) (m : Machine)
    → is_path m.state l active ≡ true
    → (run m (map request l)).state ≡ active
unfolding run transition
follow [] m h = ==-eq m.state active h
follow (t ∷ l) m h = follow l (transition m t none 0).0 (ground arith)

way-is_path :
    (s : EvolutionState)
    → is_terminal_failure s ≡ false
    → (is_path s (way_to_active s) active ≡ true) × (length (map request (way_to_active s)) ≤ 15)
unfolding way_to_active legal_transitions is_terminal_failure
way-is_path observed h = (refl, omega arith)
way-is_path diagnosed h = (refl, omega arith)
way-is_path targeted h = (refl, omega arith)
way-is_path hypothesis h = (refl, omega arith)
way-is_path candidate h = (refl, omega arith)
way-is_path evaluating h = (refl, omega arith)
way-is_path validated h = (refl, omega arith)
way-is_path generalized h = (refl, omega arith)
way-is_path eligible h = (refl, omega arith)
way-is_path delivered h = (refl, omega arith)
way-is_path ci_pending h = (refl, omega arith)
way-is_path ci_passed h = (refl, omega arith)
way-is_path review_pending h = (refl, omega arith)
way-is_path approved h = (refl, omega arith)
way-is_path accepted h = (refl, omega arith)
way-is_path active h = (refl, omega arith)
way-is_path rejected h = cc
way-is_path ci_failed h = (refl, omega arith)
way-is_path changes_requested h = (refl, omega arith)
way-is_path regressed h = (refl, omega arith)
way-is_path rollback h = (refl, omega arith)

-- A lifecycle can still become active, by some series of requests, exactly while it is not at
-- the state that `isTerminalFailure` names; from any other state fifteen requests are enough.
pub recovers_iff :
    (m : Machine)
    → (is_terminal_failure m.state ≡ false
        → (rs : List Request) × (length rs ≤ 15) × ((run m rs).state ≡ active))
      × (is_terminal_failure m.state ≡ true → (rs : List Request) → (run m rs).state ≢ active)
recovers_iff m = (
  λ h.
      let (path, short) = way-is_path m.state h in
      (map request (way_to_active m.state), short, follow (way_to_active m.state) m path),
  λ h rs e.
      let at : m.state ≡ rejected = unfold is_terminal_failure in ==-eq m.state rejected h in
      let same : run m rs ≡ m = run_of_rejected m rs at in cc (ap (λ (n : Machine). n.state) same),
)
