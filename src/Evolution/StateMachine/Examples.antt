-- ===== src/Evolution/StateMachine/Examples.antt =====
-- Runs of the lifecycle, and the theorems at them.
use devagent_ts.Base.{
  true, false, List, [], ◌∷◌, ◌≡◌, ◌≢◌, refl, none, map, all, includes, length, ◌≤◌,
}
use devagent_ts.Evolution.StateMachine.States.{
  EvolutionState, observed, diagnosed, targeted, hypothesis, candidate, evaluating, validated,
  generalized, eligible, delivered, ci_pending, ci_passed, ci_failed, review_pending, approved,
  accepted, active, state_eq,
}
use devagent_ts.Evolution.StateMachine.{
  machine, Request, run, transition, is_active, is_ci_passed, is_approved, is_terminal_failure,
}
use devagent_ts.Evolution.StateMachine.Trails.{Trail, run-Trail}
use devagent_ts.Evolution.StateMachine.Gates.{run_gates, since_candidate, pipeline}
use devagent_ts.Evolution.StateMachine.Recovery.{recovers_iff}

abbrev to_state : EvolutionState → Request
to_state s = record { to = s; note = none; at = 7 }

-- A candidate whose CI fails once, with one illegal request on the way.
abbrev reworked : List Request
reworked = map to_state (
    diagnosed ∷ targeted ∷ approved ∷ hypothesis ∷ candidate ∷ evaluating ∷ validated ∷ generalized
    ∷ eligible ∷ delivered ∷ ci_pending ∷ ci_failed ∷ candidate ∷ evaluating ∷ validated
    ∷ generalized ∷ eligible ∷ delivered ∷ ci_pending ∷ ci_passed ∷ review_pending ∷ approved
    ∷ accepted ∷ active ∷ [])

reworked_is_active : (run (machine observed false) reworked).state ≡ active
unfolding run transition machine
reworked_is_active = refl

run-Trail_example :
    let m = run (machine observed false) reworked in Trail observed m.history m.state
run-Trail_example = run-Trail observed false reworked

run_gates_example :
    let m = run (machine observed false) reworked in
    let since = since_candidate [] m.history in
    (is_active m.state ≡ true → all (λ g. includes g since) pipeline ≡ true)
    × (is_ci_passed m.state ≡ true → includes ci_passed since ≡ true)
    × (is_approved m.state ≡ true
        → (includes ci_passed since ≡ true) × (includes approved since ≡ true))
run_gates_example = run_gates false reworked

recovers_iff_example :
    let m = machine ci_failed true in
    (is_terminal_failure m.state ≡ false
      → (rs : List Request) × (length rs ≤ 15) × ((run m rs).state ≡ active))
    × (is_terminal_failure m.state ≡ true → (rs : List Request) → (run m rs).state ≢ active)
recovers_iff_example = recovers_iff (machine ci_failed true)
