-- ===== src/Evolution/StateMachine/Gates.antt =====
-- The gates of src/evolution/state-machine.ts: what a candidate has passed by the time that it
-- has reached a state.
use devagent_ts.Base.{
  ℕ, Bool, true, false, List, [], ◌∷◌, ◌++◌, if◌then◌else◌, ◌==◌, ◌≡◌, refl, arith, includes,
  includes-append, all, includes, ◌||◌, ◌&&◌, all-includes, not, take, all-includes_trans,
  all-includes_append, ==-eq, ==-refl, Bool-cases, inl, inr,
}
use devagent_ts.Evolution.StateMachine.States.{
  EvolutionState, observed, diagnosed, targeted, hypothesis, candidate, evaluating, validated,
  generalized, eligible, delivered, ci_pending, ci_passed, review_pending, approved, accepted,
  active, rejected, ci_failed, changes_requested, regressed, rollback, state_eq, progress_states,
  failure_states,
}
use devagent_ts.Evolution.StateMachine.{
  StateTransition, Machine, machine, Request, transition, run, legal_transitions, is_active,
  is_approved, is_ci_passed,
}
use devagent_ts.Evolution.StateMachine.Trails.{transition_cases}

-- The states entered since the state `candidate` was last entered, `acc` those before `h`.
abbrev pub since_candidate : List EvolutionState → List StateTransition → List EvolutionState
since_candidate acc [] = acc
since_candidate acc (t ∷ h) = since_candidate (if t.to == candidate then [] else acc ++ t.to ∷ []) h

-- The way from `candidate` to `active`.
abbrev pub pipeline : List EvolutionState
pipeline =
    evaluating ∷ validated ∷ generalized ∷ eligible ∷ delivered ∷ ci_pending ∷ ci_passed
    ∷ review_pending ∷ approved ∷ accepted ∷ active ∷ []

-- How much of that way lies behind each state.
progress : EvolutionState → ℕ
progress evaluating = 1
progress rejected = 1
progress validated = 2
progress generalized = 3
progress eligible = 4
progress delivered = 5
progress ci_pending = 6
progress ci_failed = 6
progress ci_passed = 7
progress review_pending = 8
progress changes_requested = 8
progress approved = 9
progress accepted = 10
progress active = 11
progress regressed = 11
progress rollback = 11
progress _ = 0

gates : EvolutionState → List EvolutionState
unfolding progress
gates s = take (progress s) pipeline

-- A move of the table passes no gate but the one that it enters, or starts again at `candidate`.
passes_one : EvolutionState → EvolutionState → Bool
unfolding legal_transitions gates
passes_one s t =
    not (includes t (legal_transitions s))
    || t == candidate
    || all (λ g. includes g (t ∷ gates s)) (gates t)

every_state : (s : EvolutionState) → includes s (progress_states ++ failure_states) ≡ true
every_state observed = refl
every_state diagnosed = refl
every_state targeted = refl
every_state hypothesis = refl
every_state candidate = refl
every_state evaluating = refl
every_state validated = refl
every_state generalized = refl
every_state eligible = refl
every_state delivered = refl
every_state ci_pending = refl
every_state ci_passed = refl
every_state review_pending = refl
every_state approved = refl
every_state accepted = refl
every_state active = refl
every_state rejected = refl
every_state ci_failed = refl
every_state changes_requested = refl
every_state regressed = refl
every_state rollback = refl

passes_one_table :
    all
      (λ s. all (λ t. passes_one s t) (progress_states ++ failure_states))
      (progress_states ++ failure_states)
    ≡ true
unfolding passes_one
passes_one_table = refl

passes_one_all : (s t : EvolutionState) → passes_one s t ≡ true
passes_one_all s t =
    all-includes (λ t. passes_one s t) t (progress_states ++ failure_states)
      (all-includes (λ s. all (λ t. passes_one s t) (progress_states ++ failure_states)) s
        (progress_states ++ failure_states) passes_one_table (every_state s))
      (every_state t)

since_candidate-snoc :
    (acc : List EvolutionState) (h : List StateTransition) (t : StateTransition)
    → since_candidate acc (h ++ t ∷ [])
      ≡ (if t.to == candidate then [] else since_candidate acc h ++ t.to ∷ [])
since_candidate-snoc acc [] t = refl
since_candidate-snoc acc (u ∷ h) t =
    since_candidate-snoc (if u.to == candidate then [] else acc ++ u.to ∷ []) h t

-- Every gate of the present state was entered since the last time at `candidate`.
abbrev Passed : Machine → Type 0
Passed m = all (λ g. includes g (since_candidate [] m.history)) (gates m.state) ≡ true

implied : (a b c : Bool) → (not a || b || c) ≡ true → a ≡ true → b ≡ false → c ≡ true
implied a b c h k l = ground arith

both : {a b : Bool} → a ≡ true → b ≡ true → (a && b) ≡ true
both h k = ground arith

includes_snoc : (t : EvolutionState) (l : List EvolutionState) → includes t (l ++ t ∷ []) ≡ true
includes_snoc t l = rw (includes-append t l (t ∷ []), ==-refl t) (ground arith)

gates_step :
    (s t : EvolutionState) (passed : List EvolutionState)
    → includes t (legal_transitions s) ≡ true
    → all (λ g. includes g passed) (gates s) ≡ true
    → all (λ g. includes g (if t == candidate then [] else passed ++ t ∷ [])) (gates t) ≡ true
gates_step s t passed legal h = elim (Bool-cases (t == candidate)) [
  | inl e ↦ rw e (rw (==-eq t candidate e) (unfold gates in refl))
  | inr e ↦ rw e (
      all-includes_trans (gates t) (t ∷ gates s) (passed ++ t ∷ [])
        (unfold passes_one in implied _ _ _ (passes_one_all s t) legal e)
        (both (includes_snoc t passed) (all-includes_append (gates s) passed (t ∷ []) h)))
]

transition-Passed :
    (m : Machine) (r : Request) → Passed m → Passed (transition m r.to r.note r.at).0
transition-Passed m r h = transition_cases Passed m r h (λ legal.
    rw (since_candidate-snoc [] m.history _)
      (gates_step m.state r.to (since_candidate [] m.history) legal h))

run-Passed : (m : Machine) (rs : List Request) → Passed m → Passed (run m rs)
unfolding run
run-Passed m [] h = h
run-Passed m (r ∷ rs) h = run-Passed (transition m r.to r.note r.at).0 rs (transition-Passed m r h)

-- What the gates of a state say where the predicates hold of it.
gates_read :
    (s : EvolutionState) (p : EvolutionState → Bool)
    → all p (gates s) ≡ true
    → (is_active s ≡ true → all p pipeline ≡ true)
      × (is_ci_passed s ≡ true → p ci_passed ≡ true)
      × (is_approved s ≡ true → (p ci_passed ≡ true) × (p approved ≡ true))
unfolding gates is_active is_ci_passed is_approved
gates_read observed p h = (ground arith, ground arith, ground arith)
gates_read _ p h = (ground arith, ground arith, ground arith)

-- The predicates on states are true to the history, after any requests to a machine that began
-- in `observed`: whenever the machine is active, every one of the eleven states of the pipeline
-- has been entered since it was last at `candidate`; whenever `is_ci_passed`, the state
-- `ci_passed` has, and whenever `is_approved`, both `ci_passed` and `approved` have. So neither
-- a CI result nor an approval is carried over to a reworked candidate.
pub run_gates :
    (strict : Bool) (rs : List Request)
    → let m = run (machine observed strict) rs in
      let since = since_candidate [] m.history in
      (is_active m.state ≡ true → all (λ g. includes g since) pipeline ≡ true)
      × (is_ci_passed m.state ≡ true → includes ci_passed since ≡ true)
      × (is_approved m.state ≡ true
          → (includes ci_passed since ≡ true) × (includes approved since ≡ true))
run_gates strict rs =
    let m = run (machine observed strict) rs in
    gates_read m.state (λ g. includes g (since_candidate [] m.history))
      (run-Passed (machine observed strict) rs (unfold machine gates in refl))
