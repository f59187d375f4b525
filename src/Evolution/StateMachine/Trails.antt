-- ===== src/Evolution/StateMachine/Trails.antt =====
-- The audit trail of src/evolution/state-machine.ts: what the recorded history says of the state.
use devagent_ts.Base.{
  ℕ, Bool, true, false, none, List, [], ◌∷◌, ◌++◌, if◌then◌else◌, ◌≡◌, refl, sym, ◌∙◌, arith,
  includes, is_empty, map, Bool-cases, inl, inr,
}
use devagent_ts.Evolution.StateMachine.States.{EvolutionState, rejected, state_eq}
use devagent_ts.Evolution.StateMachine.{
  StateTransition, Machine, machine, Request, transition, run, legal_transitions, can_transition,
  TimelineEntry, entry_of, to_timeline,
}

-- The moves lead from the first state to the last, each from where the one before it ended, and
-- each is in the table.
abbrev pub Trail : EvolutionState → List StateTransition → EvolutionState → Type 0
Trail s [] e = s ≡ e
Trail s (t ∷ h) e = (t.from ≡ s) × (includes t.to (legal_transitions s) ≡ true) × Trail t.to h e

Trail-snoc :
    (s e : EvolutionState) (h : List StateTransition) (t : StateTransition)
    → Trail s h e
    → t.from ≡ e
    → includes t.to (legal_transitions e) ≡ true
    → Trail s (h ++ t ∷ []) t.to
Trail-snoc s e [] t trail from legal = (from ∙ sym trail, ground (arith, trail), refl)
Trail-snoc s e (u ∷ h) t trail from legal =
    (trail.0, trail.1, Trail-snoc u.to e h t trail.2 from legal)

-- A legal move is taken and recorded; an illegal one changes nothing.
pub transition_cases {ℓ} :
    (P : Machine → Type ℓ) (m : Machine) (r : Request)
    → P m
    → (includes r.to (legal_transitions m.state) ≡ true
        → P (record m {
          state = r.to;
          history =
              m.history ++ record { from = m.state; to = r.to; at = r.at; note = r.note } ∷ [];
        }))
    → P (transition m r.to r.note r.at).0
unfolding transition
transition_cases P m r same moved = elim (Bool-cases (can_transition m r.to)) [
  | inl e ↦ rw e (moved e)
  | inr e ↦ rw e same
]

run-Trail_from :
    (initial : EvolutionState) (m : Machine) (rs : List Request)
    → Trail initial m.history m.state
    → Trail initial (run m rs).history (run m rs).state
unfolding run
run-Trail_from initial m [] h = h
run-Trail_from initial m (r ∷ rs) h = run-Trail_from initial (transition m r.to r.note r.at).0 rs (
    transition_cases (λ n. Trail initial n.history n.state) m r h
      (λ legal. Trail-snoc initial m.state m.history _ h refl legal))

-- After any series of requests, legal or not, to a machine that began in `initial`, strict or
-- lax, the recorded history is an unbroken chain of moves of the table from `initial` to the
-- present state.
pub run-Trail :
    (initial : EvolutionState) (strict : Bool) (rs : List Request)
    → let m = run (machine initial strict) rs in Trail initial m.history m.state
unfolding machine
run-Trail initial strict rs = run-Trail_from initial (machine initial strict) rs refl

transition_of_rejected :
    (m : Machine) (r : Request) → m.state ≡ rejected → (transition m r.to r.note r.at).0 ≡ m
unfolding legal_transitions
transition_of_rejected m r h =
    transition_cases (λ n. n ≡ m) m r refl
      (λ legal.
        let none_legal : includes r.to (legal_transitions m.state) ≡ false = rw h refl in cc)

-- A rejected candidate stays as it is, history included, whatever is requested of it.
pub run_of_rejected : (m : Machine) (rs : List Request) → m.state ≡ rejected → run m rs ≡ m
unfolding run
run_of_rejected m [] h = refl
run_of_rejected m (r ∷ rs) h = rw (transition_of_rejected m r h) (run_of_rejected m rs h)

-- The state of the last entry of a timeline.
abbrev pub last_state : EvolutionState → List TimelineEntry → EvolutionState
last_state s [] = s
last_state s (e ∷ es) = last_state e.state es

last_state-Trail :
    (s e : EvolutionState) (h : List StateTransition)
    → Trail s h e
    → last_state s (map entry_of h) ≡ e
last_state-Trail s e [] trail = trail
last_state-Trail s e (t ∷ h) trail = last_state-Trail t.to e h trail.2

timeline_ends :
    (initial : EvolutionState) (m : Machine) (now : ℕ)
    → Trail initial m.history m.state
    → (is_empty (to_timeline m now) ≡ false)
      × ((s : EvolutionState) → last_state s (to_timeline m now) ≡ m.state)
unfolding to_timeline
timeline_ends initial m now trail = go m.history trail
  where
    go :
        (h : List StateTransition)
        → Trail initial h m.state
        → let l = map entry_of h in
          (is_empty
              (if is_empty l then record { state = m.state; at = now; note = none } ∷ [] else l)
            ≡ false)
          × ((s : EvolutionState)
              → last_state s
                  (if is_empty l then record { state = m.state; at = now; note = none } ∷ [] else l)
                ≡ m.state)
    go [] trail = (refl, λ s. refl)
    go (t ∷ h) trail = (refl, λ s. last_state-Trail t.to m.state h trail.2)

-- The timeline of a machine is never empty and ends in the machine's present state, whatever
-- state stands for one before its first entry.
pub last_state-to_timeline :
    (initial : EvolutionState) (strict : Bool) (rs : List Request) (now : ℕ)
    → let m = run (machine initial strict) rs in
      (is_empty (to_timeline m now) ≡ false)
      × ((s : EvolutionState) → last_state s (to_timeline m now) ≡ m.state)
last_state-to_timeline initial strict rs now =
    timeline_ends initial (run (machine initial strict) rs) now (run-Trail initial strict rs)
