-- ===== src/Evolution/StateMachine.antt =====
-- The lifecycle of a candidate mutation, src/evolution/state-machine.ts.
-- `Date.now()` is an argument; the text of a refusal is kept as the data that it prints.
pub mod States
pub mod Trails
pub mod Gates
pub mod Names
pub mod Legacy
pub mod Recovery
mod Examples
use devagent_ts.Base.{
  ℕ, Bool, true, false, Option, none, some, String, List, [], ◌∷◌, ◌++◌, if◌then◌else◌, ◌==◌,
  includes, is_empty, map, Result, ok, err, not,
}
use States.{
  EvolutionState, observed, diagnosed, targeted, hypothesis, candidate, evaluating, validated,
  generalized, eligible, delivered, ci_pending, ci_passed, review_pending, approved, accepted,
  active, rejected, ci_failed, changes_requested, regressed, rollback, state_eq, progress_states,
  failure_states,
}

pub legal_transitions : EvolutionState → List EvolutionState
legal_transitions observed = diagnosed ∷ []
legal_transitions diagnosed = targeted ∷ []
legal_transitions targeted = hypothesis ∷ []
legal_transitions hypothesis = candidate ∷ []
legal_transitions candidate = evaluating ∷ []
legal_transitions evaluating = validated ∷ rejected ∷ []
legal_transitions validated = generalized ∷ []
legal_transitions generalized = eligible ∷ rejected ∷ []
legal_transitions eligible = delivered ∷ []
legal_transitions delivered = ci_pending ∷ []
legal_transitions ci_pending = ci_passed ∷ ci_failed ∷ []
legal_transitions ci_passed = review_pending ∷ []
legal_transitions review_pending = approved ∷ changes_requested ∷ []
legal_transitions approved = accepted ∷ []
legal_transitions accepted = active ∷ []
legal_transitions active = regressed ∷ []
legal_transitions rejected = []
legal_transitions ci_failed = candidate ∷ []
legal_transitions changes_requested = candidate ∷ []
legal_transitions regressed = rollback ∷ []
legal_transitions rollback = active ∷ []

pub is_terminal_failure : EvolutionState → Bool
is_terminal_failure s = s == rejected

pub is_active : EvolutionState → Bool
is_active s = s == active

pub is_ci_passed : EvolutionState → Bool
is_ci_passed s = includes s (ci_passed ∷ review_pending ∷ approved ∷ accepted ∷ active ∷ [])

pub is_approved : EvolutionState → Bool
is_approved s = includes s (approved ∷ accepted ∷ active ∷ [])

-- `PROGRESS_INDEX.has(state)`
pub is_progress_state : EvolutionState → Bool
is_progress_state s = includes s progress_states

pub record StateTransition : Type 0 where
  pub from : EvolutionState
  pub to : EvolutionState
  pub at : ℕ
  pub note : Option String

-- What the refusal's text prints: the move, and the moves that were legal.
pub record Refusal : Type 0 where
  pub from : EvolutionState
  pub to : EvolutionState
  pub legal_next : List EvolutionState

pub record StateTransitionResult : Type 0 where
  pub succeeded : Bool
  pub from : EvolutionState
  pub to : EvolutionState
  pub reason : Option Refusal

-- `InvalidTransitionError`
pub record InvalidTransition : Type 0 where
  pub from : EvolutionState
  pub to : EvolutionState

pub record Machine : Type 0 where
  pub state : EvolutionState
  pub history : List StateTransition
  pub strict : Bool

-- `new EvolutionStateMachine(initial, { strict })`; the defaults are `observed` and `true`.
pub machine : EvolutionState → Bool → Machine
machine initial strict = record { state = initial; history = []; strict = strict }

pub next_states : Machine → List EvolutionState
unfolding legal_transitions
next_states m = legal_transitions m.state

pub can_transition : Machine → EvolutionState → Bool
unfolding next_states
can_transition m to = includes to (next_states m)

pub transition :
    Machine
    → EvolutionState
    → Option String
    → ℕ
    → Machine × Result InvalidTransition StateTransitionResult
unfolding can_transition
transition m to note now =
    if not (can_transition m to)
    then (
      m,
      if m.strict
          then err (record { from = m.state; to = to })
          else ok (record {
            succeeded = false;
            from = m.state;
            to = to;
            reason = some (record { from = m.state; to = to; legal_next = next_states m });
          }),
    )
    else (
      record m {
        state = to;
        history = m.history ++ record { from = m.state; to = to; at = now; note = note } ∷ [];
      },
      ok (record { succeeded = true; from = m.state; to = to; reason = none }),
    )

pub is_failed : Machine → Bool
is_failed m = includes m.state failure_states

pub is_accepted : Machine → Bool
unfolding is_active
is_accepted m = is_active m.state

pub record TimelineEntry : Type 0 where
  pub state : EvolutionState
  pub at : ℕ
  pub note : Option String

abbrev pub entry_of : StateTransition → TimelineEntry
entry_of t = record { state = t.to; at = t.at; note = t.note }

pub to_timeline : Machine → ℕ → List TimelineEntry
to_timeline m now =
    let timeline = map entry_of m.history in
    if is_empty timeline then record { state = m.state; at = now; note = none } ∷ [] else timeline

-- A request to a machine: the state to enter, the note and the time.
pub record Request : Type 0 where
  pub to : EvolutionState
  pub note : Option String
  pub at : ℕ

-- The machine after a series of calls of `transition`, refused ones included.
pub run : Machine → List Request → Machine
run m [] = m
run m (r ∷ rs) = run (transition m r.to r.note r.at).0 rs
