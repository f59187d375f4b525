-- ===== src/Evolution/StateMachine/Names.antt =====
-- The persisted names of the states, and `normalizeLegacyState` of
-- src/evolution/state-machine.ts.
use devagent_ts.Base.{
  Bool, true, Option, some, String, List, [], ◌∷◌, ◌++◌, if◌then◌else◌, ◌==◌, ◌≡◌, refl, arith,
  find?, ◌⊎◌, ◌↔◌, ap, sym, ◌∙◌, inl, inr, ==-eq, Bool-cases, string_eq,
}
use devagent_ts.Evolution.StateMachine.States.{
  EvolutionState, observed, diagnosed, targeted, hypothesis, candidate, evaluating, validated,
  generalized, eligible, delivered, ci_pending, ci_passed, review_pending, approved, accepted,
  active, rejected, ci_failed, changes_requested, regressed, rollback, progress_states,
  failure_states,
}

-- The string that stands for a state in the source and in persisted records.
pub name : EvolutionState → String
name observed = "OBSERVED"
name diagnosed = "DIAGNOSED"
name targeted = "TARGETED"
name hypothesis = "HYPOTHESIS"
name candidate = "CANDIDATE"
name evaluating = "EVALUATING"
name validated = "VALIDATED"
name generalized = "GENERALIZED"
name eligible = "ELIGIBLE"
name delivered = "DELIVERED"
name ci_pending = "CI_PENDING"
name ci_passed = "CI_PASSED"
name review_pending = "REVIEW_PENDING"
name approved = "APPROVED"
name accepted = "ACCEPTED"
name active = "ACTIVE"
name rejected = "REJECTED"
name ci_failed = "CI_FAILED"
name changes_requested = "CHANGES_REQUESTED"
name regressed = "REGRESSED"
name rollback = "ROLLBACK"

-- The list test finds a name, and the cast makes the string a state.
pub state_of_name : String → Option EvolutionState
unfolding name
state_of_name s = find? (λ t. name t == s) (progress_states ++ failure_states)

pub normalize_legacy_state : String → Option EvolutionState
unfolding state_of_name
normalize_legacy_state s = if s == "REVIEWED" then some review_pending else state_of_name s

normalize-name : (s : EvolutionState) → normalize_legacy_state (name s) ≡ some s
unfolding normalize_legacy_state
normalize-name observed = refl
normalize-name diagnosed = refl
normalize-name targeted = refl
normalize-name hypothesis = refl
normalize-name candidate = refl
normalize-name evaluating = refl
normalize-name validated = refl
normalize-name generalized = refl
normalize-name eligible = refl
normalize-name delivered = refl
normalize-name ci_pending = refl
normalize-name ci_passed = refl
normalize-name review_pending = refl
normalize-name approved = refl
normalize-name accepted = refl
normalize-name active = refl
normalize-name rejected = refl
normalize-name ci_failed = refl
normalize-name changes_requested = refl
normalize-name regressed = refl
normalize-name rollback = refl

find?-sound {ℓ} : {A : Type ℓ} (p : A → Bool) (l : List A) (a : A) → find? p l ≡ some a → p a ≡ true
find?-sound p [] a h = ground arith
find?-sound p (x ∷ l) a h = ground (arith, find?-sound p l a)

normalize_sound :
    (text : String) (s : EvolutionState)
    → normalize_legacy_state text ≡ some s
    → (name s ≡ text) ⊎ ((text ≡ "REVIEWED") × (s ≡ review_pending))
unfolding normalize_legacy_state
normalize_sound text s h = elim (Bool-cases (text == "REVIEWED")) [
  | inl e ↦ inr (==-eq text "REVIEWED" e, ground arith)
  | inr e ↦ inl (
      ==-eq (name s) text
        (find?-sound (λ t. name t == text) (progress_states ++ failure_states) s (rw e at h)))
]

legacy_name : normalize_legacy_state "REVIEWED" ≡ some review_pending
unfolding normalize_legacy_state
legacy_name = refl

normalize_complete :
    (text : String) (s : EvolutionState)
    → (name s ≡ text) ⊎ ((text ≡ "REVIEWED") × (s ≡ review_pending))
    → normalize_legacy_state text ≡ some s
normalize_complete text s (inl e) = ap normalize_legacy_state (sym e) ∙ normalize-name s
normalize_complete text s (inr (e, r)) = ap normalize_legacy_state e ∙ legacy_name ∙ ap some (sym r)

-- A persisted name is read back as the state that it was written for. A text is read as a state
-- exactly if it is the state's name, or the legacy "REVIEWED", which is read as `review_pending`;
-- any other text is refused.
pub normalize_legacy_state_roundtrip :
    ((s : EvolutionState) → normalize_legacy_state (name s) ≡ some s)
    × ((text : String) (s : EvolutionState)
        → (normalize_legacy_state text ≡ some s)
          ↔ ((name s ≡ text) ⊎ ((text ≡ "REVIEWED") × (s ≡ review_pending))))
normalize_legacy_state_roundtrip =
    (normalize-name, λ text s. (normalize_sound text s, normalize_complete text s))
