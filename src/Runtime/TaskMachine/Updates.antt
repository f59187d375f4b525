-- ===== src/Runtime/TaskMachine/Updates.antt =====
-- Updates of a task under its id, src/runtime/task-machine.ts.
use mathlib.Core.Path.{subst}
use devagent_ts.Base.{
  Bool, true, false, ◌&&◌, ◌||◌, Option, none, some, String, List, [], ◌∷◌, map, includes,
  if◌then◌else◌, ◌==◌, ◌≡◌, inl, inr, refl, sym, ap, ◌∙◌, arith, string_eq, eq_iff, Bool-cases,
  Option-cases, ==-eq,
}
use devagent_ts.Runtime.TaskMachine.Statuses.{TaskStatus, status_eq, completed, cancelled}
use devagent_ts.Runtime.TaskMachine.{
  Task, can_transition, is_given, or_else, lookup, update_task, apply_to, apply_task_transition,
}

abbrev pub on_task {ℓ} : {A : Type ℓ} → (A → A) → Option A → Option A
on_task f none = none
on_task f (some t) = some (f t)

-- No status is in its own row of the table.
stays : (s : TaskStatus) → can_transition s s ≡ false
unfolding can_transition
stays TaskStatus.queued = refl
stays TaskStatus.running = refl
stays TaskStatus.blocked = refl
stays completed = refl
stays TaskStatus.failed = refl
stays cancelled = refl

-- An event of the task graph: the arguments of `applyTaskTransition`.
pub record TaskEvent (Number : Type 0) : Type 0 where
  pub task_id : String
  pub status : TaskStatus
  pub progress : Option Number

-- A row without moves: only a repeated status is followed.
final_row :
    (s status : TaskStatus) (given : Bool)
    → includes s (completed ∷ cancelled ∷ []) ≡ true
    → (can_transition s status || s == status && given) ≡ true
    → (s == status) ≡ true
unfolding can_transition
final_row s status given h y = ground arith

module _ {Number : Type 0} where
  -- An event is followed if its move is in the table, or if it brings progress to a task that has
  -- its status.
  abbrev pub is_followed : TaskStatus → Option Number → Task Number → Bool
  is_followed status progress t =
      can_transition t.status status || t.status == status && is_given progress

  abbrev pub rewritten : TaskStatus → Option Number → Task Number → Task Number
  rewritten status progress t = record t { status = status; progress = or_else progress t.progress }

  -- What an event does to the task that it names.
  abbrev pub moved_task : TaskStatus → Option Number → Task Number → Task Number
  moved_task status progress t =
      if is_followed status progress t then rewritten status progress t else t

  lookup-map :
      (id j : String) (status : TaskStatus) (progress : Option Number) (ts : List (Task Number))
      → lookup (map (update_task id status progress) ts) j ≡ (
          if id == j
          then on_task
              (λ t. record t { status = status; progress = or_else progress t.progress })
              (lookup ts j)
          else lookup ts j)
  unfolding update_task
  lookup-map id j status progress [] = ground arith
  lookup-map id j status progress (t ∷ ts) =
      ground (arith, lookup-map id j status progress ts, eq_iff t.id id, eq_iff t.id j, eq_iff id j)

  apply_to_lem :
      (ts : List (Task Number)) (id : String) (status : TaskStatus) (progress : Option Number)
      (t : Task Number)
      → apply_to ts id status progress t
        ≡ (if is_followed status progress t then map (update_task id status progress) ts else ts)
  unfolding apply_to
  apply_to_lem ts id status progress t = elim (Bool-cases (t.status == status)) [
    | inl same ↦
        rw (same, ==-eq t.status status same, stays status)
          (elim (Bool-cases (is_given progress)) [ inl g ↦ rw g refl | inr g ↦ rw g refl ])
    | inr differs ↦ rw differs (elim (Bool-cases (can_transition t.status status)) [
      | inl g ↦ rw g refl
      | inr g ↦ rw g refl
    ])
  ]

  module _ (ts : List (Task Number)) (id j : String) where
    absent_unchanged :
        (f : Task Number → Task Number)
        → lookup ts id ≡ none
        → lookup ts j ≡ (if id == j then on_task f (lookup ts j) else lookup ts j)
    absent_unchanged f e = elim (Bool-cases (id == j)) [
      | inl s ↦
          let q : lookup ts j ≡ none = subst (λ k. lookup ts k ≡ none) (==-eq id j s) e in
          rw (s, q) refl
      | inr d ↦ rw d refl
    ]

    -- Two changes that agree on the task of the id.
    agreeing_changes :
        (f h : Task Number → Task Number) (t : Task Number)
        → lookup ts id ≡ some t
        → f t ≡ h t
        → (if id == j then on_task f (lookup ts j) else lookup ts j)
          ≡ (if id == j then on_task h (lookup ts j) else lookup ts j)
    agreeing_changes f h t e agree = elim (Bool-cases (id == j)) [
      | inl s ↦
          let q : lookup ts j ≡ some t = subst (λ k. lookup ts k ≡ some t) (==-eq id j s) e in
          rw (s, q) (ap some agree)
      | inr d ↦ rw d refl
    ]

    identity_change :
        lookup ts j ≡ (if id == j then on_task (λ t. t) (lookup ts j) else lookup ts j)
    identity_change = elim (Bool-cases (id == j)) [
      | inl s ↦ elim (Option-cases (lookup ts j)) [
        | inl q ↦ rw (s, q) refl
        | inr (t, q) ↦ rw (s, q) refl
      ]
      | inr d ↦ rw d refl
    ]

  apply_to-moved :
      (ts : List (Task Number)) (id j : String) (status : TaskStatus) (progress : Option Number)
      (t : Task Number)
      → lookup ts id ≡ some t
      → lookup (apply_to ts id status progress t) j
        ≡ (if id == j then on_task (moved_task status progress) (lookup ts j) else lookup ts j)
  apply_to-moved ts id j status progress t e =
      ap (λ l. lookup l j) (apply_to_lem ts id status progress t)
      ∙ elim (Bool-cases (is_followed status progress t)) [
        | inl y ↦ rw y (
            lookup-map id j status progress ts
            ∙ agreeing_changes ts id j (rewritten status progress) (moved_task status progress) t e
                (rw y refl))
        | inr y ↦ rw y (
            identity_change ts id j
            ∙ agreeing_changes ts id j (λ u. u) (moved_task status progress) t e (rw y refl))
      ]

  -- A list of tasks under `applyTaskTransition` is a map from ids to tasks in which one task
  -- moves: the first task of an id is moved if the event names the id, and is otherwise as it was.
  pub lookup-apply_task_transition :
      (ts : List (Task Number)) (id j : String) (status : TaskStatus) (progress : Option Number)
      → lookup (apply_task_transition ts id status progress) j
        ≡ (if id == j then on_task (moved_task status progress) (lookup ts j) else lookup ts j)
  unfolding apply_task_transition apply_to
  lookup-apply_task_transition ts id j status progress = elim (Option-cases (lookup ts id)) [
    | inl e ↦ rw (e, apply_task_transition) (absent_unchanged ts id j _ e)
    | inr (t, e) ↦ rw (e, apply_task_transition) (apply_to-moved ts id j status progress t e)
  ]

  unfoldable pub apply_all : List (Task Number) → List (TaskEvent Number) → List (Task Number)
  apply_all ts [] = ts
  apply_all ts (e ∷ es) = apply_all (apply_task_transition ts e.task_id e.status e.progress) es

  moved_task_final :
      (status : TaskStatus) (progress : Option Number) (t : Task Number)
      → includes t.status (completed ∷ cancelled ∷ []) ≡ true
      → ((moved_task status progress t).status ≡ t.status)
        × ((moved_task status progress t).dependencies ≡ t.dependencies)
  unfolding can_transition
  moved_task_final status progress t h = elim (Bool-cases (is_followed status progress t)) [
    | inl y ↦
        rw y (sym (==-eq t.status status (final_row t.status status (is_given progress) h y)), refl)
    | inr n ↦ rw n (refl, refl)
  ]

  -- Events may come late or twice: whatever events follow, the task of an id that is completed or
  -- cancelled is still there, with its status and its dependencies.
  pub lookup-apply_all_final :
      (ts : List (Task Number)) (es : List (TaskEvent Number)) (j : String) (t : Task Number)
      → lookup ts j ≡ some t
      → includes t.status (completed ∷ cancelled ∷ []) ≡ true
      → (u : Task Number) × (lookup (apply_all ts es) j ≡ some u)
        × (u.status ≡ t.status)
        × (u.dependencies ≡ t.dependencies)
  unfolding apply_all
  lookup-apply_all_final ts [] j t e h = (t, e, refl, refl)
  lookup-apply_all_final ts (v ∷ es) j t e h =
      let ts' = apply_task_transition ts v.task_id v.status v.progress in
      elim (Bool-cases (v.task_id == j)) [
        | inl s ↦
            let (same_status, same_deps) = moved_task_final v.status v.progress t h in
            let now : lookup ts' j ≡ some (moved_task v.status v.progress t) =
              lookup-apply_task_transition ts v.task_id j v.status v.progress ∙ rw (s, e) refl in
            let (u, e', p, q) =
              lookup-apply_all_final ts' es j (moved_task v.status v.progress t) now
                (rw same_status h) in
            (u, e', p ∙ same_status, q ∙ same_deps)
        | inr d ↦
            lookup-apply_all_final ts' es j t
              (lookup-apply_task_transition ts v.task_id j v.status v.progress ∙ rw d e) h
      ]
