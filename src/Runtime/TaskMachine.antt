-- ===== src/Runtime/TaskMachine.antt =====
-- The task state machine of a session, src/runtime/task-machine.ts, and the tasks of
-- src/runtime/types.ts. The numbers that measure progress are a parameter.
pub mod Statuses
pub mod Updates
mod Examples
use devagent_ts.Base.{
  Bool, true, false, not, ◌&&◌, ◌||◌, Option, none, some, String, List, [], ◌∷◌, map, filter, find?,
  all, includes, if◌then◌else◌, ◌==◌, string_eq,
}
use Statuses.{TaskStatus, status_eq, queued, blocked, completed, transitions}

unfoldable pub can_transition : TaskStatus → TaskStatus → Bool
can_transition from to = includes to (transitions from)

pub record Task (Number : Type 0) : Type 0 where
  pub id : String
  pub title : String
  pub status : TaskStatus
  pub dependencies : List String
  pub progress : Option Number
  pub worker : Option String

abbrev pub is_given {ℓ} : {A : Type ℓ} → Option A → Bool
is_given none = false
is_given (some a) = true

abbrev pub or_else {ℓ} : {A : Type ℓ} → Option A → Option A → Option A
or_else none b = b
or_else (some a) b = some a

module _ {Number : Type 0} where
  abbrev pub lookup : List (Task Number) → String → Option (Task Number)
  lookup tasks id = find? (λ t. t.id == id) tasks

  unfoldable pub update_task : String → TaskStatus → Option Number → Task Number → Task Number
  update_task id status progress t =
      if t.id == id then record t { status = status; progress = or_else progress t.progress } else t

  -- The rest of `applyTaskTransition`, once the task is found.
  unfoldable pub apply_to :
      List (Task Number) → String → TaskStatus → Option Number → Task Number → List (Task Number)
  apply_to tasks id status progress task =
      let status_changes = not (task.status == status) in
      if status_changes && not (can_transition task.status status)
      then tasks
      else if not status_changes && not (is_given progress)
      then tasks
      else map (update_task id status progress) tasks

  unfoldable pub apply_task_transition :
      List (Task Number) → String → TaskStatus → Option Number → List (Task Number)
  apply_task_transition tasks id status progress = elim (lookup tasks id) [
    | none ↦ tasks
    | some task ↦ apply_to tasks id status progress task
  ]

  unfoldable pub ready_tasks : List (Task Number) → List (Task Number)
  ready_tasks tasks =
      let done = map (λ t. t.id) (filter (λ t. t.status == completed) tasks) in
      filter
        (λ t.
          (t.status == queued || t.status == blocked) && all (λ d. includes d done) t.dependencies)
        tasks
