-- ===== src/Runtime/TaskMachine/Examples.antt =====
-- Two tasks of a session, and the theorems at them.
use devagent_ts.Base.{ℕ, none, some, String, List, [], ◌∷◌, ◌≡◌, refl, string_eq}
use devagent_ts.Runtime.TaskMachine.Statuses.{
  TaskStatus, queued, running, blocked, completed, failed,
}
use devagent_ts.Runtime.TaskMachine.{Task, lookup, apply_task_transition, ready_tasks}
use devagent_ts.Runtime.TaskMachine.Updates.{
  TaskEvent, apply_all, lookup-apply_task_transition, lookup-apply_all_final, on_task, moved_task,
}

abbrev task : String → List String → TaskStatus → Task ℕ
task id deps status = record {
  id = id;
  title = id;
  status = status;
  dependencies = deps;
  progress = none;
  worker = none;
}

abbrev session : List (Task ℕ)
session = task "read" [] completed ∷ task "write" ("read" ∷ []) queued ∷ []

lookup-apply_task_transition_example :
    lookup (apply_task_transition session "write" running none) "write"
    ≡ on_task (moved_task running none) (lookup session "write")
lookup-apply_task_transition_example =
    lookup-apply_task_transition session "write" "write" running none

abbrev late : List (TaskEvent ℕ)
late =
    record { task_id = "read"; status = failed; progress = none }
    ∷ record { task_id = "write"; status = blocked; progress = some 40 }
    ∷ []

lookup-apply_all_final_example :
    (u : Task ℕ) × (lookup (apply_all session late) "read" ≡ some u)
    × (u.status ≡ completed)
    × (u.dependencies ≡ [])
lookup-apply_all_final_example =
    lookup-apply_all_final session late "read" (task "read" [] completed) refl refl

write_is_ready : ready_tasks session ≡ task "write" ("read" ∷ []) queued ∷ []
unfolding ready_tasks
write_is_ready = refl
