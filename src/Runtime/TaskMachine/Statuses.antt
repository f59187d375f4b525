-- ===== src/Runtime/TaskMachine/Statuses.antt =====
-- The statuses of src/runtime/types.ts and the table of src/runtime/task-machine.ts.
use devagent_ts.Base.{ℕ, zero, suc, ◌≡◌, refl, List, [], ◌∷◌, StrictEq, eq_by_rank}

pub data TaskStatus : Type 0 where
  queued running blocked completed failed cancelled : TaskStatus

abbrev pub rank : TaskStatus → ℕ
rank queued = 0
rank running = 1
rank blocked = 2
rank completed = 3
rank failed = 4
rank cancelled = 5

abbrev pub unrank : ℕ → TaskStatus
unrank zero = queued
unrank (suc zero) = running
unrank (suc (suc zero)) = blocked
unrank (suc (suc (suc zero))) = completed
unrank (suc (suc (suc (suc zero)))) = failed
unrank (suc (suc (suc (suc (suc n))))) = cancelled

pub unrank-rank : (s : TaskStatus) → unrank (rank s) ≡ s
unrank-rank queued = refl
unrank-rank running = refl
unrank-rank blocked = refl
unrank-rank completed = refl
unrank-rank failed = refl
unrank-rank cancelled = refl

instance abbrev pub status_eq : StrictEq TaskStatus
status_eq = eq_by_rank rank unrank unrank-rank

-- `TRANSITIONS`
abbrev pub transitions : TaskStatus → List TaskStatus
transitions queued = running ∷ blocked ∷ cancelled ∷ []
transitions blocked = queued ∷ running ∷ cancelled ∷ []
transitions running = completed ∷ failed ∷ blocked ∷ cancelled ∷ []
transitions completed = []
transitions failed = queued ∷ []
transitions cancelled = []
