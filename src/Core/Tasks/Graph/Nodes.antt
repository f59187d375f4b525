-- ===== src/Core/Tasks/Graph/Nodes.antt =====
-- The nodes of src/core/tasks/task-graph.ts and the table of their transitions.
use devagent_ts.Base.{
  ℕ, zero, suc, ◌≡◌, refl, Bool, Option, none, some, String, List, [], ◌∷◌, StrictEq, eq_by_rank,
  includes,
}

pub data TaskPriority : Type 0 where
  critical normal : TaskPriority

pub data GraphNodeStatus : Type 0 where
  pending ready running blocked completed failed cancelled skipped : GraphNodeStatus

abbrev pub rank : GraphNodeStatus → ℕ
rank pending = 0
rank ready = 1
rank running = 2
rank blocked = 3
rank completed = 4
rank failed = 5
rank cancelled = 6
rank skipped = 7

abbrev pub unrank : ℕ → GraphNodeStatus
unrank zero = pending
unrank (suc zero) = ready
unrank (suc (suc zero)) = running
unrank (suc (suc (suc zero))) = blocked
unrank (suc (suc (suc (suc zero)))) = completed
unrank (suc (suc (suc (suc (suc zero))))) = failed
unrank (suc (suc (suc (suc (suc (suc zero)))))) = cancelled
unrank (suc (suc (suc (suc (suc (suc (suc n))))))) = skipped

pub unrank-rank : (s : GraphNodeStatus) → unrank (rank s) ≡ s
unrank-rank pending = refl
unrank-rank ready = refl
unrank-rank running = refl
unrank-rank blocked = refl
unrank-rank completed = refl
unrank-rank failed = refl
unrank-rank cancelled = refl
unrank-rank skipped = refl

instance abbrev pub status_eq : StrictEq GraphNodeStatus
status_eq = eq_by_rank rank unrank unrank-rank

-- `TRANSITIONS`
unfoldable pub transitions : GraphNodeStatus → List GraphNodeStatus
transitions pending = ready ∷ failed ∷ blocked ∷ cancelled ∷ skipped ∷ []
transitions ready = running ∷ failed ∷ blocked ∷ cancelled ∷ skipped ∷ []
transitions running = completed ∷ failed ∷ blocked ∷ cancelled ∷ []
transitions blocked = ready ∷ pending ∷ cancelled ∷ skipped ∷ []
transitions failed = ready ∷ pending ∷ cancelled ∷ skipped ∷ []
transitions completed = []
transitions cancelled = []
transitions skipped = []

pub record TaskNodeSpec : Type 0 where
  pub id : Option String
  pub goal : String
  pub dependencies : List String
  pub priority : Option TaskPriority
  pub deadline_ms : Option ℕ
  pub resource_locks : List String
  pub exclusive : Bool
  pub max_retries : ℕ

pub record TaskNode : Type 0 where
  pub id : String
  pub goal : String
  pub dependencies : List String
  pub priority : TaskPriority
  pub deadline_ms : Option ℕ
  pub resource_locks : List String
  pub exclusive : Bool
  pub max_retries : ℕ
  pub skip_reason : Option String
  pub deadline_exceeded : Bool
  pub status : GraphNodeStatus
  pub attempt : ℕ
  pub added_at : ℕ

abbrev pub or_else {ℓ} : {A : Type ℓ} → Option A → A → A
or_else none a = a
or_else (some b) a = b

abbrev pub has_status : TaskNode → List GraphNodeStatus → Bool
has_status n l = includes n.status l

-- ["pending", "ready", "blocked"].includes(status)
abbrev pub is_skippable : GraphNodeStatus → Bool
is_skippable s = includes s (pending ∷ ready ∷ blocked ∷ [])

-- ["completed", "failed", "skipped", "cancelled"].includes(status)
abbrev pub is_terminal : GraphNodeStatus → Bool
is_terminal s = includes s (completed ∷ failed ∷ skipped ∷ cancelled ∷ [])
