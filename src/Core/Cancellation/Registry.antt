-- ===== src/Core/Cancellation/Registry.antt =====
-- `CancellationRegistry`, src/core/cancellation/cancellation.ts. A set of entries is a number, since
-- the functions that `register` returns keep the set and not the run.
use devagent_ts.Base.{
  ℕ, suc, not, Option, none, some, String, string_eq, nat_eq, List, [], ◌∷◌, ◌++◌, if◌then◌else◌,
  ◌==◌, filter, is_empty, length, map,
}
use devagent_ts.Base.Dict.{Dict, get, set, delete}
use devagent_ts.Core.Cancellation.{Signals, aborted, abort_scope}

pub record Entry : Type 0 where
  pub number : ℕ
  pub scope : ℕ

-- `scopes` leads from runs to sets.
pub record CancellationRegistry : Type 0 where
  pub scopes : Dict String ℕ
  pub sets : Dict ℕ (List Entry)
  pub next_entry : ℕ

abbrev pub no_scopes : CancellationRegistry
no_scopes = record { scopes = []; sets = []; next_entry = 0 }

-- What the function that `register` returns refers to.
pub record Registration : Type 0 where
  pub run_id : String
  pub set_id : ℕ
  pub number : ℕ

abbrev pub entries_of : Option (List Entry) → List Entry
entries_of none = []
entries_of (some es) = es

-- The set of a run, or a new one.
abbrev pub set_for : String → CancellationRegistry → ℕ
set_for run_id g = elim (get run_id g.scopes) [ none ↦ g.next_entry | some id ↦ id ]

unfoldable pub register : String → ℕ → CancellationRegistry → CancellationRegistry × Registration
register run_id scope g =
    let id = set_for run_id g in
    (
      record {
        scopes = set run_id id g.scopes;
        sets =
            set id
              (entries_of (get id g.sets) ++ record { number = g.next_entry; scope = scope } ∷ [])
              g.sets;
        next_entry = suc g.next_entry;
      },
      record { run_id = run_id; set_id = id; number = g.next_entry },
    )

-- The function that `register` returns.
unfoldable pub unregister : Registration → CancellationRegistry → CancellationRegistry
unregister x g =
    let left = filter (λ e. not (e.number == x.number)) (entries_of (get x.set_id g.sets)) in
    record g {
      sets = set x.set_id left g.sets;
      scopes = if is_empty left then delete x.run_id g.scopes else g.scopes;
    }

-- The entries that `cancel` goes through.
abbrev pub registered : String → CancellationRegistry → List Entry
registered run_id g = elim (get run_id g.scopes) [
  | none ↦ []
  | some id ↦ entries_of (get id g.sets)
]

abbrev pub cancel_each : Option String → List Entry → Signals → ℕ → Signals × ℕ
cancel_each reason [] st n = (st, n)
cancel_each reason (e ∷ es) st n =
    if aborted e.scope st
    then cancel_each reason es st n
    else cancel_each reason es (abort_scope e.scope reason st) (suc n)

-- `cancel`: the signals after it, and its count.
unfoldable pub cancel : String → Option String → CancellationRegistry → Signals → Signals × ℕ
cancel run_id reason g st = cancel_each reason (registered run_id g) st 0

unfoldable pub active_scope_count : String → CancellationRegistry → ℕ
active_scope_count run_id g = length (registered run_id g)

abbrev pub active_run_ids : CancellationRegistry → List String
active_run_ids g = map (λ p. p.0) g.scopes
