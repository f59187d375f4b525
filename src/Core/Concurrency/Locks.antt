-- ===== src/Core/Concurrency/Locks.antt =====
-- `ResourceLockRegistry`, src/core/concurrency/resource-locks.ts. A waiter's promise is its number,
-- and what an operation resolves or rejects is part of its result. A timer is an event of its own.
pub mod Tables
pub mod Exclusion
pub mod Wakeup
pub mod Serving
mod Examples
use devagent_ts.Base.{
  length, ℕ, suc, ◌+◌, Bool, true, false, not, ◌&&◌, ◌||◌, Option, none, some, String, List, [],
  ◌∷◌, ◌++◌, if◌then◌else◌, ◌==◌, all, any, filter, find?, is_empty, add_all, includes, nat_eq,
  string_eq,
}
use devagent_ts.Base.Dict.{Dict, get, set, delete}
use Tables.{grant_each, release_each, or_empty}

pub data LockPriority : Type 0 where
  critical normal : LockPriority

abbrev pub is_critical : LockPriority → Bool
is_critical critical = true
is_critical normal = false

pub record Waiter : Type 0 where
  pub promise : ℕ
  pub resources : List String
  pub priority : LockPriority
  pub has_timer : Bool

-- `released` holds the closures that have been called, by their holder's number.
pub record Registry : Type 0 where
  pub holders : Dict String (List ℕ)
  pub held_by : Dict ℕ (List String)
  pub next_holder_id : ℕ
  pub waiters : List Waiter
  pub released : List ℕ

abbrev pub empty : Registry
empty = record { holders = []; held_by = []; next_holder_id = 1; waiters = []; released = [] }

-- A release function: that of a holder, or the one that does nothing.
pub data Release : Type 0 where
  nothing : Release
  holder : ℕ → Release

abbrev pub holders_of : Registry → String → List ℕ
holders_of reg r = or_empty (get r reg.holders)

abbrev pub held_of : Registry → ℕ → List String
held_of reg id = or_empty (get id reg.held_by)

unfoldable pub is_free : Registry → String → Bool
is_free reg r = is_empty (holders_of reg r)

unfoldable pub is_free_set : Registry → List String → Bool
unfolding is_free
is_free_set reg rs = all (λ r. is_free reg r) rs

unfoldable pub grant : Registry → List String → Registry × Release
grant reg rs =
    let id = reg.next_holder_id in
    (
      record reg {
        next_holder_id = suc id;
        held_by = set id (add_all [] rs) reg.held_by;
        holders = grant_each id rs reg.holders;
      },
      holder id,
    )

unfoldable pub try_acquire : Registry → List String → Registry × Option Release
unfolding is_free
try_acquire reg rs =
    if is_empty rs
    then (reg, some nothing)
    else if any (λ r. not (is_free reg r)) rs
    then (reg, none)
    else let (reg', release) = grant reg rs in (reg', some release)

-- The stable sort of the waiters: the critical ones first.
unfoldable pub serving_order : List Waiter → List Waiter
serving_order ws =
    filter (λ w. is_critical w.priority) ws ++ filter (λ w. not (is_critical w.priority)) ws

unfoldable pub without_waiter : ℕ → List Waiter → List Waiter
without_waiter promise [] = []
without_waiter promise (w ∷ ws) =
    let rest = without_waiter promise ws in if w.promise == promise then ws else w ∷ rest

-- A promise that was resolved, with its release function.
abbrev pub Resolved : Type 0
Resolved = Option (ℕ × Release)

-- The waiter that is served, if there is one.
unfoldable pub serve : Registry → Option Waiter → Registry × Resolved
serve reg none = (reg, none)
serve reg (some w) =
    let (reg', release) =
      grant (record reg { waiters = without_waiter w.promise reg.waiters }) w.resources in
    (reg', some (w.promise, release))

unfoldable pub pump : Registry → Registry × Resolved
pump reg = serve reg (find? (λ w. is_free_set reg w.resources) (serving_order reg.waiters))

-- What the release function does before it pumps.
unfoldable pub free_holder : Registry → ℕ → Registry
free_holder reg id = record reg {
  released = id ∷ reg.released;
  holders = release_each id (held_of reg id) reg.holders;
  held_by = delete id reg.held_by;
}

unfoldable pub release : Registry → Release → Registry × Resolved
release reg nothing = (reg, none)
release reg (holder id) =
    if includes id reg.released then (reg, none) else pump (free_holder reg id)

pub data Acquired : Type 0 where
  resolved : Release → Acquired
  queued : Acquired

-- The rest of `acquire` after its fast attempt.
unfoldable pub enqueue : Registry → Waiter → Option Release → Registry × Acquired
enqueue reg w (some release) = (reg, resolved release)
enqueue reg w none = (record reg { waiters = reg.waiters ++ w ∷ [] }, queued)

-- `acquire`, for the promise of that number; `timed` says that a positive timeout was given.
unfoldable pub acquire : Registry → ℕ → List String → LockPriority → Bool → Registry × Acquired
acquire reg promise rs priority timed =
    if is_empty rs
    then (reg, resolved nothing)
    else let (reg', fast) = try_acquire reg rs in
      enqueue reg'
        (record { promise = promise; resources = rs; priority = priority; has_timer = timed }) fast

-- The timer of a promise fires; the result says whether the promise is rejected.
unfoldable pub time_out : Registry → ℕ → Registry × Bool
time_out reg promise =
    if any (λ w. w.promise == promise && w.has_timer) reg.waiters
    then (record reg { waiters = without_waiter promise reg.waiters }, true)
    else (reg, false)

unfoldable pub queued_waiters : Registry → ℕ
queued_waiters reg = length reg.waiters

-- A call of the registry's interface, or a timer.
pub data Call : Type 0 where
  acquires : ℕ → List String → LockPriority → Bool → Call
  tries : List String → Call
  releases : Release → Call
  times_out : ℕ → Call

unfoldable pub step : Registry → Call → Registry
step reg (acquires promise rs priority timed) = (acquire reg promise rs priority timed).0
step reg (tries rs) = (try_acquire reg rs).0
step reg (releases r) = (release reg r).0
step reg (times_out promise) = (time_out reg promise).0

unfoldable pub run : Registry → List Call → Registry
run reg [] = reg
run reg (c ∷ cs) = run (step reg c) cs
