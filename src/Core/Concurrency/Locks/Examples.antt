-- ===== src/Core/Concurrency/Locks/Examples.antt =====
-- Calls of the lock registry, and the theorems at them.
use devagent_ts.Base.{
  ℕ, true, false, String, List, [], ◌∷◌, ◌≡◌, ◌⊎◌, arith, refl, includes, is_empty, nat_eq,
  string_eq,
}
use devagent_ts.Base.Dict.{get, set, delete}
use devagent_ts.Core.Concurrency.Locks.Tables.{grant_each, release_each}
use devagent_ts.Core.Concurrency.Locks.{
  time_out, release, pump, serve, without_waiter, serving_order, is_free_set, is_free, enqueue,
  acquire, step, grant, empty, holder, holders_of, held_of, try_acquire, free_holder, Call,
  acquires, releases, times_out, run, critical, normal,
}
use devagent_ts.Core.Concurrency.Locks.Exclusion.{
  run_exclusion, empty-IsConsistent, try_acquire-free_holder,
}
use devagent_ts.Core.Concurrency.Locks.Wakeup.{IsBusy}
use devagent_ts.Core.Concurrency.Locks.Serving.{NobodyServed, OneServed, release_serves}

-- What a run computes through.
evaluation : Unit {0}
unfolding run step acquire enqueue try_acquire grant is_free is_free_set serving_order
    without_waiter serve pump free_holder release time_out grant_each release_each get set delete
evaluation = tt

-- A holder of two resources, two waiters, a timer and a release.
abbrev traffic : List Call
traffic =
    acquires 1 ("git" ∷ "db" ∷ []) normal false
    ∷ acquires 2 ("git" ∷ []) normal true
    ∷ acquires 3 ("db" ∷ []) critical false
    ∷ releases (holder 1)
    ∷ times_out 2
    ∷ []

run_exclusion_example :
    let reg = run empty traffic in
    ((r : String) (a b : ℕ)
      → includes r (held_of reg a) ≡ true
      → includes r (held_of reg b) ≡ true
      → a ≡ b)
    × ((r : String) (id : ℕ) → includes id (holders_of reg r) ≡ includes r (held_of reg id))
run_exclusion_example = run_exclusion traffic

-- The critical waiter was served and the other one has given up.
traffic_ends :
    (includes "db" (held_of (run empty traffic) 2) ≡ true)
    × (is_empty (run empty traffic).waiters ≡ true)
unfolding evaluation
traffic_ends = (refl, refl)

-- One holder of two resources, and a waiter for each of them.
abbrev two_wait : List Call
two_wait =
    acquires 1 ("git" ∷ "db" ∷ []) normal false
    ∷ acquires 2 ("git" ∷ []) normal false
    ∷ acquires 3 ("db" ∷ []) critical false
    ∷ []

release_serves_example :
    let reg = run empty two_wait in
    let (after, r) = release reg (holder 1) in
    ((s : String) → includes 1 (holders_of after s) ≡ false)
    × (NobodyServed reg after r ⊎ OneServed reg after 1 r)
    × (is_empty after.waiters ≡ false → IsBusy after)
unfolding evaluation
release_serves_example = release_serves two_wait 1 (omega arith) refl

-- The release serves the critical waiter only; the other one waits on, and its resource is free.
one_waits_on :
    let after = (release (run empty two_wait) (holder 1)).0 in
    (is_empty after.waiters ≡ false) × (is_free after "git" ≡ true)
unfolding evaluation
one_waits_on = (refl, refl)

try_acquire-free_holder_example :
    includes 1 (holders_of (free_holder (try_acquire empty ("git" ∷ "db" ∷ [])).0 1) "git")
    ≡ includes 1 (holders_of empty "git")
unfolding evaluation
try_acquire-free_holder_example =
    try_acquire-free_holder empty ("git" ∷ "db" ∷ []) 1 empty-IsConsistent refl refl "git" 1
