-- ===== src/Core/Concurrency/Gate/Examples.antt =====
-- Calls of a gate of two leases, and the theorems at them.
use devagent_ts.Base.{
  ℕ, ◌+◌, ◌≤◌, true, false, none, some, List, [], ◌∷◌, ◌++◌, All, includes, max, ◌≡◌, refl, arith,
  nat_eq,
}
use devagent_ts.Core.Concurrency.Gate.{
  Gate, gate, Entry, critical, normal, rejected, resolved, take_next, choose, acquire, grant_lease,
  enqueue, invoke, dispatch_next, release, abort, Call, acquires, releases, aborts, run, step,
  is_aborted,
}
use devagent_ts.Core.Concurrency.Gate.Leases.{leases_out, run-gate}
use devagent_ts.Core.Concurrency.Gate.Fairness.{taken, normal_is_taken}

evaluation : Unit {0}
unfolding take_next choose acquire grant_lease enqueue invoke dispatch_next release abort run step
    taken
evaluation = tt

-- Two leases are given, three calls wait, one of them is aborted, and a lease is given back twice.
abbrev traffic : List Call
traffic =
    acquires 0 normal none
    ∷ acquires 1 normal none
    ∷ acquires 2 normal (some 7)
    ∷ acquires 3 normal none
    ∷ acquires 4 critical none
    ∷ aborts 7
    ∷ releases 0
    ∷ releases 0
    ∷ []

run-gate_example :
    (g : Gate) × (run traffic (gate 2 100) ≡ some g)
    × (leases_out g ≤ max 1 2)
    × (leases_out g + g.decrements ≡ g.granted)
    × All (λ e. is_aborted g e.signal ≡ false) (g.critical_queue ++ g.normal_queue)
run-gate_example = run-gate 2 100 traffic

abbrev entry : ℕ → Entry
entry promise = record { promise = promise; signal = none }

abbrev waiting : Gate
waiting = record (gate 2 100) {
  critical_queue = entry 1 ∷ entry 2 ∷ [];
  normal_queue = entry 9 ∷ [];
  consecutive_critical = 9;
}

normal_is_taken_example :
    includes 9 (taken waiting ((entry 3 ∷ [], []) ∷ (entry 4 ∷ [], entry 5 ∷ []) ∷ [])) ≡ true
normal_is_taken_example =
    normal_is_taken waiting (entry 9) [] ((entry 3 ∷ [], []) ∷ (entry 4 ∷ [], entry 5 ∷ []) ∷ [])
      refl (omega arith) (omega arith)

-- A gate of one lease whose first waiter's signal is aborted while its listener has not run yet.
abbrev half_aborted : Gate
half_aborted = record (gate 1 100) {
  granted = 1;
  normal_queue = record { promise = 1; signal = some 7 } ∷ entry 2 ∷ [];
  aborted = 7 ∷ [];
}

-- Giving back the one lease counts twice, and one lease is out with the counter at zero.
one_release_counts_twice :
    release half_aborted 0
    ≡ some (
      record half_aborted { granted = 2; decrements = 2; normal_queue = []; used = 0 ∷ [] },
      resolved 2 1 ∷ rejected 1 ∷ [],
    )
unfolding evaluation
one_release_counts_twice = refl
