-- ===== src/Tools/Idempotency/Examples.antt =====
-- An idempotency map of src/tools/idempotency.ts that holds two calls and may hold one, and the
-- theorems at it.
use devagent_ts.Base.{ℕ, ◌+◌, ◌≤◌, ◌<◌, ◌≡◌, refl, true, false, none, some, String, [], ◌∷◌, length}
use devagent_ts.Base.Dict.{set, delete}
use devagent_ts.Tools.Idempotency.{
  IdempotencyManager, IdempotencyEntry, completed, is_new, is_in_flight, is_completed, is_failed,
  check, record_key, complete, drop_old, oldest, trim, prune, load,
}
use devagent_ts.Tools.Idempotency.Lifecycle.{check-record_key}
use devagent_ts.Tools.Idempotency.Pruning.{IsReached, loaded, recorded_key, prune-IsReached}

abbrev empty : IdempotencyManager String
empty = record { entries = []; pending_ttl_ms = 100; max_entries = 1 }

check-record_key_example :
    (50 ≤ 7 + 100
      → check 50 "k1" (record_key 7 "k1" "git" none empty)
        ≡ (record_key 7 "k1" "git" none empty, is_in_flight))
    × (7 + 100 < 50 → (check 50 "k1" (record_key 7 "k1" "git" none empty)).1 ≡ is_new)
    × ((r : String)
        → check 50 "k1" (complete "k1" (some r) false (record_key 7 "k1" "git" none empty)) ≡ (
          complete "k1" (some r) false (record_key 7 "k1" "git" none empty),
          is_completed (some r),
        ))
    × (check 50 "k1" (complete "k1" none true (record_key 7 "k1" "git" none empty))
        ≡ (complete "k1" none true (record_key 7 "k1" "git" none empty), is_failed))
check-record_key_example = check-record_key 50 7 "k1" "git" none empty

abbrev done_entry : IdempotencyEntry String
done_entry = record {
  key = "k0";
  tool = "git";
  run_id = none;
  first_seen_ts = 3;
  status = completed;
  result = some "pushed";
}

abbrev from_file : IdempotencyManager String
from_file = record { entries = load (done_entry ∷ []) []; pending_ttl_ms = 100; max_entries = 1 }

abbrev two_calls : IdempotencyManager String
two_calls = record_key 7 "k1" "git" none from_file

two_calls-IsReached : IsReached two_calls
two_calls-IsReached = recorded_key 7 "k1" "git" none (loaded 100 1 (done_entry ∷ []))

prune-IsReached_example :
    (m' : IdempotencyManager String) × (n : ℕ) × (prune 20 two_calls ≡ some (m', n))
    × (length m'.entries ≤ two_calls.max_entries)
    × (m'.max_entries ≡ two_calls.max_entries)
    × (m'.pending_ttl_ms ≡ two_calls.pending_ttl_ms)
    × (length m'.entries + n ≡ length two_calls.entries)
prune-IsReached_example = prune-IsReached 20 two_calls two_calls-IsReached

-- The completed call is the older one: it is dropped, and the call in flight stays.
older_is_dropped :
    prune 20 two_calls ≡ some (record_key 7 "k1" "git" none (record from_file { entries = [] }), 1)
unfolding prune drop_old trim oldest load record_key set delete
older_is_dropped = refl
