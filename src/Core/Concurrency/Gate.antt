-- ===== src/Core/Concurrency/Gate.antt =====
-- `ConcurrencyGate`, src/core/concurrency/gate.ts. A promise, a signal and a lease are numbers;
-- the signals that are aborted are part of the state. The counter `active` is the number of
-- leases granted less the number of decrements, kept apart, since it may fall below zero.
pub mod Leases
pub mod Fairness
mod Examples
use devagent_ts.Base.{
  ℕ, zero, suc, ◌+◌, Bool, true, false, not, ◌&&◌, Option, none, some, List, [], ◌∷◌, ◌++◌, filter,
  length, includes, max, if◌then◌else◌, ◌==◌, ltb, leb, nat_eq,
}

pub data Priority : Type 0 where
  critical normal : Priority

-- A queued entry: the promise that it settles, and its signal.
pub record Entry : Type 0 where
  pub promise : ℕ
  pub signal : Option ℕ

pub record Gate : Type 0 where
  pub granted : ℕ
  pub decrements : ℕ
  pub critical_queue : List Entry
  pub normal_queue : List Entry
  pub consecutive_critical : ℕ
  pub max_concurrent : ℕ
  pub max_queue_depth : ℕ
  pub used : List ℕ
  pub aborted : List ℕ

-- `new ConcurrencyGate`; the defaults of the options are 4 and 100.
abbrev pub gate : ℕ → ℕ → Gate
gate max_concurrent max_queue_depth = record {
  granted = 0;
  decrements = 0;
  critical_queue = [];
  normal_queue = [];
  consecutive_critical = 0;
  max_concurrent = max 1 max_concurrent;
  max_queue_depth = max 1 max_queue_depth;
  used = [];
  aborted = [];
}

abbrev pub queued_count : Gate → ℕ
queued_count g = length g.critical_queue + length g.normal_queue

abbrev pub is_aborted : Gate → Option ℕ → Bool
is_aborted g none = false
is_aborted g (some signal) = includes signal g.aborted

pub data Acquired : Type 0 where
  gate_aborted : Acquired
  gate_saturated : Acquired
  leased : ℕ → Acquired
  queued : Acquired

-- A lease is the number of those granted before it.
unfoldable pub grant_lease : Gate → Gate × ℕ
grant_lease g = (record g { granted = suc g.granted }, g.granted)

unfoldable pub enqueue : Gate → Priority → Entry → Gate
enqueue g critical e = record g { critical_queue = g.critical_queue ++ e ∷ [] }
enqueue g normal e = record g { normal_queue = g.normal_queue ++ e ∷ [] }

unfoldable pub acquire : Gate → ℕ → Priority → Option ℕ → Gate × Acquired
acquire g promise priority signal =
    let (g', lease) = grant_lease g in
    if is_aborted g signal
    then (g, gate_aborted)
    else if leb g.max_queue_depth (queued_count g)
    then (g, gate_saturated)
    else if ltb g.granted (g.max_concurrent + g.decrements)
    then (g', leased lease)
    else (enqueue g priority (record { promise = promise; signal = signal }), queued)

-- The choice of `dispatchNext`: which queue loses its first entry, and the counter.
unfoldable pub choose : Gate → List Entry → List Entry → Gate × Option Entry
choose g (c ∷ cs) [] =
    (record g { critical_queue = cs; consecutive_critical = suc g.consecutive_critical }, some c)
choose g (c ∷ cs) (n ∷ ns) =
    if ltb g.consecutive_critical 10
    then (
      record g { critical_queue = cs; consecutive_critical = suc g.consecutive_critical },
      some c,
    )
    else (record g { normal_queue = ns; consecutive_critical = 0 }, some n)
choose g [] (n ∷ ns) = (record g { normal_queue = ns; consecutive_critical = 0 }, some n)
choose g [] [] = (record g { consecutive_critical = 0 }, none)

unfoldable pub take_next : Gate → Gate × Option Entry
take_next g = choose g g.critical_queue g.normal_queue

-- What happened to a promise.
pub data Settled : Type 0 where
  resolved : ℕ → ℕ → Settled
  rejected : ℕ → Settled

abbrev pub Dispatched : Type 0
Dispatched = Option (Gate × List Settled)

abbrev pub and_rejected : ℕ → Dispatched → Dispatched
and_rejected promise none = none
and_rejected promise (some (g, settled)) = some (g, settled ++ rejected promise ∷ [])

-- The call of the entry that was chosen; `again` is another `dispatchNext`, which an entry whose
-- signal is aborted calls before it rejects.
unfoldable pub invoke : Gate → Option Entry → Dispatched → Dispatched
invoke g none again = some (g, [])
invoke g (some e) again =
    let (g', lease) = grant_lease g in
    if is_aborted g e.signal
    then and_rejected e.promise again
    else some (g', resolved e.promise lease ∷ [])

abbrev pub decremented : Gate → Gate
decremented g = record g { decrements = suc g.decrements }

-- `dispatchNext` on fuel; `none` is lack of fuel.
unfoldable pub dispatch_next : ℕ → Gate → Dispatched
dispatch_next zero g = none
dispatch_next (suc fuel) g =
    let (g', next) = take_next (decremented g) in
    let again = dispatch_next fuel g' in invoke g' next again

-- The release function of a lease. Each round of `dispatchNext` but the last takes an entry from
-- the queues.
unfoldable pub release : Gate → ℕ → Dispatched
release g lease =
    if includes lease g.used
    then some (g, [])
    else dispatch_next (suc (queued_count g)) (record g { used = lease ∷ g.used })

abbrev pub has_signal : ℕ → Entry → Bool
has_signal signal e = elim e.signal [ none ↦ false | some s ↦ s == signal ]

-- A signal aborts: its flag is set, and the listener of each entry that waits with it takes the
-- entry from the queues. The rejections of their promises are left out.
unfoldable pub abort : Gate → ℕ → Gate
abort g signal = record g {
  aborted = signal ∷ g.aborted;
  critical_queue = filter (λ e. not (has_signal signal e)) g.critical_queue;
  normal_queue = filter (λ e. not (has_signal signal e)) g.normal_queue;
}

-- A call of the gate's interface, or a signal.
pub data Call : Type 0 where
  acquires : ℕ → Priority → Option ℕ → Call
  releases : ℕ → Call
  aborts : ℕ → Call

abbrev pub gate_of : Dispatched → Option Gate
gate_of none = none
gate_of (some r) = some r.0

-- There is a release function only for a lease that was granted.
unfoldable pub step : Gate → Call → Option Gate
step g (acquires promise priority signal) = some (acquire g promise priority signal).0
step g (releases lease) = if ltb lease g.granted then gate_of (release g lease) else some g
step g (aborts signal) = some (abort g signal)

abbrev pub and_then : Option Gate → (Gate → Option Gate) → Option Gate
and_then none f = none
and_then (some g) f = f g

unfoldable pub run : List Call → Gate → Option Gate
run [] g = some g
run (c ∷ cs) g = and_then (step g c) (run cs)
