-- ===== src/Core/Cancellation/Examples.antt =====
-- A run with a scope, a tool call under it and a request under that, next to another run, and the
-- theorem at it.
use devagent_ts.Base.{
  ℕ, ◌≡◌, refl, arith, Bool, true, ◌||◌, none, some, string_eq, nat_eq, [], ◌∷◌, All,
}
use devagent_ts.Base.Dict.{get, has, set, delete}
use devagent_ts.Core.Cancellation.{
  AbortReason, cancelled_error, Signals, no_signals, aborted, abort_from, abort_signal,
  linked_signal, cancellation_scope, abort_scope,
}
use devagent_ts.Core.Cancellation.Registry.{
  CancellationRegistry, no_scopes, registered, register, unregister, cancel, active_scope_count,
}
use devagent_ts.Core.Cancellation.Sound.{IsReached, started, scoped}
use devagent_ts.Core.Cancellation.Registered.{cancel_reaches}

evaluation : Unit {0}
unfolding cancellation_scope linked_signal abort_scope abort_signal abort_from get has set delete
    register unregister cancel active_scope_count
evaluation = tt

abbrev root : Signals
root = cancellation_scope "run" none no_signals

abbrev with_tool : Signals
with_tool = cancellation_scope "tool" (some 0) root

abbrev with_request : Signals
with_request = cancellation_scope "request" (some 1) with_tool

abbrev signals : Signals
signals = cancellation_scope "other" none with_request

signals-IsReached : IsReached signals
unfolding evaluation
signals-IsReached = scoped "other" none tt (
    scoped "request" (some 1) (omega arith)
      (scoped "tool" (some 0) (omega arith) (scoped "run" none tt started)))

abbrev registry : CancellationRegistry
registry = (register "run_1" 0 no_scopes).0

cancel_reaches_example :
    let after = (cancel "run_1" (some "user") registry signals).0 in
    All (λ e. aborted e.scope after ≡ true) (registered "run_1" registry)
    × All (λ l. aborted l.parent after ≡ true → aborted l.child after ≡ true) signals.links
    × ((j : ℕ) (r : AbortReason) → get j signals.reasons ≡ some r → get j after.reasons ≡ some r)
    × ((within : ℕ → Bool)
        → All (λ l. within l.parent ≡ true → within l.child ≡ true) signals.links
        → All (λ e. within e.scope ≡ true) (registered "run_1" registry)
        → (j : ℕ) → aborted j after ≡ true
        → (aborted j signals || within j) ≡ true)
unfolding evaluation
cancel_reaches_example =
    cancel_reaches "run_1" (some "user") registry signals signals-IsReached (omega arith, tt)

-- The tool call and its request are aborted with the reason of the run's scope; the other is not.
whole_run_is_aborted :
    (cancel "run_1" (some "user") registry signals).0.reasons
    ≡ (0, cancelled_error "run" (some "user"))
      ∷ (1, cancelled_error "run" (some "user"))
      ∷ (2, cancelled_error "run" (some "user"))
      ∷ []
unfolding evaluation
whole_run_is_aborted = refl

-- The function of a registration that is over, called once more, takes the run's new scope out of
-- reach.
second_call_loses_a_scope :
    let first = register "run_1" 0 no_scopes in
    let over = unregister first.1 first.0 in
    let second = (register "run_1" 3 over).0 in
    (active_scope_count "run_1" second ≡ 1)
    × (active_scope_count "run_1" (unregister first.1 second) ≡ 0)
unfolding evaluation
second_call_loses_a_scope = (refl, refl)
