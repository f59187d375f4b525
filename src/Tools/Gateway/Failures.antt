-- ===== src/Tools/Gateway/Failures.antt =====
-- What the calls whose handler has not started, or has failed, leave in the idempotency manager of
-- the gateway, src/tools/gateway/tool-gateway.ts.
use devagent_ts.Base.{
  ℕ, ◌≡◌, ◌∙◌, sym, ap, refl, true, false, none, some, Bool, Option, String, string_eq, ◌==◌, ◌&&◌,
  Option-cases, Bool-cases, inl, inr,
}
use devagent_ts.Base.Dict.{get, get-set, get-delete}
use devagent_ts.Core.Policy.Tools.{required}
use devagent_ts.Tools.Idempotency.{
  IdempotencyManager, is_failed, is_recorded, is_older, check, check_entry, record_key, complete,
}
use devagent_ts.Tools.Idempotency.Lifecycle.{check-record_key}
use devagent_ts.Tools.Gateway.Invocation.{
  Setting, Gateway, InvokeContext, Launch, ToolResult, FailureCode, failure, launched, finished,
  threw, key_of, settle_key, begin, finish,
}
use devagent_ts.Tools.Gateway.Launching.{launched_iff, answered_unchanged}
use devagent_ts.Tools.Gateway.Replays.{required_recorded}

-- The entries of other keys.
module _ {R : Type 0} (key j : String) (other : (key == j) ≡ false) where
  check_other :
      (now : ℕ) (m : IdempotencyManager R) → get j (check now key m).0.entries ≡ get j m.entries
  unfolding check check_entry
  check_other now m = elim (Option-cases (get key m.entries)) [
    | inl q ↦ rw (q, check) refl
    | inr (e, q) ↦ elim (Bool-cases (is_recorded e.status && is_older now m.pending_ttl_ms e)) [
      | inl y ↦ rw (q, y, check) (get-delete key j m.entries ∙ rw other refl)
      | inr n ↦ rw (q, n, check) refl
    ]
  ]

  record_other :
      (now : ℕ) (tool : String) (run_id : Option String) (m : IdempotencyManager R)
      → get j (record_key now key tool run_id m).entries ≡ get j m.entries
  unfolding record_key
  record_other now tool run_id m = get-set key j _ m.entries ∙ rw other refl

  complete_other :
      (result : Option R) (has_failed : Bool) (m : IdempotencyManager R)
      → get j (complete key result has_failed m).entries ≡ get j m.entries
  unfolding complete
  complete_other result has_failed m = elim (Option-cases (get key m.entries)) [
    | inl q ↦ rw (q, complete) refl
    | inr (e, q) ↦ rw (q, complete) (get-set key j _ m.entries ∙ rw other refl)
  ]

module _ {S : Setting} where
  -- A call that is answered before it is handed over to its tool's gate, refused or replayed,
  -- changes nothing in the idempotency manager. A call of a tool with a required key that was
  -- recorded, and that the gate refuses or whose handler throws, answers with that failure; the
  -- entries of all other keys are then as before the call, and at any later time `check` says of
  -- the call's key that it failed, in place of that a call is in flight.
  pub failed_calls_release :
      (now later : ℕ) (gateway : Gateway S) (ctx : InvokeContext S) (name : String) (raw : S.Raw)
      (m m' : IdempotencyManager S.Data)
      → ((r : ToolResult S) → begin now gateway ctx name raw m ≡ (m', finished r) → m' ≡ m)
        × ((l : Launch S) (key : String) (code : FailureCode)
            → begin now gateway ctx name raw m ≡ (m', launched l)
            → l.tool.execution.idempotency_key ≡ required
            → l.idem_key ≡ some key
            → let (after, answer) = finish l (threw code) m' in
              (answer ≡ failure code)
              × (check later key after ≡ (after, is_failed))
              × ((j : String) → (key == j) ≡ false → get j after.entries ≡ get j m.entries))
  unfolding finish
  failed_calls_release now later gateway ctx name raw m m' = (
    λ r h. answered_unchanged now gateway ctx name raw m m' r h,
    λ l key code h q k.
        let (found, canon, permitted, starts) =
          (launched_iff now gateway ctx name raw m m' l).0 h in
        let (same, recorded) = required_recorded now ctx l.tool l.args m m' l key q starts k in
        let called = key_of S l.tool l.args in
        let before = (check now called m).0 in
        let started = record_key now called l.tool.id ctx.run_id before in
        let (in_flight, expired, known, gone) =
          check-record_key later now called l.tool.id ctx.run_id before in
        let settled : settle_key l.idem_key none true m' ≡ complete called none true started =
          ap (λ i. settle_key i none true m') k
          ∙ ap (λ i. complete i none true m') same
          ∙ ap (complete called none true) recorded in
        (
          refl,
          rw (settled, same) gone,
          λ j d.
              let other : (called == j) ≡ false = ap (λ i. i == j) (sym same) ∙ d in
              ap (λ x. get j x.entries) settled
              ∙ complete_other called j other none true started
              ∙ record_other called j other now l.tool.id ctx.run_id before
              ∙ check_other called j other now m,
        ),
  )
