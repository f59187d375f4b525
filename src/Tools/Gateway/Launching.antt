-- ===== src/Tools/Gateway/Launching.antt =====
-- The calls that the gateway of src/tools/gateway/tool-gateway.ts brings to their tool's gate, and
-- those it answers at once.
use devagent_ts.Base.{
  ◌≢◌, ◌∙◌, sym, ap, ℕ, ◌≡◌, refl, Bool, true, false, none, some, String, string_eq, Option-cases,
  inl, inr, ◌⊎◌, ◌↔◌,
}
use mathlib.Core.Path.{subst}
use devagent_ts.Core.Policy.Tools.{ToolDefinition, IdempotencyKey, required, auto}
use devagent_ts.Tools.Gateway.Invocation.{
  validation_error, unknown_tool, failure, ToolResult, key_of, keyed_launch, finished, Progress,
  start_at, canonical_args, launched, Launch, refusal, start, begin, Gateway, InvokeContext,
  Setting,
}
use devagent_ts.Tools.Idempotency.{
  is_new, is_in_flight, is_completed, is_failed, check, is_completed, check, IdempotencyCheck,
  IdempotencyManager,
}
use devagent_ts.Tools.Gateway.Catalog.{resolve}
use devagent_ts.Tools.Gateway.Permissions.{Permitted-refusal, Permitted}
use devagent_ts.Tools.Idempotency.Lifecycle.{check_unchanged}

module _ {S : Setting} where
  -- What is launched is the call of this tool with these arguments.
  abbrev LaunchesAs : ToolDefinition → S.Args → Progress S → Type 0
  LaunchesAs tool args (finished r) = Unit
  LaunchesAs tool args (launched l) = (l.tool ≡ tool) × (l.args ≡ args)

  keyed_launch-LaunchesAs :
      (now : ℕ) (ctx : InvokeContext S) (tool : ToolDefinition) (args : S.Args) (is_required : Bool)
      (c : IdempotencyManager S.Data × IdempotencyCheck S.Data)
      → LaunchesAs tool args (keyed_launch now ctx tool args is_required c).1
  keyed_launch-LaunchesAs now ctx tool args is_required (m, is_new) = (refl, refl)
  keyed_launch-LaunchesAs now ctx tool args is_required (m, is_in_flight) = tt
  keyed_launch-LaunchesAs now ctx tool args is_required (m, is_completed none) = (refl, refl)
  keyed_launch-LaunchesAs now ctx tool args is_required (m, is_completed (some r)) = tt
  keyed_launch-LaunchesAs now ctx tool args is_required (m, is_failed) = (refl, refl)

  start_at-LaunchesAs :
      (key_mode : IdempotencyKey) (now : ℕ) (ctx : InvokeContext S) (tool : ToolDefinition)
      (args : S.Args) (m : IdempotencyManager S.Data)
      → LaunchesAs tool args (start_at key_mode now ctx tool args m).1
  start_at-LaunchesAs IdempotencyKey.none now ctx tool args m = (refl, refl)
  start_at-LaunchesAs required now ctx tool args m =
      keyed_launch-LaunchesAs now ctx tool args true (check now (key_of S tool args) m)
  start_at-LaunchesAs auto now ctx tool args m =
      keyed_launch-LaunchesAs now ctx tool args false (check now (key_of S tool args) m)

  pub start_launch :
      (now : ℕ) (ctx : InvokeContext S) (tool : ToolDefinition) (args : S.Args)
      (m m' : IdempotencyManager S.Data) (l : Launch S)
      → start now ctx tool args m ≡ (m', launched l)
      → (l.tool ≡ tool) × (l.args ≡ args)
  unfolding start
  start_launch now ctx tool args m m' l h =
      subst (λ r. LaunchesAs tool args r.1) h
        (start_at-LaunchesAs tool.execution.idempotency_key now ctx tool args m)

  pub begin_starts :
      (now : ℕ) (gateway : Gateway S) (ctx : InvokeContext S) (name : String) (raw : S.Raw)
      (m : IdempotencyManager S.Data) {tool : ToolDefinition} {args : S.Args}
      → resolve S.texts gateway.catalog name ≡ some tool
      → canonical_args gateway tool raw ≡ some args
      → refusal now gateway ctx tool args ≡ none
      → begin now gateway ctx name raw m ≡ start now ctx tool args m
  unfolding begin
  begin_starts now gateway ctx name raw m h k r = rw (h, begin) (rw k (rw r refl))

  -- A call is answered at once, or comes to the idempotency stage.
  pub begin_cases :
      (now : ℕ) (gateway : Gateway S) (ctx : InvokeContext S) (name : String) (raw : S.Raw)
      (m : IdempotencyManager S.Data)
      → ((r : ToolResult S) × (begin now gateway ctx name raw m ≡ (m, finished r)))
        ⊎ ((tool : ToolDefinition) × (args : S.Args) × (resolve S.texts gateway.catalog name
              ≡ some tool)
            × (canonical_args gateway tool raw ≡ some args)
            × (refusal now gateway ctx tool args ≡ none)
            × (begin now gateway ctx name raw m ≡ start now ctx tool args m))
  unfolding begin
  begin_cases now gateway ctx name raw m =
      elim (Option-cases (resolve S.texts gateway.catalog name)) [
        | inl q ↦ inl (failure unknown_tool, rw (q, begin) refl)
        | inr (tool, q) ↦ elim (Option-cases (canonical_args gateway tool raw)) [
          | inl k ↦ inl (failure validation_error, rw (q, begin) (rw k refl))
          | inr (args, k) ↦ elim (Option-cases (refusal now gateway ctx tool args)) [
            | inl n ↦ inr (tool, args, q, k, n, begin_starts now gateway ctx name raw m q k n)
            | inr (r, y) ↦ inl (r, rw (q, begin) (rw k (rw y refl)))
          ]
        ]
      ]

  -- A call comes to its tool's gate if and only if it is found, permitted and let through by the
  -- idempotency stage.
  pub launched_iff :
      (now : ℕ) (gateway : Gateway S) (ctx : InvokeContext S) (name : String) (raw : S.Raw)
      (m m' : IdempotencyManager S.Data) (l : Launch S)
      → (begin now gateway ctx name raw m ≡ (m', launched l)) ↔ (
          (resolve S.texts gateway.catalog name ≡ some l.tool)
          × (canonical_args gateway l.tool raw ≡ some l.args)
          × Permitted now gateway ctx l.tool l.args
          × (start now ctx l.tool l.args m ≡ (m', launched l)))
  launched_iff now gateway ctx name raw m m' l = (
    λ h. elim (begin_cases now gateway ctx name raw m) [
      | inl (r, q) ↦ cc (h, q)
      | inr (tool, args, q, k, n, b) ↦
          let starts : start now ctx tool args m ≡ (m', launched l) = sym b ∙ h in
          let (same, with) = start_launch now ctx tool args m m' l starts in
          (
            rw same q,
            rw (same, with) k,
            rw (same, with) ((Permitted-refusal now gateway ctx tool args).0 n),
            ap (λ t. start now ctx t l.args m) same
                ∙ ap (λ x. start now ctx tool x m) with
                ∙ starts,
          )
    ],
    λ h.
        let (q, k, p, s) = h in
        begin_starts now gateway ctx name raw m q k
          ((Permitted-refusal now gateway ctx l.tool l.args).1 p)
        ∙ s,
  )

  not_new :
      (now : ℕ) (ctx : InvokeContext S) (tool : ToolDefinition) (args : S.Args) (is_required : Bool)
      (c : IdempotencyManager S.Data × IdempotencyCheck S.Data) (m' : IdempotencyManager S.Data)
      (r : ToolResult S)
      → keyed_launch now ctx tool args is_required c ≡ (m', finished r)
      → (m' ≡ c.0) × (c.1 ≢ is_new)
  not_new now ctx tool args is_required (m, is_new) m' r h = cc h
  not_new now ctx tool args is_required (m, is_in_flight) m' r h = (cc h, cc)
  not_new now ctx tool args is_required (m, is_completed none) m' r h = cc h
  not_new now ctx tool args is_required (m, is_completed (some x)) m' r h = (cc h, cc)
  not_new now ctx tool args is_required (m, is_failed) m' r h = cc h

  start_at_finished :
      (key_mode : IdempotencyKey) (now : ℕ) (ctx : InvokeContext S) (tool : ToolDefinition)
      (args : S.Args) (m m' : IdempotencyManager S.Data) (r : ToolResult S)
      → start_at key_mode now ctx tool args m ≡ (m', finished r)
      → m' ≡ m
  start_at_finished IdempotencyKey.none now ctx tool args m m' r h = cc h
  start_at_finished required now ctx tool args m m' r h =
      let (same, old) = not_new now ctx tool args true _ m' r h in
      same ∙ check_unchanged now (key_of S tool args) m old
  start_at_finished auto now ctx tool args m m' r h =
      let (same, old) = not_new now ctx tool args false _ m' r h in
      same ∙ check_unchanged now (key_of S tool args) m old

  -- A call that is answered before it comes to its tool's gate.
  pub answered_unchanged :
      (now : ℕ) (gateway : Gateway S) (ctx : InvokeContext S) (name : String) (raw : S.Raw)
      (m m' : IdempotencyManager S.Data) (r : ToolResult S)
      → begin now gateway ctx name raw m ≡ (m', finished r)
      → m' ≡ m
  unfolding start
  answered_unchanged now gateway ctx name raw m m' r h =
      elim (begin_cases now gateway ctx name raw m) [
        | inl (s, q) ↦ cc (h, q)
        | inr (tool, args, q, k, n, b) ↦
            start_at_finished tool.execution.idempotency_key now ctx tool args m m' r (sym b ∙ h)
      ]
