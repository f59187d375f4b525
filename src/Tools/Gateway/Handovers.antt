-- ===== src/Tools/Gateway/Handovers.antt =====
-- Which calls the gateway of src/tools/gateway/tool-gateway.ts hands over to their tool's gate,
-- said of the entry that the idempotency manager has under the call's key.
use devagent_ts.Base.{
  ℕ, ◌+◌, ◌<◌, ◌≡◌, ◌∙◌, ap, refl, arith, Bool, true, false, Option, none, some, String, string_eq,
  Bool-cases, Option-cases, inl, inr, ◌⊎◌, ◌↔◌,
}
use mathlib.Core.Path.{subst}
use devagent_ts.Base.Dict.{get}
use devagent_ts.Core.Policy.Tools.{ToolDefinition, IdempotencyKey, required, auto}
use devagent_ts.Tools.Idempotency.{
  IdempotencyManager, IdempotencyEntry, IdempotencyCheck, EntryStatus, recorded, completed, failed,
  is_older, is_new, is_in_flight, is_completed, is_failed, check, check_entry,
}
use devagent_ts.Tools.Gateway.Catalog.{resolve}
use devagent_ts.Tools.Gateway.Invocation.{
  Setting, Gateway, InvokeContext, Launch, Progress, launched, key_of, keyed_launch, start_at,
  start, begin, canonical_args,
}
use devagent_ts.Tools.Gateway.Permissions.{Permitted-refusal, Permitted}
use devagent_ts.Tools.Gateway.Launching.{launched_iff, begin_starts, start_launch}

-- No call holds the entry: there is none, it was recorded longer ago than the pending time, it was
-- completed without a result, or it failed.
abbrev pub IsOpen : {R : Type 0} → ℕ → ℕ → Option (IdempotencyEntry R) → Type 0
IsOpen now pending_ttl_ms none = Unit
IsOpen now pending_ttl_ms (some e) =
    ((e.status ≡ recorded) × (e.first_seen_ts + pending_ttl_ms < now))
    ⊎ (((e.status ≡ completed) × (e.result ≡ none)) ⊎ (e.status ≡ failed))

-- The answers of `check` that let a call through.
abbrev passes : {R : Type 0} → IdempotencyCheck R → Bool
passes is_new = true
passes is_in_flight = false
passes (is_completed none) = true
passes (is_completed (some r)) = false
passes is_failed = true

passes_completed : {R : Type 0} (o : Option R) → (passes (is_completed o) ≡ true) ↔ (o ≡ none)
passes_completed none = (λ h. refl, λ h. refl)
passes_completed (some r) = (λ h. cc h, λ h. cc h)

passes_entry :
    {R : Type 0} (now : ℕ) (key : String) (m : IdempotencyManager R) (e : IdempotencyEntry R)
    (s : EntryStatus)
    → e.status ≡ s
    → (passes (check_entry now key m e).1 ≡ true) ↔ IsOpen now m.pending_ttl_ms (some e)
unfolding check_entry
passes_entry now key m e recorded h = elim (Bool-cases (is_older now m.pending_ttl_ms e)) [
  | inl old ↦ rw (h, old) (λ p. inl (refl, ground arith), λ o. refl)
  | inr fresh ↦
      rw (h, fresh)
        (
          λ p. cc p,
          λ o. elim o [
            | inl (r, late) ↦ absurd (ground arith)
            | inr (inl (c, n)) ↦ cc c
            | inr (inr f) ↦ cc f
          ],
        )
]
passes_entry now key m e completed h =
    let (to, from) = passes_completed e.result in
    rw h (
      λ p. inr (inl (refl, to p)),
      λ o. elim o [ inl (r, late) ↦ cc r | inr (inl (c, n)) ↦ from n | inr (inr f) ↦ cc f ],
    )
passes_entry now key m e failed h = rw h (λ p. inr (inr refl), λ o. refl)

passes_iff :
    {R : Type 0} (now : ℕ) (key : String) (m : IdempotencyManager R)
    → (passes (check now key m).1 ≡ true) ↔ IsOpen now m.pending_ttl_ms (get key m.entries)
unfolding check
passes_iff now key m = elim (Option-cases (get key m.entries)) [
  | inl q ↦ rw (q, check) (λ p. tt, λ o. refl)
  | inr (e, q) ↦ rw (q, check) (passes_entry now key m e e.status refl)
]

-- The tool has no key, or its entry is open.
abbrev pub LetsThrough :
    (S : Setting)
    → ℕ
    → ToolDefinition
    → S.Args
    → IdempotencyManager S.Data
    → IdempotencyKey
    → Type 0
LetsThrough S now tool args m IdempotencyKey.none = Unit
LetsThrough S now tool args m required =
    IsOpen now m.pending_ttl_ms (get (key_of S tool args) m.entries)
LetsThrough S now tool args m auto =
    IsOpen now m.pending_ttl_ms (get (key_of S tool args) m.entries)

module _ {S : Setting} where
  IsLaunched : IdempotencyManager S.Data × Progress S → Type 0
  IsLaunched p = (m : IdempotencyManager S.Data) × (l : Launch S) × (p ≡ (m, launched l))

  keyed_launch_iff :
      (now : ℕ) (ctx : InvokeContext S) (tool : ToolDefinition) (args : S.Args) (is_required : Bool)
      (c : IdempotencyManager S.Data × IdempotencyCheck S.Data)
      → IsLaunched (keyed_launch now ctx tool args is_required c) ↔ (passes c.1 ≡ true)
  unfolding IsLaunched
  keyed_launch_iff now ctx tool args is_required (m, is_new) = (λ h. refl, λ h. (_, _, refl))
  keyed_launch_iff now ctx tool args is_required (m, is_in_flight) =
      (λ h. let (m', l, e) = h in cc e, λ h. cc h)
  keyed_launch_iff now ctx tool args is_required (m, is_completed none) =
      (λ h. refl, λ h. (_, _, refl))
  keyed_launch_iff now ctx tool args is_required (m, is_completed (some r)) =
      (λ h. let (m', l, e) = h in cc e, λ h. cc h)
  keyed_launch_iff now ctx tool args is_required (m, is_failed) = (λ h. refl, λ h. (_, _, refl))

  keyed_start_iff :
      (now : ℕ) (ctx : InvokeContext S) (tool : ToolDefinition) (args : S.Args) (is_required : Bool)
      (m : IdempotencyManager S.Data)
      → IsLaunched (keyed_launch now ctx tool args is_required (check now (key_of S tool args) m))
        ↔ IsOpen now m.pending_ttl_ms (get (key_of S tool args) m.entries)
  keyed_start_iff now ctx tool args is_required m =
      let key = key_of S tool args in
      let (to, from) = keyed_launch_iff now ctx tool args is_required (check now key m) in
      let (opens, passing) = passes_iff now key m in (λ h. opens (to h), λ h. from (passing h))

  start_at_iff :
      (mode : IdempotencyKey) (now : ℕ) (ctx : InvokeContext S) (tool : ToolDefinition)
      (args : S.Args) (m : IdempotencyManager S.Data)
      → IsLaunched (start_at mode now ctx tool args m) ↔ LetsThrough S now tool args m mode
  unfolding IsLaunched
  start_at_iff IdempotencyKey.none now ctx tool args m = (λ h. tt, λ h. (_, _, refl))
  start_at_iff required now ctx tool args m = keyed_start_iff now ctx tool args true m
  start_at_iff auto now ctx tool args m = keyed_start_iff now ctx tool args false m

  -- A call is handed over to the gate of a tool, with some arguments, if and only if the name is
  -- that of the tool in the catalog, the arguments are those of the call repaired and (where the
  -- gateway validates) found valid, the call is permitted, which is said of the context, the
  -- policy's decision and the budget's deadline alone, and the tool has no key, or the map has
  -- no entry under the call's key but one that was recorded longer ago than the pending time,
  -- was completed without a result, or failed.
  pub handed_over_iff :
      (now : ℕ) (gateway : Gateway S) (ctx : InvokeContext S) (name : String) (raw : S.Raw)
      (m : IdempotencyManager S.Data) (tool : ToolDefinition) (args : S.Args)
      → ((m' : IdempotencyManager S.Data) × (l : Launch S) × (begin now gateway ctx name raw m
            ≡ (m', launched l))
          × (l.tool ≡ tool)
          × (l.args ≡ args))
        ↔ ((resolve S.texts gateway.catalog name ≡ some tool)
            × (canonical_args gateway tool raw ≡ some args)
            × Permitted now gateway ctx tool args
            × LetsThrough S now tool args m tool.execution.idempotency_key)
  unfolding IsLaunched start
  handed_over_iff now gateway ctx name raw m tool args = (
    λ h.
        let (m', l, b, t, a) = h in
        let (q, k, p, s) = (launched_iff now gateway ctx name raw m m' l).0 b in
        let through =
          (start_at_iff l.tool.execution.idempotency_key now ctx l.tool l.args m).0 (m', l, s) in
        subst
          (λ x.
            (resolve S.texts gateway.catalog name ≡ some x)
            × (canonical_args gateway x raw ≡ some args)
            × Permitted now gateway ctx x args
            × LetsThrough S now x args m x.execution.idempotency_key)
          t
          (
            q,
            k ∙ ap some a,
            subst (Permitted now gateway ctx l.tool) a p,
            subst (λ x. LetsThrough S now l.tool x m l.tool.execution.idempotency_key) a through,
          ),
    λ h.
        let (q, k, p, o) = h in
        let (m', l, s) = (start_at_iff tool.execution.idempotency_key now ctx tool args m).1 o in
        let (t, a) = start_launch now ctx tool args m m' l s in
        (
          m',
          l,
          begin_starts now gateway ctx name raw m q k
                ((Permitted-refusal now gateway ctx tool args).1 p)
              ∙ s,
          t,
          a,
        ),
  )
