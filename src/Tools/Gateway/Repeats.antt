-- ===== src/Tools/Gateway/Repeats.antt =====
-- The repeated calls that the idempotency stage of src/tools/gateway/tool-gateway.ts does not
-- hold back.
use devagent_ts.Base.{
  ℕ, ◌≡◌, refl, ◌∙◌, ap, Bool, true, false, Option, none, some, String, string_eq, inl, inr, ◌⊎◌,
}
use devagent_ts.Base.Dict.{get}
use devagent_ts.Core.Policy.Tools.{ToolDefinition, required, auto}
use devagent_ts.Tools.Idempotency.{
  IdempotencyEntry, IdempotencyManager, check_entry, complete, check, is_new, is_failed, failed,
}
use devagent_ts.Tools.Gateway.Invocation.{
  threw, returned, begin, RunOutcome, launched, keyed_launch, canonical_args, start_at,
  InvokeContext, finish, key_of, Launch, Gateway, start, Setting,
}
use devagent_ts.Tools.Gateway.Catalog.{resolve}
use devagent_ts.Tools.Idempotency.Lifecycle.{check_found}
use devagent_ts.Tools.Gateway.Permissions.{Permitted-refusal, Permitted}
use devagent_ts.Tools.Gateway.Launching.{begin_starts}

-- The key leaves no trace of a call: it is automatic and not in the map, or it is required and a
-- call with it has failed.
abbrev pub IsUnrecorded :
    (S : Setting) → ToolDefinition → S.Args → IdempotencyManager S.Data → Type 0
IsUnrecorded S tool args m =
    ((tool.execution.idempotency_key ≡ auto) × (get (key_of S tool args) m.entries ≡ none))
    ⊎ ((tool.execution.idempotency_key ≡ required)
        × ((e : IdempotencyEntry S.Data) × (get (key_of S tool args) m.entries ≡ some e)
            × (e.status ≡ failed)))

check_missing :
    {R : Type 0} (now : ℕ) (key : String) (m : IdempotencyManager R)
    → get key m.entries ≡ none
    → check now key m ≡ (m, is_new)
unfolding check
check_missing now key m h = rw (h, check) refl

check_failed :
    {R : Type 0} (now : ℕ) (key : String) (m : IdempotencyManager R) (e : IdempotencyEntry R)
    → get key m.entries ≡ some e
    → e.status ≡ failed
    → check now key m ≡ (m, is_failed)
unfolding check_entry
check_failed now key m e h q = check_found now key m e h ∙ rw q refl

complete_missing :
    {R : Type 0} (key : String) (result : Option R) (has_failed : Bool) (m : IdempotencyManager R)
    → get key m.entries ≡ none
    → complete key result has_failed m ≡ m
unfolding complete
complete_missing key result has_failed m h = rw (h, complete) refl

module _ {S : Setting} where
  -- What such a call is started with.
  abbrev IsRun : ToolDefinition → S.Args → IdempotencyManager S.Data → Launch S → Type 0
  IsRun tool args m l =
      ((now : ℕ) (ctx : InvokeContext S) → start now ctx tool args m ≡ (m, launched l))
      × ((outcome : RunOutcome S) → (finish l outcome m).0 ≡ m)

  auto_runs :
      (tool : ToolDefinition) (args : S.Args) (m : IdempotencyManager S.Data)
      → tool.execution.idempotency_key ≡ auto
      → get (key_of S tool args) m.entries ≡ none
      → IsRun tool args m
          (record { tool = tool; args = args; idem_key = some (key_of S tool args) })
  unfolding start finish
  auto_runs tool args m q h = (
    λ now ctx.
        ap (λ i. start_at i now ctx tool args m) q
        ∙ ap (keyed_launch now ctx tool args false) (check_missing now _ m h),
    λ outcome.
        elim outcome
          as (λ o.
            (finish (record { tool = tool; args = args; idem_key = some (key_of S tool args) }) o
              m).0
            ≡ m) [
              | returned r ↦ complete_missing (key_of S tool args) (some r) false m h
              | threw code ↦ complete_missing (key_of S tool args) none true m h
            ],
  )

  failed_runs :
      (tool : ToolDefinition) (args : S.Args) (m : IdempotencyManager S.Data)
      (e : IdempotencyEntry S.Data)
      → tool.execution.idempotency_key ≡ required
      → get (key_of S tool args) m.entries ≡ some e
      → e.status ≡ failed
      → IsRun tool args m (record { tool = tool; args = args; idem_key = none })
  unfolding start finish
  failed_runs tool args m e q h f = (
    λ now ctx.
        ap (λ i. start_at i now ctx tool args m) q
        ∙ ap (keyed_launch now ctx tool args true) (check_failed now _ m e h f),
    λ outcome.
        elim outcome
          as (λ o. (finish (record { tool = tool; args = args; idem_key = none }) o m).0 ≡ m) [
            | returned r ↦ refl
            | threw code ↦ refl
          ],
  )

  unrecorded_runs :
      (tool : ToolDefinition) (args : S.Args) (m : IdempotencyManager S.Data)
      → IsUnrecorded S tool args m
      → (l : Launch S) × IsRun tool args m l
  unrecorded_runs tool args m (inl (q, h)) = (_, auto_runs tool args m q h)
  unrecorded_runs tool args m (inr (q, (e, h, f))) = (_, failed_runs tool args m e q h f)

  -- A call whose key is automatic and not in the map, or required and of a call that has failed,
  -- leaves the map as it is, when it is handed over to its tool's gate and however it ends there. So
  -- every such call with the same name and arguments that is permitted comes to the gate, however
  -- often the handler has returned.
  pub unrecorded_runs_again :
      (gateway : Gateway S) (name : String) (raw : S.Raw) (m : IdempotencyManager S.Data)
      (tool : ToolDefinition) (args : S.Args)
      → resolve S.texts gateway.catalog name ≡ some tool
      → canonical_args gateway tool raw ≡ some args
      → IsUnrecorded S tool args m
      → (l : Launch S) × ((now : ℕ) (ctx : InvokeContext S)
          → Permitted now gateway ctx tool args
          → begin now gateway ctx name raw m ≡ (m, launched l))
        × ((outcome : RunOutcome S) → (finish l outcome m).0 ≡ m)
  unrecorded_runs_again gateway name raw m tool args q k u =
      let (l, (starts, ends)) = unrecorded_runs tool args m u in
      (
        l,
        λ now ctx p.
            begin_starts now gateway ctx name raw m q k
              ((Permitted-refusal now gateway ctx tool args).1 p)
            ∙ starts now ctx,
        ends,
      )
