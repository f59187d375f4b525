-- ===== src/Tools/Gateway/Replays.antt =====
-- The repeated calls that the gateway of src/tools/gateway/tool-gateway.ts answers from its map.
use devagent_ts.Base.{ℕ, ◌≡◌, sym, ◌∙◌, ap, true, none, some, String, string_eq}
use devagent_ts.Core.Policy.Tools.{ToolDefinition, required}
use devagent_ts.Tools.Gateway.Invocation.{
  ToolResult, keyed_launch, Gateway, begin, start_at, finished, launched, key_of, Launch, start,
  InvokeContext, Setting,
}
use devagent_ts.Tools.Idempotency.{
  is_new, is_in_flight, is_completed, is_failed, record_key, IdempotencyCheck, is_completed, check,
  IdempotencyManager,
}
use devagent_ts.Tools.Gateway.Permissions.{Permitted}

module _ {S : Setting} where
  -- A required key under which a call is started is recorded for it.
  recorded_launch :
      (now : ℕ) (ctx : InvokeContext S) (tool : ToolDefinition) (args : S.Args)
      (c : IdempotencyManager S.Data × IdempotencyCheck S.Data) (m' : IdempotencyManager S.Data)
      (l : Launch S) (key : String)
      → keyed_launch now ctx tool args true c ≡ (m', launched l)
      → l.idem_key ≡ some key
      → (key ≡ key_of S tool args)
        × (m' ≡ record_key now (key_of S tool args) tool.id ctx.run_id c.0)
  recorded_launch now ctx tool args (m, is_new) m' l key h k = (cc (h, k), cc h)
  recorded_launch now ctx tool args (m, is_in_flight) m' l key h k = cc h
  recorded_launch now ctx tool args (m, is_completed none) m' l key h k = cc (h, k)
  recorded_launch now ctx tool args (m, is_completed (some r)) m' l key h k = cc h
  recorded_launch now ctx tool args (m, is_failed) m' l key h k = cc (h, k)

  -- The call of `tool` with `args` is answered, `x` staying as it is, and with `r` if the call is
  -- permitted.
  abbrev pub Answered :
      ℕ
      → Gateway S
      → InvokeContext S
      → String
      → S.Raw
      → ToolDefinition
      → S.Args
      → IdempotencyManager S.Data
      → ToolResult S
      → Type 0
  Answered now gateway ctx name raw tool args x r =
      (s : ToolResult S) × (begin now gateway ctx name raw x ≡ (x, finished s))
      × (Permitted now gateway ctx tool args → s ≡ r)

  pub required_recorded :
      (now : ℕ) (ctx : InvokeContext S) (tool : ToolDefinition) (args : S.Args)
      (m m' : IdempotencyManager S.Data) (l : Launch S) (key : String)
      → tool.execution.idempotency_key ≡ required
      → start now ctx tool args m ≡ (m', launched l)
      → l.idem_key ≡ some key
      → (key ≡ key_of S tool args)
        × (m'
            ≡ record_key now
                (key_of S tool args)
                tool.id
                ctx.run_id
                (check now (key_of S tool args) m).0)
  unfolding start
  required_recorded now ctx tool args m m' l key q h k =
      let h1 : start_at required now ctx tool args m ≡ (m', launched l) =
        ap (λ i. start_at i now ctx tool args m) (sym q) ∙ h in
      recorded_launch now ctx tool args (check now (key_of S tool args) m) m' l key h1 k
