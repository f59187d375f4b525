-- ===== src/Tools/Gateway/Invocation.antt =====
-- `invoke` of src/tools/gateway/tool-gateway.ts, in the two parts that run without a pause: up to
-- the call of `gate.run`, and from its end. Between them the call may wait in its tool's gate, the
-- gate may refuse it, so that its handler never starts, or the handler runs. The argument repair
-- and the validator are parameters, as is the policy engine, an interface of the source; the clock
-- is an argument. The texts of the messages, the call's id and the callback that observes
-- decisions are left out.
use devagent_ts.Base.{
  ℕ, Bool, true, false, not, ◌&&◌, ◌||◌, Option, none, some, String, string_eq, List, any, includes,
  is_empty, if◌then◌else◌,
}
use devagent_ts.Core.Policy.Tools.{ToolDefinition, IdempotencyKey, required, auto}
use devagent_ts.Core.Policy.Rules.{
  ArgValue, EnvironmentPolicyContext, BudgetSnapshot, PolicyRequest, PolicyDecision,
}
use devagent_ts.Runtime.Budget.Limits.{Floats}
use devagent_ts.Runtime.Budget.Managers.{Manager, assert_time_left}
use devagent_ts.Tools.Idempotency.{
  IdempotencyManager, IdempotencyCheck, is_new, is_in_flight, is_completed, is_failed,
  idempotency_key_for, check, record_key, complete,
}
use devagent_ts.Tools.Gateway.Catalog.{Texts, ToolCatalog, resolve}

-- What a gateway takes from elsewhere: arguments as emitted (`Raw`), in the canonical form
-- (`Args`), and the data that handlers return.
pub record Setting : Type 1 where
  pub Raw : Type 0
  pub Args : Type 0
  pub Data : Type 0
  pub texts : Texts
  -- decodeRawArguments, normalizeToolArgs
  pub repaired : ToolDefinition → Raw → Args
  -- validateAndCanonicalizeArgs, `none` where it reports problems
  pub validated : ToolDefinition → Args → Option Args
  -- args[name], as the policy rules read it
  pub arg_value : Args → String → Option ArgValue
  -- stableStringify
  pub text_of : Args → String
  -- the first 32 digits of the SHA-256 digest
  pub digest : String → String
  -- data.ok where it is a Boolean, data.data where it is there
  pub own_ok : Data → Option Bool
  pub own_data : Data → Option Data
  pub floats : Floats

pub record Gateway (S : Setting) : Type 0 where
  pub catalog : ToolCatalog
  pub policy_engine : Option (PolicyRequest → PolicyDecision)
  pub validates : Bool

pub record InvokeContext (S : Setting) : Type 0 where
  pub agent_id : Option String
  pub run_id : Option String
  pub mode : Option String
  pub unattended : Bool
  pub is_aborted : Bool
  pub capabilities : List String
  pub budget : Option (Manager S.floats)
  pub skip_policy : Bool
  pub skip_capability_check : Bool
  pub environment : Option EnvironmentPolicyContext
  pub confirmed : Bool

-- The codes of failures; `thrown` has the name of the class of what a handler threw.
pub data FailureCode : Type 0 where
  unknown_tool validation_error capability_denied policy_denied cancelled : FailureCode
  idempotency_conflict timeout concurrency_denied : FailureCode
  thrown : String → FailureCode

pub data ToolResult (S : Setting) : Type 0 where
  answered : Bool → S.Data → ToolResult S
  failure : FailureCode → ToolResult S
  confirmation_required : S.Args → ToolResult S

-- What the second part needs of the first.
pub record Launch (S : Setting) : Type 0 where
  pub tool : ToolDefinition
  pub args : S.Args
  pub idem_key : Option String

pub data Progress (S : Setting) : Type 0 where
  finished : ToolResult S → Progress S
  launched : Launch S → Progress S

-- How `gate.run` ends: with the data of the handler, or with what the handler threw, the timeout
-- or the gate's refusal of a call whose handler never started (`concurrency_denied`, or the
-- class of the error of an abort in the queue).
pub data RunOutcome (S : Setting) : Type 0 where
  returned : S.Data → RunOutcome S
  threw : FailureCode → RunOutcome S

-- a ?? "unknown"
abbrev pub or_unknown : Option String → String
or_unknown none = "unknown"
or_unknown (some s) = s

-- `budget.snapshot()`: the elapsed time is no less than zero, and no field is called `depleted`.
abbrev pub snapshot : {F : Floats} → Manager F → BudgetSnapshot
snapshot m = record { elapsed_ms_is_negative = false; depleted = false }

abbrev pub key_of : (S : Setting) → ToolDefinition → S.Args → String
key_of S tool args = idempotency_key_for S.digest S.text_of tool.id args

abbrev pub settle_key :
    {R : Type 0} → Option String → Option R → Bool → IdempotencyManager R → IdempotencyManager R
settle_key none result has_failed m = m
settle_key (some key) result has_failed m = complete key result has_failed m

module _ {S : Setting} where
  abbrev pub policy_request : InvokeContext S → ToolDefinition → S.Args → PolicyRequest
  policy_request ctx tool args = record {
    tool = tool;
    args = S.arg_value args;
    agent_id = or_unknown ctx.agent_id;
    run_id = or_unknown ctx.run_id;
    mode = ctx.mode;
    unattended = ctx.unattended;
    environment = ctx.environment;
    budget = elim ctx.budget [ none ↦ none | some m ↦ some (snapshot m) ];
  }

  -- Stages 1 and 2.
  unfoldable pub canonical_args : Gateway S → ToolDefinition → S.Raw → Option S.Args
  canonical_args gateway tool raw =
      let args = S.repaired tool raw in
      if gateway.validates then S.validated tool args else some args

  -- Stage 3.
  unfoldable pub lacks_capability : InvokeContext S → ToolDefinition → Bool
  lacks_capability ctx tool =
      not ctx.skip_capability_check
      && not (is_empty ctx.capabilities)
      && not
          (is_empty tool.capabilities || any (λ c. includes c ctx.capabilities) tool.capabilities)

  abbrev pub decision_refusal : InvokeContext S → S.Args → PolicyDecision → Option (ToolResult S)
  decision_refusal ctx args decision =
      if not decision.allowed
      then some (failure policy_denied)
      else if decision.require_confirmation && not ctx.unattended && not ctx.confirmed
      then some (confirmation_required args)
      else none

  -- Stage 4.
  unfoldable pub policy_refusal :
      Gateway S → InvokeContext S → ToolDefinition → S.Args → Option (ToolResult S)
  policy_refusal gateway ctx tool args = elim gateway.policy_engine [
    | none ↦ none
    | some engine ↦
        if ctx.skip_policy
        then none
        else decision_refusal ctx args (engine (policy_request ctx tool args))
  ]

  -- Stage 5: `throwIfAborted`, then `assertTimeLeft`.
  unfoldable pub is_cut_off : ℕ → InvokeContext S → Bool
  is_cut_off now ctx = ctx.is_aborted || elim ctx.budget [
    | none ↦ false
    | some m ↦ elim (assert_time_left now m) [ none ↦ false | some e ↦ true ]
  ]

  -- Stages 3 to 5.
  unfoldable pub refusal :
      ℕ → Gateway S → InvokeContext S → ToolDefinition → S.Args → Option (ToolResult S)
  refusal now gateway ctx tool args =
      if lacks_capability ctx tool
      then some (failure capability_denied)
      else elim (policy_refusal gateway ctx tool args) [
        | some r ↦ some r
        | none ↦ if is_cut_off now ctx then some (failure cancelled) else none
      ]

  -- The answer to a call whose result is known.
  abbrev pub replay : S.Data → ToolResult S
  replay result =
      answered (elim (S.own_ok result) [ none ↦ true | some ok ↦ ok ])
        (elim (S.own_data result) [ none ↦ result | some data_of ↦ data_of ])

  abbrev pub launch : ToolDefinition → S.Args → Option String → Progress S
  launch tool args key = launched (record { tool = tool; args = args; idem_key = key })

  -- Stage 5b, at the answer of `check`: a call with a required key is recorded where it is new;
  -- one with an automatic key has its key computed.
  abbrev pub keyed_launch :
      ℕ
      → InvokeContext S
      → ToolDefinition
      → S.Args
      → Bool
      → IdempotencyManager S.Data × IdempotencyCheck S.Data
      → IdempotencyManager S.Data × Progress S
  keyed_launch now ctx tool args is_required (m, is_completed (some result)) =
      (m, finished (replay result))
  keyed_launch now ctx tool args is_required (m, is_completed none) =
      (m, launch tool args (if is_required then none else some (key_of S tool args)))
  keyed_launch now ctx tool args is_required (m, is_in_flight) =
      (m, finished (failure idempotency_conflict))
  keyed_launch now ctx tool args is_required (m, is_failed) =
      (m, launch tool args (if is_required then none else some (key_of S tool args)))
  keyed_launch now ctx tool args is_required (m, is_new) =
      let key = key_of S tool args in
      (
        if is_required then record_key now key tool.id ctx.run_id m else m,
        launch tool args (some key),
      )

  -- Stage 5b, with an idempotency manager, at the tool's key mode.
  abbrev pub start_at :
      IdempotencyKey
      → ℕ
      → InvokeContext S
      → ToolDefinition
      → S.Args
      → IdempotencyManager S.Data
      → IdempotencyManager S.Data × Progress S
  start_at IdempotencyKey.none now ctx tool args m = (m, launch tool args none)
  start_at required now ctx tool args m =
      keyed_launch now ctx tool args true (check now (key_of S tool args) m)
  start_at auto now ctx tool args m =
      keyed_launch now ctx tool args false (check now (key_of S tool args) m)

  unfoldable pub start :
      ℕ
      → InvokeContext S
      → ToolDefinition
      → S.Args
      → IdempotencyManager S.Data
      → IdempotencyManager S.Data × Progress S
  start now ctx tool args m = start_at tool.execution.idempotency_key now ctx tool args m

  -- `invoke` of a gateway with an idempotency manager, up to `gate.run`.
  unfoldable pub begin :
      ℕ
      → Gateway S
      → InvokeContext S
      → String
      → S.Raw
      → IdempotencyManager S.Data
      → IdempotencyManager S.Data × Progress S
  begin now gateway ctx name raw m = elim (resolve S.texts gateway.catalog name) [
    | none ↦ (m, finished (failure unknown_tool))
    | some tool ↦ elim (canonical_args gateway tool raw) [
      | none ↦ (m, finished (failure validation_error))
      | some args ↦ elim (refusal now gateway ctx tool args) [
        | some r ↦ (m, finished r)
        | none ↦ start now ctx tool args m
      ]
    ]
  ]

  -- `invoke` from the end of `gate.run`.
  unfoldable pub finish :
      Launch S → RunOutcome S → IdempotencyManager S.Data → IdempotencyManager S.Data × ToolResult S
  finish l (returned result) m = (settle_key l.idem_key (some result) false m, answered true result)
  finish l (threw code) m = (settle_key l.idem_key none true m, failure code)

  -- `preview`, `none` for an unknown tool: the engine sees neither the environment nor the budget,
  -- and the arguments as they are given.
  unfoldable pub preview : Gateway S → InvokeContext S → String → S.Args → Option PolicyDecision
  preview gateway ctx name args = elim (resolve S.texts gateway.catalog name) [
    | none ↦ none
    | some tool ↦ elim gateway.policy_engine [
      | none ↦ some (record { allowed = true; require_confirmation = false; rule = none })
      | some engine ↦
          if ctx.skip_policy
          then some (record { allowed = true; require_confirmation = false; rule = none })
          else some
              (engine (record (policy_request ctx tool args) { environment = none; budget = none }))
    ]
  ]
