-- ===== src/Tools/Gateway/Examples.antt =====
-- A gateway with a tool that trades, and the theorems at it.
use devagent_ts.Base.{
  ℕ, ◌+◌, ◌-◌, ◌*◌, ◌≡◌, refl, Bool, true, false, not, ◌&&◌, none, some, String, string_eq, [], ◌∷◌,
  ◌==◌, leb, ltb, ◌↔◌, ◌⊎◌, inl, inr, filter, is_empty, if◌then◌else◌,
}
use devagent_ts.Core.Policy.Tools.{
  ToolDefinition, IdempotencyKey, critical, optional, no_side_effects, default_execution_spec,
}
use devagent_ts.Runtime.Budget.Limits.{Floats}
use devagent_ts.Base.Dict.{get, set}
use devagent_ts.Core.Policy.Rules.{
  text, mode_restriction_rule, budget_guard_rule, confirmation_rule, is_read_only_mode, is_depleted,
  combined_floor,
}
use devagent_ts.Core.Policy.ArgRules.{destructive_shell_rule, git_publish_rule, delete_file_rule}
use devagent_ts.Core.Policy.Engine.{
  check as engine_check, posture_by_name, standard_posture, rule_policy_engine, first_decision,
  effective, arg_rules, standard,
}
use devagent_ts.Core.Policy.Tools.{tool_is_mutating, tool_risk_at_least}
use devagent_ts.Tools.Idempotency.{
  IdempotencyManager, is_failed, check, check_entry, record_key, complete, idempotency_key_for,
}
use devagent_ts.Tools.Gateway.Catalog.{
  resolve, canonical_tool_name, tool_aliases, find_id, discover, all_tools,
}
use devagent_ts.Tools.Gateway.Invocation.{
  Setting, Gateway, InvokeContext, Launch, RunOutcome, FailureCode, ToolResult, threw,
  concurrency_denied, returned, finished, launched, failure, idempotency_conflict, canonical_args,
  lacks_capability, policy_refusal, is_cut_off, refusal, start, begin, finish,
}
use devagent_ts.Tools.Gateway.Permissions.{Permitted}
use devagent_ts.Tools.Gateway.Handovers.{LetsThrough, handed_over_iff}
use devagent_ts.Tools.Gateway.Failures.{failed_calls_release}
use devagent_ts.Tools.Gateway.Repeats.{unrecorded_runs_again}
use devagent_ts.Tools.Gateway.Discovery.{discover-lacks_capability}
use devagent_ts.Tools.Gateway.Approvals.{financial_is_confirmed}

evaluation : Unit {0}
unfolding begin resolve canonical_tool_name tool_aliases get set find_id check_entry canonical_args
    refusal lacks_capability policy_refusal is_cut_off start check record_key idempotency_key_for
    engine_check posture_by_name standard_posture rule_policy_engine first_decision effective
    arg_rules destructive_shell_rule git_publish_rule delete_file_rule mode_restriction_rule
    budget_guard_rule confirmation_rule is_read_only_mode is_depleted combined_floor
    tool_is_mutating tool_risk_at_least finish complete
evaluation = tt

abbrev whole_numbers : Floats
whole_numbers = record {
  Amount = ℕ;
  no_amount = 0;
  plus = λ a b. a + b;
  minus = λ a b. a - b;
  times = λ a b. a * b;
  rounded = λ a. a;
  exceeds = λ a b. ltb b a;
  is_share = λ a. ltb 0 a && leb a 1;
  half = 1;
  portion = λ n a. n * a;
}

-- Arguments are one text, which may not be empty.
abbrev setting : Setting
setting = record {
  Raw = String;
  Args = String;
  Data = String;
  texts = record { stripped = λ s. s; to_lower_case = λ s. s };
  repaired = λ tool raw. raw;
  validated = λ tool args. if args == "" then none else some args;
  arg_value = λ args name. some (text args);
  text_of = λ args. args;
  digest = λ s. s;
  own_ok = λ d. none;
  own_data = λ d. none;
  floats = whole_numbers;
}

abbrev tool : String → IdempotencyKey → Bool → ToolDefinition
tool id key financial = record {
  id = id;
  description = "";
  capabilities = "trade" ∷ [];
  pack = "core";
  tags = [];
  risk = critical;
  side_effects = record no_side_effects { financial = financial };
  execution = record default_execution_spec { idempotency_key = key };
  confirmation = optional;
  network = none;
}

abbrev trade : ToolDefinition
trade = tool "paper_trade" IdempotencyKey.required true

abbrev notify : ToolDefinition
notify = tool "notify" IdempotencyKey.auto false

abbrev no_pattern : String → Bool
no_pattern s = false

abbrev gateway : Gateway setting
gateway = record {
  catalog = ("paper_trade", trade) ∷ ("notify", notify) ∷ [];
  policy_engine = some (engine_check (posture_by_name no_pattern standard none [] none []));
  validates = true;
}

abbrev attended : InvokeContext setting
attended = record {
  agent_id = none;
  run_id = some "run_1";
  mode = none;
  unattended = false;
  is_aborted = false;
  capabilities = "trade" ∷ [];
  budget = none;
  skip_policy = false;
  skip_capability_check = false;
  environment = none;
  confirmed = true;
}

abbrev empty : IdempotencyManager String
empty = record { entries = []; pending_ttl_ms = 100; max_entries = 1000 }

abbrev call : Launch setting
call = record { tool = trade; args = "buy"; idem_key = some "paper_trade::buy" }

abbrev after_start : IdempotencyManager String
after_start = record_key 5 "paper_trade::buy" "paper_trade" (some "run_1") empty

call_is_launched : begin 5 gateway attended "paper_trade" "buy" empty ≡ (after_start, launched call)
unfolding evaluation
call_is_launched = refl

handed_over_iff_example :
    ((m' : IdempotencyManager String) × (l : Launch setting) × (begin 5 gateway attended
          "paper_trade" "buy" empty
        ≡ (m', launched l))
      × (l.tool ≡ trade)
      × (l.args ≡ "buy"))
    ↔ ((resolve setting.texts gateway.catalog "paper_trade" ≡ some trade)
        × (canonical_args gateway trade "buy" ≡ some "buy")
        × Permitted 5 gateway attended trade "buy"
        × LetsThrough setting 5 trade "buy" empty IdempotencyKey.required)
handed_over_iff_example = handed_over_iff 5 gateway attended "paper_trade" "buy" empty trade "buy"

abbrev ungranted : InvokeContext setting
ungranted = record attended { capabilities = "read" ∷ [] }

conflict :
    begin 9 gateway attended "paper_trade" "buy" after_start
    ≡ (after_start, finished (failure idempotency_conflict))
unfolding evaluation
conflict = refl

-- The gate of the tool is full.
failed_calls_release_example :
    ((r : ToolResult setting)
      → begin 5 gateway attended "paper_trade" "buy" empty ≡ (after_start, finished r)
      → after_start ≡ empty)
    × ((l : Launch setting) (key : String) (code : FailureCode)
        → begin 5 gateway attended "paper_trade" "buy" empty ≡ (after_start, launched l)
        → l.tool.execution.idempotency_key ≡ IdempotencyKey.required
        → l.idem_key ≡ some key
        → let (after, answer) = finish l (threw code) after_start in
          (answer ≡ failure code)
          × (check 9 key after ≡ (after, is_failed))
          × ((j : String) → (key == j) ≡ false → get j after.entries ≡ get j empty.entries))
failed_calls_release_example =
    failed_calls_release 5 9 gateway attended "paper_trade" "buy" empty after_start

-- The gate is full, and the same call comes to it again, with no key.
refused_by_gate :
    begin 9 gateway attended "paper_trade" "buy"
      (finish call (threw concurrency_denied) after_start).0
    ≡ (
      (finish call (threw concurrency_denied) after_start).0,
      launched (record call { idem_key = none }),
    )
unfolding evaluation
refused_by_gate = refl

-- Another call is recorded in between.
abbrev later_map : IdempotencyManager String
later_map =
    record_key 7 "paper_trade::sell" "paper_trade" none
      (finish call (returned "bought") after_start).0

unrecorded_runs_again_example :
    (l : Launch setting) × ((now : ℕ) (ctx : InvokeContext setting)
      → Permitted now gateway ctx notify "hello"
      → begin now gateway ctx "notify" "hello" empty ≡ (empty, launched l))
    × ((outcome : RunOutcome setting) → (finish l outcome empty).0 ≡ empty)
unfolding evaluation
unrecorded_runs_again_example =
    unrecorded_runs_again gateway "notify" "hello" empty notify "hello" refl refl (inl (refl, refl))

discover-lacks_capability_example :
    (is_empty attended.capabilities ≡ false
      → discover attended.capabilities gateway.catalog
        ≡ filter
            (λ t. not (lacks_capability attended t) && not (is_empty t.capabilities))
            (all_tools gateway.catalog))
    × (is_empty attended.capabilities ≡ true
        → discover attended.capabilities gateway.catalog
          ≡ filter (λ t. not (lacks_capability attended t)) (all_tools gateway.catalog))
discover-lacks_capability_example = discover-lacks_capability attended gateway.catalog refl

financial_is_confirmed_example : (attended.skip_policy ≡ true) ⊎ (attended.confirmed ≡ true)
financial_is_confirmed_example =
    financial_is_confirmed no_pattern 5 gateway attended "paper_trade" "buy" empty after_start call
      standard none none [] refl (inr refl) refl call_is_launched refl
