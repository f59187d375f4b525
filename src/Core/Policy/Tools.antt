-- ===== src/Core/Policy/Tools.antt =====
-- src/core/tools/tool-contract.ts: what a tool declares about itself. The JSON schema of a tool's
-- arguments, which no rule reads, is left out.
use devagent_ts.Base.{
  ℕ, zero, suc, ◌≡◌, refl, Bool, false, ◌||◌, Option, String, List, StrictEq, eq_by_rank, leb, ◌==◌,
}

pub data ToolRisk : Type 0 where
  read low medium high critical : ToolRisk

-- `TOOL_RISK_ORDER.indexOf`
abbrev pub rank : ToolRisk → ℕ
rank read = 0
rank low = 1
rank medium = 2
rank high = 3
rank critical = 4

abbrev unrank : ℕ → ToolRisk
unrank zero = read
unrank (suc zero) = low
unrank (suc (suc zero)) = medium
unrank (suc (suc (suc zero))) = high
unrank (suc (suc (suc (suc n)))) = critical

pub unrank-rank : (r : ToolRisk) → unrank (rank r) ≡ r
unrank-rank read = refl
unrank-rank low = refl
unrank-rank medium = refl
unrank-rank high = refl
unrank-rank critical = refl

instance abbrev pub risk_eq : StrictEq ToolRisk
risk_eq = eq_by_rank rank unrank unrank-rank

unfoldable pub tool_risk_at_least : ToolRisk → ToolRisk → Bool
tool_risk_at_least risk floor = leb (rank floor) (rank risk)

pub record ToolSideEffects : Type 0 where
  pub filesystem : Bool
  pub process : Bool
  pub network : Bool
  pub external_mutation : Bool
  pub financial : Bool

pub record ToolNetworkRequirements : Type 0 where
  pub required : Bool
  pub egress : List String
  pub proxyable : Bool

pub data IdempotencyKey : Type 0 where
  none required auto : IdempotencyKey

pub record ToolExecutionSpec : Type 0 where
  pub timeout_ms : ℕ
  pub concurrency : ℕ
  pub idempotent : Bool
  pub reversible : Bool
  pub idempotency_key : IdempotencyKey

pub data Confirmation : Type 0 where
  never optional required : Confirmation

pub record ToolDefinition : Type 0 where
  pub id : String
  pub description : String
  pub capabilities : List String
  pub pack : String
  pub tags : List String
  pub risk : ToolRisk
  pub side_effects : ToolSideEffects
  pub execution : ToolExecutionSpec
  pub confirmation : Confirmation
  pub network : Option ToolNetworkRequirements

abbrev pub no_side_effects : ToolSideEffects
no_side_effects = record {
  filesystem = false;
  process = false;
  network = false;
  external_mutation = false;
  financial = false;
}

abbrev pub no_network : ToolNetworkRequirements
no_network = record { required = false; egress = List.[]; proxyable = false }

abbrev pub default_execution_spec : ToolExecutionSpec
default_execution_spec = record {
  timeout_ms = 120_000;
  concurrency = 4;
  idempotent = false;
  reversible = false;
  idempotency_key = IdempotencyKey.none;
}

unfoldable pub tool_is_mutating : ToolDefinition → Bool
tool_is_mutating tool =
    tool.side_effects.filesystem
    || tool.side_effects.process
    || tool.side_effects.external_mutation
    || tool.side_effects.financial
    || tool.risk == critical
