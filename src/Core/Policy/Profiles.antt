-- ===== src/Core/Policy/Profiles.antt =====
-- src/core/policy/execution-profiles.ts
use devagent_ts.Base.{
  ℕ, ◌≡◌, Bool, true, false, ◌||◌, Option, some, String, List, [], ◌∷◌, ◌++◌, includes, arith,
  includes-add_all, add_all, string_eq, includes-append,
}
use devagent_ts.Core.Policy.Tools.{ToolRisk, low, medium, high, critical}

pub data ExecutionProfileName : Type 0 where
  readonly development testing devops networked production : ExecutionProfileName

pub data CommandPermission : Type 0 where
  none sandboxed workspace unrestricted : CommandPermission

pub data NetworkPermission : Type 0 where
  none registry allowlisted open_egress : NetworkPermission

pub data FilesystemPermission : Type 0 where
  none read workspace unrestricted : FilesystemPermission

pub record ResourceLimits : Type 0 where
  pub max_duration_sec : ℕ
  pub max_memory_mb : ℕ
  pub max_cpus : ℕ
  pub max_pids : ℕ
  pub max_output_bytes : ℕ

pub record Permissions : Type 0 where
  pub commands : CommandPermission
  pub network : NetworkPermission
  pub filesystem : FilesystemPermission
  pub resources : ResourceLimits

pub record ExecutionProfile : Type 0 where
  pub name : ExecutionProfileName
  pub description : String
  pub permissions : Permissions
  pub risk_ceiling : ToolRisk
  pub confirmation_floor : ToolRisk
  pub allow_external_mutation : Bool
  pub allow_financial : Bool
  pub denied_tools : List String

abbrev pub docker_defaults : ResourceLimits
docker_defaults = record {
  max_duration_sec = 1800;
  max_memory_mb = 512;
  max_cpus = 1;
  max_pids = 128;
  max_output_bytes = 32_768;
}

-- `EXECUTION_PROFILES`
unfoldable pub execution_profile : ExecutionProfileName → ExecutionProfile
execution_profile readonly = record {
  name = readonly;
  description = "Pure observation: reads and searches only. No mutation, no processes, no network.";
  permissions = record {
    commands = CommandPermission.none;
    network = NetworkPermission.none;
    filesystem = FilesystemPermission.read;
    resources = record docker_defaults { max_duration_sec = 60; max_memory_mb = 256 };
  };
  risk_ceiling = low;
  confirmation_floor = medium;
  allow_external_mutation = false;
  allow_financial = false;
  denied_tools = "run_shell" ∷ "docker" ∷ "paper_trade" ∷ [];
}
execution_profile development = record {
  name = development;
  description =
      "Local building and editing: workspace writes, sandboxed shell, no external mutation.";
  permissions = record {
    commands = CommandPermission.sandboxed;
    network = registry;
    filesystem = FilesystemPermission.workspace;
    resources = docker_defaults;
  };
  risk_ceiling = critical;
  confirmation_floor = high;
  allow_external_mutation = false;
  allow_financial = false;
  denied_tools = [];
}
execution_profile testing = record {
  name = testing;
  description = "Test suites and linters: workspace reads, sandboxed commands, longer duration.";
  permissions = record {
    commands = CommandPermission.sandboxed;
    network = registry;
    filesystem = FilesystemPermission.read;
    resources = record docker_defaults {
      max_duration_sec = 1800;
      max_memory_mb = 1024;
      max_cpus = 2;
    };
  };
  risk_ceiling = high;
  confirmation_floor = high;
  allow_external_mutation = false;
  allow_financial = false;
  denied_tools = "paper_trade" ∷ "git" ∷ [];
}
execution_profile devops = record {
  name = devops;
  description = "Container and build control: docker, package managers, restricted egress.";
  permissions = record {
    commands = CommandPermission.workspace;
    network = registry;
    filesystem = FilesystemPermission.workspace;
    resources = record docker_defaults { max_cpus = 2; max_memory_mb = 1024 };
  };
  risk_ceiling = critical;
  confirmation_floor = critical;
  allow_external_mutation = false;
  allow_financial = false;
  denied_tools = [];
}
execution_profile networked = record {
  name = networked;
  description =
      "Network-dependent agents: market data, MCP servers, browser; egress allowlisted per tool.";
  permissions = record {
    commands = CommandPermission.sandboxed;
    network = allowlisted;
    filesystem = FilesystemPermission.workspace;
    resources = docker_defaults;
  };
  risk_ceiling = critical;
  confirmation_floor = high;
  allow_external_mutation = true;
  allow_financial = false;
  denied_tools = [];
}
execution_profile production = record {
  name = production;
  description =
      "Live mutation powers (git push, trading): widest permissions, strictest confirmations.";
  permissions = record {
    commands = CommandPermission.workspace;
    network = open_egress;
    filesystem = FilesystemPermission.workspace;
    resources = docker_defaults;
  };
  risk_ceiling = critical;
  confirmation_floor = critical;
  allow_external_mutation = true;
  allow_financial = true;
  denied_tools = [];
}

-- The overrides of `restrictProfile`: an absent one keeps the base's field.
pub record Overrides : Type 0 where
  pub permissions : Option Permissions
  pub risk_ceiling : Option ToolRisk
  pub confirmation_floor : Option ToolRisk
  pub allow_external_mutation : Option Bool
  pub allow_financial : Option Bool
  pub denied_tools : Option (List String)

abbrev pub no_overrides : Overrides
no_overrides = record {
  permissions = Option.none;
  risk_ceiling = Option.none;
  confirmation_floor = Option.none;
  allow_external_mutation = Option.none;
  allow_financial = Option.none;
  denied_tools = Option.none;
}

abbrev pub or_else {ℓ} : {A : Type ℓ} → Option A → A → A
or_else Option.none a = a
or_else (some b) a = b

unfoldable pub restrict_profile : ExecutionProfile → Overrides → ExecutionProfile
restrict_profile base overrides = record base {
  permissions = or_else overrides.permissions base.permissions;
  risk_ceiling = or_else overrides.risk_ceiling base.risk_ceiling;
  confirmation_floor = or_else overrides.confirmation_floor base.confirmation_floor;
  allow_external_mutation = or_else overrides.allow_external_mutation base.allow_external_mutation;
  allow_financial = or_else overrides.allow_financial base.allow_financial;
  denied_tools = add_all [] (base.denied_tools ++ or_else overrides.denied_tools []);
}

pub data TradingExecutionMode : Type 0 where
  research backtest paper shadow live : TradingExecutionMode

unfoldable pub trading_profile : TradingExecutionMode → ExecutionProfile
unfolding execution_profile restrict_profile
trading_profile research = restrict_profile (execution_profile readonly) (record no_overrides {
  permissions = some (record (execution_profile readonly).permissions { network = allowlisted });
  risk_ceiling = some medium;
})
trading_profile backtest = restrict_profile (execution_profile readonly) (record no_overrides {
  permissions = some (record (execution_profile readonly).permissions { network = allowlisted });
  risk_ceiling = some medium;
  denied_tools = some ("run_shell" ∷ []);
})
trading_profile paper = restrict_profile (execution_profile networked) (record no_overrides {
  allow_financial = some true;
  confirmation_floor = some critical;
  denied_tools = some ("run_shell" ∷ []);
})
trading_profile shadow =
    restrict_profile (execution_profile networked)
      (record no_overrides { allow_financial = some false; confirmation_floor = some critical })
trading_profile live = execution_profile production

-- Whatever the overrides, the restricted profile denies exactly the tools that the base denies
-- and those that the overrides deny.
pub includes-restrict_profile :
    (id : String) (base : ExecutionProfile) (overrides : Overrides)
    → includes id (restrict_profile base overrides).denied_tools
      ≡ (includes id base.denied_tools || includes id (or_else overrides.denied_tools []))
unfolding restrict_profile
includes-restrict_profile id base overrides = ground (
  arith,
  includes-add_all id [] (base.denied_tools ++ or_else overrides.denied_tools []),
  includes-append id base.denied_tools (or_else overrides.denied_tools []),
)
