-- ===== src/Core/Concurrency/Registry.antt =====
-- `GateRegistry`, src/core/concurrency/gate-registry.ts, over the gates of src/core/concurrency/gate.ts.
-- Labels of gates are left out.
pub mod Layers
mod Examples
use devagent_ts.Base.{ℕ, Option, none, some, String, string_eq, List, [], ◌∷◌}
use Prim.Native.String.{◌++◌ as then_text}
use devagent_ts.Base.Dict.{Dict, get, set}
use devagent_ts.Core.Concurrency.Gate.{Gate, Call, step}
use devagent_ts.Core.Concurrency.Gate.{gate as new_gate}

pub data GateScope : Type 0 where
  global model provider agent tool workspace domain : GateScope

unfoldable pub scope_name : GateScope → String
scope_name global = "global"
scope_name model = "model"
scope_name provider = "provider"
scope_name agent = "agent"
scope_name tool = "tool"
scope_name workspace = "workspace"
scope_name domain = "domain"

unfoldable pub default_limits : GateScope → ℕ
default_limits global = 32
default_limits model = 8
default_limits provider = 3
default_limits agent = 4
default_limits tool = 4
default_limits workspace = 8
default_limits domain = 1

pub record GateRegistry : Type 0 where
  pub gates : Dict String Gate
  pub defaults : GateScope → ℕ
  pub queue_depth : ℕ

-- a ?? b
abbrev pub or_default : Option ℕ → ℕ → ℕ
or_default none b = b
or_default (some a) b = a

-- The constructor, with the limits and the depth of queues that the options give.
unfoldable pub gate_registry : (GateScope → Option ℕ) → Option ℕ → GateRegistry
gate_registry limits queue_depth = record {
  gates = [];
  defaults = λ scope. or_default (limits scope) (default_limits scope);
  queue_depth = or_default queue_depth 100;
}

abbrev pub map_key : GateScope → String → String
map_key scope key = then_text (then_text (scope_name scope) ":") key

-- `gate` of a scope and a key, with the overrides of the two limits: the gate that is there, or a
-- new one.
unfoldable pub gate_for :
    GateScope → String → Option ℕ → Option ℕ → GateRegistry → GateRegistry × Gate
gate_for scope key max_concurrent max_queue_depth reg = elim (get (map_key scope key) reg.gates) [
  | some g ↦ (reg, g)
  | none ↦
      let made =
        new_gate (or_default max_concurrent (reg.defaults scope))
          (or_default max_queue_depth reg.queue_depth) in
      (record reg { gates = set (map_key scope key) made reg.gates }, made)
]

-- A call of the registry, or of a gate that it handed out.
pub data RegistryCall : Type 0 where
  asks : GateScope → String → Option ℕ → Option ℕ → RegistryCall
  uses : String → Call → RegistryCall

abbrev pub with_gate : String → GateRegistry → Option Gate → Option GateRegistry
with_gate key reg none = none
with_gate key reg (some g) = some (record reg { gates = set key g reg.gates })

unfoldable pub use_gate : String → Call → GateRegistry → Option GateRegistry
use_gate key c reg = elim (get key reg.gates) [
  | none ↦ some reg
  | some g ↦ with_gate key reg (step g c)
]

abbrev pub registry_step : RegistryCall → GateRegistry → Option GateRegistry
registry_step (asks scope key most deep) reg = some (gate_for scope key most deep reg).0
registry_step (uses key c) reg = use_gate key c reg

abbrev pub after_step :
    Option GateRegistry → (GateRegistry → Option GateRegistry) → Option GateRegistry
after_step none f = none
after_step (some reg) f = f reg

abbrev pub run_registry : List RegistryCall → GateRegistry → Option GateRegistry
run_registry [] reg = some reg
run_registry (c ∷ cs) reg = after_step (registry_step c reg) (run_registry cs)
