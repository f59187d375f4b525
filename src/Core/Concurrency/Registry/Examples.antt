-- ===== src/Core/Concurrency/Registry/Examples.antt =====
-- A registry whose trading gate is asked for twice, and the theorem at it.
use devagent_ts.Base.{ℕ, ◌≤◌, ◌≡◌, Option, none, some, String, string_eq, List, [], ◌∷◌}
use devagent_ts.Base.Dict.{get}
use devagent_ts.Core.Concurrency.Gate.{Gate, acquires, normal}
use devagent_ts.Core.Concurrency.Registry.{
  GateScope, GateRegistry, RegistryCall, asks, uses, domain, gate_registry, run_registry,
}
use devagent_ts.Core.Concurrency.Gate.Leases.{leases_out}
use devagent_ts.Core.Concurrency.Registry.Layers.{registry_limits}

abbrev none_given : GateScope → Option ℕ
none_given scope = none

abbrev trading : List RegistryCall
trading = asks domain "trading" none none ∷ []

-- Ten are asked for the second time; a second lease has to wait all the same.
abbrev again : List RegistryCall
again =
    asks domain "trading" (some 10) none
    ∷ uses "domain:trading" (acquires 1 normal none)
    ∷ uses "domain:trading" (acquires 2 normal none)
    ∷ []

registry_limits_example :
    (a : GateRegistry) × (b : GateRegistry) × (run_registry trading (gate_registry none_given none)
      ≡ some a)
    × (run_registry again a ≡ some b)
    × ((key : String) (g : Gate)
        → get key a.gates ≡ some g
        → (h : Gate) × (get key b.gates ≡ some h)
          × (h.max_concurrent ≡ g.max_concurrent)
          × (leases_out h ≤ g.max_concurrent))
registry_limits_example = registry_limits none_given none trading again
