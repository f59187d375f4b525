-- ===== src/Core/Concurrency/Registry/Layers.antt =====
-- The limits of the gates of a registry, src/core/concurrency/gate-registry.ts.
use devagent_ts.Base.{
  ℕ, ◌≤◌, Option, some, String, string_eq, List, [], ◌∷◌, ◌≡◌, refl, sym, ap, ◌∙◌, arith,
  Bool-cases, Option-cases, inl, inr, ◌==◌, ==-eq,
}
use mathlib.Core.Path.{subst}
use devagent_ts.Base.Dict.{get, set, get-set}
use devagent_ts.Core.Concurrency.Gate.{Gate}
use devagent_ts.Core.Concurrency.Gate.{gate as new_gate}
use devagent_ts.Core.Concurrency.Gate.Leases.{leases_out, Sound, step-Sound, gate-Sound}
use devagent_ts.Core.Concurrency.Registry.{
  GateScope, GateRegistry, RegistryCall, asks, uses, or_default, gate_registry, map_key, gate_for,
  use_gate, registry_step, after_step, run_registry,
}

AllSound : GateRegistry → Type 0
AllSound reg = (k : String) (g : Gate) → get k reg.gates ≡ some g → Sound g

-- The gates that were there are there, with the same limits.
abbrev KeepsLimits : GateRegistry → GateRegistry → Type 0
KeepsLimits a b =
    (k : String) (g : Gate)
    → get k a.gates ≡ some g
    → (h : Gate) × (get k b.gates ≡ some h) × (h.max_concurrent ≡ g.max_concurrent)

set-AllSound :
    (key : String) (g : Gate) (reg : GateRegistry)
    → Sound g
    → AllSound reg
    → AllSound (record reg { gates = set key g reg.gates })
unfolding AllSound
set-AllSound key g reg s all k h q = elim (Bool-cases (key == k)) [
  | inl y ↦
      let same : some g ≡ some h = sym (get-set key k g reg.gates ∙ rw y refl) ∙ q in
      subst Sound (cc same) s
  | inr n ↦ all k h (sym (get-set key k g reg.gates ∙ rw n refl) ∙ q)
]

set-KeepsLimits :
    (key : String) (g : Gate) (reg : GateRegistry)
    → ((old : Gate) → get key reg.gates ≡ some old → g.max_concurrent ≡ old.max_concurrent)
    → KeepsLimits reg (record reg { gates = set key g reg.gates })
set-KeepsLimits key g reg fits k h q = elim (Bool-cases (key == k)) [
  | inl y ↦ (
    g,
    get-set key k g reg.gates ∙ rw y refl,
    fits h (ap (λ i. get i reg.gates) (==-eq key k y) ∙ q),
  )
  | inr n ↦ (h, get-set key k g reg.gates ∙ rw n q, refl)
]

registry_step-AllSound :
    (c : RegistryCall) (reg : GateRegistry)
    → AllSound reg
    → (after : GateRegistry) × (registry_step c reg ≡ some after)
      × AllSound after
      × KeepsLimits reg after
unfolding AllSound gate_for use_gate
registry_step-AllSound (asks scope key most deep) reg all =
    elim (Option-cases (get (map_key scope key) reg.gates)) [
      | inr (g, q) ↦ (reg, rw (q, gate_for) refl, all, λ k h e. (h, e, refl))
      | inl q ↦
          let made =
            new_gate (or_default most (reg.defaults scope)) (or_default deep reg.queue_depth) in
          (
            record reg { gates = set (map_key scope key) made reg.gates },
            rw (q, gate_for) refl,
            set-AllSound (map_key scope key) made reg (gate-Sound _ _) all,
            set-KeepsLimits (map_key scope key) made reg (λ old e. cc (q, e)),
          )
    ]
registry_step-AllSound (uses key c) reg all = elim (Option-cases (get key reg.gates)) [
  | inl q ↦ (reg, rw (q, use_gate) refl, all, λ k h e. (h, e, refl))
  | inr (g, q) ↦
      let (g', e, sound, limit) = step-Sound g c (all key g q) in
      (
        record reg { gates = set key g' reg.gates },
        rw (q, use_gate) (rw e refl),
        set-AllSound key g' reg sound all,
        set-KeepsLimits key g' reg
            (λ old o. let same : g ≡ old = cc (q, o) in limit ∙ ap (λ x. x.max_concurrent) same),
      )
]

KeepsLimits-trans : (a b c : GateRegistry) → KeepsLimits a b → KeepsLimits b c → KeepsLimits a c
KeepsLimits-trans a b c ab bc k g q =
    let (h, r, same) = ab k g q in let (i, t, still) = bc k h r in (i, t, still ∙ same)

run_registry-AllSound :
    (cs : List RegistryCall) (reg : GateRegistry)
    → AllSound reg
    → (after : GateRegistry) × (run_registry cs reg ≡ some after)
      × AllSound after
      × KeepsLimits reg after
run_registry-AllSound [] reg all = (reg, refl, all, λ k g q. (g, q, refl))
run_registry-AllSound (c ∷ cs) reg all =
    let (next, e, sound, keeps) = registry_step-AllSound c reg all in
    let (after, es, sounds, keeps_on) = run_registry-AllSound cs next sound in
    (
      after,
      ap (λ o. after_step o (run_registry cs)) e ∙ es,
      sounds,
      KeepsLimits-trans reg next after keeps keeps_on,
    )

gate_registry-AllSound :
    (limits : GateScope → Option ℕ) (depth : Option ℕ) → AllSound (gate_registry limits depth)
unfolding AllSound gate_registry get
gate_registry-AllSound limits depth k g q = cc q

-- Every call of a registry and of its gates comes to an end. A gate that has been made for a scope
-- and a key stays there with the limit it was made with, whatever overrides later calls name, and
-- however its leases are taken and given back, no more than that many have a release function
-- that has not been called, where the listeners of a signal run together with its abort.
pub registry_limits :
    (limits : GateScope → Option ℕ) (depth : Option ℕ) (first later : List RegistryCall)
    → (a : GateRegistry) × (b : GateRegistry) × (run_registry first (gate_registry limits depth)
        ≡ some a)
      × (run_registry later a ≡ some b)
      × ((key : String) (g : Gate)
          → get key a.gates ≡ some g
          → (h : Gate) × (get key b.gates ≡ some h)
            × (h.max_concurrent ≡ g.max_concurrent)
            × (leases_out h ≤ g.max_concurrent))
unfolding AllSound
registry_limits limits depth first later =
    let (a, e, sound, keeps) =
      run_registry-AllSound first (gate_registry limits depth)
        (gate_registry-AllSound limits depth) in
    let (b, es, sounds, kept) = run_registry-AllSound later a sound in
    (
      a,
      b,
      e,
      es,
      λ key g q.
          let (h, r, same) = kept key g q in
          let s = sounds key h r in (h, r, same, omega (arith, same, s.counted, s.capped)),
    )
