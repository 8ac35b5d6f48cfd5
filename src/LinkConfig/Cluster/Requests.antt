-- ===== src/LinkConfig/Cluster/Requests.antt =====
-- linkconfig_controller.go: the machines that linkConfigToMachines asks to reconcile.
use mathlib.Core.List.{mem-cons, mem-cons_self, mem-cons_of_mem, not-mem-nil}
use mathlib.Core.Logic.{∥∥₁_elim, ∥∥₁_map, ∥∥₁_prop}
use mathlib.Core.Logic.Or
use dockyards_talos.Base.{
  String, string_eq, ◌≡◌, refl, ◌↔◌, arith, Option, some, List, [], ◌∷◌, Mem, Bool-cases, inl, inr,
  true,
}
use dockyards_talos.LinkConfig.Types.{LinkConfig, Machine, link_config_name}
use dockyards_talos.LinkConfig.Cluster.{
  listed_link_config_name, uses, requests_for, link_config_to_machines,
}

-- The name that the listing computes is the name that Reconcile computes.
pub listed_link_config_name-eq :
    (machine : Machine) → listed_link_config_name machine ≡ link_config_name machine
unfolding listed_link_config_name link_config_name
listed_link_config_name-eq machine = refl

-- A request for one of the machines that name the LinkConfig for Reconcile.
abbrev pub Requests : LinkConfig → List Machine → String × String → Type 0
Requests lc machines r =
    (machine : Machine) × Mem machine machines
    × (link_config_name machine ≡ lc.name)
    × (r ≡ (machine.namespace, machine.name))

Requests-later :
    (lc : LinkConfig) (machine : Machine) (rest : List Machine) (r : String × String)
    → ∥ Requests lc rest r ∥₁
    → ∥ Requests lc (machine ∷ rest) r ∥₁
Requests-later lc machine rest r h =
    ∥∥₁_map h (λ (m, at, named, same). (m, mem-cons_of_mem machine at, named, same))

mem-requests_for :
    (lc : LinkConfig) (machines : List Machine) (r : String × String)
    → Mem r (requests_for lc machines)
    → ∥ Requests lc machines r ∥₁
unfolding requests_for
mem-requests_for lc [] r at = absurd (not-mem-nil at)
mem-requests_for lc (machine ∷ rest) r at = elim (Bool-cases (uses lc machine)) [
  | inl same ↦
      Or.elim ∥∥₁_prop (mem-cons.0 (rw same at at))
        (λ here.
          ∣ (machine, mem-cons_self, ground (arith, listed_link_config_name-eq machine), here) ∣₁)
        (λ later. Requests-later lc machine rest r (mem-requests_for lc rest r later))
  | inr differ ↦ Requests-later lc machine rest r (mem-requests_for lc rest r (rw differ at at))
]

requests_for-mem :
    (lc : LinkConfig) (machines : List Machine) (machine : Machine)
    → Mem machine machines
    → link_config_name machine ≡ lc.name
    → Mem (machine.namespace, machine.name) (requests_for lc machines)
unfolding requests_for
requests_for-mem lc [] machine at named = absurd (not-mem-nil at)
requests_for-mem lc (m ∷ rest) machine at named =
    Or.elim ∥∥₁_prop (mem-cons.0 at)
      (λ here.
        let used : uses lc m ≡ true =
          rw (← here) (ground (arith, listed_link_config_name-eq machine)) in
        rw (used, here) mem-cons_self)
      (λ later.
        let found = requests_for-mem lc rest machine later named in
        elim (Bool-cases (uses lc m)) [
          | inl same ↦ rw same (mem-cons_of_mem _ found)
          | inr differ ↦ rw differ found
        ])

pub mem-link_config_to_machines_iff :
    (list : String → Option (List Machine)) (lc : LinkConfig) (machines : List Machine)
    (r : String × String)
    → list lc.namespace ≡ some machines
    → Mem r (link_config_to_machines list (some lc)) ↔ ∥ Requests lc machines r ∥₁
unfolding link_config_to_machines
mem-link_config_to_machines_iff list lc machines r listed =
    rw (listed, link_config_to_machines)
      (
        mem-requests_for lc machines r,
        λ h.
            ∥∥₁_elim h ∥∥₁_prop
              λ (m, at, named, same). rw same (requests_for-mem lc machines m at named),
      )
