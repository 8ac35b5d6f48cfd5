-- ===== src/LinkConfig/Reconcile/Coverage.antt =====
-- linkconfig_controller.go: linkConfigToMachines with Reconcile, when a LinkConfig changes.
use dockyards_talos.Base.{
  String, string_eq, ◌≡◌, ◌↔◌, ◌⊎◌, ◌==◌, refl, ap, ◌∙◌, Option, some, List, [], ◌∷◌, Mem, Eq,
  arith, if◌then◌else◌, Bool-cases, inl, inr,
}
use dockyards_talos.Base.Result.{Result, ok, err, ◌>>=◌, >>=-congr}
use dockyards_talos.Routes.Types.{Route, Netip}
use dockyards_talos.LinkConfig.Types.{LinkConfig, Machine, LinkConfigState, link_config_name}
use dockyards_talos.LinkConfig.Cluster.{
  Lookup, found, not_found, failed, Cluster, Injector, Reply, finished,
  extract_talos_config_from_cluster_secret, extract_node_from_machine, link_config_to_machines,
  extract_link_config_state_from_machine,
}
use dockyards_talos.LinkConfig.Cluster.Requests.{Requests, mem-link_config_to_machines_iff}
use dockyards_talos.LinkConfig.Desired.{extract_desired_routes}
use dockyards_talos.LinkConfig.Reconcile.{
  Orders, planned, of_spec, or_retry, complete_routes, plan_found, plan_missing, plan_for,
  plan_machine, of_annotation,
}

-- Two states of the cluster in which a reconciliation reads the same, but for one LinkConfig.
pub record DifferAt (c : Cluster) (namespace name : String) (w w' : c.World) : Type 0 where
  pub link_configs :
      (other_namespace other : String)
      → ((other_namespace ≡ namespace) × (other ≡ name) → ⊥)
      → c.get_link_config other_namespace other w ≡ c.get_link_config other_namespace other w'
  pub talos_configs :
      (other_namespace other : String)
      → c.get_talos_config other_namespace other w ≡ c.get_talos_config other_namespace other w'
  pub pods : c.list_pods w ≡ c.list_pods w'

module _ (c : Cluster) (net : Netip) ⦃e : Eq net.Addr⦄ (i : Injector) (lc : LinkConfig)
    (w w' : c.World) (differ : DifferAt c lc.namespace lc.name w w') where
  extract_talos_config-same :
      (machine : Machine)
      → extract_talos_config_from_cluster_secret c w machine
        ≡ extract_talos_config_from_cluster_secret c w' machine
  unfolding extract_talos_config_from_cluster_secret
  extract_talos_config-same machine = rw (differ.talos_configs _ _)

  complete_routes-same :
      (orders : Orders) (machine : Machine) (routes : List Route × Option Route)
      → complete_routes c net i orders w machine routes
        ≡ complete_routes c net i orders w' machine routes
  unfolding complete_routes
  complete_routes-same orders machine routes = rw differ.pods refl

  plan_found-same :
      (orders : Orders) (machine : Machine) (last_applied : Option LinkConfigState)
      (config : LinkConfig)
      → plan_found c net i orders w machine last_applied config
        ≡ plan_found c net i orders w' machine last_applied config
  unfolding plan_found
  plan_found-same orders machine last_applied config =
      >>=-congr (of_spec (extract_desired_routes config.spec)) _ _ λ desired.
        >>=-congr (or_retry (extract_node_from_machine machine)) _ _ λ node.
          let rest = λ (talos_config : String) (r : Result Reply (List Route × Option Route)).
            (r >>= λ routes. ok (planned orders last_applied config node talos_config routes)) in
          ap
            (λ r. or_retry r >>= λ talos_config.
              rest talos_config (complete_routes c net i orders w machine desired))
            (extract_talos_config-same machine)
          ∙ >>=-congr (or_retry (extract_talos_config_from_cluster_secret c w' machine)) _ _
              λ talos_config. ap (rest talos_config) (complete_routes-same orders machine desired)

  plan_missing-same :
      (orders : Orders) (machine : Machine) (name : String) (ifaces : List String)
      → plan_missing c net i orders w machine name ifaces
        ≡ plan_missing c net i orders w' machine name ifaces
  unfolding plan_missing
  plan_missing-same orders machine name [] = refl
  plan_missing-same orders machine name (iface ∷ ifaces) =
      rw (extract_talos_config-same machine) refl

  plan_for-same :
      (orders : Orders) (machine : Machine) (last_applied : Option LinkConfigState)
      (answer : Lookup LinkConfig)
      → plan_for c net i orders w machine last_applied answer
        ≡ plan_for c net i orders w' machine last_applied answer
  unfolding plan_for
  plan_for-same orders machine last_applied (found config) =
      plan_found-same orders machine last_applied config
  plan_for-same orders machine last_applied not_found = plan_missing-same orders machine _ _
  plan_for-same orders machine last_applied failed = refl

  plan_machine-same :
      (orders : Orders) (machine : Machine)
      → (link_config_name machine ≡ lc.name → ⊥)
      → plan_machine c net i orders w machine ≡ plan_machine c net i orders w' machine
  unfolding plan_machine
  plan_machine-same orders machine other =
      let answers =
        differ.link_configs machine.namespace (link_config_name machine) (λ same. other same.1) in
      ap (λ b. if machine.is_being_deleted then err finished else b)
        (>>=-congr (of_annotation (extract_link_config_state_from_machine c machine)) _ _ (λ last.
          plan_for-same orders machine last _
          ∙ ap (plan_for c net i orders w' machine last) answers))

  -- When a LinkConfig changes and the machines of its namespace can be listed: each of them is asked
  -- to be reconciled, or Reconcile makes the same plan for it in both states of the cluster, where
  -- they differ in nothing that it reads but that LinkConfig; and nothing is asked for but the
  -- listed machines that name the LinkConfig by the rule of Reconcile.
  pub link_config_to_machines-Covers :
      (orders : Orders) (list : String → Option (List Machine)) (machines : List Machine)
      (machine : Machine) (r : String × String)
      → list lc.namespace ≡ some machines
      → Mem machine machines
      → (Mem (machine.namespace, machine.name) (link_config_to_machines list (some lc))
          ⊎ (plan_machine c net i orders w machine ≡ plan_machine c net i orders w' machine))
        × (Mem r (link_config_to_machines list (some lc)) ↔ ∥ Requests lc machines r ∥₁)
  link_config_to_machines-Covers orders list machines machine r listed at = (
    elim (Bool-cases (link_config_name machine == lc.name)) [
      | inl named ↦ inl (
          (mem-link_config_to_machines_iff list lc machines (machine.namespace, machine.name)
              listed).1
            ∣ (machine, at, ground arith, refl) ∣₁)
      | inr other ↦ inr (plan_machine-same orders machine (λ named. ground arith))
    ],
    mem-link_config_to_machines_iff list lc machines r listed,
  )
