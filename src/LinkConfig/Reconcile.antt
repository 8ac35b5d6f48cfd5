-- ===== src/LinkConfig/Reconcile.antt =====
-- linkconfig_controller.go: Reconcile and reconcileMissingLinkConfig.
pub mod Laws
pub mod Named
pub mod Coverage
pub mod Records
pub mod Repeat
use dockyards_talos.Base.{
  ℕ, String, string_eq, Bool, true, false, not, ◌&&◌, ◌||◌, Option, none, some, List, [], ◌∷◌, ◌==◌,
  Eq, if◌then◌else◌,
}
use dockyards_talos.Base.GoMap.{GoMap}
use dockyards_talos.Base.Range.{Visit}
use dockyards_talos.Base.Result.{Result, ok, err, ◌>>=◌, ◌>>◌, guard, or_fail}
use dockyards_talos.Base.Text.{trim_space}
use dockyards_talos.Routes.Types.{Node, Route, Netip}
use dockyards_talos.Routes.Types
use dockyards_talos.LinkConfig.Types.{
  LinkConfig, AddressType, internal_ip, external_ip, other_type, MachineAddress, Machine, Pod,
  LinkConfigState, read, write, link_config_state_key, link_config_name,
}
use dockyards_talos.LinkConfig.Desired.{
  SpecError, is_blank, extract_desired_routes, needs_gateway, fill_gateways,
}
use dockyards_talos.LinkConfig.Interfaces.{managed_interfaces_from_state, merge_managed_interfaces}
use dockyards_talos.LinkConfig.Gateway.{OvnPodNetwork, GatewayError, derive_gateway_from_vm_pod}
use dockyards_talos.LinkConfig.Cluster.{
  Lookup, found, not_found, failed, Cluster, Injector, ReconcileError, get_machine_failed,
  decode_annotation_failed, get_link_config_failed, spec_error, gateway_error, ensure_error, Reply,
  finished, failure, retry, extract_node_from_machine, extract_talos_config_from_cluster_secret,
  extract_link_config_state_from_machine, persist_reconciled_link_config_state,
}

-- What a reconciliation is about to do to a node, and what it records then.
pub record Plan : Type 0 where
  pub node : Node
  pub talos_config : String
  pub static_routes : List Route
  pub default_route : Option Route
  pub managed_interfaces : List String
  pub payload : LinkConfigState

-- The orders in which the call visits its maps.
pub record Orders : Type 0 where
  pub names : Visit String (Unit {0})
  pub state_names : Visit String (Unit {0})
  pub networks : Visit String OvnPodNetwork

abbrev pub or_retry {ℓ} : {A : Type ℓ} → Result ReconcileError A → Result Reply A
or_retry (ok a) = ok a
or_retry (err e) = err (retry e)

abbrev pub of_spec {ℓ} : {A : Type ℓ} → Result SpecError A → Result Reply A
of_spec (ok a) = ok a
of_spec (err e) = err (failure (spec_error e))

abbrev pub of_gateway {ℓ} : {A : Type ℓ} → Result GatewayError A → Result Reply A
of_gateway (ok a) = ok a
of_gateway (err e) = err (retry (gateway_error e))

abbrev pub of_annotation {ℓ} : {A : Type ℓ} → Result ReconcileError A → Result Reply A
of_annotation (ok a) = ok a
of_annotation (err e) = err (failure e)

-- The plan for a LinkConfig, and that for one that is missing.
abbrev pub planned :
    Orders → Option LinkConfigState → LinkConfig → Node → String → List Route × Option Route → Plan
planned orders last_applied lc node talos_config routes = record {
  node = node;
  talos_config = talos_config;
  static_routes = routes.0;
  default_route = routes.1;
  managed_interfaces =
      merge_managed_interfaces orders.names orders.state_names last_applied routes.0 routes.1;
  payload = record {
    link_config_name = lc.name;
    link_config_generation = lc.generation;
    static_routes = routes.0;
    default_route = routes.1;
  };
}

abbrev pub cleanup_plan : String → Node → String → List String → Plan
cleanup_plan name node talos_config ifaces = record {
  node = node;
  talos_config = talos_config;
  static_routes = [];
  default_route = none;
  managed_interfaces = ifaces;
  payload = record {
    link_config_name = name;
    link_config_generation = 0;
    static_routes = [];
    default_route = none;
  };
}

-- `lastAppliedState == nil || … || len(managedInterfaces) == 0`
unfoldable pub cleanup_interfaces : Orders → String → Option LinkConfigState → List String
cleanup_interfaces orders name none = []
cleanup_interfaces orders name (some state) =
    if state.link_config_name == name
    then managed_interfaces_from_state orders.state_names (some state)
    else []

-- The same for a LinkConfig that is missing: the routes that were applied last are removed.
module _ (c : Cluster) (net : Netip) ⦃e : Eq net.Addr⦄ (i : Injector) where
  -- The routes with their gateways: derived from the pod of the machine, if any is missing.
  unfoldable pub complete_routes :
      Orders
      → c.World
      → Machine
      → List Route × Option Route
      → Result Reply (List Route × Option Route)
  complete_routes orders w machine routes =
      if needs_gateway routes.0 routes.1
      then (of_gateway (
            derive_gateway_from_vm_pod net orders.networks c.decode_networks (c.list_pods w)
              machine)
          >>= λ derived. ok (fill_gateways derived routes.0 routes.1))
      else ok routes

  -- Everything that Reconcile does for a LinkConfig that exists, before it calls the injector.
  unfoldable pub plan_found :
      Orders → c.World → Machine → Option LinkConfigState → LinkConfig → Result Reply Plan
  plan_found orders w machine last_applied lc = do
    desired ← of_spec (extract_desired_routes lc.spec)
    node ← or_retry (extract_node_from_machine machine)
    talos_config ← or_retry (extract_talos_config_from_cluster_secret c w machine)
    routes ← complete_routes orders w machine desired
    ok (planned orders last_applied lc node talos_config routes)

  unfoldable pub plan_missing :
      Orders → c.World → Machine → String → List String → Result Reply Plan
  plan_missing orders w machine name [] = err finished
  plan_missing orders w machine name (iface ∷ ifaces) = do
    node ← or_retry (extract_node_from_machine machine)
    talos_config ← or_retry (extract_talos_config_from_cluster_secret c w machine)
    ok (cleanup_plan name node talos_config (iface ∷ ifaces))

  unfoldable pub plan_for :
      Orders → c.World → Machine → Option LinkConfigState → Lookup LinkConfig → Result Reply Plan
  plan_for orders w machine last_applied (found lc) = plan_found orders w machine last_applied lc
  plan_for orders w machine last_applied not_found =
      plan_missing orders w machine (link_config_name machine)
        (cleanup_interfaces orders (link_config_name machine) last_applied)
  plan_for orders w machine last_applied failed = err (failure get_link_config_failed)

  unfoldable pub plan_machine : Orders → c.World → Machine → Result Reply Plan
  plan_machine orders w machine = if machine.is_being_deleted then err finished else do
    last_applied ← of_annotation (extract_link_config_state_from_machine c machine)
    plan_for orders w machine last_applied
        (c.get_link_config machine.namespace (link_config_name machine) w)

  unfoldable pub persisted :
      i.Nodes → c.World × Result ReconcileError Bool → c.World × i.Nodes × Reply
  persisted nodes (w, err e) = (w, nodes, retry e)
  persisted nodes (w, ok updated) = (w, nodes, finished)

  -- The calls that change something: the injector's, and then the patch.
  unfoldable pub after_ensure :
      c.World → Machine → Plan → i.Nodes × Option Types.Error → c.World × i.Nodes × Reply
  after_ensure w machine plan (nodes, some e) = (w, nodes, retry (ensure_error e))
  after_ensure w machine plan (nodes, none) =
      persisted nodes (persist_reconciled_link_config_state c w machine plan.payload)

  unfoldable pub carry_out :
      c.World → i.Nodes → Machine → Result Reply Plan → c.World × i.Nodes × Reply
  carry_out w nodes machine (err reply) = (w, nodes, reply)
  carry_out w nodes machine (ok plan) = after_ensure w machine plan (
      i.ensure_routes plan.node plan.talos_config plan.static_routes plan.default_route
        plan.managed_interfaces nodes)

  unfoldable pub reconcile_machine :
      Orders → c.World → i.Nodes → Lookup Machine → c.World × i.Nodes × Reply
  reconcile_machine orders w nodes (found machine) =
      carry_out w nodes machine (plan_machine orders w machine)
  reconcile_machine orders w nodes not_found = (w, nodes, finished)
  reconcile_machine orders w nodes failed = (w, nodes, failure get_machine_failed)

  unfoldable pub reconcile :
      Orders → (namespace name : String) → c.World → i.Nodes → c.World × i.Nodes × Reply
  reconcile orders namespace name w nodes =
      reconcile_machine orders w nodes (c.get_machine namespace name w)
