-- ===== src/LinkConfig/Cluster.antt =====
-- linkconfig_controller.go: what the controller reads from the cluster and records in it
-- (extractNodeFromMachine, extractTalosConfigFromClusterSecret, extractLinkConfigStateFromMachine,
-- persistReconciledLinkConfigState), and linkConfigToMachines.
pub mod Requests
use Prim.Native.String.{◌++◌ as ◌<>◌}
use dockyards_talos.Base.{
  ℕ, String, string_eq, Bool, true, false, not, ◌&&◌, Option, none, some, List, [], ◌∷◌, ◌==◌,
  if◌then◌else◌,
}
use dockyards_talos.Base.GoMap.{GoMap}
use dockyards_talos.Base.Result.{Result, ok, err, ◌>>=◌, ◌>>◌, guard, or_fail}
use dockyards_talos.Base.Text.{trim_space}
use dockyards_talos.Routes.Types.{Node, Route, Netip}
use dockyards_talos.Routes.Types
use dockyards_talos.LinkConfig.Types.{
  LinkConfig, internal_ip, external_ip, other_type, MachineAddress, Machine, Pod, LinkConfigState,
  read, write, link_config_key, link_config_state_key,
}
use dockyards_talos.LinkConfig.Desired.{SpecError}
use dockyards_talos.LinkConfig.Gateway.{OvnPodNetwork, GatewayError}

-- The answer to a request for an object.
pub data Lookup (A : Type 0) : Type 0 where
  found : A → Lookup A
  not_found failed : Lookup A

-- The Kubernetes client and the package encoding/json, as far as the controller calls them.
-- `World` is the state of the cluster.
pub record Cluster : Type 1 where
  pub World : Type 0
  pub get_machine : (namespace name : String) → World → Lookup Machine
  pub get_link_config : (namespace name : String) → World → Lookup LinkConfig
  pub get_talos_config : (namespace name : String) → World → Lookup (Option String)
  pub list_pods : World → (namespace infrastructure : String) → Option (List Pod)
  -- The cluster after the request, and whether it was answered without an error.
  pub patch : (machine base : Machine) → World → World × Bool
  pub decode_state : String → Option LinkConfigState
  pub encode_state : LinkConfigState → Option String
  pub decode_networks : String → Option (GoMap String OvnPodNetwork)

-- The interface `Injector`: `ensure_routes` changes the state of the node, and may fail.
pub record Injector : Type 1 where
  pub Nodes : Type 0
  pub ensure_routes :
      Node
      → (talos_config : String) → List Route
      → Option Route
      → List String
      → Nodes
      → Nodes × Option Types.Error

-- NoopInjector
abbrev pub noop_injector : Type 0 → Injector
noop_injector S = record {
  Nodes = S;
  ensure_routes = λ node talos_config static_routes default_route managed w. (w, none);
}

pub data ReconcileError : Type 0 where
  get_machine_failed decode_annotation_failed get_link_config_failed : ReconcileError
  spec_error : SpecError → ReconcileError
  no_usable_address cluster_name_empty get_secret_failed secret_key_missing : ReconcileError
  gateway_error : GatewayError → ReconcileError
  ensure_error : Types.Error → ReconcileError
  marshal_failed patch_failed : ReconcileError

-- `ctrl.Result` and the error: after how many seconds to try again, 0 for never.
pub record Reply : Type 0 where
  pub requeue_after : ℕ
  pub error : Option ReconcileError

abbrev pub finished : Reply
finished = record { requeue_after = 0; error = none }

abbrev pub failure : ReconcileError → Reply
failure e = record { requeue_after = 0; error = some e }

abbrev pub retry : ReconcileError → Reply
retry e = record { requeue_after = 30; error = some e }

-- The first usable address; the port is that of the Talos API.
abbrev pub is_usable : MachineAddress → Bool
is_usable a =
    elim a.address_type [ internal_ip ↦ true | external_ip ↦ true | other_type ↦ false ]
    && not (a.address == "")

unfoldable pub first_usable : List MachineAddress → Option String
first_usable [] = none
first_usable (a ∷ rest) =
    let later = first_usable rest in if is_usable a then some a.address else later

unfoldable pub extract_node_from_machine : Machine → Result ReconcileError Node
extract_node_from_machine machine = do
  address ← or_fail (first_usable machine.addresses) no_usable_address
  ok (record {
    address = address;
    port = 50000;
    machine_key = machine.cluster_name <> "/" <> machine.namespace <> "/" <> machine.name;
  })

-- The name of a listed machine's LinkConfig: the code that Reconcile has, once more.
unfoldable pub listed_link_config_name : Machine → String
listed_link_config_name machine =
    let v = read link_config_key machine.annotations in if v == "" then "default" else v

abbrev pub uses : LinkConfig → Machine → Bool
uses lc machine = listed_link_config_name machine == lc.name

-- `client.ObjectKeyFromObject` of each machine that names the LinkConfig.

unfoldable pub requests_for : LinkConfig → List Machine → List (String × String)
requests_for lc [] = []
requests_for lc (machine ∷ rest) =
    let later = requests_for lc rest in
    if uses lc machine then (machine.namespace, machine.name) ∷ later else later

-- The machines to reconcile when an object changes, which is `none` if it is no LinkConfig; `list`
-- is `none` if its request fails.
unfoldable pub link_config_to_machines :
    ((namespace : String) → Option (List Machine)) → Option LinkConfig → List (String × String)
link_config_to_machines list none = []
link_config_to_machines list (some lc) = elim (list lc.namespace) [
  | none ↦ []
  | some machines ↦ requests_for lc machines
]

abbrev pub or_nothing : Option String → String
or_nothing none = ""
or_nothing (some v) = v

abbrev pub or_error : Lookup (Option String) → Result ReconcileError String
or_error (found v) = if or_nothing v == "" then err secret_key_missing else ok (or_nothing v)
or_error not_found = err get_secret_failed
or_error failed = err get_secret_failed

abbrev pub annotated : String → Machine → Machine
annotated value machine = record machine {
  annotations = write link_config_state_key value machine.annotations;
}

module _ (c : Cluster) where
  unfoldable pub extract_talos_config_from_cluster_secret :
      c.World → Machine → Result ReconcileError String
  extract_talos_config_from_cluster_secret w machine = do
    guard (not (machine.cluster_name == "")) cluster_name_empty
    or_error (c.get_talos_config machine.namespace (machine.cluster_name <> "-talosconfig") w)

  -- No state, if the annotation is missing or blank.
  unfoldable pub extract_link_config_state_from_machine :
      Machine → Result ReconcileError (Option LinkConfigState)
  extract_link_config_state_from_machine machine =
      let raw = trim_space (read link_config_state_key machine.annotations) in
      if raw == ""
      then ok none
      else (or_fail (c.decode_state raw) decode_annotation_failed >>= λ state. ok (some state))

  abbrev pub patch_answer : c.World × Bool → c.World × Result ReconcileError Bool
  patch_answer (w, true) = (w, ok true)
  patch_answer (w, false) = (w, err patch_failed)

  abbrev pub persist_value :
      c.World → Machine → Option String → c.World × Result ReconcileError Bool
  persist_value w machine none = (w, err marshal_failed)
  persist_value w machine (some new_value) =
      if read link_config_state_key machine.annotations == new_value
      then (w, ok false)
      else patch_answer (c.patch (annotated new_value machine) machine w)

  -- The cluster after the call, and whether the annotation was updated.
  unfoldable pub persist_reconciled_link_config_state :
      c.World → Machine → LinkConfigState → c.World × Result ReconcileError Bool
  persist_reconciled_link_config_state w machine payload =
      persist_value w machine (c.encode_state payload)
