-- ===== src/Tests/Controller.antt =====
-- Applications of the theorems on the calls of Reconcile
-- (controllers/linkconfig_controller.go).
use dockyards_talos.Tests.Data.{texts}
use dockyards_talos.Tests.Links.{spec, pod, networks}
use dockyards_talos.Base.{
  ℕ, ◌&&◌, ◌⊎◌, ◌==◌, Bool-cases, inl, inr, arith, String, string_eq, ◌≡◌, refl, ◌↔◌, Mem, Option,
  none, some, List, [], ◌∷◌, true, false, Bool, if◌then◌else◌,
}
use dockyards_talos.Base.GoMap.{GoMap, lookup, insert}
use dockyards_talos.Base.Range.{stored, stored-IsVisit}
use dockyards_talos.Base.Result.{ok}
use dockyards_talos.Base.Sort.{sort, insert_sorted}
use dockyards_talos.Base.Text.{trim_space, trim_left, trim_right, leb_string}
use dockyards_talos.Base.NameSet.{sorted_names, add_name, add_names}
use dockyards_talos.Routes.Types.{Route}
use dockyards_talos.LinkConfig.Types.{
  LinkConfig, internal_ip, Machine, Pod, link_config_name, link_config_key,
}
use dockyards_talos.LinkConfig.Desired.{
  is_blank, static_route, static_routes_from, default_route_of, extract_desired_routes,
  any_blank_gateway, needs_gateway, fill_gateways,
}
use dockyards_talos.LinkConfig.Interfaces.{
  add_default, managed_interfaces_from_state, insert_all, merge_managed_interfaces,
}
use dockyards_talos.LinkConfig.Gateway.{
  OvnPodNetwork, select_gateway, first_match, head_pod, first_pod, matches, has_address,
  any_address, parse_first_addr_from_prefix_string, gateway_from_ovn_network, first_gateway,
  internal_address, first_internal, machine_internal_ip, find_vm_pod_for_machine,
  select_gateway_from_ovn_pod_networks, derive_gateway_from_vm_pod,
}
use dockyards_talos.LinkConfig.Gateway.Laws.{derive_gateway_from_vm_pod-filled}
use dockyards_talos.LinkConfig.Cluster.{
  found, not_found, Cluster, Injector, noop_injector, finished, first_usable,
  extract_node_from_machine, extract_talos_config_from_cluster_secret,
  extract_link_config_state_from_machine, annotated,
}
use dockyards_talos.LinkConfig.Cluster.{link_config_to_machines}
use dockyards_talos.LinkConfig.Cluster.Requests.{Requests}
use dockyards_talos.LinkConfig.Reconcile.Coverage.{DifferAt, link_config_to_machines-Covers}
use dockyards_talos.LinkConfig.Reconcile.Records.{Records, reconcile_machine-Records}
use mathlib.Core.List.{mem-cons_self, mem-cons_of_mem}
use dockyards_talos.LinkConfig.Reconcile.{
  Plan, Orders, complete_routes, plan_found, plan_for, plan_machine, reconcile_machine,
}
use dockyards_talos.LinkConfig.Reconcile.Laws.{IsComplete, plan_machine-IsComplete}
use dockyards_talos.LinkConfig.Reconcile.Repeat.{no_routes, reconcile_machine-cleaned}

abbrev pub machine : Machine
machine = record {
  name = "m";
  namespace = "n";
  is_being_deleted = false;
  annotations = none;
  cluster_name = "c";
  infrastructure_name = "vm";
  addresses = record { address_type = internal_ip; address = "10.0.0.5" } ∷ [];
}

abbrev link_config : LinkConfig
link_config = record { name = "default"; namespace = "n"; generation = 2; spec = spec }

-- A cluster with one machine, whose state is whether the LinkConfig exists. States are written as
-- the name of their LinkConfig, and read back as states without routes.
abbrev pub cluster : Cluster
cluster = record {
  World = Bool;
  get_machine = λ namespace name w. found machine;
  get_link_config = λ namespace name w. if w then found link_config else not_found;
  get_talos_config = λ namespace name w. found (some "talos");
  list_pods = λ w namespace name. some (pod ∷ []);
  patch = λ m base w. (w, true);
  decode_state = λ s. some (no_routes s);
  encode_state = λ state. some state.link_config_name;
  decode_networks = λ s. some networks;
}

abbrev pub orders : Orders
orders = record { names = stored; state_names = stored; networks = stored }

abbrev nothing : Injector
nothing = noop_injector Unit

abbrev list_pod : String → String → Option (List Pod)
list_pod namespace name = some (pod ∷ [])

abbrev decode : String → Option (GoMap String OvnPodNetwork)
decode s = some networks

gateway_derived : derive_gateway_from_vm_pod texts stored decode list_pod machine ≡ ok "10.0.0.1"
unfolding derive_gateway_from_vm_pod machine_internal_ip first_internal internal_address
    find_vm_pod_for_machine first_pod head_pod sort insert_sorted
    select_gateway_from_ovn_pod_networks select_gateway first_match matches has_address any_address
    parse_first_addr_from_prefix_string gateway_from_ovn_network first_gateway trim_space trim_left
    trim_right string_eq lookup
gateway_derived = refl

derive_gateway_from_vm_pod-filled_example : is_blank "10.0.0.1" ≡ false
derive_gateway_from_vm_pod-filled_example =
    derive_gateway_from_vm_pod-filled texts stored decode list_pod machine "10.0.0.1"
      gateway_derived

abbrev pub filled_routes : List Route
filled_routes =
    record { network = "10.0.0.0/8"; gateway = "10.0.0.1"; metric = 5; interface = "eth1" } ∷ []

abbrev pub filled_default : Option Route
filled_default =
    some (record { network = ""; gateway = "10.0.0.1"; metric = 0; interface = "eth0" })

abbrev pub plan : Plan
plan = record {
  node = record { address = "10.0.0.5"; port = 50000; machine_key = "c/n/m" };
  talos_config = "talos";
  static_routes = filled_routes;
  default_route = filled_default;
  managed_interfaces = "eth0" ∷ "eth1" ∷ [];
  payload = record {
    link_config_name = "default";
    link_config_generation = 2;
    static_routes = filled_routes;
    default_route = filled_default;
  };
}

plan_computed : plan_machine cluster texts nothing orders true machine ≡ ok plan
unfolding plan_machine extract_link_config_state_from_machine plan_for plan_found
    extract_desired_routes static_routes_from static_route default_route_of
    extract_node_from_machine first_usable extract_talos_config_from_cluster_secret complete_routes
    needs_gateway any_blank_gateway fill_gateways merge_managed_interfaces
    managed_interfaces_from_state insert_all add_default sorted_names add_name add_names leb_string
    derive_gateway_from_vm_pod machine_internal_ip first_internal internal_address
    find_vm_pod_for_machine first_pod head_pod sort insert_sorted
    select_gateway_from_ovn_pod_networks select_gateway first_match matches has_address any_address
    parse_first_addr_from_prefix_string gateway_from_ovn_network first_gateway trim_space trim_left
    trim_right string_eq lookup insert link_config_name
plan_computed = refl

plan_machine-IsComplete_example : IsComplete plan
plan_machine-IsComplete_example =
    plan_machine-IsComplete cluster texts nothing orders true machine plan stored-IsVisit
      stored-IsVisit plan_computed

reconcile_machine-Records_example :
    ((reconcile_machine cluster texts nothing orders true tt (found machine)).0 ≡ true)
    ⊎ Records cluster texts nothing orders true tt
        (found machine)
        (reconcile_machine cluster texts nothing orders true tt (found machine)).0
        (reconcile_machine cluster texts nothing orders true tt (found machine)).2.error
reconcile_machine-Records_example =
    reconcile_machine-Records cluster texts nothing orders true tt (found machine)

reconcile_machine-cleaned_example :
    reconcile_machine cluster texts nothing orders false tt (found (annotated "default" machine))
    ≡ (false, tt, finished)
unfolding trim_space trim_left trim_right string_eq link_config_name
reconcile_machine-cleaned_example =
    reconcile_machine-cleaned cluster texts nothing orders false tt machine "default" stored-IsVisit
      refl refl

-- The machine whose annotation names another LinkConfig.
abbrev other_machine : Machine
other_machine = record machine { annotations = some ((link_config_key, "special") ∷ []) }

abbrev listed_machines : String → Option (List Machine)
listed_machines namespace = some (machine ∷ other_machine ∷ [])

-- A cluster with two LinkConfigs, whose state is the generation of the one by default.
abbrev two_configs : Cluster
two_configs = record cluster {
  World = ℕ;
  get_machine = λ namespace name w. found machine;
  get_link_config = λ namespace name w.
      if namespace == "n" && name == "default"
      then found (record link_config { generation = w })
      else found (record link_config { name = name });
  get_talos_config = λ namespace name w. found (some "talos");
  list_pods = λ w namespace name. some (pod ∷ []);
  patch = λ m base w. (w, true);
}

-- The LinkConfig by default has a new generation.
edited-DifferAt : DifferAt two_configs "n" "default" 2 3
edited-DifferAt = record {
  link_configs = λ namespace name other. elim (Bool-cases (namespace == "n" && name == "default")) [
    | inl same ↦ absurd (other (ground arith))
    | inr differs ↦ rw differs refl
  ];
  talos_configs = λ namespace name. refl;
  pods = refl;
}

link_config_to_machines-Covers_example :
    (Mem ("n", "m") (link_config_to_machines listed_machines (some link_config))
      ⊎ (plan_machine two_configs texts nothing orders 2 other_machine
          ≡ plan_machine two_configs texts nothing orders 3 other_machine))
    × (Mem ("n", "m") (link_config_to_machines listed_machines (some link_config))
        ↔ ∥ Requests link_config (machine ∷ other_machine ∷ []) ("n", "m") ∥₁)
link_config_to_machines-Covers_example =
    link_config_to_machines-Covers two_configs texts nothing link_config 2 3 edited-DifferAt orders
      listed_machines (machine ∷ other_machine ∷ []) other_machine ("n", "m") refl
      (mem-cons_of_mem _ mem-cons_self)
