-- ===== src/Tests/Links.antt =====
-- Applications of the theorems on the LinkConfig controller
-- (controllers/linkconfig_controller.go).
use mathlib.Core.List.{Nodup}
use dockyards_talos.Tests.Data.{texts}
use dockyards_talos.Base.{
  String, string_eq, ◌≡◌, refl, ◌↔◌, Option, none, some, List, [], ◌∷◌, any, contains, ◌||◌, true,
  false, if◌then◌else◌, map,
}
use dockyards_talos.Base.GoMap.{GoMap}
use dockyards_talos.Base.Range.{stored, stored-IsVisit}
use dockyards_talos.Base.Result.{ok, err}
use dockyards_talos.Base.Sort.{IsSorted}
use dockyards_talos.Base.Text.{leb_string, trim_space, trim_left, trim_right}
use dockyards_talos.Routes.Types.{Route}
use dockyards_talos.LinkConfig.Types.{LinkConfigSpec, Pod, LinkConfigState}
use dockyards_talos.LinkConfig.Desired.{extract_desired_routes}
use dockyards_talos.LinkConfig.Desired.Laws.{
  is_valid_spec, as_route, as_default, extract_desired_routes_iff,
}
use dockyards_talos.LinkConfig.Interfaces.{merge_managed_interfaces}
use dockyards_talos.LinkConfig.Interfaces.Laws.{
  state_names, routes_name, merge_managed_interfaces_lem,
}
use dockyards_talos.LinkConfig.Gateway.{
  OvnPodNetwork, no_network_matched, select_gateway, first_pod, matches, has_address, any_address,
  parse_first_addr_from_prefix_string, gateway_from_ovn_network, first_gateway,
}
use dockyards_talos.LinkConfig.Gateway.Laws.{
  preferred, first_pod-preferred, is_conflict, is_match, select_gateway-stable,
}

abbrev pub spec : LinkConfigSpec
spec = record {
  static_routes =
      record { network = "10.0.0.0/8"; interface = "eth1"; gateway = ""; metric = 5 } ∷ [];
  default_route = some (record { interface = "eth0"; gateway = "10.0.0.1"; metric = 0 });
}

abbrev routes : List Route
routes = record { network = "10.0.0.0/8"; gateway = ""; metric = 5; interface = "eth1" } ∷ []

abbrev default : Option Route
default = some (record { network = ""; gateway = "10.0.0.1"; metric = 0; interface = "eth0" })

abbrev desired : List Route × Option Route
desired = (routes, default)

extract_desired_routes_iff_example : (extract_desired_routes spec ≡ ok desired) ↔ (
    (is_valid_spec spec ≡ true)
    × (desired ≡ (map as_route spec.static_routes, as_default spec.default_route)))
extract_desired_routes_iff_example = extract_desired_routes_iff spec desired

abbrev pub old_state : LinkConfigState
old_state = record {
  link_config_name = "default";
  link_config_generation = 1;
  static_routes =
      record { network = "10.1.0.0/16"; gateway = "10.0.0.1"; metric = 5; interface = "eth2" } ∷ [];
  default_route = none;
}

merge_managed_interfaces_lem_example :
    IsSorted leb_string (merge_managed_interfaces stored stored (some old_state) routes default)
    × Nodup (merge_managed_interfaces stored stored (some old_state) routes default)
    × ((y : String)
        → contains (merge_managed_interfaces stored stored (some old_state) routes default) y
          ≡ (state_names (some old_state) y || routes_name routes default y))
    × (merge_managed_interfaces stored stored (some old_state) routes default
        ≡ merge_managed_interfaces stored stored (some old_state) routes default)
merge_managed_interfaces_lem_example =
    merge_managed_interfaces_lem stored stored stored stored (some old_state) routes default
      stored-IsVisit stored-IsVisit stored-IsVisit stored-IsVisit

abbrev network : OvnPodNetwork
network = record {
  ip_address = "10.0.0.5";
  ip_addresses = [];
  gateway_ip = "10.0.0.1";
  gateway_ips = [];
}

abbrev other_network : OvnPodNetwork
other_network = record {
  ip_address = "10.9.0.5";
  ip_addresses = "10.9.0.6" ∷ [];
  gateway_ip = "";
  gateway_ips = "" ∷ "10.9.0.1" ∷ [];
}

abbrev pub networks : GoMap String OvnPodNetwork
networks = ("other", other_network) ∷ ("default", network) ∷ []

abbrev pub pod : Pod
pod = record { annotations = some (("k8s.ovn.org/pod-networks", "{}") ∷ []) }

abbrev bare_pod : Pod
bare_pod = record { annotations = none }

first_pod-preferred_example : first_pod (bare_pod ∷ pod ∷ []) ≡ preferred (bare_pod ∷ pod ∷ [])
first_pod-preferred_example = first_pod-preferred (bare_pod ∷ pod ∷ [])

no_conflict : any (is_conflict texts "10.0.0.5" "10.0.0.1") networks ≡ false
unfolding matches has_address any_address parse_first_addr_from_prefix_string
    gateway_from_ovn_network first_gateway trim_space trim_left trim_right string_eq
no_conflict = refl

select_gateway-stable_example :
    select_gateway texts stored "10.0.0.5" networks
    ≡ (if any (is_match texts "10.0.0.5") networks then ok "10.0.0.1" else err no_network_matched)
select_gateway-stable_example =
    select_gateway-stable texts stored "10.0.0.5" "10.0.0.1" ("other", other_network)
      (("default", network) ∷ []) stored-IsVisit no_conflict
