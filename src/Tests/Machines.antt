-- ===== src/Tests/Machines.antt =====
-- Applications of the theorems on the routes injector (internal/routes).
use mathlib.Core.List.{Nodup}
use dockyards_talos.Tests.Data.{texts}
use dockyards_talos.Base.{
  any, select, All, List, String, string_eq, ◌≡◌, refl, none, some, [], ◌∷◌, contains, ◌||◌, true,
  false,
}
use dockyards_talos.Base.GoMap.{lookup, insert}
use dockyards_talos.Base.Range.{stored, stored-IsVisit, holds}
use dockyards_talos.Base.Result.{ok}
use dockyards_talos.Base.Sort.{IsSorted, sort, insert_sorted}
use dockyards_talos.Base.Text.{leb_string, trim_space, trim_left, trim_right}
use dockyards_talos.Base.NameSet.{names}
use dockyards_talos.Base.Time.{pos}
use dockyards_talos.Routes.Types.{Route, RouteConfig}
use dockyards_talos.Routes.Interfaces.{
  self, interface_of, normalize_managed_interfaces, normalize_managed_interfaces_lem,
}
use dockyards_talos.Routes.Desired.{
  Table, desired_route_configs_by_interface, seed, add_routes, route_config, destination_of,
  sort_all, sort_route_configs,
}
use dockyards_talos.Routes.Desired.Contents.{
  sorted_entry, extended, seeded, configs_for, lookup-desired_route_configs_by_interface,
}
use dockyards_talos.Routes.Documents.{Machinery, Doc, link, other, reconcile_documents}
use dockyards_talos.Routes.Documents.Repeat.{has_some}
use dockyards_talos.Routes.Documents.Links.{
  Serves, is_link_of, is_unmanaged, reconcile_documents-Serves,
}
use dockyards_talos.Routes.Applied.{Talos, missing, Round}

abbrev node : Talos texts
node = record {
  normalize = λ spec. (spec, none);
  route_id = λ spec. spec.gateway;
  default_route_metric = 1024;
  World = Unit;
  is_talos_config = λ s. true;
  endpoint = λ a port. a;
  connects = λ endpoint w. true;
  active_machine_config = λ w. none;
  unmarshal_string = λ s. some s;
  apply_configuration = λ s w. some w;
}

abbrev pub route : Route
route = record { network = "10.0.0.0/8"; gateway = "10.0.0.1"; metric = 5; interface = " eth1" }

abbrev pub early_round : Round
early_round = record { status = λ id. missing; now = pos 3; is_done = false }

normalize_managed_interfaces_lem_example :
    IsSorted leb_string (normalize_managed_interfaces stored ("eth2" ∷ "" ∷ []) (route ∷ []))
    × Nodup (normalize_managed_interfaces stored ("eth2" ∷ "" ∷ []) (route ∷ []))
    × ((y : String)
        → contains (normalize_managed_interfaces stored ("eth2" ∷ "" ∷ []) (route ∷ [])) y
          ≡ (names self ("eth2" ∷ "" ∷ []) y || names interface_of (route ∷ []) y))
    × (normalize_managed_interfaces stored ("eth2" ∷ "" ∷ []) (route ∷ [])
        ≡ normalize_managed_interfaces stored ("eth2" ∷ "" ∷ []) (route ∷ []))
normalize_managed_interfaces_lem_example =
    normalize_managed_interfaces_lem stored stored ("eth2" ∷ "" ∷ []) (route ∷ []) stored-IsVisit
      stored-IsVisit

abbrev pub config : RouteConfig texts
config = record {
  route_destination = some "10.0.0.0/8";
  route_gateway = some "10.0.0.1";
  route_source = none;
  route_metric = 5;
  route_mtu = 0;
  route_table = 0;
}

abbrev expected_table : Table texts
expected_table = ("eth2", []) ∷ ("eth1", config ∷ []) ∷ []

desired_table :
    desired_route_configs_by_interface texts ("eth2" ∷ []) (route ∷ []) ≡ ok expected_table
unfolding desired_route_configs_by_interface seed add_routes route_config destination_of sort_all
    sort_route_configs sort insert_sorted insert lookup trim_space trim_left trim_right string_eq
desired_table = refl

lookup-desired_route_configs_by_interface_example :
    lookup "eth1" expected_table
    ≡ sorted_entry texts (
        extended texts
          (seeded texts ("eth2" ∷ []) "eth1")
          (configs_for texts "eth1" 0 (route ∷ [])))
lookup-desired_route_configs_by_interface_example =
    lookup-desired_route_configs_by_interface texts ("eth2" ∷ []) (route ∷ []) expected_table "eth1"
      desired_table

abbrev pub machinery : Machinery texts
machinery = record {
  Settings = String;
  Other = String;
  parse = λ s. some (other s ∷ []);
  accepts = λ docs. true;
  encode = λ docs. some "v1alpha1";
  new_settings = λ s. s;
}

abbrev documents : List (Doc texts machinery)
documents =
    other "machine"
    ∷ link (record { meta_name = "eth2"; link_routes = config ∷ []; settings = "" })
    ∷ []

abbrev written_documents : List (Doc texts machinery)
written_documents = (reconcile_documents texts machinery stored expected_table documents).0

reconcile_documents-Serves_example :
    All (Serves texts machinery expected_table) written_documents
    × (select (is_unmanaged texts machinery expected_table) written_documents
        ≡ select (is_unmanaged texts machinery expected_table) documents)
    × ((k : String)
        → any (is_link_of texts machinery expected_table k) written_documents ≡ (
            any (is_link_of texts machinery expected_table k) documents
            || holds (has_some texts) (lookup k expected_table)))
reconcile_documents-Serves_example =
    reconcile_documents-Serves texts machinery ("eth2" ∷ []) (route ∷ []) expected_table stored
      documents desired_table stored-IsVisit
