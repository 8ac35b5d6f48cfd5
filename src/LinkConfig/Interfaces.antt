-- ===== src/LinkConfig/Interfaces.antt =====
-- linkconfig_controller.go: managedInterfacesFromState and mergeManagedInterfaces.
pub mod Laws
use dockyards_talos.Base.{String, string_eq, Option, none, some, List, [], ◌∷◌}
use dockyards_talos.Base.GoMap.{insert}
use dockyards_talos.Base.Range.{Visit}
use dockyards_talos.Base.NameSet.{NameSet, add_name, add_names, sorted_names}
use dockyards_talos.Routes.Types.{Route}
use dockyards_talos.Routes.Interfaces.{interface_of}
use dockyards_talos.LinkConfig.Types.{LinkConfigState}

unfoldable pub add_default : Option Route → NameSet → NameSet
add_default none m = m
add_default (some r) m = add_name r.interface m

abbrev pub route_names : List Route → Option Route → NameSet
route_names static_routes default_route =
    add_default default_route (add_names interface_of static_routes [])

unfoldable pub managed_interfaces_from_state :
    Visit String (Unit {0}) → Option LinkConfigState → List String
managed_interfaces_from_state visit none = []
managed_interfaces_from_state visit (some state) =
    sorted_names visit (route_names state.static_routes state.default_route)

-- `set[iface] = struct{}{}`, with no trimming and no test.
unfoldable pub insert_all : List String → NameSet → NameSet
insert_all [] m = m
insert_all (s ∷ rest) m = insert_all rest (insert s tt m)

-- The two sets are visited in orders of their own.
unfoldable pub merge_managed_interfaces :
    (visit visit_state : Visit String (Unit {0}))
    → Option LinkConfigState
    → List Route
    → Option Route
    → List String
merge_managed_interfaces visit visit_state last_applied static_routes default_route =
    sorted_names visit (
      insert_all (managed_interfaces_from_state visit_state last_applied)
        (route_names static_routes default_route))
