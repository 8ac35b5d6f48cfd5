-- ===== src/Routes/Interfaces.antt =====
-- talos_injector.go: normalizeManagedInterfaces.
use mathlib.Core.List.{Nodup}
use dockyards_talos.Base.{String, string_eq, ◌≡◌, ◌∙◌, ◌||◌, List, [], arith, contains}
use dockyards_talos.Base.GoMap.{lookup, Distinct}
use dockyards_talos.Base.Range.{Visit, IsVisit}
use dockyards_talos.Base.Sort.{IsSorted}
use dockyards_talos.Base.Text.{leb_string}
use dockyards_talos.Base.NameSet.{
  NameSet, add_names, sorted_names, names, member, member-add_names, add_names-Distinct,
  contains-sorted_names, sorted_names-Nodup, sorted_names-IsSorted, sorted_names-stable,
}
use dockyards_talos.Routes.Types.{Route}

abbrev pub self : String → String
self s = s

abbrev pub interface_of : Route → String
interface_of r = r.interface

-- The set of the names, trimmed and not empty.
abbrev interface_set : List String → List Route → NameSet
interface_set managed routes = add_names interface_of routes (add_names self managed [])

unfoldable pub normalize_managed_interfaces :
    Visit String (Unit {0}) → List String → List Route → List String
normalize_managed_interfaces visit managed routes =
    sorted_names visit (interface_set managed routes)

interface_set-Distinct :
    (managed : List String) (routes : List Route) → Distinct (interface_set managed routes)
interface_set-Distinct managed routes =
    add_names-Distinct interface_of routes _ (add_names-Distinct self managed [] tt)

member-interface_set :
    (managed : List String) (routes : List Route) (y : String)
    → member y (interface_set managed routes)
      ≡ (names self managed y || names interface_of routes y)
unfolding lookup
member-interface_set managed routes y = ground (
  arith,
  member-add_names interface_of routes y (add_names self managed []),
  member-add_names self managed y [],
)

-- The result is sorted and has no name twice, a name is in it exactly when it is not empty and is
-- the trimmed text of a managed interface or of a route's interface, and it does not depend on the
-- order in which the set is visited.
pub normalize_managed_interfaces_lem :
    (visit visit' : Visit String (Unit {0})) (managed : List String) (routes : List Route)
    → IsVisit visit
    → IsVisit visit'
    → IsSorted leb_string (normalize_managed_interfaces visit managed routes)
      × Nodup (normalize_managed_interfaces visit managed routes)
      × ((y : String)
          → contains (normalize_managed_interfaces visit managed routes) y
            ≡ (names self managed y || names interface_of routes y))
      × (normalize_managed_interfaces visit managed routes
          ≡ normalize_managed_interfaces visit' managed routes)
unfolding normalize_managed_interfaces
normalize_managed_interfaces_lem visit visit' managed routes fair fair' =
    let m = interface_set managed routes in
    (
      sorted_names-IsSorted visit fair m,
      sorted_names-Nodup visit fair m (interface_set-Distinct managed routes),
      λ y. contains-sorted_names visit fair m y ∙ member-interface_set managed routes y,
      sorted_names-stable visit visit' fair fair' m,
    )
