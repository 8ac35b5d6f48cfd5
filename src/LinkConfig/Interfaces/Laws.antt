-- ===== src/LinkConfig/Interfaces/Laws.antt =====
-- linkconfig_controller.go: mergeManagedInterfaces.
use mathlib.Core.List.{Nodup}
use dockyards_talos.Base.{
  String, string_eq, ◌≡◌, refl, ◌∙◌, ap, ap₂, Bool, false, not, ◌&&◌, ◌||◌, Option, none, some,
  List, [], ◌∷◌, arith, contains, ◌==◌,
}
use dockyards_talos.Base.GoMap.{lookup, insert, Distinct, lookup-insert, insert-Distinct}
use dockyards_talos.Base.Range.{Visit, IsVisit}
use dockyards_talos.Base.Sort.{IsSorted}
use dockyards_talos.Base.Text.{trim_space, leb_string}
use dockyards_talos.Base.NameSet.{
  NameSet, add_names, sorted_names, names, member, member-add_name, member-add_names,
  add_name-Distinct, add_names-Distinct, contains-sorted_names, sorted_names-Nodup,
  sorted_names-IsSorted, sorted_names-stable,
}
use dockyards_talos.Routes.Types.{Route}
use dockyards_talos.Routes.Interfaces.{interface_of}
use dockyards_talos.LinkConfig.Types.{LinkConfigState}
use dockyards_talos.LinkConfig.Interfaces.{
  add_default, route_names, managed_interfaces_from_state, insert_all, merge_managed_interfaces,
}

-- The interfaces that routes name.
abbrev pub default_names : Option Route → String → Bool
default_names none y = false
default_names (some r) y = not (y == "") && (y == trim_space r.interface)

abbrev pub routes_name : List Route → Option Route → String → Bool
routes_name static_routes default_route y =
    names interface_of static_routes y || default_names default_route y

abbrev pub state_names : Option LinkConfigState → String → Bool
state_names none y = false
state_names (some state) y = routes_name state.static_routes state.default_route y

member-route_names :
    (static_routes : List Route) (default_route : Option Route) (y : String)
    → member y (route_names static_routes default_route) ≡ routes_name static_routes default_route y
unfolding lookup add_default
member-route_names static_routes none y =
    ground (arith, member-add_names interface_of static_routes y [])
member-route_names static_routes (some r) y = ground (
  arith,
  member-add_name r.interface y (add_names interface_of static_routes []),
  member-add_names interface_of static_routes y [],
)

route_names-Distinct :
    (static_routes : List Route) (default_route : Option Route)
    → Distinct (route_names static_routes default_route)
unfolding add_default
route_names-Distinct static_routes none = add_names-Distinct interface_of static_routes [] tt
route_names-Distinct static_routes (some r) =
    add_name-Distinct r.interface _ (add_names-Distinct interface_of static_routes [] tt)

-- What was managed is what the routes of the state name.
pub contains-managed_interfaces_from_state :
    (visit : Visit String (Unit {0})) (state : Option LinkConfigState) (y : String)
    → IsVisit visit
    → contains (managed_interfaces_from_state visit state) y ≡ state_names state y
unfolding managed_interfaces_from_state
contains-managed_interfaces_from_state visit none y fair = refl
contains-managed_interfaces_from_state visit (some state) y fair =
    contains-sorted_names visit fair (route_names state.static_routes state.default_route) y
    ∙ member-route_names state.static_routes state.default_route y

from_state-stable :
    (visit visit' : Visit String (Unit {0})) (state : Option LinkConfigState)
    → IsVisit visit
    → IsVisit visit'
    → managed_interfaces_from_state visit state ≡ managed_interfaces_from_state visit' state
unfolding managed_interfaces_from_state
from_state-stable visit visit' none fair fair' = refl
from_state-stable visit visit' (some state) fair fair' =
    sorted_names-stable visit visit' fair fair'
      (route_names state.static_routes state.default_route)

member-insert_all :
    (l : List String) (m : NameSet) (y : String)
    → member y (insert_all l m) ≡ (contains l y || member y m)
unfolding insert_all
member-insert_all [] m y = refl
member-insert_all (s ∷ rest) m y =
    ground (arith, member-insert_all rest (insert s tt m) y, lookup-insert y s tt m)

insert_all-Distinct : (l : List String) (m : NameSet) → Distinct m → Distinct (insert_all l m)
unfolding insert_all
insert_all-Distinct [] m d = d
insert_all-Distinct (s ∷ rest) m d = insert_all-Distinct rest _ (insert-Distinct s tt m d)

-- The merged interfaces are sorted, none stands twice, and a name is among them exactly when it is
-- the trimmed, non-empty interface of a desired route or of a route that was applied before: so an
-- interface whose routes were removed stays managed, and its routes are pruned. The orders in
-- which the sets are visited make no difference.
pub merge_managed_interfaces_lem :
    (visit visit_state visit' visit_state' : Visit String (Unit {0}))
    (last_applied : Option LinkConfigState) (static_routes : List Route)
    (default_route : Option Route)
    → IsVisit visit
    → IsVisit visit_state
    → IsVisit visit'
    → IsVisit visit_state'
    → IsSorted leb_string
        (merge_managed_interfaces visit visit_state last_applied static_routes default_route)
      × Nodup (merge_managed_interfaces visit visit_state last_applied static_routes default_route)
      × ((y : String)
          → contains
              (merge_managed_interfaces visit visit_state last_applied static_routes default_route)
              y
            ≡ (state_names last_applied y || routes_name static_routes default_route y))
      × (merge_managed_interfaces visit visit_state last_applied static_routes default_route
          ≡ merge_managed_interfaces visit' visit_state' last_applied static_routes default_route)
unfolding merge_managed_interfaces
merge_managed_interfaces_lem visit visit_state visit' visit_state' last static_routes default_route
      fair fair_state fair' fair_state' =
    let base = route_names static_routes default_route in
    let m = insert_all (managed_interfaces_from_state visit_state last) base in
    (
      sorted_names-IsSorted visit fair m,
      sorted_names-Nodup visit fair m (
          insert_all-Distinct (managed_interfaces_from_state visit_state last) base
            (route_names-Distinct static_routes default_route)),
      λ y.
          contains-sorted_names visit fair m y
          ∙ member-insert_all (managed_interfaces_from_state visit_state last) base y
          ∙ ap₂ ◌||◌ (contains-managed_interfaces_from_state visit_state last y fair_state)
              (member-route_names static_routes default_route y),
      ap (λ (l : List String). sorted_names visit (insert_all l base))
            (from_state-stable visit_state visit_state' last fair_state fair_state')
          ∙ sorted_names-stable visit visit' fair fair' _,
    )
