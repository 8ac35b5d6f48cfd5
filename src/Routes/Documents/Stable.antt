-- ===== src/Routes/Documents/Stable.antt =====
-- talos_injector.go: reconcileManagedLinkRoutes, on the orders in which it visits its table.
use mathlib.Core.List.{filter_map}
use mathlib.Core.List.Perm
use dockyards_talos.Base.{
  String, string_eq, ◌≡◌, refl, Option, none, some, List, [], ◌∷◌, Perm, arith, contains,
  if◌then◌else◌,
}
use dockyards_talos.Base.Range.{Visit, IsVisit}
use dockyards_talos.Base.Sort.{sort, sort-perm, sort-IsSorted, IsSorted-unique}
use dockyards_talos.Base.Text.{leb_string, leb_string_total, leb_string_trans, leb_string_antisymm}
use dockyards_talos.Routes.Types.{Netip, RouteConfig}
use dockyards_talos.Routes.Desired.{Table}
use dockyards_talos.Routes.Documents.{
  Machinery, Doc, if_routes, missing_interfaces, update_documents, reconcile_documents,
}

-- The sorted slice of texts does not depend on their order.
sort-stable : {xs ys : List String} → Perm xs ys → sort leb_string xs ≡ sort leb_string ys
sort-stable {xs} {ys} same =
    IsSorted-unique leb_string leb_string_total leb_string_antisymm (sort leb_string xs)
      (sort leb_string ys) (sort-IsSorted leb_string leb_string_total leb_string_trans xs)
      (sort-IsSorted leb_string leb_string_total leb_string_trans ys)
      (Perm.trans (sort-perm leb_string xs) (Perm.trans same (Perm.symm (sort-perm leb_string ys))))

module _ (net : Netip) where
  abbrev missing_interface : List String → String × List (RouteConfig net) → Option String
  missing_interface seen (iface, []) = none
  missing_interface seen (iface, r ∷ rs) = if contains seen iface then none else some iface

  missing_interfaces-filter_map :
      (seen : List String) (es : List (String × List (RouteConfig net)))
      → missing_interfaces net seen es ≡ filter_map (missing_interface seen) es
  unfolding missing_interfaces if_routes filter_map
  missing_interfaces-filter_map seen [] = refl
  missing_interfaces-filter_map seen ((iface, []) ∷ es) =
      ground (arith, missing_interfaces-filter_map seen es)
  missing_interfaces-filter_map seen ((iface, r ∷ rs) ∷ es) =
      ground (arith, missing_interfaces-filter_map seen es)

  missing_interfaces-stable :
      (seen : List String) (desired : Table net)
      (visit visit' : Visit String (List (RouteConfig net)))
      → IsVisit visit
      → IsVisit visit'
      → sort leb_string (missing_interfaces net seen (visit desired))
        ≡ sort leb_string (missing_interfaces net seen (visit' desired))
  missing_interfaces-stable seen desired visit visit' fair fair' =
      rw
        (
          missing_interfaces-filter_map seen (visit desired),
          missing_interfaces-filter_map seen (visit' desired),
        )
        (sort-stable (
          Perm.filter_map (missing_interface seen)
            (Perm.trans (fair desired) (Perm.symm (fair' desired)))))

module _ (net : Netip) (m : Machinery net) where
  -- The documents that are built do not depend on the order in which the table is visited.
  pub reconcile_documents-stable :
      (desired : Table net) (visit visit' : Visit String (List (RouteConfig net)))
      (docs : List (Doc net m))
      → IsVisit visit
      → IsVisit visit'
      → reconcile_documents net m visit desired docs ≡ reconcile_documents net m visit' desired docs
  unfolding reconcile_documents
  reconcile_documents-stable desired visit visit' docs fair fair' =
      rw
        (missing_interfaces-stable net (update_documents net m desired docs).2 desired visit visit'
          fair fair')
        refl
