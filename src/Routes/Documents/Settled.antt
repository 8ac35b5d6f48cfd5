-- ===== src/Routes/Documents/Settled.antt =====
-- talos_injector.go: reconcileManagedLinkRoutes on a table of desiredRouteConfigsByInterface, called
-- again.
use dockyards_talos.Base.{String, ◌≡◌, false, List}
use dockyards_talos.Base.Range.{Visit, IsVisit}
use dockyards_talos.Base.Result.{ok}
use dockyards_talos.Routes.Types.{Route, Netip, RouteConfig}
use dockyards_talos.Routes.Desired.{Table, desired_route_configs_by_interface}
use dockyards_talos.Routes.Desired.Shape.{desired-trimmed, desired-Distinct}
use dockyards_talos.Routes.Documents.{Machinery, Doc, reconcile_documents}
use dockyards_talos.Routes.Documents.Repeat.{reconcile_documents-again}

module _ (net : Netip) (m : Machinery net) where
  -- Documents that were reconciled with the table of the desired routes are settled: a second
  -- reconciliation with the same table finds nothing changed, in whatever orders the two visit it.
  pub reconcile_documents-settles :
      (managed : List String) (routes : List Route) (desired : Table net)
      (visit visit' : Visit String (List (RouteConfig net))) (docs : List (Doc net m))
      → desired_route_configs_by_interface net managed routes ≡ ok desired
      → IsVisit visit
      → IsVisit visit'
      → (reconcile_documents net m visit' desired
          (reconcile_documents net m visit desired docs).0).1
        ≡ false
  reconcile_documents-settles managed routes desired visit visit' docs built fair fair' =
      reconcile_documents-again net m desired (desired-Distinct net managed routes desired built)
        visit visit' docs (desired-trimmed net managed routes desired built) fair fair'
