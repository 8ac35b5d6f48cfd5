-- ===== src/LinkConfig/Injected.antt =====
-- linkconfig_controller.go with talos_injector.go: Reconcile with the injector that the manager
-- gives it (NewTalosInjector).
pub mod Again
use dockyards_talos.Base.{
  String, ◌*◌, ◌≡◌, refl, sym, ap, ◌∙◌, true, false, Bool, inl, inr, Option, none, some, List, [],
  ◌∷◌, ◌==◌, if◌then◌else◌, Eq, arith, any, contains, string_eq,
}
use dockyards_talos.Base.Range.{Visit, IsVisit}
use dockyards_talos.Base.Result.{Result, ok, err}
use dockyards_talos.Base.Text.{trim_space}
use dockyards_talos.Base.Time.{pos, second, ◌+ℤ◌}
use dockyards_talos.Routes.Types.{Node, Route, Netip}
use dockyards_talos.Routes.Types
use dockyards_talos.Routes.Interfaces.{
  normalize_managed_interfaces, normalize_managed_interfaces_lem,
}
use dockyards_talos.Routes.Documents.{Machinery}
use dockyards_talos.Routes.Applied.{Talos, Progress, returned, waiting}
use dockyards_talos.Routes.Applied.Wait.{is_past, has_returned}
use dockyards_talos.Routes.Reconcile.{Run, all_routes, ensure_routes}
use dockyards_talos.Routes.Reconcile.Shown.{AreShown, ensure_routes_returns, ensure_routes-AreShown}
use dockyards_talos.LinkConfig.Types.{Machine}
use dockyards_talos.LinkConfig.Desired.{is_blank}
use dockyards_talos.LinkConfig.Cluster.{
  found, Cluster, Injector, finished, ReconcileError, persist_reconciled_link_config_state,
}
use dockyards_talos.LinkConfig.Reconcile.{
  Plan, Orders, plan_machine, persisted, after_ensure, carry_out, reconcile_machine,
}
use dockyards_talos.LinkConfig.Reconcile.Named.{all_named, are_named, plan_machine-IsNamed}

pub has_returned-waiting : has_returned waiting ≡ true → ⊥
has_returned-waiting h = ground arith

-- The error of a call that has returned.
abbrev pub error_of : (p : Progress) → has_returned p ≡ true → Option Types.Error
error_of (returned e) h = e
error_of waiting h = absurd (has_returned-waiting h)

pub error_of-none :
    (p : Progress) (h : has_returned p ≡ true) → error_of p h ≡ none → p ≡ returned none
error_of-none (returned e) h same = ap returned same
error_of-none waiting h same = absurd (ground arith)

pub error_of-returned :
    (p : Progress) (h : has_returned p ≡ true) → p ≡ returned none → error_of p h ≡ none
error_of-returned (returned none) h same = refl
error_of-returned (returned (some x)) h same = absurd (ground arith)
error_of-returned waiting h same = absurd (has_returned-waiting h)

module _ (net : Netip) (t : Talos net) (m : Machinery net) where
  -- A call whose rounds end after its deadline.
  abbrev pub Ends : Run net t → Type 0
  Ends run = any (is_past (run.started +ℤ pos (30 * second))) run.rounds ≡ true

  -- The nodes by their addresses.
  abbrev pub set_node : String → t.World → (String → t.World) → String → t.World
  set_node address w nodes other = if other == address then w else nodes other

  abbrev pub talos_injector : (run : Run net t) → Ends run → Injector
  talos_injector run ends = record {
    Nodes = String → t.World;
    ensure_routes = λ node talos_config static_routes default_route managed nodes.
        let p =
          ensure_routes net t m run (nodes node.address) node talos_config static_routes
            default_route managed in
        (
          set_node node.address p.0 nodes,
          error_of p.1 (
              ensure_routes_returns net t m run (nodes node.address) node talos_config static_routes
                default_route managed ends),
        );
  }

  -- With a route that names an interface there are interfaces to manage.
  interfaces_left :
      (visit : Visit String (Unit {0})) (managed : List String) (r : Route) (rs : List Route)
      → IsVisit visit
      → is_blank r.interface ≡ false
      → normalize_managed_interfaces visit managed (r ∷ rs) ≡ []
      → ⊥
  interfaces_left visit managed r rs fair named h =
      let has : contains (normalize_managed_interfaces visit managed (r ∷ rs))
            (trim_space r.interface)
          ≡ true =
        (normalize_managed_interfaces_lem visit visit managed (r ∷ rs) fair fair).2
          (trim_space r.interface)
        ∙ ground arith in
      ground arith

  left_empty :
      (visit : Visit String (Unit {0})) (managed : List String) (routes : List Route)
      → IsVisit visit
      → all_named routes ≡ true
      → normalize_managed_interfaces visit managed routes ≡ []
      → routes ≡ []
  left_empty visit managed [] fair named h = refl
  left_empty visit managed (r ∷ rs) fair named h =
      absurd (interfaces_left visit managed r rs fair (ground arith) h)

  all_named-all_routes :
      (rs : List Route) (o : Option Route)
      → are_named (rs, o) ≡ true
      → all_named (all_routes net t m rs o) ≡ true
  all_named-all_routes rs none h = ground arith
  all_named-all_routes [] (some r) h = ground arith
  all_named-all_routes (x ∷ rs) (some r) h = ground (arith, all_named-all_routes rs (some r))

  -- A call for routes with interfaces that returned without an error.
  ensure_routes-named :
      (run : Run net t) (w : t.World) (node : Node) (talos_config : String)
      (static_routes : List Route) (default_route : Option Route) (managed : List String)
      → IsVisit run.visit_names
      → are_named (static_routes, default_route) ≡ true
      → (ensure_routes net t m run w node talos_config static_routes default_route managed).1
        ≡ returned none
      → AreShown net t (all_routes net t m static_routes default_route) run.rounds
  ensure_routes-named run w node talos_config static_routes default_route managed fair named h =
      elim (ensure_routes-AreShown net t m run w node talos_config static_routes default_route
        managed h) [
          | inl nothing ↦ inl (
              left_empty run.visit_names managed (all_routes net t m static_routes default_route)
                fair (all_named-all_routes static_routes default_route named) nothing)
          | inr shown ↦ shown
        ]

  module _ (c : Cluster) ⦃e : Eq net.Addr⦄ where
    module _ (i : Injector) where
      persisted-finished :
          (w' : c.World) (nodes nodes' : i.Nodes) (r : c.World × Result ReconcileError Bool)
          → persisted c net i nodes r ≡ (w', nodes', finished)
          → (updated : Bool) × (r ≡ (w', ok updated))
      unfolding persisted
      persisted-finished w' nodes nodes' (w, err x) h = absurd (ground arith)
      persisted-finished w' nodes nodes' (w, ok updated) h =
          (updated, ap (λ p. (p.0, ok updated)) h)

      pub after_ensure-finished :
          (w w' : c.World) (nodes' : i.Nodes) (machine : Machine) (plan : Plan)
          (r : i.Nodes × Option Types.Error)
          → after_ensure c net i w machine plan r ≡ (w', nodes', finished)
          → (r.1 ≡ none)
            × ((updated : Bool) × (persist_reconciled_link_config_state c w machine plan.payload
                  ≡ (w', ok updated)))
      unfolding after_ensure
      after_ensure-finished w w' nodes' machine plan (nodes, some x) h = absurd (ground arith)
      after_ensure-finished w w' nodes' machine plan (nodes, none) h =
          (refl, persisted-finished w' nodes nodes' _ h)

    pub reconcile_machine-AreShown :
        (run : Run net t) (ends : Ends run) (orders : Orders) (w w' : c.World)
        (nodes nodes' : String → t.World) (machine : Machine) (plan : Plan)
        → IsVisit run.visit_names
        → plan_machine c net (talos_injector run ends) orders w machine ≡ ok plan
        → reconcile_machine c net (talos_injector run ends) orders w nodes (found machine)
          ≡ (w', nodes', finished)
        → AreShown net t (all_routes net t m plan.static_routes plan.default_route) run.rounds
          × ((updated : Bool) × (persist_reconciled_link_config_state c w machine plan.payload
                ≡ (w', ok updated)))
    unfolding reconcile_machine carry_out
    reconcile_machine-AreShown run ends orders w w' nodes nodes' machine plan fair planned h =
        let injector = talos_injector run ends in
        let after = sym (ap (carry_out c net injector w nodes machine) planned) ∙ h in
        let (no_error, recorded) =
          after_ensure-finished injector w w' nodes' machine plan _ after in
        let done = error_of-none _ _ no_error in
        (
          ensure_routes-named run (nodes plan.node.address) plan.node plan.talos_config
              plan.static_routes plan.default_route plan.managed_interfaces fair
              (plan_machine-IsNamed c net injector orders w machine plan planned) done,
          recorded,
        )
