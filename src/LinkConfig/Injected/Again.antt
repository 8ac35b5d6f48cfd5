-- ===== src/LinkConfig/Injected/Again.antt =====
-- linkconfig_controller.go with talos_injector.go: Reconcile, called again.
use mathlib.Core.Path.{fun_ext}
use dockyards_talos.Base.{
  String, string_eq, ◌≡◌, refl, sym, ap, ◌∙◌, false, Bool, Option, none, some, ◌==◌, Eq, arith,
  Bool-cases, inl, inr,
}
use dockyards_talos.Base.Range.{IsVisit}
use dockyards_talos.Base.Result.{Result, ok, err}
use dockyards_talos.Routes.Types.{Netip}
use dockyards_talos.Routes.Types
use dockyards_talos.Routes.Documents.{Machinery}
use dockyards_talos.Routes.Applied.{Talos, returned}
use dockyards_talos.Routes.Reconcile.{Run, ensure_routes}
use dockyards_talos.Routes.Reconcile.Faithful.{IsFaithful}
use dockyards_talos.Routes.Reconcile.Again.{ensure_routes-again}
use dockyards_talos.LinkConfig.Types.{Machine, LinkConfigState, read, link_config_state_key}
use dockyards_talos.LinkConfig.Cluster.{
  found, Cluster, Injector, finished, ReconcileError, persist_reconciled_link_config_state,
}
use dockyards_talos.LinkConfig.Reconcile.{
  Plan, Orders, plan_machine, persisted, after_ensure, carry_out, reconcile_machine,
}
use dockyards_talos.LinkConfig.Injected.{
  error_of-none, Ends, set_node, talos_injector, after_ensure-finished,
}

module _ (net : Netip) (t : Talos net) (m : Machinery net) where
  set_node-again :
      (address : String) (w : t.World) (nodes : String → t.World)
      → nodes address ≡ w
      → set_node net t m address w nodes ≡ nodes
  set_node-again address w nodes same = fun_ext λ other. elim (Bool-cases (other == address)) [
    | inl here ↦ ground arith
    | inr elsewhere ↦ ground arith
  ]

  set_node-here :
      (address : String) (w : t.World) (nodes : String → t.World)
      → set_node net t m address w nodes address ≡ w
  set_node-here address w nodes = ground arith

  module _ (c : Cluster) ⦃e : Eq net.Addr⦄ where
    -- A machine with the recorded state.
    persist-recorded :
        (w : c.World) (machine : Machine) (payload : LinkConfigState) (value : String)
        → c.encode_state payload ≡ some value
        → read link_config_state_key machine.annotations ≡ value
        → persist_reconciled_link_config_state c w machine payload ≡ (w, ok false)
    unfolding persist_reconciled_link_config_state
    persist-recorded w machine payload value encoded recorded = ground arith

    after_ensure-recorded :
        (i : Injector) (w : c.World) (machine : Machine) (plan : Plan) (value : String)
        (r : i.Nodes × Option Types.Error)
        → c.encode_state plan.payload ≡ some value
        → read link_config_state_key machine.annotations ≡ value
        → ((after_ensure c net i w machine plan r).0 ≡ w)
          × ((after_ensure c net i w machine plan r).1 ≡ r.0)
    unfolding after_ensure persisted
    after_ensure-recorded i w machine plan value (nodes, some x) encoded recorded = (refl, refl)
    after_ensure-recorded i w machine plan value (nodes, none) encoded recorded =
        let kept = persist-recorded w machine plan.payload value encoded recorded in
        (ap (λ r. (persisted c net i nodes r).0) kept, ap (λ r. (persisted c net i nodes r).1) kept)

    persisted-nodes :
        (i : Injector) (w' : c.World) (nodes nodes' : i.Nodes)
        (r : c.World × Result ReconcileError Bool)
        → persisted c net i nodes r ≡ (w', nodes', finished)
        → nodes ≡ nodes'
    unfolding persisted
    persisted-nodes i w' nodes nodes' (w, err x) h = ap (λ p. p.1) h
    persisted-nodes i w' nodes nodes' (w, ok updated) h = ap (λ p. p.1) h

    after_ensure-nodes :
        (i : Injector) (w w' : c.World) (nodes' : i.Nodes) (machine : Machine) (plan : Plan)
        (r : i.Nodes × Option Types.Error)
        → after_ensure c net i w machine plan r ≡ (w', nodes', finished)
        → r.0 ≡ nodes'
    unfolding after_ensure persisted
    after_ensure-nodes i w w' nodes' machine plan (nodes, some x) h = absurd (ground arith)
    after_ensure-nodes i w w' nodes' machine plan (nodes, none) h =
        persisted-nodes i w' nodes nodes'
          (persist_reconciled_link_config_state c w machine plan.payload) h

    -- Where the nodes answer with the configuration that they were given last and can be reached as
    -- before, and what the machinery writes reads back: once a reconciliation has finished with a
    -- plan, a later one that arrives at the same plan for a machine that carries the state of the
    -- plan changes neither the cluster nor a node, whatever the orders in which either visits its
    -- maps.
    pub reconcile_machine-again :
        (run run' : Run net t) (ends : Ends net t m run) (ends' : Ends net t m run')
        (orders orders' : Orders) (w w' w'' : c.World) (nodes nodes' : String → t.World)
        (machine machine' : Machine) (plan : Plan) (value : String)
        → IsFaithful net t m
        → IsVisit run.visit_names
        → IsVisit run.visit_table
        → IsVisit run'.visit_names
        → IsVisit run'.visit_table
        → plan_machine c net (talos_injector net t m run ends) orders w machine ≡ ok plan
        → reconcile_machine c net (talos_injector net t m run ends) orders w nodes (found machine)
          ≡ (w', nodes', finished)
        → c.encode_state plan.payload ≡ some value
        → read link_config_state_key machine'.annotations ≡ value
        → plan_machine c net (talos_injector net t m run' ends') orders' w'' machine' ≡ ok plan
        → ((reconcile_machine c net
              (talos_injector net t m run' ends')
              orders'
              w''
              nodes'
              (found machine')).0
            ≡ w'')
          × ((reconcile_machine c net
                (talos_injector net t m run' ends')
                orders'
                w''
                nodes'
                (found machine')).1
              ≡ nodes')
    unfolding reconcile_machine carry_out
    reconcile_machine-again run run' ends ends' orders orders' w w' w'' nodes nodes' machine
          machine' plan value faithful fair_names fair fair_names' fair' planned h encoded recorded
          planned' =
        let i = talos_injector net t m run ends in
        let i' = talos_injector net t m run' ends' in
        let address = plan.node.address in
        let first =
          ensure_routes net t m run (nodes address) plan.node plan.talos_config plan.static_routes
            plan.default_route plan.managed_interfaces in
        let after = sym (ap (carry_out c net i w nodes machine) planned) ∙ h in
        let done : first.1 ≡ returned none =
          error_of-none _ _
            (after_ensure-finished net t m c i w w' nodes' machine plan _ after).0 in
        let left : set_node net t m address first.0 nodes ≡ nodes' =
          after_ensure-nodes i w w' nodes' machine plan _ after in
        let node : nodes' address ≡ first.0 =
          ap (λ f. f address) (sym left) ∙ set_node-here address first.0 nodes in
        let again = λ (x : t.World).
          ensure_routes net t m run' x plan.node plan.talos_config plan.static_routes
            plan.default_route plan.managed_interfaces in
        let still : (again (nodes' address)).0 ≡ first.0 =
          ap (λ x. (again x).0) node
          ∙ ensure_routes-again net t m run run' (nodes address) first.0 plan.node plan.talos_config
              plan.static_routes plan.default_route plan.managed_interfaces faithful fair_names fair
              fair_names' fair' (ap (λ p. (first.0, p)) done) in
        let call =
          i'.ensure_routes plan.node plan.talos_config plan.static_routes plan.default_route
            plan.managed_interfaces nodes' in
        let unchanged =
          set_node-again address (again (nodes' address)).0 nodes' (node ∙ sym still) in
        let (cluster, left') =
          after_ensure-recorded i' w'' machine' plan value call encoded recorded in
        (
          ap (λ p. (carry_out c net i' w'' nodes' machine' p).0) planned' ∙ cluster,
          ap (λ p. (carry_out c net i' w'' nodes' machine' p).1) planned' ∙ left' ∙ unchanged,
        )
