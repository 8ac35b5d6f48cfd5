-- ===== src/LinkConfig/Reconcile/Laws.antt =====
-- linkconfig_controller.go: what Reconcile is about to do once it has read the cluster.
use Prim.Native.String.{String}
use dockyards_talos.Base.{
  ◌≡◌, refl, sym, true, false, Option, List, [], ◌∷◌, Eq, arith, contains, Bool-cases, inl, inr,
  string_eq,
}
use dockyards_talos.Base.Range.{IsVisit}
use dockyards_talos.Base.Result.{ok, >>=-eq-ok, if-err-eq-ok, Result-cases}
use dockyards_talos.Routes.Types.{Node, Route, Netip}
use dockyards_talos.LinkConfig.Types.{LinkConfig, Machine, LinkConfigState}
use dockyards_talos.LinkConfig.Desired.{any_blank_gateway, needs_gateway, extract_desired_routes}
use dockyards_talos.LinkConfig.Desired.Laws.{needs_gateway-fill_gateways}
use dockyards_talos.LinkConfig.Interfaces.Laws.{routes_name, merge_managed_interfaces_lem}
use dockyards_talos.LinkConfig.Gateway.{derive_gateway_from_vm_pod}
use dockyards_talos.LinkConfig.Gateway.Laws.{derive_gateway_from_vm_pod-filled}
use dockyards_talos.LinkConfig.Cluster.{
  Lookup, found, not_found, failed, Cluster, Injector, finished, extract_node_from_machine,
  extract_talos_config_from_cluster_secret, extract_link_config_state_from_machine,
}
use dockyards_talos.LinkConfig.Reconcile.{
  Plan, Orders, planned, cleanup_plan, or_retry, of_spec, of_annotation, complete_routes,
  plan_found, plan_missing, plan_for, plan_machine,
}

-- The routes of a plan have their gateways, their interfaces are among the managed ones, and the
-- state that the plan records is these routes.
abbrev pub IsComplete : Plan → Type 0
IsComplete plan =
    (needs_gateway plan.static_routes plan.default_route ≡ false)
    × ((y : String)
        → routes_name plan.static_routes plan.default_route y ≡ true
        → contains plan.managed_interfaces y ≡ true)
    × (plan.payload.static_routes ≡ plan.static_routes)
    × (plan.payload.default_route ≡ plan.default_route)

module _ (c : Cluster) (net : Netip) ⦃e : Eq net.Addr⦄ (i : Injector) where
  complete_routes-filled :
      (orders : Orders) (w : c.World) (machine : Machine) (routes out : List Route × Option Route)
      → complete_routes c net i orders w machine routes ≡ ok out
      → needs_gateway out.0 out.1 ≡ false
  unfolding complete_routes
  complete_routes-filled orders w machine routes out h =
      let derived =
        derive_gateway_from_vm_pod net orders.networks c.decode_networks (c.list_pods w) machine in
      elim (Bool-cases (needs_gateway routes.0 routes.1)) [
        | inl missing ↦ elim (Result-cases derived) [
          | inl (g, e) ↦ ground (
            arith,
            needs_gateway-fill_gateways g routes.0 routes.1,
            derive_gateway_from_vm_pod-filled net orders.networks c.decode_networks (c.list_pods w)
                machine g,
          )
          | inr (x, e) ↦ ground arith
        ]
        | inr complete ↦ ground arith
      ]

  planned-IsComplete :
      (orders : Orders) (last_applied : Option LinkConfigState) (lc : LinkConfig) (node : Node)
      (talos_config : String) (routes : List Route × Option Route)
      → IsVisit orders.names
      → IsVisit orders.state_names
      → needs_gateway routes.0 routes.1 ≡ false
      → IsComplete (planned orders last_applied lc node talos_config routes)
  planned-IsComplete orders last_applied lc node talos_config routes fair fair_state filled =
      let merged =
        merge_managed_interfaces_lem orders.names orders.state_names orders.names orders.state_names
          last_applied routes.0 routes.1 fair fair_state fair fair_state in
      (filled, λ y named. ground (arith, merged.2 y), refl, refl)

  plan_found-IsComplete :
      (orders : Orders) (w : c.World) (machine : Machine) (last_applied : Option LinkConfigState)
      (lc : LinkConfig) (plan : Plan)
      → IsVisit orders.names
      → IsVisit orders.state_names
      → plan_found c net i orders w machine last_applied lc ≡ ok plan
      → IsComplete plan
  unfolding plan_found
  plan_found-IsComplete orders w machine last_applied lc plan fair fair_state h =
      let (desired, e₁, h₁) = >>=-eq-ok (of_spec (extract_desired_routes lc.spec)) _ h in
      let (node, e₂, h₂) = >>=-eq-ok (or_retry (extract_node_from_machine machine)) _ h₁ in
      let (config, e₃, h₃) =
        >>=-eq-ok (or_retry (extract_talos_config_from_cluster_secret c w machine)) _ h₂ in
      let (routes, e₄, h₄) = >>=-eq-ok (complete_routes c net i orders w machine desired) _ h₃ in
      let same : planned orders last_applied lc node config routes ≡ plan = cc in
      rw (sym same) (
        planned-IsComplete orders last_applied lc node config routes fair fair_state
          (complete_routes-filled orders w machine desired routes e₄))

  plan_missing-IsComplete :
      (orders : Orders) (w : c.World) (machine : Machine) (name : String) (ifaces : List String)
      (plan : Plan)
      → plan_missing c net i orders w machine name ifaces ≡ ok plan
      → IsComplete plan
  unfolding plan_missing needs_gateway any_blank_gateway
  plan_missing-IsComplete orders w machine name [] plan h = cc
  plan_missing-IsComplete orders w machine name (iface ∷ ifaces) plan h =
      let (node, e₁, h₁) = >>=-eq-ok (or_retry (extract_node_from_machine machine)) _ h in
      let (config, e₂, h₂) =
        >>=-eq-ok (or_retry (extract_talos_config_from_cluster_secret c w machine)) _ h₁ in
      let same : cleanup_plan name node config (iface ∷ ifaces) ≡ plan = cc in
      rw (sym same) (refl, λ y named. absurd (ground arith), refl, refl)

  plan_for-IsComplete :
      (orders : Orders) (w : c.World) (machine : Machine) (last_applied : Option LinkConfigState)
      (answer : Lookup LinkConfig) (plan : Plan)
      → IsVisit orders.names
      → IsVisit orders.state_names
      → plan_for c net i orders w machine last_applied answer ≡ ok plan
      → IsComplete plan
  unfolding plan_for
  plan_for-IsComplete orders w machine last_applied (found lc) plan fair fair_state h =
      plan_found-IsComplete orders w machine last_applied lc plan fair fair_state h
  plan_for-IsComplete orders w machine last_applied not_found plan fair fair_state h =
      plan_missing-IsComplete orders w machine _ _ plan h
  plan_for-IsComplete orders w machine last_applied failed plan fair fair_state h = cc

  pub plan_machine-IsComplete :
      (orders : Orders) (w : c.World) (machine : Machine) (plan : Plan)
      → IsVisit orders.names
      → IsVisit orders.state_names
      → plan_machine c net i orders w machine ≡ ok plan
      → IsComplete plan
  unfolding plan_machine
  plan_machine-IsComplete orders w machine plan fair fair_state h =
      let (kept, h₁) = if-err-eq-ok machine.is_being_deleted finished _ h in
      let (last, e, h₂) =
        >>=-eq-ok (of_annotation (extract_link_config_state_from_machine c machine)) _ h₁ in
      plan_for-IsComplete orders w machine last _ plan fair fair_state h₂
