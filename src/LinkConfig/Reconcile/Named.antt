-- ===== src/LinkConfig/Reconcile/Named.antt =====
-- linkconfig_controller.go: the interfaces of the routes that Reconcile is about to apply.
use dockyards_talos.Base.{
  String, ◌≡◌, refl, sym, true, not, Bool, ◌&&◌, Option, none, some, List, [], ◌∷◌, map, Eq, arith,
  Bool-cases, inl, inr, string_eq,
}
use dockyards_talos.Base.Result.{ok, >>=-eq-ok, if-err-eq-ok, Result-cases}
use dockyards_talos.Routes.Types.{Route, Netip}
use dockyards_talos.LinkConfig.Types.{
  LinkConfigRoute, LinkConfigDefaultRoute, LinkConfigSpec, LinkConfig, Machine, LinkConfigState,
}
use dockyards_talos.LinkConfig.Desired.{
  is_blank, needs_gateway, extract_desired_routes, fill_one, fill_gateways,
}
use dockyards_talos.LinkConfig.Desired.Laws.{
  all_valid, is_valid_default, as_route, as_default, extract_desired_routes_iff,
}
use dockyards_talos.LinkConfig.Gateway.{derive_gateway_from_vm_pod}
use dockyards_talos.LinkConfig.Cluster.{
  Lookup, found, not_found, failed, Cluster, Injector, finished, extract_node_from_machine,
  extract_talos_config_from_cluster_secret, extract_link_config_state_from_machine,
}
use dockyards_talos.LinkConfig.Reconcile.{
  Plan, Orders, planned, cleanup_plan, or_retry, of_spec, of_annotation, complete_routes,
  plan_found, plan_missing, plan_for, plan_machine,
}

abbrev names_interface : Route → Bool
names_interface r = not (is_blank r.interface)

abbrev pub all_named : List Route → Bool
all_named [] = true
all_named (r ∷ rs) = names_interface r && all_named rs

abbrev default_named : Option Route → Bool
default_named none = true
default_named (some r) = names_interface r

-- Every route has an interface that is not blank.
abbrev pub are_named : List Route × Option Route → Bool
are_named routes = all_named routes.0 && default_named routes.1

all_named-as_route :
    (rs : List LinkConfigRoute) → all_valid rs ≡ true → all_named (map as_route rs) ≡ true
all_named-as_route [] h = refl
all_named-as_route (r ∷ rs) h = ground (arith, all_named-as_route rs)

default_named-as_default :
    (o : Option LinkConfigDefaultRoute)
    → is_valid_default o ≡ true
    → default_named (as_default o) ≡ true
default_named-as_default none h = refl
default_named-as_default (some r) h = h

all_named-fill_one :
    (derived : String) (rs : List Route) → all_named (map (fill_one derived) rs) ≡ all_named rs
all_named-fill_one derived [] = refl
all_named-fill_one derived (r ∷ rs) = ground (arith, all_named-fill_one derived rs)

are_named-fill_gateways :
    (derived : String) (rs : List Route) (o : Option Route)
    → are_named (fill_gateways derived rs o) ≡ are_named (rs, o)
unfolding fill_gateways
are_named-fill_gateways derived rs none = ground (arith, all_named-fill_one derived rs)
are_named-fill_gateways derived rs (some r) = ground (arith, all_named-fill_one derived rs)

are_named-extract_desired_routes :
    (spec : LinkConfigSpec) (out : List Route × Option Route)
    → of_spec (extract_desired_routes spec) ≡ ok out
    → are_named out ≡ true
are_named-extract_desired_routes spec out h = elim (Result-cases (extract_desired_routes spec)) [
  | inr (x, e) ↦ absurd (ground arith)
  | inl (routes, e) ↦
      let same : routes ≡ out = ground arith in
      let (valid, is) = (extract_desired_routes_iff spec routes).0 e in
      rw (sym same, is) ground
        (arith, all_named-as_route spec.static_routes, default_named-as_default spec.default_route)
]

abbrev pub IsNamed : Plan → Type 0
IsNamed plan = are_named (plan.static_routes, plan.default_route) ≡ true

module _ (c : Cluster) (net : Netip) ⦃e : Eq net.Addr⦄ (i : Injector) where
  are_named-complete_routes :
      (orders : Orders) (w : c.World) (machine : Machine) (routes out : List Route × Option Route)
      → complete_routes c net i orders w machine routes ≡ ok out
      → are_named routes ≡ true
      → are_named out ≡ true
  unfolding complete_routes
  are_named-complete_routes orders w machine routes out h named =
      let derived =
        derive_gateway_from_vm_pod net orders.networks c.decode_networks (c.list_pods w) machine in
      elim (Bool-cases (needs_gateway routes.0 routes.1)) [
        | inl missing ↦ elim (Result-cases derived) [
          | inl (g, e) ↦ ground (arith, are_named-fill_gateways g routes.0 routes.1)
          | inr (x, e) ↦ ground arith
        ]
        | inr complete ↦ ground arith
      ]

  plan_found-IsNamed :
      (orders : Orders) (w : c.World) (machine : Machine) (last_applied : Option LinkConfigState)
      (lc : LinkConfig) (plan : Plan)
      → plan_found c net i orders w machine last_applied lc ≡ ok plan
      → IsNamed plan
  unfolding plan_found
  plan_found-IsNamed orders w machine last_applied lc plan h =
      let (desired, e₁, h₁) = >>=-eq-ok (of_spec (extract_desired_routes lc.spec)) _ h in
      let (node, e₂, h₂) = >>=-eq-ok (or_retry (extract_node_from_machine machine)) _ h₁ in
      let (config, e₃, h₃) =
        >>=-eq-ok (or_retry (extract_talos_config_from_cluster_secret c w machine)) _ h₂ in
      let (routes, e₄, h₄) = >>=-eq-ok (complete_routes c net i orders w machine desired) _ h₃ in
      let same : planned orders last_applied lc node config routes ≡ plan = cc in
      rw (sym same) (
        are_named-complete_routes orders w machine desired routes e₄
          (are_named-extract_desired_routes lc.spec desired e₁))

  plan_missing-IsNamed :
      (orders : Orders) (w : c.World) (machine : Machine) (name : String) (ifaces : List String)
      (plan : Plan)
      → plan_missing c net i orders w machine name ifaces ≡ ok plan
      → IsNamed plan
  unfolding plan_missing
  plan_missing-IsNamed orders w machine name [] plan h = cc
  plan_missing-IsNamed orders w machine name (iface ∷ ifaces) plan h =
      let (node, e₁, h₁) = >>=-eq-ok (or_retry (extract_node_from_machine machine)) _ h in
      let (config, e₂, h₂) =
        >>=-eq-ok (or_retry (extract_talos_config_from_cluster_secret c w machine)) _ h₁ in
      let same : cleanup_plan name node config (iface ∷ ifaces) ≡ plan = cc in rw (sym same) refl

  plan_for-IsNamed :
      (orders : Orders) (w : c.World) (machine : Machine) (last_applied : Option LinkConfigState)
      (answer : Lookup LinkConfig) (plan : Plan)
      → plan_for c net i orders w machine last_applied answer ≡ ok plan
      → IsNamed plan
  unfolding plan_for
  plan_for-IsNamed orders w machine last_applied (found lc) plan h =
      plan_found-IsNamed orders w machine last_applied lc plan h
  plan_for-IsNamed orders w machine last_applied not_found plan h =
      plan_missing-IsNamed orders w machine _ _ plan h
  plan_for-IsNamed orders w machine last_applied failed plan h = cc

  pub plan_machine-IsNamed :
      (orders : Orders) (w : c.World) (machine : Machine) (plan : Plan)
      → plan_machine c net i orders w machine ≡ ok plan
      → IsNamed plan
  unfolding plan_machine
  plan_machine-IsNamed orders w machine plan h =
      let (kept, h₁) = if-err-eq-ok machine.is_being_deleted finished _ h in
      let (last, e, h₂) =
        >>=-eq-ok (of_annotation (extract_link_config_state_from_machine c machine)) _ h₁ in
      plan_for-IsNamed orders w machine last _ plan h₂
