-- ===== src/Routes/Reconcile.antt =====
-- talos_injector.go: applyMachineConfig, ensureRouteSet, extractMachineConfigBody and EnsureRoutes.
pub mod Faithful
pub mod Again
pub mod Shown
use dockyards_talos.Base.{
  ◌*◌, String, Bool, true, false, not, Option, none, some, List, [], ◌∷◌, ◌++◌, ◌==◌, string_eq,
  nat_eq, if◌then◌else◌,
}
use dockyards_talos.Base.Range.{Visit}
use dockyards_talos.Base.Result.{Result, ok, err, ◌>>=◌, ◌>>◌, guard, or_fail}
use dockyards_talos.Base.Text.{trim_space}
use dockyards_talos.Base.Time.{ℤ, pos, second}
use dockyards_talos.Routes.Types.{
  Node, Route, Netip, RouteConfig, Error, talos_config_empty, node_address_empty,
  node_machine_key_empty, parse_talos_config, create_client, get_machine_config,
  extract_machine_config, apply_machine_config,
}
use dockyards_talos.Routes.Interfaces.{normalize_managed_interfaces}
use dockyards_talos.Routes.Desired.{desired_route_configs_by_interface}
use dockyards_talos.Routes.Documents.{Machinery, reconcile_managed_link_routes}
use dockyards_talos.Routes.Applied.{
  Talos, Round, Progress, returned, wait_for_routes_applied, ConfigResource,
}

module _ (net : Netip) (t : Talos net) where
  -- The node after the call, and its error.
  unfoldable pub apply_machine_config_to :
      t.World → (base updated : String) → t.World × Result Error (Unit {0})
  apply_machine_config_to w base updated =
      if trim_space updated == trim_space base
      then (w, ok tt)
      else elim (t.apply_configuration updated w) [
        | none ↦ (w, err apply_machine_config)
        | some w' ↦ (w', ok tt)
      ]

  -- `if changed { … applyMachineConfig … }`
  unfoldable pub apply_if_changed :
      t.World → String → String × Bool → t.World × Result Error (Unit {0})
  apply_if_changed w base (updated, true) = apply_machine_config_to w base updated
  apply_if_changed w base (updated, false) = (w, ok tt)

  abbrev pub then_wait : t.World × Result Error (Unit {0}) → Progress → t.World × Progress
  then_wait (w, ok u) next = (w, next)
  then_wait (w, err e) next = (w, returned (some e))

  -- The environment of a call: the order in which it visits its maps, its rounds and its clock.
  pub record Run : Type 0 where
    pub visit_names : Visit String (Unit {0})
    pub visit_table : Visit String (List (RouteConfig net))
    pub rounds : List Round
    pub started : ℤ

  module _ (m : Machinery net) where
    -- Once the new machine configuration is known, or an error.
    unfoldable pub apply_and_wait :
        Run → t.World → String → List Route → Result Error (String × Bool) → t.World × Progress
    apply_and_wait run w machine_config routes (err e) = (w, returned (some e))
    apply_and_wait run w machine_config routes (ok updated) =
        then_wait (apply_if_changed w machine_config updated)
          (wait_for_routes_applied net t run.rounds run.started routes (pos (30 * second)))

    unfoldable pub ensure_managed :
        Run → t.World → String → List String → List Route → t.World × Progress
    ensure_managed run w machine_config [] routes =
        (w, wait_for_routes_applied net t run.rounds run.started routes (pos (30 * second)))
    ensure_managed run w machine_config (i ∷ is) routes =
        apply_and_wait run w machine_config routes (
          desired_route_configs_by_interface net (i ∷ is) routes
          >>= reconcile_managed_link_routes net m run.visit_table machine_config)

    unfoldable pub ensure_route_set :
        Run → t.World → String → List String → List Route → t.World × Progress
    ensure_route_set run w machine_config managed routes =
        ensure_managed run w machine_config
          (normalize_managed_interfaces run.visit_names managed routes) routes

    unfoldable pub extract_machine_config_body : ConfigResource → Option String
    extract_machine_config_body r =
        if not r.has_annotations
        then r.marshalled
        else elim r.marshalled [ none ↦ none | some text ↦ t.unmarshal_string text ]

    -- The checks and requests that come before the routes are looked at.
    unfoldable pub read_machine_config : t.World → Node → String → Result Error String
    read_machine_config w node talos_config = do
      guard (not (talos_config == "")) talos_config_empty
      guard (not (node.address == "")) node_address_empty
      guard (not (node.machine_key == "")) node_machine_key_empty
      guard (t.is_talos_config talos_config) parse_talos_config
      let endpoint = if nat_eq node.port 0 then node.address else t.endpoint node.address node.port
      guard (t.connects endpoint w) create_client
      resource ← or_fail (t.active_machine_config w) get_machine_config
      or_fail (extract_machine_config_body resource) extract_machine_config

    abbrev pub all_routes : List Route → Option Route → List Route
    all_routes static_routes none = static_routes
    all_routes static_routes (some r) = static_routes ++ r ∷ []

    -- `if len(managed) > 0 { … ensureRouteSet … }`
    unfoldable pub ensure_if_managed :
        Run → t.World → String → List String → List Route → t.World × Progress
    ensure_if_managed run w body [] routes = (w, returned none)
    ensure_if_managed run w body (i ∷ is) routes = ensure_route_set run w body (i ∷ is) routes

    -- What follows once the machine configuration is read.
    unfoldable pub ensure_body :
        Run → t.World → List Route → List String → Result Error String → t.World × Progress
    ensure_body run w routes managed (err e) = (w, returned (some e))
    ensure_body run w routes managed (ok body) =
        ensure_if_managed run w body (normalize_managed_interfaces run.visit_names managed routes)
          routes

    unfoldable pub ensure_routes :
        Run → t.World → Node → String → List Route → Option Route → List String → t.World × Progress
    ensure_routes run w node talos_config static_routes default_route managed_interfaces =
        ensure_body run w (all_routes static_routes default_route) managed_interfaces
          (read_machine_config w node talos_config)
