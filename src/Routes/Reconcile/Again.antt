-- ===== src/Routes/Reconcile/Again.antt =====
-- talos_injector.go: EnsureRoutes, called again.
use dockyards_talos.Base.{
  String, string_eq, ◌≡◌, refl, sym, ap, ◌∙◌, arith, inl, inr, Bool, true, false, Option, none,
  some, List, [], ◌∷◌, ◌==◌, Option-cases,
}
use dockyards_talos.Base.Range.{Visit, IsVisit}
use dockyards_talos.Base.Result.{Result, ok, err, ◌>>=◌, >>=-eq-ok, ok->>=, Result-cases}
use dockyards_talos.Base.Text.{trim_space}
use dockyards_talos.Routes.Types.{Node, Route, Netip, RouteConfig, Error}
use dockyards_talos.Routes.Interfaces.{
  normalize_managed_interfaces, normalize_managed_interfaces_lem,
}
use dockyards_talos.Routes.Desired.{desired_route_configs_by_interface}
use dockyards_talos.Routes.Documents.{Machinery, reconcile_managed_link_routes}
use dockyards_talos.Routes.Documents.Written.{ReadsBack, untouched, written}
use dockyards_talos.Routes.Applied.{Talos, Progress, returned}
use dockyards_talos.Routes.Reconcile.{
  Run, apply_machine_config_to, apply_if_changed, then_wait, apply_and_wait, ensure_managed,
  ensure_route_set, read_machine_config, all_routes, ensure_if_managed, ensure_body, ensure_routes,
}
use dockyards_talos.Routes.Reconcile.Faithful.{IsFaithful, read_machine_config-applied}

module _ (net : Netip) (t : Talos net) (m : Machinery net) where
  module _ (routes : List Route) where
    -- The new machine configuration.
    abbrev new_config :
        Visit String (List (RouteConfig net)) → String → List String → Result Error (String × Bool)
    new_config visit body names =
        desired_route_configs_by_interface net names routes
        >>= reconcile_managed_link_routes net m visit body

    -- There is nothing to change in the configuration.
    abbrev Quiet : List String → String → Type 0
    Quiet names body =
        (visit : Visit String (List (RouteConfig net)))
        → IsVisit visit
        → new_config visit body names ≡ ok (body, false)

    new_config-Quiet :
        (names : List String) (body text : String) (visit : Visit String (List (RouteConfig net)))
        → IsVisit visit
        → new_config visit body names ≡ ok (text, false)
        → Quiet names body
    new_config-Quiet names body text visit fair h visit' fair' =
        let (table, built, h₁) =
          >>=-eq-ok (desired_route_configs_by_interface net names routes) _ h in
        ok->>= (desired_route_configs_by_interface net names routes) _ table built
        ∙ untouched net m table body text visit fair h₁ visit' fair'

    new_config-written :
        (names : List String) (body text : String) (visit : Visit String (List (RouteConfig net)))
        → IsVisit visit
        → ReadsBack net m
        → new_config visit body names ≡ ok (text, true)
        → ((trim_space text == trim_space body) ≡ false) × Quiet names text
    new_config-written names body text visit fair back h =
        let (table, built, h₁) =
          >>=-eq-ok (desired_route_configs_by_interface net names routes) _ h in
        let (differ, leaves) =
          written net m names routes table built table body text visit refl fair back h₁ in
        (
          differ,
          λ visit' fair'.
              ok->>= (desired_route_configs_by_interface net names routes) _ table built
              ∙ leaves visit' fair',
        )

    -- The second call.
    ensure_managed-Quiet :
        (run : Run net t) (w : t.World) (body : String) (names : List String)
        → IsVisit run.visit_table
        → Quiet names body
        → (ensure_managed net t m run w body names routes).0 ≡ w
    unfolding ensure_managed apply_and_wait apply_if_changed
    ensure_managed-Quiet run w body [] fair quiet = refl
    ensure_managed-Quiet run w body (i ∷ is) fair quiet = rw (quiet run.visit_table fair) refl

    -- A configuration that differs was applied, when the call went well.
    apply_machine_config_to-applied :
        (w w' : t.World) (body text : String) (next : Progress)
        → (trim_space text == trim_space body) ≡ false
        → then_wait net t (apply_machine_config_to net t w body text) next ≡ (w', returned none)
        → t.apply_configuration text w ≡ some w'
    unfolding apply_machine_config_to
    apply_machine_config_to-applied w w' body text next differ h =
        elim (Option-cases (t.apply_configuration text w)) [
          | inl refused ↦ absurd (ground arith)
          | inr (w'', accepted) ↦ ground arith
        ]

    -- The first call, once its new configuration is known.
    applied :
        (run : Run net t) (w w' : t.World) (body : String) (names : List String) (node : Node)
        (talos_config : String) (r : Result Error (String × Bool))
        → IsFaithful net t m
        → IsVisit run.visit_table
        → read_machine_config net t m w node talos_config ≡ ok body
        → new_config run.visit_table body names ≡ r
        → apply_and_wait net t m run w body routes r ≡ (w', returned none)
        → (body' : String) × (read_machine_config net t m w' node talos_config ≡ ok body')
          × Quiet names body'
    unfolding apply_and_wait apply_if_changed
    applied run w w' body names node talos_config (err e) faithful fair read new h =
        absurd (ground arith)
    applied run w w' body names node talos_config (ok (text, false)) faithful fair read new h =
        let same : w ≡ w' = ap (λ p. p.0) h in
        (body, rw (← same) read, new_config-Quiet names body text run.visit_table fair new)
    applied run w w' body names node talos_config (ok (text, true)) faithful fair read new h =
        let (differ, quiet) =
          new_config-written names body text run.visit_table fair faithful.reads_back new in
        let accepted = apply_machine_config_to-applied w w' body text _ differ h in
        (
          text,
          read_machine_config-applied net t m faithful node talos_config body text w w' accepted
              read,
          quiet,
        )

    -- What a call without an error leaves: a configuration that is read back, and with which the
    -- next call changes nothing.
    abbrev Done : (w' : t.World) → Node → String → (String → (run' : Run net t) → t.World) → Type 0
    Done w' node talos_config next =
        (body' : String) × (read_machine_config net t m w' node talos_config ≡ ok body')
        × ((run' : Run net t)
            → IsVisit run'.visit_names
            → IsVisit run'.visit_table
            → next body' run' ≡ w')

    ensure_managed-again :
        (run : Run net t) (w w' : t.World) (body : String) (names : List String) (node : Node)
        (talos_config : String)
        → IsFaithful net t m
        → IsVisit run.visit_table
        → read_machine_config net t m w node talos_config ≡ ok body
        → ensure_managed net t m run w body names routes ≡ (w', returned none)
        → Done w' node talos_config
            (λ body' run'. (ensure_managed net t m run' w' body' names routes).0)
    unfolding ensure_managed
    ensure_managed-again run w w' body [] node talos_config faithful fair read h =
        let same : w ≡ w' = ap (λ p. p.0) h in
        (body, rw (← same) read, λ run' fair_names fair'. refl)
    ensure_managed-again run w w' body (i ∷ is) node talos_config faithful fair read h =
        let (body', read', quiet) =
          applied run w w' body (i ∷ is) node talos_config _ faithful fair read refl h in
        (
          body',
          read',
          λ run' fair_names fair'. ensure_managed-Quiet run' w' body' (i ∷ is) fair' quiet,
        )

    ensure_if_managed-again :
        (run : Run net t) (w w' : t.World) (body : String) (names : List String) (node : Node)
        (talos_config : String)
        → IsFaithful net t m
        → IsVisit run.visit_names
        → IsVisit run.visit_table
        → read_machine_config net t m w node talos_config ≡ ok body
        → ensure_if_managed net t m run w body names routes ≡ (w', returned none)
        → Done w' node talos_config
            (λ body' run'. (ensure_if_managed net t m run' w' body' names routes).0)
    unfolding ensure_if_managed ensure_route_set
    ensure_if_managed-again run w w' body [] node talos_config faithful fair_names fair read h =
        let same : w ≡ w' = ap (λ p. p.0) h in
        (body, rw (← same) read, λ run' fair_names' fair'. refl)
    ensure_if_managed-again run w w' body (i ∷ is) node talos_config faithful fair_names fair read
          h =
        let managed = normalize_managed_interfaces run.visit_names (i ∷ is) routes in
        let (body', read', quiet) =
          ensure_managed-again run w w' body managed node talos_config faithful fair read h in
        (
          body',
          read',
          λ run' fair_names' fair'.
              let same =
                normalize_managed_interfaces_lem run'.visit_names run.visit_names (i ∷ is) routes
                  fair_names' fair_names in
              ap (λ names. (ensure_managed net t m run' w' body' names routes).0) same.3
              ∙ quiet run' fair_names' fair',
        )

  pub ensure_routes-again :
      (run run' : Run net t) (w w' : t.World) (node : Node) (talos_config : String)
      (static_routes : List Route) (default_route : Option Route) (managed : List String)
      → IsFaithful net t m
      → IsVisit run.visit_names
      → IsVisit run.visit_table
      → IsVisit run'.visit_names
      → IsVisit run'.visit_table
      → ensure_routes net t m run w node talos_config static_routes default_route managed
        ≡ (w', returned none)
      → (ensure_routes net t m run' w' node talos_config static_routes default_route managed).0 ≡ w'
  unfolding ensure_routes ensure_body
  ensure_routes-again run run' w w' node talos_config static_routes default_route managed faithful
        fair_names fair fair_names' fair' h =
      let routes = all_routes net t m static_routes default_route in
      elim (Result-cases (read_machine_config net t m w node talos_config)) [
        | inr (e, failed) ↦ absurd (ground arith)
        | inl (body, read) ↦
            let names = normalize_managed_interfaces run.visit_names managed routes in
            let (body', read', quiet) =
              ensure_if_managed-again routes run w w' body names node talos_config faithful
                fair_names fair read
                (sym (ap (λ r. ensure_body net t m run w routes managed r) read) ∙ h) in
            let same =
              normalize_managed_interfaces_lem run'.visit_names run.visit_names managed routes
                fair_names' fair_names in
            ap (λ r. (ensure_body net t m run' w' routes managed r).0) read'
            ∙ ap (λ names. (ensure_if_managed net t m run' w' body' names routes).0) same.3
            ∙ quiet run' fair_names' fair'
      ]
