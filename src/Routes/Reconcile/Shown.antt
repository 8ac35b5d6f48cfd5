-- ===== src/Routes/Reconcile/Shown.antt =====
-- talos_injector.go: EnsureRoutes and the wait with which it ends.
use dockyards_talos.Base.{
  String, ◌*◌, ◌≡◌, refl, ◌⊎◌, inl, inr, Bool, true, Option, none, List, [], ◌∷◌, arith, any,
}
use dockyards_talos.Base.Result.{Result, ok, err, Result-cases}
use dockyards_talos.Base.Time.{ℤ, pos, second, ◌+ℤ◌}
use dockyards_talos.Routes.Types.{Node, Route, Netip, Error}
use dockyards_talos.Routes.Interfaces.{normalize_managed_interfaces}
use dockyards_talos.Routes.Documents.{Machinery}
use dockyards_talos.Routes.Applied.{
  Talos, Round, Progress, returned, want_ids, wait_for_routes_applied,
}
use dockyards_talos.Routes.Applied.Wait.{
  shows_all, is_past, has_returned, poll-shows_all, poll_returns,
}
use dockyards_talos.Routes.Reconcile.{
  Run, apply_if_changed, then_wait, apply_and_wait, ensure_managed, ensure_route_set,
  read_machine_config, all_routes, ensure_if_managed, ensure_body, ensure_routes,
}

module _ (net : Netip) (t : Talos net) where
  -- There was a round that had every route, if there are routes.
  abbrev pub AreShown : List Route → List Round → Type 0
  AreShown routes rounds =
      (routes ≡ [])
      ⊎ ((ids : List String) × (want_ids net t routes ≡ ok ids)
          × (any (shows_all ids) rounds ≡ true))

  wait_for_routes_applied-AreShown :
      (rounds : List Round) (started : ℤ) (routes : List Route) (timeout : ℤ)
      → wait_for_routes_applied net t rounds started routes timeout ≡ returned none
      → AreShown routes rounds
  unfolding wait_for_routes_applied
  wait_for_routes_applied-AreShown rounds started [] timeout h = inl refl
  wait_for_routes_applied-AreShown rounds started (r ∷ rs) timeout h =
      elim (Result-cases (want_ids net t (r ∷ rs))) [
        | inr (e, failed) ↦ absurd (ground arith)
        | inl (ids, wanted) ↦
            inr (ids, wanted, poll-shows_all net t (started +ℤ timeout) ids rounds (ground arith))
      ]

  wait_for_routes_applied_returns :
      (rounds : List Round) (started : ℤ) (routes : List Route) (timeout : ℤ)
      → any (is_past (started +ℤ timeout)) rounds ≡ true
      → has_returned (wait_for_routes_applied net t rounds started routes timeout) ≡ true
  unfolding wait_for_routes_applied
  wait_for_routes_applied_returns rounds started [] timeout h = refl
  wait_for_routes_applied_returns rounds started (r ∷ rs) timeout h =
      elim (Result-cases (want_ids net t (r ∷ rs))) [
        | inr (e, failed) ↦ ground arith
        | inl (ids, wanted) ↦ ground (arith, poll_returns net t (started +ℤ timeout) ids rounds)
      ]

  then_wait-none :
      (p : t.World × Result Error (Unit {0})) (next : Progress)
      → (then_wait net t p next).1 ≡ returned none
      → next ≡ returned none
  then_wait-none (w, ok u) next h = h
  then_wait-none (w, err e) next h = absurd (ground arith)

  then_wait_returns :
      (p : t.World × Result Error (Unit {0})) (next : Progress)
      → has_returned next ≡ true
      → has_returned (then_wait net t p next).1 ≡ true
  then_wait_returns (w, ok u) next h = h
  then_wait_returns (w, err e) next h = refl

  module _ (m : Machinery net) (run : Run net t) (w : t.World) (routes : List Route) where
    abbrev waited : Progress
    waited = wait_for_routes_applied net t run.rounds run.started routes (pos (30 * second))

    apply_and_wait-none :
        (body : String) (r : Result Error (String × Bool))
        → (apply_and_wait net t m run w body routes r).1 ≡ returned none
        → waited ≡ returned none
    unfolding apply_and_wait
    apply_and_wait-none body (err e) h = absurd (ground arith)
    apply_and_wait-none body (ok updated) h =
        then_wait-none (apply_if_changed net t w body updated) waited h

    apply_and_wait_returns :
        (body : String) (r : Result Error (String × Bool))
        → has_returned waited ≡ true
        → has_returned (apply_and_wait net t m run w body routes r).1 ≡ true
    unfolding apply_and_wait
    apply_and_wait_returns body (err e) h = refl
    apply_and_wait_returns body (ok updated) h =
        then_wait_returns (apply_if_changed net t w body updated) waited h

    ensure_managed-none :
        (body : String) (names : List String)
        → (ensure_managed net t m run w body names routes).1 ≡ returned none
        → waited ≡ returned none
    unfolding ensure_managed
    ensure_managed-none body [] h = h
    ensure_managed-none body (i ∷ is) h = apply_and_wait-none body _ h

    ensure_managed_returns :
        (body : String) (names : List String)
        → has_returned waited ≡ true
        → has_returned (ensure_managed net t m run w body names routes).1 ≡ true
    unfolding ensure_managed
    ensure_managed_returns body [] h = h
    ensure_managed_returns body (i ∷ is) h = apply_and_wait_returns body _ h

    ensure_if_managed-none :
        (body : String) (names : List String)
        → (ensure_if_managed net t m run w body names routes).1 ≡ returned none
        → (names ≡ []) ⊎ (waited ≡ returned none)
    unfolding ensure_if_managed ensure_route_set
    ensure_if_managed-none body [] h = inl refl
    ensure_if_managed-none body (i ∷ is) h = inr (ensure_managed-none body _ h)

    ensure_if_managed_returns :
        (body : String) (names : List String)
        → has_returned waited ≡ true
        → has_returned (ensure_if_managed net t m run w body names routes).1 ≡ true
    unfolding ensure_if_managed ensure_route_set
    ensure_if_managed_returns body [] h = refl
    ensure_if_managed_returns body (i ∷ is) h = ensure_managed_returns body _ h

    ensure_body-none :
        (managed : List String) (r : Result Error String)
        → (ensure_body net t m run w routes managed r).1 ≡ returned none
        → (normalize_managed_interfaces run.visit_names managed routes ≡ [])
          ⊎ AreShown routes run.rounds
    unfolding ensure_body
    ensure_body-none managed (err e) h = absurd (ground arith)
    ensure_body-none managed (ok body) h = elim (ensure_if_managed-none body _ h) [
      | inl nothing ↦ inl nothing
      | inr done ↦
          inr (
            wait_for_routes_applied-AreShown run.rounds run.started routes (pos (30 * second)) done)
    ]

    ensure_body_returns :
        (managed : List String) (r : Result Error String)
        → has_returned waited ≡ true
        → has_returned (ensure_body net t m run w routes managed r).1 ≡ true
    unfolding ensure_body
    ensure_body_returns managed (err e) h = refl
    ensure_body_returns managed (ok body) h = ensure_if_managed_returns body _ h

  -- EnsureRoutes returns: it has returned once there was a round later than thirty seconds after
  -- the beginning of its wait, whatever the node answers and whatever it is given.
  pub ensure_routes_returns :
      (m : Machinery net) (run : Run net t) (w : t.World) (node : Node) (talos_config : String)
      (static_routes : List Route) (default_route : Option Route) (managed : List String)
      → any (is_past (run.started +ℤ pos (30 * second))) run.rounds ≡ true
      → has_returned
          (ensure_routes net t m run w node talos_config static_routes default_route managed).1
        ≡ true
  unfolding ensure_routes
  ensure_routes_returns m run w node talos_config static_routes default_route managed late =
      let routes = all_routes net t m static_routes default_route in
      ensure_body_returns m run w routes managed (read_machine_config net t m w node talos_config)
        (wait_for_routes_applied_returns run.rounds run.started routes (pos (30 * second)) late)

  -- If EnsureRoutes returns without an error, there was a round in which the node had every one of
  -- the routes, unless there are no routes, or neither they nor the managed interfaces name an
  -- interface.
  pub ensure_routes-AreShown :
      (m : Machinery net) (run : Run net t) (w : t.World) (node : Node) (talos_config : String)
      (static_routes : List Route) (default_route : Option Route) (managed : List String)
      → (ensure_routes net t m run w node talos_config static_routes default_route managed).1
        ≡ returned none
      → (normalize_managed_interfaces run.visit_names managed
            (all_routes net t m static_routes default_route)
          ≡ [])
        ⊎ AreShown (all_routes net t m static_routes default_route) run.rounds
  unfolding ensure_routes
  ensure_routes-AreShown m run w node talos_config static_routes default_route managed h =
      ensure_body-none m run w (all_routes net t m static_routes default_route) managed
        (read_machine_config net t m w node talos_config) h
