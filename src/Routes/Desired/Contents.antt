-- ===== src/Routes/Desired/Contents.antt =====
-- talos_injector.go: the table of desiredRouteConfigsByInterface.
use mathlib.Core.List.{append-nil, append_assoc}
use dockyards_talos.Base.{
  ℕ, ◌+◌, String, ◌≡◌, refl, sym, ap, ◌∙◌, Option, none, some, List, [], ◌∷◌, ◌++◌, ◌==◌, string_eq,
  arith, if◌then◌else◌, Bool-cases, inl, inr,
}
use dockyards_talos.Base.GoMap.{lookup, insert, lookup-insert}
use dockyards_talos.Base.NameSet.{names}
use dockyards_talos.Base.Result.{Result, ok, err, >>=-eq-ok}
use dockyards_talos.Base.Text.{trim_space}
use dockyards_talos.Routes.Types.{Route, Netip, RouteConfig, Error}
use dockyards_talos.Routes.Desired.{
  Table, or_nil, seed, route_config, add_routes, sort_all, sort_route_configs,
  desired_route_configs_by_interface,
}

module _ (net : Netip) where
  abbrev pub or_empty : Result Error (String × RouteConfig net) → Option (String × RouteConfig net)
  or_empty (ok c) = some c
  or_empty (err e) = none

  abbrev pub prepend_if :
      String → Option (String × RouteConfig net) → List (RouteConfig net) → List (RouteConfig net)
  prepend_if y none rest = rest
  prepend_if y (some c) rest = if y == c.0 then c.1 ∷ rest else rest

  -- The configurations of the routes with the interface `y`, in the order of the routes.
  abbrev pub configs_for : String → ℕ → List Route → List (RouteConfig net)
  configs_for y i [] = []
  configs_for y i (r ∷ rest) =
      prepend_if y (or_empty (route_config net i r)) (configs_for y (i + 1) rest)

  -- An entry with further configurations; there is none without.
  abbrev pub extended :
      Option (List (RouteConfig net)) → List (RouteConfig net) → Option (List (RouteConfig net))
  extended none [] = none
  extended none (c ∷ cs) = some (c ∷ cs)
  extended (some l) cs = some (l ++ cs)

  extended-nil : (o : Option (List (RouteConfig net))) → extended o [] ≡ o
  extended-nil none = refl
  extended-nil (some l) = ap some (append-nil l)

  extended-snoc :
      (o : Option (List (RouteConfig net))) (c : RouteConfig net) (cs : List (RouteConfig net))
      → extended (some (or_nil net o ++ c ∷ [])) cs ≡ extended o (c ∷ cs)
  extended-snoc none c cs = refl
  extended-snoc (some l) c cs = ap some (append_assoc l (c ∷ []) cs)

  lookup-add_routes :
      (i : ℕ) (routes : List Route) (out out' : Table net) (y : String)
      → add_routes net i routes out ≡ ok out'
      → lookup y out' ≡ extended (lookup y out) (configs_for y i routes)
  unfolding add_routes
  lookup-add_routes i [] out out' y h = ap (lookup y) (cc) ∙ sym (extended-nil (lookup y out))
  lookup-add_routes i (r ∷ rest) out out' y h =
      let (c, e, h') = >>=-eq-ok (route_config net i r) _ h in
      let next = insert c.0 (or_nil net (lookup c.0 out) ++ c.1 ∷ []) out in
      let later = lookup-add_routes (i + 1) rest next out' y h' in
      later ∙ elim (Bool-cases (y == c.0)) [
        | inl same ↦ ground (
          arith,
          extended-snoc (lookup c.0 out) c.1 (configs_for y (i + 1) rest),
          lookup-insert y c.0 (or_nil net (lookup c.0 out) ++ c.1 ∷ []) out,
        )
        | inr other ↦
            ground (arith, lookup-insert y c.0 (or_nil net (lookup c.0 out) ++ c.1 ∷ []) out)
      ]

  -- The entry that a managed interface begins with.
  abbrev pub seeded : List String → String → Option (List (RouteConfig net))
  seeded managed y = if names (λ s. s) managed y then some [] else none

  lookup-seed :
      (managed : List String) (out : Table net) (y : String)
      → lookup y (seed net managed out)
        ≡ (if names (λ s. s) managed y then some [] else lookup y out)
  unfolding seed
  lookup-seed [] out y = ground arith
  lookup-seed (s ∷ rest) out y = ground (
    arith,
    lookup-seed rest out y,
    lookup-seed rest (insert (trim_space s) [] out) y,
    lookup-insert y (trim_space s) [] out,
  )

  abbrev pub sorted_entry : Option (List (RouteConfig net)) → Option (List (RouteConfig net))
  sorted_entry none = none
  sorted_entry (some l) = some (sort_route_configs net l)

  lookup-sort_all :
      (out : Table net) (y : String) → lookup y (sort_all net out) ≡ sorted_entry (lookup y out)
  unfolding sort_all lookup
  lookup-sort_all [] y = refl
  lookup-sort_all ((k, l) ∷ out) y = ground (arith, lookup-sort_all out y)

  -- The table of the desired routes, when it is built: an interface that is managed or that a route
  -- names is in it, with the configurations of exactly its routes, sorted, and no other interface
  -- is. So a managed interface without routes has the empty list, which removes its old routes.
  pub lookup-desired_route_configs_by_interface :
      (managed : List String) (routes : List Route) (out : Table net) (y : String)
      → desired_route_configs_by_interface net managed routes ≡ ok out
      → lookup y out ≡ sorted_entry (extended (seeded managed y) (configs_for y 0 routes))
  unfolding desired_route_configs_by_interface lookup
  lookup-desired_route_configs_by_interface managed routes out y h =
      let (table, e, h') = >>=-eq-ok (add_routes net 0 routes (seed net managed [])) _ h in
      let same : sort_all net table ≡ out = cc in
      rw (sym same) (
        lookup-sort_all table y
        ∙ ap sorted_entry (
            lookup-add_routes 0 routes (seed net managed []) table y e
            ∙ ap (λ o. extended o (configs_for y 0 routes)) (lookup-seed managed [] y)))
