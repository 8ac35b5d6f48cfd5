-- ===== src/Routes/Desired/Shape.antt =====
-- talos_injector.go: the keys of the table of desiredRouteConfigsByInterface.
use dockyards_talos.Base.{
  ℕ, ◌+◌, String, string_eq, ◌⊎◌, ◌≡◌, refl, sym, true, not, none, some, List, [], ◌∷◌, ◌==◌,
  contains, map, arith, inl, inr, Bool-cases,
}
use dockyards_talos.Base.GoMap.{lookup, Distinct, insert-Distinct}
use dockyards_talos.Base.NameSet.{names}
use dockyards_talos.Base.Result.{ok, guard, or_fail, >>=-eq-ok, Result-cases}
use dockyards_talos.Base.Text.{trim_space, trim_space_idem}
use dockyards_talos.Routes.Types.{
  Route, Netip, RouteConfig, interface_empty, gateway_empty, parse_gateway,
}
use dockyards_talos.Routes.Desired.{
  Table, seed, route_config, destination_of, add_routes, sort_all,
  desired_route_configs_by_interface,
}
use dockyards_talos.Routes.Desired.Contents.{configs_for, lookup-desired_route_configs_by_interface}

contains-trimmed :
    (l : List String) (y : String)
    → contains (map (λ s. trim_space s) l) y ≡ true
    → trim_space y ≡ y
contains-trimmed [] y h = absurd (ground arith)
contains-trimmed (s ∷ l) y h = ground (arith, contains-trimmed l y, trim_space_idem s)

module _ (net : Netip) where
  route_config-trimmed :
      (i : ℕ) (r : Route) (c : String × RouteConfig net)
      → route_config net i r ≡ ok c
      → trim_space c.0 ≡ c.0
  unfolding route_config
  route_config-trimmed i r c h =
      let iface = trim_space r.interface in
      let gateway = trim_space r.gateway in
      let (u₁, e₁, h₁) = >>=-eq-ok (guard (not (iface == "")) (interface_empty i)) _ h in
      let (u₂, e₂, h₂) = >>=-eq-ok (guard (not (gateway == "")) (gateway_empty i)) _ h₁ in
      let (addr, e₃, h₃) = >>=-eq-ok (or_fail (net.parse_addr gateway) (parse_gateway i)) _ h₂ in
      let (dst, e₄, h₄) = >>=-eq-ok (destination_of net i (trim_space r.network)) _ h₃ in
      let same : trim_space r.interface ≡ c.0 = cc in rw (sym same) (trim_space_idem r.interface)

  configs_for-trimmed :
      (y : String) (i : ℕ) (routes : List Route) (c : RouteConfig net) (cs : List (RouteConfig net))
      → configs_for net y i routes ≡ c ∷ cs
      → trim_space y ≡ y
  configs_for-trimmed y i [] c cs h = absurd (ground arith)
  configs_for-trimmed y i (r ∷ rest) c cs h = elim (Result-cases (route_config net i r)) [
    | inl (entry, e) ↦
        ground (arith, route_config-trimmed i r entry e, configs_for-trimmed y (i + 1) rest c cs)
    | inr (x, e) ↦ ground (arith, configs_for-trimmed y (i + 1) rest c cs)
  ]

  configs-cases :
      (l : List (RouteConfig net))
      → (l ≡ []) ⊎ ((c : RouteConfig net) × (cs : List (RouteConfig net)) × (l ≡ c ∷ cs))
  configs-cases [] = inl refl
  configs-cases (c ∷ cs) = inr (c, cs, refl)

  -- Each key of the table is trimmed.
  pub desired-trimmed :
      (managed : List String) (routes : List Route) (out : Table net)
      → desired_route_configs_by_interface net managed routes ≡ ok out
      → (y : String) (l : List (RouteConfig net)) → lookup y out ≡ some l
      → trim_space y ≡ y
  desired-trimmed managed routes out built y l at =
      let entry = lookup-desired_route_configs_by_interface net managed routes out y built in
      elim (Bool-cases (names (λ (s : String). s) managed y)) [
        | inl named ↦ contains-trimmed managed y (ground arith)
        | inr unnamed ↦ elim (configs-cases (configs_for net y 0 routes)) [
          | inl none_at ↦ absurd (ground (arith, entry))
          | inr (c, cs, e) ↦ configs_for-trimmed y 0 routes c cs e
        ]
      ]

  keys_kept :
      (j : String) (out : Table net) → lookup j out ≡ none → lookup j (sort_all net out) ≡ none
  unfolding lookup sort_all
  keys_kept j [] h = refl
  keys_kept j ((k, l) ∷ out) h = ground (arith, keys_kept j out)

  sort_all-Distinct : (out : Table net) → Distinct out → Distinct (sort_all net out)
  unfolding sort_all
  sort_all-Distinct [] d = tt
  sort_all-Distinct ((k, l) ∷ out) d = (keys_kept k out d.0, sort_all-Distinct out d.1)

  seed-Distinct :
      (managed : List String) (out : Table net) → Distinct out → Distinct (seed net managed out)
  unfolding seed
  seed-Distinct [] out d = d
  seed-Distinct (s ∷ rest) out d = elim (Bool-cases (trim_space s == "")) [
    | inl blank ↦ rw blank (seed-Distinct rest out d)
    | inr filled ↦ rw filled (seed-Distinct rest _ (insert-Distinct (trim_space s) [] out d))
  ]

  add_routes-Distinct :
      (i : ℕ) (routes : List Route) (out out' : Table net)
      → Distinct out
      → add_routes net i routes out ≡ ok out'
      → Distinct out'
  unfolding add_routes
  add_routes-Distinct i [] out out' d h = let same : out ≡ out' = cc in rw (sym same) d
  add_routes-Distinct i (r ∷ rest) out out' d h =
      let (c, e, h') = >>=-eq-ok (route_config net i r) _ h in
      add_routes-Distinct (i + 1) rest _ out' (insert-Distinct c.0 _ out d) h'

  -- No key stands twice in the table.
  pub desired-Distinct :
      (managed : List String) (routes : List Route) (out : Table net)
      → desired_route_configs_by_interface net managed routes ≡ ok out
      → Distinct out
  unfolding desired_route_configs_by_interface
  desired-Distinct managed routes out h =
      let (table, e, h') = >>=-eq-ok (add_routes net 0 routes (seed net managed [])) _ h in
      let same : sort_all net table ≡ out = cc in
      rw (sym same) (
        sort_all-Distinct table
          (add_routes-Distinct 0 routes _ table (seed-Distinct managed [] tt) e))
