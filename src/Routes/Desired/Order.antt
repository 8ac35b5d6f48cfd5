-- ===== src/Routes/Desired/Order.antt =====
-- talos_injector.go: the comparison of sortRouteConfigs, and sameRouteConfigs.
use dockyards_talos.Base.{◌≡◌, refl, ◌⊎◌, true, not, List, [], ◌∷◌, arith, string_eq}
use dockyards_talos.Base.Sort.Again.{sort_idem}
use dockyards_talos.Base.Text.{leb_string_total}
use dockyards_talos.Routes.Types.{Netip, RouteConfig}
use dockyards_talos.Routes.Desired.{
  Signature, signature_eq, less, route_config_signature, in_order, sort_route_configs,
  same_signatures, same_route_configs,
}

less-asymm : (a b : Signature) → (not (less a b) ≡ true) ⊎ (not (less b a) ≡ true)
unfolding less
less-asymm a b = ground (
  arith,
  leb_string_total a.destination b.destination,
  leb_string_total a.gateway b.gateway,
  leb_string_total a.source b.source,
)

module _ (net : Netip) where
  in_order_total : (a b : RouteConfig net) → (in_order net a b ≡ true) ⊎ (in_order net b a ≡ true)
  in_order_total a b = less-asymm (route_config_signature net b) (route_config_signature net a)

  pub sort_route_configs_idem :
      (l : List (RouteConfig net))
      → sort_route_configs net (sort_route_configs net l) ≡ sort_route_configs net l
  unfolding sort_route_configs
  sort_route_configs_idem l = sort_idem (in_order net) in_order_total l

  same_signatures_refl : (l : List (RouteConfig net)) → same_signatures net l l ≡ true
  unfolding same_signatures
  same_signatures_refl [] = refl
  same_signatures_refl (a ∷ l) = ground (arith, same_signatures_refl l)

  pub same_route_configs_refl : (l : List (RouteConfig net)) → same_route_configs net l l ≡ true
  unfolding same_route_configs
  same_route_configs_refl l = ground (arith, same_signatures_refl l)
