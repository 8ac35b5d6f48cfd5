-- ===== src/Routes/Desired.antt =====
-- talos_injector.go: desiredRouteConfigsByInterface, sortRouteConfigs, sameRouteConfigs and
-- routeConfigSignature.
pub mod Contents
pub mod Order
pub mod Shape
use dockyards_talos.Base.{
  ℕ, ◌+◌, String, Bool, true, false, not, Option, none, some, List, [], ◌∷◌, ◌++◌, ◌==◌, Eq,
  string_eq, String_dec, ℕ_discrete, nat_eq, ltb, if◌then◌else◌, length,
}
use dockyards_talos.Base.GoMap.{GoMap, lookup, insert}
use dockyards_talos.Base.Result.{Result, ok, ◌>>=◌, ◌>>◌, guard, or_fail}
use dockyards_talos.Base.Sort.{sort}
use dockyards_talos.Base.Text.{trim_space, leb_string}
use dockyards_talos.Routes.Types.{
  Route, Netip, RouteConfig, Error, interface_empty, gateway_empty, parse_gateway, parse_network,
}

-- linkRouteSignature
pub record Signature : Type 0 where
  pub destination : String
  pub gateway : String
  pub source : String
  pub metric : ℕ
  pub mtu : ℕ
  pub table : ℕ

Signature_dec : Discrete Signature
Signature_dec = hlevel (String_dec, ℕ_discrete)

instance unfoldable pub signature_eq : Eq Signature
unfolding Signature_dec
signature_eq = record { dec = Signature_dec }

-- `a < b` on strings
abbrev pub ltb_string : String → String → Bool
ltb_string s t = not (leb_string t s)

-- The comparison that is passed to `sort.Slice`.
unfoldable pub less : Signature → Signature → Bool
less lhs rhs =
    if not (lhs.destination == rhs.destination)
    then ltb_string lhs.destination rhs.destination
    else if not (lhs.gateway == rhs.gateway)
    then ltb_string lhs.gateway rhs.gateway
    else if not (lhs.source == rhs.source)
    then ltb_string lhs.source rhs.source
    else if not (nat_eq lhs.metric rhs.metric)
    then ltb lhs.metric rhs.metric
    else if not (nat_eq lhs.mtu rhs.mtu)
    then ltb lhs.mtu rhs.mtu
    else ltb lhs.table rhs.table

abbrev pub text_or_empty {ℓ} : {A : Type ℓ} → (A → String) → Option A → String
text_or_empty f none = ""
text_or_empty f (some a) = f a

module _ (net : Netip) where
  unfoldable pub route_config_signature : RouteConfig net → Signature
  route_config_signature r = record {
    destination = text_or_empty net.prefix_string r.route_destination;
    gateway = text_or_empty net.addr_string r.route_gateway;
    source = text_or_empty net.addr_string r.route_source;
    metric = r.route_metric;
    mtu = r.route_mtu;
    table = r.route_table;
  }

  -- `a` may stand before `b`: `b` is not less than `a`.
  abbrev pub in_order : RouteConfig net → RouteConfig net → Bool
  in_order a b = not (less (route_config_signature b) (route_config_signature a))

  unfoldable pub sort_route_configs : List (RouteConfig net) → List (RouteConfig net)
  sort_route_configs routes = sort in_order routes

  -- The loop of `sameRouteConfigs`, over slices of one length.
  unfoldable pub same_signatures : List (RouteConfig net) → List (RouteConfig net) → Bool
  same_signatures [] bs = true
  same_signatures (a ∷ as') [] = true
  same_signatures (a ∷ as') (b ∷ bs) =
      let rest = same_signatures as' bs in
      if not (route_config_signature a == route_config_signature b) then false else rest

  unfoldable pub same_route_configs : List (RouteConfig net) → List (RouteConfig net) → Bool
  same_route_configs as' bs =
      if not (nat_eq (length as') (length bs)) then false else same_signatures as' bs

  abbrev pub Table : Type 0
  Table = GoMap String (List (RouteConfig net))

  -- `for _, iface := range managedInterfaces { … out[iface] = nil }`
  unfoldable pub seed : List String → Table → Table
  seed [] out = out
  seed (s ∷ rest) out =
      let iface = trim_space s in
      let out' = if iface == "" then out else insert iface [] out in seed rest out'

  -- `if network != "" { prefix, err := netip.ParsePrefix(network); … }`
  unfoldable pub destination_of : ℕ → String → Result Error (Option net.Prefix)
  destination_of i network =
      if network == ""
      then ok none
      else (or_fail (net.parse_prefix network) (parse_network i) >>= λ prefix. ok (some prefix))

  -- The configuration of the route at the index `i`, with its interface.
  unfoldable pub route_config : ℕ → Route → Result Error (String × RouteConfig net)
  route_config i r = do
    let iface = trim_space r.interface
    guard (not (iface == "")) (interface_empty i)
    let gateway = trim_space r.gateway
    guard (not (gateway == "")) (gateway_empty i)
    addr ← or_fail (net.parse_addr gateway) (parse_gateway i)
    destination ← destination_of i (trim_space r.network)
    ok (
      iface,
      record {
        route_destination = destination;
        route_gateway = some addr;
        route_source = none;
        route_metric = r.metric;
        route_mtu = 0;
        route_table = 0;
      },
    )

  abbrev pub or_nil : Option (List (RouteConfig net)) → List (RouteConfig net)
  or_nil none = []
  or_nil (some l) = l

  -- `out[iface] = append(out[iface], routeCfg)` for the routes from the index `i` on.
  unfoldable pub add_routes : ℕ → List Route → Table → Result Error Table
  add_routes i [] out = ok out
  add_routes i (r ∷ rest) out = do
    c ← route_config i r
    add_routes (i + 1) rest (insert c.0 (or_nil (lookup c.0 out) ++ c.1 ∷ []) out)

  -- `for iface := range out { out[iface] = sortRouteConfigs(out[iface]) }`
  unfoldable pub sort_all : Table → Table
  sort_all [] = []
  sort_all ((iface, routes) ∷ out) = (iface, sort_route_configs routes) ∷ sort_all out

  unfoldable pub desired_route_configs_by_interface : List String → List Route → Result Error Table
  desired_route_configs_by_interface managed routes = do
    out ← add_routes 0 routes (seed managed [])
    ok (sort_all out)
