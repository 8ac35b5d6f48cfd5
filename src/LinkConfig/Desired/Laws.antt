-- ===== src/LinkConfig/Desired/Laws.antt =====
-- linkconfig_controller.go: extractDesiredRoutes, and the gateways that Reconcile fills in.
use dockyards_talos.Base.{
  ℕ, ◌+◌, String, string_eq, ◌≡◌, refl, ◌↔◌, Bool, true, false, not, ◌&&◌, Option, none, some, List,
  [], ◌∷◌, ◌==◌, map, arith, inl, inr,
}
use dockyards_talos.Base.Result.{ok, >>=-eq-ok, Result-cases}
use dockyards_talos.Routes.Types.{Route}
use dockyards_talos.LinkConfig.Types.{LinkConfigRoute, LinkConfigDefaultRoute, LinkConfigSpec}
use dockyards_talos.LinkConfig.Desired.{
  is_blank, static_route, static_routes_from, default_route_of, extract_desired_routes,
  any_blank_gateway, needs_gateway, fill_one, fill_gateways,
}

-- A static route with a network and an interface, and a default route with an interface.
abbrev pub is_valid_route : LinkConfigRoute → Bool
is_valid_route r = not (r.network == "") && not (is_blank r.interface)

abbrev pub all_valid : List LinkConfigRoute → Bool
all_valid [] = true
all_valid (r ∷ rest) = is_valid_route r && all_valid rest

abbrev pub is_valid_default : Option LinkConfigDefaultRoute → Bool
is_valid_default none = true
is_valid_default (some r) = not (is_blank r.interface)

abbrev pub is_valid_spec : LinkConfigSpec → Bool
is_valid_spec spec = all_valid spec.static_routes && is_valid_default spec.default_route

abbrev pub as_route : LinkConfigRoute → Route
as_route r = record {
  network = r.network;
  gateway = r.gateway;
  metric = r.metric;
  interface = r.interface;
}

-- The default route has no network.
abbrev pub as_default : Option LinkConfigDefaultRoute → Option Route
as_default none = none
as_default (some r) =
    some (record { network = ""; gateway = r.gateway; metric = r.metric; interface = r.interface })

static_routes_valid :
    (i : ℕ) (rs : List LinkConfigRoute)
    → all_valid rs ≡ true
    → static_routes_from i rs ≡ ok (map as_route rs)
unfolding static_routes_from static_route
static_routes_valid i [] h = refl
static_routes_valid i (r ∷ rest) h = ground (arith, static_routes_valid (i + 1) rest)

static_routes_only :
    (i : ℕ) (rs : List LinkConfigRoute) (out : List Route)
    → static_routes_from i rs ≡ ok out
    → all_valid rs ≡ true
unfolding static_routes_from static_route
static_routes_only i [] out h = refl
static_routes_only i (r ∷ rest) out h = elim (Result-cases (static_routes_from (i + 1) rest)) [
  | inl (more, e) ↦ ground (arith, static_routes_only (i + 1) rest more)
  | inr (x, e) ↦ ground arith
]

default_valid :
    (o : Option LinkConfigDefaultRoute)
    → is_valid_default o ≡ true
    → default_route_of o ≡ ok (as_default o)
unfolding default_route_of
default_valid none h = refl
default_valid (some r) h = ground arith

default_only :
    (o : Option LinkConfigDefaultRoute) (out : Option Route)
    → default_route_of o ≡ ok out
    → is_valid_default o ≡ true
unfolding default_route_of
default_only none out h = refl
default_only (some r) out h = ground arith

valid_extracted :
    (spec : LinkConfigSpec)
    → is_valid_spec spec ≡ true
    → extract_desired_routes spec
      ≡ ok (map as_route spec.static_routes, as_default spec.default_route)
unfolding extract_desired_routes
valid_extracted spec h =
    rw (static_routes_valid 0 spec.static_routes (ground arith))
      (rw (default_valid spec.default_route (ground arith)))

extracted_valid :
    (spec : LinkConfigSpec) (out : List Route × Option Route)
    → extract_desired_routes spec ≡ ok out
    → is_valid_spec spec ≡ true
unfolding extract_desired_routes
extracted_valid spec out h =
    let (statics, e, h') = >>=-eq-ok (static_routes_from 0 spec.static_routes) _ h in
    let (default, e', h'') = >>=-eq-ok (default_route_of spec.default_route) _ h' in
    ground (
      arith,
      static_routes_only 0 spec.static_routes statics e,
      default_only spec.default_route default e',
    )

-- The extraction succeeds with a result exactly when every static route has a network and a
-- non-blank interface, the default route, if any, has a non-blank interface, and the result is the
-- routes of the specification, in order, field by field, the default route with no network.
pub extract_desired_routes_iff :
    (spec : LinkConfigSpec) (out : List Route × Option Route)
    → (extract_desired_routes spec ≡ ok out) ↔ (
        (is_valid_spec spec ≡ true)
        × (out ≡ (map as_route spec.static_routes, as_default spec.default_route)))
extract_desired_routes_iff spec out = (
  λ h. let valid = extracted_valid spec out h in (valid, cc (valid_extracted spec valid)),
  λ (valid, same). cc (valid_extracted spec valid),
)

any_blank-fill :
    (derived : String) (rs : List Route)
    → is_blank derived ≡ false
    → any_blank_gateway (map (fill_one derived) rs) ≡ false
unfolding any_blank_gateway
any_blank-fill derived [] h = refl
any_blank-fill derived (r ∷ rest) h = ground (arith, any_blank-fill derived rest h)

-- With a gateway that is not blank, no route is left without one.
pub needs_gateway-fill_gateways :
    (derived : String) (rs : List Route) (o : Option Route)
    → is_blank derived ≡ false
    → needs_gateway (fill_gateways derived rs o).0 (fill_gateways derived rs o).1 ≡ false
unfolding needs_gateway fill_gateways
needs_gateway-fill_gateways derived rs none h = ground (arith, any_blank-fill derived rs h)
needs_gateway-fill_gateways derived rs (some r) h = ground (arith, any_blank-fill derived rs h)
