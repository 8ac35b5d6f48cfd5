-- ===== src/LinkConfig/Desired.antt =====
-- linkconfig_controller.go: extractDesiredRoutes, and the gateways that Reconcile fills in.
pub mod Laws
use dockyards_talos.Base.{
  ℕ, zero, suc, ◌+◌, String, Bool, true, false, not, ◌&&◌, ◌||◌, Option, none, some, List, [], ◌∷◌,
  ◌==◌, string_eq, if◌then◌else◌, map,
}
use dockyards_talos.Base.Result.{Result, ok, err, ◌>>=◌, ◌>>◌, guard}
use dockyards_talos.Base.Text.{trim_space}
use dockyards_talos.Routes.Types.{Route}
use dockyards_talos.LinkConfig.Types.{LinkConfigRoute, LinkConfigDefaultRoute, LinkConfigSpec}

-- The errors name the field at fault.
pub data SpecError : Type 0 where
  network_required interface_required : ℕ → SpecError
  default_interface_required : SpecError

abbrev pub is_blank : String → Bool
is_blank s = trim_space s == ""

-- One round of the loop, at the index `i`.
unfoldable pub static_route : ℕ → LinkConfigRoute → Result SpecError Route
static_route i r = do
  guard (not (r.network == "")) (network_required i)
  guard (not (is_blank r.interface)) (interface_required i)
  ok (record {
    network = r.network;
    gateway = r.gateway;
    metric = r.metric;
    interface = r.interface;
  })

-- The loop over the static routes, from the index `i` on.
unfoldable pub static_routes_from : ℕ → List LinkConfigRoute → Result SpecError (List Route)
static_routes_from i [] = ok []
static_routes_from i (r ∷ rest) = do
  route ← static_route i r
  routes ← static_routes_from (i + 1) rest
  ok (route ∷ routes)

unfoldable pub default_route_of : Option LinkConfigDefaultRoute → Result SpecError (Option Route)
default_route_of none = ok none
default_route_of (some r) = do
  guard (not (is_blank r.interface)) default_interface_required
  ok (
      some
        (record { network = ""; gateway = r.gateway; metric = r.metric; interface = r.interface }))

unfoldable pub extract_desired_routes :
    LinkConfigSpec → Result SpecError (List Route × Option Route)
extract_desired_routes spec = do
  static_routes ← static_routes_from 0 spec.static_routes
  default_route ← default_route_of spec.default_route
  ok (static_routes, default_route)

-- The loop that looks for a route with no gateway.
unfoldable pub any_blank_gateway : List Route → Bool
any_blank_gateway [] = false
any_blank_gateway (r ∷ rest) =
    let more = any_blank_gateway rest in if is_blank r.gateway then true else more

abbrev pub default_blank : Option Route → Bool
default_blank none = false
default_blank (some r) = is_blank r.gateway

unfoldable pub needs_gateway : List Route → Option Route → Bool
needs_gateway static_routes default_route =
    any_blank_gateway static_routes || default_blank default_route

abbrev pub fill_one : String → Route → Route
fill_one derived r = if is_blank r.gateway then record r { gateway = derived } else r

-- The derived gateway for the routes that have none.
unfoldable pub fill_gateways : String → List Route → Option Route → List Route × Option Route
fill_gateways derived static_routes none = (map (fill_one derived) static_routes, none)
fill_gateways derived static_routes (some r) =
    (map (fill_one derived) static_routes, some (fill_one derived r))
