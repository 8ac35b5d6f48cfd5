-- ===== src/Routes/Applied.antt =====
-- talos_injector.go: expectedMachineConfigRouteSpec and waitForRoutesApplied.
pub mod Wait
use dockyards_talos.Base.{
  ℕ, ◌*◌, String, Bool, true, false, not, Option, none, some, List, [], ◌∷◌, ◌++◌, ◌==◌, string_eq,
  nat_eq, if◌then◌else◌,
}
use dockyards_talos.Base.Range.{Visit}
use dockyards_talos.Base.Result.{Result, ok, err, ◌>>=◌, ◌>>◌, guard, or_fail}
use dockyards_talos.Base.Text.{trim_space}
use dockyards_talos.Base.Time.{ℤ, pos, after, second, ◌+ℤ◌}
use dockyards_talos.Routes.Types.{
  Node, Route, Netip, RouteConfig, Error, talos_config_empty, node_address_empty,
  node_machine_key_empty, parse_talos_config, create_client, get_machine_config,
  extract_machine_config, apply_machine_config, route_gateway_empty, route_interface_empty,
  route_network_unparsed, route_gateway_unparsed, get_route_spec, timed_out, context_ended,
}
use dockyards_talos.Routes.Interfaces.{normalize_managed_interfaces}
use dockyards_talos.Routes.Desired.{desired_route_configs_by_interface}
use dockyards_talos.Routes.Documents.{Machinery, reconcile_managed_link_routes}

pub data Family : Type 0 where
  inet4 inet6 : Family

pub data RouteType : Type 0 where
  unicast multicast : RouteType

-- RouteSpecSpec of the Talos machinery, without the table, the protocol and the layer, which are
-- constants of the injector; `none` is the zero prefix.
pub record RouteSpec (net : Netip) : Type 0 where
  pub destination : Option net.Prefix
  pub gateway : net.Addr
  pub out_link_name : String
  pub priority : ℕ
  pub family : Family
  pub route_type : RouteType

-- The machine configuration as the node's API returns it.
pub record ConfigResource : Type 0 where
  pub has_annotations : Bool
  pub marshalled : Option String

-- What the injector calls of the Talos machinery, its client and the YAML package. `World` is the
-- state of the node.
pub record Talos (net : Netip) : Type 1 where
  pub normalize : RouteSpec net → RouteSpec net × Option Family
  pub route_id : RouteSpec net → String
  pub default_route_metric : ℕ
  pub World : Type 0
  pub is_talos_config : String → Bool
  pub endpoint : String → ℕ → String
  pub connects : String → World → Bool
  pub active_machine_config : World → Option ConfigResource
  pub unmarshal_string : String → Option String
  pub apply_configuration : String → World → Option World

-- One look at a route: it is there, it is not, or the request failed.
pub data Status : Type 0 where
  present missing unreadable : Status

-- A round of the wait: what the node answers for each identity, the time after the answers, and
-- whether the context ended before the next round.
pub record Round : Type 0 where
  pub status : String → Status
  pub now : ℤ
  pub is_done : Bool

-- How a call stands after the given rounds: it has returned, with an error or none, or it waits
-- for a further round.
pub data Progress : Type 0 where
  returned : Option Error → Progress
  waiting : Progress

module _ (net : Netip) (t : Talos net) where
  -- `if strings.TrimSpace(r.Network) != "" { parsed, err := netip.ParsePrefix(r.Network) … }`
  unfoldable pub expected_destination : String → Result Error (Option net.Prefix)
  expected_destination network =
      if trim_space network == ""
      then ok none
      else (or_fail (net.parse_prefix network) route_network_unparsed >>= λ prefix.
          ok (some prefix))

  abbrev pub family_of : net.Addr → Family
  family_of a = if net.is6 a then inet6 else inet4

  unfoldable pub initial_family : Option net.Prefix → net.Addr → Family
  initial_family none gw = family_of gw
  initial_family (some dst) gw = family_of (net.prefix_addr dst)

  unfoldable pub type_of : Option net.Prefix → RouteType
  type_of none = unicast
  type_of (some dst) = if net.is_multicast (net.prefix_addr dst) then multicast else unicast

  abbrev pub with_family : RouteSpec net × Option Family → RouteSpec net
  with_family (spec, none) = spec
  with_family (spec, some fam) = record spec { family = fam }

  unfoldable pub expected_machine_config_route_spec : Route → Result Error (RouteSpec net × String)
  expected_machine_config_route_spec r = do
    guard (not (r.gateway == "")) route_gateway_empty
    guard (not (trim_space r.interface == "")) route_interface_empty
    dst ← expected_destination r.network
    gw ← or_fail (net.parse_addr r.gateway) route_gateway_unparsed
    let first : RouteSpec net = record {
      destination = dst;
      gateway = gw;
      out_link_name = trim_space r.interface;
      priority = if nat_eq r.metric 0 then t.default_route_metric else r.metric;
      family = initial_family dst gw;
      route_type = unicast;
    }
    let normal = with_family (t.normalize first)
    let spec : RouteSpec net = record normal { route_type = type_of normal.destination }
    ok (spec, t.route_id spec)

  -- The identities of the routes; the first route that has none ends the loop.
  unfoldable pub want_ids : List Route → Result Error (List String)
  want_ids [] = ok []
  want_ids (r ∷ rest) = do
    e ← expected_machine_config_route_spec r
    ids ← want_ids rest
    ok (e.1 ∷ ids)

  -- The loop over the identities in one round: those that are missing.
  unfoldable pub missing_ids : (String → Status) → List String → Result Error (List String)
  missing_ids status [] = ok []
  missing_ids status (id ∷ ids) =
      let rest = missing_ids status ids in
      elim (status id) [
        | present ↦ rest
        | missing ↦ (rest >>= λ more. ok (id ∷ more))
        | unreadable ↦ err get_route_spec
      ]

  -- What follows a round without an error, with the call on the further rounds.
  unfoldable pub after_round : ℤ → Round → List String → Progress → Progress
  after_round deadline round [] next = returned none
  after_round deadline round (id ∷ ids) next =
      if after round.now deadline
      then returned (some timed_out)
      else if round.is_done
      then returned (some context_ended)
      else next

  abbrev pub or_error : Result Error (List String) → (List String → Progress) → Progress
  or_error (ok ids) f = f ids
  or_error (err e) f = returned (some e)

  unfoldable pub poll : ℤ → List String → List Round → Progress
  poll deadline ids [] = waiting
  poll deadline ids (round ∷ rounds) =
      let next = poll deadline ids rounds in
      or_error (missing_ids round.status ids) (λ ms. after_round deadline round ms next)

  -- `started` is the time at which the wait begins.
  unfoldable pub wait_for_routes_applied :
      List Round → (started : ℤ) → List Route → (timeout : ℤ) → Progress
  wait_for_routes_applied rounds started [] timeout = returned none
  wait_for_routes_applied rounds started (r ∷ rest) timeout =
      or_error (want_ids (r ∷ rest)) (λ ids. poll (started +ℤ timeout) ids rounds)
