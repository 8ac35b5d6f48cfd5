-- ===== src/Routes/Documents.antt =====
-- talos_injector.go: reconcileManagedLinkRoutes, on the documents of a machine configuration.
pub mod Repeat
pub mod Settled
pub mod Links
pub mod Stable
pub mod Written
use dockyards_talos.Base.{
  String, Bool, true, false, not, ◌||◌, Option, none, some, List, [], ◌∷◌, ◌++◌, ◌==◌, string_eq,
  if◌then◌else◌, contains, map,
}
use dockyards_talos.Base.GoMap.{lookup}
use dockyards_talos.Base.Range.{Visit}
use dockyards_talos.Base.Result.{Result, ok, err, ◌>>=◌, or_fail}
use dockyards_talos.Base.Sort.{sort}
use dockyards_talos.Base.Text.{trim_space, leb_string}
use dockyards_talos.Routes.Types.{
  Netip, RouteConfig, Error, parse_machine_config, build_machine_config, encode_machine_config,
}
use dockyards_talos.Routes.Desired.{Table, or_nil, sort_route_configs, same_route_configs}

-- A link document of the Talos machinery, with the settings that the injector never touches.
pub record LinkConfig (net : Netip) (Settings : Type 0) : Type 0 where
  pub meta_name : String
  pub link_routes : List (RouteConfig net)
  pub settings : Settings

pub data Document (net : Netip) (Settings Other : Type 0) : Type 0 where
  link : LinkConfig net Settings → Document net Settings Other
  other : Other → Document net Settings Other

-- The Talos machinery: how a machine configuration reads as documents and is written from them
-- (`container.New` may refuse the documents, and the encoding may fail), and the settings of a new
-- link document.
pub record Machinery (net : Netip) : Type 1 where
  pub Settings : Type 0
  pub Other : Type 0
  pub parse : String → Option (List (Document net Settings Other))
  pub accepts : List (Document net Settings Other) → Bool
  pub encode : List (Document net Settings Other) → Option String
  pub new_settings : String → Settings

abbrev pub add_seen : Option String → List String → List String
add_seen none seen = seen
add_seen (some iface) seen = iface ∷ seen

abbrev pub is_nonempty : List String → Bool
is_nonempty [] = false
is_nonempty (x ∷ xs) = true

-- The documents that the function builds, and whether they changed.
module _ (net : Netip) where
  -- `if len(desiredRoutes) == 0 { continue }; missing = append(missing, iface)`
  unfoldable pub if_routes : String → List (RouteConfig net) → List String → List String
  if_routes iface [] rest = rest
  if_routes iface (r ∷ rs) rest = iface ∷ rest

  -- The loop that finds the interfaces with routes that no document was seen for.
  unfoldable pub missing_interfaces :
      List String → List (String × List (RouteConfig net)) → List String
  missing_interfaces seen [] = []
  missing_interfaces seen ((iface, routes) ∷ es) =
      let rest = missing_interfaces seen es in
      if contains seen iface then rest else if_routes iface routes rest

module _ (net : Netip) (m : Machinery net) where
  abbrev pub Doc : Type 0
  Doc = Document net m.Settings m.Other

  -- What the loop does to a link document with the desired routes of its interface, if that is
  -- managed: the document, whether its routes were other ones, and the interface, if it is seen.
  unfoldable pub update_link :
      LinkConfig net m.Settings → Option (List (RouteConfig net)) → Doc × Bool × Option String
  update_link lc none = (link lc, false, none)
  update_link lc (some routes) =
      let desired = sort_route_configs net routes in
      let existing = sort_route_configs net lc.link_routes in
      (
        link (record lc { link_routes = desired }),
        not (same_route_configs net existing desired),
        some (trim_space lc.meta_name),
      )

  unfoldable pub update_document : Table net → Doc → Doc × Bool × Option String
  update_document desired (link lc) = update_link lc (lookup (trim_space lc.meta_name) desired)
  update_document desired (other d) = (other d, false, none)

  -- The loop over the documents: the new ones, whether any changed, and the interfaces seen.
  unfoldable pub update_documents : Table net → List Doc → List Doc × Bool × List String
  update_documents desired [] = ([], false, [])
  update_documents desired (d ∷ docs) =
      let one = update_document desired d in
      let rest = update_documents desired docs in
      (one.0 ∷ rest.0, one.1 || rest.1, add_seen one.2 rest.2)

  unfoldable pub new_link : Table net → String → Doc
  new_link desired iface = link (record {
    meta_name = iface;
    link_routes = or_nil net (lookup iface desired);
    settings = m.new_settings iface;
  })

  unfoldable pub reconcile_documents :
      Visit String (List (RouteConfig net)) → Table net → List Doc → List Doc × Bool
  reconcile_documents visit desired docs =
      let updated = update_documents desired docs in
      let missing = sort leb_string (missing_interfaces net updated.2 (visit desired)) in
      (updated.0 ++ map (new_link desired) missing, updated.1 || is_nonempty missing)

  -- Once the documents are built: encode them, unless nothing changed.
  unfoldable pub write_documents : String → List Doc × Bool → Result Error (String × Bool)
  write_documents machine_config (docs, false) = ok (machine_config, false)
  write_documents machine_config (docs, true) =
      if not (m.accepts docs) then err build_machine_config else do
        text ← or_fail (m.encode docs) encode_machine_config
        if trim_space text == trim_space machine_config
            then ok (machine_config, false)
            else ok (text, true)

  unfoldable pub reconcile_managed_link_routes :
      Visit String (List (RouteConfig net)) → String → Table net → Result Error (String × Bool)
  reconcile_managed_link_routes visit machine_config [] = ok (machine_config, false)
  reconcile_managed_link_routes visit machine_config (e ∷ es) = do
    docs ← or_fail (m.parse machine_config) parse_machine_config
    write_documents machine_config (reconcile_documents visit (e ∷ es) docs)
