-- ===== src/Routes/Reconcile/Faithful.antt =====
-- talos_injector.go: what EnsureRoutes reads of a node, once a configuration was applied.
use dockyards_talos.Base.{String, string_eq, ◌≡◌, ap, ◌∙◌, not, nat_eq, some, ◌==◌, if◌then◌else◌}
use dockyards_talos.Base.Result.{ok, or_fail, guard-eq-ok, guard-then, ok->>=}
use dockyards_talos.Routes.Types.{
  Node, Netip, talos_config_empty, node_address_empty, node_machine_key_empty, parse_talos_config,
  create_client, get_machine_config, extract_machine_config,
}
use dockyards_talos.Routes.Documents.{Machinery}
use dockyards_talos.Routes.Documents.Written.{ReadsBack}
use dockyards_talos.Routes.Applied.{Talos, ConfigResource}
use dockyards_talos.Routes.Reconcile.{extract_machine_config_body, read_machine_config}

module _ (net : Netip) (t : Talos net) (m : Machinery net) where
  -- A node answers with the machine configuration that it was given last, and can be reached as
  -- before; and what the machinery writes reads back.
  pub record IsFaithful : Type 0 where
    pub reads_back : ReadsBack net m
    pub keeps :
        (text : String) (w w' : t.World)
        → t.apply_configuration text w ≡ some w'
        → (r : ConfigResource) × (t.active_machine_config w' ≡ some r)
          × (extract_machine_config_body net t m r ≡ some text)
    pub stays_connected :
        (endpoint text : String) (w w' : t.World)
        → t.apply_configuration text w ≡ some w'
        → t.connects endpoint w' ≡ t.connects endpoint w

  module _ (faithful : IsFaithful) where
    pub read_machine_config-applied :
        (node : Node) (talos_config body text : String) (w w' : t.World)
        → t.apply_configuration text w ≡ some w'
        → read_machine_config net t m w node talos_config ≡ ok body
        → read_machine_config net t m w' node talos_config ≡ ok text
    unfolding read_machine_config
    read_machine_config-applied node talos_config body text w w' applied h =
        let endpoint =
          if nat_eq node.port 0 then node.address else t.endpoint node.address node.port in
        let (g1, h1) = guard-eq-ok (not (talos_config == "")) talos_config_empty _ h in
        let (g2, h2) = guard-eq-ok (not (node.address == "")) node_address_empty _ h1 in
        let (g3, h3) = guard-eq-ok (not (node.machine_key == "")) node_machine_key_empty _ h2 in
        let (g4, h4) = guard-eq-ok (t.is_talos_config talos_config) parse_talos_config _ h3 in
        let (g5, h5) = guard-eq-ok (t.connects endpoint w) create_client _ h4 in
        let (r, active, body') = faithful.keeps text w w' applied in
        guard-then (not (talos_config == "")) talos_config_empty _ g1
        ∙ guard-then (not (node.address == "")) node_address_empty _ g2
        ∙ guard-then (not (node.machine_key == "")) node_machine_key_empty _ g3
        ∙ guard-then (t.is_talos_config talos_config) parse_talos_config _ g4
        ∙ guard-then (t.connects endpoint w') create_client _
            (faithful.stays_connected endpoint text w w' applied ∙ g5)
        ∙ ok->>= (or_fail (t.active_machine_config w') get_machine_config) _ r
            (ap (λ o. or_fail o get_machine_config) active)
        ∙ ap (λ o. or_fail o extract_machine_config) body'
