-- ===== src/LinkConfig/Reconcile/Repeat.antt =====
-- linkconfig_controller.go: Reconcile and persistReconciledLinkConfigState, called again.
use mathlib.Core.List.Perm
use dockyards_talos.Base.{
  String, ◌⊎◌, ◌≡◌, refl, false, Option, none, some, [], ◌==◌, Eq, arith, Bool-cases, inl, inr,
  string_eq, Option-cases,
}
use dockyards_talos.Base.GoMap.{GoMap, lookup, insert, lookup-insert}
use dockyards_talos.Base.Result.{ok, err}
use dockyards_talos.Base.Sort.{sort}
use dockyards_talos.Base.Range.{IsVisit}
use dockyards_talos.Base.NameSet.{sorted_names, add_names}
use dockyards_talos.Base.Text.{trim_space}
use dockyards_talos.Routes.Types.{Netip}
use dockyards_talos.LinkConfig.Types.{
  Machine, LinkConfigState, Annotations, or_blank, read, write, link_config_key,
  link_config_state_key, link_config_name,
}
use dockyards_talos.LinkConfig.Interfaces.{managed_interfaces_from_state, add_default}
use dockyards_talos.LinkConfig.Cluster.{
  found, not_found, Cluster, Injector, finished, extract_link_config_state_from_machine, annotated,
}
use dockyards_talos.LinkConfig.Reconcile.{
  Orders, cleanup_interfaces, plan_missing, plan_for, plan_machine, carry_out, reconcile_machine,
}

-- What is read after a write.
or_blank-insert :
    (key value : String) (m : GoMap String String)
    → or_blank (lookup key (insert key value m)) ≡ value
or_blank-insert key value m = ground (arith, lookup-insert key key value m)

read-write : (key value : String) (a : Annotations) → read key (write key value a) ≡ value
read-write key value none = or_blank-insert key value []
read-write key value (some m) = or_blank-insert key value m

keys_differ : (link_config_key == link_config_state_key) ≡ false
unfolding string_eq
keys_differ = refl

link_config_name-annotated :
    (value : String) (machine : Machine)
    → link_config_name (annotated value machine) ≡ link_config_name machine
unfolding link_config_name lookup
link_config_name-annotated value machine = elim (Option-cases machine.annotations) [
  | inl e ↦
      ground (arith, keys_differ, lookup-insert link_config_key link_config_state_key value [])
  | inr (m, e) ↦
      ground (arith, keys_differ, lookup-insert link_config_key link_config_state_key value m)
]

-- The state that a cleanup records.
abbrev pub no_routes : String → LinkConfigState
no_routes name = record {
  link_config_name = name;
  link_config_generation = 0;
  static_routes = [];
  default_route = none;
}

module _ (c : Cluster) where
  module _ (net : Netip) ⦃e : Eq net.Addr⦄ (i : Injector) where
    cleanup_interfaces-no_routes :
        (orders : Orders) (name : String)
        → IsVisit orders.state_names
        → cleanup_interfaces orders name (some (no_routes name)) ≡ []
    unfolding cleanup_interfaces managed_interfaces_from_state sorted_names sort add_default
        add_names
    cleanup_interfaces-no_routes orders name fair = ground (arith, Perm.eq-nil (fair []))

    extract-annotated :
        (machine : Machine) (value : String) (state : LinkConfigState)
        → c.decode_state (trim_space value) ≡ some state
        → (extract_link_config_state_from_machine c (annotated value machine) ≡ ok none)
          ⊎ (extract_link_config_state_from_machine c (annotated value machine) ≡ ok (some state))
    unfolding extract_link_config_state_from_machine
    extract-annotated machine value state decoded =
        let at = read-write link_config_state_key value machine.annotations in
        elim (Bool-cases (trim_space value == "")) [
          | inl blank ↦ inl (ground arith)
          | inr filled ↦ inr (ground arith)
        ]

    plan_for-cleaned :
        (orders : Orders) (w : c.World) (machine : Machine) (last_applied : Option LinkConfigState)
        → cleanup_interfaces orders (link_config_name machine) last_applied ≡ []
        → plan_for c net i orders w machine last_applied not_found ≡ err finished
    unfolding plan_for plan_missing
    plan_for-cleaned orders w machine last_applied none_managed = ground arith

    plan_machine-cleaned :
        (orders : Orders) (w : c.World) (machine : Machine) (value : String)
        → IsVisit orders.state_names
        → c.decode_state (trim_space value) ≡ some (no_routes (link_config_name machine))
        → c.get_link_config machine.namespace (link_config_name machine) w ≡ not_found
        → plan_machine c net i orders w (annotated value machine) ≡ err finished
    unfolding plan_machine cleanup_interfaces
    plan_machine-cleaned orders w machine value fair decoded missing =
        let same = link_config_name-annotated value machine in
        let managed = cleanup_interfaces-no_routes orders (link_config_name machine) fair in
        let plans = plan_for-cleaned orders w (annotated value machine) in
        elim (extract-annotated machine value _ decoded) [
          | inl e ↦ ground (arith, plans none)
          | inr e ↦ ground (arith, plans (some (no_routes (link_config_name machine))))
        ]

    -- When the annotation of a machine reads back as the state without routes that a cleanup
    -- records for its LinkConfig, and that LinkConfig is missing still, a reconciliation finds
    -- nothing to do: it finishes without a call of the injector or a patch.
    pub reconcile_machine-cleaned :
        (orders : Orders) (w : c.World) (nodes : i.Nodes) (machine : Machine) (value : String)
        → IsVisit orders.state_names
        → c.decode_state (trim_space value) ≡ some (no_routes (link_config_name machine))
        → c.get_link_config machine.namespace (link_config_name machine) w ≡ not_found
        → reconcile_machine c net i orders w nodes (found (annotated value machine))
          ≡ (w, nodes, finished)
    unfolding reconcile_machine carry_out plan_machine
    reconcile_machine-cleaned orders w nodes machine value fair decoded missing =
        ground (arith, plan_machine-cleaned orders w machine value fair decoded missing)
