-- ===== src/Tests/Injected.antt =====
-- Applications of the theorems on Reconcile with the Talos injector
-- (controllers/linkconfig_controller.go and internal/routes/talos_injector.go).
use dockyards_talos.Tests.Data.{texts}
use dockyards_talos.Tests.Keeper.{one_config, one_config-ReadsBack, encoded}
use dockyards_talos.Tests.Controller.{machine, cluster, orders, plan, filled_routes, filled_default}
use dockyards_talos.Tests.Nodes.{keeper, run, run-Ends}
use dockyards_talos.Base.{
  some, none, false, arith, ap, ap₂, String, string_eq, ◌≡◌, refl, true, Bool,
}
use dockyards_talos.Base.GoMap.{lookup, insert}
use dockyards_talos.Base.Range.{stored-IsVisit}
use dockyards_talos.Base.Result.{ok}
use dockyards_talos.Base.Sort.{sort, insert_sorted}
use dockyards_talos.Base.Time.{◌+ℤ◌}
use dockyards_talos.Base.Text.{trim_space, trim_left, trim_right, leb_string}
use dockyards_talos.Base.NameSet.{sorted_names, add_name, add_names}
use dockyards_talos.LinkConfig.Types.{link_config_name}
use dockyards_talos.LinkConfig.Desired.{
  static_route, static_routes_from, default_route_of, extract_desired_routes, any_blank_gateway,
  needs_gateway, fill_gateways,
}
use dockyards_talos.LinkConfig.Interfaces.{
  add_default, managed_interfaces_from_state, insert_all, merge_managed_interfaces,
}
use dockyards_talos.LinkConfig.Gateway.{
  select_gateway, first_match, head_pod, first_pod, matches, has_address, any_address,
  parse_first_addr_from_prefix_string, gateway_from_ovn_network, first_gateway, internal_address,
  first_internal, machine_internal_ip, find_vm_pod_for_machine,
  select_gateway_from_ovn_pod_networks, derive_gateway_from_vm_pod,
}
use dockyards_talos.LinkConfig.Cluster.{
  found, finished, first_usable, Injector, extract_node_from_machine,
  extract_talos_config_from_cluster_secret, extract_link_config_state_from_machine,
  persist_reconciled_link_config_state,
}
use dockyards_talos.LinkConfig.Reconcile.{
  complete_routes, plan_found, plan_for, plan_machine, carry_out, after_ensure, persisted,
  reconcile_machine,
}
use dockyards_talos.LinkConfig.Injected.{
  talos_injector, set_node, error_of-returned, reconcile_machine-AreShown,
}
use dockyards_talos.LinkConfig.Types.{Machine, read, link_config_state_key}
use dockyards_talos.LinkConfig.Cluster.{annotated}
use dockyards_talos.LinkConfig.Injected.Again.{reconcile_machine-again}
use dockyards_talos.Routes.Reconcile.Faithful.{IsFaithful}
use dockyards_talos.Routes.Reconcile.Shown.{AreShown}
use dockyards_talos.Routes.Interfaces.{normalize_managed_interfaces}
use dockyards_talos.Routes.Desired.{
  desired_route_configs_by_interface, seed, add_routes, route_config, destination_of, sort_all,
  sort_route_configs, same_route_configs,
}
use dockyards_talos.Routes.Documents.{
  reconcile_documents, update_link, update_document, update_documents, missing_interfaces,
  if_routes, new_link, write_documents, reconcile_managed_link_routes,
}
use dockyards_talos.Routes.Applied.{
  returned, missing_ids, after_round, poll, wait_for_routes_applied, want_ids,
  expected_machine_config_route_spec, expected_destination, type_of, initial_family,
}
use dockyards_talos.Routes.Reconcile.{
  apply_machine_config_to, apply_if_changed, apply_and_wait, ensure_managed, ensure_route_set,
  extract_machine_config_body, read_machine_config, all_routes, ensure_if_managed, ensure_body,
  ensure_routes,
}

abbrev injector : Injector
injector = talos_injector texts keeper one_config run run-Ends

planned : plan_machine cluster texts injector orders true machine ≡ ok plan
unfolding plan_machine extract_link_config_state_from_machine plan_for plan_found
    extract_desired_routes static_routes_from static_route default_route_of
    extract_node_from_machine first_usable extract_talos_config_from_cluster_secret complete_routes
    needs_gateway any_blank_gateway fill_gateways merge_managed_interfaces
    managed_interfaces_from_state insert_all add_default sorted_names add_name add_names leb_string
    derive_gateway_from_vm_pod machine_internal_ip first_internal internal_address
    find_vm_pod_for_machine first_pod head_pod sort insert_sorted
    select_gateway_from_ovn_pod_networks select_gateway first_match matches has_address any_address
    parse_first_addr_from_prefix_string gateway_from_ovn_network first_gateway trim_space trim_left
    trim_right string_eq lookup insert link_config_name
planned = refl

abbrev nodes : String → String
nodes address = "machine"

routes_applied :
    ensure_routes texts keeper one_config run "machine" plan.node "talos" filled_routes
      filled_default plan.managed_interfaces
    ≡ ("routed", returned none)
unfolding ensure_routes ensure_body ensure_if_managed ensure_route_set ensure_managed
    read_machine_config extract_machine_config_body apply_and_wait apply_if_changed
    apply_machine_config_to normalize_managed_interfaces desired_route_configs_by_interface seed
    add_routes route_config destination_of sort_all sort_route_configs reconcile_managed_link_routes
    write_documents reconcile_documents update_documents update_document update_link
    same_route_configs missing_interfaces if_routes new_link sorted_names add_names sort
    insert_sorted insert lookup leb_string trim_space trim_left trim_right string_eq
    wait_for_routes_applied add_name want_ids expected_machine_config_route_spec
    expected_destination type_of initial_family poll missing_ids after_round ◌+ℤ◌
routes_applied = rw encoded refl

injected :
    injector.ensure_routes plan.node "talos" filled_routes filled_default plan.managed_interfaces
      nodes
    ≡ (set_node texts keeper one_config "10.0.0.5" "routed" nodes, none)
injected =
    ap₂ (λ a b. (a, b))
      (ap (λ p. set_node texts keeper one_config "10.0.0.5" p.0 nodes) routes_applied)
      (error_of-returned _ _ (ap (λ p. p.1) routes_applied))

applied :
    carry_out cluster texts injector true nodes machine (ok plan)
    ≡ (true, set_node texts keeper one_config "10.0.0.5" "routed" nodes, finished)
unfolding carry_out after_ensure persisted persist_reconciled_link_config_state string_eq
applied = ap (after_ensure cluster texts injector true machine plan) injected

finishes :
    reconcile_machine cluster texts injector orders true nodes (found machine)
    ≡ (true, set_node texts keeper one_config "10.0.0.5" "routed" nodes, finished)
unfolding reconcile_machine
finishes = rw planned applied

reconcile_machine-AreShown_example :
    AreShown texts keeper
      (all_routes texts keeper one_config filled_routes filled_default)
      run.rounds
    × ((updated : Bool) × (persist_reconciled_link_config_state cluster true machine plan.payload
          ≡ (true, ok updated)))
reconcile_machine-AreShown_example =
    reconcile_machine-AreShown texts keeper one_config cluster run run-Ends orders true true nodes
      (set_node texts keeper one_config "10.0.0.5" "routed" nodes) machine plan stored-IsVisit
      planned finishes

keeper-IsFaithful : IsFaithful texts keeper one_config
unfolding extract_machine_config_body
keeper-IsFaithful = record {
  reads_back = one_config-ReadsBack;
  keeps = λ text w w' applied.
      (record { has_annotations = false; marshalled = some text }, ground arith, refl);
  stays_connected = λ endpoint text w w' applied. refl;
}

abbrev recorded_machine : Machine
recorded_machine = annotated "default" machine

planned_again : plan_machine cluster texts injector orders true recorded_machine ≡ ok plan
unfolding plan_machine extract_link_config_state_from_machine plan_for plan_found
    extract_desired_routes static_routes_from static_route default_route_of
    extract_node_from_machine first_usable extract_talos_config_from_cluster_secret complete_routes
    needs_gateway any_blank_gateway fill_gateways merge_managed_interfaces
    managed_interfaces_from_state insert_all add_default sorted_names add_name add_names leb_string
    derive_gateway_from_vm_pod machine_internal_ip first_internal internal_address
    find_vm_pod_for_machine first_pod head_pod sort insert_sorted
    select_gateway_from_ovn_pod_networks select_gateway first_match matches has_address any_address
    parse_first_addr_from_prefix_string gateway_from_ovn_network first_gateway trim_space trim_left
    trim_right string_eq lookup insert link_config_name
planned_again = refl

recorded : read link_config_state_key recorded_machine.annotations ≡ "default"
unfolding lookup insert string_eq
recorded = refl

abbrev routed_nodes : String → String
routed_nodes = set_node texts keeper one_config "10.0.0.5" "routed" nodes

reconcile_machine-again_example :
    ((reconcile_machine cluster texts injector orders true routed_nodes (found recorded_machine)).0
      ≡ true)
    × ((reconcile_machine cluster texts injector orders true routed_nodes
          (found recorded_machine)).1
        ≡ routed_nodes)
reconcile_machine-again_example =
    reconcile_machine-again texts keeper one_config cluster run run run-Ends run-Ends orders orders
      true true true nodes routed_nodes machine recorded_machine plan "default" keeper-IsFaithful
      stored-IsVisit stored-IsVisit stored-IsVisit stored-IsVisit planned finishes refl recorded
      planned_again
