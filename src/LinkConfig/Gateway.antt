-- ===== src/LinkConfig/Gateway.antt =====
-- linkconfig_controller.go: deriveGatewayFromVMPod, machineInternalIP, findVMPodForMachine,
-- selectGatewayFromOVNPodNetworks, gatewayFromOVNNetwork and parseFirstAddrFromPrefixString.
pub mod Laws
use dockyards_talos.Base.{
  String, Bool, true, false, not, ◌&&◌, Option, none, some, List, [], ◌∷◌, ◌==◌, string_eq, Eq,
  if◌then◌else◌,
}
use dockyards_talos.Base.GoMap.{GoMap}
use dockyards_talos.Base.Range.{Visit}
use dockyards_talos.Base.Result.{Result, ok, err, ◌>>=◌, ◌>>◌, guard, or_fail}
use dockyards_talos.Base.Sort.{sort}
use dockyards_talos.Base.Text.{trim_space}
use dockyards_talos.Routes.Types.{Netip}
use dockyards_talos.LinkConfig.Types.{
  AddressType, internal_ip, external_ip, other_type, MachineAddress, Machine, Pod, read,
}
use dockyards_talos.LinkConfig.Desired.{is_blank}

pub record OvnPodNetwork : Type 0 where
  pub ip_address : String
  pub ip_addresses : List String
  pub gateway_ip : String
  pub gateway_ips : List String

pub data GatewayError : Type 0 where
  no_internal_ip no_infrastructure_name no_pod : GatewayError
  list_pods_failed annotation_missing annotation_unparsed no_networks : GatewayError
  no_gateway_in_network no_network_matched : GatewayError

abbrev pub ovn_pod_networks_key : String
ovn_pod_networks_key = "k8s.ovn.org/pod-networks"

-- The first gateway of the list that is not blank.
unfoldable pub first_gateway : List String → Result GatewayError String
first_gateway [] = err no_gateway_in_network
first_gateway (gw ∷ rest) =
    let later = first_gateway rest in if is_blank gw then later else ok (trim_space gw)

unfoldable pub gateway_from_ovn_network : OvnPodNetwork → Result GatewayError String
gateway_from_ovn_network n =
    if is_blank n.gateway_ip then first_gateway n.gateway_ips else ok (trim_space n.gateway_ip)

abbrev pub has_networks : Pod → Bool
has_networks pod = not (is_blank (read ovn_pod_networks_key pod.annotations))

-- `sort.SliceStable` by: the first pod has the annotation and the second has not.
abbrev pub stays_before : Pod → Pod → Bool
stays_before a b = not (has_networks b && not (has_networks a))

-- `len(pods.Items) > 0`, and the first of the sorted pods.
unfoldable pub head_pod : List Pod → Result GatewayError Pod
head_pod [] = err no_pod
head_pod (p ∷ ps) = ok p

unfoldable pub first_pod : List Pod → Result GatewayError Pod
first_pod pods = head_pod (sort stays_before pods)

-- `list_pods` is the request for the pods with the label of the machine's infrastructure;
-- `none` is its failure.
unfoldable pub find_vm_pod_for_machine :
    (String → String → Option (List Pod)) → Machine → Result GatewayError Pod
find_vm_pod_for_machine list_pods machine =
    if machine.infrastructure_name == "" then err no_infrastructure_name else do
      pods ← or_fail (list_pods machine.namespace machine.infrastructure_name) list_pods_failed
      first_pod pods

module _ (net : Netip) where
  -- The first machine address of the internal type that parses.
  unfoldable pub internal_address : MachineAddress → Option net.Addr
  internal_address a = elim a.address_type [
    | internal_ip ↦ net.parse_addr a.address
    | external_ip ↦ none
    | other_type ↦ none
  ]

  unfoldable pub first_internal : List MachineAddress → Result GatewayError net.Addr
  first_internal [] = err no_internal_ip
  first_internal (a ∷ rest) =
      let later = first_internal rest in
      elim (internal_address a) [ none ↦ later | some ip ↦ ok ip ]

  unfoldable pub machine_internal_ip : Machine → Result GatewayError net.Addr
  machine_internal_ip machine = first_internal machine.addresses

  unfoldable pub parse_first_addr_from_prefix_string : String → Option net.Addr
  parse_first_addr_from_prefix_string s =
      let text = trim_space s in
      if text == "" then none else elim (net.parse_prefix text) [
        | some p ↦ some (net.prefix_addr p)
        | none ↦ net.parse_addr text
      ]

  module _ ⦃e : Eq net.Addr⦄ where
    abbrev pub equals : Option net.Addr → net.Addr → Bool
    equals none ip = false
    equals (some a) ip = a == ip

    -- `if ip, ok := parseFirstAddrFromPrefixString(s); ok && ip == machineIP`
    unfoldable pub has_address : net.Addr → String → Bool
    has_address ip s = equals (parse_first_addr_from_prefix_string s) ip

    unfoldable pub any_address : net.Addr → List String → Bool
    any_address ip [] = false
    any_address ip (s ∷ rest) =
        let later = any_address ip rest in if has_address ip s then true else later

    -- The tests of one round of the loop over the networks.
    unfoldable pub matches : net.Addr → OvnPodNetwork → Bool
    matches ip n = if has_address ip n.ip_address then true else any_address ip n.ip_addresses

    -- The loop over the networks, in the order in which it visits them.
    unfoldable pub first_match :
        net.Addr → List (String × OvnPodNetwork) → Result GatewayError String
    first_match ip [] = err no_network_matched
    first_match ip ((name, n) ∷ rest) =
        let later = first_match ip rest in
        if matches ip n then gateway_from_ovn_network n else later

    unfoldable pub select_gateway :
        Visit String OvnPodNetwork
        → net.Addr
        → GoMap String OvnPodNetwork
        → Result GatewayError String
    select_gateway visit ip [] = err no_networks
    select_gateway visit ip (n ∷ nets) = first_match ip (visit (n ∷ nets))

    -- The annotation is decoded by `decode`, the package encoding/json.
    unfoldable pub select_gateway_from_ovn_pod_networks :
        Visit String OvnPodNetwork
        → (String → Option (GoMap String OvnPodNetwork))
        → String
        → net.Addr
        → Result GatewayError String
    select_gateway_from_ovn_pod_networks visit decode raw ip = do
      nets ← or_fail (decode raw) annotation_unparsed
      select_gateway visit ip nets

    unfoldable pub derive_gateway_from_vm_pod :
        Visit String OvnPodNetwork
        → (String → Option (GoMap String OvnPodNetwork))
        → (String → String → Option (List Pod))
        → Machine
        → Result GatewayError String
    derive_gateway_from_vm_pod visit decode list_pods machine = do
      ip ← machine_internal_ip machine
      pod ← find_vm_pod_for_machine list_pods machine
      let raw = read ovn_pod_networks_key pod.annotations
      guard (not (is_blank raw)) annotation_missing
      select_gateway_from_ovn_pod_networks visit decode raw ip
