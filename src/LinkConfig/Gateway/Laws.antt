-- ===== src/LinkConfig/Gateway/Laws.antt =====
-- linkconfig_controller.go: deriveGatewayFromVMPod, findVMPodForMachine and
-- selectGatewayFromOVNPodNetworks.
use dockyards_talos.Base.{
  String, string_eq, ◌≡◌, refl, sym, ◌∙◌, Bool, true, false, not, ◌&&◌, Option, none, some, List,
  [], ◌∷◌, ◌==◌, Eq, if◌then◌else◌, arith, any, Bool-cases, inl, inr, Option-cases,
}
use dockyards_talos.Base.GoMap.{GoMap}
use dockyards_talos.Base.Range.{Visit, IsVisit, any-perm}
use dockyards_talos.Base.Result.{Result, ok, err, guard, or_fail, >>=-eq-ok, Result-cases}
use dockyards_talos.Base.Sort.{sort, insert_sorted}
use dockyards_talos.Base.Text.{trim_space_idem}
use dockyards_talos.Routes.Types.{Netip}
use dockyards_talos.LinkConfig.Types.{Machine, Pod, read}
use dockyards_talos.LinkConfig.Desired.{is_blank}
use dockyards_talos.LinkConfig.Gateway.{
  OvnPodNetwork, GatewayError, no_network_matched, no_pod, ovn_pod_networks_key, annotation_missing,
  first_gateway, gateway_from_ovn_network, machine_internal_ip, find_vm_pod_for_machine, matches,
  first_match, select_gateway, select_gateway_from_ovn_pod_networks, derive_gateway_from_vm_pod,
  has_networks, stays_before, head_pod, first_pod,
}

first_gateway-filled :
    (gws : List String) (g : String) → first_gateway gws ≡ ok g → is_blank g ≡ false
unfolding first_gateway
first_gateway-filled [] g h = cc
first_gateway-filled (gw ∷ rest) g h =
    ground (arith, first_gateway-filled rest g, trim_space_idem gw)

gateway_from_ovn_network-filled :
    (n : OvnPodNetwork) (g : String) → gateway_from_ovn_network n ≡ ok g → is_blank g ≡ false
unfolding gateway_from_ovn_network
gateway_from_ovn_network-filled n g h =
    ground (arith, first_gateway-filled n.gateway_ips g, trim_space_idem n.gateway_ip)

-- The first of the pods that has the annotation.
abbrev pub first_annotated : List Pod → Option Pod
first_annotated [] = none
first_annotated (p ∷ ps) = if has_networks p then some p else first_annotated ps

abbrev pub or_first : Pod → Option Pod → Pod
or_first p none = p
or_first p (some q) = q

abbrev pub preferred : List Pod → Result GatewayError Pod
preferred [] = err no_pod
preferred (p ∷ ps) = ok (or_first p (first_annotated (p ∷ ps)))

head-insert_sorted :
    (p q : Pod) (ps : List Pod)
    → head_pod ps ≡ ok q
    → head_pod (insert_sorted stays_before p ps) ≡ ok (if stays_before p q then p else q)
unfolding head_pod insert_sorted
head-insert_sorted p q [] h = cc
head-insert_sorted p q (x ∷ ps) h = elim (Bool-cases (stays_before p x)) [
  | inl here ↦ ground arith
  | inr later ↦ ground arith
]

annotated_lem : (ps : List Pod) (q : Pod) → first_annotated ps ≡ some q → has_networks q ≡ true
annotated_lem [] q h = cc
annotated_lem (p ∷ ps) q h = ground (arith, annotated_lem ps q)

chosen :
    (p q : Pod) (ps : List Pod)
    → ok (
        if stays_before p (or_first q (first_annotated (q ∷ ps)))
        then p
        else or_first q (first_annotated (q ∷ ps)))
      ≡ preferred (p ∷ q ∷ ps)
chosen p q ps = elim (Option-cases (first_annotated ps)) [
  | inl e ↦ ground arith
  | inr (best, e) ↦ ground (arith, annotated_lem ps best)
]

pub first_pod-preferred : (pods : List Pod) → first_pod pods ≡ preferred pods
unfolding first_pod head_pod sort insert_sorted
first_pod-preferred [] = refl
first_pod-preferred (p ∷ []) = ground arith
first_pod-preferred (p ∷ q ∷ ps) =
    let best = or_first q (first_annotated (q ∷ ps)) in
    head-insert_sorted p best (sort stays_before (q ∷ ps)) (first_pod-preferred (q ∷ ps))
    ∙ chosen p q ps

abbrev pub is_result : String → Result GatewayError String → Bool
is_result g (ok v) = v == g
is_result g (err e) = false

module _ (net : Netip) ⦃e : Eq net.Addr⦄ where
  -- A network that has the address of the machine, and that gives another result than `g`.
  abbrev pub is_conflict : net.Addr → String → (String × OvnPodNetwork) → Bool
  is_conflict ip g entry =
      matches net ip entry.1 && not (is_result g (gateway_from_ovn_network entry.1))

  abbrev pub is_match : net.Addr → (String × OvnPodNetwork) → Bool
  is_match ip entry = matches net ip entry.1

  first_match-agrees :
      (ip : net.Addr) (g : String) (entries : List (String × OvnPodNetwork))
      → any (is_conflict ip g) entries ≡ false
      → first_match net ip entries
        ≡ (if any (is_match ip) entries then ok g else err no_network_matched)
  unfolding first_match
  first_match-agrees ip g [] h = refl
  first_match-agrees ip g ((name, n) ∷ rest) h = elim (Result-cases (gateway_from_ovn_network n)) [
    | inl (v, e) ↦ ground (arith, first_match-agrees ip g rest)
    | inr (x, e) ↦ ground (arith, first_match-agrees ip g rest)
  ]

  pub select_gateway-stable :
      (visit : Visit String OvnPodNetwork) (ip : net.Addr) (g : String) (n : String × OvnPodNetwork)
      (nets : GoMap String OvnPodNetwork)
      → IsVisit visit
      → any (is_conflict ip g) (n ∷ nets) ≡ false
      → select_gateway net visit ip (n ∷ nets)
        ≡ (if any (is_match ip) (n ∷ nets) then ok g else err no_network_matched)
  unfolding select_gateway
  select_gateway-stable visit ip g n nets fair h =
      rw (sym (any-perm (is_match ip) (fair (n ∷ nets)))) (
        first_match-agrees ip g (visit (n ∷ nets))
          (any-perm (is_conflict ip g) (fair (n ∷ nets)) ∙ h))

  first_match-filled :
      (ip : net.Addr) (g : String) (entries : List (String × OvnPodNetwork))
      → first_match net ip entries ≡ ok g
      → is_blank g ≡ false
  unfolding first_match
  first_match-filled ip g [] h = cc
  first_match-filled ip g ((name, n) ∷ rest) h =
      ground (arith, first_match-filled ip g rest, gateway_from_ovn_network-filled n g)

  select_gateway-filled :
      (visit : Visit String OvnPodNetwork) (ip : net.Addr) (g : String)
      (nets : GoMap String OvnPodNetwork)
      → select_gateway net visit ip nets ≡ ok g
      → is_blank g ≡ false
  unfolding select_gateway
  select_gateway-filled visit ip g [] h = cc
  select_gateway-filled visit ip g (n ∷ nets) h = first_match-filled ip g (visit (n ∷ nets)) h

  -- A gateway that was derived is never blank.
  pub derive_gateway_from_vm_pod-filled :
      (visit : Visit String OvnPodNetwork) (decode : String → Option (GoMap String OvnPodNetwork))
      (list_pods : String → String → Option (List Pod)) (machine : Machine) (g : String)
      → derive_gateway_from_vm_pod net visit decode list_pods machine ≡ ok g
      → is_blank g ≡ false
  unfolding derive_gateway_from_vm_pod select_gateway_from_ovn_pod_networks
  derive_gateway_from_vm_pod-filled visit decode list_pods machine g h =
      let (ip, e₁, h₁) = >>=-eq-ok (machine_internal_ip net machine) _ h in
      let (pod, e₂, h₂) = >>=-eq-ok (find_vm_pod_for_machine list_pods machine) _ h₁ in
      let raw = read ovn_pod_networks_key pod.annotations in
      let (u, e₃, h₃) = >>=-eq-ok (guard (not (is_blank raw)) annotation_missing) _ h₂ in
      let (nets, e₄, h₄) = >>=-eq-ok (or_fail (decode raw) _) _ h₃ in
      select_gateway-filled visit ip g nets h₄
