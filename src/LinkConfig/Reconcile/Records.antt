-- ===== src/LinkConfig/Reconcile/Records.antt =====
-- linkconfig_controller.go: what Reconcile changes in the cluster.
use dockyards_talos.Base.{
  String, string_eq, ◌⊎◌, ◌≡◌, refl, Bool, true, false, Option, none, some, ◌==◌, Eq, if◌then◌else◌,
  Bool-cases, inl, inr,
}
use dockyards_talos.Base.Result.{Result, ok, err}
use dockyards_talos.Routes.Types.{Netip}
use dockyards_talos.Routes.Types
use dockyards_talos.LinkConfig.Types.{Machine, LinkConfigState, read, link_config_state_key}
use dockyards_talos.LinkConfig.Cluster.{
  Lookup, found, not_found, failed, Cluster, Injector, Reply, ReconcileError, patch_failed,
  patch_answer, persist_value, persist_reconciled_link_config_state, annotated,
}
use dockyards_talos.LinkConfig.Reconcile.{
  Plan, Orders, plan_machine, persisted, after_ensure, carry_out, reconcile_machine,
}

module _ (c : Cluster) (net : Netip) ⦃e : Eq net.Addr⦄ (i : Injector) where
  -- The annotation of the machine is made that of the payload by one patch, with the cluster and
  -- the error that follow.
  abbrev pub IsPatched :
      c.World → Machine → LinkConfigState → c.World → Option ReconcileError → Type 0
  IsPatched w machine payload w' error =
      (value : String) × (c.encode_state payload ≡ some value)
      × ((read link_config_state_key machine.annotations == value) ≡ false)
      × (w' ≡ (c.patch (annotated value machine) machine w).0)
      × (error
          ≡ (if (c.patch (annotated value machine) machine w).1 then none else some patch_failed))

  abbrev IsChanged : c.World → Machine → LinkConfigState → c.World × i.Nodes × Reply → Type 0
  IsChanged w machine payload r = (r.0 ≡ w) ⊎ IsPatched w machine payload r.0 r.2.error

  -- The injector has carried out a plan for the machine without an error, and its state is patched
  -- in.
  abbrev pub Records :
      Orders → c.World → i.Nodes → Lookup Machine → c.World → Option ReconcileError → Type 0
  Records orders w nodes answer w' error =
      (machine : Machine) × (plan : Plan) × (answer ≡ found machine)
      × (plan_machine c net i orders w machine ≡ ok plan)
      × ((i.ensure_routes plan.node plan.talos_config plan.static_routes plan.default_route
            plan.managed_interfaces nodes).1
          ≡ none)
      × IsPatched w machine plan.payload w' error

  patch_answer-IsChanged :
      (w : c.World) (nodes : i.Nodes) (p : c.World × Bool)
      → ((persisted c net i nodes (patch_answer c p)).0 ≡ p.0)
        × ((persisted c net i nodes (patch_answer c p)).2.error
            ≡ (if p.1 then none else some patch_failed))
  unfolding persisted
  patch_answer-IsChanged w nodes (w', true) = (refl, refl)
  patch_answer-IsChanged w nodes (w', false) = (refl, refl)

  persist_value-IsChanged :
      (w : c.World) (nodes : i.Nodes) (machine : Machine) (payload : LinkConfigState)
      (value : Option String)
      → c.encode_state payload ≡ value
      → IsChanged w machine payload (persisted c net i nodes (persist_value c w machine value))
  unfolding persisted
  persist_value-IsChanged w nodes machine payload none encoded = inl refl
  persist_value-IsChanged w nodes machine payload (some value) encoded =
      elim (Bool-cases (read link_config_state_key machine.annotations == value)) [
        | inl same ↦ inl (rw same refl)
        | inr differs ↦
            let (cluster, error) =
              patch_answer-IsChanged w nodes (c.patch (annotated value machine) machine w) in
            inr (value, encoded, differs, rw differs cluster, rw differs error)
      ]

  after_ensure-IsChanged :
      (w : c.World) (machine : Machine) (plan : Plan) (r : i.Nodes × Option Types.Error)
      → ((after_ensure c net i w machine plan r).0 ≡ w)
        ⊎ (r.1 ≡ none)
          × IsPatched w machine plan.payload
              (after_ensure c net i w machine plan r).0
              (after_ensure c net i w machine plan r).2.error
  unfolding after_ensure persist_reconciled_link_config_state
  after_ensure-IsChanged w machine plan (nodes, some x) = inl refl
  after_ensure-IsChanged w machine plan (nodes, none) =
      elim (persist_value-IsChanged w nodes machine plan.payload _ refl) [
        | inl kept ↦ inl kept
        | inr patched ↦ inr (refl, patched)
      ]

  planned-IsChanged :
      (orders : Orders) (w : c.World) (nodes : i.Nodes) (machine : Machine)
      (result : Result Reply Plan)
      → plan_machine c net i orders w machine ≡ result
      → ((carry_out c net i w nodes machine result).0 ≡ w)
        ⊎ Records orders w nodes
            (found machine)
            (carry_out c net i w nodes machine result).0
            (carry_out c net i w nodes machine result).2.error
  unfolding carry_out
  planned-IsChanged orders w nodes machine (err reply) planned = inl refl
  planned-IsChanged orders w nodes machine (ok plan) planned =
      elim (after_ensure-IsChanged w machine plan _) [
        | inl kept ↦ inl kept
        | inr (done, patched) ↦ inr (machine, plan, refl, planned, done, patched)
      ]

  -- A reconciliation leaves the cluster as it is, or it had a plan for its machine that the injector
  -- has carried out without an error, the state of the plan is written as another text than the
  -- annotation has, and what has changed in the cluster is one patch of the annotation to that text;
  -- then it reports an error exactly when the patch does.
  pub reconcile_machine-Records :
      (orders : Orders) (w : c.World) (nodes : i.Nodes) (answer : Lookup Machine)
      → ((reconcile_machine c net i orders w nodes answer).0 ≡ w)
        ⊎ Records orders w nodes answer
            (reconcile_machine c net i orders w nodes answer).0
            (reconcile_machine c net i orders w nodes answer).2.error
  unfolding reconcile_machine
  reconcile_machine-Records orders w nodes (found machine) =
      planned-IsChanged orders w nodes machine _ refl
  reconcile_machine-Records orders w nodes not_found = inl refl
  reconcile_machine-Records orders w nodes failed = inl refl
