-- ===== src/Routes/Documents/Written.antt =====
-- talos_injector.go: reconcileManagedLinkRoutes, on a machine configuration that it has written.
use dockyards_talos.Base.{
  String, string_eq, ◌≡◌, refl, ap, ◌∙◌, arith, Bool, true, false, not, some, List, [], ◌∷◌, ◌==◌,
  Bool-cases, inl, inr,
}
use dockyards_talos.Base.Range.{Visit, IsVisit}
use dockyards_talos.Base.Result.{ok, or_fail, >>=-eq-ok, or_fail-eq-ok, ok->>=, if-err-eq-ok}
use dockyards_talos.Base.Text.{trim_space}
use dockyards_talos.Routes.Types.{
  Route, Netip, RouteConfig, parse_machine_config, build_machine_config, encode_machine_config,
}
use dockyards_talos.Routes.Desired.{Table, desired_route_configs_by_interface}
use dockyards_talos.Routes.Documents.{
  Machinery, Doc, reconcile_documents, write_documents, reconcile_managed_link_routes,
}
use dockyards_talos.Routes.Documents.Stable.{reconcile_documents-stable}
use dockyards_talos.Routes.Documents.Settled.{reconcile_documents-settles}

module _ (net : Netip) (m : Machinery net) where
  -- What was written reads back.
  abbrev pub ReadsBack : Type 0
  ReadsBack =
      (docs : List (Doc net m)) (text : String)
      → m.encode docs ≡ some text
      → m.parse text ≡ some docs

  -- The configuration is left as it is, in whatever order the table is visited.
  abbrev pub Leaves : Table net → String → Type 0
  Leaves desired config =
      (visit : Visit String (List (RouteConfig net)))
      → IsVisit visit
      → reconcile_managed_link_routes net m visit config desired ≡ ok (config, false)

  write_documents-false :
      (config text : String) (p : List (Doc net m) × Bool)
      → write_documents net m config p ≡ ok (text, false)
      → text ≡ config
  unfolding write_documents
  write_documents-false config text (docs, false) h = ground arith
  write_documents-false config text (docs, true) h =
      let (kept, h₁) = if-err-eq-ok (not (m.accepts docs)) build_machine_config _ h in
      let (t, e, h₂) = >>=-eq-ok (or_fail (m.encode docs) encode_machine_config) _ h₁ in
      let encoded = or_fail-eq-ok (m.encode docs) encode_machine_config e in
      elim (Bool-cases (trim_space t == trim_space config)) [
        | inl same ↦ ground arith
        | inr differ ↦ absurd (ground arith)
      ]

  write_documents-true :
      (config text : String) (p : List (Doc net m) × Bool)
      → write_documents net m config p ≡ ok (text, true)
      → (m.encode p.0 ≡ some text) × ((trim_space text == trim_space config) ≡ false)
  unfolding write_documents
  write_documents-true config text (docs, false) h = absurd (ground arith)
  write_documents-true config text (docs, true) h =
      let (kept, h₁) = if-err-eq-ok (not (m.accepts docs)) build_machine_config _ h in
      let (t, e, h₂) = >>=-eq-ok (or_fail (m.encode docs) encode_machine_config) _ h₁ in
      let encoded = or_fail-eq-ok (m.encode docs) encode_machine_config e in
      elim (Bool-cases (trim_space t == trim_space config)) [
        | inl same ↦ absurd (ground arith)
        | inr differ ↦ (ground arith, ground arith)
      ]

  write_documents-kept :
      (config : String) (p : List (Doc net m) × Bool)
      → p.1 ≡ false
      → write_documents net m config p ≡ ok (config, false)
  unfolding write_documents
  write_documents-kept config (docs, false) h = refl
  write_documents-kept config (docs, true) h = cc

  -- A configuration that was left as it is stays so in whatever order the table is visited.
  pub untouched :
      (desired' : Table net) (config text : String) (visit : Visit String (List (RouteConfig net)))
      → IsVisit visit
      → reconcile_managed_link_routes net m visit config desired' ≡ ok (text, false)
      → Leaves desired' config
  unfolding reconcile_managed_link_routes
  untouched [] config text visit fair h = λ visit' fair'. refl
  untouched (x ∷ xs) config text visit fair h =
      let (docs, e, h₁) = >>=-eq-ok (or_fail (m.parse config) parse_machine_config) _ h in
      λ visit' fair'.
        ok->>= (or_fail (m.parse config) parse_machine_config) _ docs e
        ∙ ap (write_documents net m config)
            (reconcile_documents-stable net m (x ∷ xs) visit' visit docs fair' fair)
        ∙ h₁
        ∙ ap (λ t. ok (t, false)) (write_documents-false config text _ h₁)

  module _ (managed : List String) (routes : List Route) (desired : Table net)
      (built : desired_route_configs_by_interface net managed routes ≡ ok desired) where
    -- A configuration that was written differs from the former one, and is left as it is.
    pub written :
        (desired' : Table net) (config text : String)
        (visit : Visit String (List (RouteConfig net)))
        → desired ≡ desired'
        → IsVisit visit
        → ReadsBack
        → reconcile_managed_link_routes net m visit config desired' ≡ ok (text, true)
        → ((trim_space text == trim_space config) ≡ false) × Leaves desired' text
    unfolding reconcile_managed_link_routes
    written [] config text visit same fair back h = absurd (ground arith)
    written (x ∷ xs) config text visit same fair back h =
        let (docs, e, h₁) = >>=-eq-ok (or_fail (m.parse config) parse_machine_config) _ h in
        let new = reconcile_documents net m visit (x ∷ xs) docs in
        let (encoded, differ) = write_documents-true config text new h₁ in
        (
          differ,
          λ visit' fair'.
              let settled : (reconcile_documents net m visit' (x ∷ xs) new.0).1 ≡ false =
                reconcile_documents-settles net m managed routes (x ∷ xs) visit visit' docs
                  (built ∙ ap ok same) fair fair' in
              ok->>= (or_fail (m.parse text) parse_machine_config) _ new.0
                (ap (λ o. or_fail o parse_machine_config) (back new.0 text encoded))
              ∙ write_documents-kept text (reconcile_documents net m visit' (x ∷ xs) new.0) settled,
        )
