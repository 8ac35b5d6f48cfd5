-- ===== src/Routes/Documents/Links.antt =====
-- talos_injector.go: the documents that reconcileManagedLinkRoutes builds.
use dockyards_talos.Base.{
  String, string_eq, ◌≡◌, refl, ap, ap₂, ◌∙◌, Bool, true, false, not, ◌&&◌, ◌||◌, Option, none,
  some, List, [], ◌∷◌, ◌++◌, ◌==◌, contains, map, arith, any, All, select, Option-cases, Bool-cases,
  inl, inr,
}
use dockyards_talos.Base.GoMap.{lookup}
use dockyards_talos.Base.Range.{Visit, IsVisit, holds}
use dockyards_talos.Base.Result.{ok}
use dockyards_talos.Base.Sort.{sort}
use dockyards_talos.Base.Text.{trim_space, leb_string}
use dockyards_talos.Routes.Types.{Route, Netip, RouteConfig}
use dockyards_talos.Routes.Desired.{Table, sort_route_configs, desired_route_configs_by_interface}
use dockyards_talos.Routes.Desired.Order.{sort_route_configs_idem}
use dockyards_talos.Routes.Desired.Shape.{desired-trimmed, desired-Distinct}
use dockyards_talos.Routes.Documents.{
  link, other, Machinery, Doc, update_link, update_document, update_documents, add_seen,
  missing_interfaces, new_link, reconcile_documents,
}
use dockyards_talos.Routes.Documents.Repeat.{
  has_some, IsTrimmed, is_desired, All-of_contains, contains-missing,
}

module _ {ℓ} {A : Type ℓ} where
  All-append {κ} : (P : A → Type κ) (xs ys : List A) → All P xs → All P ys → All P (xs ++ ys)
  All-append P [] ys h h' = h'
  All-append P (x ∷ xs) ys h h' = (h.0, All-append P xs ys h.1 h')

  select-append : (p : A → Bool) (xs ys : List A) → select p (xs ++ ys) ≡ select p xs ++ select p ys
  select-append p [] ys = refl
  select-append p (x ∷ xs) ys = ground (arith, select-append p xs ys)

  any-append : (p : A → Bool) (xs ys : List A) → any p (xs ++ ys) ≡ (any p xs || any p ys)
  any-append p [] ys = refl
  any-append p (x ∷ xs) ys = ground (arith, any-append p xs ys)

  append-nil : (xs : List A) → xs ++ [] ≡ xs
  append-nil [] = refl
  append-nil (x ∷ xs) = ap (◌∷◌ x) (append-nil xs)

module _ (net : Netip) (m : Machinery net) (desired : Table net) where
  -- The routes are those that are wanted, up to their order; an interface that is not in the table
  -- may have any.
  abbrev pub ServesAt : Option (List (RouteConfig net)) → List (RouteConfig net) → Type 0
  ServesAt none routes = Unit
  ServesAt (some wanted) routes = sort_route_configs net routes ≡ sort_route_configs net wanted

  abbrev pub Serves : Doc net m → Type 0
  Serves (other d) = Unit
  Serves (link lc) = ServesAt (lookup (trim_space lc.meta_name) desired) lc.link_routes

  abbrev pub is_link_of : String → Doc net m → Bool
  is_link_of k (other d) = false
  is_link_of k (link lc) = k == trim_space lc.meta_name

  abbrev is_managed : String → Bool
  is_managed k = holds (λ routes. true) (lookup k desired)

  abbrev pub is_unmanaged : Doc net m → Bool
  is_unmanaged (other d) = true
  is_unmanaged (link lc) = not (is_managed (trim_space lc.meta_name))

  update_document-Serves :
      (d : Doc net m)
      → Serves (update_document net m desired d).0
        × (is_unmanaged (update_document net m desired d).0 ≡ is_unmanaged d)
        × (is_unmanaged d ≡ true → (update_document net m desired d).0 ≡ d)
        × ((k : String) → is_link_of k (update_document net m desired d).0 ≡ is_link_of k d)
  unfolding update_document update_link
  update_document-Serves (other d) = (tt, refl, λ h. refl, λ k. refl)
  update_document-Serves (link lc) =
      elim (Option-cases (lookup (trim_space lc.meta_name) desired)) [
        | inl unmanaged ↦ rw unmanaged (rw unmanaged (tt, refl, λ h. refl, λ k. refl))
        | inr (routes, managed) ↦ rw managed (
            rw managed
              (sort_route_configs_idem net routes, refl, λ h. absurd (ground arith), λ k. refl))
      ]

  seen-update_document :
      (d : Doc net m) (seen : List String) (k : String)
      → contains (add_seen (update_document net m desired d).2 seen) k
        ≡ (is_link_of k d && is_managed k || contains seen k)
  unfolding update_document update_link
  seen-update_document (other d) seen k = refl
  seen-update_document (link lc) seen k =
      elim (Option-cases (lookup (trim_space lc.meta_name) desired)) [
        | inl unmanaged ↦ ground arith
        | inr (routes, managed) ↦ ground arith
      ]

  -- The documents that were there.
  update_documents-Serves :
      (docs : List (Doc net m)) → All Serves (update_documents net m desired docs).0
  unfolding update_documents
  update_documents-Serves [] = tt
  update_documents-Serves (d ∷ docs) = ((update_document-Serves d).0, update_documents-Serves docs)

  update_documents-unmanaged :
      (docs : List (Doc net m))
      → select is_unmanaged (update_documents net m desired docs).0 ≡ select is_unmanaged docs
  unfolding update_documents
  update_documents-unmanaged [] = refl
  update_documents-unmanaged (d ∷ docs) =
      let (serves, same, kept, links) = update_document-Serves d in
      let ih = update_documents-unmanaged docs in
      elim (Bool-cases (is_unmanaged d)) [
        | inl free ↦ let is = kept free in ground arith
        | inr taken ↦ ground arith
      ]

  update_documents-links :
      (docs : List (Doc net m)) (k : String)
      → any (is_link_of k) (update_documents net m desired docs).0 ≡ any (is_link_of k) docs
  unfolding update_documents
  update_documents-links [] k = refl
  update_documents-links (d ∷ docs) k =
      ap₂ ◌||◌ ((update_document-Serves d).3 k) (update_documents-links docs k)

  update_documents-seen :
      (docs : List (Doc net m)) (k : String)
      → contains (update_documents net m desired docs).2 k
        ≡ (any (is_link_of k) docs && is_managed k)
  unfolding update_documents
  update_documents-seen [] k = refl
  update_documents-seen (d ∷ docs) k = ground (
    arith,
    seen-update_document d (update_documents net m desired docs).2 k,
    update_documents-seen docs k,
  )

  -- The new ones.
  new_link-Serves :
      (k : String)
      → IsTrimmed net m desired
      → is_desired net m desired k ≡ true
      → Serves (new_link net m desired k)
        × (is_unmanaged (new_link net m desired k) ≡ false)
        × ((j : String) → is_link_of j (new_link net m desired k) ≡ (j == k))
  unfolding new_link
  new_link-Serves k trimmed wanted = elim (Option-cases (lookup k desired)) [
    | inl absent ↦ absurd (ground arith)
    | inr (routes, at) ↦ rw (trimmed k routes at) (rw at (refl, refl, λ j. refl))
  ]

  managed_of_desired : (k : String) → is_desired net m desired k ≡ true → is_managed k ≡ true
  managed_of_desired k wanted = elim (Option-cases (lookup k desired)) [
    | inl absent ↦ absurd (ground arith)
    | inr (routes, at) ↦ ground arith
  ]

  new_links-Serve :
      (ks : List String)
      → IsTrimmed net m desired
      → All (λ k. is_desired net m desired k ≡ true) ks
      → All Serves (map (new_link net m desired) ks)
        × (select is_unmanaged (map (new_link net m desired) ks) ≡ [])
        × ((j : String) → any (is_link_of j) (map (new_link net m desired) ks) ≡ contains ks j)
  new_links-Serve [] trimmed wanted = (tt, refl, λ j. refl)
  new_links-Serve (k ∷ ks) trimmed wanted =
      let (serves, taken, links) = new_link-Serves k trimmed wanted.0 in
      let (serve, free, links') = new_links-Serve ks trimmed wanted.1 in
      ((serves, serve), ground arith, λ j. ap₂ ◌||◌ (links j) (links' j))

module _ (net : Netip) (m : Machinery net) where
  -- The documents that are built from the desired routes of the managed interfaces: each link
  -- document of an interface of the table has the interface's routes, up to their order; the
  -- documents of other kinds and of other interfaces are as they were, in their order; and an
  -- interface has a link document exactly when it had one or has desired routes.
  pub reconcile_documents-Serves :
      (managed : List String) (routes : List Route) (desired : Table net)
      (visit : Visit String (List (RouteConfig net))) (docs : List (Doc net m))
      → desired_route_configs_by_interface net managed routes ≡ ok desired
      → IsVisit visit
      → All (Serves net m desired) (reconcile_documents net m visit desired docs).0
        × (select (is_unmanaged net m desired) (reconcile_documents net m visit desired docs).0
            ≡ select (is_unmanaged net m desired) docs)
        × ((k : String)
            → any (is_link_of net m desired k) (reconcile_documents net m visit desired docs).0
              ≡ (any (is_link_of net m desired k) docs || holds (has_some net) (lookup k desired)))
  unfolding reconcile_documents
  reconcile_documents-Serves managed routes desired visit docs built fair =
      let updated = update_documents net m desired docs in
      let added = sort leb_string (missing_interfaces net updated.2 (visit desired)) in
      let links = map (new_link net m desired) added in
      let distinct = desired-Distinct net managed routes desired built in
      let missing = contains-missing net m desired distinct visit updated.2 in
      let (serve, free, link_of) =
        new_links-Serve net m desired added (desired-trimmed net managed routes desired built)
          (All-of_contains net m desired added (λ k at. ground (arith, missing k fair))) in
      (
        All-append (Serves net m desired) updated.0 links
            (update_documents-Serves net m desired docs) serve,
        select-append (is_unmanaged net m desired) updated.0 links
            ∙ ap₂ ◌++◌ (update_documents-unmanaged net m desired docs) free
            ∙ append-nil _,
        λ k.
            any-append (is_link_of net m desired k) updated.0 links
            ∙ ap₂ ◌||◌ (update_documents-links net m desired docs k) (link_of k)
            ∙ ground (
              arith,
              missing k fair,
              update_documents-seen net m desired docs k,
              managed_of_desired net m desired k,
            ),
      )
