-- ===== src/Routes/Documents/Repeat.antt =====
-- talos_injector.go: reconcileManagedLinkRoutes, on documents that it has written.
use dockyards_talos.Base.{
  String, string_eq, ◌≡◌, refl, ap, ap₂, ◌∙◌, Bool, true, false, not, ◌&&◌, ◌||◌, Option, none,
  some, List, [], ◌∷◌, ◌++◌, ◌==◌, contains, map, arith, any, All, Option-cases, inl, inr,
}
use dockyards_talos.Base.GoMap.{lookup, Distinct}
use dockyards_talos.Base.Range.{Visit, IsVisit, holds, any-visit}
use dockyards_talos.Base.Sets.{contains-perm, contains-append}
use dockyards_talos.Base.Sort.{sort, sort-perm}
use dockyards_talos.Base.Text.{trim_space, leb_string}
use dockyards_talos.Routes.Types.{Netip, RouteConfig}
use dockyards_talos.Routes.Desired.{Table, sort_route_configs}
use dockyards_talos.Routes.Desired.Order.{sort_route_configs_idem, same_route_configs_refl}
use dockyards_talos.Routes.Documents.{
  link, other, Machinery, Doc, update_link, update_document, update_documents, add_seen, if_routes,
  missing_interfaces, new_link, is_nonempty, reconcile_documents,
}

empty_of_contains :
    (l : List String) → ((y : String) → contains l y ≡ false) → is_nonempty l ≡ false
empty_of_contains [] h = refl
empty_of_contains (x ∷ l) h = absurd (ground (arith, h x))

module _ (net : Netip) where
  abbrev pub has_some : List (RouteConfig net) → Bool
  has_some [] = false
  has_some (r ∷ rs) = true

  contains-missing_interfaces :
      (seen : List String) (es : List (String × List (RouteConfig net))) (y : String)
      → contains (missing_interfaces net seen es) y
        ≡ (not (contains seen y) && any (λ e. y == e.0 && has_some e.1) es)
  unfolding missing_interfaces if_routes
  contains-missing_interfaces seen [] y = ground arith
  contains-missing_interfaces seen ((iface, []) ∷ es) y =
      ground (arith, contains-missing_interfaces seen es y)
  contains-missing_interfaces seen ((iface, r ∷ rs) ∷ es) y =
      ground (arith, contains-missing_interfaces seen es y)

module _ (net : Netip) (m : Machinery net) (desired : Table net) where
  update_document-again :
      (d : Doc net m)
      → ((update_document net m desired (update_document net m desired d).0).1 ≡ false)
        × ((update_document net m desired (update_document net m desired d).0).2
            ≡ (update_document net m desired d).2)
  unfolding update_document update_link
  update_document-again (other d) = (refl, refl)
  update_document-again (link lc) = elim (Option-cases (lookup (trim_space lc.meta_name) desired)) [
    | inl unmanaged ↦ rw unmanaged (rw (update_document, unmanaged) (refl, refl))
    | inr (routes, managed) ↦ rw managed (
        rw (update_document, managed)
          (
            ground (
              arith,
              sort_route_configs_idem net routes,
              same_route_configs_refl net (sort_route_configs net routes),
            ),
            refl,
          ))
  ]

  update_documents-again :
      (docs : List (Doc net m))
      → ((update_documents net m desired (update_documents net m desired docs).0).1 ≡ false)
        × ((update_documents net m desired (update_documents net m desired docs).0).2
            ≡ (update_documents net m desired docs).2)
  unfolding update_documents
  update_documents-again [] = (refl, refl)
  update_documents-again (d ∷ docs) =
      let (same, seen) = update_document-again d in
      let (same', seen') = update_documents-again docs in
      (ap₂ ◌||◌ same same', ap₂ add_seen seen seen')

  add_seen-append :
      (o : Option String) (xs ys : List String) → add_seen o (xs ++ ys) ≡ add_seen o xs ++ ys
  add_seen-append none xs ys = refl
  add_seen-append (some x) xs ys = refl

  changed-append :
      (xs ys : List (Doc net m))
      → (update_documents net m desired (xs ++ ys)).1
        ≡ ((update_documents net m desired xs).1 || (update_documents net m desired ys).1)
  unfolding update_documents
  changed-append [] ys = refl
  changed-append (d ∷ xs) ys = ground (arith, changed-append xs ys)

  seen-append :
      (xs ys : List (Doc net m))
      → (update_documents net m desired (xs ++ ys)).2
        ≡ (update_documents net m desired xs).2 ++ (update_documents net m desired ys).2
  unfolding update_documents
  seen-append [] ys = refl
  seen-append (d ∷ xs) ys =
      rw (seen-append xs ys) (add_seen-append (update_document net m desired d).2 _ _)

  -- The keys of the table are trimmed.
  abbrev pub IsTrimmed : Type 0
  IsTrimmed =
      (k : String) (l : List (RouteConfig net)) → lookup k desired ≡ some l → trim_space k ≡ k

  abbrev pub is_desired : String → Bool
  is_desired k = holds (has_some net) (lookup k desired)

  new_link-settled :
      (k : String)
      → IsTrimmed
      → is_desired k ≡ true
      → ((update_document net m desired (new_link net m desired k)).1 ≡ false)
        × ((update_document net m desired (new_link net m desired k)).2 ≡ some k)
  unfolding update_document update_link new_link
  new_link-settled k trimmed wanted = elim (Option-cases (lookup k desired)) [
    | inl absent ↦ absurd (ground arith)
    | inr (routes, at) ↦
        rw (trimmed k routes at, at)
          (
            ground (arith, same_route_configs_refl net (sort_route_configs net routes)),
            ap some (trimmed k routes at),
          )
  ]

  new_links-settled :
      (l : List String)
      → IsTrimmed
      → All (λ k. is_desired k ≡ true) l
      → ((update_documents net m desired (map (new_link net m desired) l)).1 ≡ false)
        × ((update_documents net m desired (map (new_link net m desired) l)).2 ≡ l)
  unfolding update_documents
  new_links-settled [] trimmed h = (refl, refl)
  new_links-settled (k ∷ l) trimmed h =
      let (same, seen) = new_link-settled k trimmed h.0 in
      let (same', seen') = new_links-settled l trimmed h.1 in
      (ap₂ ◌||◌ same same', ap₂ add_seen seen seen')

  pub All-of_contains :
      (l : List String)
      → ((k : String) → contains l k ≡ true → is_desired k ≡ true)
      → All (λ k. is_desired k ≡ true) l
  All-of_contains [] h = tt
  All-of_contains (k ∷ l) h = (h k (ground arith), All-of_contains l (λ j at. h j (ground arith)))

  module _ (distinct : Distinct desired) where
    pub contains-missing :
        (visit : Visit String (List (RouteConfig net))) (seen : List String) (k : String)
        → IsVisit visit
        → contains (sort leb_string (missing_interfaces net seen (visit desired))) k
          ≡ (not (contains seen k) && is_desired k)
    contains-missing visit seen k fair =
        contains-perm (sort-perm leb_string (missing_interfaces net seen (visit desired))) k
        ∙ contains-missing_interfaces net seen (visit desired) k
        ∙ ap (λ (b : Bool). not (contains seen k) && b)
            (any-visit visit fair k (has_some net) desired distinct)

    none_missing :
        (visit visit' : Visit String (List (RouteConfig net))) (seen : List String)
        → IsVisit visit
        → IsVisit visit'
        → is_nonempty (
            sort leb_string (
              missing_interfaces net
                (seen ++ sort leb_string (missing_interfaces net seen (visit desired)))
                (visit' desired)))
          ≡ false
    none_missing visit visit' seen fair fair' =
        let added = sort leb_string (missing_interfaces net seen (visit desired)) in
        empty_of_contains _ (λ k. ground (
          arith,
          contains-missing visit' (seen ++ added) k fair',
          contains-append seen added k,
          contains-missing visit seen k fair,
        ))

    pub reconcile_documents-again :
        (visit visit' : Visit String (List (RouteConfig net))) (docs : List (Doc net m))
        → IsTrimmed
        → IsVisit visit
        → IsVisit visit'
        → (reconcile_documents net m visit' desired
            (reconcile_documents net m visit desired docs).0).1
          ≡ false
    unfolding reconcile_documents
    reconcile_documents-again visit visit' docs trimmed fair fair' =
        let updated = update_documents net m desired docs in
        let added = sort leb_string (missing_interfaces net updated.2 (visit desired)) in
        let links = map (new_link net m desired) added in
        let (same, seen) = update_documents-again docs in
        let (same', seen') = new_links-settled added trimmed (
          All-of_contains added
            (λ k at. ground (arith, contains-missing visit updated.2 k fair))) in
        let settled : (update_documents net m desired (updated.0 ++ links)).1 ≡ false =
          changed-append updated.0 links ∙ ap₂ ◌||◌ same same' in
        let all_seen : (update_documents net m desired (updated.0 ++ links)).2
            ≡ updated.2 ++ added =
          seen-append updated.0 links ∙ ap₂ ◌++◌ seen seen' in
        ap₂ ◌||◌ settled (
          ap
            (λ (l : List String).
              is_nonempty (sort leb_string (missing_interfaces net l (visit' desired))))
            all_seen
          ∙ none_missing visit visit' updated.2 fair fair')
