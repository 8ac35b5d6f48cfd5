-- ===== src/Discovery/Update/Endpoints.antt =====
-- cluster_discovery_server.go: the endpoints that AffiliateUpdate merges.
use mathlib.Core.List.{Nodup}
use mathlib.Core.List.Perm
use dockyards_talos.Base.{
  ◌≡◌, refl, ◌∙◌, ◌||◌, some, List, [], ◌∷◌, arith, Bytes, bytes_eq, contains, All, if◌then◌else◌,
}
use dockyards_talos.Base.GoMap.{
  GoMap, keys, values, lookup, insert, Distinct, lookup-insert, insert-Distinct,
}
use dockyards_talos.Base.Range.{Visit, IsVisit}
use dockyards_talos.Base.Sets.{
  contains-perm, values-perm, contains-keys_absent, contains-keys_present, keys-Nodup,
}
use dockyards_talos.Discovery.Update.{add_endpoints, merge_endpoints}

-- Each endpoint is stored under itself.
abbrev IsDiagonal : GoMap Bytes Bytes → Type 0
IsDiagonal = All (λ e. e.0 ≡ e.1)

insert-IsDiagonal : (x : Bytes) (m : GoMap Bytes Bytes) → IsDiagonal m → IsDiagonal (insert x x m)
unfolding insert
insert-IsDiagonal x [] h = (refl, tt)
insert-IsDiagonal x ((k, v) ∷ m) h = ground (arith, insert-IsDiagonal x m)

keys-eq-values : (m : GoMap Bytes Bytes) → IsDiagonal m → keys m ≡ values m
keys-eq-values [] h = refl
keys-eq-values ((k, v) ∷ m) h = cc (keys-eq-values m h.1)

add_endpoints-IsDiagonal :
    (l : List Bytes) (m : GoMap Bytes Bytes) → IsDiagonal m → IsDiagonal (add_endpoints l m)
unfolding add_endpoints
add_endpoints-IsDiagonal [] m h = h
add_endpoints-IsDiagonal (x ∷ l) m h =
    add_endpoints-IsDiagonal l (insert x x m) (insert-IsDiagonal x m h)

add_endpoints-Distinct :
    (l : List Bytes) (m : GoMap Bytes Bytes) → Distinct m → Distinct (add_endpoints l m)
unfolding add_endpoints
add_endpoints-Distinct [] m h = h
add_endpoints-Distinct (x ∷ l) m h =
    add_endpoints-Distinct l (insert x x m) (insert-Distinct x x m h)

lookup-add_endpoints :
    (y : Bytes) (l : List Bytes) (m : GoMap Bytes Bytes)
    → lookup y (add_endpoints l m) ≡ (if contains l y then some y else lookup y m)
unfolding add_endpoints
lookup-add_endpoints y [] m = refl
lookup-add_endpoints y (x ∷ l) m =
    ground (arith, lookup-add_endpoints y l (insert x x m), lookup-insert y x x m)

module _ (old new : List Bytes) where
  abbrev merged : GoMap Bytes Bytes
  merged = add_endpoints new (add_endpoints old [])

  merged-IsDiagonal : IsDiagonal merged
  merged-IsDiagonal = add_endpoints-IsDiagonal new _ (add_endpoints-IsDiagonal old [] tt)

  merged-Distinct : Distinct merged
  merged-Distinct = add_endpoints-Distinct new _ (add_endpoints-Distinct old [] tt)

  contains-keys-merged : (y : Bytes) → contains (keys merged) y ≡ (contains old y || contains new y)
  unfolding lookup
  contains-keys-merged y = ground (
    arith,
    lookup-add_endpoints y new (add_endpoints old []),
    lookup-add_endpoints y old [],
    contains-keys_absent y merged,
    contains-keys_present y merged y,
  )

  module _ (visit : Visit Bytes Bytes) (perm : IsVisit visit) where
    -- Whatever order the map is visited in, an endpoint is among the merged ones exactly when the
    -- old ones or the request have it.
    contains-merge_endpoints :
        (y : Bytes)
        → contains (merge_endpoints visit old new) y ≡ (contains old y || contains new y)
    unfolding merge_endpoints
    contains-merge_endpoints y =
        contains-perm (values-perm (perm merged)) y
        ∙ (rw (← keys-eq-values merged merged-IsDiagonal) (contains-keys-merged y))

    -- No endpoint stands twice among the merged ones.
    merge_endpoints-Nodup : Nodup (merge_endpoints visit old new)
    unfolding merge_endpoints
    merge_endpoints-Nodup =
        Perm.nodup (Perm.symm (values-perm (perm merged)))
          (rw (← keys-eq-values merged merged-IsDiagonal) (keys-Nodup merged merged-Distinct))

    -- Whatever order the map is visited in, an endpoint is among the merged ones exactly when the
    -- old ones or the request have it, and none stands twice among them.
    pub merge_endpoints_lem :
        ((y : Bytes)
          → contains (merge_endpoints visit old new) y ≡ (contains old y || contains new y))
        × Nodup (merge_endpoints visit old new)
    merge_endpoints_lem = (contains-merge_endpoints, merge_endpoints-Nodup)
