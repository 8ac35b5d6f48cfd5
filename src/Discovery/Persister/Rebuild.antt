-- ===== src/Discovery/Persister/Rebuild.antt =====
-- cluster_discovery_server.go: the loaded state, as NewClusterDiscoveryServer and statePersister
-- read it.
use mathlib.Core.List.{mem-map_of_mem, exists_of_mem-map}
use mathlib.Core.Logic.{∥∥₁_map}
use dockyards_talos.Base.{
  ◌≡◌, refl, ◌∙◌, Option, none, some, List, [], ◌∷◌, Bool, true, false, map, arith, ◌==◌, string_eq,
  if◌then◌else◌, contains, Mem, Bool-cases, Option-cases, inl, inr,
}
use dockyards_talos.Base.GoMap.{lookup, values, lookup-insert}
use dockyards_talos.Base.Range.{Visit, IsVisit}
use dockyards_talos.Discovery.Types.{
  ClusterAffiliateId, id_eq, Affiliate, ClusterAffiliate, Affiliates, WatchResponse, get_id,
}
use dockyards_talos.Base.Sets.{contains_of_mem, values-map}
use dockyards_talos.Discovery.Consistency.{
  IsConsistent, insert-IsConsistent, erase-IsConsistent, empty-IsConsistent,
}
use dockyards_talos.Discovery.Lifecycle.{load_one, load_state}
use dockyards_talos.Discovery.Persister.{
  own_key, record_one, forget_one, record_all, forget_all, initial_state, absorb, absorb_all,
}
use dockyards_talos.Discovery.Persister.Follow.{visited_iff, visited-own_key, visited-lookup}
use dockyards_talos.Discovery.Persister.Messages.{IsNamed, lookup-record_all}

-- The constructor and the persister read the loaded state alike, up to entries with no identity.
load_one-record_one :
    (a : ClusterAffiliate) (o : Option Affiliate) (m n : Affiliates) (k : ClusterAffiliateId)
    → a.affiliate ≡ o
    → IsNamed k
    → lookup k m ≡ lookup k n
    → lookup k (load_one a o m) ≡ lookup k (record_one a n)
unfolding load_one record_one
load_one-record_one a none m n k e named same = ground arith
load_one-record_one a (some x) m n k e named same =
    ground (arith, lookup-insert k (own_key a) a m, lookup-insert k (own_key a) a n)

pub load_state-record_all :
    (l : List ClusterAffiliate) (m n : Affiliates) (k : ClusterAffiliateId)
    → IsNamed k
    → lookup k m ≡ lookup k n
    → lookup k (load_state l m) ≡ lookup k (record_all l n)
unfolding load_state record_all
load_state-record_all [] m n k named same = same
load_state-record_all (a ∷ l) m n k named same =
    load_state-record_all l (load_one a a.affiliate m) (record_one a n) k named
      (load_one-record_one a a.affiliate m n k refl named same)

-- The persister's map is well-formed, whatever messages it reads.
record_one-IsConsistent :
    (a : ClusterAffiliate) (m : Affiliates) → IsConsistent m → IsConsistent (record_one a m)
unfolding record_one
record_one-IsConsistent a m c = elim (Bool-cases (get_id a.affiliate == "")) [
  | inl unnamed ↦ rw (unnamed, record_one) c
  | inr named ↦ rw (named, record_one) (insert-IsConsistent (own_key a) a m (refl, held named) c)
]
  where
    held : (get_id a.affiliate == "") ≡ false → (x : Affiliate) × (a.affiliate ≡ some x)
    held named = elim (Option-cases a.affiliate) [
      | inl missing ↦ absurd (ground arith)
      | inr given ↦ given
    ]

forget_one-IsConsistent :
    (a : ClusterAffiliate) (m : Affiliates) → IsConsistent m → IsConsistent (forget_one a m)
unfolding forget_one
forget_one-IsConsistent a m c = elim (Bool-cases (get_id a.affiliate == "")) [
  | inl unnamed ↦ rw (unnamed, forget_one) c
  | inr named ↦ rw (named, forget_one) (erase-IsConsistent (own_key a) m c)
]

record_all-IsConsistent :
    (as' : List ClusterAffiliate) (m : Affiliates)
    → IsConsistent m
    → IsConsistent (record_all as' m)
unfolding record_all
record_all-IsConsistent [] m c = c
record_all-IsConsistent (a ∷ as') m c =
    record_all-IsConsistent as' (record_one a m) (record_one-IsConsistent a m c)

forget_all-IsConsistent :
    (as' : List ClusterAffiliate) (m : Affiliates)
    → IsConsistent m
    → IsConsistent (forget_all as' m)
unfolding forget_all
forget_all-IsConsistent [] m c = c
forget_all-IsConsistent (a ∷ as') m c =
    forget_all-IsConsistent as' (forget_one a m) (forget_one-IsConsistent a m c)

absorb-IsConsistent :
    (deleted : Bool) (as' : List ClusterAffiliate) (m : Affiliates)
    → IsConsistent m
    → IsConsistent (absorb (record { cluster_affiliates = as'; deleted = deleted }) m)
unfolding absorb
absorb-IsConsistent true as' m c = forget_all-IsConsistent as' m c
absorb-IsConsistent false as' m c = record_all-IsConsistent as' m c

absorb_all-IsConsistent :
    (q : List WatchResponse) (m : Affiliates) → IsConsistent m → IsConsistent (absorb_all q m)
unfolding absorb_all
absorb_all-IsConsistent [] m c = c
absorb_all-IsConsistent (msg ∷ q) m c =
    absorb_all-IsConsistent q (absorb msg m)
      (absorb-IsConsistent msg.deleted msg.cluster_affiliates m c)

pub persister-IsConsistent :
    (l : List ClusterAffiliate) (q : List WatchResponse)
    → IsConsistent (absorb_all q (initial_state l))
unfolding initial_state
persister-IsConsistent l q =
    absorb_all-IsConsistent q _ (record_all-IsConsistent l [] empty-IsConsistent)

module _ (visit : Visit ClusterAffiliateId ClusterAffiliate) (fair : IsVisit visit) (p : Affiliates)
    (c : IsConsistent p) where
  -- The values that are saved, with the keys that they name.
  mem-values :
      (a : ClusterAffiliate)
      → Mem a (values (visit p))
      → ∥ ((k : ClusterAffiliateId) × Mem (k, a) (visit p)) ∥₁
  mem-values a at =
      ∥∥₁_map (exists_of_mem-map (rw values-map at at))
        (λ (e, found, same). (e.0, rw (← same) found))

  saved_key :
      (k : ClusterAffiliateId) (a : ClusterAffiliate)
      → lookup k p ≡ some a
      → contains (map own_key (values (visit p))) k ≡ true
  saved_key k a at =
      let here : Mem (k, a) (visit p) = (visited_iff visit fair p c k a).1 at in
      contains_of_mem {A = ClusterAffiliateId} (map own_key (values (visit p))) (
        rw (← visited-own_key visit fair p c k a here) (
          mem-map_of_mem own_key {a = a}
            (rw values-map (mem-map_of_mem (λ e. e.1) {a = (k, a)} here))))

  found_or_missing :
      (k : ClusterAffiliateId)
      → (if contains (map own_key (values (visit p))) k then lookup k p else none) ≡ lookup k p
  found_or_missing k = elim (Option-cases (lookup k p)) [
    | inl e ↦ ground arith
    | inr (a, e) ↦ ground (arith, saved_key k a e)
  ]

  -- A server that loads what the persister saves has the persister's map, but for entries with no
  -- identity.
  pub rebuild :
      (k : ClusterAffiliateId)
      → IsNamed k
      → lookup k (load_state (values (visit p)) []) ≡ lookup k p
  unfolding lookup
  rebuild k named =
      load_state-record_all (values (visit p)) [] [] k named refl
      ∙ lookup-record_all k (values (visit p)) p [] named
          (λ a at. visited-lookup visit fair p c k a (mem-values a at))
      ∙ found_or_missing k
