-- ===== src/Discovery/Listing/Contents.antt =====
-- cluster_discovery_server.go: the response of List.
use mathlib.Core.HLevel.{hedberg}
use mathlib.Core.List.{filter_map, mem-filter_map}
use mathlib.Core.Logic.{∥∥₁_map}
use dockyards_talos.Base.{
  ℕ-cases, String, ◌≡◌, refl, sym, ap, ◌∙◌, ◌↔◌, Option, none, some, List, [], ◌∷◌, Mem, arith,
  ◌==◌, string_eq, if◌then◌else◌, inl, inr, String_dec,
}
use dockyards_talos.Base.GoMap.{lookup}
use dockyards_talos.Base.Range.{Visit, IsVisit}
use dockyards_talos.Base.Entries.{mem-visit_iff}
use dockyards_talos.Base.Time.{ℤ}
use dockyards_talos.Base.Outcome.{done}
use dockyards_talos.Discovery.Types.{
  ClusterAffiliateId, id_eq, Affiliate, ClusterAffiliate, Affiliates,
}
use dockyards_talos.Discovery.Watchers.{Server}
use dockyards_talos.Discovery.Watchers.Delivery.{Ready}
use dockyards_talos.Discovery.Garbage.Sweep.{live}
use dockyards_talos.Discovery.Garbage.Effect.{
  table, after_garbage, collect_garbage-eq-after, lookup-after_garbage,
}
use dockyards_talos.Discovery.Update.{key_of}
use dockyards_talos.Discovery.Consistency.{
  IsConsistent, Filed, entry-Filed, after_garbage-IsConsistent,
}
use dockyards_talos.Discovery.Listing.{Entry, count_cluster, of_cluster, list_affiliates, list}

String_set : IsSet String
String_set = hedberg String_dec

pub ClusterAffiliate_option_set : IsSet (Option ClusterAffiliate)
ClusterAffiliate_option_set = hlevel String_set

-- The two tests of the loop, and what it keeps.
listed : String → Entry → Option (Option Affiliate)
listed cluster (k, v) =
    if k.cluster_id == cluster
    then (if v.cluster_id == cluster then some v.affiliate else none)
    else none

of_cluster-filter_map :
    (cluster : String) (es : List Entry) → of_cluster cluster es ≡ filter_map (listed cluster) es
unfolding of_cluster listed filter_map
of_cluster-filter_map cluster [] = refl
of_cluster-filter_map cluster ((k, v) ∷ es) = ground (arith, of_cluster-filter_map cluster es)

listed-eq-some :
    (cluster : String) (k : ClusterAffiliateId) (v : ClusterAffiliate) (x : Option Affiliate)
    → listed cluster (k, v) ≡ some x
    → (k ≡ key_of cluster k.affiliate_id) × (v.affiliate ≡ x)
unfolding listed
listed-eq-some cluster k v x h = ground arith

listed_own :
    (cluster id : String) (v : ClusterAffiliate)
    → v.cluster_id ≡ cluster
    → listed cluster (key_of cluster id, v) ≡ some v.affiliate
unfolding listed
listed_own cluster id v h = ground arith

of_cluster_none :
    (cluster : String) (es : List Entry) → count_cluster cluster es ≡ 0 → of_cluster cluster es ≡ []
unfolding of_cluster count_cluster
of_cluster_none cluster [] h = refl
of_cluster_none cluster ((k, v) ∷ es) h = ground (arith, of_cluster_none cluster es)

-- The early return for a cluster with no affiliates changes nothing.
list_affiliates-of_cluster :
    (visit : Visit ClusterAffiliateId ClusterAffiliate) (cluster : String) (m : Affiliates)
    → list_affiliates visit cluster (some m) ≡ of_cluster cluster (visit m)
unfolding list_affiliates
list_affiliates-of_cluster visit cluster m = elim (ℕ-cases (count_cluster cluster (visit m))) [
  | inl empty ↦ rw (empty, list_affiliates) (sym (of_cluster_none cluster (visit m) empty))
  | inr (n, some_left) ↦ rw (some_left, list_affiliates) refl
]

-- An affiliate of the cluster whose entry is not expired.
abbrev pub Holds : Server → ℤ → String → Option Affiliate → Type 0
Holds s now cluster x = ∥ (
    (id : String) × (v : ClusterAffiliate) × (live now (lookup (key_of cluster id) (table s))
      ≡ some v)
    × (v.affiliate ≡ x)) ∥₁

module _ (visit_sweep visit : Visit ClusterAffiliateId ClusterAffiliate) (swept_at : ℤ)
    (cluster : String) (s : Server) (fair_sweep : IsVisit visit_sweep) (fair : IsVisit visit)
    (c : IsConsistent (table s)) where
  mid : Server
  mid = after_garbage visit_sweep swept_at s

  mid-IsConsistent : IsConsistent (table mid)
  unfolding mid
  mid-IsConsistent = after_garbage-IsConsistent visit_sweep fair_sweep s c swept_at

  lookup-mid : (k : ClusterAffiliateId) → lookup k (table mid) ≡ live swept_at (lookup k (table s))
  unfolding mid
  lookup-mid = lookup-after_garbage visit_sweep swept_at s fair_sweep c.distinct

  mem-visit :
      (k : ClusterAffiliateId) (v : ClusterAffiliate)
      → Mem (k, v) (visit (table mid)) ↔ (lookup k (table mid) ≡ some v)
  mem-visit k v =
      mem-visit_iff visit fair ClusterAffiliate_option_set k v (table mid) mid-IsConsistent.distinct

  listed-Holds :
      (x : Option Affiliate)
      → Mem x (of_cluster cluster (visit (table mid)))
      → Holds s swept_at cluster x
  listed-Holds x h =
      ∥∥₁_map
        ((mem-filter_map (listed cluster) (visit (table mid))).0 (rw of_cluster-filter_map at h))
        found
    where
      found :
          ((e : Entry) × Mem e (visit (table mid)) × (listed cluster e ≡ some x))
          → (id : String) × (v : ClusterAffiliate) × (live swept_at
                (lookup (key_of cluster id) (table s))
              ≡ some v)
            × (v.affiliate ≡ x)
      found ((k, v), at, kept) =
          let (own, same) = listed-eq-some cluster k v x kept in
          (k.affiliate_id, v, rw (← own) (sym (lookup-mid k) ∙ (mem-visit k v).0 at), same)

  holds_listed :
      (x : Option Affiliate)
      → Holds s swept_at cluster x
      → Mem x (of_cluster cluster (visit (table mid)))
  holds_listed x h =
      rw of_cluster-filter_map
        ((mem-filter_map (listed cluster) (visit (table mid))).1 (∥∥₁_map h stored))
    where
      stored :
          ((id : String) × (v : ClusterAffiliate) × (live swept_at
                (lookup (key_of cluster id) (table s))
              ≡ some v)
            × (v.affiliate ≡ x))
          → (e : Entry) × Mem e (visit (table mid)) × (listed cluster e ≡ some x)
      stored (id, v, alive, same) =
          let key = key_of cluster id in
          let at : lookup key (table mid) ≡ some v = lookup-mid key ∙ alive in
          let own : Filed key v = entry-Filed at (mid-IsConsistent.filed key) in
          (
            (key, v),
            (mem-visit key v).1 at,
            listed_own cluster id v (ap (λ (k : ClusterAffiliateId). k.cluster_id) own.0)
                ∙ ap some same,
          )

  -- On a well-formed map, with room for one message in each live channel, the call returns, and
  -- the response holds an affiliate exactly when the cluster has a live entry with it: no
  -- affiliate of another cluster, none that has expired, and each that is left.
  pub list-mem_iff :
      Ready 1 s.watchers
      → (s' : Server) × (r : List (Option Affiliate)) × (list visit_sweep visit swept_at cluster s
          ≡ done (s', r))
        × ((x : Option Affiliate) → Mem x r ↔ Holds s swept_at cluster x)
  unfolding list mid
  list-mem_iff h = (
    mid,
    of_cluster cluster (visit (table mid)),
    rw (collect_garbage-eq-after visit_sweep swept_at s h)
        (ap (λ r. done (mid, r)) (list_affiliates-of_cluster visit cluster (table mid))),
    λ x. (listed-Holds x, holds_listed x),
  )
