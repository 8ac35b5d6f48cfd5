-- ===== src/Discovery/Consistency.antt =====
-- cluster_discovery_server.go: the well-formedness of the server's map.
use mathlib.Core.Path.{subst}
use dockyards_talos.Base.{
  ◌≡◌, refl, Option, none, some, List, [], ◌∷◌, arith, ◌==◌, if◌then◌else◌, Bytes, Option-cases,
  inl, inr,
}
use dockyards_talos.Base.GoMap.{
  lookup, insert, erase, Distinct, lookup-insert, lookup-erase, insert-Distinct, erase-Distinct,
}
use dockyards_talos.Base.Range.{Visit, IsVisit}
use dockyards_talos.Base.Time.{ℤ}
use dockyards_talos.Discovery.Types.{
  ClusterAffiliateId, id_eq, Affiliate, ClusterAffiliate, Affiliates,
}
use dockyards_talos.Discovery.Watchers.{Server}
use dockyards_talos.Discovery.Garbage.Sweep.{live}
use dockyards_talos.Discovery.Garbage.Effect.{
  table, after_garbage, after_garbage-Distinct, lookup-after_garbage,
}
use dockyards_talos.Discovery.Update.{AffiliateUpdateRequest, key_of, updated, or_zero}
use dockyards_talos.Discovery.Update.Effect.{
  after_update, after_update-Distinct, lookup-after_update,
}
use dockyards_talos.Discovery.Delete.{AffiliateDeleteRequest}
use dockyards_talos.Discovery.Delete.Effect.{
  after_delete, after_delete-Distinct, lookup-after_delete,
}
use dockyards_talos.Discovery.Persister.{own_key}
use dockyards_talos.Discovery.Lifecycle.{load_one, load_state, Options, new_server}

abbrev pub Filed : ClusterAffiliateId → ClusterAffiliate → Type 0
Filed k v = (own_key v ≡ k) × ((a : Affiliate) × (v.affiliate ≡ some a))

abbrev pub FiledAt : ClusterAffiliateId → Option ClusterAffiliate → Type 0
FiledAt k none = Unit
FiledAt k (some v) = Filed k v

pub entry-Filed :
    {k : ClusterAffiliateId} {v : ClusterAffiliate} {o : Option ClusterAffiliate}
    → o ≡ some v
    → FiledAt k o
    → Filed k v
entry-Filed {k} e h = subst (FiledAt k) e h

pub record IsConsistent (m : Affiliates) : Type 0 where
  pub distinct : Distinct m
  pub filed : (k : ClusterAffiliateId) → FiledAt k (lookup k m)

pub live-FiledAt :
    (now : ℤ) (k : ClusterAffiliateId) (o : Option ClusterAffiliate)
    → FiledAt k o
    → FiledAt k (live now o)
live-FiledAt now k none h = tt
live-FiledAt now k (some v) h = ground arith

pub updated-Filed :
    (visit : Visit Bytes Bytes) (now : ℤ) (req : AffiliateUpdateRequest) (old : ClusterAffiliate)
    → Filed (key_of req.cluster_id req.affiliate_id) (updated visit now req old)
unfolding updated
updated-Filed visit now req old = (refl, (_, refl))

module _ (visit : Visit ClusterAffiliateId ClusterAffiliate) (perm : IsVisit visit) (s : Server)
    (c : IsConsistent (table s)) where
  pub after_garbage-IsConsistent : (now : ℤ) → IsConsistent (table (after_garbage visit now s))
  after_garbage-IsConsistent now = record {
    distinct = after_garbage-Distinct visit now s c.distinct;
    filed = λ k.
        rw (lookup-after_garbage visit now s perm c.distinct k)
          (live-FiledAt now k (lookup k (table s)) (c.filed k));
  }

  pub after_update-IsConsistent :
      (visit_endpoints : Visit Bytes Bytes) (swept_at now : ℤ) (req : AffiliateUpdateRequest)
      → IsConsistent (table (after_update visit visit_endpoints swept_at now req s))
  after_update-IsConsistent visit_endpoints swept_at now req = record {
    distinct = after_update-Distinct visit visit_endpoints swept_at now req s c.distinct;
    filed = λ k.
        rw (lookup-after_update visit visit_endpoints swept_at now req s perm c.distinct k)
          (choice k);
  }
    where
      key : ClusterAffiliateId
      key = key_of req.cluster_id req.affiliate_id

      old : ClusterAffiliate
      old = or_zero (live swept_at (lookup key (table s)))

      choice :
          (k : ClusterAffiliateId)
          → FiledAt k (
              if k == key
              then some (updated visit_endpoints now req old)
              else live swept_at (lookup k (table s)))
      choice k = ground (
        arith,
        updated-Filed visit_endpoints now req old,
        live-FiledAt swept_at k (lookup k (table s)) (c.filed k),
      )

  pub after_delete-IsConsistent :
      (swept_at : ℤ) (req : AffiliateDeleteRequest)
      → IsConsistent (table (after_delete visit swept_at req s))
  after_delete-IsConsistent swept_at req = record {
    distinct = after_delete-Distinct visit swept_at req s c.distinct;
    filed = λ k.
        rw (lookup-after_delete visit swept_at req s perm c.distinct k)
          (ground (arith, live-FiledAt swept_at k (lookup k (table s)) (c.filed k)));
  }

pub insert-IsConsistent :
    (k : ClusterAffiliateId) (v : ClusterAffiliate) (m : Affiliates)
    → Filed k v
    → IsConsistent m
    → IsConsistent (insert k v m)
insert-IsConsistent k v m h c = record {
  distinct = insert-Distinct k v m c.distinct;
  filed = λ j. rw (lookup-insert j k v m) (ground (arith, c.filed j));
}

pub erase-IsConsistent :
    (k : ClusterAffiliateId) (m : Affiliates) → IsConsistent m → IsConsistent (erase k m)
erase-IsConsistent k m c = record {
  distinct = erase-Distinct k m c.distinct;
  filed = λ j. rw (lookup-erase j k m) (ground (arith, c.filed j));
}

load_one-IsConsistent :
    (ca : ClusterAffiliate) (o : Option Affiliate) (m : Affiliates)
    → ca.affiliate ≡ o
    → IsConsistent m
    → IsConsistent (load_one ca o m)
unfolding load_one
load_one-IsConsistent ca none m e c = c
load_one-IsConsistent ca (some a) m e c = insert-IsConsistent _ ca m (rw e refl, (a, e)) c

load_state-IsConsistent :
    (loaded : List ClusterAffiliate) (m : Affiliates)
    → IsConsistent m
    → IsConsistent (load_state loaded m)
unfolding load_state
load_state-IsConsistent [] m c = c
load_state-IsConsistent (ca ∷ rest) m c =
    load_state-IsConsistent rest (load_one ca ca.affiliate m)
      (load_one-IsConsistent ca ca.affiliate m refl c)

pub empty-IsConsistent : IsConsistent []
unfolding lookup
empty-IsConsistent = record { distinct = tt; filed = λ k. tt }

-- The constructor builds a well-formed map, whatever state the provider has loaded.
pub new_server-IsConsistent : (opts : Options) → IsConsistent (table (new_server opts))
unfolding new_server
new_server-IsConsistent opts = elim (Option-cases opts.loaded) [
  | inl missing ↦ rw missing empty-IsConsistent
  | inr (l, given) ↦ rw given (load_state-IsConsistent l [] empty-IsConsistent)
]
