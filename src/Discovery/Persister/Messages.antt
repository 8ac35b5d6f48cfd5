-- ===== src/Discovery/Persister/Messages.antt =====
-- cluster_discovery_server.go: statePersister, on one message of each kind.
use mathlib.Core.List.{mem-cons_self, mem-cons_of_mem}
use dockyards_talos.Base.{
  ◌≡◌, ◌≢◌, refl, none, some, List, [], ◌∷◌, map, arith, ◌==◌, string_eq, if◌then◌else◌, contains,
  Mem,
}
use dockyards_talos.Base.GoMap.{lookup, lookup-insert, lookup-erase}
use dockyards_talos.Base.Time.{ℤ}
use dockyards_talos.Discovery.Types.{ClusterAffiliateId, id_eq, ClusterAffiliate, Affiliates}
use dockyards_talos.Discovery.Garbage.{sweep}
use dockyards_talos.Discovery.Persister.{own_key, record_one, forget_one, record_all, forget_all}

-- A key that the persister keeps: it skips affiliates with no identity.
abbrev pub IsNamed : ClusterAffiliateId → Type 0
IsNamed k = k.affiliate_id ≢ ""

pub lookup-record_one :
    (k : ClusterAffiliateId) (a : ClusterAffiliate) (m : Affiliates)
    → IsNamed k
    → lookup k (record_one a m) ≡ (if k == own_key a then some a else lookup k m)
unfolding record_one
lookup-record_one k a m named = ground (arith, lookup-insert k (own_key a) a m)

lookup-forget_one :
    (k : ClusterAffiliateId) (a : ClusterAffiliate) (m : Affiliates)
    → IsNamed k
    → lookup k (forget_one a m) ≡ (if k == own_key a then none else lookup k m)
unfolding forget_one
lookup-forget_one k a m named = ground (arith, lookup-erase k (own_key a) m)

pub lookup-forget_all :
    (k : ClusterAffiliateId) (as' : List ClusterAffiliate) (m : Affiliates)
    → IsNamed k
    → lookup k (forget_all as' m) ≡ (if contains (map own_key as') k then none else lookup k m)
unfolding forget_all
lookup-forget_all k [] m named = refl
lookup-forget_all k (a ∷ as') m named =
    ground (arith, lookup-forget_all k as' (forget_one a m), lookup-forget_one k a m)

-- The swept affiliates name the keys under which they were stored.
pub own_key-sweep :
    (now : ℤ) (es : List (ClusterAffiliateId × ClusterAffiliate))
    → ((k : ClusterAffiliateId) (a : ClusterAffiliate) → Mem (k, a) es → own_key a ≡ k)
    → map own_key (sweep now es).0 ≡ (sweep now es).1
unfolding sweep
own_key-sweep now [] filed = refl
own_key-sweep now ((k, a) ∷ es) filed = ground (
  arith,
  own_key-sweep now es (λ j b at. filed j b (mem-cons_of_mem (k, a) at)),
  filed k a mem-cons_self,
)

-- Recording affiliates that another map has under their keys copies that map at these keys.
pub lookup-record_all :
    (k : ClusterAffiliateId) (as' : List ClusterAffiliate) (m n : Affiliates)
    → IsNamed k
    → ((a : ClusterAffiliate) → Mem a as' → own_key a ≡ k → lookup k m ≡ some a)
    → lookup k (record_all as' n)
      ≡ (if contains (map own_key as') k then lookup k m else lookup k n)
unfolding record_all
lookup-record_all k [] m n named same = refl
lookup-record_all k (a ∷ as') m n named same = ground (
  arith,
  lookup-record_all k as' m (record_one a n) named (λ b at. same b (mem-cons_of_mem a at)),
  lookup-record_one k a n named,
  same a mem-cons_self,
)

-- So a broadcast of stored entries records what the map has anyway.
pub lookup-record_all_same :
    (k : ClusterAffiliateId) (as' : List ClusterAffiliate) (m : Affiliates)
    → IsNamed k
    → ((a : ClusterAffiliate) → Mem a as' → own_key a ≡ k → lookup k m ≡ some a)
    → lookup k (record_all as' m) ≡ lookup k m
lookup-record_all_same k as' m named same = ground (arith, lookup-record_all k as' m m named same)
