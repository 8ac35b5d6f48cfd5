-- ===== src/Discovery/Delete.antt =====
-- cluster_discovery_server.go: AffiliateDelete.
pub mod Effect
use dockyards_talos.Base.{String, Option, none, some, [], ◌∷◌, true}
use dockyards_talos.Base.GoMap.{lookup, erase}
use dockyards_talos.Base.Range.{Visit}
use dockyards_talos.Base.Time.{ℤ}
use dockyards_talos.Base.Outcome.{Outcome, done, ◌>>=◌}
use dockyards_talos.Discovery.Types.{ClusterAffiliateId, id_eq, ClusterAffiliate}
use dockyards_talos.Discovery.Watchers.{Server, broadcast}
use dockyards_talos.Discovery.Garbage.{or_empty, collect_garbage}
use dockyards_talos.Discovery.Update.{key_of}

pub record AffiliateDeleteRequest : Type 0 where
  pub cluster_id : String
  pub affiliate_id : String

-- The rest of the critical section once the key is looked up: a missing key leaves the map alone.
unfoldable pub store_delete : ClusterAffiliateId → Option ClusterAffiliate → Server → Server
store_delete key none s = s
store_delete key (some a) s = record s { affiliates = some (erase key (or_empty s.affiliates)) }

-- `if !affiliateFound { return nil, nil }`, and the broadcast.
unfoldable pub announce_delete : Option ClusterAffiliate → Server → Outcome Server
announce_delete none s = done s
announce_delete (some a) s = broadcast (record { cluster_affiliates = a ∷ []; deleted = true }) s

unfoldable pub affiliate_delete :
    Visit ClusterAffiliateId ClusterAffiliate
    → (swept_at : ℤ) → AffiliateDeleteRequest
    → Server
    → Outcome Server
affiliate_delete visit swept_at req s = do
  s' ← collect_garbage visit swept_at s
  let key = key_of req.cluster_id req.affiliate_id
  let found = lookup key (or_empty s'.affiliates)
  announce_delete found (store_delete key found s')
