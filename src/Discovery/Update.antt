-- ===== src/Discovery/Update.antt =====
-- cluster_discovery_server.go: AffiliateUpdate.
pub mod Endpoints
pub mod Effect
use dockyards_talos.Base.{
  zero, suc, String, Option, none, some, List, [], ◌∷◌, Bool, true, false, Bytes, bytes_eq,
  if◌then◌else◌, ◌*◌,
}
use dockyards_talos.Base.GoMap.{GoMap, lookup, insert, values}
use dockyards_talos.Base.Range.{Visit}
use dockyards_talos.Base.Time.{ℤ, pos, negsuc, minute, ◌+ℤ◌}
use dockyards_talos.Base.Outcome.{Outcome, done, ◌>>=◌}
use dockyards_talos.Discovery.Types.{
  ClusterAffiliateId, id_eq, Affiliate, ClusterAffiliate, Affiliates, WatchResponse, get_data,
  get_endpoints, zero_affiliate,
}
use dockyards_talos.Discovery.Watchers.{Server, broadcast}
use dockyards_talos.Discovery.Garbage.{or_empty, collect_garbage}

-- The request as its getters show it: a `nil` request has the zero values, and the time to live
-- is a signed number of nanoseconds.
pub record AffiliateUpdateRequest : Type 0 where
  pub cluster_id : String
  pub affiliate_id : String
  pub affiliate_data : Option Bytes
  pub affiliate_endpoints : List Bytes
  pub ttl : ℤ

abbrev pub key_of : String → String → ClusterAffiliateId
key_of cluster affiliate = record { cluster_id = cluster; affiliate_id = affiliate }

-- `for _, endpoint := range list { endpoints[string(endpoint)] = endpoint }`
unfoldable pub add_endpoints : List Bytes → GoMap Bytes Bytes → GoMap Bytes Bytes
add_endpoints [] m = m
add_endpoints (endpoint ∷ rest) m = add_endpoints rest (insert endpoint endpoint m)

unfoldable pub merge_endpoints : Visit Bytes Bytes → List Bytes → List Bytes → List Bytes
merge_endpoints visit old new = values (visit (add_endpoints new (add_endpoints old [])))

-- `if req.GetAffiliateData() != nil { newData = req.GetAffiliateData() }`
unfoldable pub new_data : Option Bytes → Option Bytes → Option Bytes
new_data old none = old
new_data old (some given) = some given

-- `if ttl.Nanoseconds() == 0 { ttl = 15 * time.Minute }`
unfoldable pub effective_ttl : ℤ → ℤ
effective_ttl (pos zero) = pos (15 * minute)
effective_ttl (pos (suc n)) = pos (suc n)
effective_ttl (negsuc n) = negsuc n

-- The new entry, from the old one (the zero value if the key is missing).
unfoldable pub updated :
    Visit Bytes Bytes → ℤ → AffiliateUpdateRequest → ClusterAffiliate → ClusterAffiliate
updated visit now req old = record {
  affiliate = some (record {
    id = req.affiliate_id;
    contents = new_data (get_data old.affiliate) req.affiliate_data;
    endpoints = merge_endpoints visit (get_endpoints old.affiliate) req.affiliate_endpoints;
  });
  cluster_id = req.cluster_id;
  remove_after = now +ℤ effective_ttl req.ttl;
}

-- `aff, ok = affiliates[clusterAffiliateID]`
abbrev pub or_zero : Option ClusterAffiliate → ClusterAffiliate
or_zero none = zero_affiliate
or_zero (some a) = a

-- The critical section: the entry that is stored, and the server with it.
unfoldable pub store_update :
    Visit Bytes Bytes → ℤ → AffiliateUpdateRequest → Server → ClusterAffiliate × Server
store_update visit now req s =
    let table = or_empty s.affiliates in
    let key = key_of req.cluster_id req.affiliate_id in
    let aff = updated visit now req (or_zero (lookup key table)) in
    (aff, record s { affiliates = some (insert key aff table) })

-- `swept_at` is the time that the garbage collection reads, and `now` the time of the update.
unfoldable pub affiliate_update :
    Visit ClusterAffiliateId ClusterAffiliate
    → Visit Bytes Bytes
    → (swept_at now : ℤ) → AffiliateUpdateRequest
    → Server
    → Outcome Server
affiliate_update visit visit_endpoints swept_at now req s = do
  s' ← collect_garbage visit swept_at s
  let stored = store_update visit_endpoints now req s'
  broadcast (record { cluster_affiliates = stored.0 ∷ []; deleted = false }) stored.1
