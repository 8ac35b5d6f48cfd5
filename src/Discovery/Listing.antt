-- ===== src/Discovery/Listing.antt =====
-- cluster_discovery_server.go: List and broadcastCurrentState.
pub mod Effect
pub mod Contents
use dockyards_talos.Base.{
  ℕ, zero, suc, ◌+◌, String, Option, none, some, List, [], ◌∷◌, Bool, true, false, ◌==◌, string_eq,
  if◌then◌else◌, not,
}
use dockyards_talos.Base.Range.{Visit}
use dockyards_talos.Base.Time.{ℤ}
use dockyards_talos.Base.Outcome.{Outcome, done, ◌>>=◌}
use dockyards_talos.Discovery.Types.{ClusterAffiliateId, Affiliate, ClusterAffiliate, Affiliates}
use dockyards_talos.Discovery.Watchers.{Server, broadcast}
use dockyards_talos.Discovery.Garbage.{collect_garbage}

abbrev pub Entry : Type 0
Entry = ClusterAffiliateId × ClusterAffiliate

-- `for k := range clusterAffiliates { if k.ClusterID == clusterID { count++ } }`
unfoldable pub count_cluster : String → List Entry → ℕ
count_cluster cluster [] = 0
count_cluster cluster ((k, v) ∷ es) =
    let rest = count_cluster cluster es in if k.cluster_id == cluster then rest + 1 else rest

-- The second loop: the affiliates of the cluster, each checked by its key and by its own field.
unfoldable pub of_cluster : String → List Entry → List (Option Affiliate)
of_cluster cluster [] = []
of_cluster cluster ((k, v) ∷ es) =
    let rest = of_cluster cluster es in
    if not (k.cluster_id == cluster)
    then rest
    else if not (v.cluster_id == cluster)
    then rest
    else v.affiliate ∷ rest

-- The critical section of `List`; no affiliates are a `nil` slice.
unfoldable pub list_affiliates :
    Visit ClusterAffiliateId ClusterAffiliate → String → Option Affiliates → List (Option Affiliate)
list_affiliates visit cluster none = []
list_affiliates visit cluster (some m) = elim (count_cluster cluster (visit m)) [
  | zero ↦ []
  | suc n ↦ of_cluster cluster (visit m)
]

-- The sweep and the listing visit the map in orders of their own.
unfoldable pub list :
    (visit_sweep visit : Visit ClusterAffiliateId ClusterAffiliate)
    → (swept_at : ℤ) → String
    → Server
    → Outcome (Server × List (Option Affiliate))
list visit_sweep visit swept_at cluster s = do
  s' ← collect_garbage visit_sweep swept_at s
  done (s', list_affiliates visit cluster s'.affiliates)

-- `if affiliate.Affiliate == nil { continue }; affiliates = append(affiliates, affiliate)`
unfoldable pub keep_present :
    Option Affiliate → ClusterAffiliate → List ClusterAffiliate → List ClusterAffiliate
keep_present none v rest = rest
keep_present (some a) v rest = v ∷ rest

-- The entries that hold an affiliate.
unfoldable pub present : List Entry → List ClusterAffiliate
present [] = []
present ((k, v) ∷ es) = keep_present v.affiliate v (present es)

unfoldable pub current_state :
    Visit ClusterAffiliateId ClusterAffiliate → Option Affiliates → List ClusterAffiliate
current_state visit none = []
current_state visit (some m) = present (visit m)

-- `if len(affiliates) == 0 { return }`
unfoldable pub announce_state : List ClusterAffiliate → Server → Outcome Server
announce_state [] s = done s
announce_state (a ∷ rest) s =
    broadcast (record { cluster_affiliates = a ∷ rest; deleted = false }) s

unfoldable pub broadcast_current_state :
    Visit ClusterAffiliateId ClusterAffiliate → Server → Outcome Server
broadcast_current_state visit s = announce_state (current_state visit s.affiliates) s
