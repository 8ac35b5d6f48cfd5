-- ===== src/Discovery/Garbage.antt =====
-- cluster_discovery_server.go: collectGarbage.
pub mod Sweep
pub mod Effect
use dockyards_talos.Base.{Option, none, some, List, [], ◌∷◌, Bool, true, false, ℕ_discrete, ite}
use dockyards_talos.Base.{if◌then◌else◌, length, select}
use dockyards_talos.Base.GoMap.{GoMap, erase_all}
use dockyards_talos.Base.Range.{Visit}
use dockyards_talos.Base.Time.{ℤ, after}
use dockyards_talos.Base.Outcome.{Outcome, done, ◌>>=◌}
use dockyards_talos.Discovery.Types.{
  ClusterAffiliateId, id_eq, ClusterAffiliate, Affiliates, WatchResponse,
}
use dockyards_talos.Discovery.Watchers.{Channel, Server, broadcast}

-- `if affiliates == nil { affiliates = map[…]{} }`
abbrev pub or_empty : Option Affiliates → Affiliates
or_empty none = []
or_empty (some m) = m

-- `now.After(affiliate.RemoveAfter)`
abbrev pub is_expired : ℤ → ClusterAffiliate → Bool
is_expired now a = after now a.remove_after

-- The loop over the entries: the expired affiliates, and their keys.
unfoldable pub sweep :
    ℤ
    → List (ClusterAffiliateId × ClusterAffiliate)
    → List ClusterAffiliate × List ClusterAffiliateId
sweep now [] = ([], [])
sweep now ((id, a) ∷ es) =
    let rest = sweep now es in if is_expired now a then (a ∷ rest.0, id ∷ rest.1) else rest

abbrev pub is_live : Option Channel → Bool
is_live none = false
is_live (some c) = true

-- The last critical section: drop the reclaimed watchers, if there are any.
unfoldable pub prune : Server → Server
prune s =
    let kept = select is_live s.watchers in
    ite (ℕ_discrete (length s.watchers) (length kept)) s (record s { watchers = kept })

-- The first critical section: the swept entries, and the server without them.
unfoldable pub drop_expired :
    Visit ClusterAffiliateId ClusterAffiliate → ℤ → Server → List ClusterAffiliate × Server
drop_expired visit now s =
    let table = or_empty s.affiliates in
    let swept = sweep now (visit table) in
    (swept.0, record s { affiliates = some (erase_all swept.1 table) })

-- `if len(deleted) != 0 { s.broadcast(…) }`
unfoldable pub announce : List ClusterAffiliate → Server → Outcome Server
announce [] s = done s
announce (a ∷ rest) s = broadcast (record { cluster_affiliates = a ∷ rest; deleted = true }) s

unfoldable pub collect_garbage :
    Visit ClusterAffiliateId ClusterAffiliate → ℤ → Server → Outcome Server
collect_garbage visit now s =
    let (deleted, s') = drop_expired visit now s in do s'' ← announce deleted s'; done (prune s'')
