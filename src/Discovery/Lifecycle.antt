-- ===== src/Discovery/Lifecycle.antt =====
-- cluster_discovery_server.go: NewClusterDiscoveryServer, Close and garbageCollectionLoop.
use dockyards_talos.Base.{
  zero, suc, ◌*◌, Option, none, some, List, [], ◌∷◌, true, false, if◌then◌else◌,
}
use dockyards_talos.Base.GoMap.{insert}
use dockyards_talos.Base.Range.{Visit}
use dockyards_talos.Base.Time.{ℤ, pos, negsuc, minute}
use dockyards_talos.Base.Outcome.{Outcome, done, panics, ◌>>=◌}
use dockyards_talos.Discovery.Types.{
  ClusterAffiliateId, id_eq, Affiliate, ClusterAffiliate, Affiliates,
}
use dockyards_talos.Discovery.Watchers.{Channel, new_channel, Server}
use dockyards_talos.Discovery.Garbage.{collect_garbage}
use dockyards_talos.Discovery.Listing.{broadcast_current_state}

-- The options that the constructor reads: the loaded state is `none` without a provider.
pub record Options : Type 0 where
  pub loaded : Option (List ClusterAffiliate)
  pub garbage_collection_interval : ℤ

-- `if affiliate.Affiliate == nil { continue }; state[id] = affiliate`
unfoldable pub load_one : ClusterAffiliate → Option Affiliate → Affiliates → Affiliates
load_one ca none state = state
load_one ca (some a) state =
    insert (record { cluster_id = ca.cluster_id; affiliate_id = a.id }) ca state

-- The loop that fills the map.
unfoldable pub load_state : List ClusterAffiliate → Affiliates → Affiliates
load_state [] state = state
load_state (ca ∷ rest) state = load_state rest (load_one ca ca.affiliate state)

-- With a provider the persister's channel is the first watcher.
unfoldable pub new_server : Options → Server
new_server opts = record {
  garbage_collection_interval = opts.garbage_collection_interval;
  garbage_collector_killed = false;
  watchers = elim opts.loaded [ none ↦ [] | some l ↦ some new_channel ∷ [] ];
  affiliates = elim opts.loaded [ none ↦ some [] | some l ↦ some (load_state l []) ];
}

-- Closing a closed channel panics.
unfoldable pub close_channel : Channel → Outcome Channel
close_channel c = if c.is_closed then panics else done (record c { is_closed = true })

unfoldable pub close_all : List (Option Channel) → Outcome (List (Option Channel))
close_all [] = done []
close_all (none ∷ ws) = do rest ← close_all ws; done (none ∷ rest)
close_all (some c ∷ ws) = do c' ← close_channel c; rest ← close_all ws; done (some c' ∷ rest)

unfoldable pub close : Server → Outcome Server
close s = if s.garbage_collector_killed then panics else do
  ws ← close_all s.watchers
  done (record s { garbage_collector_killed = true; watchers = ws })

-- The start of the loop: the interval of its ticker. `time.NewTicker` panics on a negative one.
unfoldable pub start_ticker : Server → Outcome ℤ
start_ticker s = elim s.garbage_collection_interval [
  | pos zero ↦ done (pos (15 * minute))
  | pos (suc n) ↦ done (pos (suc n))
  | negsuc n ↦ panics
]

-- One tick of the loop. Its two loops over the map visit it in orders of their own.
unfoldable pub tick :
    (visit_sweep visit : Visit ClusterAffiliateId ClusterAffiliate)
    → (now : ℤ) → Server
    → Outcome Server
tick visit_sweep visit now s = do
  s' ← collect_garbage visit_sweep now s
  broadcast_current_state visit s'
