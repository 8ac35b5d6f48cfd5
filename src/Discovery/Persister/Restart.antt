-- ===== src/Discovery/Persister/Restart.antt =====
-- cluster_discovery_server.go: NewClusterDiscoveryServer on a state that statePersister saved.
use dockyards_talos.Base.{
  ℕ, ◌*◌, ◌≤◌, ◌≡◌, refl, sym, ap, ◌∙◌, Option, none, some, List, [], ◌∷◌, arith, length, All,
  string_eq,
}
use dockyards_talos.Base.GoMap.{lookup, values}
use dockyards_talos.Base.Range.{Visit, IsVisit}
use dockyards_talos.Discovery.Types.{
  ClusterAffiliateId, id_eq, ClusterAffiliate, Affiliates, WatchResponse,
}
use dockyards_talos.Discovery.Consistency.{new_server-IsConsistent}
use dockyards_talos.Discovery.Lifecycle.{load_state, new_server}
use dockyards_talos.Discovery.Watchers.{Channel, capacity, Server}
use dockyards_talos.Discovery.Watchers.Delivery.{Ready}
use dockyards_talos.Discovery.Garbage.Effect.{table}
use dockyards_talos.Discovery.History.{Call, IsFair, run}
use dockyards_talos.Discovery.Persister.Mirror.{Mirrors, Persisting}
use dockyards_talos.Discovery.Persister.Tracking.{run-Persisting}
use dockyards_talos.Base.Time.{ℤ}
use dockyards_talos.Base.Outcome.{done}
use dockyards_talos.Discovery.Persister.{initial_state, absorb_all}
use dockyards_talos.Discovery.Persister.Messages.{IsNamed}
use dockyards_talos.Discovery.Persister.Rebuild.{
  load_state-record_all, persister-IsConsistent, rebuild,
}

-- The first watcher of the server: the persister's channel, if there is one.
abbrev pub waiting : List (Option Channel) → List WatchResponse
waiting [] = []
waiting (none ∷ ws) = []
waiting (some c ∷ ws) = c.queue

Persisting-waiting :
    (p : Affiliates) (ws : List (Option Channel)) (m : Affiliates)
    → Persisting p ws m
    → Mirrors p (waiting ws) m
Persisting-waiting p [] m h = absurd h
Persisting-waiting p (none ∷ ws) m h = absurd h
Persisting-waiting p (some c ∷ ws) m h = h

abbrev pub started : List ClusterAffiliate → ℤ → Server
started l interval = new_server (record { loaded = some l; garbage_collection_interval = interval })

started-Persisting :
    (l : List ClusterAffiliate) (interval : ℤ)
    → Persisting (initial_state l) (started l interval).watchers (table (started l interval))
unfolding new_server absorb_all initial_state
started-Persisting l interval k named = sym (load_state-record_all l [] [] k named refl)

started-Ready :
    (l : List ClusterAffiliate) (interval : ℤ) (n : ℕ)
    → n ≤ capacity
    → Ready n (started l interval).watchers
unfolding new_server
started-Ready l interval n le = (refl, omega arith, tt)

pub table-started :
    (l : List ClusterAffiliate) (interval : ℤ) → table (started l interval) ≡ load_state l []
unfolding new_server
table-started l interval = refl

-- A server is started on the loaded state `l` and serves a history of calls, whose messages fit
-- into a channel. The history runs to its end, and once the persister, whose weak pointer is taken
-- to stay live, has read its channel, it has the same entry as the server under each key with an
-- identity.
pub persister-follows :
    (l : List ClusterAffiliate) (interval : ℤ) (cs : List Call) (k : ClusterAffiliateId)
    → All IsFair cs
    → 2 * length cs ≤ capacity
    → IsNamed k
    → (s' : Server) × (run cs (started l interval) ≡ done s')
      × (lookup k (absorb_all (waiting s'.watchers) (initial_state l)) ≡ lookup k (table s'))
persister-follows l interval cs k fair le named =
    let (s', ran, follows) =
      run-Persisting cs (started l interval) (initial_state l) fair le
        (started-Ready l interval (2 * length cs) le) (new_server-IsConsistent _)
        (started-Persisting l interval) in
    (s', ran, Persisting-waiting (initial_state l) s'.watchers (table s') follows k named)

-- A server is started on the loaded state `l` and serves a history of calls, whose messages fit
-- into a channel, and the persister, whose weak pointer is taken to stay live, has read its channel.
-- A second server that is started on what the persister saves then, in whatever order it visits
-- its map, has the same entry as the first one under each key with an identity.
pub restart-recovers :
    (l : List ClusterAffiliate) (interval interval' : ℤ) (cs : List Call)
    (visit : Visit ClusterAffiliateId ClusterAffiliate) (k : ClusterAffiliateId)
    → All IsFair cs
    → 2 * length cs ≤ capacity
    → IsVisit visit
    → IsNamed k
    → (s' : Server) × (run cs (started l interval) ≡ done s')
      × (lookup k (
            table (
              started
                (values (visit (absorb_all (waiting s'.watchers) (initial_state l))))
                interval'))
          ≡ lookup k (table s'))
restart-recovers l interval interval' cs visit k fair le visited named =
    let (s', ran, follows) = persister-follows l interval cs k fair le named in
    let p = absorb_all (waiting s'.watchers) (initial_state l) in
    (
      s',
      ran,
      ap (lookup k) (table-started (values (visit p)) interval')
          ∙ rebuild visit visited p (persister-IsConsistent l (waiting s'.watchers)) k named
          ∙ follows,
    )
