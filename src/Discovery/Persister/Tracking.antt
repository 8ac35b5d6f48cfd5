-- ===== src/Discovery/Persister/Tracking.antt =====
-- cluster_discovery_server.go: statePersister, through a history of calls.
use dockyards_talos.Base.{
  suc, ◌+◌, ◌*◌, ◌≤◌, ◌≡◌, refl, Option, none, some, List, [], ◌∷◌, arith, length, All,
}
use dockyards_talos.Base.GoMap.{lookup, erase}
use dockyards_talos.Base.Outcome.{done}
use dockyards_talos.Discovery.Types.{ClusterAffiliateId, id_eq, ClusterAffiliate, Affiliates}
use dockyards_talos.Discovery.Watchers.{capacity, new_channel, Server}
use dockyards_talos.Discovery.Watchers.Delivery.{Ready, Ready-weaken}
use dockyards_talos.Discovery.Garbage.Effect.{table, after_garbage}
use dockyards_talos.Discovery.Update.{updated}
use dockyards_talos.Discovery.Update.Effect.{fresh_entry, update_message, after_update}
use dockyards_talos.Discovery.Delete.Effect.{delete_message, delete_key, swept_server, after_found}
use dockyards_talos.Discovery.Listing.{current_state}
use dockyards_talos.Discovery.Listing.Effect.{state_messages}
use dockyards_talos.Discovery.Consistency.{IsConsistent, FiledAt, after_garbage-IsConsistent}
use dockyards_talos.Discovery.Persister.Mirror.{
  Persisting, deliver-Persisting, append-Persisting, update-Mirrors, delete-Mirrors,
}
use dockyards_talos.Discovery.Persister.Follow.{after_garbage-Persisting, state-Mirrors}
use dockyards_talos.Discovery.History.{Call, update, delete, lists, watches, ticks, IsFair, run}
use dockyards_talos.Discovery.History.Refinement.{
  joined, after, step-eq-after, after-Ready, after-IsConsistent,
}

found-Persisting :
    (p : Affiliates) (key : ClusterAffiliateId) (o : Option ClusterAffiliate) (s : Server)
    → FiledAt key o
    → Persisting p s.watchers (table s)
    → Persisting p (after_found key o s).watchers (table (after_found key o s))
found-Persisting p key none s filed h = h
found-Persisting p key (some a) s filed h =
    deliver-Persisting p (delete_message a ∷ []) s.watchers (table s) (erase key (table s))
      (λ q mirrors. rw (← filed.0) (delete-Mirrors a (table s) p q mirrors)) h

-- A call keeps the persister on the server's map.
pub after-Persisting :
    (c : Call) (s : Server) (p : Affiliates)
    → IsFair c
    → IsConsistent (table s)
    → Persisting p s.watchers (table s)
    → Persisting p (after c s).watchers (table (after c s))
unfolding updated
after-Persisting (update visit visit_endpoints swept_at now req) s p fair c h =
    let mid = after_garbage visit swept_at s in
    let fresh = fresh_entry visit visit_endpoints swept_at now req s in
    deliver-Persisting p (update_message visit visit_endpoints swept_at now req s ∷ []) mid.watchers
      (table mid) (table (after_update visit visit_endpoints swept_at now req s))
      (λ q mirrors. update-Mirrors fresh (table mid) p q mirrors)
      (after_garbage-Persisting visit fair.0 s c swept_at p h)
after-Persisting (delete visit swept_at req) s p fair c h =
    let mid = swept_server visit swept_at req s in
    let key = delete_key visit swept_at req s in
    found-Persisting p key (lookup key (table mid)) mid
      ((after_garbage-IsConsistent visit fair s c swept_at).filed key)
      (after_garbage-Persisting visit fair s c swept_at p h)
after-Persisting (lists visit_sweep visit swept_at cluster) s p fair c h =
    after_garbage-Persisting visit_sweep fair.0 s c swept_at p h
after-Persisting (watches visit swept_at) s p fair c h =
    after_garbage-Persisting visit fair (joined s) c swept_at p
      (append-Persisting p s.watchers (some new_channel ∷ []) (table s) h)
after-Persisting (ticks visit_sweep visit now) s p fair c h =
    let mid = after_garbage visit_sweep now s in
    deliver-Persisting p (state_messages (current_state visit mid.affiliates)) mid.watchers
      (table mid) (table mid)
      (state-Mirrors visit fair.1 mid (after_garbage-IsConsistent visit_sweep fair.0 s c now) p)
      (after_garbage-Persisting visit_sweep fair.0 s c now p h)

-- If the first watcher is the persister's live channel, and the persister is on the server's map
-- once it has read what waits there, then this is so after every history of calls, whose messages
-- fit into the channels; the history runs to its end.
pub run-Persisting :
    (cs : List Call) (s : Server) (p : Affiliates)
    → All IsFair cs
    → 2 * length cs ≤ capacity
    → Ready (2 * length cs) s.watchers
    → IsConsistent (table s)
    → Persisting p s.watchers (table s)
    → (s' : Server) × (run cs s ≡ done s') × Persisting p s'.watchers (table s')
unfolding run
run-Persisting [] s p fair le h c i = (s, refl, i)
run-Persisting (c ∷ cs) s p fair le h good i =
    let n = 2 * length cs in
    let le' : n + 2 ≤ capacity = omega arith in
    let h' : Ready (n + 2) s.watchers =
      Ready-weaken (2 * suc (length cs)) (n + 2) s.watchers (omega arith) h in
    rw (step-eq-after n c s le' h') (
      run-Persisting cs (after c s) p fair.1 (omega arith) (after-Ready n c s le' h')
        (after-IsConsistent c s fair.0 good) (after-Persisting c s p fair.0 good i))
