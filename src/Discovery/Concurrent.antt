-- ===== src/Discovery/Concurrent.antt =====
-- cluster_discovery_server.go and internal/sync: the calls as threads that share the server. Each
-- critical section under a mutex is one step; between two steps other threads run, clients read
-- their channels, and the runtime reclaims channels that only weak pointers refer to.
pub mod Alone
pub mod Fits
pub mod Safety
pub mod Progress
pub mod Room
pub mod Liveness
pub mod Race
use dockyards_talos.Base.{ℕ, zero, suc, Option, none, some, List, [], ◌∷◌, ◌++◌, false, true, Bytes}
use dockyards_talos.Base.GoMap.{lookup}
use dockyards_talos.Base.Positions.{get_elem?, set}
use dockyards_talos.Base.Time.{ℤ}
use dockyards_talos.Base.Outcome.{Outcome, done, ◌>>=◌}
use dockyards_talos.Discovery.Types.{id_eq, ClusterAffiliate, WatchResponse}
use dockyards_talos.Discovery.Watchers.{Channel, new_channel, Server, broadcast}
use dockyards_talos.Discovery.Garbage.{or_empty, drop_expired, announce, prune}
use dockyards_talos.Discovery.Update.{key_of, store_update}
use dockyards_talos.Discovery.Delete.{store_delete}
use dockyards_talos.Discovery.Listing.{current_state}
use dockyards_talos.Discovery.History.{VisitTable, Call, update, delete, lists, watches, ticks}

-- The next critical section of a call, with the local variables that are live there.
pub data Place : Type 0 where
  joining : Place  -- Watch: append the channel to the watchers
  sweeping : Place  -- collectGarbage: drop the expired entries
  announcing : (deleted : List ClusterAffiliate) → Place  -- collectGarbage: the broadcast
  pruning : Place  -- collectGarbage: drop the reclaimed watchers
  acting : Place  -- the section of the call itself on the map
  sending : (message : WatchResponse) → Place  -- the last broadcast of the call
  finished : Place

abbrev pub start_of : Call → Place
start_of (update visit visit_endpoints swept_at now req) = sweeping
start_of (delete visit swept_at req) = sweeping
start_of (lists visit_sweep visit swept_at cluster) = sweeping
start_of (watches visit swept_at) = joining
start_of (ticks visit_sweep visit now) = sweeping

abbrev pub sweep_visit : Call → VisitTable
sweep_visit (update visit visit_endpoints swept_at now req) = visit
sweep_visit (delete visit swept_at req) = visit
sweep_visit (lists visit_sweep visit swept_at cluster) = visit_sweep
sweep_visit (watches visit swept_at) = visit
sweep_visit (ticks visit_sweep visit now) = visit_sweep

abbrev pub sweep_time : Call → ℤ
sweep_time (update visit visit_endpoints swept_at now req) = swept_at
sweep_time (delete visit swept_at req) = swept_at
sweep_time (lists visit_sweep visit swept_at cluster) = swept_at
sweep_time (watches visit swept_at) = swept_at
sweep_time (ticks visit_sweep visit now) = now

-- `if !affiliateFound { return nil, nil }`
abbrev pub deleted_place : Option ClusterAffiliate → Place
deleted_place none = finished
deleted_place (some a) = sending (record { cluster_affiliates = a ∷ []; deleted = true })

-- `if len(affiliates) == 0 { return }`
abbrev pub state_place : List ClusterAffiliate → Place
state_place [] = finished
state_place (a ∷ rest) = sending (record { cluster_affiliates = a ∷ rest; deleted = false })

-- The section of the call itself, under the lock of the map. List only reads there, and its answer
-- is left to `list`.
unfoldable pub act : Call → Server → Place × Server
act (update visit visit_endpoints swept_at now req) s =
    let stored = store_update visit_endpoints now req s in
    (sending (record { cluster_affiliates = stored.0 ∷ []; deleted = false }), stored.1)
act (delete visit swept_at req) s =
    let key = key_of req.cluster_id req.affiliate_id in
    let found = lookup key (or_empty s.affiliates) in
    (deleted_place found, store_delete key found s)
act (lists visit_sweep visit swept_at cluster) s = (finished, s)
act (watches visit swept_at) s = (finished, s)
act (ticks visit_sweep visit now) s = (state_place (current_state visit s.affiliates), s)

-- One step of a call.
unfoldable pub advance : Call → Place → Server → Outcome (Place × Server)
advance call joining s =
    done (sweeping, record s { watchers = s.watchers ++ some new_channel ∷ [] })
advance call sweeping s =
    let swept = drop_expired (sweep_visit call) (sweep_time call) s in
    done (announcing swept.0, swept.1)
advance call (announcing deleted) s = do s' ← announce deleted s; done (pruning, s')
advance call pruning s = done (acting, prune s)
advance call acting s = done (act call s)
advance call (sending message) s = do s' ← broadcast message s; done (finished, s')
advance call finished s = done (finished, s)

pub record Thread : Type 0 where
  pub call : Call
  pub place : Place

pub record System : Type 0 where
  pub server : Server
  pub threads : List Thread

-- What may happen next.
pub data Event : Type 0 where
  arrive : Call → Event  -- a call comes in
  turn : ℕ → Event  -- a thread takes its next step
  receive : ℕ → Event  -- the client of a watcher reads a message
  reclaim : ℕ → Event  -- the channel of a watcher is garbage to the runtime

-- A client that finds its channel empty goes on waiting.
abbrev pub drop_first : List WatchResponse → List WatchResponse
drop_first [] = []
drop_first (m ∷ rest) = rest

abbrev pub after_receive : Option Channel → Option Channel
after_receive none = none
after_receive (some c) = some (record c { queue = drop_first c.queue })

abbrev pub receive_at : ℕ → List (Option Channel) → List (Option Channel)
receive_at i [] = []
receive_at zero (w ∷ ws) = after_receive w ∷ ws
receive_at (suc i) (w ∷ ws) = w ∷ receive_at i ws

abbrev pub reclaim_at : ℕ → List (Option Channel) → List (Option Channel)
reclaim_at i [] = []
reclaim_at zero (w ∷ ws) = none ∷ ws
reclaim_at (suc i) (w ∷ ws) = w ∷ reclaim_at i ws

abbrev pub with_watchers : System → List (Option Channel) → System
with_watchers sys ws = record sys { server = record sys.server { watchers = ws } }

-- The step of the thread at the position `i`, if there is one.
unfoldable pub take_turn : ℕ → Option Thread → System → Outcome System
take_turn i none sys = done sys
take_turn i (some th) sys = do
  r ← advance th.call th.place sys.server
  done (record {
    server = r.1;
    threads = set sys.threads i (record { call = th.call; place = r.0 });
  })

unfoldable pub happen : Event → System → Outcome System
happen (arrive call) sys =
    done
      (record sys { threads = sys.threads ++ record { call = call; place = start_of call } ∷ [] })
happen (turn i) sys = take_turn i (get_elem? sys.threads i) sys
happen (receive i) sys = done (with_watchers sys (receive_at i sys.server.watchers))
happen (reclaim i) sys = done (with_watchers sys (reclaim_at i sys.server.watchers))

unfoldable pub play : List Event → System → Outcome System
play [] sys = done sys
play (e ∷ es) sys = do sys' ← happen e sys; play es sys'
