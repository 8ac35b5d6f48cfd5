-- ===== src/Discovery/Listing/Effect.antt =====
-- cluster_discovery_server.go: the server after List, Watch and the ticks of the garbage collector.
use dockyards_talos.Base.{
  ℕ, ◌+◌, ◌≤◌, ◌≡◌, refl, Option, none, some, List, [], ◌∷◌, ◌++◌, false, arith,
}
use dockyards_talos.Base.Range.{Visit}
use dockyards_talos.Base.Outcome.{done}
use dockyards_talos.Discovery.Types.{ClusterAffiliateId, ClusterAffiliate, WatchResponse}
use dockyards_talos.Discovery.Watchers.{Channel, capacity, new_channel, Server}
use dockyards_talos.Discovery.Watchers.Delivery.{
  Ready, deliver, broadcast-deliver, deliver-Ready, Ready-weaken, deliver-nil,
}
use dockyards_talos.Discovery.Listing.{current_state, announce_state, broadcast_current_state}

abbrev pub state_messages : List ClusterAffiliate → List WatchResponse
state_messages [] = []
state_messages (a ∷ rest) = record { cluster_affiliates = a ∷ rest; deleted = false } ∷ []

abbrev pub after_state : Visit ClusterAffiliateId ClusterAffiliate → Server → Server
after_state visit s = record s {
  watchers = deliver (state_messages (current_state visit s.affiliates)) s.watchers;
}

announce_state-deliver :
    (cas : List ClusterAffiliate) (s : Server)
    → Ready 1 s.watchers
    → announce_state cas s ≡ done (record s { watchers = deliver (state_messages cas) s.watchers })
unfolding announce_state
announce_state-deliver [] s h = rw (deliver-nil s.watchers)
announce_state-deliver (a ∷ rest) s h = broadcast-deliver _ s h

pub broadcast_current_state-eq-after :
    (visit : Visit ClusterAffiliateId ClusterAffiliate) (s : Server)
    → Ready 1 s.watchers
    → broadcast_current_state visit s ≡ done (after_state visit s)
unfolding broadcast_current_state
broadcast_current_state-eq-after visit s h =
    announce_state-deliver (current_state visit s.affiliates) s h

pub state_messages-Ready :
    (n : ℕ) (cas : List ClusterAffiliate) (ws : List (Option Channel))
    → Ready (n + 1) ws
    → Ready n (deliver (state_messages cas) ws)
state_messages-Ready n [] ws h = rw (deliver-nil ws) (Ready-weaken (n + 1) n ws (omega arith) h)
state_messages-Ready n (a ∷ rest) ws h = deliver-Ready n _ ws h

-- A new watcher has an empty channel.
pub new_channel-Ready :
    (n : ℕ) (ws : List (Option Channel))
    → n ≤ capacity
    → Ready n ws
    → Ready n (ws ++ some new_channel ∷ [])
new_channel-Ready n [] le h = (refl, omega arith, tt)
new_channel-Ready n (none ∷ ws) le h = new_channel-Ready n ws le h
new_channel-Ready n (some c ∷ ws) le h = (h.0, h.1, new_channel-Ready n ws le h.2)
