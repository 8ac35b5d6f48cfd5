-- ===== src/Discovery/Concurrent/Progress.antt =====
-- cluster_discovery_server.go: no step of a call blocks or panics while the channels have room.
use dockyards_talos.Base.{
  ℕ, ◌+◌, ◌-◌, ◌≤◌, ◌≡◌, refl, Option, none, some, List, [], ◌∷◌, ◌++◌, arith, select,
}
use dockyards_talos.Base.Outcome.{done}
use dockyards_talos.Discovery.Types.{ClusterAffiliateId, id_eq, ClusterAffiliate}
use dockyards_talos.Discovery.Watchers.{capacity, new_channel, Server}
use dockyards_talos.Discovery.Watchers.Delivery.{
  Ready, deliver, broadcast-deliver, deliver-Ready, Ready-weaken,
}
use dockyards_talos.Discovery.Garbage.{drop_expired, is_live}
use dockyards_talos.Discovery.Garbage.Sweep.{prune_lem}
use dockyards_talos.Discovery.Garbage.Effect.{
  expiry_messages, announce-deliver, expiry_messages-Ready, select-Ready,
}
use dockyards_talos.Discovery.Update.{store_update}
use dockyards_talos.Discovery.Delete.{store_delete}
use dockyards_talos.Discovery.Listing.Effect.{new_channel-Ready}
use dockyards_talos.Discovery.History.{Call, update, delete, lists, watches, ticks}
use dockyards_talos.Discovery.Concurrent.{
  Place, joining, sweeping, announcing, pruning, acting, sending, finished, deleted_place,
  state_place, act, advance, Thread,
}

-- The messages that a call may still send, and the steps that it may still take.
abbrev pub cost : Place → ℕ
cost joining = 2
cost sweeping = 2
cost (announcing deleted) = 2
cost pruning = 1
cost acting = 1
cost (sending message) = 1
cost finished = 0

abbrev pub rank : Place → ℕ
rank joining = 6
rank sweeping = 5
rank (announcing deleted) = 4
rank pruning = 3
rank acting = 2
rank (sending message) = 1
rank finished = 0

abbrev pub total_cost : List Thread → ℕ
total_cost [] = 0
total_cost (th ∷ ths) = cost th.place + total_cost ths

-- The result of a step that returned.
pub record Advances (n : ℕ) (call : Call) (place : Place) (s : Server) : Type 0 where
  pub place' : Place
  pub server' : Server
  pub returned : advance call place s ≡ done (place', server')
  pub cheaper : cost place' ≤ cost place
  pub closer : rank place' ≤ rank place - 1
  pub room : Ready (cost place' + n) server'.watchers

deleted_place_bounds :
    (found : Option ClusterAffiliate)
    → (cost (deleted_place found) ≤ 1) × (rank (deleted_place found) ≤ 1)
deleted_place_bounds none = omega arith
deleted_place_bounds (some a) = omega arith

state_place_bounds :
    (cas : List ClusterAffiliate) → (cost (state_place cas) ≤ 1) × (rank (state_place cas) ≤ 1)
state_place_bounds [] = omega arith
state_place_bounds (a ∷ cas) = omega arith

act_bounds : (call : Call) (s : Server) → (cost (act call s).0 ≤ 1) × (rank (act call s).0 ≤ 1)
unfolding act
act_bounds (update visit visit_endpoints swept_at now req) s = omega arith
act_bounds (delete visit swept_at req) s = deleted_place_bounds _
act_bounds (lists visit_sweep visit swept_at cluster) s = omega arith
act_bounds (watches visit swept_at) s = omega arith
act_bounds (ticks visit_sweep visit now) s = state_place_bounds _

store_delete-watchers :
    (key : ClusterAffiliateId) (found : Option ClusterAffiliate) (s : Server)
    → (store_delete key found s).watchers ≡ s.watchers
unfolding store_delete
store_delete-watchers key none s = refl
store_delete-watchers key (some a) s = refl

act-watchers : (call : Call) (s : Server) → (act call s).1.watchers ≡ s.watchers
unfolding act store_update
act-watchers (update visit visit_endpoints swept_at now req) s = refl
act-watchers (delete visit swept_at req) s = store_delete-watchers _ _ s
act-watchers (lists visit_sweep visit swept_at cluster) s = refl
act-watchers (watches visit swept_at) s = refl
act-watchers (ticks visit_sweep visit now) s = refl

-- With room for all that it may send, a call takes its next step.
pub advance_returns :
    (n : ℕ) (call : Call) (place : Place) (s : Server)
    → cost place + n ≤ capacity
    → Ready (cost place + n) s.watchers
    → Advances n call place s
unfolding advance drop_expired
advance_returns n call joining s le h = record {
  place' = sweeping;
  server' = record s { watchers = s.watchers ++ some new_channel ∷ [] };
  returned = refl;
  cheaper = omega arith;
  closer = omega arith;
  room = new_channel-Ready (2 + n) s.watchers le h;
}
advance_returns n call sweeping s le h = record {
  place' = _;
  server' = _;
  returned = refl;
  cheaper = omega arith;
  closer = omega arith;
  room = h;
}
advance_returns n call (announcing deleted) s le h = record {
  place' = pruning;
  server' = record s { watchers = deliver (expiry_messages deleted) s.watchers };
  returned = rw (announce-deliver deleted s (Ready-weaken (2 + n) 1 s.watchers (omega arith) h));
  cheaper = omega arith;
  closer = omega arith;
  room =
      expiry_messages-Ready (1 + n) deleted s.watchers
        (Ready-weaken (2 + n) (1 + n + 1) s.watchers (omega arith) h);
}
advance_returns n call pruning s le h = record {
  place' = acting;
  server' = record s { watchers = select is_live s.watchers };
  returned = rw (prune_lem s);
  cheaper = omega arith;
  closer = omega arith;
  room = select-Ready (1 + n) s.watchers h;
}
advance_returns n call acting s le h = record {
  place' = (act call s).0;
  server' = (act call s).1;
  returned = refl;
  cheaper = (act_bounds call s).0;
  closer = omega (arith, (act_bounds call s).1);
  room = rw (act-watchers call s) (
      Ready-weaken (1 + n) (cost (act call s).0 + n) s.watchers
        (omega (arith, (act_bounds call s).0)) h);
}
advance_returns n call (sending message) s le h = record {
  place' = finished;
  server' = record s { watchers = deliver (message ∷ []) s.watchers };
  returned = rw (broadcast-deliver message s (Ready-weaken (1 + n) 1 s.watchers (omega arith) h));
  cheaper = omega arith;
  closer = omega arith;
  room = Ready-weaken n (0 + n) (deliver (message ∷ []) s.watchers) (omega arith) (
      deliver-Ready n message s.watchers (Ready-weaken (1 + n) (n + 1) s.watchers (omega arith) h));
}
advance_returns n call finished s le h = record {
  place' = finished;
  server' = s;
  returned = refl;
  cheaper = omega arith;
  closer = omega arith;
  room = h;
}
