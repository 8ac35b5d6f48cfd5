-- ===== src/Discovery/Concurrent/Liveness.antt =====
-- cluster_discovery_server.go: the turns of calls that run at once.
use dockyards_talos.Base.{
  ℕ, ◌+◌, ◌-◌, ◌*◌, ◌≤◌, ◌≡◌, ◌∙◌, refl, ap, Option, none, some, List, [], ◌∷◌, ◌++◌, arith,
  ℕ_discrete,
}
use dockyards_talos.Base.Positions.{
  get_elem?, set, get_elem?-set_self, get_elem?-set_ne, get_elem?-append,
}
use dockyards_talos.Base.Outcome.{done}
use dockyards_talos.Discovery.Watchers.Delivery.{Ready-weaken}
use dockyards_talos.Discovery.History.{Call}
use dockyards_talos.Discovery.Concurrent.{
  Place, joining, sweeping, announcing, pruning, acting, sending, finished, start_of, Thread,
  System, Event, arrive, turn, receive, reclaim, receive_at, reclaim_at, take_turn, happen, play,
}
use dockyards_talos.Discovery.Concurrent.Progress.{cost, rank, total_cost, advance_returns}
use dockyards_talos.Discovery.Concurrent.Room.{
  receive-Ready, reclaim-Ready, total_cost-append, total_cost-set, cost-start_of, arrivals, turns,
  Roomy, smaller, AtMost, Happens,
}

less_cost :
    (ths : List Thread) (i : ℕ) (th : Thread)
    → get_elem? ths i ≡ some th
    → (others : ℕ) × (total_cost ths ≡ cost th.place + others)
      × ((p : Place)
          → total_cost (set ths i (record { call = th.call; place = p })) ≡ cost p + others)
less_cost ths i th at =
    let rest = total_cost (set ths i (record { call = th.call; place = finished })) in
    (
      rest,
      omega (arith, total_cost-set ths i th (record { call = th.call; place = finished }) at),
      λ p. omega (
        arith,
        total_cost-set ths i th (record { call = th.call; place = finished }) at,
        total_cost-set ths i th (record { call = th.call; place = p }) at,
      ),
    )

turned :
    (ths : List Thread) (i j k : ℕ) (th : Thread) (p : Place)
    → get_elem? ths j ≡ some th
    → rank p ≤ rank th.place - 1
    → AtMost i k ths
    → AtMost i (k - turns i (turn j ∷ [])) (set ths j (record { call = th.call; place = p }))
turned ths i j k th p at closer (mine, at', few) =
    let th' : Thread = record { call = th.call; place = p } in
    elim (ℕ_discrete j i) [
      | yes same ↦ (th', rw (← same) (get_elem?-set_self ths j th th' at), ground arith)
      | no differ ↦ (mine, get_elem?-set_ne ths j i th' differ ∙ at', ground arith)
    ]

turn-Happens :
    (n i j k : ℕ) (th : Option Thread) (sys : System)
    → get_elem? sys.threads j ≡ th
    → Roomy n sys
    → Happens n i k (turn j) sys
unfolding happen take_turn
turn-Happens n i j k none sys at room = record {
  after = sys;
  returned = rw at;
  room = room;
  nearer = λ (mine, at', few). (
    mine,
    at',
    elim (ℕ_discrete j i) [ yes same ↦ absurd (ground arith) | no differ ↦ ground arith ],
  );
}
turn-Happens n i j k (some th) sys at room =
    let (others, before, later) = less_cost sys.threads j th at in
    let step = advance_returns (others + n) th.call th.place sys.server (omega arith) (
      Ready-weaken (total_cost sys.threads + n) (cost th.place + (others + n)) sys.server.watchers
        (omega arith) room.1) in
    record {
      after = record {
        server = step.server';
        threads = set sys.threads j (record { call = th.call; place = step.place' });
      };
      returned = rw at (rw step.returned);
      room = (
        omega (arith, later step.place', step.cheaper),
        Ready-weaken (cost step.place' + (others + n)) _ step.server'.watchers
            (omega (arith, later step.place')) step.room,
      );
      nearer = turned sys.threads i j k th step.place' at step.closer;
    }

arrive-Happens :
    (n i k : ℕ) (call : Call) (sys : System) → Roomy (2 + n) sys → Happens n i k (arrive call) sys
unfolding happen
arrive-Happens n i k call sys room =
    let th : Thread = record { call = call; place = start_of call } in
    let costs : total_cost (sys.threads ++ th ∷ []) ≡ total_cost sys.threads + 2 =
      total_cost-append sys.threads th
      ∙ ap (λ c. total_cost sys.threads + c) (cost-start_of call) in
    record {
      after = record sys { threads = sys.threads ++ th ∷ [] };
      returned = refl;
      room = (
        omega arith,
        Ready-weaken (total_cost sys.threads + (2 + n)) _ sys.server.watchers (omega arith) room.1,
      );
      nearer =
          λ (mine, at, few). (mine, get_elem?-append sys.threads (th ∷ []) i mine at, omega arith);
    }

event-Happens :
    (n i k : ℕ) (e : Event) (sys : System)
    → Roomy (2 * arrivals (e ∷ []) + n) sys
    → Happens n i k e sys
unfolding happen
event-Happens n i k (arrive call) sys room =
    arrive-Happens n i k call sys (smaller (2 * 1 + n) (2 + n) sys (omega arith) room)
event-Happens n i k (turn j) sys room =
    turn-Happens n i j k (get_elem? sys.threads j) sys refl
      (smaller (2 * 0 + n) n sys (omega arith) room)
event-Happens n i k (receive j) sys room =
    let room' = smaller (2 * 0 + n) n sys (omega arith) room in
    record {
      after = record sys {
        server = record sys.server { watchers = receive_at j sys.server.watchers };
      };
      returned = refl;
      room = (room'.0, receive-Ready (total_cost sys.threads + n) j sys.server.watchers room'.1);
      nearer = λ (mine, at, few). (mine, at, omega arith);
    }
event-Happens n i k (reclaim j) sys room =
    let room' = smaller (2 * 0 + n) n sys (omega arith) room in
    record {
      after = record sys {
        server = record sys.server { watchers = reclaim_at j sys.server.watchers };
      };
      returned = refl;
      room = (room'.0, reclaim-Ready (total_cost sys.threads + n) j sys.server.watchers room'.1);
      nearer = λ (mine, at, few). (mine, at, omega arith);
    }

arrivals-cons : (e : Event) (es : List Event) → arrivals (e ∷ es) ≡ arrivals (e ∷ []) + arrivals es
arrivals-cons (arrive call) es = omega arith
arrivals-cons (turn i) es = omega arith
arrivals-cons (receive i) es = omega arith
arrivals-cons (reclaim i) es = omega arith

turns-cons :
    (i : ℕ) (e : Event) (es : List Event) → turns i (e ∷ es) ≡ turns i (e ∷ []) + turns i es
turns-cons i (arrive call) es = omega arith
turns-cons i (turn j) es = ground arith
turns-cons i (receive j) es = omega arith
turns-cons i (reclaim j) es = omega arith

played :
    (i k : ℕ) (es : List Event) (sys : System)
    → Roomy (2 * arrivals es) sys
    → (sys' : System) × (play es sys ≡ done sys')
      × (AtMost i k sys.threads → AtMost i (k - turns i es) sys'.threads)
unfolding play
played i k [] sys room = (sys, refl, λ (mine, at, few). (mine, at, omega arith))
played i k (e ∷ es) sys room =
    let first = event-Happens (2 * arrivals es) i k e sys (
      smaller (2 * arrivals (e ∷ es)) (2 * arrivals (e ∷ []) + 2 * arrivals es) sys
        (omega (arith, arrivals-cons e es)) room) in
    let (sys', ran, nearer) = played i (k - turns i (e ∷ [])) es first.after first.room in
    (
      sys',
      rw first.returned ran,
      λ mine.
          let (mine', at, few) = nearer (first.nearer mine) in
          (mine', at, omega (arith, turns-cons i e es)),
    )

rank_zero : (p : Place) → rank p ≤ 0 → p ≡ finished
rank_zero joining h = absurd (omega arith)
rank_zero sweeping h = absurd (omega arith)
rank_zero (announcing deleted) h = absurd (omega arith)
rank_zero pruning h = absurd (omega arith)
rank_zero acting h = absurd (omega arith)
rank_zero (sending message) h = absurd (omega arith)
rank_zero finished h = refl

rank_bound : (p : Place) → rank p ≤ 6
rank_bound joining = omega arith
rank_bound sweeping = omega arith
rank_bound (announcing deleted) = omega arith
rank_bound pruning = omega arith
rank_bound acting = omega arith
rank_bound (sending message) = omega arith
rank_bound finished = omega arith

-- While the live channels are open and have room for all that the calls under way and the calls
-- that come in may still send, no event blocks or panics, however the calls interleave; and a call
-- under way that gets six turns among the events has finished at their end.
pub play_finishes :
    (es : List Event) (sys : System) (i : ℕ) (th : Thread)
    → Roomy (2 * arrivals es) sys
    → get_elem? sys.threads i ≡ some th
    → 6 ≤ turns i es
    → (sys' : System) × (play es sys ≡ done sys')
      × ((th' : Thread) × (get_elem? sys'.threads i ≡ some th') × (th'.place ≡ finished))
play_finishes es sys i th room at enough =
    let (sys', ran, nearer) = played i 6 es sys room in
    let (th', at', few) = nearer (th, at, rank_bound th.place) in
    (sys', ran, (th', at', rank_zero th'.place (omega arith)))
