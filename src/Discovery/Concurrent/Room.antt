-- ===== src/Discovery/Concurrent/Room.antt =====
-- cluster_discovery_server.go: the room in the channels for what calls may still send.
use dockyards_talos.Base.{
  ℕ, zero, suc, ◌+◌, ◌-◌, ◌≤◌, ◌≡◌, refl, Option, none, some, List, [], ◌∷◌, ◌++◌, arith, nat_eq,
  if◌then◌else◌,
}
use dockyards_talos.Base.Positions.{get_elem?, set}
use dockyards_talos.Base.Outcome.{done}
use dockyards_talos.Discovery.Watchers.{Channel, capacity}
use dockyards_talos.Discovery.Watchers.Delivery.{Ready, Ready-weaken}
use dockyards_talos.Discovery.History.{Call, update, delete, lists, watches, ticks}
use dockyards_talos.Discovery.Concurrent.{
  start_of, Thread, System, Event, arrive, turn, receive, reclaim, receive_at, reclaim_at, happen,
}
use dockyards_talos.Discovery.Concurrent.Safety.{length-drop_first}
use dockyards_talos.Discovery.Concurrent.Progress.{cost, rank, total_cost}

pub receive-Ready : (n i : ℕ) (ws : List (Option Channel)) → Ready n ws → Ready n (receive_at i ws)
receive-Ready n i [] h = tt
receive-Ready n zero (none ∷ ws) h = h
receive-Ready n zero (some c ∷ ws) h = (h.0, omega (arith, length-drop_first c.queue), h.2)
receive-Ready n (suc i) (none ∷ ws) h = receive-Ready n i ws h
receive-Ready n (suc i) (some c ∷ ws) h = (h.0, h.1, receive-Ready n i ws h.2)

pub reclaim-Ready : (n i : ℕ) (ws : List (Option Channel)) → Ready n ws → Ready n (reclaim_at i ws)
reclaim-Ready n i [] h = tt
reclaim-Ready n zero (none ∷ ws) h = h
reclaim-Ready n zero (some c ∷ ws) h = h.2
reclaim-Ready n (suc i) (none ∷ ws) h = reclaim-Ready n i ws h
reclaim-Ready n (suc i) (some c ∷ ws) h = (h.0, h.1, reclaim-Ready n i ws h.2)

pub total_cost-append :
    (ths : List Thread) (th : Thread) → total_cost (ths ++ th ∷ []) ≡ total_cost ths + cost th.place
total_cost-append [] th = omega arith
total_cost-append (x ∷ ths) th = omega (arith, total_cost-append ths th)

-- What the other threads may send.
pub total_cost-set :
    (ths : List Thread) (i : ℕ) (th th' : Thread)
    → get_elem? ths i ≡ some th
    → total_cost (set ths i th') + cost th.place ≡ total_cost ths + cost th'.place
total_cost-set [] i th th' at = absurd (ground arith)
total_cost-set (x ∷ ths) zero th th' at = let same : x ≡ th = cc in rw same (omega arith)
total_cost-set (x ∷ ths) (suc i) th th' at = omega (arith, total_cost-set ths i th th' at)

pub cost-start_of : (call : Call) → cost (start_of call) ≡ 2
cost-start_of (update visit visit_endpoints swept_at now req) = refl
cost-start_of (delete visit swept_at req) = refl
cost-start_of (lists visit_sweep visit swept_at cluster) = refl
cost-start_of (watches visit swept_at) = refl
cost-start_of (ticks visit_sweep visit now) = refl

-- The calls that come in, and the turns of the thread at a position.
abbrev pub arrivals : List Event → ℕ
arrivals [] = 0
arrivals (arrive call ∷ es) = suc (arrivals es)
arrivals (turn i ∷ es) = arrivals es
arrivals (receive i ∷ es) = arrivals es
arrivals (reclaim i ∷ es) = arrivals es

abbrev pub turns : ℕ → List Event → ℕ
turns i [] = 0
turns i (arrive call ∷ es) = turns i es
turns i (turn j ∷ es) = let rest = turns i es in if nat_eq j i then suc rest else rest
turns i (receive j ∷ es) = turns i es
turns i (reclaim j ∷ es) = turns i es

-- All that may still be sent: by the calls that are under way, and by those that come in.
abbrev pub Roomy : ℕ → System → Type 0
Roomy n sys =
    (total_cost sys.threads + n ≤ capacity) × Ready (total_cost sys.threads + n) sys.server.watchers

pub smaller : (m n : ℕ) (sys : System) → n ≤ m → Roomy m sys → Roomy n sys
smaller m n sys le room = (
  omega arith,
  Ready-weaken (total_cost sys.threads + m) (total_cost sys.threads + n) sys.server.watchers
      (omega arith) room.1,
)

-- The steps that the thread at a position has left, at most.
abbrev pub AtMost : ℕ → ℕ → List Thread → Type 0
AtMost i k ths = (th : Thread) × (get_elem? ths i ≡ some th) × (rank th.place ≤ k)

-- The result of an event, with room for `n` messages of calls that are still to come.
pub record Happens (n i k : ℕ) (e : Event) (sys : System) : Type 0 where
  pub after : System
  pub returned : happen e sys ≡ done after
  pub room : Roomy n after
  pub nearer : AtMost i k sys.threads → AtMost i (k - turns i (e ∷ [])) after.threads
