-- ===== src/Discovery/Watchers/Delivery.antt =====
-- cluster_discovery_server.go: broadcast, when every live channel is open and has room.
use mathlib.Core.List.{append-nil}
use dockyards_talos.Base.{
  ℕ, ◌+◌, ◌≤◌, ◌≡◌, refl, Option, none, some, List, [], ◌∷◌, ◌++◌, false, arith, length,
}
use dockyards_talos.Base.Outcome.{done}
use dockyards_talos.Discovery.Types.{WatchResponse}
use dockyards_talos.Discovery.Watchers.{Channel, capacity, Server, send, send_all, broadcast}

-- Every live channel gets the messages, behind those that wait in it.
unfoldable pub deliver : List WatchResponse → List (Option Channel) → List (Option Channel)
deliver messages [] = []
deliver messages (none ∷ ws) = none ∷ deliver messages ws
deliver messages (some c ∷ ws) =
    some (record c { queue = c.queue ++ messages }) ∷ deliver messages ws

pub deliver-nil : (ws : List (Option Channel)) → deliver [] ws ≡ ws
unfolding deliver
deliver-nil [] = refl
deliver-nil (none ∷ ws) = rw (deliver-nil ws)
deliver-nil (some c ∷ ws) = rw (deliver-nil ws, append-nil c.queue)

-- Every live channel is open and has room for `n` messages.
abbrev pub Ready : ℕ → List (Option Channel) → Type 0
Ready n [] = Unit
Ready n (none ∷ ws) = Ready n ws
Ready n (some c ∷ ws) = (c.is_closed ≡ false) × (length c.queue + n ≤ capacity) × Ready n ws

pub length-snoc {ℓ} : {A : Type ℓ} (xs : List A) (x : A) → length (xs ++ x ∷ []) ≡ length xs + 1
length-snoc [] x = omega arith
length-snoc (y ∷ xs) x = omega (arith, length-snoc xs x)

pub send_all-deliver :
    (m : WatchResponse) (ws : List (Option Channel))
    → Ready 1 ws
    → send_all m ws ≡ done (deliver (m ∷ []) ws)
unfolding send_all send deliver
send_all-deliver m [] h = refl
send_all-deliver m (none ∷ ws) h = rw (send_all-deliver m ws h)
send_all-deliver m (some c ∷ ws) h = ground (arith, send_all-deliver m ws)

pub deliver-Ready :
    (n : ℕ) (m : WatchResponse) (ws : List (Option Channel))
    → Ready (n + 1) ws
    → Ready n (deliver (m ∷ []) ws)
unfolding deliver
deliver-Ready n m [] h = tt
deliver-Ready n m (none ∷ ws) h = deliver-Ready n m ws h
deliver-Ready n m (some c ∷ ws) h =
    (h.0, omega (arith, length-snoc c.queue m), deliver-Ready n m ws h.2)

pub Ready-weaken : (m n : ℕ) (ws : List (Option Channel)) → n ≤ m → Ready m ws → Ready n ws
Ready-weaken m n [] le h = tt
Ready-weaken m n (none ∷ ws) le h = Ready-weaken m n ws le h
Ready-weaken m n (some c ∷ ws) le h = (h.0, omega arith, Ready-weaken m n ws le h.2)

-- A broadcast to ready channels returns, and changes nothing of the server but the queues.
pub broadcast-deliver :
    (m : WatchResponse) (s : Server)
    → Ready 1 s.watchers
    → broadcast m s ≡ done (record s { watchers = deliver (m ∷ []) s.watchers })
unfolding broadcast
broadcast-deliver m s h = rw (send_all-deliver m s.watchers h)
