-- ===== src/Discovery/Watchers.antt =====
-- cluster_discovery_server.go: the server's state, and broadcast to the channels of the watchers.
-- A watcher is a weak pointer to a channel; it reads `none` once the runtime has reclaimed it.
pub mod Delivery
use dockyards_talos.Base.{ℕ, Option, none, some, List, [], ◌∷◌, ◌++◌, Bool, true, false}
use dockyards_talos.Base.{if◌then◌else◌, ltb, length}
use dockyards_talos.Base.Time.{ℤ}
use dockyards_talos.Base.Outcome.{Outcome, done, blocks, panics, ◌>>=◌}
use dockyards_talos.Discovery.Types.{WatchResponse, Affiliates}

pub record Channel : Type 0 where
  pub queue : List WatchResponse
  pub is_closed : Bool

-- `make(chan WatchResponse, 1024)`
abbrev pub capacity : ℕ
capacity = 1024

abbrev pub new_channel : Channel
new_channel = record { queue = []; is_closed = false }

-- A send on a closed channel panics, and one on a full channel waits.
unfoldable pub send : WatchResponse → Channel → Outcome Channel
send message c =
    if c.is_closed
    then panics
    else if ltb (length c.queue) capacity
    then done (record c { queue = c.queue ++ message ∷ [] })
    else blocks

pub record Server : Type 0 where
  pub garbage_collection_interval : ℤ
  pub garbage_collector_killed : Bool
  pub watchers : List (Option Channel)
  pub affiliates : Option Affiliates

-- The loop of `broadcast`, under the lock of the watchers.
unfoldable pub send_all : WatchResponse → List (Option Channel) → Outcome (List (Option Channel))
send_all message [] = done []
send_all message (none ∷ ws) = do rest ← send_all message ws; done (none ∷ rest)
send_all message (some c ∷ ws) = do
  c' ← send message c
  rest ← send_all message ws
  done (some c' ∷ rest)

unfoldable pub broadcast : WatchResponse → Server → Outcome Server
broadcast message s = do ws ← send_all message s.watchers; done (record s { watchers = ws })
