-- ===== src/Discovery/Concurrent/Fits.antt =====
-- cluster_discovery_server.go: channels hold no more messages than they have room for.
use dockyards_talos.Base.{◌≤◌, ◌≡◌, Option, none, some, List, [], ◌∷◌, length, arith}
use dockyards_talos.Base.Outcome.{done, >>=-eq-done}
use dockyards_talos.Discovery.Types.{id_eq, WatchResponse}
use dockyards_talos.Discovery.Watchers.{Channel, capacity, send, send_all}
use dockyards_talos.Discovery.Watchers.Delivery.{length-snoc}

-- No channel holds more messages than it has room for.
abbrev pub Fits : List (Option Channel) → Type 0
Fits [] = Unit
Fits (none ∷ ws) = Fits ws
Fits (some c ∷ ws) = (length c.queue ≤ capacity) × Fits ws

pub send-Fits :
    (m : WatchResponse) (c c' : Channel) → send m c ≡ done c' → length c'.queue ≤ capacity
unfolding send
send-Fits m c c' h = ground (arith, length-snoc c.queue m)

pub send_all-Fits :
    (m : WatchResponse) (ws ws' : List (Option Channel)) → send_all m ws ≡ done ws' → Fits ws'
unfolding send_all
send_all-Fits m [] ws' h = let same : ◌≡◌ {A = List (Option Channel)} [] ws' = cc in rw (← same) tt
send_all-Fits m (none ∷ ws) ws' h =
    let (rest, e, h') = >>=-eq-done (send_all m ws) _ h in
    let same : none ∷ rest ≡ ws' = cc in rw (← same) (send_all-Fits m ws rest e)
send_all-Fits m (some c ∷ ws) ws' h =
    let (c', e, h') = >>=-eq-done (send m c) _ h in
    let (rest, e', h'') = >>=-eq-done (send_all m ws) _ h' in
    let same : some c' ∷ rest ≡ ws' = cc in
    rw (← same) (send-Fits m c c' e, send_all-Fits m ws rest e')
