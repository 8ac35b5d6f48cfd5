-- ===== src/Discovery/Concurrent/Safety.antt =====
-- cluster_discovery_server.go: what holds between any two critical sections.
use dockyards_talos.Base.{
  ℕ, zero, suc, ◌≤◌, ◌≡◌, Option, none, some, List, [], ◌∷◌, ◌++◌, length, arith, select,
}
use dockyards_talos.Base.GoMap.{lookup, erase_all}
use dockyards_talos.Base.Positions.{get_elem?}
use dockyards_talos.Base.Outcome.{done, >>=-eq-done}
use dockyards_talos.Discovery.Types.{
  ClusterAffiliateId, id_eq, ClusterAffiliate, Affiliates, WatchResponse,
}
use dockyards_talos.Discovery.Watchers.{Channel, new_channel, Server, send_all, broadcast}
use dockyards_talos.Discovery.Garbage.{is_live, drop_expired, announce}
use dockyards_talos.Discovery.Garbage.Sweep.{prune_lem}
use dockyards_talos.Discovery.Garbage.Effect.{table}
use dockyards_talos.Discovery.Update.{key_of, or_zero, store_update}
use dockyards_talos.Discovery.Delete.{store_delete}
use dockyards_talos.Discovery.Consistency.{
  IsConsistent, insert-IsConsistent, erase-IsConsistent, updated-Filed,
}
use dockyards_talos.Discovery.History.{Call, update, delete, lists, watches, ticks}
use dockyards_talos.Discovery.Concurrent.{
  Place, joining, sweeping, announcing, pruning, acting, sending, finished, act, advance, Thread,
  System, Event, arrive, turn, receive, reclaim, receive_at, reclaim_at, take_turn, happen, play,
  drop_first,
}
use dockyards_talos.Discovery.Concurrent.Fits.{Fits, send_all-Fits}

-- What every step keeps.
pub record IsSafe (s : Server) : Type 0 where
  pub consistent : IsConsistent (table s)
  pub fits : Fits s.watchers

broadcast-IsSafe :
    (m : WatchResponse) (s s' : Server) → broadcast m s ≡ done s' → IsSafe s → IsSafe s'
unfolding broadcast
broadcast-IsSafe m s s' h safe =
    let (ws, e, h') = >>=-eq-done (send_all m s.watchers) _ h in
    let same : record s { watchers = ws } ≡ s' = cc in
    rw (← same) (record { consistent = safe.consistent; fits = send_all-Fits m s.watchers ws e })

announce-IsSafe :
    (deleted : List ClusterAffiliate) (s s' : Server)
    → announce deleted s ≡ done s'
    → IsSafe s
    → IsSafe s'
unfolding announce
announce-IsSafe [] s s' h safe = let same : s ≡ s' = cc in rw (← same) safe
announce-IsSafe (a ∷ rest) s s' h safe = broadcast-IsSafe _ s s' h safe

erase_all-IsConsistent :
    (ks : List ClusterAffiliateId) (m : Affiliates) → IsConsistent m → IsConsistent (erase_all ks m)
unfolding erase_all
erase_all-IsConsistent [] m c = c
erase_all-IsConsistent (k ∷ ks) m c = erase_all-IsConsistent ks _ (erase-IsConsistent k m c)

select-Fits : (ws : List (Option Channel)) → Fits ws → Fits (select is_live ws)
select-Fits [] h = tt
select-Fits (none ∷ ws) h = select-Fits ws h
select-Fits (some c ∷ ws) h = (h.0, select-Fits ws h.1)

append-Fits : (ws : List (Option Channel)) → Fits ws → Fits (ws ++ some new_channel ∷ [])
append-Fits [] h = (omega arith, tt)
append-Fits (none ∷ ws) h = append-Fits ws h
append-Fits (some c ∷ ws) h = (h.0, append-Fits ws h.1)

store_delete-IsSafe :
    (key : ClusterAffiliateId) (found : Option ClusterAffiliate) (s : Server)
    → IsSafe s
    → IsSafe (store_delete key found s)
unfolding store_delete
store_delete-IsSafe key none s safe = safe
store_delete-IsSafe key (some a) s safe = record {
  consistent = erase-IsConsistent key (table s) safe.consistent;
  fits = safe.fits;
}

act-IsSafe : (call : Call) (s : Server) → IsSafe s → IsSafe (act call s).1
unfolding act store_update
act-IsSafe (update visit visit_endpoints swept_at now req) s safe = record {
  consistent =
      insert-IsConsistent _ _ (table s)
        (updated-Filed visit_endpoints now req
          (or_zero (lookup (key_of req.cluster_id req.affiliate_id) (table s))))
        safe.consistent;
  fits = safe.fits;
}
act-IsSafe (delete visit swept_at req) s safe = store_delete-IsSafe _ _ s safe
act-IsSafe (lists visit_sweep visit swept_at cluster) s safe = safe
act-IsSafe (watches visit swept_at) s safe = safe
act-IsSafe (ticks visit_sweep visit now) s safe = safe

returned_server :
    {place : Place} {s : Server} {r : Place × Server} → done (place, s) ≡ done r → s ≡ r.1
returned_server h = cc

advance-IsSafe :
    (call : Call) (place : Place) (s : Server) (r : Place × Server)
    → advance call place s ≡ done r
    → IsSafe s
    → IsSafe r.1
unfolding advance drop_expired
advance-IsSafe call joining s r h safe =
    let same = returned_server h in
    rw (← same) (record { consistent = safe.consistent; fits = append-Fits s.watchers safe.fits })
advance-IsSafe call sweeping s r h safe =
    let same = returned_server h in
    rw (← same)
      (record { consistent = erase_all-IsConsistent _ (table s) safe.consistent; fits = safe.fits })
advance-IsSafe call (announcing deleted) s r h safe =
    let (s', e, h') = >>=-eq-done (announce deleted s) _ h in
    let same = returned_server h' in rw (← same) (announce-IsSafe deleted s s' e safe)
advance-IsSafe call pruning s r h safe =
    let same = returned_server h in
    rw (← same) (
      rw (prune_lem s)
        (record { consistent = safe.consistent; fits = select-Fits s.watchers safe.fits }))
advance-IsSafe call acting s r h safe =
    let same = returned_server h in rw (← same) (act-IsSafe call s safe)
advance-IsSafe call (sending message) s r h safe =
    let (s', e, h') = >>=-eq-done (broadcast message s) _ h in
    let same = returned_server h' in rw (← same) (broadcast-IsSafe message s s' e safe)
advance-IsSafe call finished s r h safe = let same = returned_server h in rw (← same) safe

pub length-drop_first : (q : List WatchResponse) → length (drop_first q) ≤ length q
length-drop_first [] = omega arith
length-drop_first (m ∷ q) = omega arith

receive-Fits : (i : ℕ) (ws : List (Option Channel)) → Fits ws → Fits (receive_at i ws)
receive-Fits i [] h = tt
receive-Fits zero (none ∷ ws) h = h
receive-Fits zero (some c ∷ ws) h = (omega (arith, length-drop_first c.queue), h.1)
receive-Fits (suc i) (none ∷ ws) h = receive-Fits i ws h
receive-Fits (suc i) (some c ∷ ws) h = (h.0, receive-Fits i ws h.1)

reclaim-Fits : (i : ℕ) (ws : List (Option Channel)) → Fits ws → Fits (reclaim_at i ws)
reclaim-Fits i [] h = tt
reclaim-Fits zero (none ∷ ws) h = h
reclaim-Fits zero (some c ∷ ws) h = h.1
reclaim-Fits (suc i) (none ∷ ws) h = reclaim-Fits i ws h
reclaim-Fits (suc i) (some c ∷ ws) h = (h.0, reclaim-Fits i ws h.1)

take_turn-IsSafe :
    (i : ℕ) (th : Option Thread) (sys sys' : System)
    → take_turn i th sys ≡ done sys'
    → IsSafe sys.server
    → IsSafe sys'.server
unfolding take_turn
take_turn-IsSafe i none sys sys' h safe = let same : sys ≡ sys' = cc in rw (← same) safe
take_turn-IsSafe i (some th) sys sys' h safe =
    let (r, e, h') = >>=-eq-done (advance th.call th.place sys.server) _ h in
    let same : r.1 ≡ sys'.server = cc in
    rw (← same) (advance-IsSafe th.call th.place sys.server r e safe)

happen-IsSafe :
    (e : Event) (sys sys' : System)
    → happen e sys ≡ done sys'
    → IsSafe sys.server
    → IsSafe sys'.server
unfolding happen
happen-IsSafe (arrive call) sys sys' h safe =
    let same : sys.server ≡ sys'.server = cc in rw (← same) safe
happen-IsSafe (turn i) sys sys' h safe =
    take_turn-IsSafe i (get_elem? sys.threads i) sys sys' h safe
happen-IsSafe (receive i) sys sys' h safe =
    let same : record sys.server { watchers = receive_at i sys.server.watchers } ≡ sys'.server =
      cc in
    rw (← same)
      (record { consistent = safe.consistent; fits = receive-Fits i sys.server.watchers safe.fits })
happen-IsSafe (reclaim i) sys sys' h safe =
    let same : record sys.server { watchers = reclaim_at i sys.server.watchers } ≡ sys'.server =
      cc in
    rw (← same)
      (record { consistent = safe.consistent; fits = reclaim-Fits i sys.server.watchers safe.fits })

-- Whatever calls come in and however their critical sections interleave with one another, with
-- clients that read and with channels that the runtime reclaims: if no step blocks or panics, the
-- map of the server stays well-formed, and no channel ever holds more messages than it has room
-- for.
pub play-IsSafe :
    (es : List Event) (sys sys' : System)
    → play es sys ≡ done sys'
    → IsSafe sys.server
    → IsSafe sys'.server
unfolding play
play-IsSafe [] sys sys' h safe = let same : sys ≡ sys' = cc in rw (← same) safe
play-IsSafe (e ∷ es) sys sys' h safe =
    let (mid, e', h') = >>=-eq-done (happen e sys) _ h in
    play-IsSafe es mid sys' h' (happen-IsSafe e sys mid e' safe)
