-- ===== src/Discovery/Persister/Mirror.antt =====
-- cluster_discovery_server.go: statePersister's map beside the server's.
use mathlib.Core.List.{append-nil}
use dockyards_talos.Base.{
  ◌≡◌, refl, ap, ◌∙◌, Option, none, some, List, [], ◌∷◌, ◌++◌, true, false, map, arith, select,
}
use dockyards_talos.Base.GoMap.{
  lookup, insert, erase, erase_all, lookup-insert, lookup-erase, lookup-erase_all,
}
use dockyards_talos.Discovery.Types.{
  ClusterAffiliateId, id_eq, ClusterAffiliate, Affiliates, WatchResponse,
}
use dockyards_talos.Discovery.Watchers.{Channel}
use dockyards_talos.Discovery.Watchers.Delivery.{deliver}
use dockyards_talos.Discovery.Garbage.{is_live}
use dockyards_talos.Discovery.Garbage.Effect.{expiry_messages}
use dockyards_talos.Discovery.Persister.{own_key, absorb, absorb_all, record_all}
use dockyards_talos.Discovery.Persister.Messages.{IsNamed, lookup-forget_all, lookup-record_one}

-- Once the persister, at the map `p`, has read the messages `q`, it has the map `m`.
abbrev pub Mirrors : Affiliates → List WatchResponse → Affiliates → Type 0
Mirrors p q m = (k : ClusterAffiliateId) → IsNamed k → lookup k (absorb_all q p) ≡ lookup k m

pub absorb_all-append :
    (q r : List WatchResponse) (p : Affiliates)
    → absorb_all (q ++ r) p ≡ absorb_all r (absorb_all q p)
unfolding absorb_all
absorb_all-append [] r p = refl
absorb_all-append (x ∷ q) r p = absorb_all-append q r (absorb x p)

-- The first watcher is the persister's channel, live, and what waits in it leads to `m`.
abbrev pub Persisting : Affiliates → List (Option Channel) → Affiliates → Type 0
Persisting p [] m = ⊥
Persisting p (none ∷ ws) m = ⊥
Persisting p (some c ∷ ws) m = Mirrors p c.queue m

pub deliver-Persisting :
    (p : Affiliates) (ms : List WatchResponse) (ws : List (Option Channel)) (m m' : Affiliates)
    → ((q : List WatchResponse) → Mirrors p q m → Mirrors p (q ++ ms) m')
    → Persisting p ws m
    → Persisting p (deliver ms ws) m'
unfolding deliver
deliver-Persisting p ms [] m m' f h = h
deliver-Persisting p ms (none ∷ ws) m m' f h = h
deliver-Persisting p ms (some c ∷ ws) m m' f h = f c.queue h

pub select-Persisting :
    (p : Affiliates) (ws : List (Option Channel)) (m : Affiliates)
    → Persisting p ws m
    → Persisting p (select is_live ws) m
select-Persisting p [] m h = h
select-Persisting p (none ∷ ws) m h = absurd h
select-Persisting p (some c ∷ ws) m h = h

pub append-Persisting :
    (p : Affiliates) (ws vs : List (Option Channel)) (m : Affiliates)
    → Persisting p ws m
    → Persisting p (ws ++ vs) m
append-Persisting p [] vs m h = absurd h
append-Persisting p (none ∷ ws) vs m h = absurd h
append-Persisting p (some c ∷ ws) vs m h = h

-- To follow with one more message, look at its effect on the map.
pub Mirrors-snoc :
    (p : Affiliates) (q : List WatchResponse) (msg : WatchResponse) (m m' : Affiliates)
    → ((n : Affiliates)
        → ((k : ClusterAffiliateId) → IsNamed k → lookup k n ≡ lookup k m)
        → (k : ClusterAffiliateId) → IsNamed k
        → lookup k (absorb msg n) ≡ lookup k m')
    → Mirrors p q m
    → Mirrors p (q ++ msg ∷ []) m'
unfolding absorb_all
Mirrors-snoc p q msg m m' effect h k named =
    ap (lookup k) (absorb_all-append q (msg ∷ []) p) ∙ effect (absorb_all q p) h k named

pub expiry_messages-Mirrors :
    (deleted : List ClusterAffiliate) (ids : List ClusterAffiliateId) (m p : Affiliates)
    (q : List WatchResponse)
    → map own_key deleted ≡ ids
    → Mirrors p q m
    → Mirrors p (q ++ expiry_messages deleted) (erase_all ids m)
unfolding absorb erase_all
expiry_messages-Mirrors [] ids m p q e h k named = rw (← e, append-nil q) (h k named)
expiry_messages-Mirrors (a ∷ rest) ids m p q e h k named =
    Mirrors-snoc p q _ m (erase_all ids m)
      (λ n same k named.
        ground
          (arith, lookup-forget_all k (a ∷ rest) n named, lookup-erase_all k ids m, same k named))
      h k named

-- A message with a stored entry leads to the map with the entry.
pub update-Mirrors :
    (a : ClusterAffiliate) (m p : Affiliates) (q : List WatchResponse)
    → Mirrors p q m
    → Mirrors p
        (q ++ record { cluster_affiliates = a ∷ []; deleted = false } ∷ [])
        (insert (own_key a) a m)
unfolding absorb record_all
update-Mirrors a m p q = Mirrors-snoc p q _ m (insert (own_key a) a m) λ n same k named.
    ground (arith, lookup-record_one k a n named, lookup-insert k (own_key a) a m, same k named)

-- A message with a deleted entry leads to the map without it.
pub delete-Mirrors :
    (a : ClusterAffiliate) (m p : Affiliates) (q : List WatchResponse)
    → Mirrors p q m
    → Mirrors p
        (q ++ record { cluster_affiliates = a ∷ []; deleted = true } ∷ [])
        (erase (own_key a) m)
unfolding absorb
delete-Mirrors a m p q = Mirrors-snoc p q _ m (erase (own_key a) m) λ n same k named.
    ground (arith, lookup-forget_all k (a ∷ []) n named, lookup-erase k (own_key a) m, same k named)
