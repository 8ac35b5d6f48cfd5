-- ===== src/Discovery/Garbage/Effect.antt =====
-- cluster_discovery_server.go: collectGarbage as a whole.
use dockyards_talos.Base.{ℕ, ◌+◌, ◌≡◌, Option, none, some, List, [], ◌∷◌, true, arith, select}
use dockyards_talos.Base.GoMap.{lookup, Distinct, erase_all, erase_all-Distinct}
use dockyards_talos.Base.Range.{Visit, IsVisit}
use dockyards_talos.Base.Time.{ℤ}
use dockyards_talos.Base.Outcome.{done}
use dockyards_talos.Discovery.Types.{
  ClusterAffiliateId, id_eq, ClusterAffiliate, Affiliates, WatchResponse,
}
use dockyards_talos.Discovery.Watchers.{Channel, Server}
use dockyards_talos.Discovery.Watchers.Delivery.{
  Ready, deliver, broadcast-deliver, deliver-Ready, Ready-weaken, deliver-nil,
}
use dockyards_talos.Discovery.Garbage.{
  or_empty, sweep, is_live, drop_expired, announce, collect_garbage,
}
use dockyards_talos.Discovery.Garbage.Sweep.{live, lookup-sweep, prune_lem}

abbrev pub table : Server → Affiliates
table s = or_empty s.affiliates

-- At most one message, with all that expired.
abbrev pub expiry_messages : List ClusterAffiliate → List WatchResponse
expiry_messages [] = []
expiry_messages (a ∷ rest) = record { cluster_affiliates = a ∷ rest; deleted = true } ∷ []

pub announce-deliver :
    (deleted : List ClusterAffiliate) (s : Server)
    → Ready 1 s.watchers
    → announce deleted s
      ≡ done (record s { watchers = deliver (expiry_messages deleted) s.watchers })
unfolding announce
announce-deliver [] s h = rw (deliver-nil s.watchers)
announce-deliver (a ∷ rest) s h = broadcast-deliver _ s h

module _ (visit : Visit ClusterAffiliateId ClusterAffiliate) (now : ℤ) (s : Server) where
  abbrev pub swept : List ClusterAffiliate × List ClusterAffiliateId
  swept = sweep now (visit (table s))

  -- The server after the collection.
  abbrev pub after_garbage : Server
  after_garbage = record s {
    affiliates = some (erase_all swept.1 (table s));
    watchers = select is_live (deliver (expiry_messages swept.0) s.watchers);
  }

  pub collect_garbage-eq-after :
      Ready 1 s.watchers → collect_garbage visit now s ≡ done after_garbage
  unfolding collect_garbage drop_expired
  collect_garbage-eq-after h =
      rw (announce-deliver swept.0 (drop_expired visit now s).1 h) (rw prune_lem)

  pub after_garbage-Distinct : Distinct (table s) → Distinct (table after_garbage)
  after_garbage-Distinct d = erase_all-Distinct swept.1 (table s) d

  pub lookup-after_garbage :
      IsVisit visit
      → Distinct (table s)
      → (k : ClusterAffiliateId) → lookup k (table after_garbage) ≡ live now (lookup k (table s))
  lookup-after_garbage perm d k = lookup-sweep visit perm now k (table s) d

pub select-Ready : (n : ℕ) (ws : List (Option Channel)) → Ready n ws → Ready n (select is_live ws)
select-Ready n [] h = tt
select-Ready n (none ∷ ws) h = select-Ready n ws h
select-Ready n (some c ∷ ws) h = (h.0, h.1, select-Ready n ws h.2)

pub expiry_messages-Ready :
    (n : ℕ) (deleted : List ClusterAffiliate) (ws : List (Option Channel))
    → Ready (n + 1) ws
    → Ready n (deliver (expiry_messages deleted) ws)
expiry_messages-Ready n [] ws h = rw (deliver-nil ws) (Ready-weaken (n + 1) n ws (omega arith) h)
expiry_messages-Ready n (a ∷ rest) ws h = deliver-Ready n _ ws h

-- A collection takes room for one message at most.
pub after_garbage-Ready :
    (visit : Visit ClusterAffiliateId ClusterAffiliate) (now : ℤ) (s : Server) (n : ℕ)
    → Ready (n + 1) s.watchers
    → Ready n (after_garbage visit now s).watchers
after_garbage-Ready visit now s n h =
    select-Ready n (deliver (expiry_messages (swept visit now s).0) s.watchers)
      (expiry_messages-Ready n (swept visit now s).0 s.watchers h)
