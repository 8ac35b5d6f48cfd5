-- ===== src/Discovery/Delete/Effect.antt =====
-- cluster_discovery_server.go: the server after AffiliateDelete.
use dockyards_talos.Base.{
  ℕ, ◌+◌, ◌≡◌, refl, Option, none, some, [], ◌∷◌, true, arith, ◌==◌, if◌then◌else◌,
}
use dockyards_talos.Base.GoMap.{lookup, erase, Distinct, lookup-erase, erase-Distinct}
use dockyards_talos.Base.Range.{Visit, IsVisit}
use dockyards_talos.Base.Time.{ℤ}
use dockyards_talos.Base.Outcome.{done}
use dockyards_talos.Discovery.Types.{ClusterAffiliateId, id_eq, ClusterAffiliate, WatchResponse}
use dockyards_talos.Discovery.Watchers.{Server}
use dockyards_talos.Discovery.Watchers.Delivery.{
  Ready, deliver, broadcast-deliver, deliver-Ready, Ready-weaken,
}
use dockyards_talos.Discovery.Update.{key_of}
use dockyards_talos.Discovery.Garbage.Sweep.{live}
use dockyards_talos.Discovery.Garbage.Effect.{
  table, after_garbage, collect_garbage-eq-after, after_garbage-Ready, after_garbage-Distinct,
  lookup-after_garbage,
}
use dockyards_talos.Discovery.Delete.{
  AffiliateDeleteRequest, store_delete, announce_delete, affiliate_delete,
}

abbrev pub delete_message : ClusterAffiliate → WatchResponse
delete_message a = record { cluster_affiliates = a ∷ []; deleted = true }

-- The server once the looked-up entry, if any, is deleted and announced.
abbrev pub after_found : ClusterAffiliateId → Option ClusterAffiliate → Server → Server
after_found key none s = s
after_found key (some a) s = record s {
  affiliates = some (erase key (table s));
  watchers = deliver (delete_message a ∷ []) s.watchers;
}

announce_delete-eq-after :
    (key : ClusterAffiliateId) (found : Option ClusterAffiliate) (s : Server)
    → Ready 1 s.watchers
    → announce_delete found (store_delete key found s) ≡ done (after_found key found s)
unfolding announce_delete store_delete
announce_delete-eq-after key none s h = refl
announce_delete-eq-after key (some a) s h =
    broadcast-deliver (delete_message a) (record s { affiliates = some (erase key (table s)) }) h

after_found-Distinct :
    (key : ClusterAffiliateId) (found : Option ClusterAffiliate) (s : Server)
    → Distinct (table s)
    → Distinct (table (after_found key found s))
after_found-Distinct key none s d = d
after_found-Distinct key (some a) s d = erase-Distinct key (table s) d

after_found-Ready :
    (key : ClusterAffiliateId) (found : Option ClusterAffiliate) (s : Server) (n : ℕ)
    → Ready (n + 1) s.watchers
    → Ready n (after_found key found s).watchers
after_found-Ready key none s n h = Ready-weaken (n + 1) n s.watchers (omega arith) h
after_found-Ready key (some a) s n h = deliver-Ready n (delete_message a) s.watchers h

lookup-after_found :
    (key : ClusterAffiliateId) (found : Option ClusterAffiliate) (s : Server)
    → lookup key (table s) ≡ found
    → (j : ClusterAffiliateId)
    → lookup j (table (after_found key found s)) ≡ (if j == key then none else lookup j (table s))
lookup-after_found key none s e j = ground arith
lookup-after_found key (some a) s e j = lookup-erase j key (table s)

module _ (visit : Visit ClusterAffiliateId ClusterAffiliate) (swept_at : ℤ)
    (req : AffiliateDeleteRequest) (s : Server) where
  abbrev pub delete_key : ClusterAffiliateId
  delete_key = key_of req.cluster_id req.affiliate_id

  abbrev pub swept_server : Server
  swept_server = after_garbage visit swept_at s

  abbrev pub after_delete : Server
  after_delete = after_found delete_key (lookup delete_key (table swept_server)) swept_server

  pub affiliate_delete-eq-after :
      Ready 2 s.watchers → affiliate_delete visit swept_at req s ≡ done after_delete
  unfolding affiliate_delete
  affiliate_delete-eq-after h =
      rw (collect_garbage-eq-after visit swept_at s (Ready-weaken 2 1 s.watchers (omega arith) h)) (
        announce_delete-eq-after delete_key (lookup delete_key (table swept_server)) swept_server
          (after_garbage-Ready visit swept_at s 1 h))

  pub after_delete-Distinct : Distinct (table s) → Distinct (table after_delete)
  after_delete-Distinct d =
      after_found-Distinct delete_key _ swept_server (after_garbage-Distinct visit swept_at s d)

  pub after_delete-Ready : (n : ℕ) → Ready (n + 2) s.watchers → Ready n after_delete.watchers
  after_delete-Ready n h =
      after_found-Ready delete_key (lookup delete_key (table swept_server)) swept_server n (
        after_garbage-Ready visit swept_at s (n + 1)
          (Ready-weaken (n + 2) (n + 1 + 1) s.watchers (omega arith) h))

  pub lookup-after_delete :
      IsVisit visit
      → Distinct (table s)
      → (j : ClusterAffiliateId)
      → lookup j (table after_delete)
        ≡ (if j == delete_key then none else live swept_at (lookup j (table s)))
  lookup-after_delete perm d j = rw (
    lookup-after_found delete_key _ swept_server refl j,
    lookup-after_garbage visit swept_at s perm d j,
  )

  -- On a server whose map has distinct keys and whose live channels have room for two messages,
  -- the call returns, also for a key that is missing, and then the key of the request maps to
  -- nothing, while every other key keeps its entry unless that has expired.
  pub affiliate_delete-removes :
      IsVisit visit
      → Distinct (table s)
      → Ready 2 s.watchers
      → (s' : Server) × (affiliate_delete visit swept_at req s ≡ done s')
        × ((j : ClusterAffiliateId)
            → lookup j (table s')
              ≡ (if j == delete_key then none else live swept_at (lookup j (table s))))
  affiliate_delete-removes perm d h =
      (after_delete, affiliate_delete-eq-after h, lookup-after_delete perm d)
