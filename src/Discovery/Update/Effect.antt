-- ===== src/Discovery/Update/Effect.antt =====
-- cluster_discovery_server.go: the server after AffiliateUpdate.
use dockyards_talos.Base.{ℕ, ◌+◌, ◌≡◌, some, [], ◌∷◌, false, arith, ◌==◌, if◌then◌else◌}
use dockyards_talos.Base.GoMap.{lookup, insert, Distinct, lookup-insert, insert-Distinct}
use dockyards_talos.Base.Range.{Visit, IsVisit}
use dockyards_talos.Base.Time.{ℤ}
use dockyards_talos.Base.Outcome.{done}
use dockyards_talos.Base.{Bytes}
use dockyards_talos.Discovery.Types.{ClusterAffiliateId, id_eq, ClusterAffiliate, WatchResponse}
use dockyards_talos.Discovery.Watchers.{Server}
use dockyards_talos.Discovery.Watchers.Delivery.{
  Ready, deliver, broadcast-deliver, deliver-Ready, Ready-weaken,
}
use dockyards_talos.Discovery.Garbage.Sweep.{live}
use dockyards_talos.Discovery.Garbage.Effect.{
  table, after_garbage, collect_garbage-eq-after, after_garbage-Ready, after_garbage-Distinct,
  lookup-after_garbage,
}
use dockyards_talos.Discovery.Update.{
  AffiliateUpdateRequest, key_of, updated, or_zero, store_update, affiliate_update,
}

module _ (visit : Visit ClusterAffiliateId ClusterAffiliate) (visit_endpoints : Visit Bytes Bytes)
    (swept_at now : ℤ) (req : AffiliateUpdateRequest) (s : Server) where
  abbrev pub update_key : ClusterAffiliateId
  update_key = key_of req.cluster_id req.affiliate_id

  -- The entry that the update makes of what is left of the old one.
  abbrev pub fresh_entry : ClusterAffiliate
  fresh_entry =
      updated visit_endpoints now req
        (or_zero (lookup update_key (table (after_garbage visit swept_at s))))

  abbrev pub update_message : WatchResponse
  update_message = record { cluster_affiliates = fresh_entry ∷ []; deleted = false }

  abbrev pub after_update : Server
  after_update =
      let mid = after_garbage visit swept_at s in
      record mid {
        affiliates = some (insert update_key fresh_entry (table mid));
        watchers = deliver (update_message ∷ []) mid.watchers;
      }

  pub affiliate_update-eq-after :
      Ready 2 s.watchers
      → affiliate_update visit visit_endpoints swept_at now req s ≡ done after_update
  unfolding affiliate_update store_update
  affiliate_update-eq-after h =
      rw (collect_garbage-eq-after visit swept_at s (Ready-weaken 2 1 s.watchers (omega arith) h)) (
        broadcast-deliver update_message
          (store_update visit_endpoints now req (after_garbage visit swept_at s)).1
          (after_garbage-Ready visit swept_at s 1 h))

  pub after_update-Distinct : Distinct (table s) → Distinct (table after_update)
  after_update-Distinct d =
      insert-Distinct update_key fresh_entry _ (after_garbage-Distinct visit swept_at s d)

  pub after_update-Ready : (n : ℕ) → Ready (n + 2) s.watchers → Ready n after_update.watchers
  after_update-Ready n h = deliver-Ready n update_message _ (
      after_garbage-Ready visit swept_at s (n + 1)
        (Ready-weaken (n + 2) (n + 1 + 1) s.watchers (omega arith) h))

  pub lookup-after_update :
      IsVisit visit
      → Distinct (table s)
      → (j : ClusterAffiliateId)
      → lookup j (table after_update) ≡ (
          if j == update_key
          then some (
              updated visit_endpoints now req
                (or_zero (live swept_at (lookup update_key (table s)))))
          else live swept_at (lookup j (table s)))
  lookup-after_update perm d j =
      rw (lookup-insert j update_key fresh_entry (table (after_garbage visit swept_at s))) (
        rw (
          lookup-after_garbage visit swept_at s perm d update_key,
          lookup-after_garbage visit swept_at s perm d j,
        ))
