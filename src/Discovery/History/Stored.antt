-- ===== src/Discovery/History/Stored.antt =====
-- cluster_discovery_server.go: what AffiliateUpdate stores and sends, without any order.
use dockyards_talos.Base.{
  ◌≡◌, refl, sym, ap, ◌∙◌, Option, none, some, List, [], ◌∷◌, ◌++◌, false, ◌==◌, All, Bytes,
  if◌then◌else◌,
}
use dockyards_talos.Base.GoMap.{lookup, Distinct}
use dockyards_talos.Base.Range.{Visit, IsVisit}
use dockyards_talos.Base.Time.{ℤ}
use dockyards_talos.Base.Outcome.{done}
use dockyards_talos.Discovery.Types.{ClusterAffiliateId, id_eq, ClusterAffiliate, WatchResponse}
use dockyards_talos.Discovery.Watchers.{Channel, Server}
use dockyards_talos.Discovery.Watchers.Delivery.{Ready, deliver}
use dockyards_talos.Discovery.Garbage.Sweep.{live}
use dockyards_talos.Discovery.Garbage.Effect.{table, after_garbage, lookup-after_garbage}
use dockyards_talos.Discovery.Update.{
  AffiliateUpdateRequest, key_of, or_zero, updated, affiliate_update,
}
use dockyards_talos.Discovery.Update.Effect.{
  fresh_entry, after_update, affiliate_update-eq-after, lookup-after_update,
}
use dockyards_talos.Discovery.History.View.{
  entry_view, view, live_view, view_entry-live, updated_view, entry_view-updated,
}

-- The message is the last in the queue of a live channel.
abbrev pub EndsWith : WatchResponse → Option Channel → Type 0
EndsWith m none = Unit
EndsWith m (some c) = (earlier : List WatchResponse) × (c.queue ≡ earlier ++ m ∷ [])

deliver-EndsWith :
    (m : WatchResponse) (ws : List (Option Channel)) → All (EndsWith m) (deliver (m ∷ []) ws)
unfolding deliver
deliver-EndsWith m [] = tt
deliver-EndsWith m (none ∷ ws) = (tt, deliver-EndsWith m ws)
deliver-EndsWith m (some c ∷ ws) = ((c.queue, refl), deliver-EndsWith m ws)

-- On a server whose map has distinct keys and whose live channels have room for two messages, the
-- call returns, with an entry under the key of the request that has the id, the cluster and the data
-- of the request (the data of the old live entry, if it gives none), the endpoints of both and the
-- end of its time to live; every other key keeps its entry, unless that has expired; and the last
-- message in the queue of every live channel is that entry, whatever the orders in which the call
-- visits the map and the endpoints.
pub affiliate_update-stores :
    (visit : Visit ClusterAffiliateId ClusterAffiliate) (visit_endpoints : Visit Bytes Bytes)
    (swept_at now : ℤ) (req : AffiliateUpdateRequest) (s : Server)
    → IsVisit visit
    → IsVisit visit_endpoints
    → Distinct (table s)
    → Ready 2 s.watchers
    → (s' : Server) × (v : ClusterAffiliate) × (affiliate_update visit visit_endpoints swept_at now
          req s
        ≡ done s')
      × (entry_view v
          ≡ updated_view now req
              (live_view swept_at (view s (key_of req.cluster_id req.affiliate_id))))
      × ((j : ClusterAffiliateId)
          → lookup j (table s') ≡ (
              if j == key_of req.cluster_id req.affiliate_id
              then some v
              else live swept_at (lookup j (table s))))
      × All (EndsWith (record { cluster_affiliates = v ∷ []; deleted = false })) s'.watchers
affiliate_update-stores visit visit_endpoints swept_at now req s fair fair_endpoints d h =
    let old = lookup (key_of req.cluster_id req.affiliate_id) (table s) in
    let swept =
      lookup-after_garbage visit swept_at s fair d (key_of req.cluster_id req.affiliate_id) in
    let fresh = ap (λ o. updated visit_endpoints now req (or_zero o)) swept in
    (
      after_update visit visit_endpoints swept_at now req s,
      fresh_entry visit visit_endpoints swept_at now req s,
      affiliate_update-eq-after visit visit_endpoints swept_at now req s h,
      ap entry_view fresh
          ∙ entry_view-updated visit_endpoints now req (live swept_at old) fair_endpoints
          ∙ ap (updated_view now req) (view_entry-live swept_at old),
      λ j.
          lookup-after_update visit visit_endpoints swept_at now req s fair d j
          ∙ ap
              (λ v.
                if j == key_of req.cluster_id req.affiliate_id
                then some v
                else live swept_at (lookup j (table s)))
              (sym fresh),
      deliver-EndsWith _ (after_garbage visit swept_at s).watchers,
    )
