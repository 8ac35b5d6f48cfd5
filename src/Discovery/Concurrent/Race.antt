-- ===== src/Discovery/Concurrent/Race.antt =====
-- cluster_discovery_server.go: AffiliateUpdate and AffiliateDelete change the map in one critical
-- section and broadcast in another.
use dockyards_talos.Base.{
  ◌+◌, ◌≡◌, refl, Option, none, some, List, [], ◌∷◌, ◌++◌, true, false, arith, Bytes,
}
use dockyards_talos.Base.GoMap.{lookup, insert, erase, lookup-insert, lookup-erase}
use dockyards_talos.Base.Range.{Visit}
use dockyards_talos.Base.Time.{ℤ}
use dockyards_talos.Base.Outcome.{done}
use dockyards_talos.Discovery.Types.{
  ClusterAffiliateId, id_eq, ClusterAffiliate, Affiliates, WatchResponse,
}
use dockyards_talos.Discovery.Watchers.{Channel, Server}
use dockyards_talos.Discovery.Watchers.Delivery.{
  Ready, deliver, broadcast-deliver, deliver-Ready, Ready-weaken,
}
use dockyards_talos.Discovery.Garbage.Effect.{table}
use dockyards_talos.Discovery.Update.{
  AffiliateUpdateRequest, key_of, updated, or_zero, store_update,
}
use dockyards_talos.Discovery.Delete.{store_delete}
use dockyards_talos.Discovery.History.{VisitTable, Call, update, delete}
use dockyards_talos.Discovery.Persister.{own_key, absorb, absorb_all, record_all}
use dockyards_talos.Discovery.Persister.Messages.{IsNamed, lookup-record_one}
use dockyards_talos.Discovery.Persister.Mirror.{absorb_all-append}
use dockyards_talos.Discovery.Persister.Restart.{waiting}
use dockyards_talos.Discovery.Concurrent.{
  Place, acting, sending, finished, act, advance, System, turn, take_turn, happen, play,
}

lookup-insert_self :
    (k : ClusterAffiliateId) (v : ClusterAffiliate) (m : Affiliates)
    → lookup k (insert k v m) ≡ some v
lookup-insert_self k v m = ground (arith, lookup-insert k k v m)

-- The second broadcast of the two, as the persister reads it.
absorb-stored :
    (a : ClusterAffiliate) (deleted : WatchResponse) (q : List WatchResponse) (p : Affiliates)
    → IsNamed (own_key a)
    → lookup (own_key a) (
        absorb_all
          ((q ++ deleted ∷ []) ++ record { cluster_affiliates = a ∷ []; deleted = false } ∷ [])
          p)
      ≡ some a
unfolding absorb_all absorb record_all
absorb-stored a deleted q p named =
    rw
      (absorb_all-append (q ++ deleted ∷ [])
        (record { cluster_affiliates = a ∷ []; deleted = false } ∷ []) p)
      (ground (arith, lookup-record_one (own_key a) a (absorb_all (q ++ deleted ∷ []) p) named))

module _ (visit visit' : VisitTable) (visit_endpoints : Visit Bytes Bytes)
    (swept_at swept_at' now : ℤ) (req : AffiliateUpdateRequest) (s : Server) where
  abbrev pub raced_key : ClusterAffiliateId
  raced_key = key_of req.cluster_id req.affiliate_id

  abbrev pub raced_entry : ClusterAffiliate
  raced_entry = updated visit_endpoints now req (or_zero (lookup raced_key (table s)))

  abbrev pub racing_update : Call
  racing_update = update visit visit_endpoints swept_at now req

  abbrev pub racing_delete : Call
  racing_delete =
      delete visit' swept_at'
        (record { cluster_id = req.cluster_id; affiliate_id = req.affiliate_id })

  -- Two calls that have collected the garbage.
  abbrev pub racing : System
  racing = record {
    server = s;
    threads =
        record { call = racing_update; place = acting }
        ∷ record { call = racing_delete; place = acting }
        ∷ [];
  }

  abbrev stored_message : WatchResponse
  stored_message = record { cluster_affiliates = raced_entry ∷ []; deleted = false }

  abbrev deleted_message : WatchResponse
  deleted_message = record { cluster_affiliates = raced_entry ∷ []; deleted = true }

  abbrev stored_table : Affiliates
  stored_table = insert raced_key raced_entry (table s)

  abbrev stage : Affiliates → List (Option Channel) → (p q : Place) → System
  stage m ws p q = record {
    server = record s { affiliates = some m; watchers = ws };
    threads =
        record { call = racing_update; place = p }
        ∷ record { call = racing_delete; place = q }
        ∷ [];
  }

  first_turn :
      happen (turn 0) racing ≡ done (stage stored_table s.watchers (sending stored_message) acting)
  unfolding happen take_turn advance act store_update
  first_turn = refl

  second_turn :
      happen (turn 1) (stage stored_table s.watchers (sending stored_message) acting)
      ≡ done (
          stage
            (erase raced_key stored_table)
            s.watchers
            (sending stored_message)
            (sending deleted_message))
  unfolding happen take_turn advance act store_delete
  second_turn = rw (lookup-insert_self raced_key raced_entry (table s))

  third_turn :
      Ready 1 s.watchers
      → happen (turn 1) (
          stage
            (erase raced_key stored_table)
            s.watchers
            (sending stored_message)
            (sending deleted_message))
        ≡ done (
            stage
              (erase raced_key stored_table)
              (deliver (deleted_message ∷ []) s.watchers)
              (sending stored_message)
              finished)
  unfolding happen take_turn advance
  third_turn h = rw (
      broadcast-deliver deleted_message
        (record s { affiliates = some (erase raced_key stored_table) }) h)

  fourth_turn :
      Ready 2 s.watchers
      → happen (turn 0) (
          stage
            (erase raced_key stored_table)
            (deliver (deleted_message ∷ []) s.watchers)
            (sending stored_message)
            finished)
        ≡ done (
            stage
              (erase raced_key stored_table)
              (deliver (stored_message ∷ []) (deliver (deleted_message ∷ []) s.watchers))
              finished
              finished)
  unfolding happen take_turn advance
  fourth_turn h = rw (
      broadcast-deliver stored_message
        (record s {
          affiliates = some (erase raced_key stored_table);
          watchers = deliver (deleted_message ∷ []) s.watchers;
        })
        (deliver-Ready 1 deleted_message s.watchers
          (Ready-weaken 2 (1 + 1) s.watchers (omega arith) h)))

  -- An update and a delete of one key, which both have collected the garbage, can interleave so
  -- that both return, the map has no entry under the key, and the persister, whose live channel is
  -- the first watcher, has one, the updated one, once it has read its channel, whatever its map was
  -- before: the change that was made first was broadcast last.
  pub racing_disagree :
      (c : Channel) (ws : List (Option Channel)) (p : Affiliates)
      → s.watchers ≡ some c ∷ ws
      → Ready 2 s.watchers
      → IsNamed raced_key
      → (sys' : System) × (play (turn 0 ∷ turn 1 ∷ turn 1 ∷ turn 0 ∷ []) racing ≡ done sys')
        × (lookup raced_key (table sys'.server) ≡ none)
        × (lookup raced_key (absorb_all (waiting sys'.server.watchers) p) ≡ some raced_entry)
  unfolding play
  racing_disagree c ws p live room named = (
    stage (erase raced_key stored_table)
        (deliver (stored_message ∷ []) (deliver (deleted_message ∷ []) s.watchers)) finished
        finished,
    rw (
      first_turn,
      second_turn,
      third_turn (Ready-weaken 2 1 s.watchers (omega arith) room),
      fourth_turn room,
    ),
    ground (arith, lookup-erase raced_key raced_key stored_table),
    rw live (unfold deliver updated in absorb-stored raced_entry deleted_message c.queue p named),
  )
