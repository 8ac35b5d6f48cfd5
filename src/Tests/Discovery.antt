-- ===== src/Tests/Discovery.antt =====
-- Applications of the theorems on the discovery server (internal/discovery).
use dockyards_talos.Base.{
  map, String, string_eq, ◌≡◌, refl, ◌↔◌, Bytes, bytes_eq, Option, none, some, List, [], ◌∷◌, arith,
  All, length, ◌≤◌, ◌*◌, ◌==◌, if◌then◌else◌, Mem, map, false, true,
}
use dockyards_talos.Base.GoMap.{lookup, values}
use dockyards_talos.Base.Range.{stored, stored-IsVisit}
use dockyards_talos.Base.Time.{pos}
use dockyards_talos.Base.Outcome.{done}
use dockyards_talos.Discovery.Types.{ClusterAffiliateId, id_eq, Affiliate, ClusterAffiliate}
use dockyards_talos.Discovery.Watchers.{Server, capacity}
use dockyards_talos.Discovery.Watchers.Delivery.{Ready}
use dockyards_talos.Discovery.Garbage.Sweep.{live}
use dockyards_talos.Discovery.Garbage.Effect.{table}
use dockyards_talos.Discovery.Update.{AffiliateUpdateRequest, key_of, affiliate_update}
use dockyards_talos.Discovery.History.Stored.{EndsWith, affiliate_update-stores}
use dockyards_talos.Discovery.Delete.{AffiliateDeleteRequest, affiliate_delete}
use dockyards_talos.Discovery.Delete.Effect.{affiliate_delete-removes}
use dockyards_talos.Discovery.Listing.{list}
use dockyards_talos.Discovery.Listing.Contents.{Holds, list-mem_iff}
use dockyards_talos.Discovery.Watch.{WatchReply, Event, received, cancelled, reply, watch_loop}
use dockyards_talos.Discovery.Watch.Replies.{
  Answers, reply-Answers, restrict_event, watch_loop-restrict,
}
use dockyards_talos.Discovery.Lifecycle.{new_server}
use dockyards_talos.Discovery.Consistency.{IsConsistent, new_server-IsConsistent}
use dockyards_talos.Discovery.History.{
  Call, update, delete, lists, watches, ticks, IsFair, run, spec_run,
}
use dockyards_talos.Discovery.History.View.{
  view, request_of, request_run, run-view, entry_view, updated_view, live_view,
}
use dockyards_talos.Discovery.History.Refinement.{Implements, run-Implements}
use dockyards_talos.Discovery.Persister.{absorb_all, initial_state}
use dockyards_talos.Discovery.Persister.Messages.{IsNamed}
use dockyards_talos.Discovery.Persister.Restart.{
  started, waiting, persister-follows, restart-recovers,
}

abbrev one_affiliate : Affiliate
one_affiliate = record { id = "a"; contents = some (1 ∷ []); endpoints = (7 ∷ []) ∷ [] }

abbrev pub one_entry : ClusterAffiliate
one_entry = record { affiliate = some one_affiliate; cluster_id = "c"; remove_after = pos 100 }

abbrev pub other_entry : ClusterAffiliate
other_entry = record { affiliate = none; cluster_id = "d"; remove_after = pos 5 }

abbrev pub update_request : AffiliateUpdateRequest
update_request = record {
  cluster_id = "c";
  affiliate_id = "a";
  affiliate_data = some (2 ∷ []);
  affiliate_endpoints = (8 ∷ []) ∷ [];
  ttl = pos 0;
}

abbrev delete_request : AffiliateDeleteRequest
delete_request = record { cluster_id = "c"; affiliate_id = "a" }

-- Each kind of call.
abbrev pub calls : List Call
calls =
    watches stored (pos 1)
    ∷ update stored stored (pos 2) (pos 3) update_request
    ∷ lists stored stored (pos 4) "c"
    ∷ ticks stored stored (pos 5)
    ∷ delete stored (pos 6) delete_request
    ∷ update stored stored (pos 7) (pos 8) update_request
    ∷ []

abbrev pub loaded_server : Server
loaded_server = started (one_entry ∷ other_entry ∷ []) (pos 0)

pub calls-IsFair : All IsFair calls
calls-IsFair = (
  stored-IsVisit,
  (
    (stored-IsVisit, stored-IsVisit),
    (
      (stored-IsVisit, stored-IsVisit),
      ((stored-IsVisit, stored-IsVisit), (stored-IsVisit, ((stored-IsVisit, stored-IsVisit), tt))),
    ),
  ),
)

pub calls_fit : 2 * length calls ≤ capacity
calls_fit = omega arith

pub key-IsNamed : IsNamed (key_of "c" "a")
key-IsNamed e = cc

pub loaded_server-IsConsistent : IsConsistent (table loaded_server)
loaded_server-IsConsistent = new_server-IsConsistent _

pub loaded_server-Ready : Ready 12 loaded_server.watchers
unfolding new_server
loaded_server-Ready = (refl, omega arith, tt)

pub two_fit : Ready 2 loaded_server.watchers
unfolding new_server
two_fit = (refl, omega arith, tt)

pub one_fits : Ready 1 loaded_server.watchers
unfolding new_server
one_fits = (refl, omega arith, tt)

restart-recovers_example :
    (s' : Server) × (run calls loaded_server ≡ done s')
    × (lookup (key_of "c" "a") (
          table (
            started
              (values (
                stored (
                  absorb_all (waiting s'.watchers) (initial_state (one_entry ∷ other_entry ∷ [])))))
              (pos 9)))
        ≡ lookup (key_of "c" "a") (table s'))
restart-recovers_example =
    restart-recovers (one_entry ∷ other_entry ∷ []) (pos 0) (pos 9) calls stored (key_of "c" "a")
      calls-IsFair calls_fit stored-IsVisit key-IsNamed

persister-follows_example :
    (s' : Server) × (run calls loaded_server ≡ done s')
    × (lookup
          (key_of "c" "a")
          (absorb_all (waiting s'.watchers) (initial_state (one_entry ∷ other_entry ∷ [])))
        ≡ lookup (key_of "c" "a") (table s'))
persister-follows_example =
    persister-follows (one_entry ∷ other_entry ∷ []) (pos 0) calls (key_of "c" "a") calls-IsFair
      calls_fit key-IsNamed

run-Implements_example :
    (s' : Server) × (run calls loaded_server ≡ done s')
    × Implements s' (spec_run calls (λ k. lookup k (table loaded_server)))
    × IsConsistent (table s')
run-Implements_example =
    run-Implements calls loaded_server (λ k. lookup k (table loaded_server)) calls-IsFair calls_fit
      loaded_server-Ready loaded_server-IsConsistent (λ k. refl)

affiliate_update-stores_example :
    (s' : Server) × (v : ClusterAffiliate) × (affiliate_update stored stored
        (pos 2)
        (pos 3)
        update_request
        loaded_server
      ≡ done s')
    × (entry_view v
        ≡ updated_view
            (pos 3)
            update_request
            (live_view (pos 2) (view loaded_server (key_of "c" "a"))))
    × ((j : ClusterAffiliateId)
        → lookup j (table s')
          ≡ (if j == key_of "c" "a" then some v else live (pos 2) (lookup j (table loaded_server))))
    × All (EndsWith (record { cluster_affiliates = v ∷ []; deleted = false })) s'.watchers
affiliate_update-stores_example =
    affiliate_update-stores stored stored (pos 2) (pos 3) update_request loaded_server
      stored-IsVisit stored-IsVisit loaded_server-IsConsistent.distinct two_fit

affiliate_delete-removes_example :
    (s' : Server) × (affiliate_delete stored (pos 6) delete_request loaded_server ≡ done s')
    × ((j : ClusterAffiliateId)
        → lookup j (table s')
          ≡ (if j == key_of "c" "a" then none else live (pos 6) (lookup j (table loaded_server))))
affiliate_delete-removes_example =
    affiliate_delete-removes stored (pos 6) delete_request loaded_server stored-IsVisit
      loaded_server-IsConsistent.distinct two_fit

list-mem_iff_example :
    (s' : Server) × (r : List (Option Affiliate)) × (list stored stored (pos 4) "c" loaded_server
      ≡ done (s', r))
    × ((x : Option Affiliate) → Mem x r ↔ Holds loaded_server (pos 4) "c" x)
list-mem_iff_example =
    list-mem_iff stored stored (pos 4) "c" loaded_server stored-IsVisit stored-IsVisit
      loaded_server-IsConsistent one_fits

reply-Answers_example :
    Answers "c"
      (record { cluster_affiliates = other_entry ∷ one_entry ∷ []; deleted = true })
      (reply "c" (record { cluster_affiliates = other_entry ∷ one_entry ∷ []; deleted = true }))
reply-Answers_example =
    reply-Answers "c" (record { cluster_affiliates = other_entry ∷ one_entry ∷ []; deleted = true })

abbrev events : List (Event String)
events =
    received (record { cluster_affiliates = one_entry ∷ other_entry ∷ []; deleted = false })
    ∷ received (record { cluster_affiliates = other_entry ∷ []; deleted = true })
    ∷ cancelled "gone"
    ∷ []

abbrev no_error : WatchReply → Option String
no_error r = none

watch_loop-restrict_example :
    watch_loop no_error "c" (map (restrict_event "c") events) ≡ watch_loop no_error "c" events
watch_loop-restrict_example = watch_loop-restrict no_error "c" events

abbrev old_endpoints : List Bytes
old_endpoints = (7 ∷ []) ∷ []

abbrev new_endpoints : List Bytes
new_endpoints = (8 ∷ []) ∷ (7 ∷ []) ∷ []

abbrev endpoint : Bytes
endpoint = 8 ∷ []

new_server-IsConsistent_example : IsConsistent (
    table (
      new_server (record {
        loaded = some (one_entry ∷ other_entry ∷ []);
        garbage_collection_interval = pos 0;
      })))
new_server-IsConsistent_example =
    new_server-IsConsistent
      (record { loaded = some (one_entry ∷ other_entry ∷ []); garbage_collection_interval = pos 0 })

run-view_example :
    (s' : Server) × (run calls loaded_server ≡ done s')
    × (view s' ≡ request_run (map request_of calls) (view loaded_server))
run-view_example =
    run-view calls loaded_server calls-IsFair calls_fit loaded_server-Ready
      loaded_server-IsConsistent
