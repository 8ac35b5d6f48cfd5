-- ===== src/Discovery/Persister.antt =====
-- cluster_discovery_server.go: statePersister.
pub mod Messages
pub mod Mirror
pub mod Follow
pub mod Tracking
pub mod Rebuild
pub mod Restart
use dockyards_talos.Base.{
  String, Option, none, some, List, [], ◌∷◌, ◌++◌, Bool, true, false, ◌==◌, string_eq,
  if◌then◌else◌,
}
use dockyards_talos.Base.GoMap.{insert, erase, values}
use dockyards_talos.Base.Range.{Visit}
use dockyards_talos.Discovery.Types.{
  ClusterAffiliateId, id_eq, ClusterAffiliate, Affiliates, WatchResponse, get_id,
}

-- The key that the persister reads off an affiliate.
abbrev pub own_key : ClusterAffiliate → ClusterAffiliateId
own_key a = record { cluster_id = a.cluster_id; affiliate_id = get_id a.affiliate }

-- `if ca.AffiliateID == "" { continue }; state[ca] = affiliate`
unfoldable pub record_one : ClusterAffiliate → Affiliates → Affiliates
record_one a state = if get_id a.affiliate == "" then state else insert (own_key a) a state

unfoldable pub forget_one : ClusterAffiliate → Affiliates → Affiliates
forget_one a state = if get_id a.affiliate == "" then state else erase (own_key a) state

unfoldable pub record_all : List ClusterAffiliate → Affiliates → Affiliates
record_all [] state = state
record_all (a ∷ rest) state = record_all rest (record_one a state)

unfoldable pub forget_all : List ClusterAffiliate → Affiliates → Affiliates
forget_all [] state = state
forget_all (a ∷ rest) state = forget_all rest (forget_one a state)

-- The map that the persister starts from.
unfoldable pub initial_state : List ClusterAffiliate → Affiliates
initial_state loaded = record_all loaded []

-- One round of `for request := range watch`, up to the call of `save`.
unfoldable pub absorb : WatchResponse → Affiliates → Affiliates
absorb request state =
    if request.deleted
    then forget_all request.cluster_affiliates state
    else record_all request.cluster_affiliates state

-- The rounds for the messages that wait in the channel.
unfoldable pub absorb_all : List WatchResponse → Affiliates → Affiliates
absorb_all [] state = state
absorb_all (request ∷ rest) state = absorb_all rest (absorb request state)

-- The loop with its calls of `save`, on a channel that is closed behind its messages: the final
-- map and the arguments of the calls, in order.
unfoldable pub persist :
    Visit ClusterAffiliateId ClusterAffiliate
    → List WatchResponse
    → Affiliates
    → Affiliates × List (List ClusterAffiliate)
persist visit [] state = (state, [])
persist visit (request ∷ rest) state =
    let state' = absorb request state in
    let (final, saves) = persist visit rest state' in (final, values (visit state') ∷ saves)
