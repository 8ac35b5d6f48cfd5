-- ===== src/Discovery/Watch.antt =====
-- cluster_discovery_server.go: Watch, stripAffiliateContent and clusterAffiliateCount.
pub mod Replies
use dockyards_talos.Base.{
  ℕ, zero, suc, ◌+◌, String, Option, none, some, List, [], ◌∷◌, ◌++◌, Bool, true, false, ◌==◌,
  string_eq, if◌then◌else◌, not,
}
use dockyards_talos.Base.Range.{Visit}
use dockyards_talos.Base.Time.{ℤ}
use dockyards_talos.Base.Outcome.{Outcome}
use dockyards_talos.Discovery.Types.{ClusterAffiliateId, Affiliate, ClusterAffiliate, WatchResponse}
use dockyards_talos.Discovery.Watchers.{Server, new_channel}
use dockyards_talos.Discovery.Garbage.{collect_garbage}

-- The start of a watch: its channel joins the watchers, and the garbage is collected.
unfoldable pub start_watch :
    Visit ClusterAffiliateId ClusterAffiliate → (swept_at : ℤ) → Server → Outcome Server
start_watch visit swept_at s =
    collect_garbage visit swept_at (record s { watchers = s.watchers ++ some new_channel ∷ [] })

-- The message that a watching client receives.
pub record WatchReply : Type 0 where
  pub affiliates : List Affiliate
  pub deleted : Bool

-- clusterAffiliateCount
unfoldable pub cluster_affiliate_count : List ClusterAffiliate → String → ℕ
cluster_affiliate_count [] cluster = 0
cluster_affiliate_count (ca ∷ cas) cluster =
    let rest = cluster_affiliate_count cas cluster in
    if ca.cluster_id == cluster then rest + 1 else rest

-- The loop over the affiliates of a message.
unfoldable pub pick : String → List ClusterAffiliate → List Affiliate
pick cluster [] = []
pick cluster (ca ∷ cas) =
    let rest = pick cluster cas in
    if not (ca.cluster_id == cluster)
    then rest
    else elim ca.affiliate [ none ↦ rest | some a ↦ a ∷ rest ]

-- stripAffiliateContent; what `pick` returns holds no `nil`.
unfoldable pub strip_affiliate_content : List Affiliate → List Affiliate
strip_affiliate_content [] = []
strip_affiliate_content (a ∷ as') =
    record { id = a.id; contents = none; endpoints = [] } ∷ strip_affiliate_content as'

-- What is sent once the affiliates of the cluster are counted and picked: nothing if there are
-- none, and if they were deleted only their identities.
unfoldable pub answer : Bool → List Affiliate → ℕ → Option WatchReply
answer deleted picked zero = none
answer deleted picked (suc n) = some (record {
  affiliates = if deleted then strip_affiliate_content picked else picked;
  deleted = deleted;
})

-- What the loop sends for a message.
unfoldable pub reply : String → WatchResponse → Option WatchReply
reply cluster msg =
    answer msg.deleted (pick cluster msg.cluster_affiliates)
      (cluster_affiliate_count msg.cluster_affiliates cluster)

-- One round of the `select`.
pub data Event (E : Type 0) : Type 0 where
  cancelled : E → Event E
  closed : Event E
  received : WatchResponse → Event E

-- How the call returns: `nil`, or an error.
pub data Exit (E : Type 0) : Type 0 where
  returned : Exit E
  failed : E → Exit E

module _ {E : Type 0} (send_error : WatchReply → Option E) where
  -- The replies that are sent, and the exit once an event ends the loop. `send_error` is the
  -- result of `res.Send`.
  unfoldable pub watch_loop : String → List (Event E) → List WatchReply × Option (Exit E)
  watch_loop cluster [] = ([], none)
  watch_loop cluster (cancelled e ∷ events) = ([], some (failed e))
  watch_loop cluster (closed ∷ events) = ([], some returned)
  watch_loop cluster (received msg ∷ events) =
      let rest = watch_loop cluster events in
      elim (reply cluster msg) [
        | none ↦ rest
        | some r ↦ elim (send_error r) [
          | none ↦ (r ∷ rest.0, rest.1)
          | some e ↦ ([], some (failed e))
        ]
      ]
