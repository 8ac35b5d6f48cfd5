-- ===== src/Discovery/Watch/Replies.antt =====
-- cluster_discovery_server.go: what Watch sends to a client of one cluster.
use mathlib.Core.List.{filter_map}
use dockyards_talos.Base.{
  ◌∙◌, Bool-cases, ℕ, suc, String, ◌≡◌, refl, ap, inl, inr, Option, none, some, List, [], ◌∷◌, Bool,
  true, false, arith, ◌==◌, string_eq, if◌then◌else◌, select, All, ◌++◌, map, any, Option-cases,
  ℕ-cases,
}
use dockyards_talos.Discovery.Types.{Affiliate, ClusterAffiliate, WatchResponse}
use dockyards_talos.Discovery.Watch.{
  cluster_affiliate_count, pick, strip_affiliate_content, WatchReply, answer, reply, Event,
  cancelled, closed, received, Exit, failed, watch_loop,
}

-- A message without the affiliates of the other clusters.
abbrev pub in_cluster : String → ClusterAffiliate → Bool
in_cluster cluster ca = ca.cluster_id == cluster

abbrev pub restrict : String → WatchResponse → WatchResponse
restrict cluster msg = record msg {
  cluster_affiliates = select (in_cluster cluster) msg.cluster_affiliates;
}

count-select :
    (cluster : String) (cas : List ClusterAffiliate)
    → cluster_affiliate_count (select (in_cluster cluster) cas) cluster
      ≡ cluster_affiliate_count cas cluster
unfolding cluster_affiliate_count
count-select cluster [] = refl
count-select cluster (ca ∷ cas) = ground (arith, count-select cluster cas)

pick-select :
    (cluster : String) (cas : List ClusterAffiliate)
    → pick cluster (select (in_cluster cluster) cas) ≡ pick cluster cas
unfolding pick
pick-select cluster [] = refl
pick-select cluster (ca ∷ cas) = ground (arith, pick-select cluster cas)

reply-restrict :
    (cluster : String) (msg : WatchResponse)
    → reply cluster (restrict cluster msg) ≡ reply cluster msg
unfolding reply
reply-restrict cluster msg =
    cc (count-select cluster msg.cluster_affiliates, pick-select cluster msg.cluster_affiliates)

abbrev pub restrict_event : {E : Type 0} → String → Event E → Event E
restrict_event cluster (cancelled e) = cancelled e
restrict_event cluster closed = closed
restrict_event cluster (received msg) = received (restrict cluster msg)

-- The replies and the exit of a watch depend only on the affiliates of its own cluster: they are
-- the same if every message is first cut down to those.
pub watch_loop-restrict :
    {E : Type 0} (send_error : WatchReply → Option E) (cluster : String) (events : List (Event E))
    → watch_loop send_error cluster (map (restrict_event cluster) events)
      ≡ watch_loop send_error cluster events
unfolding watch_loop
watch_loop-restrict send_error cluster [] = refl
watch_loop-restrict send_error cluster (cancelled e ∷ events) = refl
watch_loop-restrict send_error cluster (closed ∷ events) = refl
watch_loop-restrict send_error cluster (received msg ∷ events) =
    ground (arith, reply-restrict cluster msg, watch_loop-restrict send_error cluster events)

-- A watch returns once its channel is closed, if not before.
watch_loop_returns :
    {E : Type 0} (send_error : WatchReply → Option E) (cluster : String) (events : List (Event E))
    → (x : Exit E) × ((watch_loop send_error cluster (events ++ closed ∷ [])).1 ≡ some x)
unfolding watch_loop
watch_loop_returns send_error cluster [] = (_, refl)
watch_loop_returns send_error cluster (cancelled e ∷ events) = (_, refl)
watch_loop_returns send_error cluster (closed ∷ events) = (_, refl)
watch_loop_returns send_error cluster (received msg ∷ events) =
    let ih = watch_loop_returns send_error cluster events in
    elim (Option-cases (reply cluster msg)) [
      | inl skipped ↦ (ih.0, rw (skipped, watch_loop) ih.1)
      | inr (r, replied) ↦ elim (Option-cases (send_error r)) [
        | inl sent ↦ (ih.0, rw (replied, watch_loop) (rw (sent, watch_loop) ih.1))
        | inr (e, failure) ↦ (failed e, rw (replied, watch_loop) (rw (failure, watch_loop) refl))
      ]
    ]

-- Only an identity is left of the affiliate.
abbrev pub IsBare : Affiliate → Type 0
IsBare a = (a.contents ≡ none) × (a.endpoints ≡ [])

strip-All : (as' : List Affiliate) → All IsBare (strip_affiliate_content as')
unfolding strip_affiliate_content
strip-All [] = tt
strip-All (a ∷ as') = ((refl, refl), strip-All as')

strip-ids :
    (as' : List Affiliate) → map (λ a. a.id) (strip_affiliate_content as') ≡ map (λ a. a.id) as'
unfolding strip_affiliate_content
strip-ids [] = refl
strip-ids (a ∷ as') = ap (◌∷◌ a.id) (strip-ids as')

-- The affiliates of a message that are in the cluster.
abbrev pub affiliates_of : String → List ClusterAffiliate → List Affiliate
affiliates_of cluster cas = filter_map (λ ca. ca.affiliate) (select (in_cluster cluster) cas)

pick-affiliates_of :
    (cluster : String) (cas : List ClusterAffiliate) → pick cluster cas ≡ affiliates_of cluster cas
unfolding pick filter_map
pick-affiliates_of cluster [] = refl
pick-affiliates_of cluster (ca ∷ cas) =
    let ih = pick-affiliates_of cluster cas in
    elim (Bool-cases (ca.cluster_id == cluster)) [
      | inl here ↦ elim (Option-cases ca.affiliate) [
        | inl missing ↦ ground arith
        | inr (a, at) ↦ ground arith
      ]
      | inr elsewhere ↦ ground arith
    ]

-- What a client is owed for a message: the affiliates of its cluster, as they are in an update,
-- and as bare identities in the same order in a deletion.
abbrev pub Owed : String → WatchResponse → WatchReply → Type 0
Owed cluster msg r =
    (r.deleted ≡ msg.deleted)
    × (map (λ a. a.id) r.affiliates
        ≡ map (λ a. a.id) (affiliates_of cluster msg.cluster_affiliates))
    × (if msg.deleted
        then All IsBare r.affiliates
        else (r.affiliates ≡ affiliates_of cluster msg.cluster_affiliates))

-- What the reply to a message does, as a relation.
abbrev pub Answers : String → WatchResponse → Option WatchReply → Type 0
Answers cluster msg none = any (in_cluster cluster) msg.cluster_affiliates ≡ false
Answers cluster msg (some r) =
    (any (in_cluster cluster) msg.cluster_affiliates ≡ true) × Owed cluster msg r

count_none :
    (cluster : String) (cas : List ClusterAffiliate)
    → cluster_affiliate_count cas cluster ≡ 0
    → any (in_cluster cluster) cas ≡ false
unfolding cluster_affiliate_count
count_none cluster [] h = refl
count_none cluster (ca ∷ cas) h = ground (arith, count_none cluster cas)

count_some :
    (cluster : String) (cas : List ClusterAffiliate) (n : ℕ)
    → cluster_affiliate_count cas cluster ≡ suc n
    → any (in_cluster cluster) cas ≡ true
unfolding cluster_affiliate_count
count_some cluster [] n h = absurd (omega arith)
count_some cluster (ca ∷ cas) n h = ground (arith, count_some cluster cas n)

full_reply-Owed :
    (cluster : String) (cas : List ClusterAffiliate) (deleted : Bool)
    → Owed cluster
        (record { cluster_affiliates = cas; deleted = deleted })
        (record {
          affiliates =
              if deleted then strip_affiliate_content (pick cluster cas) else pick cluster cas;
          deleted = deleted;
        })
full_reply-Owed cluster cas true = (
  refl,
  strip-ids (pick cluster cas) ∙ ap (map (λ a. a.id)) (pick-affiliates_of cluster cas),
  strip-All (pick cluster cas),
)
full_reply-Owed cluster cas false =
    let same = pick-affiliates_of cluster cas in (refl, ap (map (λ a. a.id)) same, same)

-- A message is answered exactly when it has an affiliate of the cluster, and the answer is what
-- the client is owed: the affiliates of the cluster, bare identities if they were deleted.
pub reply-Answers :
    (cluster : String) (msg : WatchResponse) → Answers cluster msg (reply cluster msg)
unfolding reply answer
reply-Answers cluster msg =
    let cas = msg.cluster_affiliates in
    elim (ℕ-cases (cluster_affiliate_count cas cluster)) [
      | inl empty ↦ rw (empty, reply) (count_none cluster cas empty)
      | inr (n, counted) ↦
          rw (counted, reply)
            (count_some cluster cas n counted, full_reply-Owed cluster cas msg.deleted)
    ]
