-- ===== src/Commands/Client/Logged.antt =====
-- cmd/dummy-discovery-client/main.go with cluster_discovery_server.go: what the client reports of a
-- watch of the server.
use mathlib.Core.Path.{subst}
use dockyards_talos.Base.{
  length, String, ◌≡◌, refl, ap, ◌∙◌, Bool, true, false, Option, none, some, List, [], ◌∷◌, ◌++◌,
  map, any, if◌then◌else◌, arith, Option-cases, inl, inr,
}
use dockyards_talos.Base.Result.{ok}
use dockyards_talos.Discovery.Types.{Affiliate, WatchResponse}
use dockyards_talos.Discovery.Watch.{
  WatchReply, reply, Event, closed, received, Exit, returned, failed, watch_loop,
}
use dockyards_talos.Discovery.Watch.Replies.{in_cluster, affiliates_of, Answers, reply-Answers}
use dockyards_talos.Commands.Client.{
  ClientFlags, Recv, message, end_of_stream, broken, Rpc, Line, initial_affiliates, update_received,
  affiliate, ClientExit, connected_lines, affiliate_lines, recv_loop, prepare, after_watch,
  after_update, after_list, after_prepare, dummy_discovery_client,
}
use dockyards_talos.Commands.Client

-- gRPC: the client receives the replies that the handler sends, in order, and then the end of the
-- stream if the handler returns `nil`, or an error.
pub record IsTransport {E : Type 0} (deliver : List WatchReply × Option (Exit E) → List Recv)
    : Type 0 where
  pub delivers :
      (r : WatchReply) (rs : List WatchReply) (x : Option (Exit E))
      → deliver (r ∷ rs, x) ≡ message r ∷ deliver (rs, x)
  pub ends : deliver ([], some returned) ≡ end_of_stream ∷ []
  pub breaks : (e : E) → deliver ([], some (failed e)) ≡ broken ∷ []

-- What is to be reported of a broadcast: the affiliates of the cluster.
abbrev pub id_line : Bool → Affiliate → Line
id_line deleted a = affiliate a.id deleted

abbrev pub owed_lines : String → WatchResponse → List Line
owed_lines cluster msg =
    let picked = affiliates_of cluster msg.cluster_affiliates in
    if any (in_cluster cluster) msg.cluster_affiliates
    then update_received (length picked) ∷ map (id_line msg.deleted) picked
    else []

abbrev pub all_owed : String → List WatchResponse → List Line
all_owed cluster [] = []
all_owed cluster (msg ∷ msgs) = owed_lines cluster msg ++ all_owed cluster msgs

-- The lines depend on the identities.
lines-ids :
    (deleted : Bool) (xs ys : List Affiliate)
    → map (λ a. a.id) xs ≡ map (λ a. a.id) ys
    → (affiliate_lines deleted xs ≡ map (id_line deleted) ys) × (length xs ≡ length ys)
unfolding affiliate_lines
lines-ids deleted [] [] h = (refl, refl)
lines-ids deleted [] (y ∷ ys) h = absurd (ground arith)
lines-ids deleted (x ∷ xs) [] h = absurd (ground arith)
lines-ids deleted (x ∷ xs) (y ∷ ys) h =
    let (lines, len) = lines-ids deleted xs ys (ground arith) in (ground arith, ground arith)

abbrev pub events : {E : Type 0} → List WatchResponse → List (Event E)
events [] = closed ∷ []
events (msg ∷ msgs) = received msg ∷ events msgs

module _ {E : Type 0} (deliver : List WatchReply × Option (Exit E) → List Recv)
    (send_error : WatchReply → Option E) where
  recv_loop-watch_loop :
      (cluster : String) (msgs : List WatchResponse)
      → IsTransport deliver
      → ((r : WatchReply) → send_error r ≡ none)
      → recv_loop (deliver (watch_loop send_error cluster (events msgs)))
        ≡ (all_owed cluster msgs, some Client.returned)
  unfolding watch_loop recv_loop
  recv_loop-watch_loop cluster [] transport sends = rw transport.ends refl
  recv_loop-watch_loop cluster (msg ∷ msgs) transport sends =
      let ih = recv_loop-watch_loop cluster msgs transport sends in
      let answers = reply-Answers cluster msg in
      let later = watch_loop send_error cluster (events msgs) in
      elim (Option-cases (reply cluster msg)) [
        | inl skipped ↦
            let none_there : any (in_cluster cluster) msg.cluster_affiliates ≡ false =
              subst (Answers cluster msg) skipped answers in
            rw (skipped, watch_loop) (rw none_there ih)
        | inr (r, replied) ↦
            let (some_there, (deleted, ids, kept)) = subst (Answers cluster msg) replied answers in
            let (lines, len) = lines-ids msg.deleted r.affiliates _ ids in
            let shown : affiliate_lines r.deleted r.affiliates
                ≡ map (id_line msg.deleted) (affiliates_of cluster msg.cluster_affiliates) =
              ap (λ d. affiliate_lines d r.affiliates) deleted ∙ lines in
            rw (replied, watch_loop)
              (rw (sends r, watch_loop)
                (ap recv_loop (transport.delivers r later.0 later.1)
                  ∙ rw (ih, shown, len, some_there) refl))
      ]

  -- A client that gets to watch a server, to which it can be sent, reports the affiliates that it
  -- was given first, and then for every message that the server broadcasts, up to the end of the
  -- watch, the affiliates of its cluster in the message by their identities, in order, with whether
  -- they are deleted; nothing for a message with none of them. It then returns.
  pub dummy_discovery_client-watch_loop :
      (rpc : Rpc) (flags : ClientFlags) (w w₁ w₂ w₃ : rpc.World) (first : List Affiliate)
      (msgs : List WatchResponse)
      → IsTransport deliver
      → ((r : WatchReply) → send_error r ≡ none)
      → prepare rpc flags ≡ ok tt
      → rpc.client_list flags.cluster_id w ≡ (w₁, some first)
      → rpc.client_affiliate_update flags.cluster_id flags.affiliate_id flags.ttl w₁ ≡ (w₂, true)
      → rpc.client_watch flags.cluster_id w₂
        ≡ (w₃, some (deliver (watch_loop send_error flags.cluster_id (events msgs))))
      → dummy_discovery_client rpc flags w ≡ (
        w₃,
        initial_affiliates (length first) ∷ connected_lines first ++ all_owed flags.cluster_id msgs,
        some Client.returned,
      )
  unfolding dummy_discovery_client after_prepare after_list after_update after_watch
  dummy_discovery_client-watch_loop rpc flags w w₁ w₂ w₃ first msgs transport sends prepared listed
        updated watched =
      let read = recv_loop-watch_loop flags.cluster_id msgs transport sends in
      let head = initial_affiliates (length first) ∷ connected_lines first in
      ap (after_prepare rpc flags w) prepared
      ∙ ap (after_list rpc flags) listed
      ∙ ap (λ o. (o.0, head ++ o.1, o.2))
          (ap (after_update rpc flags) updated
            ∙ ap (after_watch rpc) watched
            ∙ ap (λ r. (w₃, r.0, r.1)) read)
