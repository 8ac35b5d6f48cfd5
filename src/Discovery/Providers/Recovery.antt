-- ===== src/Discovery/Providers/Recovery.antt =====
-- cluster_discovery_server.go and the state providers: a restart on the stored state.
use dockyards_talos.Base.{
  ◌*◌, ◌≤◌, ◌≡◌, refl, ap, ◌∙◌, ◌⊎◌, inl, inr, Option, none, some, List, [], ◌∷◌, map, arith,
  length, All,
}
use dockyards_talos.Base.GoMap.{lookup, values, lookup-insert}
use dockyards_talos.Base.Range.{Visit, IsVisit}
use dockyards_talos.Base.Time.{ℤ}
use dockyards_talos.Base.Outcome.{done}
use dockyards_talos.Discovery.Types.{
  ClusterAffiliateId, id_eq, Affiliate, ClusterAffiliate, Affiliates, WatchResponse,
}
use dockyards_talos.Discovery.Watchers.{capacity, Server}
use dockyards_talos.Discovery.Garbage.Effect.{table}
use dockyards_talos.Discovery.Lifecycle.{load_one, load_state}
use dockyards_talos.Discovery.History.{Call, IsFair, run}
use dockyards_talos.Discovery.Persister.{absorb, absorb_all, initial_state, persist}
use dockyards_talos.Discovery.Persister.Messages.{IsNamed}
use dockyards_talos.Discovery.Persister.Rebuild.{
  load_state-record_all, persister-IsConsistent, rebuild,
}
use dockyards_talos.Discovery.Persister.Restart.{started, waiting, table-started, persister-follows}
use dockyards_talos.Discovery.Providers.{StateProvider, Watch, add_watch, Files, Json, json_file}
use dockyards_talos.Discovery.Providers.Laws.{
  map_option, Storage, kept, Keeps, add_watch-Keeps, json_file-Keeps, IsReliable, IsCodec,
}

-- The calls of `save` that the persister makes, in order.
unfoldable pub save_all : (p : StateProvider) → List (List ClusterAffiliate) → p.State → p.State
save_all p [] w = w
save_all p (l ∷ saves) w = save_all p saves (p.save l w)

module _ (st : Storage) where
  load_one-kept :
      (ca : ClusterAffiliate) (o : Option Affiliate) (m n : Affiliates) (k : ClusterAffiliateId)
      → lookup k n ≡ map_option (kept st) (lookup k m)
      → lookup k (load_one (kept st ca) (map_option st.kept_affiliate o) n)
        ≡ map_option (kept st) (lookup k (load_one ca o m))
  unfolding load_one
  load_one-kept ca none m n k same = same
  load_one-kept ca (some a) m n k same = ground (
    arith,
    st.keeps_id a,
    lookup-insert k (record { cluster_id = ca.cluster_id; affiliate_id = a.id }) ca m,
    lookup-insert k (record { cluster_id = ca.cluster_id; affiliate_id = a.id }) (kept st ca) n,
  )

  -- The constructor reads stored entries as it reads the entries that were saved.
  load_state-kept :
      (l : List ClusterAffiliate) (m n : Affiliates) (k : ClusterAffiliateId)
      → lookup k n ≡ map_option (kept st) (lookup k m)
      → lookup k (load_state (map (kept st) l) n) ≡ map_option (kept st) (lookup k (load_state l m))
  unfolding load_state
  load_state-kept [] m n k same = same
  load_state-kept (ca ∷ l) m n k same =
      load_state-kept l (load_one ca ca.affiliate m) _ k (load_one-kept ca ca.affiliate m n k same)

  module _ (p : StateProvider) (keeps : Keeps st p)
      (visit : Visit ClusterAffiliateId ClusterAffiliate) where
    -- What the provider gives back once the persister has read a message: its whole map.
    load-save_all :
        (msg : WatchResponse) (q : List WatchResponse) (state : Affiliates) (w : p.State)
        → (p.load (save_all p (persist visit (msg ∷ q) state).1 w)).1
          ≡ map (kept st) (values (visit (absorb_all (msg ∷ q) state)))
    unfolding save_all persist absorb_all
    load-save_all msg [] state w = keeps.load-save (values (visit (absorb msg state))) w
    load-save_all msg (msg' ∷ q) state w = load-save_all msg' q (absorb msg state) _

    restored :
        (q : List WatchResponse) (w : p.State) (interval : ℤ) (k : ClusterAffiliateId)
        → IsVisit visit
        → IsNamed k
        → let first = p.load w in
          let state = initial_state first.1 in
          let again = (p.load (save_all p (persist visit q state).1 first.0)).1 in
          (lookup k (table (started again interval)) ≡ lookup k (absorb_all q state))
          ⊎ (lookup k (table (started again interval))
              ≡ map_option (kept st) (lookup k (absorb_all q state)))
    unfolding save_all persist absorb_all initial_state lookup
    restored [] w interval k visited named = inl (
        ap (lookup k) (table-started _ interval)
        ∙ load_state-record_all _ [] [] k named refl
        ∙ ap (λ l. lookup k (initial_state l)) (keeps.load-load w))
    restored (msg ∷ q) w interval k visited named =
        let final = absorb_all (msg ∷ q) (initial_state (p.load w).1) in
        inr (
          ap (lookup k) (table-started _ interval)
          ∙ ap (λ l. lookup k (load_state l [])) (load-save_all msg q _ _)
          ∙ load_state-kept (values (visit final)) [] [] k refl
          ∙ ap (map_option (kept st))
              (rebuild visit visited final (persister-IsConsistent _ (msg ∷ q)) k named))

module _ (st : Storage) (files : Files) (json : Json) (watch : Option Watch) (r : IsReliable files)
    (c : IsCodec st json) where
  -- A process starts on a JSON file, with or without a watch on its saves, on a file system without
  -- faults and with an encoding that does not fail and changes no identity. Its server is started
  -- on the loaded state and serves a history of calls, whose messages fit into a channel, and its
  -- persister, whose weak pointer is taken to stay live, reads all of them and saves its map after
  -- each. The process that starts on the file afterwards has, under each key with an identity, the
  -- entry that the first server had at the end, or this entry as storage keeps it.
  pub process-recovers :
      (w : (add_watch (json_file files json) watch).State) (interval interval' : ℤ) (cs : List Call)
      (visit : Visit ClusterAffiliateId ClusterAffiliate) (k : ClusterAffiliateId)
      → All IsFair cs
      → 2 * length cs ≤ capacity
      → IsVisit visit
      → IsNamed k
      → let p = add_watch (json_file files json) watch in
        let (w1, l) = p.load w in
        (s' : Server) × (run cs (started l interval) ≡ done s')
        × (let saves = (persist visit (waiting s'.watchers) (initial_state l)).1 in
            let again = started (p.load (save_all p saves w1)).1 interval' in
            (lookup k (table again) ≡ lookup k (table s'))
            ⊎ (lookup k (table again) ≡ map_option (kept st) (lookup k (table s'))))
  process-recovers w interval interval' cs visit k fair le visited named =
      let p = add_watch (json_file files json) watch in
      let (s', ran, follows) = persister-follows (p.load w).1 interval cs k fair le named in
      let keeps =
        add_watch-Keeps st (json_file files json) watch (json_file-Keeps st files json r c) in
      (
        s',
        ran,
        elim (restored st p keeps visit (waiting s'.watchers) w interval' k visited named) [
          | inl same ↦ inl (same ∙ follows)
          | inr same ↦ inr (same ∙ ap (map_option (kept st)) follows)
        ],
      )
