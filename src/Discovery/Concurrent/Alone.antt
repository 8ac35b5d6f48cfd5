-- ===== src/Discovery/Concurrent/Alone.antt =====
-- cluster_discovery_server.go: a call whose critical sections follow one another undisturbed.
use dockyards_talos.Base.{
  ℕ, zero, suc, ap, ◌*◌, ◌≤◌, length, map, All, ◌∙◌, ◌≡◌, refl, inl, inr, Option, none, some, List,
  [], ◌∷◌, ◌++◌, arith,
}
use dockyards_talos.Base.Outcome.{Outcome, done, ◌>>=◌, Outcome-cases, >>=-congr}
use dockyards_talos.Discovery.Types.{id_eq, ClusterAffiliate, WatchResponse}
use dockyards_talos.Discovery.Watchers.{Server, capacity, new_channel, broadcast}
use dockyards_talos.Discovery.Garbage.{drop_expired, announce, collect_garbage}
use dockyards_talos.Discovery.Update.{affiliate_update}
use dockyards_talos.Discovery.Delete.{announce_delete, affiliate_delete}
use dockyards_talos.Discovery.Listing.{list, announce_state, broadcast_current_state}
use dockyards_talos.Discovery.Watch.{start_watch}
use dockyards_talos.Discovery.Lifecycle.{tick}
use dockyards_talos.Discovery.History.{
  Call, update, delete, lists, watches, ticks, step, IsFair, run,
}
use dockyards_talos.Discovery.History.View.{view, request_of, request_run, run-view}
use dockyards_talos.Discovery.Watchers.Delivery.{Ready}
use dockyards_talos.Discovery.Garbage.Effect.{table}
use dockyards_talos.Discovery.Consistency.{IsConsistent}
use dockyards_talos.Discovery.Concurrent.{
  Place, sweeping, acting, sending, finished, start_of, sweep_visit, sweep_time, deleted_place,
  state_place, act, advance,
}

-- So many steps of one call, with no other step between them.
unfoldable pub complete : ℕ → Call → Place → Server → Outcome Server
complete zero call place s = done s
complete (suc n) call place s = do r ← advance call place s; complete n call r.0 r.1

complete-finished : (n : ℕ) (call : Call) (s : Server) → complete n call finished s ≡ done s
unfolding complete advance
complete-finished zero call s = refl
complete-finished (suc n) call s = complete-finished n call s

complete_sent :
    (n : ℕ) (call : Call) (message : WatchResponse) (s : Server)
    → complete (suc n) call (sending message) s ≡ broadcast message s
unfolding complete advance
complete_sent n call message s = elim (Outcome-cases (broadcast message s)) [
  | inl (s', e) ↦ ground (arith, complete-finished n call s')
  | inr (inl e) ↦ ground arith
  | inr (inr e) ↦ ground arith
]

complete_swept :
    (n : ℕ) (call : Call) (s : Server)
    → complete (suc (suc (suc n))) call sweeping s
      ≡ (collect_garbage (sweep_visit call) (sweep_time call) s >>= λ s'. complete n call acting s')
unfolding complete advance collect_garbage
complete_swept n call s =
    let swept = drop_expired (sweep_visit call) (sweep_time call) s in
    elim (Outcome-cases (announce swept.0 swept.1)) [
      | inl (s', e) ↦ ground arith
      | inr (inl e) ↦ ground arith
      | inr (inr e) ↦ ground arith
    ]

complete_deleted :
    (n : ℕ) (call : Call) (found : Option ClusterAffiliate) (s : Server)
    → complete (suc n) call (deleted_place found) s ≡ announce_delete found s
unfolding announce_delete
complete_deleted n call none s = complete-finished (suc n) call s
complete_deleted n call (some a) s = complete_sent n call _ s

complete_state :
    (n : ℕ) (call : Call) (cas : List ClusterAffiliate) (s : Server)
    → complete (suc n) call (state_place cas) s ≡ announce_state cas s
unfolding announce_state
complete_state n call [] s = complete-finished (suc n) call s
complete_state n call (a ∷ cas) s = complete_sent n call _ s

-- A call whose six steps at most follow one another, with no other step between them, does what
-- the call does as a whole: it returns the same server, or blocks or panics in the same way.
pub complete-eq-step : (call : Call) (s : Server) → complete 6 call (start_of call) s ≡ step call s
unfolding step complete advance act affiliate_update affiliate_delete list start_watch tick
    broadcast_current_state
complete-eq-step (update visit visit_endpoints swept_at now req) s =
    let call = update visit visit_endpoints swept_at now req in
    complete_swept 3 call s
    ∙ >>=-congr (collect_garbage visit swept_at s) _ _ (λ s'. complete_sent 1 call _ _)
complete-eq-step (delete visit swept_at req) s =
    let call = delete visit swept_at req in
    complete_swept 3 call s
    ∙ >>=-congr (collect_garbage visit swept_at s) _ _ (λ s'. complete_deleted 1 call _ _)
complete-eq-step (lists visit_sweep visit swept_at cluster) s =
    let call = lists visit_sweep visit swept_at cluster in
    complete_swept 3 call s ∙ elim (Outcome-cases (collect_garbage visit_sweep swept_at s)) [
      | inl (s', e) ↦ ground arith
      | inr (inl e) ↦ ground arith
      | inr (inr e) ↦ ground arith
    ]
complete-eq-step (watches visit swept_at) s =
    let call = watches visit swept_at in
    complete_swept 2 call _
    ∙ elim (Outcome-cases (
        collect_garbage visit swept_at
          (record s { watchers = s.watchers ++ some new_channel ∷ [] }))) [
            | inl (s', e) ↦ ground arith
            | inr (inl e) ↦ ground arith
            | inr (inr e) ↦ ground arith
          ]
complete-eq-step (ticks visit_sweep visit now) s =
    let call = ticks visit_sweep visit now in
    complete_swept 3 call s
    ∙ >>=-congr (collect_garbage visit_sweep now s) _ _ (λ s'. complete_state 1 call _ _)

-- Calls that follow one another, each by its own steps.
unfoldable pub complete_all : List Call → Server → Outcome Server
complete_all [] s = done s
complete_all (call ∷ calls) s = do s' ← complete 6 call (start_of call) s; complete_all calls s'

complete_all-eq-run : (calls : List Call) (s : Server) → complete_all calls s ≡ run calls s
unfolding complete_all run
complete_all-eq-run [] s = refl
complete_all-eq-run (call ∷ calls) s =
    ap (λ r. r >>= complete_all calls) (complete-eq-step call s)
    ∙ >>=-congr (step call s) _ _ (complete_all-eq-run calls)

-- Calls one after the other, each carried out by its critical sections and sends, six at most: when
-- their messages fit into the channels, each runs to its end, and what the map then holds is what
-- the requests say, whatever the orders in which a call visits the map or the endpoints.
pub complete_all-view :
    (calls : List Call) (s : Server)
    → All IsFair calls
    → 2 * length calls ≤ capacity
    → Ready (2 * length calls) s.watchers
    → IsConsistent (table s)
    → (s' : Server) × (complete_all calls s ≡ done s')
      × (view s' ≡ request_run (map request_of calls) (view s))
complete_all-view calls s fair le ready good =
    let (s', ran, same) = run-view calls s fair le ready good in
    (s', complete_all-eq-run calls s ∙ ran, same)
