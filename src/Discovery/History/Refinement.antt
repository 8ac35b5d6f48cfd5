-- ===== src/Discovery/History/Refinement.antt =====
-- cluster_discovery_server.go: a history of calls on the server, beside its specification.
use dockyards_talos.Base.{
  ℕ, suc, ◌+◌, ◌*◌, ◌≤◌, ◌≡◌, refl, some, List, [], ◌∷◌, ◌++◌, arith, length, All,
}
use dockyards_talos.Base.GoMap.{lookup}
use dockyards_talos.Base.Outcome.{done}
use dockyards_talos.Discovery.Types.{ClusterAffiliateId, id_eq}
use dockyards_talos.Discovery.Watchers.{capacity, new_channel, Server}
use dockyards_talos.Discovery.Watchers.Delivery.{Ready, Ready-weaken}
use dockyards_talos.Discovery.Garbage.Effect.{
  table, after_garbage, collect_garbage-eq-after, after_garbage-Ready, lookup-after_garbage,
}
use dockyards_talos.Discovery.Update.Effect.{
  update_key, after_update, affiliate_update-eq-after, after_update-Ready, lookup-after_update,
}
use dockyards_talos.Discovery.Delete.Effect.{
  after_delete, affiliate_delete-eq-after, after_delete-Ready, lookup-after_delete,
}
use dockyards_talos.Discovery.Listing.{list, current_state}
use dockyards_talos.Discovery.Listing.Effect.{
  after_state, broadcast_current_state-eq-after, state_messages-Ready, new_channel-Ready,
}
use dockyards_talos.Discovery.Watch.{start_watch}
use dockyards_talos.Discovery.Lifecycle.{tick}
use dockyards_talos.Discovery.Consistency.{
  IsConsistent, after_garbage-IsConsistent, after_update-IsConsistent, after_delete-IsConsistent,
}
use dockyards_talos.Discovery.History.{
  Call, update, delete, lists, watches, ticks, IsFair, step, run, Spec, spec_step, spec_run,
}

-- The server with a channel more.
abbrev pub joined : Server → Server
joined s = record s { watchers = s.watchers ++ some new_channel ∷ [] }

-- The server after a call.
abbrev pub after : Call → Server → Server
after (update visit visit_endpoints swept_at now req) s =
    after_update visit visit_endpoints swept_at now req s
after (delete visit swept_at req) s = after_delete visit swept_at req s
after (lists visit_sweep visit swept_at cluster) s = after_garbage visit_sweep swept_at s
after (watches visit swept_at) s = after_garbage visit swept_at (joined s)
after (ticks visit_sweep visit now) s = after_state visit (after_garbage visit_sweep now s)

module _ (n : ℕ) where
  one : (s : Server) → Ready (n + 2) s.watchers → Ready 1 s.watchers
  one s h = Ready-weaken (n + 2) 1 s.watchers (omega arith) h

  two : (s : Server) → Ready (n + 2) s.watchers → Ready 2 s.watchers
  two s h = Ready-weaken (n + 2) 2 s.watchers (omega arith) h

  more : (s : Server) → Ready (n + 2) s.watchers → Ready (n + 1 + 1) s.watchers
  more s h = Ready-weaken (n + 2) (n + 1 + 1) s.watchers (omega arith) h

  -- A call returns, if each live channel has room for two messages.
  pub step-eq-after :
      (c : Call) (s : Server)
      → n + 2 ≤ capacity
      → Ready (n + 2) s.watchers
      → step c s ≡ done (after c s)
  unfolding step list start_watch tick
  step-eq-after (update visit visit_endpoints swept_at now req) s le h =
      affiliate_update-eq-after visit visit_endpoints swept_at now req s (two s h)
  step-eq-after (delete visit swept_at req) s le h =
      affiliate_delete-eq-after visit swept_at req s (two s h)
  step-eq-after (lists visit_sweep visit swept_at cluster) s le h =
      rw (collect_garbage-eq-after visit_sweep swept_at s (one s h)) refl
  step-eq-after (watches visit swept_at) s le h =
      collect_garbage-eq-after visit swept_at (joined s)
        (one (joined s) (new_channel-Ready (n + 2) s.watchers le h))
  step-eq-after (ticks visit_sweep visit now) s le h =
      rw (collect_garbage-eq-after visit_sweep now s (one s h)) (
        broadcast_current_state-eq-after visit (after_garbage visit_sweep now s)
          (after_garbage-Ready visit_sweep now s 1 (two s h)))

  -- A call takes room for two messages at most.
  pub after-Ready :
      (c : Call) (s : Server)
      → n + 2 ≤ capacity
      → Ready (n + 2) s.watchers
      → Ready n (after c s).watchers
  after-Ready (update visit visit_endpoints swept_at now req) s le h =
      after_update-Ready visit visit_endpoints swept_at now req s n h
  after-Ready (delete visit swept_at req) s le h = after_delete-Ready visit swept_at req s n h
  after-Ready (lists visit_sweep visit swept_at cluster) s le h =
      after_garbage-Ready visit_sweep swept_at s n
        (Ready-weaken (n + 2) (n + 1) s.watchers (omega arith) h)
  after-Ready (watches visit swept_at) s le h = after_garbage-Ready visit swept_at (joined s) n (
      Ready-weaken (n + 2) (n + 1) (joined s).watchers (omega arith)
        (new_channel-Ready (n + 2) s.watchers le h))
  after-Ready (ticks visit_sweep visit now) s le h =
      state_messages-Ready n (current_state visit (after_garbage visit_sweep now s).affiliates)
        (after_garbage visit_sweep now s).watchers
        (after_garbage-Ready visit_sweep now s (n + 1) (more s h))

-- Every call keeps the map well-formed.
pub after-IsConsistent :
    (c : Call) (s : Server) → IsFair c → IsConsistent (table s) → IsConsistent (table (after c s))
after-IsConsistent (update visit visit_endpoints swept_at now req) s fair c =
    after_update-IsConsistent visit fair.0 s c visit_endpoints swept_at now req
after-IsConsistent (delete visit swept_at req) s fair c =
    after_delete-IsConsistent visit fair s c swept_at req
after-IsConsistent (lists visit_sweep visit swept_at cluster) s fair c =
    after_garbage-IsConsistent visit_sweep fair.0 s c swept_at
after-IsConsistent (watches visit swept_at) s fair c =
    after_garbage-IsConsistent visit fair (joined s) c swept_at
after-IsConsistent (ticks visit_sweep visit now) s fair c =
    after_garbage-IsConsistent visit_sweep fair.0 s c now

-- The map of the server and the specification agree.
abbrev pub Implements : Server → Spec → Type 0
Implements s f = (k : ClusterAffiliateId) → lookup k (table s) ≡ f k

pub after-Implements :
    (c : Call) (s : Server) (f : Spec)
    → IsFair c
    → IsConsistent (table s)
    → Implements s f
    → Implements (after c s) (spec_step c f)
unfolding spec_step
after-Implements (update visit visit_endpoints swept_at now req) s f fair c h j =
    rw (lookup-after_update visit visit_endpoints swept_at now req s fair.0 c.distinct j)
      (rw (h j, h (update_key visit visit_endpoints swept_at now req s)))
after-Implements (delete visit swept_at req) s f fair c h j =
    rw (lookup-after_delete visit swept_at req s fair c.distinct j) (rw (h j))
after-Implements (lists visit_sweep visit swept_at cluster) s f fair c h j =
    rw (lookup-after_garbage visit_sweep swept_at s fair.0 c.distinct j) (rw (h j))
after-Implements (watches visit swept_at) s f fair c h j =
    rw (lookup-after_garbage visit swept_at (joined s) fair c.distinct j) (rw (h j))
after-Implements (ticks visit_sweep visit now) s f fair c h j =
    rw (lookup-after_garbage visit_sweep now s fair.0 c.distinct j) (rw (h j))

-- A history whose messages fit into the channels runs to its end, one call after the other, and
-- then the map of the server agrees with the specification and is well-formed.
pub run-Implements :
    (cs : List Call) (s : Server) (f : Spec)
    → All IsFair cs
    → 2 * length cs ≤ capacity
    → Ready (2 * length cs) s.watchers
    → IsConsistent (table s)
    → Implements s f
    → (s' : Server) × (run cs s ≡ done s') × Implements s' (spec_run cs f) × IsConsistent (table s')
unfolding run spec_run
run-Implements [] s f fair le h c i = (s, refl, i, c)
run-Implements (c ∷ cs) s f fair le h good i =
    let n = 2 * length cs in
    let le' : n + 2 ≤ capacity = omega arith in
    let h' : Ready (n + 2) s.watchers =
      Ready-weaken (2 * suc (length cs)) (n + 2) s.watchers (omega arith) h in
    rw (step-eq-after n c s le' h') (
      run-Implements cs (after c s) (spec_step c f) fair.1 (omega arith) (after-Ready n c s le' h')
        (after-IsConsistent c s fair.0 good) (after-Implements c s f fair.0 good i))
