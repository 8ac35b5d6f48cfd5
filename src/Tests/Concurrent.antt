-- ===== src/Tests/Concurrent.antt =====
-- Applications of the theorems on calls that run at once (internal/discovery, internal/sync).
use dockyards_talos.Base.{◌*◌, ◌≡◌, map, refl, none, some, List, [], ◌∷◌, arith}
use dockyards_talos.Base.GoMap.{lookup}
use dockyards_talos.Base.Positions.{get_elem?}
use dockyards_talos.Base.Range.{stored}
use dockyards_talos.Base.Time.{pos}
use dockyards_talos.Base.Outcome.{done}
use dockyards_talos.Discovery.Types.{id_eq}
use dockyards_talos.Discovery.Watchers.{new_channel, Server}
use dockyards_talos.Discovery.Garbage.Effect.{table}
use dockyards_talos.Discovery.Lifecycle.{new_server}
use dockyards_talos.Discovery.History.{Call, ticks, watches}
use dockyards_talos.Discovery.Persister.{absorb_all}
use dockyards_talos.Discovery.Persister.Restart.{waiting}
use dockyards_talos.Discovery.Concurrent.{
  finished, start_of, Thread, System, Event, arrive, turn, receive, reclaim, play,
}
use dockyards_talos.Discovery.Concurrent.Alone.{complete_all, complete_all-view}
use dockyards_talos.Discovery.History.View.{view, request_of, request_run}
use dockyards_talos.Discovery.Concurrent.Safety.{IsSafe, play-IsSafe}
use dockyards_talos.Discovery.Concurrent.Room.{Roomy, arrivals}
use dockyards_talos.Discovery.Concurrent.Liveness.{play_finishes}
use dockyards_talos.Discovery.Concurrent.Race.{raced_key, raced_entry, racing, racing_disagree}
use dockyards_talos.Tests.Discovery.{
  update_request, loaded_server, calls, calls-IsFair, calls_fit, loaded_server-Ready, two_fit,
  key-IsNamed, loaded_server-IsConsistent,
}

abbrev tick_call : Call
tick_call = ticks stored stored (pos 5)

complete_all-view_example :
    (s' : Server) × (complete_all calls loaded_server ≡ done s')
    × (view s' ≡ request_run (map request_of calls) (view loaded_server))
complete_all-view_example =
    complete_all-view calls loaded_server calls-IsFair calls_fit loaded_server-Ready
      loaded_server-IsConsistent

-- A watch and a tick that alternate, while the persister reads.
abbrev crowd : System
crowd = record {
  server = loaded_server;
  threads = record { call = tick_call; place = start_of tick_call } ∷ [];
}

abbrev happenings : List Event
happenings =
    arrive (watches stored (pos 1))
    ∷ turn 0
    ∷ turn 1
    ∷ turn 0
    ∷ turn 1
    ∷ turn 0
    ∷ turn 0
    ∷ receive 0
    ∷ turn 0
    ∷ reclaim 0
    ∷ turn 0
    ∷ turn 1
    ∷ []

crowd-Roomy : Roomy (2 * arrivals happenings) crowd
unfolding new_server
crowd-Roomy = (omega arith, (refl, omega arith, tt))

play_finishes_example :
    (sys' : System) × (play happenings crowd ≡ done sys')
    × ((th' : Thread) × (get_elem? sys'.threads 0 ≡ some th') × (th'.place ≡ finished))
play_finishes_example =
    play_finishes happenings crowd 0 (record { call = tick_call; place = start_of tick_call })
      crowd-Roomy refl (omega arith)

crowd_runs : (sys' : System) × (play happenings crowd ≡ done sys')
crowd_runs =
    let (sys', ran, at) =
      play_finishes happenings crowd 0 (record { call = tick_call; place = start_of tick_call })
        crowd-Roomy refl (omega arith) in
    (sys', ran)

loaded_server-IsSafe : IsSafe loaded_server
unfolding new_server
loaded_server-IsSafe = record { consistent = loaded_server-IsConsistent; fits = (omega arith, tt) }

play-IsSafe_example : IsSafe crowd_runs.0.server
play-IsSafe_example = play-IsSafe happenings crowd crowd_runs.0 crowd_runs.1 loaded_server-IsSafe

one_watcher : loaded_server.watchers ≡ some new_channel ∷ []
unfolding new_server
one_watcher = refl

racing_disagree_example :
    let key = raced_key stored stored stored (pos 1) (pos 2) (pos 3) update_request loaded_server in
    (sys' : System) × (play
        (turn 0 ∷ turn 1 ∷ turn 1 ∷ turn 0 ∷ [])
        (racing stored stored stored (pos 1) (pos 2) (pos 3) update_request loaded_server)
      ≡ done sys')
    × (lookup key (table sys'.server) ≡ none)
    × (lookup key (absorb_all (waiting sys'.server.watchers) [])
        ≡ some
            (raced_entry stored stored stored (pos 1) (pos 2) (pos 3) update_request loaded_server))
racing_disagree_example =
    racing_disagree stored stored stored (pos 1) (pos 2) (pos 3) update_request loaded_server
      new_channel [] [] one_watcher two_fit key-IsNamed
