-- ===== src/Tests/Providers.antt =====
-- Applications of the theorems on the state providers (internal/discovery).
use dockyards_talos.Base.{
  String, ◌≡◌, refl, ◌⊎◌, inl, inr, Bool, true, false, Option, none, some, List, [], ◌∷◌, map,
  if◌then◌else◌,
}
use dockyards_talos.Base.GoMap.{lookup}
use dockyards_talos.Base.Range.{stored, stored-IsVisit}
use dockyards_talos.Base.Time.{pos}
use dockyards_talos.Base.Outcome.{done}
use dockyards_talos.Discovery.Types.{id_eq, ClusterAffiliate}
use dockyards_talos.Discovery.Watchers.{Server}
use dockyards_talos.Discovery.Garbage.Effect.{table}
use dockyards_talos.Discovery.Update.{key_of}
use dockyards_talos.Discovery.History.{run}
use dockyards_talos.Discovery.Persister.{initial_state, persist}
use dockyards_talos.Discovery.Persister.Restart.{started, waiting}
use dockyards_talos.Discovery.Providers.{
  StateProvider, Watch, add_watch, json_file, content, Files, load_json, save_json,
}
use dockyards_talos.Discovery.Providers.Failures.{IsFaulty, load_json-save_json}
use dockyards_talos.Discovery.Providers.Laws.{map_option, kept}
use dockyards_talos.Discovery.Providers.Recovery.{save_all, process-recovers}
use dockyards_talos.Tests.Codec.{
  identities, pairs, pairs-IsCodec, disk, disk-IsReliable, reading, write_entries,
}
use dockyards_talos.Tests.Discovery.{one_entry, calls, calls-IsFair, calls_fit, key-IsNamed}

-- A log of what was saved.
abbrev log : Watch
log = record { Trace = List (List ClusterAffiliate); saw = λ l t. l ∷ t }

abbrev logged_file : StateProvider
logged_file = add_watch (json_file disk pairs) (some log)

-- There is no file yet.
first_state : logged_file.State
unfolding add_watch json_file
first_state = (none, [])

process-recovers_example :
    (s' : Server) × (run calls (started (logged_file.load first_state).1 (pos 0)) ≡ done s')
    × ((lookup (key_of "c" "a") (
            table (
              started
                (logged_file.load (
                  save_all logged_file
                    (persist stored
                      (waiting s'.watchers)
                      (initial_state (logged_file.load first_state).1)).1
                    (logged_file.load first_state).0)).1
                (pos 9)))
          ≡ lookup (key_of "c" "a") (table s'))
        ⊎ (lookup (key_of "c" "a") (
              table (
                started
                  (logged_file.load (
                    save_all logged_file
                      (persist stored
                        (waiting s'.watchers)
                        (initial_state (logged_file.load first_state).1)).1
                      (logged_file.load first_state).0)).1
                  (pos 9)))
            ≡ map_option (kept identities) (lookup (key_of "c" "a") (table s'))))
process-recovers_example =
    process-recovers identities disk pairs (some log) disk-IsReliable pairs-IsCodec first_state
      (pos 0) (pos 9) calls stored (key_of "c" "a") calls-IsFair calls_fit stored-IsVisit
      key-IsNamed

-- A disk that may be full, with one file: a write then leaves an opening bracket.
abbrev full_or : Bool → Option String → String → (Bool × Option String) × Bool
full_or true file text = ((true, some "["), false)
full_or false file text = ((false, some text), true)

abbrev filling_disk : Files
filling_disk = record {
  State = Bool × Option String;
  read_file = λ w. reading w.1;
  write_file = λ text w. ((w.0, some text), true);
  create = λ w. ((w.0, some ""), true);
  write = λ text w. full_or w.0 w.1 text;
  sync = λ w. (w, true);
}

full_or-IsFaulty :
    (full : Bool) (file : Option String) (text : String)
    → ((full_or full file text).1 ≡ true) × (reading (full_or full file text).0.1 ≡ content text)
      ⊎ ((full_or full file text).1 ≡ false)
        × ((part : String) × (reading (full_or full file text).0.1 ≡ content part)
            × (pairs.decode part ≡ none))
full_or-IsFaulty true file text = inr (refl, ("[", refl, refl))
full_or-IsFaulty false file text = inl (refl, refl)

filling_disk-IsFaulty : IsFaulty filling_disk pairs
filling_disk-IsFaulty = record {
  creates = λ w. inl (refl, refl);
  writes = λ text w empty. full_or-IsFaulty w.0 w.1 text;
  syncs = λ w. refl;
}

load_json-save_json_example :
    (load_json filling_disk pairs
      (save_json filling_disk pairs (one_entry ∷ []) (true, some "[]"))).1
    ≡ (if (filling_disk.create (true, some "[]")).1
        then (if (filling_disk.write (write_entries (one_entry ∷ [])) (true, some "")).1
            then map (kept identities) (one_entry ∷ [])
            else [])
        else (load_json filling_disk pairs (true, some "[]")).1)
load_json-save_json_example =
    load_json-save_json filling_disk pairs filling_disk-IsFaulty identities (one_entry ∷ [])
      (write_entries (one_entry ∷ [])) (true, some "[]") pairs-IsCodec refl
