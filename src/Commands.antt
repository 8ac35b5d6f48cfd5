-- ===== src/Commands.antt =====
-- The command cmd/discovery-service/main.go: what it sets up before it serves, by its flags; with what
-- both commands find when they start.
pub mod Agreement
pub mod Client
pub mod Manager
use dockyards_talos.Base.{
  String, string_eq, Bool, true, false, not, Option, none, some, List, [], ◌∷◌, ◌==◌, if◌then◌else◌,
}
use dockyards_talos.Base.Result.{Result, ok, err, ◌>>=◌, ◌>>◌, guard, or_fail}
use dockyards_talos.Base.Time.{ℤ}
use dockyards_talos.Discovery.Types.{ClusterAffiliate}
use dockyards_talos.Discovery.Watchers.{Server}
use dockyards_talos.Discovery.Options.{
  Stored, cluster_discovery_server_logger, cluster_discovery_server_state_provider,
  cluster_discovery_server_garbage_collection_interval, new_cluster_discovery_server,
}
use dockyards_talos.Discovery.Providers.{
  StateProvider, Watch, add_watch, discard, Files, Json, json_file,
}

pub data Level : Type 0 where
  debug info warn error : Level

-- The level of newLogger.
unfoldable pub level_of : String → Option Level
level_of s =
    if s == "debug"
    then some debug
    else if s == "info"
    then some info
    else if s == "warn"
    then some warn
    else if s == "error"
    then some error
    else none

-- The flags for the discovery service.
pub record ServiceFlags : Type 0 where
  pub bind_address : String
  pub state_path : String
  pub gc_interval : ℤ
  pub no_tls : Bool
  pub tls_cert_path : String
  pub tls_key_path : String
  pub keepalive_min_time : ℤ
  pub keepalive_permit_without_stream : Bool

-- What the process finds: the files with their contents, and which calls of other packages
-- succeed.
pub record Environment : Type 1 where
  pub files : String → Files
  pub contents : (path : String) → (files path).State
  pub json : Json
  pub has_working_directory : Bool
  pub can_listen : String → Bool
  pub loads_tls : (cert key : String) → Bool
  pub has_config : Bool
  pub makes_manager : (metrics : String) → Bool
  pub adds_cluster_scheme : Bool
  pub adds_link_config_scheme : Bool
  pub sets_up_release_controller : Bool
  pub sets_up_link_config_controller : Bool
  pub sets_up_webhook : Bool

pub data StartError : Type 0 where
  unknown_log_level no_working_directory no_listener no_tls_certificate : StartError
  no_config no_manager no_cluster_scheme no_link_config_scheme : StartError
  no_release_controller no_link_config_controller no_webhook : StartError

-- What `grpcServer.Serve` is called on, and the level of the process's log.
pub record Service : Type 1 where
  pub log_level : Level
  pub address : String
  pub stored : Option Stored
  pub server : Server
  pub tls : Option (String × String)
  pub min_time : ℤ
  pub permit_without_stream : Bool

-- The function that is added as a watch logs what is saved.
unfoldable pub watched : Stored → Stored
unfolding add_watch
watched s = record {
  provider =
      add_watch s.provider
        (some (record { Trace = List (List ClusterAffiliate); saw = λ l t. List.◌∷◌ l t }));
  state = (s.state, List.[]);
}

-- The service, with the server that NewClusterDiscoveryServer makes.
unfoldable pub serve_from : Level → ServiceFlags → Stored → Option (String × String) → Service
serve_from level flags s tls =
    let (stored, server) = new_cluster_discovery_server (
      cluster_discovery_server_logger
      ∷ cluster_discovery_server_state_provider s
      ∷ cluster_discovery_server_garbage_collection_interval flags.gc_interval
      ∷ []) in
    record {
      log_level = level;
      address = flags.bind_address;
      stored = stored;
      server = server;
      tls = tls;
      min_time = flags.keepalive_min_time;
      permit_without_stream = flags.keepalive_permit_without_stream;
    }

module _ (env : Environment) where
  unfoldable pub choose_provider : String → Stored
  unfolding discard json_file
  choose_provider path =
      if path == ""
      then record { provider = discard; state = tt }
      else record { provider = json_file (env.files path) env.json; state = env.contents path }

  -- `if discoveryUseTLS { … }`
  unfoldable pub load_tls : Bool → ServiceFlags → Result StartError (Option (String × String))
  load_tls true flags = ok none
  load_tls false flags = do
    guard (env.loads_tls flags.tls_cert_path flags.tls_key_path) no_tls_certificate
    ok (some (flags.tls_cert_path, flags.tls_key_path))

  -- cmd/discovery-service/main.go, up to the call of Serve.
  unfoldable pub discovery_service : (log_level : String) → ServiceFlags → Result StartError Service
  discovery_service log_level flags = do
    level ← or_fail (level_of log_level) unknown_log_level
    guard env.has_working_directory no_working_directory
    guard (env.can_listen flags.bind_address) no_listener
    tls ← load_tls flags.no_tls flags
    ok (serve_from level flags (watched (choose_provider flags.state_path)) tls)
