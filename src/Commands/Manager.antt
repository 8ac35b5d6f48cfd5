-- ===== src/Commands/Manager.antt =====
-- The command cmd/dockyards-talos/main.go: what it sets up before it starts the manager, by its flags.
use dockyards_talos.Base.{
  String, string_eq, Bool, true, false, not, Option, none, some, List, [], ◌∷◌, ◌==◌, if◌then◌else◌,
}
use dockyards_talos.Base.Result.{Result, ok, ◌>>=◌, ◌>>◌, guard, or_fail}
use dockyards_talos.Discovery.Types.{ClusterAffiliate}
use dockyards_talos.Discovery.Options.{
  Stored, cluster_discovery_server_logger, cluster_discovery_server_state_provider,
  cluster_discovery_server_garbage_collection_interval, new_cluster_discovery_server,
}
use dockyards_talos.Discovery.Providers.{add_watch, discard, json_file}
use dockyards_talos.Commands.{
  Level, debug, info, warn, error, ServiceFlags, Environment, StartError, unknown_log_level,
  no_working_directory, no_listener, no_tls_certificate, no_config, no_manager, no_cluster_scheme,
  no_link_config_scheme, no_release_controller, no_link_config_controller, no_webhook, Service,
}

pub record ManagerFlags : Type 0 where
  pub enable_webhooks : Bool
  pub image_factory_host : String
  pub metrics_bind_address : String
  pub enable_discovery_service : Bool
  pub discovery : ServiceFlags

-- The command cmd/dockyards-talos when it starts the manager: the service that is served beside it,
-- the host of the Release controller, and whether the webhook is there.
pub record Running : Type 1 where
  pub service : Option Service
  pub image_factory_host : String
  pub validates_node_pools : Bool

-- The level of newLogger, in this command.
unfoldable pub manager_level_of : String → Option Level
manager_level_of log_level =
    if log_level == "debug"
    then some debug
    else if log_level == "info"
    then some info
    else if log_level == "warn"
    then some warn
    else if log_level == "error"
    then some error
    else none

-- The function that is added as a watch logs what is saved.
unfoldable pub manager_watched : Stored → Stored
unfolding add_watch
manager_watched provider = record {
  provider = add_watch provider.provider (
      some (record {
        Trace = List (List ClusterAffiliate);
        saw = λ affiliates trace. List.◌∷◌ affiliates trace;
      }));
  state = (provider.state, List.[]);
}

-- The server of the gRPC service, and how it is served.
unfoldable pub manager_serve_from :
    Level → ServiceFlags → Stored → Option (String × String) → Service
manager_serve_from level flags provider creds =
    let (stored, server) = new_cluster_discovery_server (
      cluster_discovery_server_logger
      ∷ cluster_discovery_server_state_provider provider
      ∷ cluster_discovery_server_garbage_collection_interval flags.gc_interval
      ∷ []) in
    record {
      log_level = level;
      address = flags.bind_address;
      stored = stored;
      server = server;
      tls = creds;
      min_time = flags.keepalive_min_time;
      permit_without_stream = flags.keepalive_permit_without_stream;
    }

module _ (env : Environment) where
  -- `switch discoveryStatePath`
  unfoldable pub manager_choose_provider : String → Stored
  unfolding discard json_file
  manager_choose_provider path =
      if path == ""
      then record { provider = discard; state = tt }
      else record { provider = json_file (env.files path) env.json; state = env.contents path }

  -- `if discoveryUseTLS { … }`
  unfoldable pub manager_load_tls :
      (use_tls : Bool) → ServiceFlags → Result StartError (Option (String × String))
  manager_load_tls true flags = do
    guard (env.loads_tls flags.tls_cert_path flags.tls_key_path) no_tls_certificate
    ok (some (flags.tls_cert_path, flags.tls_key_path))
  manager_load_tls false flags = ok none

  -- `if enableDiscoveryService { … }`
  unfoldable pub discovery_part : Level → Bool → ServiceFlags → Result StartError (Option Service)
  discovery_part level false flags = ok none
  discovery_part level true flags = do
    guard (env.can_listen flags.bind_address) no_listener
    let provider = manager_watched (manager_choose_provider flags.state_path)
    creds ← manager_load_tls (not flags.no_tls) flags
    ok (some (manager_serve_from level flags provider creds))

  -- `if enableWebhooks { … }`
  unfoldable pub webhook_part : Bool → Result StartError (Unit {0})
  webhook_part false = ok tt
  webhook_part true = guard env.sets_up_webhook no_webhook

  -- main, up to the start of the manager.
  unfoldable pub dockyards_talos_command :
      (log_level : String) → ManagerFlags → Result StartError Running
  dockyards_talos_command log_level flags = do
    level ← or_fail (manager_level_of log_level) unknown_log_level
    guard env.has_working_directory no_working_directory
    service ← discovery_part level flags.enable_discovery_service flags.discovery
    guard env.has_config no_config
    guard (env.makes_manager flags.metrics_bind_address) no_manager
    guard env.adds_cluster_scheme no_cluster_scheme
    guard env.adds_link_config_scheme no_link_config_scheme
    guard env.sets_up_release_controller no_release_controller
    guard env.sets_up_link_config_controller no_link_config_controller
    webhook_part flags.enable_webhooks
    ok (record {
      service = service;
      image_factory_host = flags.image_factory_host;
      validates_node_pools = flags.enable_webhooks;
    })
