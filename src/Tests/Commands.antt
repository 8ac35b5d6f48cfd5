-- ===== src/Tests/Commands.antt =====
-- Applications of the theorem on the commands (cmd/discovery-service, cmd/dockyards-talos).
use dockyards_talos.Base.{string_eq, ◌≡◌, refl, ◌⊎◌, Bool, true, false, none, some}
use dockyards_talos.Base.Result.{ok}
use dockyards_talos.Base.Time.{pos}
use dockyards_talos.Commands.{info, ServiceFlags, Environment, Service, discovery_service}
use dockyards_talos.Commands.Manager.{
  ManagerFlags, Running, manager_level_of, manager_load_tls, manager_watched,
  manager_choose_provider, manager_serve_from, discovery_part, webhook_part,
  dockyards_talos_command,
}
use dockyards_talos.Commands.Agreement.{dockyards_talos_command-discovery_service}
use dockyards_talos.Tests.Codec.{disk, pairs}

abbrev service_flags : ServiceFlags
service_flags = record {
  bind_address = ":6000";
  state_path = "discovery_state.json";
  gc_interval = pos 60_000_000_000;
  no_tls = false;
  tls_cert_path = "ca.crt";
  tls_key_path = "ca.key";
  keepalive_min_time = pos 30_000_000_000;
  keepalive_permit_without_stream = true;
}

abbrev flags : ManagerFlags
flags = record {
  enable_webhooks = true;
  image_factory_host = "factory.talos.dev";
  metrics_bind_address = "0";
  enable_discovery_service = true;
  discovery = service_flags;
}

-- Nothing fails, and there is no state yet.
abbrev environment : Environment
environment = record {
  files = λ path. disk;
  contents = λ path. none;
  json = pairs;
  has_working_directory = true;
  can_listen = λ address. true;
  loads_tls = λ cert key. true;
  has_config = true;
  makes_manager = λ metrics. true;
  adds_cluster_scheme = true;
  adds_link_config_scheme = true;
  sets_up_release_controller = true;
  sets_up_link_config_controller = true;
  sets_up_webhook = true;
}

abbrev running : Running
running = record {
  service = some (
      manager_serve_from info service_flags
        (manager_watched (manager_choose_provider environment "discovery_state.json"))
        (some ("ca.crt", "ca.key")));
  image_factory_host = "factory.talos.dev";
  validates_node_pools = true;
}

runs : dockyards_talos_command environment "info" flags ≡ ok running
unfolding dockyards_talos_command discovery_part manager_load_tls webhook_part manager_level_of
    string_eq
runs = refl

dockyards_talos_command-discovery_service_example :
    (◌≡◌ {A = Bool} true false) × (running.service ≡ none)
    ⊎ (◌≡◌ {A = Bool} true true)
      × ((s : Service) × (running.service ≡ some s)
          × (discovery_service environment "info" service_flags ≡ ok s))
dockyards_talos_command-discovery_service_example =
    dockyards_talos_command-discovery_service environment "info" flags running runs
