-- ===== src/Discovery/Options.antt =====
-- cluster_discovery_server.go: the options of NewClusterDiscoveryServer, which are functions.
use dockyards_talos.Base.{Bool, true, false, Option, none, some, List, [], ◌∷◌}
use dockyards_talos.Base.Time.{ℤ, pos}
use dockyards_talos.Discovery.Types.{ClusterAffiliate}
use dockyards_talos.Discovery.Watchers.{Server}
use dockyards_talos.Discovery.Lifecycle.{new_server}
use dockyards_talos.Discovery.Providers.{StateProvider}

-- A provider with what it keeps.
pub record Stored : Type 1 where
  pub provider : StateProvider
  pub state : provider.State

-- ClusterDiscoveryServerOptions; of the logger only whether there is one.
pub record ServerOptions : Type 1 where
  pub has_logger : Bool
  pub state_provider : Option Stored
  pub interval : ℤ

abbrev pub no_options : ServerOptions
no_options = record { has_logger = false; state_provider = none; interval = pos 0 }

abbrev pub ServerOption : Type 1
ServerOption = ServerOptions → ServerOptions

unfoldable pub cluster_discovery_server_logger : ServerOption
cluster_discovery_server_logger options = record options { has_logger = true }

unfoldable pub cluster_discovery_server_state_provider : Stored → ServerOption
cluster_discovery_server_state_provider s options = record options { state_provider = some s }

unfoldable pub cluster_discovery_server_garbage_collection_interval : ℤ → ServerOption
cluster_discovery_server_garbage_collection_interval d options = record options { interval = d }

-- `for _, option := range options { option(&opts) }`
unfoldable pub apply_options : List ServerOption → ServerOptions → ServerOptions
apply_options [] opts = opts
apply_options (option ∷ rest) opts = apply_options rest (option opts)

-- `if opts.StateProvider != nil { clusterAffiliates = opts.StateProvider.Load() … }`
abbrev pub after_load : Stored → Stored
after_load s = record { provider = s.provider; state = (s.provider.load s.state).0 }

unfoldable pub load_provider : Option Stored → Option Stored × Option (List ClusterAffiliate)
load_provider none = (none, none)
load_provider (some s) = (some (after_load s), some (s.provider.load s.state).1)

-- The provider after the call, and the server.
unfoldable pub new_cluster_discovery_server : List ServerOption → Option Stored × Server
new_cluster_discovery_server options =
    let opts = apply_options options no_options in
    let (provider, loaded) = load_provider opts.state_provider in
    (provider, new_server (record { loaded = loaded; garbage_collection_interval = opts.interval }))
