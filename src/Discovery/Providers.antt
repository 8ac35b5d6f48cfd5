-- ===== src/Discovery/Providers.antt =====
-- state_provider.go, discard_state_provider.go and json_file_state_provider.go: the state providers.
pub mod Failures
pub mod Laws
pub mod Recovery
use dockyards_talos.Base.{String, Bool, true, false, Option, none, some, List, [], ◌∷◌}
use dockyards_talos.Discovery.Types.{ClusterAffiliate}

-- The interface StateProvider. `State` is what the provider keeps outside the program.
pub record StateProvider : Type 1 where
  pub State : Type 0
  pub load : State → State × List ClusterAffiliate
  pub save : List ClusterAffiliate → State → State

-- A SaveStateFunc, with what it leaves behind.
pub record Watch : Type 1 where
  pub Trace : Type 0
  pub saw : List ClusterAffiliate → Trace → Trace

-- AddWatch, and the Save of WatchStateProvider.
unfoldable pub add_watch : StateProvider → Option Watch → StateProvider
add_watch p none = p
add_watch p (some watch) = record {
  State = p.State × watch.Trace;
  load = λ (s, t). let (s', l) = p.load s in ((s', t), l);
  save = λ l (s, t). (p.save l s, watch.saw l t);
}

-- DiscardStateProvider
unfoldable pub discard : StateProvider
discard = record { State = Unit; load = λ s. (s, []); save = λ l s. s }

-- What `os.ReadFile` finds at the path: `os.IsNotExist`, another error, or the content.
pub data Reading : Type 0 where
  missing unreadable : Reading
  content : String → Reading

-- The package os at the provider's path. An operation gives the state after it, and whether it
-- succeeded; `write` and `sync` go to the file that `create` opened.
pub record Files : Type 1 where
  pub State : Type 0
  pub read_file : State → Reading
  pub write_file : String → State → State × Bool
  pub create : State → State × Bool
  pub write : String → State → State × Bool
  pub sync : State → State × Bool

-- The package encoding/json on slices of affiliates.
pub record Json : Type 0 where
  pub encode : List ClusterAffiliate → Option String
  pub decode : String → Option (List ClusterAffiliate)

abbrev pub or_nil {ℓ} : {A : Type ℓ} → Option (List A) → List A
or_nil none = []
or_nil (some l) = l

module _ (files : Files) where
  -- What follows the creation of the file, and the write to it.
  unfoldable pub after_write : files.State × Bool → files.State
  after_write (w, false) = w
  after_write (w, true) = (files.sync w).0

  unfoldable pub after_create : String → files.State × Bool → files.State
  after_create text (w, false) = w
  after_create text (w, true) = after_write (files.write text w)

module _ (files : Files) (json : Json) where
  -- Once the file is read.
  unfoldable pub load_reading : Reading → files.State → files.State × List ClusterAffiliate
  load_reading missing w = ((files.write_file "[]" w).0, [])
  load_reading unreadable w = (w, [])
  load_reading (content text) w = (w, or_nil (json.decode text))

  unfoldable pub load_json : files.State → files.State × List ClusterAffiliate
  load_json w = load_reading (files.read_file w) w

  unfoldable pub save_encoded : Option String → files.State → files.State
  save_encoded none w = w
  save_encoded (some text) w = after_create files text (files.create w)

  unfoldable pub save_json : List ClusterAffiliate → files.State → files.State
  save_json l w = save_encoded (json.encode l) w

  unfoldable pub json_file : StateProvider
  json_file = record { State = files.State; load = load_json; save = save_json }
