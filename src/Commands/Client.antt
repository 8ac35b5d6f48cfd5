-- ===== src/Commands/Client.antt =====
-- cmd/dummy-discovery-client/main.go: a client of the discovery service.
pub mod Logged
use dockyards_talos.Base.{
  length, ℕ, zero, suc, string_eq, ◌==◌, if◌then◌else◌, String, Bool, true, false, Option, none,
  some, List, [], ◌∷◌, ◌++◌, map,
}
use dockyards_talos.Base.Result.{Result, ok, err, ◌>>=◌, ◌>>◌, guard, or_fail}
use dockyards_talos.Base.Time.{ℤ}
use dockyards_talos.Discovery.Types.{Affiliate}
use dockyards_talos.Discovery.Watch.{WatchReply}
use dockyards_talos.Commands.{Level, debug, info, warn, error}

pub record ClientFlags : Type 0 where
  pub log_level : String
  pub address : String
  pub cluster_id : String
  pub affiliate_id : String
  pub ttl : ℤ

-- The result of one call of `watch.Recv`.
pub data Recv : Type 0 where
  message : WatchReply → Recv
  end_of_stream broken : Recv

-- The calls of the client: those that reach the service may change its state, `World`. `none` and
-- `false` are errors; a watch is the results of `Recv`, in order.
pub record Rpc : Type 1 where
  pub World : Type 0
  pub has_working_directory : Bool
  pub dials : (address : String) → Bool
  pub client_list : (cluster : String) → World → World × Option (List Affiliate)
  pub client_affiliate_update : (cluster affiliate : String) → (ttl : ℤ) → World → World × Bool
  pub client_watch : (cluster : String) → World → World × Option (List Recv)

-- The calls of `logger.Info`.
pub data Line : Type 0 where
  initial_affiliates : ℕ → Line
  is_connected : String → Line
  update_received : ℕ → Line
  affiliate : String → (deleted : Bool) → Line

pub data ClientError : Type 0 where
  unknown_log_level no_working_directory not_dialled : ClientError
  not_listed not_updated not_watching not_received : ClientError

-- `return`, or `os.Exit(1)` after the error is reported.
pub data ClientExit : Type 0 where
  returned : ClientExit
  exited : ClientError → ClientExit

-- The level of newLogger, in this command.
unfoldable pub client_level_of : String → Option Level
client_level_of name =
    if name == "debug"
    then some debug
    else if name == "info"
    then some info
    else if name == "warn"
    then some warn
    else if name == "error"
    then some error
    else none

-- `for _, affiliate := range …`
unfoldable pub connected_lines : List Affiliate → List Line
connected_lines [] = []
connected_lines (a ∷ as') = is_connected a.id ∷ connected_lines as'

unfoldable pub affiliate_lines : Bool → List Affiliate → List Line
affiliate_lines deleted [] = []
affiliate_lines deleted (a ∷ as') = affiliate a.id deleted ∷ affiliate_lines deleted as'

-- The loop of `Recv`; it has no exit yet where the results end.
unfoldable pub recv_loop : List Recv → List Line × Option ClientExit
recv_loop [] = ([], none)
recv_loop (end_of_stream ∷ rest) = ([], some returned)
recv_loop (broken ∷ rest) = ([], some (exited not_received))
recv_loop (message msg ∷ rest) =
    let later = recv_loop rest in
    (
      update_received (length msg.affiliates) ∷ affiliate_lines msg.deleted msg.affiliates
          ++ later.0,
      later.1,
    )

module _ (rpc : Rpc) where
  abbrev pub ClientOutcome : Type 0
  ClientOutcome = rpc.World × List Line × Option ClientExit

  -- What comes before the first call of the service.
  unfoldable pub prepare : ClientFlags → Result ClientError (Unit {0})
  prepare flags = do
    level ← or_fail (client_level_of flags.log_level) unknown_log_level
    guard rpc.has_working_directory no_working_directory
    guard (rpc.dials flags.address) not_dialled

  unfoldable pub after_watch : rpc.World × Option (List Recv) → ClientOutcome
  after_watch (w, none) = (w, [], some (exited not_watching))
  after_watch (w, some results) = let read = recv_loop results in (w, read.0, read.1)

  unfoldable pub after_update : ClientFlags → rpc.World × Bool → ClientOutcome
  after_update flags (w, false) = (w, [], some (exited not_updated))
  after_update flags (w, true) = after_watch (rpc.client_watch flags.cluster_id w)

  unfoldable pub after_list : ClientFlags → rpc.World × Option (List Affiliate) → ClientOutcome
  after_list flags (w, none) = (w, [], some (exited not_listed))
  after_list flags (w, some affiliates) =
      let (w', lines, exit) =
        after_update flags
          (rpc.client_affiliate_update flags.cluster_id flags.affiliate_id flags.ttl w) in
      (w', initial_affiliates (length affiliates) ∷ connected_lines affiliates ++ lines, exit)

  unfoldable pub after_prepare :
      ClientFlags → rpc.World → Result ClientError (Unit {0}) → ClientOutcome
  after_prepare flags w (err e) = (w, [], some (exited e))
  after_prepare flags w (ok u) = after_list flags (rpc.client_list flags.cluster_id w)

  unfoldable pub dummy_discovery_client : ClientFlags → rpc.World → ClientOutcome
  dummy_discovery_client flags w = after_prepare flags w (prepare flags)
