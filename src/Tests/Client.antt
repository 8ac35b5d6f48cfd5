-- ===== src/Tests/Client.antt =====
-- Applications of the theorem on the client (cmd/dummy-discovery-client/main.go).
use dockyards_talos.Base.{
  String, ◌*◌, string_eq, ◌≡◌, refl, Bool, true, false, Option, none, some, List, [], ◌∷◌, ◌++◌,
}
use dockyards_talos.Base.Result.{ok}
use dockyards_talos.Base.Time.{pos, second}
use dockyards_talos.Discovery.Types.{Affiliate, WatchResponse}
use dockyards_talos.Discovery.Watch.{WatchReply, Exit, returned, failed, watch_loop}
use dockyards_talos.Commands.Client.{
  client_level_of, ClientFlags, Recv, message, end_of_stream, broken, Rpc, Line, initial_affiliates,
  is_connected, connected_lines, prepare, dummy_discovery_client,
}
use dockyards_talos.Commands.Client
use dockyards_talos.Commands.Client.Logged.{
  IsTransport, all_owed, events, dummy_discovery_client-watch_loop,
}

-- A handler's error is a text.
abbrev deliver_all : List WatchReply → Option (Exit String) → List Recv
deliver_all [] none = []
deliver_all [] (some returned) = end_of_stream ∷ []
deliver_all [] (some (failed e)) = broken ∷ []
deliver_all (r ∷ rs) x = message r ∷ deliver_all rs x

abbrev deliver : List WatchReply × Option (Exit String) → List Recv
deliver sent = deliver_all sent.0 sent.1

deliver-IsTransport : IsTransport deliver
deliver-IsTransport = record { delivers = λ r rs x. refl; ends = refl; breaks = λ e. refl }

abbrev node_a : Affiliate
node_a = record { id = "a"; contents = none; endpoints = [] }

abbrev message_of : String → Bool → WatchResponse
message_of cluster deleted = record {
  cluster_affiliates =
      record { cluster_id = cluster; affiliate = some node_a; remove_after = pos 0 } ∷ [];
  deleted = deleted;
}

abbrev broadcasts : List WatchResponse
broadcasts = message_of "c" false ∷ message_of "d" false ∷ message_of "c" true ∷ []

abbrev always_sends : WatchReply → Option String
always_sends r = none

-- A service with one affiliate, on which the world counts nothing.
abbrev service : Rpc
service = record {
  World = Unit;
  has_working_directory = true;
  dials = λ address. true;
  client_list = λ cluster w. (w, some (node_a ∷ []));
  client_affiliate_update = λ cluster affiliate ttl w. (w, true);
  client_watch =
      λ cluster w. (w, some (deliver (watch_loop always_sends cluster (events broadcasts))));
}

abbrev flags : ClientFlags
flags = record {
  log_level = "info";
  address = "localhost:3000";
  cluster_id = "c";
  affiliate_id = "a";
  ttl = pos (10 * second);
}

prepared : prepare service flags ≡ ok tt
unfolding prepare client_level_of string_eq
prepared = refl

dummy_discovery_client-watch_loop_example : dummy_discovery_client service flags tt ≡ (
  tt,
  initial_affiliates 1 ∷ is_connected "a" ∷ [] ++ all_owed "c" broadcasts,
  some Client.returned,
)
unfolding connected_lines
dummy_discovery_client-watch_loop_example =
    dummy_discovery_client-watch_loop deliver always_sends service flags tt tt tt tt (node_a ∷ [])
      broadcasts deliver-IsTransport (λ r. refl) prepared refl refl refl
