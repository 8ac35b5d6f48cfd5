-- ===== src/Tests/Nodes.antt =====
-- Applications of the theorems on EnsureRoutes (internal/routes/talos_injector.go), and on the
-- controller that calls it.
use dockyards_talos.Tests.Data.{texts}
use dockyards_talos.Tests.Machines.{config, route, early_round, machinery}
use dockyards_talos.Base.{
  List, String, ◌*◌, inl, inr, string_eq, ◌≡◌, refl, none, some, [], ◌∷◌, true, false, Option, ◌==◌,
  if◌then◌else◌, arith, Bool-cases,
}
use dockyards_talos.Base.GoMap.{lookup, insert}
use dockyards_talos.Base.Range.{stored, stored-IsVisit}
use dockyards_talos.Base.Sort.{sort, insert_sorted}
use dockyards_talos.Base.Text.{leb_string, trim_space, trim_left, trim_right}
use dockyards_talos.Base.Time.{pos, second, ◌+ℤ◌}
use dockyards_talos.Base.NameSet.{sorted_names, add_name, add_names}
use dockyards_talos.Routes.Types.{Node, RouteConfig}
use dockyards_talos.Routes.Interfaces.{normalize_managed_interfaces}
use dockyards_talos.Routes.Desired.{
  desired_route_configs_by_interface, seed, add_routes, route_config, destination_of, sort_all,
  sort_route_configs, same_route_configs,
}
use dockyards_talos.Routes.Documents.{
  Machinery, Document, link, other, reconcile_documents, update_link, update_document,
  update_documents, missing_interfaces, if_routes, new_link, write_documents,
  reconcile_managed_link_routes,
}
use dockyards_talos.Routes.Documents.Written.{ReadsBack}
use dockyards_talos.Routes.Applied.{Talos, Round, present, returned, wait_for_routes_applied}
use dockyards_talos.Routes.Applied.Wait.{has_returned}
use dockyards_talos.Routes.Reconcile.{
  Run, apply_machine_config_to, apply_if_changed, apply_and_wait, ensure_managed, ensure_route_set,
  extract_machine_config_body, read_machine_config, ensure_if_managed, ensure_body, ensure_routes,
}
use dockyards_talos.Routes.Reconcile.Faithful.{IsFaithful}
use dockyards_talos.Routes.Reconcile.Again.{ensure_routes-again}
use dockyards_talos.Routes.Reconcile.Shown.{ensure_routes_returns}
use dockyards_talos.LinkConfig.Injected.{Ends}

-- A node that keeps the text that it was given.
abbrev pub keeper : Talos texts
keeper = record {
  normalize = λ spec. (spec, none);
  route_id = λ spec. spec.gateway;
  default_route_metric = 1024;
  World = String;
  is_talos_config = λ s. true;
  endpoint = λ a port. a;
  connects = λ endpoint w. true;
  active_machine_config = λ w. some (record { has_annotations = false; marshalled = some w });
  unmarshal_string = λ s. some s;
  apply_configuration = λ s w. some s;
}

-- Texts that are the name of a link without routes, and one text whose link has a route.
abbrev routes_in : String → List (RouteConfig texts)
routes_in s = if s == "eth0" then config ∷ [] else []

abbrev encode_link : String → List (RouteConfig texts) → Option String
encode_link name [] = if name == "eth0" then none else some name
encode_link name (r ∷ rs) = none

abbrev encode_docs : List (Document texts (Unit {0}) (Unit {0})) → Option String
encode_docs [] = none
encode_docs (other x ∷ docs) = none
encode_docs (link l ∷ []) = encode_link l.meta_name l.link_routes
encode_docs (link l ∷ d ∷ docs) = none

abbrev name_in : String → String
name_in s = if s == "eth0" then "eth1" else s

abbrev writer : Machinery texts
writer = record {
  Settings = Unit;
  Other = Unit;
  parse = λ s.
      some (link (record { meta_name = name_in s; link_routes = routes_in s; settings = tt }) ∷ []);
  accepts = λ docs. true;
  encode = encode_docs;
  new_settings = λ s. tt;
}

encode_link-reads_back :
    (name : String) (routes : List (RouteConfig texts)) (text : String)
    → encode_link name routes ≡ some text
    → (name_in text ≡ name) × (routes_in text ≡ routes)
encode_link-reads_back name [] text h = elim (Bool-cases (name == "eth0")) [
  | inl same ↦ absurd (ground arith)
  | inr differs ↦ let is : text ≡ name = ground arith in (ground arith, ground arith)
]
encode_link-reads_back name (r ∷ rs) text h = absurd (ground arith)

writer-ReadsBack : ReadsBack texts writer
writer-ReadsBack [] text h = absurd (ground arith)
writer-ReadsBack (other x ∷ docs) text h = absurd (ground arith)
writer-ReadsBack (link l ∷ []) text h =
    let (name, routes) = encode_link-reads_back l.meta_name l.link_routes text h in
    rw (name, routes) refl
writer-ReadsBack (link l ∷ d ∷ docs) text h = absurd (ground arith)

unmarshalled :
    (text : String)
    → extract_machine_config_body texts keeper writer
        (record { has_annotations = false; marshalled = some text })
      ≡ some text
unfolding extract_machine_config_body
unmarshalled text = refl

keeper-IsFaithful : IsFaithful texts keeper writer
keeper-IsFaithful = record {
  reads_back = writer-ReadsBack;
  keeps = λ text w w' applied.
      (record { has_annotations = false; marshalled = some text }, ground arith, unmarshalled text);
  stays_connected = λ endpoint text w w' applied. refl;
}

abbrev past_round : Round
past_round = record { status = λ id. present; now = pos (40 * second); is_done = false }

abbrev pub run : Run texts keeper
run = record {
  visit_names = stored;
  visit_table = stored;
  rounds = early_round ∷ past_round ∷ [];
  started = pos 0;
}

abbrev target : Node
target = record { address = "10.0.0.5"; port = 50000; machine_key = "c/n/m" }

-- The routes of the link are removed.
cleaned :
    ensure_routes texts keeper writer run "eth0" target "talos" [] none ("eth1" ∷ [])
    ≡ ("eth1", returned none)
unfolding ensure_routes ensure_body ensure_if_managed ensure_route_set ensure_managed
    read_machine_config extract_machine_config_body apply_and_wait apply_if_changed
    apply_machine_config_to normalize_managed_interfaces desired_route_configs_by_interface seed
    add_routes route_config destination_of sort_all sort_route_configs reconcile_managed_link_routes
    write_documents reconcile_documents update_documents update_document update_link
    same_route_configs missing_interfaces if_routes new_link sorted_names add_names sort
    insert_sorted insert lookup leb_string trim_space trim_left trim_right string_eq
    wait_for_routes_applied add_name
cleaned = refl

ensure_routes-again_example :
    (ensure_routes texts keeper writer run "eth1" target "talos" [] none ("eth1" ∷ [])).0 ≡ "eth1"
ensure_routes-again_example =
    ensure_routes-again texts keeper writer run run "eth0" "eth1" target "talos" [] none
      ("eth1" ∷ []) keeper-IsFaithful stored-IsVisit stored-IsVisit stored-IsVisit stored-IsVisit
      cleaned

pub run-Ends : Ends texts keeper machinery run
unfolding ◌+ℤ◌
run-Ends = refl

ensure_routes_returns_example :
    has_returned
      (ensure_routes texts keeper machinery run "eth0" target "talos" (route ∷ []) none []).1
    ≡ true
ensure_routes_returns_example =
    ensure_routes_returns texts keeper machinery run "eth0" target "talos" (route ∷ []) none []
      run-Ends
