-- ===== src/Tests/Keeper.antt =====
-- A machinery that writes one configuration, for the tests of the controller.
use dockyards_talos.Tests.Data.{texts}
use dockyards_talos.Tests.Machines.{config}
use dockyards_talos.Base.{
  ℕ_discrete, List, String, String_dec, string_eq, ◌==◌, ◌≡◌, refl, ap, none, some, true, [], ◌∷◌,
  Option, if◌then◌else◌, arith,
}
use dockyards_talos.Routes.Types.{RouteConfig}
use dockyards_talos.Routes.Documents.{Machinery, Document, link, other}
use dockyards_talos.Routes.Documents.Written.{ReadsBack}

abbrev pub Written : Type 0
Written = List (Document texts (Unit {0}) String)

pub config_dec : Discrete (RouteConfig texts)
config_dec = hlevel (String_dec, ℕ_discrete)

pub Written_dec : Discrete Written
Written_dec = hlevel (String_dec, ℕ_discrete)

abbrev default_config : RouteConfig texts
default_config = record {
  route_destination = none;
  route_gateway = some "10.0.0.1";
  route_source = none;
  route_metric = 0;
  route_mtu = 0;
  route_table = 0;
}

abbrev link_of : String → List (RouteConfig texts) → Document texts (Unit {0}) String
link_of name routes = link (record { meta_name = name; link_routes = routes; settings = tt })

abbrev pub routed : Written
routed = other "machine" ∷ link_of "eth0" (default_config ∷ []) ∷ link_of "eth1" (config ∷ []) ∷ []

abbrev pub encode_by : {docs : Written} → Dec (docs ≡ routed) → Option String
encode_by (yes same) = some "routed"
encode_by (no differ) = none

unfoldable pub encode_routed : Written → Option String
unfolding Written_dec
encode_routed docs = encode_by (Written_dec docs routed)

-- The text "routed" is the configuration with the routes; every other text has none.
abbrev pub one_config : Machinery texts
one_config = record {
  Settings = Unit;
  Other = String;
  parse = λ s. some (if s == "routed" then routed else other "machine" ∷ []);
  accepts = λ docs. true;
  encode = encode_routed;
  new_settings = λ s. tt;
}

reads_routed :
    (if ◌==◌ {A = String} "routed" "routed" then routed else other "machine" ∷ []) ≡ routed
unfolding string_eq
reads_routed = refl

-- What is encoded is the configuration with the routes.
encode_routed-routed :
    (docs : Written) (d : Dec (docs ≡ routed)) (text : String)
    → encode_by d ≡ some text
    → (docs ≡ routed) × (text ≡ "routed")
encode_routed-routed docs (yes same) text h = (same, ground arith)
encode_routed-routed docs (no differ) text h = absurd (ground arith)

pub one_config-ReadsBack : ReadsBack texts one_config
unfolding encode_routed
one_config-ReadsBack docs text h =
    let (same, is) = encode_routed-routed docs (Written_dec docs routed) text h in
    rw (is, same) (ap some reads_routed)

encoded_yes : (d : Dec (routed ≡ routed)) → encode_by d ≡ some "routed"
encoded_yes (yes same) = refl
encoded_yes (no differ) = absurd (differ refl)

pub encoded : encode_routed routed ≡ some "routed"
unfolding encode_routed
encoded = encoded_yes (Written_dec routed routed)
