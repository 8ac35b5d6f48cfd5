-- ===== src/LinkConfig/Types.antt =====
-- api/v1alpha3/linkconfig_types.go, and the parts of the cluster's objects that the controller
-- reads.
use dockyards_talos.Base.{
  ℕ, String, string_eq, Option, none, some, List, [], Bool, ◌==◌, if◌then◌else◌,
}
use dockyards_talos.Base.GoMap.{GoMap, lookup, insert}
use dockyards_talos.Routes.Types.{Route}

pub record LinkConfigRoute : Type 0 where
  pub network : String
  pub interface : String
  pub gateway : String
  pub metric : ℕ

pub record LinkConfigDefaultRoute : Type 0 where
  pub interface : String
  pub gateway : String
  pub metric : ℕ

pub record LinkConfigSpec : Type 0 where
  pub static_routes : List LinkConfigRoute
  pub default_route : Option LinkConfigDefaultRoute

pub record LinkConfig : Type 0 where
  pub name : String
  pub namespace : String
  pub generation : ℕ
  pub spec : LinkConfigSpec

pub data AddressType : Type 0 where
  internal_ip external_ip other_type : AddressType

pub record MachineAddress : Type 0 where
  pub address_type : AddressType
  pub address : String

abbrev pub Annotations : Type 0
Annotations = Option (GoMap String String)

pub record Machine : Type 0 where
  pub name : String
  pub namespace : String
  pub is_being_deleted : Bool
  pub annotations : Annotations
  pub cluster_name : String
  pub infrastructure_name : String
  pub addresses : List MachineAddress

pub record Pod : Type 0 where
  pub annotations : Annotations

-- `m[key]` on annotations: the empty text, if the map is `nil` or has no such key.
abbrev pub or_blank : Option String → String
or_blank none = ""
or_blank (some v) = v

abbrev pub read : String → Annotations → String
read key none = ""
read key (some m) = or_blank (lookup key m)

-- `m[key] = value`, on a map that is made if it is `nil`.
abbrev pub entries : Annotations → GoMap String String
entries none = []
entries (some m) = m

abbrev pub write : String → String → Annotations → Annotations
write key value m = some (insert key value (entries m))

abbrev pub link_config_key : String
link_config_key = "dockyards.io/link-config"

abbrev pub link_config_state_key : String
link_config_state_key = "dockyards.io/link-config-state"

-- The name of the machine's LinkConfig: that of the annotation, unless it is missing or empty.
unfoldable pub link_config_name : Machine → String
link_config_name machine =
    let v = read link_config_key machine.annotations in if v == "" then "default" else v

-- machineLinkConfigStateAnnotation
pub record LinkConfigState : Type 0 where
  pub link_config_name : String
  pub link_config_generation : ℕ
  pub static_routes : List Route
  pub default_route : Option Route
