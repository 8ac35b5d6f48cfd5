-- ===== src/Discovery/Types.antt =====
-- cluster_discovery_server.go: the types of the server's state and messages.
use dockyards_talos.Base.{String, Option, none, List, [], Bool, Bytes, Eq, String_dec, string_eq}
use dockyards_talos.Base.GoMap.{GoMap}
use dockyards_talos.Base.Time.{ℤ, pos}

pub record ClusterAffiliateId : Type 0 where
  pub cluster_id : String
  pub affiliate_id : String

pub ClusterAffiliateId_dec : Discrete ClusterAffiliateId
ClusterAffiliateId_dec = hlevel String_dec

instance unfoldable pub id_eq : Eq ClusterAffiliateId
unfolding ClusterAffiliateId_dec
id_eq = record { dec = ClusterAffiliateId_dec }

-- The message of the discovery API. A `nil` slice of data is told from an empty one.
pub record Affiliate : Type 0 where
  pub id : String
  pub contents : Option Bytes
  pub endpoints : List Bytes

pub record ClusterAffiliate : Type 0 where
  pub affiliate : Option Affiliate
  pub cluster_id : String
  pub remove_after : ℤ

-- The getters of the API on a `nil` message.
abbrev pub get_id : Option Affiliate → String
get_id none = ""
get_id (Option.some a) = a.id

abbrev pub get_data : Option Affiliate → Option Bytes
get_data none = none
get_data (Option.some a) = a.contents

abbrev pub get_endpoints : Option Affiliate → List Bytes
get_endpoints none = []
get_endpoints (Option.some a) = a.endpoints

abbrev pub zero_affiliate : ClusterAffiliate
zero_affiliate = record { affiliate = none; cluster_id = ""; remove_after = pos 0 }

pub record WatchResponse : Type 0 where
  pub cluster_affiliates : List ClusterAffiliate
  pub deleted : Bool

abbrev pub Affiliates : Type 0
Affiliates = GoMap ClusterAffiliateId ClusterAffiliate
