-- ===== src/Cli/Model.antt =====
-- internal/cli/model.go: what the command line shows. An absent list, which JSON leaves out, is `none`
-- where the code tells it from an empty one.
use labdns.Base.{ℕ, Bool, Option, List, Text, Map, ℤ, codes}

abbrev pub state_current : Text
state_current = codes "current"

abbrev pub state_missing : Text
state_missing = codes "missing"

abbrev pub state_observed : Text
state_observed = codes "observed"

abbrev pub state_stale : Text
state_stale = codes "stale"

abbrev pub state_invalid : Text
state_invalid = codes "invalid"

abbrev pub state_unsupported : Text
state_unsupported = codes "unsupported"

abbrev pub state_nxdomain : Text
state_nxdomain = codes "nxdomain"

abbrev pub state_match : Text
state_match = codes "match"

abbrev pub state_mismatch : Text
state_mismatch = codes "mismatch"

pub record SourceRef : Type 0 where
  pub kind : Text
  pub namespace : Text
  pub name : Text
  pub uid : Text

pub record ObjectRef : Type 0 where
  pub namespace : Text
  pub name : Text

pub record RetiringTarget : Type 0 where
  pub target : Text
  pub deadline : ℕ

pub record PublishedRecord : Type 0 where
  pub dns_name : Text
  pub record_type : Text
  pub targets : List Text
  pub active_targets : Option (List Text)
  pub ttl : ℤ
  pub provider : Text
  pub source : SourceRef
  pub dns_endpoint : ObjectRef
  pub generation : ℤ
  pub observed : ℤ
  pub external_dns_state : Text
  pub retiring : List RetiringTarget
  pub properties : Map Text (List Text)
  pub lifecycle_error : Text

pub record ProviderDetail : Type 0 where
  pub found : Bool
  pub zones : List Text
  pub ipv4_label : Text
  pub ipv6_label : Text
  pub default_ttl : ℤ

pub record SourceDetail : Type 0 where
  pub found : Bool
  pub uid_matches : Bool

pub record DnsLookup : Type 0 where
  pub server : Text
  pub answers : List Text
  pub state : Text
  pub error : Text

pub record RecordDetail : Type 0 where
  pub shown : PublishedRecord
  pub provider : ProviderDetail
  pub source : SourceDetail
  pub dns : Option DnsLookup

pub record RecordDetails : Type 0 where
  pub query : Text
  pub items : List RecordDetail

pub record Prerequisite : Type 0 where
  pub name : Text
  pub available : Bool
  pub error : Text

pub record ControllerStatus : Type 0 where
  pub namespace : Text
  pub name : Text
  pub desired : ℤ
  pub available : ℤ
  pub ready_pods : ℕ
  pub gateway_api : Bool

pub record StateSummary : Type 0 where
  pub providers : ℕ
  pub publishing_sources : ℕ
  pub dns_endpoints : ℕ
  pub records : ℕ
  pub pending_targets : ℕ
  pub observed : ℕ
  pub stale : ℕ
  pub invalid : ℕ

pub record Status : Type 0 where
  pub overall : Text
  pub prerequisites : List Prerequisite
  pub controllers : List ControllerStatus
  pub summary : StateSummary
  pub warnings : List Text
