-- ===== src/Source/Types.antt =====
-- The values that cross the boundary between internal/source and its output (projection.go).
-- Kinds and record types are Go strings there, and texts here.
use labdns.Base.{Text, List, Map, ℤ, codes, ◌++◌}

pub record Identity : Type 0 where
  pub api_version : Text
  pub kind : Text
  pub namespace : Text
  pub name : Text
  pub uid : Text

pub record Backend : Type 0 where
  pub namespace : Text
  pub name : Text

abbrev pub backend_key : Backend → Text
backend_key b = b.namespace ++ codes "/" ++ b.name

pub record HostProjection : Type 0 where
  pub hostname : Text
  pub backends : List Backend

pub record Property : Type 0 where
  pub name : Text
  pub value : Text

pub record Record : Type 0 where
  pub dns_name : Text
  pub record_type : Text
  pub targets : List Text
  pub ttl : ℤ
  pub provider_specific : List Property

-- The delay is a time.Duration, in nanoseconds.
pub record Publication : Type 0 where
  pub provider_name : Text
  pub records : List Record
  pub metadata_annotations : Map Text Text
  pub deletion_delay : ℤ

abbrev pub ingress_kind : Text
ingress_kind = codes "Ingress"

abbrev pub http_route_kind : Text
http_route_kind = codes "HTTPRoute"

abbrev pub tcp_route_kind : Text
tcp_route_kind = codes "TCPRoute"

abbrev pub udp_route_kind : Text
udp_route_kind = codes "UDPRoute"

abbrev pub record_type_a : Text
record_type_a = codes "A"

abbrev pub record_type_aaaa : Text
record_type_aaaa = codes "AAAA"

-- annotations.go
abbrev pub annotation_prefix : Text
annotation_prefix = codes "labdns.shednet.dev/"

abbrev pub external_dns_prefix : Text
external_dns_prefix = codes "external-dns.alpha.kubernetes.io/"
