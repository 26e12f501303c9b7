-- ===== src/Dnsendpoint/Object.antt =====
-- The DNSEndpoint object of external-dns, as far as the writer reads and writes it, and the labels
-- and annotations of internal/dnsendpoint/writer.go. An absent map is an empty one; the other
-- metadata of an object is copied and never read.
use labdns.Base.{
  int_beq, ℕ, Bool, ◌&&◌, not, Option, none, some, List, [], ◌∷◌, ◌++◌, Text, Map, ℤ, is_negative,
  codes, lookup, get_or, text_ord, ◌==◌, list_eq, nat_eq, true, false, if◌then◌else◌, map_equal,
  is_empty, keep,
}
use labdns.Base.Results.{Result, ok, err}
use labdns.Source.Types.{Identity, Property, annotation_prefix}
use labdns.Platform.{Platform}
use labdns.Dnsendpoint.Lifecycle.{LifecycleError}
use labdns.Dnsendpoint.Endpoints.{Endpoint, normalize_endpoints}

pub record OwnerReference : Type 0 where
  pub api_version : Text
  pub kind : Text
  pub name : Text

pub record Object : Type 0 where
  pub api_version : Text
  pub kind : Text
  pub namespace : Text
  pub name : Text
  pub resource_version : Text
  pub labels : Map Text Text
  pub annotations : Map Text Text
  pub owner_references : List OwnerReference
  pub endpoints : List (Option Endpoint)
  pub status : ℕ

abbrev pub managed_by_label : Text
managed_by_label = codes "app.kubernetes.io/managed-by"

abbrev pub managed_by_value : Text
managed_by_value = codes "labdns"

abbrev pub provider_label : Text
provider_label = annotation_prefix ++ codes "provider"

abbrev pub source_key_label : Text
source_key_label = annotation_prefix ++ codes "source-key"

abbrev pub source_kind_annotation : Text
source_kind_annotation = annotation_prefix ++ codes "source-kind"

abbrev pub source_namespace_annotation : Text
source_namespace_annotation = annotation_prefix ++ codes "source-namespace"

abbrev pub source_name_annotation : Text
source_name_annotation = annotation_prefix ++ codes "source-name"

abbrev pub source_uid_annotation : Text
source_uid_annotation = annotation_prefix ++ codes "source-uid"

abbrev pub deletion_delay_annotation : Text
deletion_delay_annotation = annotation_prefix ++ codes "deletion-delay"

abbrev pub lifecycle_annotation : Text
lifecycle_annotation = annotation_prefix ++ codes "lifecycle"

-- `m[key]` of a Go map of strings: the empty string where the key is missing.
abbrev pub value_at : Text → Map Text Text → Text
value_at key m = get_or (lookup key m) []

-- The errors that the code wraps in `invalidStateError`.
pub data InvalidState : Type 0 where
  invalid_lifecycle : LifecycleError → InvalidState
  absent_pending_target invalid_delay inconsistent_identity : InvalidState
  duplicate_provider foreign_object : InvalidState

-- The stored delay, which has to be there and not negative.
unfoldable pub stored_delay : Platform → Object → Result InvalidState ℤ
stored_delay p object =
    let value = value_at deletion_delay_annotation object.annotations in
    if is_empty value then err invalid_delay else elim (p.parse_duration value) [
      | none ↦ err invalid_delay
      | some delay ↦ if is_negative delay then err invalid_delay else ok delay
    ]

abbrev pub or_invalid {ℓ} : {A : Type ℓ} → Result LifecycleError A → Result InvalidState A
or_invalid (ok a) = ok a
or_invalid (err e) = err (invalid_lifecycle e)

abbrev property_beq : Property → Property → Bool
property_beq a b = (a.name == b.name) && (a.value == b.value)

abbrev properties_beq : List Property → List Property → Bool
properties_beq [] [] = true
properties_beq (a ∷ as_) (b ∷ bs) = property_beq a b && properties_beq as_ bs
properties_beq _ _ = false

abbrev endpoint_beq : Endpoint → Endpoint → Bool
endpoint_beq a b =
    (a.dns_name == b.dns_name)
    && (a.targets == b.targets)
    && (a.record_type == b.record_type)
    && (a.set_identifier == b.set_identifier)
    && int_beq a.record_ttl b.record_ttl
    && map_equal a.labels b.labels
    && properties_beq a.provider_specific b.provider_specific

abbrev endpoints_beq : List Endpoint → List Endpoint → Bool
endpoints_beq [] [] = true
endpoints_beq (a ∷ as_) (b ∷ bs) = endpoint_beq a b && endpoints_beq as_ bs
endpoints_beq _ _ = false

abbrev owner_beq : OwnerReference → OwnerReference → Bool
owner_beq a b = (a.api_version == b.api_version) && (a.kind == b.kind) && (a.name == b.name)

abbrev owners_beq : List OwnerReference → List OwnerReference → Bool
owners_beq [] [] = true
owners_beq (a ∷ as_) (b ∷ bs) = owner_beq a b && owners_beq as_ bs
owners_beq _ _ = false

-- Whether an update would change nothing that the writer owns.
unfoldable pub equivalent : Object → Object → Bool
unfolding normalize_endpoints map_equal
equivalent current desired =
    endpoints_beq (normalize_endpoints current.endpoints) (normalize_endpoints desired.endpoints)
    && map_equal current.labels desired.labels
    && map_equal current.annotations desired.annotations
    && owners_beq current.owner_references desired.owner_references

abbrev is_source_owner : Identity → OwnerReference → Bool
is_source_owner identity r =
    (r.api_version == identity.api_version)
    && (r.kind == identity.kind)
    && (r.name == identity.name)

unfoldable pub without_source_owner : List OwnerReference → Identity → List OwnerReference
without_source_owner references identity = keep (λ r. not (is_source_owner identity r)) references
