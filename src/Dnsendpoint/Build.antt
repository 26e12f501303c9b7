-- ===== src/Dnsendpoint/Build.antt =====
-- internal/dnsendpoint/writer.go, `build`: the next state of one DNSEndpoint.
pub mod Settle
pub mod Status
pub mod Targets
pub mod Refines
use labdns.Base.{
  ℕ, Bool, true, false, not, Option, none, some, List, [], ◌∷◌, ◌++◌, map, Text, Map, ℤ, pos,
  add_duration, codes, lookup, insert, delete, retain, copy_into, contains, values, text_ord,
  list_eq, nat_eq, pair_eq, ltb, is_empty, is_some, has_prefix, if◌then◌else◌,
}
use labdns.Base.Results.{Result, ok, err, ◌>>=◌}
use labdns.Source.Types.{Identity, Publication, external_dns_prefix}
use labdns.Platform.{Platform, PendingTarget, Lifecycle}
use labdns.Dnsendpoint.Lifecycle.{
  TargetKey, pending_key, parse_lifecycle, marshal_lifecycle, lifecycle_version, deadline,
}
use labdns.Dnsendpoint.Endpoints.{
  Endpoint, normalize_endpoints, normalize_records, endpoint_targets, combine_records,
}
use labdns.Dnsendpoint.Naming.{source_key, object_name}
use labdns.Dnsendpoint.Object.{
  Object, InvalidState, absent_pending_target, value_at, stored_delay, or_invalid,
  without_source_owner, managed_by_label, managed_by_value, provider_label, source_key_label,
  source_kind_annotation, source_namespace_annotation, source_name_annotation,
  source_uid_annotation, deletion_delay_annotation, lifecycle_annotation,
}

abbrev pub Pending : Type 0
Pending = Map TargetKey PendingTarget

-- Every pending target has to be in the current spec.
unfoldable pub load_pending :
    List TargetKey → Pending → List PendingTarget → Result InvalidState Pending
load_pending current pending [] = ok pending
load_pending current pending (item ∷ items) =
    let rest = load_pending current (insert (pending_key item) item pending) items in
    if contains current (pending_key item) then rest else err absent_pending_target

abbrev pub unless_empty : List Endpoint → Object → Option Object
unless_empty [] object = none
unless_empty (r ∷ rs) object = some object

module _ (p : Platform) where
  -- The state and the delay that the object stores; those of a new object are the publication's.
  unfoldable pub load_state :
      Publication → Option Object → Result InvalidState (List PendingTarget × ℤ)
  load_state publication none = ok ([], publication.deletion_delay)
  load_state publication (some current) = do
    state ← or_invalid (parse_lifecycle p (value_at lifecycle_annotation current.annotations))
    delay ← stored_delay p current
    ok (state.pending, delay)

  abbrev pub new_pending : ℕ → ℤ → TargetKey → PendingTarget
  new_pending now delay (dns_name, (record_type, target)) = record {
    dns_name = dns_name;
    record_type = record_type;
    target = target;
    deadline = p.format_time (add_duration now delay);
  }

  -- One round of the loop over the current targets: an active one is pending no more, any other
  -- one is.
  unfoldable pub retire_one : ℕ → ℤ → List TargetKey → TargetKey → Pending → Pending
  retire_one now delay desired key pending =
      if contains desired key
      then delete key pending
      else if is_some (lookup key pending)
      then pending
      else insert key (new_pending now delay key) pending

  unfoldable pub retire : ℕ → ℤ → List TargetKey → List TargetKey → Pending → Pending
  retire now delay desired [] pending = pending
  retire now delay desired (key ∷ keys) pending =
      retire now delay desired keys (retire_one now delay desired key pending)

  unfoldable pub delete_all : List TargetKey → Pending → Pending
  delete_all [] pending = pending
  delete_all (key ∷ keys) pending = delete_all keys (delete key pending)

  abbrev pub awaits : ℕ → PendingTarget → Bool
  awaits now item = ltb now (deadline p item)

  unfoldable pub settle : ℕ → ℤ → List TargetKey → List TargetKey → Pending → Pending
  unfolding retire delete_all deadline
  settle now delay desired current pending =
      retain (λ key item. awaits now item)
        (delete_all desired (retire now delay desired current pending))

  unfoldable pub current_records : Option Object → List Endpoint
  current_records none = []
  current_records (some current) = normalize_endpoints current.endpoints

  abbrev pub labels_of : Identity → Text → Map Text Text → Map Text Text
  labels_of identity provider labels =
      insert source_key_label (source_key p identity)
        (insert provider_label provider (insert managed_by_label managed_by_value labels))

  -- With desired records the publication's annotations take the place of the old ones of
  -- ExternalDNS, and its delay is stored.
  abbrev pub publish_annotations : Bool → Publication → Map Text Text → Map Text Text
  publish_annotations publishes publication annotations =
      if publishes
      then copy_into (retain (λ key value. not (has_prefix key external_dns_prefix)) annotations)
          publication.metadata_annotations
      else annotations

  abbrev pub uid_annotation : Identity → Map Text Text → Map Text Text
  uid_annotation identity annotations =
      if is_empty identity.uid
      then annotations
      else insert source_uid_annotation identity.uid annotations

  abbrev pub identity_annotations : Identity → Map Text Text → Map Text Text
  identity_annotations identity annotations = uid_annotation identity (
      insert source_name_annotation identity.name (
        insert source_namespace_annotation identity.namespace
          (insert source_kind_annotation identity.kind annotations)))

  abbrev pub delay_annotation : Bool → Publication → Map Text Text → Map Text Text
  delay_annotation publishes publication annotations =
      if publishes
      then insert deletion_delay_annotation (p.format_duration publication.deletion_delay)
          annotations
      else annotations

  unfoldable pub annotations_of :
      Identity → Publication → Bool → Text → Map Text Text → Map Text Text
  annotations_of identity publication publishes lifecycle annotations =
      insert lifecycle_annotation lifecycle (
        delay_annotation publishes publication
          (identity_annotations identity (publish_annotations publishes publication annotations)))

  abbrev pub blank_object : Identity → Text → Object
  blank_object identity provider = record {
    api_version = codes "externaldns.k8s.io/v1alpha1";
    kind = codes "DNSEndpoint";
    namespace = identity.namespace;
    name = object_name p identity provider;
    resource_version = [];
    labels = [];
    annotations = [];
    owner_references = [];
    endpoints = [];
    status = 0;
  }

  abbrev pub start_from : Identity → Text → Option Object → Object
  start_from identity provider none = blank_object identity provider
  start_from identity provider (some current) = current

  -- `marshalLifecycle` of the pending targets.
  abbrev pub lifecycle_of : Pending → Text
  lifecycle_of pending =
      marshal_lifecycle p (record { version = pos lifecycle_version; pending = values pending })

  -- The object that is written for the combined records.
  unfoldable pub assemble :
      Identity → Text → Publication → Option Object → Bool → Pending → List Endpoint → Object
  unfolding annotations_of
  assemble identity provider publication current publishes pending combined =
      let base = start_from identity provider current in
      record base {
        labels = labels_of identity provider base.labels;
        annotations =
            annotations_of identity publication publishes (lifecycle_of pending) base.annotations;
        owner_references = without_source_owner base.owner_references identity;
        endpoints = map some combined;
      }

  -- `none` is the nil object: nothing is left to publish.
  unfoldable pub build :
      Identity → Text → Publication → Option Object → ℕ → Result InvalidState (Option Object)
  unfolding load_state load_pending settle assemble current_records
  build identity provider publication current now = do
    (items, delay) ← load_state publication current
    let desired = normalize_records publication.records
    let active = endpoint_targets desired
    let records = current_records current
    let present = endpoint_targets records
    loaded ← load_pending present [] items
    let pending = settle now delay active present loaded
    let combined = combine_records desired records pending
    ok (
        unless_empty combined (
          assemble identity provider publication current (not (is_empty desired)) pending combined))
