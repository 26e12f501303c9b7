-- ===== src/Dnsendpoint/Writer.antt =====
-- internal/dnsendpoint/writer.go, `Apply` and `applyOne`: the objects of all providers of a source.
pub mod Laws
use labdns.Base.{
  ℕ, Bool, true, ◌&&◌, ◌||◌, not, none, some, List, [], ◌∷◌, ◌++◌, Text, Map, lookup, insert, keys,
  contains, keep, is_empty, is_negative, is_some, if◌then◌else◌, ◌==◌, list_eq, nat_eq, pair_eq,
  sort_texts, text_ord, pos, get_or,
}
use labdns.Base.Results.{Result, ok, err, ◌>>=◌, ◌>>◌, guard}
use labdns.Source.Types.{Identity, Publication}
use labdns.Platform.{Platform, PendingTarget}
use labdns.Dnsendpoint.Lifecycle.{TargetKey, pending_key, parse_lifecycle}
use labdns.Dnsendpoint.Endpoints.{normalize_endpoints, endpoint_targets}
use labdns.Dnsendpoint.Naming.{source_key, object_name}
use labdns.Dnsendpoint.Object.{
  Object, InvalidState, absent_pending_target, inconsistent_identity, duplicate_provider,
  foreign_object, value_at, stored_delay, or_invalid, equivalent, managed_by_label,
  managed_by_value, provider_label, source_key_label, lifecycle_annotation,
}
use labdns.Dnsendpoint.Build.{build}

-- The answers of the API server that the code tells apart.
pub data ApiError : Type 0 where
  not_found already_exists conflict : ApiError
  other : ℕ → ApiError

-- `nil_object` is the call of `Create` with the nil object that `build` returned.
pub data WriteError : Type 0 where
  invalid_state : InvalidState → WriteError
  api : ApiError → WriteError
  duplicate_publication invalid_publication nil_object : WriteError

-- What one attempt does, once the current object has been read.
pub data Action : Type 0 where
  nothing : Action
  create delete update : Object → Action
  fail : WriteError → Action

-- Each pending target is among the targets of the spec.
abbrev pub all_present : List TargetKey → List PendingTarget → Bool
all_present present [] = true
all_present present (item ∷ items) =
    contains present (pending_key item) && all_present present items

module _ (p : Platform) where
  abbrev pub is_owned : Identity → Text → Object → Bool
  is_owned identity provider o =
      (value_at managed_by_label o.labels == managed_by_value)
      && (value_at source_key_label o.labels == source_key p identity)
      && (value_at provider_label o.labels == provider)

  -- The object is not there.
  unfoldable pub decide_missing : Identity → Text → Publication → Bool → ℕ → Action
  decide_missing identity provider publication selected now =
      if not selected || is_empty publication.records
      then nothing
      else elim (build p identity provider publication none now) [
        | err e ↦ fail (invalid_state e)
        | ok none ↦ fail nil_object
        | ok (some created) ↦ create created
      ]

  unfoldable pub decide_present : Identity → Text → Publication → Object → ℕ → Action
  decide_present identity provider publication current now =
      if not (is_owned identity provider current)
      then fail (invalid_state foreign_object)
      else elim (build p identity provider publication (some current) now) [
        | err e ↦ fail (invalid_state e)
        | ok none ↦ delete current
        | ok (some updated) ↦
            if equivalent current updated
            then nothing
            else update (record updated { resource_version = current.resource_version })
      ]

  -- One round of the check of the objects that `Apply` lists.
  unfoldable pub check_existing : Identity → Object → Result InvalidState Text
  check_existing identity object = do
    state ← or_invalid (parse_lifecycle p (value_at lifecycle_annotation object.annotations))
    let present = endpoint_targets (normalize_endpoints object.endpoints)
    guard (all_present present state.pending) absent_pending_target
    delay ← stored_delay p object
    let provider = value_at provider_label object.labels
    guard (not (is_empty provider) && (object.name == object_name p identity provider))
        inconsistent_identity
    ok provider

  unfoldable pub index_existing :
      Identity → Map Text Object → List Object → Result InvalidState (Map Text Object)
  unfolding check_existing
  index_existing identity by_provider [] = ok by_provider
  index_existing identity by_provider (object ∷ objects) = do
    provider ← check_existing identity object
    guard (not (is_some (lookup provider by_provider))) duplicate_provider
    index_existing identity (insert provider object by_provider) objects

-- The Kubernetes API as the writer calls it, over a state of the cluster and the clock; and
-- client-go's RetryOnConflict.
pub record Client (S : Type 0) : Type 0 where
  pub now : S → ℕ
  pub get : Text → Text → S → Result ApiError Object × S
  pub list : Text → Map Text Text → S → Result ApiError (List Object) × S
  pub create_object : Object → S → Result ApiError (Unit {0}) × S
  pub update_object : Object → S → Result ApiError (Unit {0}) × S
  pub delete_object : Object → S → Result ApiError (Unit {0}) × S
  pub retry_on_conflict :
      (S → Result WriteError (Unit {0}) × S) → S → Result WriteError (Unit {0}) × S

abbrev pub or_api {ℓ} : {A : Type ℓ} → Result ApiError A → Result WriteError A
or_api (ok a) = ok a
or_api (err e) = err (api e)

-- A name that was taken in the meantime counts as a conflict, which is tried again.
abbrev pub created_or_conflict : Result ApiError (Unit {0}) → Result WriteError (Unit {0})
created_or_conflict (ok a) = ok a
created_or_conflict (err already_exists) = err (api conflict)
created_or_conflict (err e) = err (api e)

abbrev pub add_publications :
    Map Text Publication → List Publication → Result WriteError (Map Text Publication)
add_publications desired [] = ok desired
add_publications desired (publication ∷ publications) =
    let rest =
      add_publications (insert publication.provider_name publication desired) publications in
    if is_some (lookup publication.provider_name desired)
    then err duplicate_publication
    else if is_empty publication.provider_name || is_negative publication.deletion_delay
    then err invalid_publication
    else rest

-- Every provider that is selected or was published before, in order.
unfoldable pub providers_of : Map Text Publication → Map Text Object → List Text
providers_of desired by_provider =
    sort_texts (keys desired ++ keep (λ q. not (contains (keys desired) q)) (keys by_provider))

-- The zero value that a missing key gives.
abbrev pub no_publication : Publication
no_publication = record {
  provider_name = [];
  records = [];
  metadata_annotations = [];
  deletion_delay = pos 0;
}

module _ (p : Platform) {S : Type 0} (client : Client S) where
  unfoldable pub perform : Action → S → Result WriteError (Unit {0}) × S
  perform nothing s = (ok tt, s)
  perform (fail e) s = (err e, s)
  perform (create o) s =
      let (answer, s') = client.create_object o s in (created_or_conflict answer, s')
  perform (update o) s = let (answer, s') = client.update_object o s in (or_api answer, s')
  perform (delete o) s = let (answer, s') = client.delete_object o s in (or_api answer, s')

  -- The function that is tried again on a conflict.
  unfoldable pub attempt :
      Identity → Text → Publication → Bool → S → Result WriteError (Unit {0}) × S
  unfolding perform
  attempt identity provider publication selected s =
      let (found, s') = client.get identity.namespace (object_name p identity provider) s in
      elim found [
        | ok current ↦
            perform (decide_present p identity provider publication current (client.now s')) s'
        | err not_found ↦
            perform (decide_missing p identity provider publication selected (client.now s')) s'
        | err already_exists ↦ (err (api already_exists), s')
        | err conflict ↦ (err (api conflict), s')
        | err (other code) ↦ (err (api (other code)), s')
      ]

  unfoldable pub apply_one :
      Identity → Text → Publication → Bool → S → Result WriteError (Unit {0}) × S
  apply_one identity provider publication selected s =
      client.retry_on_conflict (attempt identity provider publication selected) s

  unfoldable pub apply_providers :
      Identity → Map Text Publication → List Text → S → Result WriteError (Unit {0}) × S
  apply_providers identity desired [] s = (ok tt, s)
  apply_providers identity desired (provider ∷ providers) s =
      let selected = lookup provider desired in
      let (answer, s') =
        apply_one identity provider (get_or selected no_publication) (is_some selected) s in
      elim answer [ ok _ ↦ apply_providers identity desired providers s' | err e ↦ (err e, s') ]

  abbrev pub managed_selector : Identity → Map Text Text
  managed_selector identity =
      (managed_by_label, managed_by_value) ∷ (source_key_label, source_key p identity) ∷ []

  -- The objects and the publications are checked before anything is written.
  abbrev pub plan :
      Identity
      → List Publication
      → List Object
      → Result WriteError (Map Text Publication × List Text)
  plan identity publications objects = elim (index_existing p identity [] objects) [
    | err e ↦ err (invalid_state e)
    | ok by_provider ↦ do
      desired ← add_publications [] publications
      ok (desired, providers_of desired by_provider)
  ]

  unfoldable pub apply : Identity → List Publication → S → Result WriteError (Unit {0}) × S
  unfolding index_existing apply_providers
  apply identity publications s =
      let (listed, s') = client.list identity.namespace (managed_selector identity) s in
      elim listed [
        | err e ↦ (err (api e), s')
        | ok objects ↦ elim (plan identity publications objects) [
          | err e ↦ (err e, s')
          | ok (desired, providers) ↦ apply_providers identity desired providers s'
        ]
      ]
