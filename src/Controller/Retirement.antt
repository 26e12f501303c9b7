-- ===== src/Controller/Retirement.antt =====
-- internal/controller/lifecycle_controller.go: one reconciliation of a generated object. The cluster is
-- a snapshot and the writer's two operations are parameters; a round records what it does.
pub mod Laws
use labdns.Base.{
  ℕ, Bool, true, false, ◌&&◌, ◌||◌, not, Option, none, some, List, [], ◌∷◌, Text, codes, is_empty,
  if◌then◌else◌, ◌==◌, list_eq, nat_eq, is_some,
}
use labdns.Base.Results.{Result, ok, err}
use labdns.Platform.{Platform}
use labdns.Source.Types.{Identity, ingress_kind}
use labdns.Source.Routes.{route_object}
use labdns.Source.Resolver.{ReadError, missing, failed}
use labdns.Dnsendpoint.Lifecycle.{pending_target_count}
use labdns.Dnsendpoint.Naming.{source_key, object_name}
use labdns.Dnsendpoint.Object.{
  Object, value_at, managed_by_label, managed_by_value, provider_label, source_key_label,
  source_kind_annotation, source_namespace_annotation, source_name_annotation,
  source_uid_annotation, lifecycle_annotation,
}
use labdns.Controller.Sources.{Outcome, done, retried, terminal, ApplyError, terminal_output_error}

pub record LifecycleWorld : Type 0 where
  pub gateway_enabled : Bool
  pub get_object : Text → Text → Result ReadError Object
  -- The UID of a source, by kind, namespace and name.
  pub get_source : Text → Text → Text → Result ReadError Text
  -- `Output.Apply` without publications, and `Output.Advance` with the wait that it asks for.
  pub retire_source : Identity → Result ApplyError (Unit {0})
  pub advance_object : Text → Text → Result ApplyError ℕ

pub record LifecycleRound : Type 0 where
  pub outcome : Outcome
  pub wait : ℕ
  -- The call of `Metrics.SetEndpoint`.
  pub counted : Option (Bool × ℕ)
  -- The calls of `Output.Apply` and of `Output.Advance`.
  pub retired : Option Identity
  pub advanced : Bool

abbrev pub rests : Outcome → Option (Bool × ℕ) → LifecycleRound
rests outcome counted = record {
  outcome = outcome;
  wait = 0;
  counted = counted;
  retired = none;
  advanced = false;
}

-- `isGatewayRoute`
unfoldable pub is_gateway_route : Text → Bool
is_gateway_route kind = is_some (route_object kind)

-- The API version of a supported kind.
unfoldable pub api_version_of : Text → Option Text
unfolding is_gateway_route
api_version_of kind =
    if kind == ingress_kind
    then some (codes "networking.k8s.io/v1")
    else if is_gateway_route kind
    then some (codes "gateway.networking.k8s.io/v1")
    else none

-- The identity that the annotations of an object store.
unfoldable pub stored_identity : Text → Object → Identity
stored_identity api_version o = record {
  api_version = api_version;
  kind = value_at source_kind_annotation o.annotations;
  namespace = value_at source_namespace_annotation o.annotations;
  name = value_at source_name_annotation o.annotations;
  uid = value_at source_uid_annotation o.annotations;
}

module _ (p : Platform) where
  -- Nothing is empty, and labels and names are those that the writer derives from the identity.
  unfoldable pub is_consistent : Identity → Object → Bool
  is_consistent identity o =
      let provider = value_at provider_label o.labels in
      not (
        is_empty identity.namespace
        || is_empty identity.name
        || is_empty identity.uid
        || is_empty provider)
      && (o.namespace == identity.namespace)
      && (value_at source_key_label o.labels == source_key p identity)
      && (o.name == object_name p identity provider)

module _ (p : Platform) (world : LifecycleWorld) (namespace name : Text) where
  unfoldable pub advance_step : Option Identity → ℕ → LifecycleRound
  advance_step retired pending = elim (world.advance_object namespace name) [
    | ok wait ↦ record {
      outcome = done;
      wait = wait;
      counted = some (true, pending);
      retired = retired;
      advanced = true;
    }
    | err e ↦ record {
      outcome = terminal_output_error e;
      wait = 0;
      counted = some (true, pending);
      retired = retired;
      advanced = true;
    }
  ]

  unfoldable pub retire_first : Identity → ℕ → LifecycleRound
  unfolding advance_step
  retire_first identity pending = elim (world.retire_source identity) [
    | ok _ ↦ advance_step (some identity) pending
    | err e ↦ record {
      outcome = terminal_output_error e;
      wait = 0;
      counted = some (true, pending);
      retired = some identity;
      advanced = false;
    }
  ]

  -- Once the identity is known: is the source still there, and is it the same one?
  unfoldable pub follow_source : Identity → ℕ → LifecycleRound
  unfolding retire_first
  follow_source identity pending =
      if is_gateway_route identity.kind && not world.gateway_enabled
      then retire_first identity pending
      else elim (world.get_source identity.kind identity.namespace identity.name) [
        | err missing ↦ retire_first identity pending
        | err failed ↦ rests retried (some (true, pending))
        | ok uid ↦
            if uid == identity.uid
            then advance_step none pending
            else rests done (some (true, pending))
      ]

  unfoldable pub follow_object : Object → ℕ → LifecycleRound
  unfolding follow_source api_version_of stored_identity
  follow_object o pending = elim (api_version_of (value_at source_kind_annotation o.annotations)) [
    | none ↦ rests terminal (some (true, pending))
    | some version ↦
        if is_consistent p (stored_identity version o) o
        then follow_source (stored_identity version o) pending
        else rests terminal (some (true, pending))
  ]

  unfoldable pub reconcile_object : Object → LifecycleRound
  unfolding follow_object pending_target_count
  reconcile_object o =
      if not (value_at managed_by_label o.labels == managed_by_value)
      then rests done (some (false, 0))
      else elim (pending_target_count p (value_at lifecycle_annotation o.annotations)) [
        | err e ↦ rests terminal none
        | ok pending ↦ follow_object o pending
      ]

  -- `lifecycleReconciler.Reconcile`
  unfoldable pub reconcile_endpoint : LifecycleRound
  unfolding reconcile_object
  reconcile_endpoint = elim (world.get_object namespace name) [
    | err missing ↦ rests done (some (false, 0))
    | err failed ↦ rests retried none
    | ok o ↦ reconcile_object o
  ]
