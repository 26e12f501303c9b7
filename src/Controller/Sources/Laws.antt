-- ===== src/Controller/Sources/Laws.antt =====
-- What one reconciliation of a source writes, and when it says that it is done.
pub mod Rounds
pub mod Providers
use labdns.Base.{
  ◌≡◌, ◌≢◌, ◌↔◌, ◌⊎◌, refl, sym, ap, ◌∙◌, subst, inl, inr, Bool, true, false, ◌&&◌, ◌||◌, not,
  Option, none, some, List, [], ◌∷◌, Text, Map, arith, is_empty, set_insert_all, list_eq, nat_eq,
  pair_eq, Bool-cases, Option-cases, codes, ◌==◌, ==_iff, ==_refl,
}
use labdns.Base.Results.{Result, ok, err, Result-cases}
use labdns.Platform.{Platform}
use labdns.Source.Types.{Identity, HostProjection, Publication}
use labdns.Source.Errors.{SourceError, resolution_warning_reason}
use labdns.Source.Annotations.{ParsedAnnotations, parse_annotations}
use labdns.Source.Diagnostics.{Diagnostic, warning, emit_if}
use labdns.Source.Projection.{Ingress, ingress_projection}
use labdns.Source.Routes.{RouteKind, Route, kind_name, route_projection}
use labdns.Source.Resolver.{DnsProvider, PublicationOptions, ReadError, missing, failed}
use labdns.Source.Publications.{publications}
use labdns.Controller.Sources.{
  World, Round, Outcome, done, retried, ApplyError, bad_state, other_failure, terminal_source_error,
  terminal_output_error, gives_up, says, write, retire_missing, publish, reconcile_present,
  reconcile_ingress, reconcile_route, load_providers, publication_options, ingress_identity,
  route_identity, ingress_annotations, route_annotations,
}
use labdns.Controller.Sources.Laws.Providers.{IsLoaded, IsUnread, load_providers_lem}
use labdns.Controller.Sources.Laws.Rounds.{
  IsSound, reconcile_present-IsSound, IsUnwritten, IsWritten, retire_missing_lem,
}

module _ (world : World) (p : Platform) where
  -- What the reconciliation of an Ingress leads to, by the answer to its read.
  abbrev pub IsIngressSound : Text → Text → Result ReadError Ingress → Round → Type 0
  IsIngressSound namespace name (err failed) round = (round.managed ≡ none) × IsUnwritten round
  IsIngressSound namespace name (err missing) round =
      (round.managed ≡ some false)
      × IsWritten world (ingress_identity world namespace name []) [] round
  IsIngressSound namespace name (ok ingress) round =
      IsSound world (ingress_identity world ingress.namespace ingress.name ingress.uid) p
        (ingress_projection p ingress) (ingress_annotations world ingress []).0 round

  -- What the reconciliation of an Ingress does. If it cannot be read, or if its annotations cannot be
  -- inherited or parsed, nothing is written and the round fails. If it is gone, or not enabled, or
  -- selects no provider, an empty list of publications is written for it. Otherwise the round writes
  -- what the resolver answers for its host names, options and exactly those selected providers that
  -- exist; or it writes nothing and fails, and then the projection, the reading of a selected provider
  -- or the resolver has failed. A round that writes is done exactly if the write succeeds. The metrics
  -- are told whether an Ingress whose annotations can be parsed is enabled and selects a provider, that
  -- one that is gone is not managed, and otherwise nothing.
  pub reconcile_ingress-IsSound :
      (namespace name : Text)
      → IsIngressSound namespace name
          (world.get_ingress namespace name)
          (reconcile_ingress world p namespace name)
  unfolding reconcile_ingress
  reconcile_ingress-IsSound namespace name =
      elim (Result-cases (world.get_ingress namespace name)) [
        | inl (ingress, h) ↦
            rw (h, reconcile_ingress)
              (reconcile_present-IsSound world
                (ingress_identity world ingress.namespace ingress.name ingress.uid) p
                (ingress_projection p ingress) (codes "InvalidSource")
                (ingress_annotations world ingress []))
        | inr (missing, h) ↦
            rw (h, reconcile_ingress)
              (retire_missing_lem world (ingress_identity world namespace name []))
        | inr (failed, h) ↦ rw (h, reconcile_ingress) (refl, (refl, λ d. ground (arith, d)))
      ]

  -- The same for a route of one kind.
  abbrev pub IsRouteSound : RouteKind → Text → Text → Result ReadError Route → Round → Type 0
  IsRouteSound kind namespace name (err failed) round = (round.managed ≡ none) × IsUnwritten round
  IsRouteSound kind namespace name (err missing) round =
      (round.managed ≡ some false)
      × IsWritten world (route_identity world kind namespace name []) [] round
  IsRouteSound kind namespace name (ok route) round =
      (kind_name route.kind ≡ kind_name kind
        → IsSound world (route_identity world kind route.namespace route.name route.uid) p
            (route_projection world.list_grants p route) (route_annotations world route []).0 round)
      × (kind_name route.kind ≢ kind_name kind → IsUnwritten round)

  -- What the reconciliation of a Gateway route of any kind does. If it cannot be read or has another
  -- kind, or if its annotations cannot be inherited or parsed, nothing is written and the round fails.
  -- If it is gone, or not enabled, or selects no provider, an empty list of publications is written
  -- for it. Otherwise the round writes what the resolver answers for its host names, options and
  -- exactly those selected providers that exist; or it writes nothing and fails, and then the
  -- projection, the reading of a selected provider or the resolver has failed. A round that writes is
  -- done exactly if the write succeeds. The metrics are told whether a route of this kind whose
  -- annotations can be parsed is enabled and selects a provider, and that one that is gone is not
  -- managed.
  pub reconcile_route-IsSound :
      (kind : RouteKind) (namespace name : Text)
      → IsRouteSound kind namespace name
          (world.get_route kind namespace name)
          (reconcile_route world p kind namespace name)
  unfolding reconcile_route
  reconcile_route-IsSound kind namespace name =
      elim (Result-cases (world.get_route kind namespace name)) [
        | inl (route, h) ↦ elim (Bool-cases (kind_name route.kind == kind_name kind)) [
          | inl same ↦
              rw (h, reconcile_route)
                (rw same (
                  λ _.
                      reconcile_present-IsSound world
                        (route_identity world kind route.namespace route.name route.uid) p
                        (route_projection world.list_grants p route) (codes "ResolutionFailed")
                        (route_annotations world route []),
                  λ other.
                      elim (other ((==_iff (kind_name route.kind) (kind_name kind)).0 same)) [ ],
                ))
          | inr other ↦
              rw (h, reconcile_route)
                (rw other (
                  λ same. absurd (ground (arith, same, other, ==_refl (kind_name kind))),
                  λ _. (refl, λ d. ground (arith, d)),
                ))
        ]
        | inr (missing, h) ↦
            rw (h, reconcile_route)
              (retire_missing_lem world (route_identity world kind namespace name []))
        | inr (failed, h) ↦ rw (h, reconcile_route) (refl, (refl, λ d. ground (arith, d)))
      ]
