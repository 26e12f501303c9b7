-- ===== src/Controller/Watches/Endpoints.antt =====
-- The events of the generated objects themselves: an object leads back to the source that it is of.
use labdns.Base.{
  ℕ, ◌≡◌, refl, sym, ◌∙◌, subst, ap, Bool, true, false, Option, some, List, [], ◌∷◌, Text, Map,
  is_empty, lookup, insert, lookup-insert, lookup-insert_ne, ◌==◌, list_eq, nat_eq, get_or,
  Bool-cases, inl, inr, if◌then◌else◌,
}
use labdns.Base.Results.{ok}
use labdns.Platform.{Platform}
use labdns.Source.Types.{Identity, Publication, ingress_kind}
use labdns.Source.Routes.{RouteKind, kind_name}
use labdns.Dnsendpoint.Object.{
  Object, value_at, source_kind_annotation, source_namespace_annotation, source_name_annotation,
  source_uid_annotation, lifecycle_annotation, deletion_delay_annotation,
}
use labdns.Dnsendpoint.Endpoints.{Endpoint}
use labdns.Dnsendpoint.Build.{
  build, assemble, annotations_of, start_from, Pending, uid_annotation, delay_annotation,
  publish_annotations, lifecycle_of,
}
use labdns.Dnsendpoint.Build.Refines.Parts.{build-eq-ok}
use labdns.Dnsendpoint.Build.Refines.Stored.{unless_empty-eq-some}
use labdns.Controller.Watches.Mapper.{Request, ingress_endpoint, route_endpoint}

-- The three annotations that name the source.
abbrev pub NamesSource : Identity → Object → Type 0
NamesSource identity o =
    (value_at source_kind_annotation o.annotations ≡ identity.kind)
    × (value_at source_namespace_annotation o.annotations ≡ identity.namespace)
    × (value_at source_name_annotation o.annotations ≡ identity.name)

module _ (p : Platform) (identity : Identity) where
  lookup-uid_annotation :
      (m : Map Text Text) (k : Text)
      → (k == source_uid_annotation) ≡ false
      → lookup k (uid_annotation p identity m) ≡ lookup k m
  lookup-uid_annotation m k h = elim (Bool-cases (is_empty identity.uid)) [
    | inl e ↦ rw e refl
    | inr e ↦ rw e (lookup-insert_ne source_uid_annotation identity.uid m k h)
  ]

  lookup-delay_annotation :
      (publishes : Bool) (publication : Publication) (m : Map Text Text) (k : Text)
      → (k == deletion_delay_annotation) ≡ false
      → lookup k (delay_annotation p publishes publication m) ≡ lookup k m
  lookup-delay_annotation true publication m k h =
      lookup-insert_ne deletion_delay_annotation (p.format_duration publication.deletion_delay) m k
        h
  lookup-delay_annotation false publication m k h = refl

  -- The annotations that are written last do not touch the other keys.
  lookup-annotations_of :
      (publication : Publication) (publishes : Bool) (lifecycle : Text) (m : Map Text Text)
      (k : Text)
      → (k == lifecycle_annotation) ≡ false
      → (k == deletion_delay_annotation) ≡ false
      → (k == source_uid_annotation) ≡ false
      → lookup k (annotations_of p identity publication publishes lifecycle m)
        ≡ lookup k (
            insert source_name_annotation identity.name (
              insert source_namespace_annotation identity.namespace (
                insert source_kind_annotation identity.kind
                  (publish_annotations p publishes publication m))))
  unfolding annotations_of
  lookup-annotations_of publication publishes lifecycle m k a b c =
      lookup-insert_ne lifecycle_annotation lifecycle _ k a
      ∙ lookup-delay_annotation publishes publication _ k b
      ∙ lookup-uid_annotation _ k c

  -- The three keys, under those that are written after each of them.
  NamesSource-insert :
      (m : Map Text Text)
      → let n = insert source_name_annotation identity.name (
          insert source_namespace_annotation identity.namespace
            (insert source_kind_annotation identity.kind m)) in
        (lookup source_kind_annotation n ≡ some identity.kind)
        × (lookup source_namespace_annotation n ≡ some identity.namespace)
        × (lookup source_name_annotation n ≡ some identity.name)
  NamesSource-insert m =
      let one = insert source_kind_annotation identity.kind m in
      let two = insert source_namespace_annotation identity.namespace one in
      (
        lookup-insert_ne source_name_annotation identity.name two source_kind_annotation refl
            ∙ lookup-insert_ne source_namespace_annotation identity.namespace one
                source_kind_annotation refl
            ∙ lookup-insert source_kind_annotation identity.kind m source_kind_annotation,
        lookup-insert_ne source_name_annotation identity.name two source_namespace_annotation refl
            ∙ lookup-insert source_namespace_annotation identity.namespace one
                source_namespace_annotation,
        lookup-insert source_name_annotation identity.name two source_name_annotation,
      )

  assemble-NamesSource :
      (provider : Text) (publication : Publication) (current : Option Object) (publishes : Bool)
      (pending : Pending) (combined : List Endpoint)
      → NamesSource identity
          (assemble p identity provider publication current publishes pending combined)
  unfolding assemble
  assemble-NamesSource provider publication current publishes pending combined =
      let old = (start_from p identity provider current).annotations in
      let (kind, namespace, name) =
        NamesSource-insert (publish_annotations p publishes publication old) in
      let under = lookup-annotations_of publication publishes (lifecycle_of p pending) old in
      (
        ap (λ o. get_or o []) (under source_kind_annotation refl refl refl ∙ kind),
        ap (λ o. get_or o []) (under source_namespace_annotation refl refl refl ∙ namespace),
        ap (λ o. get_or o []) (under source_name_annotation refl refl refl ∙ name),
      )

  build-NamesSource :
      (provider : Text) (publication : Publication) (current : Option Object) (now : ℕ) (o : Object)
      → build p identity provider publication current now ≡ ok (some o)
      → NamesSource identity o
  build-NamesSource provider publication current now o h =
      let (items, delay, loaded, b) =
        build-eq-ok p identity provider publication current now (some o) h in
      subst (NamesSource identity) (sym (unless_empty-eq-some _ _ o (sym b.2)))
        (assemble-NamesSource provider publication current _ _ _)

abbrev pub only_of : Text → Identity → List Request
only_of kind identity =
    if identity.kind == kind then (identity.namespace, identity.name) ∷ [] else []

-- An event of an object that a write produced enqueues the source that it was written for, and only
-- that one: as an Ingress, or as a route of the kind, whichever the source is.
pub ingress_endpoint-build :
    (p : Platform) (identity : Identity) (provider : Text) (publication : Publication)
    (current : Option Object) (now : ℕ) (o : Object)
    → build p identity provider publication current now ≡ ok (some o)
    → (ingress_endpoint o ≡ only_of ingress_kind identity)
      × ((kind : RouteKind) → route_endpoint kind o ≡ only_of (kind_name kind) identity)
unfolding ingress_endpoint route_endpoint
ingress_endpoint-build p identity provider publication current now o h =
    let (kind, namespace, name) =
      build-NamesSource p identity provider publication current now o h in
    (rw (kind, namespace, name) refl, λ k. rw (kind, namespace, name) refl)
