-- ===== src/Controller/Watches/Providers.antt =====
-- The events of a DNSProvider: an Ingress that selects the provider, itself or through its class.
use mathlib.Core.List.{Memᴰ}
use mathlib.Core.List.Memᴰ.{head, tail}
use labdns.Base.{
  ◌≡◌, refl, sym, subst, true, false, Option, none, some, List, [], ◌∷◌, ◌++◌, Text, Map, IsMap,
  lookup, is_empty, contains, contains-append, contains-set_insert_all, list_eq, nat_eq, pair_eq,
  All, arith, get_or, or_else, has_prefix, split, Bool-cases, Option-cases, inl, inr, ==_refl, ◌⊎◌,
}
use labdns.Base.Results.{ok, Result-cases, >>=-eq-ok}
use labdns.Platform.{Platform}
use labdns.Source.Annotations.{
  merge_annotations, parse_annotations, parse_providers, ParsedAnnotations, providers_annotation,
  comma_list, nonempty_items, is_relevant, for_each, check_provider,
}
use labdns.Source.Annotations.Laws.{
  lookup-merge_annotations, contains-sorted_unique, last_value, parse_annotations-IsParseOf,
}
use labdns.Source.Projection.{Ingress}
use labdns.Controller.Sources.{World, ingress_annotations, legacy_class_annotation}
use labdns.Controller.Watches.Index.{
  Class, indexes, provider_tokens, split_tokens, tokens, ingress_class_keys, ingress_tokens,
  class_tokens, on_ingress, on_ingress_class, provider_token_index, ingress_class_index,
}
use labdns.Controller.Watches.Mapper.{
  Cache, ingress_request, ingresses, ingress_provider, ingress_class, concat_requests,
  class_requests, Request, classes_by_provider, all_classes,
}
use labdns.Controller.Watches.Reads.{
  Cluster, IsCacheOf, contains-ingresses, contains-concat_requests, contains-dedupe, dependents_lem,
}
use labdns.Dnsendpoint.Object.{value_at}

contains-tokens :
    (items : List Text) (a : Text) → contains (tokens items) a ≡ contains (nonempty_items items) a
contains-tokens [] a = refl
contains-tokens (item ∷ items) a = ground (arith, contains-tokens items a)

-- The tokens of the index are the names that the parser reads.
contains-split_tokens :
    (value a : Text) → contains (split_tokens value) a ≡ contains (comma_list value) a
unfolding split_tokens comma_list
contains-split_tokens value a = ground (
  arith,
  contains-set_insert_all (tokens (split value b',')) [] a,
  contains-tokens (split value b',') a,
  contains-sorted_unique (nonempty_items (split value b',')) a,
)

-- The annotation selects the provider.
abbrev pub Selects : Option Text → Text → Type 0
Selects none name = ⊥
Selects (some value) name = contains (split_tokens value) name ≡ true

parse_providers-Selects :
    (p : Platform) (value : Option Text) (names : List Text) (name : Text)
    → parse_providers p value ≡ ok names
    → contains names name ≡ true
    → Selects value name
unfolding parse_providers
parse_providers-Selects p none names name h m = absurd (ground (arith, h, m))
parse_providers-Selects p (some value) names name h m =
    let (checked, _, e) = >>=-eq-ok (for_each (check_provider p) (comma_list value)) _ h in
    ground (arith, contains-split_tokens value name, e, m)

parse_annotations-Selects :
    (p : Platform) (values : Map Text Text) (a : ParsedAnnotations) (name : Text)
    → parse_annotations p values ≡ ok a
    → contains a.providers name ≡ true
    → Selects (lookup providers_annotation values) name
parse_annotations-Selects p values a name h m =
    let parts = parse_annotations-IsParseOf p values a h in
    parse_providers-Selects p (lookup providers_annotation values) a.providers name
      parts.providers_from m

providers_relevant : is_relevant providers_annotation ≡ true
unfolding has_prefix
providers_relevant = refl

-- The merged annotation is that of some level.
merged-Selects :
    (levels : List (Map Text Text)) (name : Text)
    → All IsMap levels
    → Selects (lookup providers_annotation (merge_annotations levels)) name
    → Selects (last_value providers_annotation levels) name
merged-Selects levels name maps h =
    subst (λ o. Selects o name)
      (ground
        (arith, lookup-merge_annotations levels providers_annotation maps, providers_relevant))
      h

-- The more specific of two levels decides.
chosen_level :
    (own class : Map Text Text) (name : Text) (value : Option Text)
    → lookup providers_annotation own ≡ value
    → Selects (last_value providers_annotation (class ∷ own ∷ [])) name
    → Selects (or_else value (lookup providers_annotation class)) name
chosen_level own class name value e selects =
    subst (λ o. Selects (or_else o (lookup providers_annotation class)) name) e selects

tokens-Selects :
    (annotations : Map Text Text) (name : Text)
    → Selects (lookup providers_annotation annotations) name
    → contains (provider_tokens annotations) name ≡ true
unfolding provider_tokens
tokens-Selects annotations name h = elim (Option-cases (lookup providers_annotation annotations)) [
  | inl e ↦ absurd (subst (λ o. Selects o name) e h)
  | inr (value, e) ↦ rw e (subst (λ o. Selects o name) e h)
]

module _ (world : World) (ingress : Ingress) where
  abbrev class_name_of : Text
  class_name_of =
      get_or ingress.class_name (get_or (lookup legacy_class_annotation ingress.annotations) [])

  -- The levels that the annotations of the Ingress are merged from.
  abbrev IsMerged : Map Text Text → Type 0
  IsMerged annotations =
      (annotations ≡ merge_annotations (ingress.annotations ∷ []))
      ⊎ ((class : Map Text Text) × (is_empty class_name_of ≡ false)
          × (world.get_ingress_class class_name_of ≡ ok class)
          × (annotations ≡ merge_annotations (class ∷ ingress.annotations ∷ [])))

  ingress_annotations-IsMerged :
      (annotations : Map Text Text)
      → (ingress_annotations world ingress []).0 ≡ ok annotations
      → IsMerged annotations
  unfolding ingress_annotations
  ingress_annotations-IsMerged annotations h = elim (Bool-cases (is_empty class_name_of)) [
    | inl e ↦ inl (ground (arith, h, e))
    | inr e ↦ elim (Result-cases (world.get_ingress_class class_name_of)) [
      | inr (bad, e1) ↦ absurd (ground (arith, h, e, e1))
      | inl (class, e1) ↦ inr (class, e, e1, ground (arith, h, e, e1))
    ]
  ]

  class_keys :
      is_empty class_name_of ≡ false → contains (ingress_class_keys ingress) class_name_of ≡ true
  unfolding ingress_class_keys
  class_keys h = elim (Option-cases ingress.class_name) [
    | inl e ↦ ground (arith, h, e, ==_refl (value_at legacy_class_annotation ingress.annotations))
    | inr (name, e) ↦ rw e (rw (==_refl name) refl)
  ]

module _ (cluster : Cluster) (cache : Cache) (good : IsCacheOf cluster cache) where
  -- A class that can be read is stored.
  abbrev pub HasClasses : World → Type 0
  HasClasses world =
      (name : Text) (annotations : Map Text Text)
      → world.get_ingress_class name ≡ ok annotations
      → IsMap annotations
        × Memᴰ (record { name = name; annotations = annotations }) cluster.ingress_classes

  own_tokens : Memᴰ (provider_token_index, on_ingress ingress_tokens) (indexes true)
  unfolding indexes
  own_tokens = tail (tail (head refl))

  class_of_tokens : Memᴰ (provider_token_index, on_ingress_class class_tokens) (indexes true)
  unfolding indexes
  class_of_tokens = tail (tail (tail (head refl)))

  class_names : Memᴰ (ingress_class_index, on_ingress ingress_class_keys) (indexes true)
  unfolding indexes
  class_names = tail (head refl)

  -- The requests of `ingressProvider`, in its two parts.
  contains-ingress_provider :
      (name : Text) (r : Request)
      → (contains (ingresses cache provider_token_index name) r ≡ true)
        ⊎ ((class : Class) × Memᴰ class cluster.ingress_classes
            × (contains (class_tokens class) name ≡ true)
            × (contains (ingress_class cache class.name) r ≡ true))
      → contains (ingress_provider cache name) r ≡ true
  unfolding ingress_provider
  contains-ingress_provider name r h =
      let (found, e, complete) =
        dependents_lem cache cache.ingress_classes cluster.ingress_classes on_ingress_class
          class_tokens provider_token_index name classes_by_provider all_classes good.running
          good.ingress_classes class_of_tokens in
      let direct = ingresses cache provider_token_index name in
      let inherited =
        concat_requests cache (class_requests cache (ingress_class cache) name) found in
      rw (e, ingress_provider)
        (rw (contains-dedupe (direct ++ inherited) r) (
          rw (contains-append direct inherited r) (elim h [
            | inl own ↦ rw own refl
            | inr (class, m, selects, enqueued) ↦ ground (
              arith,
              contains-concat_requests cache (class_requests cache (ingress_class cache) name) found
                  class r (complete class m selects) (rw selects enqueued),
            )
          ])))

  enqueued_by_level :
      (world : World) (ingress : Ingress) (annotations : Map Text Text) (name : Text)
      → Memᴰ ingress cluster.ingresses
      → IsMap ingress.annotations
      → HasClasses world
      → IsMerged world ingress annotations
      → Selects (lookup providers_annotation annotations) name
      → contains (ingress_provider cache name) (ingress_request ingress) ≡ true
  unfolding ingress_class ingresses
  enqueued_by_level world ingress annotations name m maps classes (inl own) h =
      let selects =
        merged-Selects (ingress.annotations ∷ []) name (maps, tt)
          (subst (λ a. Selects (lookup providers_annotation a) name) own h) in
      contains-ingress_provider name (ingress_request ingress) (
        inl (
          contains-ingresses cluster cache good ingress_tokens provider_token_index name ingress
            own_tokens m (tokens-Selects ingress.annotations name selects)))
  enqueued_by_level world ingress annotations name m maps classes (inr (class, named, read, both))
        h =
      let (class_maps, stored) = classes (class_name_of world ingress) class read in
      let selects =
        merged-Selects (class ∷ ingress.annotations ∷ []) name (class_maps, (maps, tt))
          (subst (λ a. Selects (lookup providers_annotation a) name) both h) in
      elim (Option-cases (lookup providers_annotation ingress.annotations)) [
        | inr (value, e) ↦ contains-ingress_provider name (ingress_request ingress) (
            inl (
              contains-ingresses cluster cache good ingress_tokens provider_token_index name ingress
                own_tokens m
                (tokens-Selects ingress.annotations name (
                  subst (λ o. Selects o name) (sym e)
                    (chosen_level ingress.annotations class name (some value) e selects)))))
        | inl e ↦ contains-ingress_provider name (ingress_request ingress) (
            inr (
              record { name = class_name_of world ingress; annotations = class },
              stored,
              tokens-Selects class name
                  (chosen_level ingress.annotations class name none e selects),
              contains-ingresses cluster cache good ingress_class_keys ingress_class_index
                  (class_name_of world ingress) ingress class_names m
                  (class_keys world ingress named),
            ))
      ]

  -- An event of a DNSProvider enqueues each stored Ingress whose annotations, merged with those of
  -- its class, are accepted and select the provider. The maps have no key twice, a class that can be
  -- read is stored, and all lists can be read; indexed reads may fail.
  pub ingress_provider_complete :
      (p : Platform) (world : World) (ingress : Ingress) (annotations : Map Text Text)
      (parsed : ParsedAnnotations) (name : Text)
      → Memᴰ ingress cluster.ingresses
      → IsMap ingress.annotations
      → HasClasses world
      → (ingress_annotations world ingress []).0 ≡ ok annotations
      → parse_annotations p annotations ≡ ok parsed
      → contains parsed.providers name ≡ true
      → contains (ingress_provider cache name) (ingress_request ingress) ≡ true
  ingress_provider_complete p world ingress annotations parsed name m maps classes read accepted h =
      enqueued_by_level world ingress annotations name m maps classes
        (ingress_annotations-IsMerged world ingress annotations read)
        (parse_annotations-Selects p annotations parsed name accepted h)
