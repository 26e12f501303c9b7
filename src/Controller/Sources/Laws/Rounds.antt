-- ===== src/Controller/Sources/Laws/Rounds.antt =====
-- What a round does from the inherited annotations on.
use labdns.Base.{
  ◌≡◌, ◌≢◌, ◌↔◌, ◌⊎◌, refl, ap, inl, inr, Bool, true, false, ◌&&◌, ◌||◌, not, Option, none, some,
  List, [], ◌∷◌, Text, Map, arith, is_empty, set_insert_all, list_eq, nat_eq, pair_eq, Bool-cases,
  Option-cases, codes,
}
use labdns.Base.Results.{Result, ok, err, Result-cases}
use labdns.Platform.{Platform}
use labdns.Source.Types.{Identity, HostProjection, Publication}
use labdns.Source.Errors.{SourceError}
use labdns.Source.Annotations.{ParsedAnnotations, parse_annotations}
use labdns.Source.Diagnostics.{Diagnostic, warning, emit_if}
use labdns.Source.Resolver.{DnsProvider}
use labdns.Source.Publications.{publications}
use labdns.Controller.Sources.{
  World, Round, Outcome, done, ApplyError, bad_state, other_failure, terminal_source_error,
  terminal_output_error, gives_up, write, retire_missing, publish, reconcile_present,
  load_providers, publication_options,
}
use labdns.Controller.Sources.Laws.Providers.{IsLoaded, IsUnread, load_providers_lem}

-- A source is published if it is enabled and selects a provider.
abbrev pub is_selected : ParsedAnnotations → Bool
is_selected parsed = parsed.enabled && not (is_empty parsed.providers)

terminal_source_error_not_done : (e : SourceError) → terminal_source_error e ≢ done
unfolding terminal_source_error
terminal_source_error_not_done e = ground arith

terminal_output_error_not_done : (e : ApplyError) → terminal_output_error e ≢ done
unfolding terminal_output_error
terminal_output_error_not_done bad_state = ground arith
terminal_output_error_not_done other_failure = ground arith

-- The round writes nothing, and it says that it has failed.
abbrev pub IsUnwritten : Round → Type 0
IsUnwritten round = (round.applied ≡ none) × (round.outcome ≢ done)

module _ (world : World) (identity : Identity) where
  -- The round writes these publications for the source, and is done exactly if that succeeds.
  abbrev pub IsWritten : List Publication → Round → Type 0
  IsWritten wanted round =
      (round.applied ≡ some (identity, wanted))
      × ((round.outcome ≡ done) ↔ (world.apply identity wanted ≡ ok tt))

  write_lem :
      (wanted : List Publication) (managed : Bool) (reported : List Diagnostic)
      → ((write world identity wanted managed reported).managed ≡ some managed)
        × IsWritten wanted (write world identity wanted managed reported)
  unfolding write
  write_lem wanted managed reported = elim (Result-cases (world.apply identity wanted)) [
    | inl (a, h) ↦ rw (h, write) (refl, (refl, (λ _. refl, λ _. refl)))
    | inr (e, h) ↦
        rw (h, write)
          (
            refl,
            (
              refl,
              (
                λ d. elim (terminal_output_error_not_done e d) [ ],
                λ good. absurd (ground (arith, good)),
              ),
            ),
          )
  ]

  pub retire_missing_lem :
      ((retire_missing world identity).managed ≡ some false)
      × IsWritten [] (retire_missing world identity)
  unfolding retire_missing
  retire_missing_lem = elim (Result-cases (world.apply identity [])) [
    | inl (a, h) ↦ rw (h, retire_missing) (refl, (refl, (λ _. refl, λ _. refl)))
    | inr (e, h) ↦
        rw (h, retire_missing)
          (
            refl,
            (
              refl,
              (
                λ d. elim (terminal_output_error_not_done e d) [ ],
                λ good. absurd (ground (arith, good)),
              ),
            ),
          )
  ]

  module _ (p : Platform)
      (project : List Text → Result SourceError (List HostProjection) × List Diagnostic) where
    -- The publications are the resolver's, for the host names of the source, the providers that it
    -- selects, and its options.
    abbrev pub IsResolved : ParsedAnnotations → List Publication → Type 0
    IsResolved parsed wanted =
        (hosts : List HostProjection) × (providers : List DnsProvider) × ((project
            parsed.hostnames).0
          ≡ ok hosts)
        × IsLoaded world parsed.providers providers
        × ((publications world.resolver hosts providers (publication_options parsed)).0 ≡ ok wanted)

    -- A step before the write fails: the projection, the reading of a provider, or the resolver.
    abbrev pub IsUnresolved : ParsedAnnotations → Type 0
    IsUnresolved parsed =
        ((e : SourceError) × ((project parsed.hostnames).0 ≡ err e))
        ⊎ (IsUnread world parsed.providers
            ⊎ ((hosts : List HostProjection) × (providers : List DnsProvider) × (e : SourceError)
                × ((project parsed.hostnames).0 ≡ ok hosts)
                × IsLoaded world parsed.providers providers
                × ((publications world.resolver hosts providers (publication_options parsed)).0
                    ≡ err e)))

    -- What a selected source leads to.
    abbrev pub IsPublished : ParsedAnnotations → Round → Type 0
    IsPublished parsed round =
        (IsUnresolved parsed × IsUnwritten round)
        ⊎ ((wanted : List Publication) × IsResolved parsed wanted × IsWritten wanted round)

    -- What a source with these annotations leads to. The metrics hear whether it is selected.
    abbrev pub IsSettled : Result SourceError ParsedAnnotations → Round → Type 0
    IsSettled (err e) round = (round.managed ≡ none) × IsUnwritten round
    IsSettled (ok parsed) round =
        (round.managed ≡ some (is_selected parsed))
        × (is_selected parsed ≡ false → IsWritten [] round)
        × (is_selected parsed ≡ true → IsPublished parsed round)

    -- The same from the inherited annotations on.
    abbrev pub IsSound : Result SourceError (Map Text Text) → Round → Type 0
    IsSound (err e) round = (round.managed ≡ none) × IsUnwritten round
    IsSound (ok annotations) round = IsSettled (parse_annotations p annotations) round

    gives_up-IsUnwritten :
        (outcome : Outcome) (managed : Option Bool) (reported : List Diagnostic)
        → outcome ≢ done
        → IsUnwritten (gives_up outcome managed reported)
    gives_up-IsUnwritten outcome managed reported h = (refl, h)

    publish_lem :
        (parsed : ParsedAnnotations) (managed : Bool) (reason : Text)
        (projected : Result SourceError (List HostProjection) × List Diagnostic)
        (reported : List Diagnostic)
        → project parsed.hostnames ≡ projected
        → ((publish world identity parsed managed reason projected reported).managed ≡ some managed)
          × IsPublished parsed (publish world identity parsed managed reason projected reported)
    unfolding publish
    publish_lem parsed managed reason (err e, projected) reported h =
        (refl, inl (inl (e, ap (λ answer. answer.0) h), (refl, terminal_source_error_not_done e)))
    publish_lem parsed managed reason (ok hosts, projected) reported h =
        let from : (project parsed.hostnames).0 ≡ ok hosts = ap (λ answer. answer.0) h in
        let before = set_insert_all projected reported in
        let loaded = load_providers world parsed.providers before in
        elim (Option-cases loaded.0) [
          | inl none_read ↦
              rw (none_read, publish)
                (
                  refl,
                  inl (
                    inr (inl ((load_providers_lem world parsed.providers before).0 none_read)),
                    (refl, λ d. ground (arith, d)),
                  ),
                )
          | inr (providers, read) ↦
              let selected = (load_providers_lem world parsed.providers before).1 providers read in
              let answer =
                publications world.resolver hosts providers (publication_options parsed) in
              elim (Result-cases answer.0) [
                | inl (wanted, found) ↦
                    let (told, written) =
                      write_lem wanted managed (set_insert_all answer.1 loaded.1) in
                    rw (read, publish)
                      (rw found
                        (told, inr (wanted, (hosts, providers, from, selected, found), written)))
                | inr (e, found) ↦
                    rw (read, publish)
                      (rw found (
                        refl,
                        inl (
                          inr (inr (hosts, providers, e, from, selected, found)),
                          (refl, terminal_source_error_not_done e),
                        ),
                      ))
              ]
        ]

    pub reconcile_present-IsSound :
        (reason : Text) (inherited : Result SourceError (Map Text Text) × List Diagnostic)
        → IsSound inherited.0 (reconcile_present world p identity reason project inherited)
    unfolding reconcile_present
    reconcile_present-IsSound reason (err e, reported) =
        (refl, (refl, terminal_source_error_not_done e))
    reconcile_present-IsSound reason (ok annotations, reported) =
        elim (Result-cases (parse_annotations p annotations)) [
          | inr (e, h) ↦ rw (h, reconcile_present) (refl, (refl, terminal_source_error_not_done e))
          | inl (parsed, h) ↦ elim (Bool-cases (not parsed.enabled || is_empty parsed.providers)) [
            | inl off ↦
                let unselected : is_selected parsed ≡ false = ground (arith, off) in
                let (told, written) = write_lem [] (is_selected parsed) (
                  emit_if (parsed.enabled && is_empty parsed.providers)
                    (warning (codes "NoProvidersSelected") (identity.kind ∷ [])) reported) in
                rw (h, reconcile_present)
                  (rw off (told, λ _. written, λ on. absurd (ground (arith, on, unselected))))
            | inr on ↦
                let selected : is_selected parsed ≡ true = ground (arith, on) in
                let (told, published) =
                  publish_lem parsed (is_selected parsed) reason (project parsed.hostnames) reported
                    refl in
                rw (h, reconcile_present)
                  (rw on (told, λ none. absurd (ground (arith, none, selected)), λ _. published))
          ]
        ]
