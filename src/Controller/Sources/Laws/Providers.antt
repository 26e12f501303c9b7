-- ===== src/Controller/Sources/Laws/Providers.antt =====
-- The providers that a source selects, as they are read.
use mathlib.Core.List.{Memᴰ}
use mathlib.Core.List.Memᴰ.{head, tail}
use labdns.Base.{
  ◌≡◌, refl, sym, subst, ◌∙◌, true, Option, none, some, Option-cases, List, [], ◌∷◌, Text, All,
  contains, list_eq, nat_eq, arith, inl, inr, Bool-cases, ◌==◌, ==_iff, ==_refl, sort_by-All,
  Memᴰ-sort_by, text_ord, sort_by,
}
use labdns.Base.Results.{ok, err, Result-cases}
use labdns.Source.Diagnostics.{Diagnostic}
use labdns.Source.Resolver.{DnsProvider, missing, failed}
use labdns.Controller.Sources.{World, read_providers, load_providers, provider_name_of}

module _ (world : World) where
  -- The list has the providers that are there under the names, and no others.
  abbrev pub IsLoaded : List Text → List DnsProvider → Type 0
  IsLoaded names providers =
      All
        (λ provider.
          (name : Text) × (contains names name ≡ true) × (world.get_provider name ≡ ok provider))
        providers
      × ((name : Text) (provider : DnsProvider)
          → contains names name ≡ true
          → world.get_provider name ≡ ok provider
          → Memᴰ provider providers)

  -- The API fails to answer for one of the names.
  abbrev pub IsUnread : List Text → Type 0
  IsUnread names =
      (name : Text) × (contains names name ≡ true) × (world.get_provider name ≡ err failed)

  later-IsUnread : (name : Text) (names : List Text) → IsUnread names → IsUnread (name ∷ names)
  later-IsUnread name names (n, member, found) = (n, ground (arith, member), found)

  abbrev IsRead : List Text → Option (List DnsProvider) → Type 0
  IsRead names none = IsUnread names
  IsRead names (some providers) = IsLoaded names providers

  weaker :
      (name : Text) (names : List Text) (providers : List DnsProvider)
      → All
          (λ provider.
            (n : Text) × (contains names n ≡ true) × (world.get_provider n ≡ ok provider))
          providers
      → All
          (λ provider.
            (n : Text) × (contains (name ∷ names) n ≡ true) × (world.get_provider n ≡ ok provider))
          providers
  weaker name names [] h = tt
  weaker name names (provider ∷ providers) ((n, member, found), h) =
      ((n, ground (arith, member), found), weaker name names providers h)

  skipped :
      (name : Text) (names : List Text) (answer : Option (List DnsProvider))
      → world.get_provider name ≡ err missing
      → IsRead names answer
      → IsRead (name ∷ names) answer
  skipped name names none absent unread = later-IsUnread name names unread
  skipped name names (some providers) absent (sound, complete) = (
    weaker name names providers sound,
    λ n provider member found. elim (Bool-cases (n == name)) [
      | inl same ↦
          let clash : err missing ≡ ok provider =
            sym absent
            ∙ subst (λ m. world.get_provider m ≡ ok provider) ((==_iff n name).0 same) found in
          absurd (ground (arith, clash))
      | inr other ↦ complete n provider (ground (arith, member, other)) found
    ],
  )

  added :
      (name : Text) (names : List Text) (first : DnsProvider) (providers : List DnsProvider)
      → world.get_provider name ≡ ok first
      → IsLoaded names providers
      → IsLoaded (name ∷ names) (first ∷ providers)
  added name names first providers there (sound, complete) = (
    ((name, rw (==_refl name) refl, there), weaker name names providers sound),
    λ n provider member found. elim (Bool-cases (n == name)) [
      | inl same ↦
          let equal : ok provider ≡ ok first =
            sym (subst (λ m. world.get_provider m ≡ ok provider) ((==_iff n name).0 same) found)
            ∙ there in
          head (ground (arith, equal))
      | inr other ↦ tail (complete n provider (ground (arith, member, other)) found)
    ],
  )

  read_providers-IsRead :
      (names : List Text) (reported : List Diagnostic)
      → IsRead names (read_providers world names reported).0
  unfolding read_providers
  read_providers-IsRead [] reported = (tt, λ n provider member. absurd (ground (arith, member)))
  read_providers-IsRead (name ∷ names) reported = elim (Result-cases (world.get_provider name)) [
    | inr (missing, h) ↦
        rw (h, read_providers) (skipped name names _ h (read_providers-IsRead names _))
    | inr (failed, h) ↦ rw (h, read_providers) (name, rw (==_refl name) refl, h)
    | inl (provider, h) ↦
        let rest = read_providers world names reported in
        elim (Option-cases rest.0) [
          | inl none_read ↦
              rw (h, read_providers)
                (rw none_read (
                  later-IsUnread name names
                    (subst (IsRead names) none_read (read_providers-IsRead names reported))))
          | inr (providers, read) ↦
              rw (h, read_providers)
                (rw read (
                  added name names provider providers h
                    (subst (IsRead names) read (read_providers-IsRead names reported))))
        ]
  ]

  sorted :
      (names : List Text) (providers : List DnsProvider)
      → IsLoaded names providers
      → IsLoaded names (sort_by provider_name_of providers)
  sorted names providers (sound, complete) = (
    sort_by-All provider_name_of _ providers sound,
    λ name provider member found.
        Memᴰ-sort_by provider_name_of provider providers (complete name provider member found),
  )

  -- The loaded providers are those that are there under the names, unless a read fails.
  pub load_providers_lem :
      (names : List Text) (reported : List Diagnostic)
      → ((load_providers world names reported).0 ≡ none → IsUnread names)
        × ((providers : List DnsProvider)
            → (load_providers world names reported).0 ≡ some providers
            → IsLoaded names providers)
  unfolding load_providers
  load_providers_lem names reported =
      let answer = (read_providers world names reported).0 in
      elim (Option-cases answer) [
        | inl unread ↦
            rw (unread, load_providers)
              (
                λ _. subst (IsRead names) unread (read_providers-IsRead names reported),
                λ providers h. absurd (ground (arith, h)),
              )
        | inr (found, read) ↦
            let loaded = subst (IsRead names) read (read_providers-IsRead names reported) in
            rw (read, load_providers)
              (
                λ h. absurd (ground (arith, h)),
                λ providers h.
                    subst (IsLoaded names) (ground (arith, h)) (sorted names found loaded),
              )
      ]
