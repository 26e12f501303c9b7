-- ===== src/Dnsendpoint/Build/Refines.antt =====
-- `build` implements the specification of Build/Status, and what it writes it can read again.
pub mod Parts
pub mod Stored
pub mod Closed
use labdns.Base.{
  ℕ, ◌≡◌, refl, sym, ap, subst, ◌∙◌, ◌<◌, Bool, true, false, ◌||◌, not, Option, none, some, List,
  [], ◌∷◌, map, Map, Text, ℤ, pos, arith, list_eq, nat_eq, pair_eq, pair_ord, text_ord, contains,
  Distinct, lookup, IsMap, is_some, is_empty, if◌then◌else◌, ==_iff, ==_refl, ◌==◌, Bool-cases, inl,
  inr, All, find_by, find_by-sort_by, contains-find_by, Option-cases, NoByte, values, keys,
  contains-keys, add_duration, lookup-insert,
}
use labdns.Base.Results.{Result, ok, err, ◌>>=◌, >>=-eq-ok, Result-cases}
use labdns.Source.Types.{Identity, Publication}
use labdns.Platform
use labdns.Platform.{Platform, PendingTarget, Lifecycle}
use labdns.Dnsendpoint.Lifecycle.{
  TargetKey, pending_key, parse_lifecycle, marshal_lifecycle, sort_pending, lifecycle_version,
}
use labdns.Dnsendpoint.Lifecycle.Laws.{
  IsCanonical, IsWellFormed, parse_lifecycle-IsWellFormed, parse_lifecycle-marshal_lifecycle,
}
use labdns.Dnsendpoint.Endpoints.{
  Endpoint, present, normalize_endpoints, normalize_records, endpoint_targets, combine_records,
}
use labdns.Dnsendpoint.Endpoints.Laws.{
  offers, contains-endpoint_targets, offers-normalize_endpoints, present-map-some,
}
use labdns.Dnsendpoint.Endpoints.Laws.Normalize.{
  HasPlainName, HasPlainRecord, requests, offers-normalize_records,
  normalize_records-HasDistinctKeys, normalize_records-plain, normalize_endpoints-plain,
}
use labdns.Dnsendpoint.Endpoints.Laws.Combine.{IsOwn, offers-combine_records}
use labdns.Dnsendpoint.Object.{
  Object, InvalidState, lifecycle_annotation, value_at, stored_delay, or_invalid,
}
use labdns.Dnsendpoint.Build.{
  Pending, load_pending, load_state, settle, build, current_records, assemble, annotations_of,
  unless_empty, lifecycle_of, delay_annotation, identity_annotations, publish_annotations,
  start_from,
}
use labdns.Dnsendpoint.Build.Status.{
  absent, next_status, items_of, item_status, status, delay_or_zero, delay_of,
}
use labdns.Dnsendpoint.Build.Targets.{
  HasNames, IsNamed, offers-IsNamed, left-IsMap, left-IsEntry, left-next_status,
}
use labdns.Dnsendpoint.Build.Refines.Parts.{
  Built, IsPendingMap, IsReadable, build-eq-ok, current-IsNamed, current_records-plain, items_in,
  lifecycle-assemble, load_state-eq-ok, offers-plain, reads_back, status_after, status_before,
}

module _ (p : Platform) (laws : Platform.Laws p) (identity : Identity) (provider : Text)
    (publication : Publication) (current : Option Object) (now : ℕ) (r : Option Object)
    (plain : All HasPlainRecord publication.records) (readable : IsReadable current)
    (in_time : add_duration now (delay_of p publication current) < p.horizon)
    (items : List PendingTarget) (delay : ℤ) (loaded : Pending)
    (b : Built p identity provider publication current now r items delay loaded) where
  abbrev desired : List Endpoint
  desired = normalize_records publication.records

  abbrev records : List Endpoint
  records = current_records p current

  abbrev seen : List TargetKey
  seen = endpoint_targets records

  abbrev pending : Pending
  pending = settle p now delay (endpoint_targets desired) seen loaded

  loads :
      (items ≡ items_in p current)
      × (delay ≡ delay_of p publication current)
      × All (IsCanonical p) items
      × Distinct (map pending_key items)
  loads = load_state-eq-ok p publication current items delay b.0

  soon : add_duration now delay < p.horizon
  soon = subst (λ d. add_duration now d < p.horizon) (sym loads.1) in_time

  pending-IsMap : IsMap pending
  pending-IsMap =
      left-IsMap p laws now delay (endpoint_targets desired) seen items loaded loads.2 loads.3 b.1
        soon (λ k. current-IsNamed p current k readable)

  pending-entries :
      All (λ e. (IsCanonical p e.1 × (e.0 ≡ pending_key e.1)) × (contains seen e.0 ≡ true)) pending
  pending-entries =
      left-IsEntry p laws now delay (endpoint_targets desired) seen items loaded loads.2 loads.3 b.1
        soon (λ k. current-IsNamed p current k readable)

  pending-own :
      (m : Pending)
      → All (λ e. (IsCanonical p e.1 × (e.0 ≡ pending_key e.1)) × (contains seen e.0 ≡ true)) m
      → IsPendingMap p m
  pending-own [] h = tt
  pending-own (e ∷ m) h = (h.0.0, pending-own m h.1)

  pending-IsOwn :
      (m : Pending)
      → All (λ e. (IsCanonical p e.1 × (e.0 ≡ pending_key e.1)) × (contains seen e.0 ≡ true)) m
      → All IsOwn m
  pending-IsOwn [] h = tt
  pending-IsOwn ((k, item) ∷ m) h =
      let here : offers records k ≡ true = sym (contains-endpoint_targets records k) ∙ h.0.1 in
      (
        (
          offers-plain records k (current_records-plain p current readable) here,
          sym (ap (λ (j : TargetKey). j.0) h.0.0.1),
          sym (ap (λ (j : TargetKey). j.1.0) h.0.0.1),
        ),
        pending-IsOwn m h.1,
      )

  asked :
      (k : TargetKey)
      → NoByte 0 k.0
      → contains (endpoint_targets desired) k ≡ requests publication.records k
  asked k n =
      contains-endpoint_targets desired k ∙ offers-normalize_records publication.records k plain n

  combined_targets :
      (k : TargetKey)
      → NoByte 0 k.0
      → offers (combine_records desired records pending) k
        ≡ (is_some (lookup k pending) || requests publication.records k)
  combined_targets k n = ground (
    arith,
    offers-combine_records desired records pending k
        (normalize_records-plain publication.records plain)
        (normalize_records-HasDistinctKeys publication.records plain)
        (current_records-plain p current readable) (pending-IsOwn pending pending-entries) n,
    offers-normalize_records publication.records k plain n,
    contains-keys pending k,
  )

  abbrev written : Object
  written =
      assemble p identity provider publication current (not (is_empty desired)) pending
        (combine_records desired records pending)

  written_items :
      (k : TargetKey) → find_by pending_key k (items_in p (some written)) ≡ lookup k pending
  written_items k =
      ap (λ v. find_by pending_key k (items_of (parse_lifecycle p v)))
        (lifecycle-assemble p identity provider publication current (not (is_empty desired)) pending
          (combine_records desired records pending))
      ∙ reads_back p pending k laws (pending-own pending pending-entries) pending-IsMap

  written_endpoints : written.endpoints ≡ map some (combine_records desired records pending)
  unfolding assemble
  written_endpoints = refl

  refines :
      (k : TargetKey)
      → NoByte 0 k.0
      → status p r k
        ≡ next_status now
            (delay_of p publication current)
            (requests publication.records k)
            (status p current k)
  refines k n = ground (
    arith,
    b.2,
    status_after p (combine_records desired records pending) written pending k written_endpoints
        (written_items k),
    combined_targets k n,
    asked k n,
    left-next_status p laws now delay (endpoint_targets desired) seen items loaded loads.2 loads.3
        b.1 soon (λ j. current-IsNamed p current j readable) k,
    status_before p current k,
    loads.0,
    loads.1,
  )

-- Whatever `build` returns without an error follows the specification, for every target whose name
-- holds no NUL byte: a desired target is active, a dropped one is kept for the stored delay, a
-- pending one keeps its deadline, and a passed deadline removes the target. The names in the
-- publication and in the current object hold no NUL byte, those in the object are not empty, and
-- the new deadline has a year of four digits.
pub status-build :
    (p : Platform) (identity : Identity) (provider : Text) (publication : Publication)
    (current : Option Object) (now : ℕ) (r : Option Object)
    → Platform.Laws p
    → All HasPlainRecord publication.records
    → IsReadable current
    → add_duration now (delay_of p publication current) < p.horizon
    → build p identity provider publication current now ≡ ok r
    → (k : TargetKey) → NoByte 0 k.0
    → status p r k
      ≡ next_status now
          (delay_of p publication current)
          (requests publication.records k)
          (status p current k)
status-build p identity provider publication current now r laws plain readable in_time h k n =
    let (items, delay, loaded, b) = build-eq-ok p identity provider publication current now r h in
    refines p laws identity provider publication current now r plain readable in_time items delay
      loaded b k n
