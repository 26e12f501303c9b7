-- ===== src/Dnsendpoint/Build/Refines/Closed.antt =====
-- The writer can always go on from what it wrote: an object that `build` returns is never reported
-- as corrupt by a later run.
use labdns.Base.{
  ℕ, ◌≡◌, refl, sym, ap, subst, ◌∙◌, ◌<◌, true, false, not, Option, some, List, [], ◌∷◌, Text, ℤ,
  pos, arith, list_eq, nat_eq, pair_eq, pair_ord, text_ord, contains, lookup, is_some, is_empty,
  is_negative, ==_iff, ==_refl, Bool-cases, inl, inr, All, values, add_duration, sort_by-All,
}
use labdns.Base.Results.{ok}
use labdns.Source.Types.{Identity, Publication}
use labdns.Platform
use labdns.Platform.{Platform, PendingTarget, Lifecycle}
use labdns.Dnsendpoint.Lifecycle.{
  TargetKey, pending_key, parse_lifecycle, sort_pending, lifecycle_version,
}
use labdns.Dnsendpoint.Lifecycle.Laws.{IsCanonical, IsWellFormed, parse_lifecycle-marshal_lifecycle}
use labdns.Dnsendpoint.Endpoints.{
  Endpoint, present, normalize_records, endpoint_targets, combine_records,
}
use labdns.Dnsendpoint.Endpoints.Laws.{contains-endpoint_targets, present-map-some}
use labdns.Dnsendpoint.Endpoints.Laws.Normalize.{HasPlainRecord}
use labdns.Dnsendpoint.Object.{Object, stored_delay}
use labdns.Dnsendpoint.Build.{Pending, build, current_records}
use labdns.Dnsendpoint.Build.Status.{delay_of}
use labdns.Dnsendpoint.Build.Refines.{
  pending, written, pending-entries, combined_targets, written_endpoints, pending-own,
  pending-IsMap,
}
use labdns.Dnsendpoint.Build.Refines.Parts.{
  IsReadable, Built, offers-current_records, offers-plain, current_records-plain, build-eq-ok,
  values-IsWellFormed, lifecycle-assemble,
}
use labdns.Dnsendpoint.Build.Refines.Stored.{
  build_of_parts, delay-assemble, has_current, keeps_delay, load_pending_ok, load_state_of_parts,
  stored_delay_formatted, unless_empty-eq-some,
}

module _ (p : Platform) (laws : Platform.Laws p) (identity : Identity) (provider : Text)
    (publication : Publication) (current : Option Object) (now : ℕ) (o : Object)
    (plain : All HasPlainRecord publication.records) (readable : IsReadable current)
    (in_time : add_duration now (delay_of p publication current) < p.horizon)
    (forward : is_negative publication.deletion_delay ≡ false) (items : List PendingTarget)
    (delay : ℤ) (loaded : Pending)
    (b : Built p identity provider publication current now (some o) items delay loaded) where
  abbrev pending_map : Pending
  pending_map =
      pending p laws identity provider publication current now (some o) plain readable in_time items
        delay loaded b

  abbrev combined : List Endpoint
  combined =
      combine_records (normalize_records publication.records) (current_records p current)
        pending_map

  abbrev result : Object
  result =
      written p laws identity provider publication current now (some o) plain readable in_time items
        delay loaded b

  entries :
      All
        (λ e.
          (IsCanonical p e.1 × (e.0 ≡ pending_key e.1))
          × (contains (endpoint_targets (current_records p current)) e.0 ≡ true))
        pending_map
  entries =
      pending-entries p laws identity provider publication current now (some o) plain readable
        in_time items delay loaded b

  still_there :
      (k : TargetKey)
      → contains (endpoint_targets (current_records p current)) k ≡ true
      → is_some (lookup k pending_map) ≡ true
      → contains (endpoint_targets (current_records p (some result))) k ≡ true
  still_there k here found = ground (
    arith,
    contains-endpoint_targets (current_records p (some result)) k,
    offers-current_records p (some result) k,
    ap present (
        written_endpoints p laws identity provider publication current now (some o) plain readable
          in_time items delay loaded b),
    present-map-some combined,
    combined_targets p laws identity provider publication current now (some o) plain readable
        in_time items delay loaded b k
        (offers-plain (current_records p current) k (current_records-plain p current readable)
          (sym (contains-endpoint_targets (current_records p current) k) ∙ here)),
  )

  stored : (dl : ℤ) × (stored_delay p result ≡ ok dl)
  stored = elim (Bool-cases (is_empty (normalize_records publication.records))) [
    | inr some_desired ↦ (
      publication.deletion_delay,
      stored_delay_formatted p result publication.deletion_delay laws forward (
          delay-assemble p identity provider publication current
            (not (is_empty (normalize_records publication.records))) pending_map combined
          ∙ rw some_desired refl),
    )
    | inl none_desired ↦ rw none_desired (
        keeps_delay p identity provider publication current pending_map combined items delay b.0 (
          has_current p identity provider publication current now o items delay loaded none_desired
            b))
  ]

  all_there :
      (m : Pending)
      → All
          (λ e.
            (IsCanonical p e.1 × (e.0 ≡ pending_key e.1))
            × (contains (endpoint_targets (current_records p current)) e.0 ≡ true))
          m
      → ((k : TargetKey) → is_some (lookup k m) ≡ true → is_some (lookup k pending_map) ≡ true)
      → All
          (λ item.
            contains (endpoint_targets (current_records p (some result))) (pending_key item) ≡ true)
          (values m)
  unfolding lookup
  all_there [] h f = tt
  all_there ((k, item) ∷ m) h f = (
    subst (λ j. contains (endpoint_targets (current_records p (some result))) j ≡ true) h.0.0.1
        (still_there k h.0.1 (f k (ground (arith, ==_refl k)))),
    all_there m h.1 (λ j e. f j (ground (arith, ==_iff j k))),
  )

  wellformed : IsWellFormed p (values pending_map)
  wellformed =
      values-IsWellFormed p pending_map
        (pending-own p laws identity provider publication current now (some o) plain readable
          in_time items delay loaded b pending_map entries)
        (pending-IsMap p laws identity provider publication current now (some o) plain readable
          in_time items delay loaded b)

  again :
      (publication' : Publication) (now' : ℕ)
      → (r : Option Object) × (build p identity provider publication' (some result) now' ≡ ok r)
  unfolding sort_pending
  again publication' now' =
      let written_state : Lifecycle = record {
        version = pos lifecycle_version;
        pending = values pending_map;
      } in
      let reads =
        ap (parse_lifecycle p) (
          lifecycle-assemble p identity provider publication current
            (not (is_empty (normalize_records publication.records))) pending_map combined)
        ∙ parse_lifecycle-marshal_lifecycle p written_state laws wellformed in
      let loads =
        load_pending_ok (endpoint_targets (current_records p (some result))) []
          (sort_pending (values pending_map))
          (sort_by-All pending_key _ (values pending_map)
            (all_there pending_map entries (λ k e. e))) in
      build_of_parts p identity provider publication' (some result) now'
        (sort_pending (values pending_map)) stored.0 loads.0
        (load_state_of_parts p publication' result
          (record { version = pos 1; pending = sort_pending (values pending_map) }) stored.0 reads
          stored.1)
        loads.1

-- An object that `build` returned is accepted by every later run, whatever is published then and
-- whenever: its lifecycle annotation parses, each pending target is in its records, and its stored
-- delay is valid. The delay published before is not negative; names and deadlines are as for
-- `status-build`.
pub build-build :
    (p : Platform) (identity : Identity) (provider : Text) (publication : Publication)
    (current : Option Object) (now : ℕ) (o : Object)
    → Platform.Laws p
    → All HasPlainRecord publication.records
    → IsReadable current
    → add_duration now (delay_of p publication current) < p.horizon
    → is_negative publication.deletion_delay ≡ false
    → build p identity provider publication current now ≡ ok (some o)
    → (publication' : Publication) (now' : ℕ)
    → (r : Option Object) × (build p identity provider publication' (some o) now' ≡ ok r)
build-build p identity provider publication current now o laws plain readable in_time forward h
      publication' now' =
    let (items, delay, loaded, b) =
      build-eq-ok p identity provider publication current now (some o) h in
    let same = unless_empty-eq-some _ _ o (sym b.2) in
    subst
      (λ (w : Object).
        (r : Option Object) × (build p identity provider publication' (some w) now' ≡ ok r))
      (sym same)
      (again p laws identity provider publication current now o plain readable in_time forward items
        delay loaded b publication' now')
