-- ===== src/Cli/Health/Counts.antt =====
-- What the summary of `status` counts.
use labdns.Base.{
  ℕ, suc, ◌+◌, ◌≡◌, refl, sym, subst, ◌||◌, List, [], ◌∷◌, Text, length, arith, Bool-cases, inl,
  inr, ◌==◌, list_eq, nat_eq, contains, set_insert, contains-set_insert, Distinct,
  set_insert-Distinct, map, Bool, true, false, not, ◌&&◌, ◌∙◌, is_empty, if◌then◌else◌,
}
use labdns.Cli.Model.{PublishedRecord, state_invalid, state_observed}
use labdns.Cli.Records.{record_state}
use labdns.Cli.Health.{
  Answers, Tally, no_tally, tally_record, tally_records, dns_endpoint_key, source_key_of,
}

-- A record that cannot be trusted: its lifecycle cannot be read, or its generations make no sense.
abbrev pub is_invalid_record : PublishedRecord → Bool
is_invalid_record r = not (is_empty r.lifecycle_error) || (r.external_dns_state == state_invalid)

-- ExternalDNS has observed it as it is.
abbrev pub is_observed_record : PublishedRecord → Bool
is_observed_record r = not (is_invalid_record r) && (r.external_dns_state == state_observed)

-- Neither of the two.
abbrev pub is_stale_record : PublishedRecord → Bool
is_stale_record r = not (is_invalid_record r) && not (r.external_dns_state == state_observed)

abbrev pub count : (PublishedRecord → Bool) → List PublishedRecord → ℕ
count p [] = 0
count p (r ∷ records) = (if p r then 1 else 0) + count p records

count_all :
    (records : List PublishedRecord)
    → count is_observed_record records
        + count is_stale_record records
        + count is_invalid_record records
      ≡ length records
count_all [] = omega arith
count_all (r ∷ records) = ground (arith, count_all records)

record_state_lem :
    (r : PublishedRecord)
    → ((record_state r == state_invalid) ≡ is_invalid_record r)
      × ((record_state r == state_observed) ≡ is_observed_record r)
unfolding record_state
record_state_lem r = elim (Bool-cases (is_invalid_record r)) [
  | inl bad ↦ rw (bad, record_state) (refl, refl)
  | inr good ↦ elim (Bool-cases (r.external_dns_state == state_observed)) [
    | inl seen ↦ rw (good, record_state) (rw seen (refl, refl))
    | inr late ↦ rw (good, record_state) (rw late (refl, refl))
  ]
]

counted : (b : Bool) (n : ℕ) → b ≡ true → suc n ≡ (if b then 1 else 0) + n
counted b n h = rw h (omega arith)

kept : (b : Bool) (n : ℕ) → b ≡ false → n ≡ (if b then 1 else 0) + n
kept b n h = rw h (omega arith)

module _ (answers : Answers) where
  tally_record_sum :
      (r : PublishedRecord) (t : Tally answers)
      → let t' = tally_record answers r t in
        (t'.seen ≡ suc t.seen)
        × (t'.pending ≡ t.pending + length r.retiring)
        × (t'.observed ≡ (if is_observed_record r then 1 else 0) + t.observed)
        × (t'.stale ≡ (if is_stale_record r then 1 else 0) + t.stale)
        × (t'.invalid ≡ (if is_invalid_record r then 1 else 0) + t.invalid)
        × (t'.endpoints ≡ set_insert (dns_endpoint_key answers r) t.endpoints)
        × (t'.sources ≡ set_insert (source_key_of answers r) t.sources)
  unfolding tally_record
  tally_record_sum r t =
      let (same_invalid, same_observed) = record_state_lem r in
      elim (Bool-cases (record_state r == state_invalid)) [
        | inl bad ↦
            let yes : is_invalid_record r ≡ true = sym same_invalid ∙ bad in
            rw (bad, tally_record)
              (
                refl,
                refl,
                kept (is_observed_record r) t.observed (ground (arith, yes)),
                kept (is_stale_record r) t.stale (ground (arith, yes)),
                counted (is_invalid_record r) t.invalid yes,
                refl,
                refl,
              )
        | inr other ↦
            let no : is_invalid_record r ≡ false = sym same_invalid ∙ other in
            elim (Bool-cases (record_state r == state_observed)) [
              | inl seen ↦
                  let yes : is_observed_record r ≡ true = sym same_observed ∙ seen in
                  rw (other, tally_record)
                    (rw seen (
                      refl,
                      refl,
                      counted (is_observed_record r) t.observed yes,
                      kept (is_stale_record r) t.stale (ground (arith, no, yes)),
                      kept (is_invalid_record r) t.invalid no,
                      refl,
                      refl,
                    ))
              | inr late ↦
                  let never : is_observed_record r ≡ false = sym same_observed ∙ late in
                  rw (other, tally_record)
                    (rw late (
                      refl,
                      refl,
                      kept (is_observed_record r) t.observed never,
                      counted (is_stale_record r) t.stale (ground (arith, no, never)),
                      kept (is_invalid_record r) t.invalid no,
                      refl,
                      refl,
                    ))
            ]
      ]

  abbrev pub all_retiring : List PublishedRecord → ℕ
  all_retiring [] = 0
  all_retiring (r ∷ records) = length r.retiring + all_retiring records

  -- What the counters hold after some more records.
  abbrev IsTallied : List PublishedRecord → Tally answers → Tally answers → Type 0
  IsTallied records t t' =
      (t'.seen ≡ length records + t.seen)
      × (t'.pending ≡ t.pending + all_retiring records)
      × (t'.observed ≡ count is_observed_record records + t.observed)
      × (t'.stale ≡ count is_stale_record records + t.stale)
      × (t'.invalid ≡ count is_invalid_record records + t.invalid)
      × (Distinct t.endpoints → Distinct t'.endpoints)
      × (Distinct t.sources → Distinct t'.sources)
      × ((key : Text)
          → contains t'.endpoints key
            ≡ (contains (map (dns_endpoint_key answers) records) key || contains t.endpoints key))
      × ((key : Text)
          → contains t'.sources key
            ≡ (contains (map (source_key_of answers) records) key || contains t.sources key))

  tally_records-IsTallied :
      (records : List PublishedRecord) (t : Tally answers)
      → IsTallied records t (tally_records answers records t)
  unfolding tally_records
  tally_records-IsTallied [] t = (
    omega arith,
    omega arith,
    omega arith,
    omega arith,
    omega arith,
    λ d. d,
    λ d. d,
    λ key. refl,
    λ key. refl,
  )
  tally_records-IsTallied (r ∷ records) t =
      let (seen, pending, observed, stale, invalid, endpoints, sources) = tally_record_sum r t in
      let (all_seen, all_pending, all_observed, all_stale, all_invalid, d1, d2, m1, m2) =
        tally_records-IsTallied records (tally_record answers r t) in
      (
        omega (arith, seen, all_seen),
        omega (arith, pending, all_pending),
        omega (arith, observed, all_observed),
        omega (arith, stale, all_stale),
        omega (arith, invalid, all_invalid),
        λ d. d1 (
            subst Distinct (sym endpoints)
              (set_insert-Distinct (dns_endpoint_key answers r) t.endpoints d)),
        λ d. d2 (
            subst Distinct (sym sources)
              (set_insert-Distinct (source_key_of answers r) t.sources d)),
        λ key. ground (
          arith,
          m1 key,
          endpoints,
          contains-set_insert (dns_endpoint_key answers r) t.endpoints key,
        ),
        λ key.
            ground
              (arith, m2 key, sources, contains-set_insert (source_key_of answers r) t.sources key),
      )

  -- The summary counts every record. It counts those as invalid whose lifecycle cannot be read or that
  -- are marked invalid, of the others those as observed that ExternalDNS has observed, and the rest as
  -- stale, so that each record is counted as one of the three. It counts all pending targets,
  -- and each DNSEndpoint and each source once, however many records they have.
  pub tally_records_lem :
      (records : List PublishedRecord)
      → let t = tally_records answers records (no_tally answers) in
        (t.seen ≡ length records)
        × (t.observed ≡ count is_observed_record records)
        × (t.stale ≡ count is_stale_record records)
        × (t.invalid ≡ count is_invalid_record records)
        × (t.observed + t.stale + t.invalid ≡ length records)
        × (t.pending ≡ all_retiring records)
        × Distinct t.endpoints
        × ((key : Text)
            → contains t.endpoints key ≡ contains (map (dns_endpoint_key answers) records) key)
        × Distinct t.sources
        × ((key : Text)
            → contains t.sources key ≡ contains (map (source_key_of answers) records) key)
  tally_records_lem records =
      let (seen, pending, observed, stale, invalid, d1, d2, m1, m2) =
        tally_records-IsTallied records (no_tally answers) in
      (
        omega (arith, seen),
        omega (arith, observed),
        omega (arith, stale),
        omega (arith, invalid),
        omega (arith, observed, stale, invalid, count_all records),
        omega (arith, pending),
        d1 tt,
        λ key. ground (arith, m1 key),
        d2 tt,
        λ key. ground (arith, m2 key),
      )
