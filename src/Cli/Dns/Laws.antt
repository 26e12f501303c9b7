-- ===== src/Cli/Dns/Laws.antt =====
-- When a live lookup counts as a match.
use labdns.Base.{
  ◌≡◌, refl, sym, ap, ◌∙◌, ◌↔◌, some, List, Text, contains, sort_texts, arith, Bool-cases,
  Option-cases, inl, inr, ◌==◌, ==_iff, list_eq, nat_eq, nat_beq,
}
use labdns.Base.Results.{ok, Result-cases}
use labdns.Dnsendpoint.Endpoints.{compact}
use labdns.Dnsendpoint.Endpoints.Compact.{compact_unique, contains-compact-sort_texts}
use labdns.Cli.Model.{state_match}
use labdns.Cli.Dns.{
  Net, Response, QueryType, dns_server_address, query_type, ask, addresses, judge, lookup_dns,
}

module _ (net : Net) (server : Text) (expected : List Text) where
  -- The server answered without an error, with exactly the expected addresses.
  abbrev pub IsMatch : QueryType → Response → Type 0
  IsMatch type response =
      (response.rcode ≡ 0)
      × ((a : Text) → contains (addresses net type response.answers) a ≡ contains expected a)

  judge-IsMatch :
      (type : QueryType) (response : Response)
      → ((judge net server type expected response).state ≡ state_match) ↔ IsMatch type response
  unfolding judge
  judge-IsMatch type response = elim (Bool-cases (nat_beq response.rcode 3)) [
    | inl absent ↦
        rw (absent, judge)
          (λ h. absurd (ground (arith, h)), λ good. absurd (ground (arith, good.0, absent)))
    | inr known ↦ elim (Bool-cases (nat_beq response.rcode 0)) [
      | inr refused ↦
          rw (known, judge)
            (rw refused
              (λ h. absurd (ground (arith, h)), λ good. absurd (ground (arith, good.0, refused))))
      | inl answered ↦
          let found = addresses net type response.answers in
          elim (Bool-cases (compact (sort_texts found) == compact (sort_texts expected))) [
            | inl same ↦
                rw (known, judge)
                  (rw answered (
                    rw same (
                      λ h. (
                        ground (arith, answered),
                        λ a.
                            sym (contains-compact-sort_texts found a)
                            ∙ ap (λ xs. contains xs a)
                                ((==_iff (compact (sort_texts found))
                                    (compact (sort_texts expected))).0
                                  same)
                            ∙ contains-compact-sort_texts expected a,
                      ),
                      λ good. refl,
                    )))
            | inr other ↦
                rw (known, judge)
                  (rw answered (
                    rw other (
                      λ h. absurd (ground (arith, h)),
                      λ good. absurd (
                          ground (
                            arith,
                            other,
                            ==_iff (compact (sort_texts found)) (compact (sort_texts expected)),
                            compact_unique found expected good.1,
                          )),
                    )))
          ]
    ]
  ]

  abbrev pub FindsMatch : Text → Text → Type 0
  FindsMatch name record_type =
      (address : Text) × (type : QueryType) × (response : Response) × (dns_server_address net server
        ≡ ok address)
      × (query_type net record_type ≡ some type)
      × (ask net (net.fqdn name) type address ≡ ok response)
      × IsMatch type response

  found_match :
      (name record_type : Text)
      → (lookup_dns net server name record_type expected).state ≡ state_match
      → FindsMatch name record_type
  unfolding lookup_dns
  found_match name record_type = elim (Result-cases (dns_server_address net server)) [
    | inr (e, bad) ↦ rw (bad, lookup_dns) (λ h. absurd (ground (arith, h)))
    | inl (address, e1) ↦ elim (Option-cases (query_type net record_type)) [
      | inl none_such ↦ rw (e1, lookup_dns) (rw none_such (λ h. absurd (ground (arith, h))))
      | inr (type, e2) ↦ elim (Result-cases (ask net (net.fqdn name) type address)) [
        | inr (e, bad) ↦ rw (e1, lookup_dns) (rw e2 (rw bad (λ h. absurd (ground (arith, h)))))
        | inl (response, e3) ↦
            rw (e1, lookup_dns)
              (rw e2 (
                rw e3 (λ h.
                  (address, type, response, refl, refl, e3, (judge-IsMatch type response).0 h))))
      ]
    ]
  ]

  -- A lookup says "match" exactly if the address of the server is valid, the record type is A or AAAA,
  -- the server answers without an error, and the addresses of that type that it gives are the
  -- expected ones as a set: order and repetitions do not count.
  pub lookup_dns_lem :
      (name record_type : Text)
      → ((lookup_dns net server name record_type expected).state ≡ state_match)
        ↔ FindsMatch name record_type
  unfolding lookup_dns
  lookup_dns_lem name record_type = (
    found_match name record_type,
    λ (address, type, response, e1, e2, e3, good).
        rw (e1, lookup_dns) (rw e2 (rw e3 ((judge-IsMatch type response).1 good))),
  )
