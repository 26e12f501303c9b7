-- ===== src/Cli/Health/Laws.antt =====
-- When the installation is reported as healthy.
use labdns.Base.{
  ◌≡◌, refl, sym, subst, ap, ◌∙◌, Bool, true, false, not, ◌&&◌, ◌||◌, List, [], ◌∷◌, ◌++◌, Text,
  all, any, arith, Bool-cases, inl, inr, if◌then◌else◌, ◌==◌, ==_iff, list_eq, nat_eq, codes,
}
use labdns.Base.Results.{Result, ok, err, Result-cases}
use labdns.Cli.Model.{ControllerStatus, PublishedRecord, state_invalid, state_observed}
use labdns.Cli.Records.{record_state}
use labdns.Cli.Health.{
  Answers, resource_available, Report, check_requirement, check_requirements, check_gateway,
  check_controller, check_each, check_controllers, count_providers, count_records, status, start,
  failed_check, is_short, gateway_resources, dns_provider_version, dns_endpoint_version, Tally,
  no_tally, tally_record, tally_records, is_stale, healthy, degraded, unhealthy, fails,
}

module _ (answers : Answers) where
  abbrev is_unserved : Text × Text → Bool
  is_unserved requirement = failed_check (resource_available answers requirement.0 requirement.1)

  -- A controller that lacks replicas, or the Gateway API that it was told to use.
  abbrev pub is_failing : ControllerStatus → Bool
  is_failing c =
      is_short answers c || (c.gateway_api && any is_unserved (gateway_resources answers))

  abbrev pub controllers_fail : Result Text (List ControllerStatus) → Bool
  controllers_fail (err e) = true
  controllers_fail (ok []) = true
  controllers_fail (ok (c ∷ controllers)) = any is_failing (c ∷ controllers)

  abbrev pub is_error {ℓ} : {A : Type ℓ} → Result Text A → Bool
  is_error (err e) = true
  is_error (ok a) = false

  -- Some part of the installation is missing or could not be read.
  abbrev pub is_broken : Bool
  is_broken =
      is_unserved (dns_provider_version, codes "dnsproviders")
      || is_unserved (dns_endpoint_version, codes "dnsendpoints")
      || controllers_fail answers.controllers
      || is_error answers.providers
      || is_error answers.records

  check_gateway_lem :
      (requirements : List (Text × Text)) (r : Report)
      → ((check_gateway answers requirements r).hard_failure
          ≡ (r.hard_failure || any is_unserved requirements))
        × ((check_gateway answers requirements r).result.overall ≡ r.result.overall)
  unfolding check_gateway
  check_gateway_lem [] r = (ground arith, refl)
  check_gateway_lem ((version, resource) ∷ requirements) r =
      elim (Bool-cases (failed_check (resource_available answers version resource))) [
        | inl bad ↦
            rw (bad, check_gateway)
              (let (failure, overall) = check_gateway_lem requirements (
                  fails (codes "Gateway API is enabled but " ++ resource ++ codes " is unavailable")
                    r) in
                (ground (arith, failure), overall))
        | inr good ↦ rw (good, check_gateway) (check_gateway_lem requirements r)
      ]

  check_controller_lem :
      (c : ControllerStatus) (r : Report)
      → ((check_controller answers c r).hard_failure ≡ (r.hard_failure || is_failing c))
        × ((check_controller answers c r).result.overall ≡ r.result.overall)
  unfolding check_controller
  check_controller_lem c r =
      let counted : Report = record r { hard_failure = r.hard_failure || is_short answers c } in
      let (failure, overall) = check_gateway_lem (gateway_resources answers) counted in
      elim (Bool-cases c.gateway_api) [
        | inl on ↦ rw on (ground (arith, failure), overall)
        | inr off ↦ rw off (ground arith, refl)
      ]

  check_each_lem :
      (controllers : List ControllerStatus) (r : Report)
      → ((check_each answers controllers r).hard_failure
          ≡ (r.hard_failure || any is_failing controllers))
        × ((check_each answers controllers r).result.overall ≡ r.result.overall)
  unfolding check_each
  check_each_lem [] r = (ground arith, refl)
  check_each_lem (c ∷ controllers) r =
      let (failure, overall) = check_controller_lem c r in
      let (failures, same) = check_each_lem controllers (check_controller answers c r) in
      (ground (arith, failure, failures), same ∙ overall)

  check_controllers_lem :
      (r : Report)
      → ((check_controllers answers r).hard_failure
          ≡ (r.hard_failure || controllers_fail answers.controllers))
        × ((check_controllers answers r).result.overall ≡ r.result.overall)
  unfolding check_controllers
  check_controllers_lem r = elim (Result-cases answers.controllers) [
    | inr (e, h) ↦ rw (h, check_controllers) (ground arith, refl)
    | inl ([], h) ↦ rw (h, check_controllers) (ground arith, refl)
    | inl (c ∷ controllers, h) ↦
        rw (h, check_controllers)
          (check_each_lem (c ∷ controllers)
            (record r { result = record r.result { controllers = c ∷ controllers } }))
  ]

  count_providers_lem :
      (r : Report)
      → ((count_providers answers r).hard_failure ≡ (r.hard_failure || is_error answers.providers))
        × ((count_providers answers r).result.overall ≡ r.result.overall)
  unfolding count_providers
  count_providers_lem r = elim (Result-cases answers.providers) [
    | inr (e, h) ↦ rw (h, count_providers) (ground arith, refl)
    | inl (n, h) ↦ rw (h, count_providers) (ground arith, refl)
  ]

  check_requirements_lem :
      (r : Report)
      → ((check_requirements answers r).hard_failure ≡ (
          r.hard_failure
          || is_unserved (dns_provider_version, codes "dnsproviders")
          || is_unserved (dns_endpoint_version, codes "dnsendpoints")))
        × ((check_requirements answers r).result.overall ≡ r.result.overall)
  unfolding check_requirements check_requirement
  check_requirements_lem r = (ground arith, refl)

  abbrev pub is_observed : PublishedRecord → Bool
  is_observed r = record_state r == state_observed

  not_both : (state : Text) → (state == state_invalid) ≡ true → (state == state_observed) ≡ false
  not_both state h = elim (Bool-cases (state == state_observed)) [
    | inr other ↦ other
    | inl same ↦
        let clash : state_invalid ≡ state_observed =
          sym ((==_iff state state_invalid).0 h) ∙ (==_iff state state_observed).0 same in
        absurd (ground (arith, clash))
  ]

  tally_record-is_stale :
      (r : PublishedRecord) (t : Tally answers)
      → is_stale answers (tally_record answers r t) ≡ (is_stale answers t || not (is_observed r))
  unfolding tally_record
  tally_record-is_stale r t = elim (Bool-cases (record_state r == state_invalid)) [
    | inl bad ↦ rw (bad, tally_record) (rw (not_both (record_state r) bad) (ground arith))
    | inr other ↦ elim (Bool-cases (record_state r == state_observed)) [
      | inl seen ↦ rw (other, tally_record) (rw seen (ground arith))
      | inr late ↦ rw (other, tally_record) (rw late (ground arith))
    ]
  ]

  tally_records-is_stale :
      (records : List PublishedRecord) (t : Tally answers)
      → is_stale answers (tally_records answers records t)
        ≡ (is_stale answers t || not (all is_observed records))
  unfolding tally_records
  tally_records-is_stale [] t = ground arith
  tally_records-is_stale (r ∷ records) t =
      ground (
        arith,
        tally_records-is_stale records (tally_record answers r t),
        tally_record-is_stale r t,
      )

  -- Whether a record is stale or invalid, where the records could be read.
  abbrev pub has_stale : Result Text (List PublishedRecord) → Bool
  has_stale (err e) = false
  has_stale (ok records) = not (all is_observed records)

  count_records_lem :
      (r : Report)
      → ((count_records answers r).hard_failure ≡ (r.hard_failure || is_error answers.records))
        × ((count_records answers r).result.overall
            ≡ (if has_stale answers.records then degraded else r.result.overall))
  unfolding count_records
  count_records_lem r = elim (Result-cases answers.records) [
    | inr (e, h) ↦ rw (h, count_records) (ground arith, refl)
    | inl (records, h) ↦
        let stale = tally_records-is_stale records (no_tally answers) in
        elim (Bool-cases (is_stale answers (tally_records answers records (no_tally answers)))) [
          | inl late ↦ rw (h, count_records) (rw late (ground arith, rw (sym stale ∙ late) refl))
          | inr fresh ↦ rw (h, count_records) (rw fresh (ground arith, rw (sym stale ∙ fresh) refl))
        ]
  ]

  -- The status is "unhealthy", and the command fails, exactly if one of the two APIs is not served, no
  -- controller is found, one lacks replicas or the Gateway API that it was told to use, or a read
  -- fails. Otherwise it is "degraded" if a record is stale or invalid, and else "healthy".
  pub status_lem :
      ((status answers).1 ≡ is_broken)
      × ((status answers).0.overall ≡ (
          if is_broken then unhealthy else if has_stale answers.records then degraded else healthy))
  unfolding status
  status_lem =
      let r1 = check_requirements answers start in
      let r2 = check_controllers answers r1 in
      let r3 = count_providers answers r2 in
      let r4 = count_records answers r3 in
      let (f1, o1) = check_requirements_lem start in
      let (f2, o2) = check_controllers_lem r1 in
      let (f3, o3) = count_providers_lem r2 in
      let (f4, o4) = count_records_lem r3 in
      let failure : r4.hard_failure ≡ is_broken = ground (arith, f1, f2, f3, f4) in
      let overall : r4.result.overall ≡ (if has_stale answers.records then degraded else healthy) =
        o4 ∙ ap (λ o. if has_stale answers.records then degraded else o) (o3 ∙ o2 ∙ o1) in
      elim (Bool-cases r4.hard_failure) [
        | inl bad ↦ rw bad (
          sym bad ∙ failure,
          subst
              (λ b. unhealthy ≡ (
                if b then unhealthy else if has_stale answers.records then degraded else healthy))
              (sym bad ∙ failure) refl,
        )
        | inr good ↦ rw good (
          sym good ∙ failure,
          subst
              (λ b. r4.result.overall ≡ (
                if b then unhealthy else if has_stale answers.records then degraded else healthy))
              (sym good ∙ failure) overall,
        )
      ]
