-- ===== src/Controller/Retirement/Laws.antt =====
-- When a generated object is retired, and when its deadlines are looked at.
use labdns.Base.{
  ℕ, ◌≡◌, refl, sym, ◌∙◌, subst, ap, ◌⊎◌, inl, inr, Bool, true, false, ◌&&◌, not, Option, none,
  some, Text, arith, ◌==◌, list_eq, nat_eq, ==_iff, Bool-cases, Option-cases, if◌then◌else◌,
}
use labdns.Base.Results.{Result, ok, err, Result-cases}
use labdns.Platform.{Platform}
use labdns.Source.Types.{Identity}
use labdns.Source.Resolver.{ReadError, missing, failed}
use labdns.Dnsendpoint.Lifecycle.{pending_target_count}
use labdns.Dnsendpoint.Object.{
  Object, value_at, managed_by_label, managed_by_value, source_kind_annotation,
  lifecycle_annotation,
}
use labdns.Controller.Sources.{Outcome, done, retried}
use labdns.Controller.Retirement.{
  LifecycleWorld, LifecycleRound, rests, is_gateway_route, api_version_of, stored_identity,
  is_consistent, advance_step, retire_first, follow_source, follow_object, reconcile_object,
  reconcile_endpoint,
}

module _ (p : Platform) (world : LifecycleWorld) (namespace name : Text) where
  -- The source is not there, or it is a route and routes are not watched.
  abbrev pub IsGone : Identity → Type 0
  IsGone identity =
      (is_gateway_route identity.kind && not world.gateway_enabled ≡ true)
      ⊎ (world.get_source identity.kind identity.namespace identity.name ≡ err missing)

  abbrev pub IsAlive : Identity → Type 0
  IsAlive identity =
      world.get_source identity.kind identity.namespace identity.name ≡ ok identity.uid

  -- What is retired is gone, and what is advanced was retired in this round or is alive, with the UID
  -- that the object stores.
  abbrev pub IsCareful : Identity → LifecycleRound → Type 0
  IsCareful identity round =
      ((i : Identity) → round.retired ≡ some i → (i ≡ identity) × IsGone identity)
      × (round.advanced ≡ true → IsGone identity ⊎ IsAlive identity)

  rests-IsCareful :
      (identity : Identity) (outcome : Outcome) (counted : Option (Bool × ℕ))
      → IsCareful identity (rests outcome counted)
  rests-IsCareful identity outcome counted = (λ i h. ground (arith, h), λ h. ground (arith, h))

  advance_step-IsCareful :
      (identity : Identity) (retired : Option Identity) (pending : ℕ)
      → ((i : Identity) → retired ≡ some i → (i ≡ identity) × IsGone identity)
      → IsGone identity ⊎ IsAlive identity
      → IsCareful identity (advance_step p world namespace name retired pending)
  unfolding advance_step
  advance_step-IsCareful identity retired pending r a =
      elim (Result-cases (world.advance_object namespace name)) [
        | inl (wait, h) ↦ rw (h, advance_step) (r, λ _. a)
        | inr (e, h) ↦ rw (h, advance_step) (r, λ _. a)
      ]

  only_itself :
      (identity i : Identity) → Path (Option Identity) (some identity) (some i) → i ≡ identity
  only_itself identity i h = ground (arith, h)

  retire_first-IsCareful :
      (identity : Identity) (pending : ℕ)
      → IsGone identity
      → IsCareful identity (retire_first p world namespace name identity pending)
  unfolding retire_first
  retire_first-IsCareful identity pending gone =
      elim (Result-cases (world.retire_source identity)) [
        | inl (a, h) ↦
            rw (h, retire_first)
              (advance_step-IsCareful identity (some identity) pending
                (λ i e. (only_itself identity i e, gone)) (inl gone))
        | inr (e, h) ↦
            rw (h, retire_first) (λ i f. (only_itself identity i f, gone), λ f. ground (arith, f))
      ]

  follow_source_off :
      (identity : Identity) (pending : ℕ)
      → is_gateway_route identity.kind && not world.gateway_enabled ≡ true
      → follow_source p world namespace name identity pending
        ≡ retire_first p world namespace name identity pending
  unfolding follow_source
  follow_source_off identity pending off = rw (off, follow_source) refl

  follow_source_read :
      (identity : Identity) (pending : ℕ) (answer : Result ReadError Text)
      → is_gateway_route identity.kind && not world.gateway_enabled ≡ false
      → world.get_source identity.kind identity.namespace identity.name ≡ answer
      → follow_source p world namespace name identity pending ≡ elim answer [
        | err missing ↦ retire_first p world namespace name identity pending
        | err failed ↦ rests retried (some (true, pending))
        | ok uid ↦
            if uid == identity.uid
            then advance_step p world namespace name none pending
            else rests done (some (true, pending))
      ]
  unfolding follow_source
  follow_source_read identity pending answer on h = rw (on, follow_source) (rw h refl)

  same_source :
      (identity : Identity) (pending : ℕ) (uid : Text)
      → world.get_source identity.kind identity.namespace identity.name ≡ ok uid
      → IsCareful identity (
          if uid == identity.uid
          then advance_step p world namespace name none pending
          else rests done (some (true, pending)))
  same_source identity pending uid h = elim (Bool-cases (uid == identity.uid)) [
    | inl same ↦ rw same (
        advance_step-IsCareful identity none pending (λ i e. ground (arith, e))
          (inr (h ∙ ap ok ((==_iff uid identity.uid).0 same))))
    | inr other ↦ rw other (rests-IsCareful identity done (some (true, pending)))
  ]

  follow_source-IsCareful :
      (identity : Identity) (pending : ℕ)
      → IsCareful identity (follow_source p world namespace name identity pending)
  follow_source-IsCareful identity pending =
      elim (Bool-cases (is_gateway_route identity.kind && not world.gateway_enabled)) [
        | inl off ↦
            subst (IsCareful identity) (sym (follow_source_off identity pending off))
              (retire_first-IsCareful identity pending (inl off))
        | inr on ↦
            elim (Result-cases (world.get_source identity.kind identity.namespace identity.name)) [
              | inr (missing, h) ↦
                  subst (IsCareful identity)
                    (sym (follow_source_read identity pending (err missing) on h))
                    (retire_first-IsCareful identity pending (inr h))
              | inr (failed, h) ↦
                  subst (IsCareful identity)
                    (sym (follow_source_read identity pending (err failed) on h))
                    (rests-IsCareful identity retried (some (true, pending)))
              | inl (uid, h) ↦
                  subst (IsCareful identity)
                    (sym (follow_source_read identity pending (ok uid) on h))
                    (same_source identity pending uid h)
            ]
      ]

  -- The object that a round acts on: managed, with the identity that its labels and its name prove.
  abbrev pub IsOwnObject : Identity → Type 0
  IsOwnObject identity =
      (o : Object) × (version : Text) × (world.get_object namespace name ≡ ok o)
      × ((value_at managed_by_label o.labels == managed_by_value) ≡ true)
      × (identity ≡ stored_identity version o)
      × (is_consistent p identity o ≡ true)

  abbrev pub IsIdle : LifecycleRound → Type 0
  IsIdle round = (round.retired ≡ none) × (round.advanced ≡ false)

  -- A round changes nothing, or it acts on the object's own identity with care.
  abbrev pub IsSafe : LifecycleRound → Type 0
  IsSafe round =
      IsIdle round ⊎ ((identity : Identity) × IsOwnObject identity × IsCareful identity round)

  follow_object-IsSafe :
      (o : Object) (pending : ℕ)
      → world.get_object namespace name ≡ ok o
      → (value_at managed_by_label o.labels == managed_by_value) ≡ true
      → IsSafe (follow_object p world namespace name o pending)
  unfolding follow_object
  follow_object-IsSafe o pending found managed =
      elim (Option-cases (api_version_of (value_at source_kind_annotation o.annotations))) [
        | inl h ↦ rw (h, follow_object) (inl (refl, refl))
        | inr (version, h) ↦ elim (Bool-cases (is_consistent p (stored_identity version o) o)) [
          | inl c ↦
              rw (h, follow_object)
                (rw c (
                  inr (
                    stored_identity version o,
                    (o, version, found, managed, refl, c),
                    follow_source-IsCareful (stored_identity version o) pending,
                  )))
          | inr c ↦ rw (h, follow_object) (rw c (inl (refl, refl)))
        ]
      ]

  reconcile_object-IsSafe :
      (o : Object)
      → world.get_object namespace name ≡ ok o
      → IsSafe (reconcile_object p world namespace name o)
  unfolding reconcile_object
  reconcile_object-IsSafe o found =
      elim (Bool-cases (value_at managed_by_label o.labels == managed_by_value)) [
        | inr foreign ↦ rw (foreign, reconcile_object) (inl (refl, refl))
        | inl managed ↦
            elim (Result-cases
              (pending_target_count p (value_at lifecycle_annotation o.annotations))) [
                | inr (e, h) ↦ rw (managed, reconcile_object) (rw h (inl (refl, refl)))
                | inl (pending, h) ↦
                    rw (managed, reconcile_object)
                      (rw h (follow_object-IsSafe o pending found managed))
              ]
      ]

  reconcile_endpoint_found :
      (o : Object)
      → world.get_object namespace name ≡ ok o
      → reconcile_endpoint p world namespace name ≡ reconcile_object p world namespace name o
  unfolding reconcile_endpoint
  reconcile_endpoint_found o h = rw (h, reconcile_endpoint) refl

  -- A reconciliation of a generated object changes nothing, or the object is managed and its labels and
  -- name agree with the identity that its annotations store; then it retires only that source, and only
  -- if the source is gone or is a route while routes are not watched, and it looks at deadlines only in
  -- that case or if the source is there with the stored UID.
  pub reconcile_endpoint-IsSafe : IsSafe (reconcile_endpoint p world namespace name)
  unfolding reconcile_endpoint
  reconcile_endpoint-IsSafe = elim (Result-cases (world.get_object namespace name)) [
    | inl (o, h) ↦ subst IsSafe (sym (reconcile_endpoint_found o h)) (reconcile_object-IsSafe o h)
    | inr (missing, h) ↦ rw (h, reconcile_endpoint) (inl (refl, refl))
    | inr (failed, h) ↦ rw (h, reconcile_endpoint) (inl (refl, refl))
  ]
