-- ===== src/Dnsendpoint/Lifecycle/Laws.antt =====
-- What an accepted lifecycle annotation guarantees, and that a written one is accepted.
use labdns.Base.{
  ℕ, ◌≡◌, refl, sym, true, false, some, List, [], ◌∷◌, Text, pos, arith, list_eq, nat_eq, pair_eq,
  contains, Distinct, sort_by, pair_ord, text_ord, Ascending, All, sort_by-Ascending, sort_by-All,
  sort_by-Distinct, sort_by_of_Ascending, map, Option-cases, list_beq_iff, ==_refl, ==_iff, subst,
  pair_beq_iff, inl, inr,
}
use labdns.Base.Results.{ok}
use labdns.Platform.{
  PendingTarget, Lifecycle, Trailing, eof, another_value, malformed_rest, Platform,
}
use labdns.Platform
use labdns.Dnsendpoint.Lifecycle.{
  TargetKey, pending_key, sort_pending, check_deadline, check_pending, parse_lifecycle,
  marshal_lifecycle, has_empty_field,
}

module _ (p : Platform.Platform) where
  -- The deadline is the canonical form of an instant.
  abbrev pub IsStamp : Text → Type 0
  IsStamp d = (t : ℕ) × (p.parse_time d ≡ some (t, pos 0)) × (p.format_time t ≡ d)

  abbrev pub IsCanonical : PendingTarget → Type 0
  IsCanonical item = (has_empty_field p item ≡ false) × IsStamp item.deadline

  -- Canonical entries, and no target twice.
  pub record IsWellFormed (items : List PendingTarget) : Type 0 where
    pub canonical : All IsCanonical items
    pub distinct : Distinct (map pending_key items)

  IsStamp-of_check : (d : Text) → check_deadline p d ≡ ok tt → IsStamp d
  unfolding check_deadline
  IsStamp-of_check d h = elim (Option-cases (p.parse_time d)) [
    | inl e ↦ ground arith
    | inr ((t, o), e) ↦ (t, ground arith, ground (arith, list_beq_iff (p.format_time t) d))
  ]

  check_of_IsStamp : (d : Text) → IsStamp d → check_deadline p d ≡ ok tt
  unfolding check_deadline
  check_of_IsStamp d (t, e, f) = ground (arith, list_beq_iff (p.format_time t) d)

  -- The tests that one round of the loop passes.
  abbrev Passes : List TargetKey → PendingTarget → List PendingTarget → Type 0
  Passes seen item items =
      (has_empty_field p item ≡ false)
      × (check_deadline p item.deadline ≡ ok tt)
      × (contains seen (pending_key item) ≡ false)
      × (check_pending p (pending_key item ∷ seen) items ≡ ok tt)

  Passes-of_check :
      (seen : List TargetKey) (item : PendingTarget) (items : List PendingTarget)
      → check_pending p seen (item ∷ items) ≡ ok tt
      → Passes seen item items
  unfolding check_pending
  Passes-of_check seen item items h = ground arith

  check_of_Passes :
      (seen : List TargetKey) (item : PendingTarget) (items : List PendingTarget)
      → Passes seen item items
      → check_pending p seen (item ∷ items) ≡ ok tt
  unfolding check_pending
  check_of_Passes seen item items h = ground arith

  check_pending-canonical :
      (seen : List TargetKey) (items : List PendingTarget)
      → check_pending p seen items ≡ ok tt
      → All IsCanonical items
  check_pending-canonical seen [] h = tt
  check_pending-canonical seen (item ∷ items) h =
      let (named, stamped, new, rest) = Passes-of_check seen item items h in
      (
        (named, IsStamp-of_check item.deadline stamped),
        check_pending-canonical (pending_key item ∷ seen) items rest,
      )

  check_pending-unseen :
      (seen : List TargetKey) (items : List PendingTarget) (k : TargetKey)
      → check_pending p seen items ≡ ok tt
      → contains seen k ≡ true
      → contains (map pending_key items) k ≡ false
  check_pending-unseen seen [] k h c = refl
  check_pending-unseen seen (item ∷ items) k h c =
      let (named, stamped, new, rest) = Passes-of_check seen item items h in
      ground (
        arith,
        check_pending-unseen (pending_key item ∷ seen) items k rest,
        pair_beq_iff k (pending_key item),
      )

  check_pending-Distinct :
      (seen : List TargetKey) (items : List PendingTarget)
      → check_pending p seen items ≡ ok tt
      → Distinct (map pending_key items)
  check_pending-Distinct seen [] h = tt
  check_pending-Distinct seen (item ∷ items) h =
      let (named, stamped, new, rest) = Passes-of_check seen item items h in
      (
        check_pending-unseen (pending_key item ∷ seen) items (pending_key item) rest
            (ground (arith, pair_beq_iff (pending_key item) (pending_key item))),
        check_pending-Distinct (pending_key item ∷ seen) items rest,
      )

  -- The other way round.
  check_pending_complete :
      (seen : List TargetKey) (items : List PendingTarget)
      → All IsCanonical items
      → Distinct (map pending_key items)
      → ((k : TargetKey) → contains (map pending_key items) k ≡ true → contains seen k ≡ false)
      → check_pending p seen items ≡ ok tt
  unfolding check_pending
  check_pending_complete seen [] c d u = refl
  check_pending_complete seen (item ∷ items) c d u = check_of_Passes seen item items (
    c.0.0,
    check_of_IsStamp item.deadline c.0.1,
    u (pending_key item) (ground (arith, ==_refl (pending_key item))),
    check_pending_complete (pending_key item ∷ seen) items c.1 d.1
        λ k m. ground (arith, u k, ==_iff k (pending_key item), d.0),
  )

  IsWellFormed-sort :
      (items : List PendingTarget) → IsWellFormed items → IsWellFormed (sort_pending items)
  unfolding sort_pending
  IsWellFormed-sort items w = record {
    canonical = sort_by-All pending_key IsCanonical items w.canonical;
    distinct = sort_by-Distinct pending_key items w.distinct;
  }

  sort_pending-Ascending :
      (items : List PendingTarget)
      → Distinct (map pending_key items)
      → Ascending pending_key (sort_pending items)
  unfolding sort_pending
  sort_pending-Ascending items d = sort_by-Ascending pending_key items d

  sort_pending_again :
      (items : List PendingTarget)
      → Distinct (map pending_key items)
      → sort_pending (sort_pending items) ≡ sort_pending items
  unfolding sort_pending
  sort_pending_again items d =
      sort_by_of_Ascending pending_key (sort_by pending_key items)
        (sort_by-Ascending pending_key items d)

  -- An accepted annotation has version 1, canonical entries, no target twice, and its entries come
  -- back in ascending order of name, type and target.
  pub parse_lifecycle-IsWellFormed :
      (value : Text) (s : Lifecycle)
      → parse_lifecycle p value ≡ ok s
      → (s.version ≡ pos 1) × IsWellFormed s.pending × Ascending pending_key s.pending
  unfolding parse_lifecycle
  parse_lifecycle-IsWellFormed value s h = elim (Option-cases (p.decode value)) [
    | inl e ↦ absurd (ground arith)
    | inr ((state, rest), e) ↦
        let checked : check_pending p [] state.pending ≡ ok tt = ground arith in
        let wellformed : IsWellFormed state.pending = record {
          canonical = check_pending-canonical [] state.pending checked;
          distinct = check_pending-Distinct [] state.pending checked;
        } in
        let sorted : s.pending ≡ sort_pending state.pending = ground arith in
        (
          ground arith,
          subst IsWellFormed (sym sorted) (IsWellFormed-sort state.pending wellformed),
          subst (Ascending pending_key) (sym sorted)
              (sort_pending-Ascending state.pending wellformed.distinct),
        )
  ]

  -- What is written of canonical entries without a repeated target is accepted again, and read back
  -- with its entries in order, on a platform that satisfies its laws.
  pub parse_lifecycle-marshal_lifecycle :
      (s : Lifecycle)
      → Platform.Laws p
      → IsWellFormed s.pending
      → parse_lifecycle p (marshal_lifecycle p s)
        ≡ ok (record { version = pos 1; pending = sort_pending s.pending })
  unfolding parse_lifecycle marshal_lifecycle
  parse_lifecycle-marshal_lifecycle s laws w =
      let sorted = IsWellFormed-sort s.pending w in
      let written : Lifecycle = record { version = pos 1; pending = sort_pending s.pending } in
      ground (
        arith,
        laws.encode-nonempty written,
        laws.decode-encode written,
        check_pending_complete [] (sort_pending s.pending) sorted.canonical sorted.distinct
            (λ k m. refl),
        sort_pending_again s.pending w.distinct,
      )
