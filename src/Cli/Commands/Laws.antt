-- ===== src/Cli/Commands/Laws.antt =====
-- The filters that a command uses after its arguments were accepted.
use labdns.Base.{
  ◌≡◌, refl, subst, ap, true, false, List, [], ◌∷◌, Text, codes, is_empty, contains, arith,
  Bool-cases, inl, inr, ◌⊎◌, list_eq, nat_eq, ==_refl, ==_iff, ◌==◌, ◌↔◌, trim_space,
}
use labdns.Base.Results.{ok, >>=-eq-ok}
use labdns.Cli.Records.{equal_fold}
use labdns.Cli.Commands.{
  FilterOptions, allowed_value, canonical_filter_value, filters, validate, source_kinds,
  record_types, or_nothing,
}

-- What a filter value is after the option was accepted: nothing, or the allowed spelling of what was
-- written, but for case.
abbrev pub IsFilter : Text → List Text → Text → Type 0
IsFilter raw allowed value =
    ((is_empty (trim_space raw) ≡ true) × (value ≡ []))
    ⊎ ((is_empty (trim_space raw) ≡ false)
        × (contains allowed value ≡ true)
        × (equal_fold (trim_space raw) value ≡ true))

allowed_value_lem :
    (value label : Text) (shown allowed : List Text) (found : Text)
    → is_empty label ≡ false
    → allowed_value value label shown allowed ≡ ok found
    → (contains allowed found ≡ true)
      × (equal_fold value found ≡ true)
      × (allowed_value value [] shown allowed ≡ ok found)
unfolding allowed_value
allowed_value_lem value label shown [] found l h = absurd (ground (arith, l, h))
allowed_value_lem value label shown (candidate ∷ allowed) found l h =
    elim (Bool-cases (equal_fold value candidate)) [
      | inl same ↦
          let it : candidate ≡ found = ground (arith, h, same) in
          (
            subst (λ f. contains (candidate ∷ allowed) f ≡ true) it (rw (==_refl candidate) refl),
            subst (λ f. equal_fold value f ≡ true) it same,
            rw same (ap ok it),
          )
      | inr other ↦
          let (member, folded, again) =
            allowed_value_lem value label shown allowed found l (ground (arith, h, other)) in
          (ground (arith, member), folded, rw other again)
    ]

canonical_filter_value_lem :
    (raw label : Text) (allowed : List Text) (value : Text)
    → is_empty label ≡ false
    → canonical_filter_value raw label allowed ≡ ok value
    → IsFilter raw allowed (or_nothing (canonical_filter_value raw [] allowed))
unfolding canonical_filter_value
canonical_filter_value_lem raw label allowed value l h =
    elim (Bool-cases (is_empty (trim_space raw))) [
      | inl empty ↦ rw (empty, canonical_filter_value) (inl (refl, refl))
      | inr full ↦
          let (member, folded, again) =
            allowed_value_lem (trim_space raw) label allowed allowed value l
              (ground (arith, h, full)) in
          rw (full, canonical_filter_value) (rw again (inr (refl, member, folded)))
    ]

allowed_value_found :
    (value label : Text) (shown allowed : List Text) (found : Text)
    → contains allowed found ≡ true
    → equal_fold value found ≡ true
    → (result : Text) × (allowed_value value label shown allowed ≡ ok result)
unfolding allowed_value
allowed_value_found value label shown [] found member folded = absurd (ground (arith, member))
allowed_value_found value label shown (candidate ∷ allowed) found member folded =
    elim (Bool-cases (equal_fold value candidate)) [
      | inl same ↦ rw same (candidate, refl)
      | inr other ↦ rw other (elim (Bool-cases (found == candidate)) [
        | inl it ↦
            let clash : equal_fold value candidate ≡ true =
              subst (λ c. equal_fold value c ≡ true) ((==_iff found candidate).0 it) folded in
            absurd (ground (arith, clash, other))
        | inr later ↦
            allowed_value_found value label shown allowed found
              (ground (arith, member, later, ==_iff found candidate, ==_iff candidate found)) folded
      ])
    ]

IsFilter-canonical_filter_value :
    (raw label : Text) (allowed : List Text) (value : Text)
    → IsFilter raw allowed value
    → (result : Text) × (canonical_filter_value raw label allowed ≡ ok result)
unfolding canonical_filter_value
IsFilter-canonical_filter_value raw label allowed value (inl (empty, none)) = rw empty ([], refl)
IsFilter-canonical_filter_value raw label allowed value (inr (full, member, folded)) =
    rw full (allowed_value_found (trim_space raw) label allowed allowed value member folded)

accepted_filters :
    (o : FilterOptions) (namespace : Text)
    → validate o ≡ ok tt
    → IsFilter o.source_kind source_kinds (filters o namespace).source_kind
      × IsFilter o.record_type record_types (filters o namespace).record_type
unfolding validate filters
accepted_filters o namespace h =
    let (kind, e1, h1) =
      >>=-eq-ok (canonical_filter_value o.source_kind (codes "source kind") source_kinds) _ h in
    let (type, e2, h2) =
      >>=-eq-ok (canonical_filter_value o.record_type (codes "record type") record_types) _ h1 in
    (
      canonical_filter_value_lem o.source_kind (codes "source kind") source_kinds kind refl e1,
      canonical_filter_value_lem o.record_type (codes "record type") record_types type refl e2,
    )

abbrev HasFilters : FilterOptions → Text → Type 0
HasFilters o namespace =
    IsFilter o.source_kind source_kinds (filters o namespace).source_kind
    × IsFilter o.record_type record_types (filters o namespace).record_type

accepts : (o : FilterOptions) (namespace : Text) → HasFilters o namespace → validate o ≡ ok tt
unfolding validate
accepts o namespace (kinds, types) =
    let (kind, e1) =
      IsFilter-canonical_filter_value o.source_kind (codes "source kind") source_kinds _ kinds in
    let (type, e2) =
      IsFilter-canonical_filter_value o.record_type (codes "record type") record_types _ types in
    rw e1 (rw e2 refl)

-- `validate` accepts the options exactly if the source kind and the record type of the filters are
-- empty where the option is blank, and otherwise an allowed name that the option spells but for case;
-- it fails on every other option.
pub filters_lem :
    (o : FilterOptions) (namespace : Text)
    → (validate o ≡ ok tt) ↔ (
        IsFilter o.source_kind source_kinds (filters o namespace).source_kind
        × IsFilter o.record_type record_types (filters o namespace).record_type)
filters_lem o namespace = (accepted_filters o namespace, accepts o namespace)
