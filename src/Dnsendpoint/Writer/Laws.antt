-- ===== src/Dnsendpoint/Writer/Laws.antt =====
-- Which objects an attempt may change, and how.
use labdns.Base.{
  ℕ, ◌≡◌, refl, sym, ◌∙◌, subst, inl, inr, Bool, true, not, Option, none, some, List, ◌||◌, Map,
  Text, is_empty, lookup, insert, lookup-insert, ◌==◌, ==_refl, list_eq, nat_eq, Bool-cases,
}
use labdns.Base.Results.{ok, Result-cases}
use labdns.Platform.{Platform}
use labdns.Source.Types.{Identity, Publication}
use labdns.Dnsendpoint.Naming.{source_key, object_name}
use labdns.Dnsendpoint.Object.{
  Object, value_at, managed_by_label, managed_by_value, provider_label, source_key_label,
  equivalent,
}
use labdns.Dnsendpoint.Endpoints.{Endpoint}
use labdns.Dnsendpoint.Build.{build, assemble, labels_of, start_from, Pending}
use labdns.Dnsendpoint.Build.Refines.Parts.{build-eq-ok}
use labdns.Dnsendpoint.Build.Refines.Stored.{unless_empty-eq-some}
use labdns.Dnsendpoint.Writer.{
  Action, nothing, create, delete, update, fail, is_owned, decide_missing, decide_present,
}

module _ (p : Platform) (identity : Identity) (provider : Text) where
  -- The object carries the labels of the source and the provider.
  abbrev pub Owns : Object → Type 0
  Owns o = is_owned p identity provider o ≡ true

  -- Where the writer may go: the current object is touched only if it is owned; what is written stays
  -- owned, and keeps name, namespace and the version that was read; a new object has the derived name.
  abbrev pub IsAllowedOn : Option Object → Action → Type 0
  IsAllowedOn current nothing = Unit
  IsAllowedOn current (fail e) = Unit
  IsAllowedOn current (create o) =
      (current ≡ none)
      × (o.namespace ≡ identity.namespace)
      × (o.name ≡ object_name p identity provider)
      × Owns o
  IsAllowedOn current (delete o) = (current ≡ some o) × Owns o
  IsAllowedOn current (update o) =
      (old : Object) × (current ≡ some old)
      × Owns old
      × Owns o
      × (o.namespace ≡ old.namespace)
      × (o.name ≡ old.name)
      × (o.resource_version ≡ old.resource_version)

  labels_of-Owns :
      (labels : Map Text Text)
      → ((value_at managed_by_label (labels_of p identity provider labels) == managed_by_value)
          ≡ true)
        × ((value_at source_key_label (labels_of p identity provider labels)
              == source_key p identity)
            ≡ true)
        × ((value_at provider_label (labels_of p identity provider labels) == provider) ≡ true)
  labels_of-Owns labels =
      let one = insert managed_by_label managed_by_value labels in
      let two = insert provider_label provider one in
      let key = source_key p identity in
      let managed : lookup managed_by_label (insert source_key_label key two)
          ≡ some managed_by_value =
        lookup-insert source_key_label key two managed_by_label
        ∙ lookup-insert provider_label provider one managed_by_label
        ∙ lookup-insert managed_by_label managed_by_value labels managed_by_label in
      let keyed : lookup source_key_label (insert source_key_label key two) ≡ some key =
        lookup-insert source_key_label key two source_key_label in
      let provided : lookup provider_label (insert source_key_label key two) ≡ some provider =
        lookup-insert source_key_label key two provider_label
        ∙ lookup-insert provider_label provider one provider_label in
      (rw managed refl, rw keyed (==_refl key), rw provided (==_refl provider))

  assemble-Owns :
      (publication : Publication) (current : Option Object) (publishes : Bool) (pending : Pending)
      (combined : List Endpoint)
      → Owns (assemble p identity provider publication current publishes pending combined)
  unfolding assemble
  assemble-Owns publication current publishes pending combined =
      let (managed, keyed, provided) =
        labels_of-Owns (start_from p identity provider current).labels in
      rw managed (rw keyed (rw provided refl))

  abbrev Keeps : Option Object → Object → Type 0
  Keeps none o = (o.namespace ≡ identity.namespace) × (o.name ≡ object_name p identity provider)
  Keeps (some old) o = (o.namespace ≡ old.namespace) × (o.name ≡ old.name)

  assemble-Keeps :
      (publication : Publication) (current : Option Object) (publishes : Bool) (pending : Pending)
      (combined : List Endpoint)
      → Keeps current (assemble p identity provider publication current publishes pending combined)
  unfolding assemble
  assemble-Keeps publication none publishes pending combined = (refl, refl)
  assemble-Keeps publication (some old) publishes pending combined = (refl, refl)

  build-Owns :
      (publication : Publication) (current : Option Object) (now : ℕ) (o : Object)
      → build p identity provider publication current now ≡ ok (some o)
      → Owns o × Keeps current o
  build-Owns publication current now o h =
      let (items, delay, loaded, b) =
        build-eq-ok p identity provider publication current now (some o) h in
      let same = unless_empty-eq-some _ _ o (sym b.2) in
      subst (λ (w : Object). Owns w × Keeps current w) (sym same)
        (assemble-Owns publication current _ _ _, assemble-Keeps publication current _ _ _)

  -- An attempt that finds no object creates at most one, under the derived name, with the labels of
  -- the source and the provider.
  pub decide_missing-IsAllowedOn :
      (publication : Publication) (selected : Bool) (now : ℕ)
      → IsAllowedOn none (decide_missing p identity provider publication selected now)
  unfolding decide_missing
  decide_missing-IsAllowedOn publication selected now =
      elim (Bool-cases (not selected || is_empty publication.records)) [
        | inl off ↦ rw (off, decide_missing) tt
        | inr on ↦ elim (Result-cases (build p identity provider publication none now)) [
          | inr (e, h) ↦ rw (on, decide_missing) (rw h tt)
          | inl (none, h) ↦ rw (on, decide_missing) (rw h tt)
          | inl (some o, h) ↦
              let (owns, keeps) = build-Owns publication none now o h in
              rw (on, decide_missing) (rw h (refl, keeps.0, keeps.1, owns))
        ]
      ]

  -- An attempt that finds an object changes or deletes it only if its labels are those of the source and
  -- the provider; an update keeps these labels, the name, the namespace and the version that was read.
  pub decide_present-IsAllowedOn :
      (publication : Publication) (current : Object) (now : ℕ)
      → IsAllowedOn (some current) (decide_present p identity provider publication current now)
  unfolding decide_present
  decide_present-IsAllowedOn publication current now =
      elim (Bool-cases (is_owned p identity provider current)) [
        | inr foreign ↦ rw (foreign, decide_present) tt
        | inl owned ↦
            elim (Result-cases (build p identity provider publication (some current) now)) [
              | inr (e, h) ↦ rw (owned, decide_present) (rw h tt)
              | inl (none, h) ↦ rw (owned, decide_present) (rw h (refl, owned))
              | inl (some o, h) ↦ elim (Bool-cases (equivalent current o)) [
                | inl same ↦ rw (owned, decide_present) (rw h (rw same tt))
                | inr other ↦
                    let (owns, keeps) = build-Owns publication (some current) now o h in
                    rw (owned, decide_present)
                      (rw h (rw other (current, refl, owned, owns, keeps.0, keeps.1, refl)))
              ]
            ]
      ]
