-- ===== src/Dnsendpoint/Endpoints/Compact.antt =====
-- Sorting and compacting gives the ascending list of the members, whatever the repetitions.
use labdns.Base.{
  ◌≡◌, sym, ◌∙◌, true, List, [], ◌∷◌, Text, All, contains, IsSorted, same_text, Ascending-unique,
  sort_texts, contains-sort_texts, text_lt, text_lt_trans, text_lt_total, text_ord, arith,
  Bool-cases, inl, inr, NoneBelow, IsWeaklySorted, sort_texts-IsWeaklySorted, ◌==◌, ==_iff, list_eq,
  nat_eq,
}
use labdns.Dnsendpoint.Endpoints.{compact, compact_after}
use labdns.Dnsendpoint.Endpoints.Laws.{contains-compact}

abbrev Above : Text → List Text → Type 0
Above x xs = All (λ y. text_lt x y ≡ true) xs

Above-trans : (x y : Text) (xs : List Text) → text_lt x y ≡ true → Above y xs → Above x xs
Above-trans x y [] p h = tt
Above-trans x y (z ∷ xs) p h =
    (ground (arith, text_lt_trans x y z, p, h.0), Above-trans x y xs p h.1)

compact_after-IsSorted :
    (last : Text) (xs : List Text)
    → NoneBelow last xs
    → IsWeaklySorted xs
    → Above last (compact_after last xs) × IsSorted (compact_after last xs)
unfolding compact_after
compact_after-IsSorted last [] p h = (tt, tt)
compact_after-IsSorted last (x ∷ xs) p h = elim (Bool-cases (x == last)) [
  | inl same ↦ rw same (compact_after-IsSorted last xs p.1 h.1)
  | inr other ↦
      let (above, sorted) = compact_after-IsSorted x xs h.0 h.1 in
      let grows : text_lt last x ≡ true =
        ground (arith, p.0, text_lt_total last x, ==_iff x last, other) in
      rw other ((grows, Above-trans last x (compact_after x xs) grows above), (above, sorted))
]

compact-IsSorted : (ys : List Text) → IsWeaklySorted ys → IsSorted (compact ys)
unfolding compact
compact-IsSorted [] h = tt
compact-IsSorted (y ∷ ys) h = compact_after-IsSorted y ys h.0 h.1

pub compact-sort_texts-IsSorted : (xs : List Text) → IsSorted (compact (sort_texts xs))
compact-sort_texts-IsSorted xs = compact-IsSorted (sort_texts xs) (sort_texts-IsWeaklySorted xs)

pub contains-compact-sort_texts :
    (xs : List Text) (a : Text) → contains (compact (sort_texts xs)) a ≡ contains xs a
contains-compact-sort_texts xs a = contains-compact (sort_texts xs) a ∙ contains-sort_texts xs a

-- Two lists with the same members give the same compacted list.
pub compact_unique :
    (xs ys : List Text)
    → ((a : Text) → contains xs a ≡ contains ys a)
    → compact (sort_texts xs) ≡ compact (sort_texts ys)
compact_unique xs ys same =
    Ascending-unique same_text (compact (sort_texts xs)) (compact (sort_texts ys))
      (compact-sort_texts-IsSorted xs) (compact-sort_texts-IsSorted ys)
      (λ a. contains-compact-sort_texts xs a ∙ same a ∙ sym (contains-compact-sort_texts ys a))
