-- ===== src/Base/Sort/Weak.antt =====
-- Sorting texts without a condition on repeated ones: none stands behind a greater one, and a list
-- without repetitions in a row grows.
use mathlib.Core.Path.{◌≡◌}
use mathlib.Core.Logic.{inl, inr}
use mathlib.Core.Bool.{false}
use mathlib.Core.List.{List, [], ◌∷◌}
use native.Mathlib.Omega.{arith}
use labdns.Base.Tests.{All, Bool-cases}
use labdns.Base.Texts.{Text, text_lt, text_lt_irrefl, text_lt_trans, text_lt_total}
use labdns.Base.Sort.{text_ord, insert_by, sort_by, sort_texts, same_text}

abbrev pub NoneBelow : Text → List Text → Type 0
NoneBelow x xs = All (λ y. text_lt y x ≡ false) xs

abbrev pub IsWeaklySorted : List Text → Type 0
IsWeaklySorted [] = Unit
IsWeaklySorted (x ∷ xs) = NoneBelow x xs × IsWeaklySorted xs

not_below_trans : (x y z : Text) → text_lt y x ≡ false → text_lt z y ≡ false → text_lt z x ≡ false
not_below_trans x y z p q =
    ground (arith, text_lt_trans z x y, text_lt_total y x, text_lt_total z y)

NoneBelow-trans :
    (x y : Text) (xs : List Text) → text_lt y x ≡ false → NoneBelow y xs → NoneBelow x xs
NoneBelow-trans x y [] p h = tt
NoneBelow-trans x y (z ∷ xs) p h = (not_below_trans x y z p h.0, NoneBelow-trans x y xs p h.1)

insert_by-NoneBelow :
    (a x : Text) (xs : List Text)
    → text_lt a x ≡ false
    → NoneBelow x xs
    → NoneBelow x (insert_by same_text a xs)
unfolding insert_by
insert_by-NoneBelow a x [] p h = (p, tt)
insert_by-NoneBelow a x (y ∷ xs) p h = elim (Bool-cases (text_lt y a)) [
  | inl before ↦ rw before (h.0, insert_by-NoneBelow a x xs p h.1)
  | inr after ↦ rw after (p, h)
]

insert_by-IsWeaklySorted :
    (a : Text) (xs : List Text) → IsWeaklySorted xs → IsWeaklySorted (insert_by same_text a xs)
unfolding insert_by
insert_by-IsWeaklySorted a [] h = (tt, tt)
insert_by-IsWeaklySorted a (x ∷ xs) h = elim (Bool-cases (text_lt x a)) [
  | inl before ↦ rw before (
    insert_by-NoneBelow a x xs (ground (arith, text_lt_trans a x a, text_lt_irrefl a, before)) h.0,
    insert_by-IsWeaklySorted a xs h.1,
  )
  | inr after ↦ rw after ((after, NoneBelow-trans a x xs after h.0), h)
]

-- What `sort.Strings` gives, whatever the input.
pub sort_texts-IsWeaklySorted : (xs : List Text) → IsWeaklySorted (sort_texts xs)
unfolding sort_texts sort_by
sort_texts-IsWeaklySorted [] = tt
sort_texts-IsWeaklySorted (x ∷ xs) =
    insert_by-IsWeaklySorted x (sort_texts xs) (sort_texts-IsWeaklySorted xs)
