-- ===== src/Base/Sort/Members.antt =====
-- Sorting keeps the members of a list.
use mathlib.Core.List.{List, [], ◌∷◌, Memᴰ}
use mathlib.Core.List.Memᴰ.{head, tail}
use mathlib.Core.Path.{◌≡◌}
use mathlib.Core.Logic.{inl, inr}
use labdns.Base.Tests.{Bool-cases}
use labdns.Base.Sort.{Ord, insert_by, sort_by}

module _ {ℓ κ} {A : Type ℓ} {K : Type κ} ⦃o : Ord K⦄ (key : A → K) where
  Memᴰ-insert_by_head : (a x : A) (xs : List A) → a ≡ x → Memᴰ a (insert_by key x xs)
  unfolding insert_by
  Memᴰ-insert_by_head a x [] h = head h
  Memᴰ-insert_by_head a x (y ∷ ys) h = elim (Bool-cases (o.lt (key y) (key x))) [
    | inl c ↦ rw c (tail (Memᴰ-insert_by_head a x ys h))
    | inr c ↦ rw c (head h)
  ]

  Memᴰ-insert_by_tail : (a x : A) (xs : List A) → Memᴰ a xs → Memᴰ a (insert_by key x xs)
  unfolding insert_by
  Memᴰ-insert_by_tail a x [] m = elim m [ ]
  Memᴰ-insert_by_tail a x (y ∷ ys) m = elim (Bool-cases (o.lt (key y) (key x))) [
    | inl c ↦ rw c (elim m [ head h ↦ head h | tail n ↦ tail (Memᴰ-insert_by_tail a x ys n) ])
    | inr c ↦ rw c (tail m)
  ]

  pub Memᴰ-sort_by : (a : A) (xs : List A) → Memᴰ a xs → Memᴰ a (sort_by key xs)
  unfolding sort_by
  Memᴰ-sort_by a [] m = m
  Memᴰ-sort_by a (x ∷ xs) (head h) = Memᴰ-insert_by_head a x (sort_by key xs) h
  Memᴰ-sort_by a (x ∷ xs) (tail m) = Memᴰ-insert_by_tail a x (sort_by key xs) (Memᴰ-sort_by a xs m)
