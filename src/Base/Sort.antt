-- ===== src/Base/Sort.antt =====
-- Go's `sort.Slice` at a strict order of keys, and what fixes its result.
pub mod Members
pub mod Weak
use mathlib.Core.Path.{◌≡◌, refl, sym, subst, ap, ap₂, ◌∙◌}
use mathlib.Core.Logic.{inl, inr}
use mathlib.Core.Bool.{Bool, true, false, ◌||◌}
use mathlib.Core.Option.{Option, none, some}
use mathlib.Core.List.{List, [], ◌∷◌, map}
use native.Mathlib.Omega.{arith}
use labdns.Base.Tests.{any, is_some, if◌then◌else◌, Eq, All, Bool-cases, pair_eq, list_eq, nat_eq}
use labdns.Base.Texts.{Text, text_lt, text_lt_irrefl, text_lt_trans, text_lt_total}
use labdns.Base.Sets.{contains, Distinct}

-- A strict total order by a Boolean test.
pub record Ord {ℓ} (A : Type ℓ) : Type ℓ where
  pub lt : A → A → Bool
  pub lt_irrefl : (a : A) → lt a a ≡ false
  pub lt_trans : (a b c : A) → lt a b ≡ true → lt b c ≡ true → lt a c ≡ true
  pub lt_total : (a b : A) → lt a b ≡ false → lt b a ≡ false → a ≡ b

instance abbrev pub text_ord : Ord Text
text_ord = record {
  lt = text_lt;
  lt_irrefl = text_lt_irrefl;
  lt_trans = text_lt_trans;
  lt_total = text_lt_total;
}

-- First by the left part, then by the right: `if a == c { return b < d }; return a < c`.
module _ {ℓ κ} {A : Type ℓ} {B : Type κ} ⦃e : Eq A⦄ ⦃o : Ord A⦄ ⦃p : Ord B⦄ where
  abbrev pub pair_lt : A × B → A × B → Bool
  pair_lt (a, b) (c, d) = if e.beq a c then p.lt b d else o.lt a c

  pub pair_lt_irrefl : (x : A × B) → pair_lt x x ≡ false
  pair_lt_irrefl (a, b) = ground (arith, p.lt_irrefl b, o.lt_irrefl a)

  pub pair_lt_trans : (x y z : A × B) → pair_lt x y ≡ true → pair_lt y z ≡ true → pair_lt x z ≡ true
  pair_lt_trans (a, b) (c, d) (f, g) h k = ground (
    arith,
    e.beq_iff a c,
    e.beq_iff c f,
    e.beq_iff a f,
    o.lt_trans a c f,
    p.lt_trans b d g,
    o.lt_irrefl a,
    o.lt_trans a c a,
  )

  pub pair_lt_total : (x y : A × B) → pair_lt x y ≡ false → pair_lt y x ≡ false → x ≡ y
  pair_lt_total (a, b) (c, d) h k =
      ground (arith, e.beq_iff a c, e.beq_iff c a, o.lt_total a c, p.lt_total b d)

instance abbrev pub pair_ord {ℓ κ} :
    {A : Type ℓ} {B : Type κ} ⦃e : Eq A⦄ ⦃o : Ord A⦄ ⦃p : Ord B⦄ → Ord (A × B)
pair_ord = record {
  lt = pair_lt;
  lt_irrefl = pair_lt_irrefl;
  lt_trans = pair_lt_trans;
  lt_total = pair_lt_total;
}

module _ {ℓ κ} {A : Type ℓ} {K : Type κ} ⦃o : Ord K⦄ (key : A → K) where
  insert_by : A → List A → List A
  insert_by a [] = a ∷ []
  insert_by a (x ∷ xs) = if o.lt (key x) (key a) then x ∷ insert_by a xs else a ∷ x ∷ xs

  -- `sort.Slice(xs, func(i, j) { return key(xs[i]) < key(xs[j]) })`
  unfoldable pub sort_by : List A → List A
  unfolding insert_by
  sort_by [] = []
  sort_by (x ∷ xs) = insert_by x (sort_by xs)

  -- The keys grow strictly along the list.
  abbrev pub Ascending : List A → Type ℓ
  Ascending [] = Unit
  Ascending (x ∷ xs) = All (λ y. o.lt (key x) (key y) ≡ true) xs × Ascending xs

  module _ ⦃e : Eq A⦄ where
    contains-insert_by :
        (x : A) (xs : List A) (a : A) → contains (insert_by x xs) a ≡ (e.beq a x || contains xs a)
    unfolding insert_by
    contains-insert_by x [] a = refl
    contains-insert_by x (y ∷ ys) a = ground (arith, contains-insert_by x ys a)

    pub contains-sort_by : (xs : List A) (a : A) → contains (sort_by xs) a ≡ contains xs a
    unfolding sort_by
    contains-sort_by [] a = refl
    contains-sort_by (x ∷ xs) a =
        ground (arith, contains-insert_by x (sort_by xs) a, contains-sort_by xs a)

    above :
        (x : A) (ys : List A) (a : A)
        → All (λ y. o.lt (key x) (key y) ≡ true) ys
        → contains ys a ≡ true
        → o.lt (key x) (key a) ≡ true
    above x [] a h c = ground arith
    above x (y ∷ ys) a h c = ground (arith, e.beq_iff a y, above x ys a h.1)

    not_above :
        (x : A) (ys : List A) → All (λ y. o.lt (key x) (key y) ≡ true) ys → contains ys x ≡ false
    not_above x ys h = elim (Bool-cases (contains ys x)) [
      | inl c ↦ ground (arith, above x ys x h c, o.lt_irrefl (key x))
      | inr c ↦ c
    ]

    heads :
        (x y : A) (xs ys : List A)
        → Ascending (x ∷ xs)
        → Ascending (y ∷ ys)
        → ((a : A) → contains (x ∷ xs) a ≡ contains (y ∷ ys) a)
        → x ≡ y
    heads x y xs ys p q h = ground (
      arith,
      h x,
      h y,
      e.beq_iff x y,
      e.beq_iff y x,
      e.beq_iff x x,
      e.beq_iff y y,
      above y ys x q.0,
      above x xs y p.0,
      o.lt_trans (key x) (key y) (key x),
      o.lt_irrefl (key x),
    )

    tails :
        (x y : A) (xs ys : List A) (a : A)
        → x ≡ y
        → Ascending (x ∷ xs)
        → Ascending (y ∷ ys)
        → contains (x ∷ xs) a ≡ contains (y ∷ ys) a
        → contains xs a ≡ contains ys a
    tails x y xs ys a same p q h =
        ground (arith, e.beq_iff a x, e.beq_iff a y, not_above x xs p.0, not_above y ys q.0)

    -- Members fix a list whose keys grow.
    pub Ascending-unique :
        (xs ys : List A)
        → Ascending xs
        → Ascending ys
        → ((a : A) → contains xs a ≡ contains ys a)
        → xs ≡ ys
    Ascending-unique [] [] p q h = refl
    Ascending-unique [] (y ∷ ys) p q h = ground (arith, h y, e.beq_iff y y)
    Ascending-unique (x ∷ xs) [] p q h = ground (arith, h x, e.beq_iff x x)
    Ascending-unique (x ∷ xs) (y ∷ ys) p q h =
        let same : x ≡ y = heads x y xs ys p q h in
        ap₂ ◌∷◌ same (Ascending-unique xs ys p.1 q.1 (λ a. tails x y xs ys a same p q (h a)))

  module _ ⦃e : Eq K⦄ where
    keys-insert_by :
        (x : A) (xs : List A) (k : K)
        → contains (map key (insert_by x xs)) k ≡ (e.beq k (key x) || contains (map key xs) k)
    unfolding insert_by
    keys-insert_by x [] k = refl
    keys-insert_by x (y ∷ ys) k = ground (arith, keys-insert_by x ys k)

    pub keys-sort_by :
        (xs : List A) (k : K) → contains (map key (sort_by xs)) k ≡ contains (map key xs) k
    unfolding sort_by
    keys-sort_by [] k = refl
    keys-sort_by (x ∷ xs) k = ground (arith, keys-insert_by x (sort_by xs) k, keys-sort_by xs k)

    below_all :
        (k l : K) (xs : List A)
        → o.lt k l ≡ true
        → All (λ y. o.lt l (key y) ≡ true) xs
        → All (λ y. o.lt k (key y) ≡ true) xs
    below_all k l [] h a = tt
    below_all k l (x ∷ xs) h a = (o.lt_trans k l (key x) h a.0, below_all k l xs h a.1)

    insert_by-All :
        (k : K) (x : A) (xs : List A)
        → o.lt k (key x) ≡ true
        → All (λ y. o.lt k (key y) ≡ true) xs
        → All (λ y. o.lt k (key y) ≡ true) (insert_by x xs)
    unfolding insert_by
    insert_by-All k x [] h a = (h, tt)
    insert_by-All k x (y ∷ ys) h a = ground (arith, insert_by-All k x ys h a.1)

    insert_by-Ascending :
        (x : A) (xs : List A)
        → contains (map key xs) (key x) ≡ false
        → Ascending xs
        → Ascending (insert_by x xs)
    unfolding insert_by
    insert_by-Ascending x [] h a = (tt, tt)
    insert_by-Ascending x (y ∷ ys) h a = ground (
      arith,
      insert_by-Ascending x ys (ground arith) a.1,
      insert_by-All (key y) x ys,
      o.lt_total (key y) (key x),
      below_all (key x) (key y) ys,
      e.beq_iff (key x) (key y),
    )

    -- Sorting values whose keys differ leaves no tie.
    pub sort_by-Ascending : (xs : List A) → Distinct (map key xs) → Ascending (sort_by xs)
    unfolding sort_by
    sort_by-Ascending [] d = tt
    sort_by-Ascending (x ∷ xs) d =
        insert_by-Ascending x (sort_by xs) (ground (arith, keys-sort_by xs (key x), d.0))
          (sort_by-Ascending xs d.1)

  insert_All {μ} : (P : A → Type μ) (x : A) (xs : List A) → P x → All P xs → All P (insert_by x xs)
  unfolding insert_by
  insert_All P x [] h a = (h, tt)
  insert_All P x (y ∷ ys) h a = elim (Bool-cases (o.lt (key y) (key x))) [
    | inl c ↦ rw c (a.0, insert_All P x ys h a.1)
    | inr c ↦ rw c (h, a)
  ]

  insert_by-cons :
      (x : A) (xs : List A) → All (λ y. o.lt (key x) (key y) ≡ true) xs → insert_by x xs ≡ x ∷ xs
  unfolding insert_by
  insert_by-cons x [] h = refl
  insert_by-cons x (y ∷ ys) h =
      ground (arith, o.lt_irrefl (key x), o.lt_trans (key x) (key y) (key x))

  -- What is in order already stays as it is.
  pub sort_by_of_Ascending : (xs : List A) → Ascending xs → sort_by xs ≡ xs
  unfolding sort_by
  sort_by_of_Ascending [] h = refl
  sort_by_of_Ascending (x ∷ xs) h = rw (sort_by_of_Ascending xs h.1) (insert_by-cons x xs h.0)

  pub sort_by-All {μ} : (P : A → Type μ) (xs : List A) → All P xs → All P (sort_by xs)
  unfolding sort_by
  sort_by-All P [] h = tt
  sort_by-All P (x ∷ xs) h = insert_All P x (sort_by xs) h.0 (sort_by-All P xs h.1)

  module _ ⦃e : Eq K⦄ where
    insert_by-Distinct :
        (x : A) (xs : List A)
        → contains (map key xs) (key x) ≡ false
        → Distinct (map key xs)
        → Distinct (map key (insert_by x xs))
    unfolding insert_by
    insert_by-Distinct x [] h d = (refl, tt)
    insert_by-Distinct x (y ∷ ys) h d = ground (
      arith,
      insert_by-Distinct x ys (ground arith) d.1,
      keys-insert_by x ys (key y),
      e.beq_iff (key x) (key y),
      e.beq_iff (key y) (key x),
    )

    pub sort_by-Distinct : (xs : List A) → Distinct (map key xs) → Distinct (map key (sort_by xs))
    unfolding sort_by
    sort_by-Distinct [] d = tt
    sort_by-Distinct (x ∷ xs) d =
        insert_by-Distinct x (sort_by xs) (ground (arith, keys-sort_by xs (key x), d.0))
          (sort_by-Distinct xs d.1)

abbrev pub same_text : Text → Text
same_text t = t

-- `sort.Strings`
unfoldable pub sort_texts : List Text → List Text
unfolding sort_by
sort_texts xs = sort_by same_text xs

abbrev pub IsSorted : List Text → Type 0
IsSorted xs = Ascending same_text xs

map-same_text : (xs : List Text) → map same_text xs ≡ xs
map-same_text [] = refl
map-same_text (x ∷ xs) = ap₂ ◌∷◌ refl (map-same_text xs)

-- A set of texts as a sorted list: `stringSet`, and the end of `sortedUnique`.
pub sort_texts-IsSorted : (xs : List Text) → Distinct xs → IsSorted (sort_texts xs)
unfolding sort_texts
sort_texts-IsSorted xs d =
    sort_by-Ascending same_text xs (subst Distinct (sym (map-same_text xs)) d)

pub contains-sort_texts : (xs : List Text) (a : Text) → contains (sort_texts xs) a ≡ contains xs a
unfolding sort_texts
contains-sort_texts xs a = contains-sort_by same_text xs a

-- A test that some element passes is blind to the order.
module _ {ℓ κ} {A : Type ℓ} {K : Type κ} ⦃o : Ord K⦄ (key : A → K) (p : A → Bool) where
  any-insert_by : (x : A) (xs : List A) → any p (insert_by key x xs) ≡ (p x || any p xs)
  unfolding insert_by
  any-insert_by x [] = ground arith
  any-insert_by x (y ∷ ys) = ground (arith, any-insert_by x ys)

  pub any-sort_by : (xs : List A) → any p (sort_by key xs) ≡ any p xs
  unfolding sort_by
  any-sort_by [] = refl
  any-sort_by (x ∷ xs) = ground (arith, any-insert_by x (sort_by key xs), any-sort_by xs)

-- The first element with a key.
module _ {ℓ κ} {A : Type ℓ} {K : Type κ} ⦃o : Ord K⦄ ⦃e : Eq K⦄ (key : A → K) where
  abbrev pub find_by : K → List A → Option A
  find_by k [] = none
  find_by k (x ∷ xs) = if e.beq k (key x) then some x else find_by k xs

  pub find_by_of_absent :
      (k : K) (xs : List A) → contains (map key xs) k ≡ false → find_by k xs ≡ none
  find_by_of_absent k [] h = refl
  find_by_of_absent k (x ∷ xs) h = ground (arith, find_by_of_absent k xs)

  find_by-insert_by :
      (k : K) (x : A) (xs : List A)
      → contains (map key xs) (key x) ≡ false
      → find_by k (insert_by key x xs) ≡ (if e.beq k (key x) then some x else find_by k xs)
  unfolding insert_by
  find_by-insert_by k x [] h = refl
  find_by-insert_by k x (y ∷ ys) h = ground (
    arith,
    find_by-insert_by k x ys,
    e.beq_iff k (key x),
    e.beq_iff k (key y),
    e.beq_iff (key x) (key y),
  )

  -- Sorting does not change what is found, where the keys differ.
  pub find_by-sort_by :
      (k : K) (xs : List A) → Distinct (map key xs) → find_by k (sort_by key xs) ≡ find_by k xs
  unfolding sort_by
  find_by-sort_by k [] d = refl
  find_by-sort_by k (x ∷ xs) d = ground (
    arith,
    find_by-insert_by k x (sort_by key xs),
    keys-sort_by key xs (key x),
    find_by-sort_by k xs d.1,
  )

  pub find_by-All {μ} :
      (P : A → Type μ) (k : K) (xs : List A) {x : A}
      → find_by k xs ≡ some x
      → All P xs
      → P x × (k ≡ key x)
  find_by-All P k [] h a = absurd (ground arith)
  find_by-All P k (y ∷ ys) {x} h a = elim (Bool-cases (e.beq k (key y))) [
    | inl c ↦
        let same : y ≡ x = ground arith in
        (subst P same a.0, (e.beq_iff k (key y)).0 c ∙ ap key same)
    | inr c ↦ find_by-All P k ys {x = x} (ground arith) a.1
  ]

  pub contains-find_by : (k : K) (xs : List A) → contains (map key xs) k ≡ is_some (find_by k xs)
  contains-find_by k [] = refl
  contains-find_by k (x ∷ xs) = ground (arith, contains-find_by k xs)
