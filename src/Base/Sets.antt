-- ===== src/Base/Sets.antt =====
-- Go's `map[K]struct{}` as the list of its keys in the order of insertion.
use mathlib.Core.Path.{◌≡◌, refl}
use mathlib.Core.Bool.{Bool, false, ◌||◌}
use mathlib.Core.List.{List, [], ◌∷◌, ◌++◌}
use native.Mathlib.Omega.{arith}
use labdns.Base.Tests.{if◌then◌else◌, Eq, keep, nat_eq}

module _ {ℓ} {A : Type ℓ} ⦃e : Eq A⦄ where
  abbrev pub contains : List A → A → Bool
  contains [] a = false
  contains (x ∷ xs) a = e.beq a x || contains xs a

  -- No key twice.
  abbrev pub Distinct : List A → Type 0
  Distinct [] = Unit
  Distinct (x ∷ xs) = (contains xs x ≡ false) × Distinct xs

  -- `set[a] = struct{}{}`
  unfoldable pub set_insert : A → List A → List A
  set_insert a xs = if contains xs a then xs else xs ++ a ∷ []

  -- `for _, x := range xs { set[x] = struct{}{} }`
  unfoldable pub set_insert_all : List A → List A → List A
  unfolding set_insert
  set_insert_all [] set = set
  set_insert_all (x ∷ xs) set = set_insert_all xs (set_insert x set)

  pub contains-append :
      (xs ys : List A) (a : A) → contains (xs ++ ys) a ≡ contains xs a || contains ys a
  contains-append [] ys a = refl
  contains-append (x ∷ xs) ys a = ground (arith, contains-append xs ys a)

  pub contains-set_insert :
      (x : A) (xs : List A) (a : A) → contains (set_insert x xs) a ≡ (e.beq a x || contains xs a)
  unfolding set_insert
  contains-set_insert x xs a =
      ground (arith, contains-append xs (x ∷ []) a, e.beq_iff a x, contains-append xs [] a)

  pub contains-set_insert_all :
      (ys xs : List A) (a : A)
      → contains (set_insert_all ys xs) a ≡ (contains ys a || contains xs a)
  unfolding set_insert_all
  contains-set_insert_all [] xs a = refl
  contains-set_insert_all (y ∷ ys) xs a =
      ground (arith, contains-set_insert_all ys (set_insert y xs) a, contains-set_insert y xs a)

  pub contains-keep :
      (p : A → Bool) (xs : List A) (a : A)
      → contains (keep p xs) a ≡ (if p a then contains xs a else false)
  contains-keep p [] a = ground arith
  contains-keep p (x ∷ xs) a = ground (arith, contains-keep p xs a, e.beq_iff a x)

  Distinct-snoc :
      (xs : List A) (a : A) → Distinct xs → contains xs a ≡ false → Distinct (xs ++ a ∷ [])
  Distinct-snoc [] a d h = (refl, tt)
  Distinct-snoc (x ∷ xs) a d h = (
    ground (arith, contains-append xs (a ∷ []) x, e.beq_iff a x, e.beq_iff x a),
    Distinct-snoc xs a d.1 (ground arith),
  )

  pub set_insert-Distinct : (x : A) (xs : List A) → Distinct xs → Distinct (set_insert x xs)
  unfolding set_insert
  set_insert-Distinct x xs d = ground (arith, Distinct-snoc xs x d)

  pub set_insert_all-Distinct : (ys xs : List A) → Distinct xs → Distinct (set_insert_all ys xs)
  unfolding set_insert_all
  set_insert_all-Distinct [] xs d = d
  set_insert_all-Distinct (y ∷ ys) xs d =
      set_insert_all-Distinct ys (set_insert y xs) (set_insert-Distinct y xs d)
