-- ===== src/Base/Maps.antt =====
-- Go's `map[K]V` as its entries in the order of insertion, each key once.
use mathlib.Core.Path.{◌≡◌, refl}
use mathlib.Core.Bool.{Bool, false, ◌||◌, ◌&&◌}
use mathlib.Core.Option.{Option, none, some}
use mathlib.Core.List.{List, [], ◌∷◌}
use native.Mathlib.Omega.{arith}
use labdns.Base.Tests.{if◌then◌else◌, Eq, is_some, All, all, length, nat_beq}
use labdns.Base.Sets.{contains, Distinct}

abbrev pub Map {ℓ κ} : Type ℓ → Type κ → Type (ℓ ⊔ κ)
Map K V = List (K × V)

abbrev pub or_else {ℓ} : {V : Type ℓ} → Option V → Option V → Option V
or_else none b = b
or_else (some a) b = some a

abbrev pub get_or {ℓ} : {V : Type ℓ} → Option V → V → V
get_or none d = d
get_or (some a) d = a

module _ {ℓ κ} {K : Type ℓ} {V : Type κ} ⦃e : Eq K⦄ where
  -- `v, found := m[k]`
  unfoldable pub lookup : K → Map K V → Option V
  lookup k [] = none
  lookup k ((j, v) ∷ m) = if e.beq k j then some v else lookup k m

  -- `delete(m, k)`
  unfoldable pub delete : K → Map K V → Map K V
  delete k [] = []
  delete k ((j, v) ∷ m) = let rest = delete k m in if e.beq k j then rest else (j, v) ∷ rest

  -- `m[k] = v`
  unfoldable pub insert : K → V → Map K V → Map K V
  insert k v [] = (k, v) ∷ []
  insert k v ((j, w) ∷ m) = if e.beq k j then (k, v) ∷ m else (j, w) ∷ insert k v m

  -- `maps.Copy(m, from)`
  unfoldable pub copy_into : Map K V → Map K V → Map K V
  unfolding insert
  copy_into m [] = m
  copy_into m ((k, v) ∷ from) = copy_into (insert k v m) from

  -- The entries that pass a test; in Go, a loop that deletes the others.
  unfoldable pub retain : (K → V → Bool) → Map K V → Map K V
  retain p [] = []
  retain p ((k, v) ∷ m) = let rest = retain p m in if p k v then (k, v) ∷ rest else rest

  abbrev pub keys : Map K V → List K
  keys [] = []
  keys ((k, v) ∷ m) = k ∷ keys m

  abbrev pub values : Map K V → List V
  values [] = []
  values ((k, v) ∷ m) = v ∷ values m

  -- Each key once.
  abbrev pub IsMap : Map K V → Type 0
  IsMap m = Distinct (keys m)

  pub contains-keys : (m : Map K V) (k : K) → contains (keys m) k ≡ is_some (lookup k m)
  unfolding lookup
  contains-keys [] k = refl
  contains-keys ((j, v) ∷ m) k = ground (arith, contains-keys m k)

  pub lookup-insert :
      (k : K) (v : V) (m : Map K V) (j : K)
      → lookup j (insert k v m) ≡ (if e.beq j k then some v else lookup j m)
  unfolding lookup insert
  lookup-insert k v [] j = refl
  lookup-insert k v ((i, w) ∷ m) j =
      ground (arith, e.beq_iff k i, e.beq_iff j i, e.beq_iff j k, lookup-insert k v m j)

  -- Another key is not touched.
  pub lookup-insert_ne :
      (k : K) (v : V) (m : Map K V) (j : K)
      → e.beq j k ≡ false
      → lookup j (insert k v m) ≡ lookup j m
  lookup-insert_ne k v m j h = ground (arith, lookup-insert k v m j)

  pub lookup-delete :
      (k : K) (m : Map K V) (j : K)
      → lookup j (delete k m) ≡ (if e.beq j k then none else lookup j m)
  unfolding lookup delete
  lookup-delete k [] j = ground arith
  lookup-delete k ((i, w) ∷ m) j =
      ground (arith, e.beq_iff k i, e.beq_iff j i, e.beq_iff j k, lookup-delete k m j)

  pub lookup_of_absent : (m : Map K V) (k : K) → contains (keys m) k ≡ false → lookup k m ≡ none
  lookup_of_absent m k h = ground (arith, contains-keys m k)

  contains-keys-delete :
      (k : K) (m : Map K V) (j : K)
      → contains (keys (delete k m)) j ≡ (if e.beq j k then false else contains (keys m) j)
  contains-keys-delete k m j =
      ground (arith, contains-keys m j, contains-keys (delete k m) j, lookup-delete k m j)

  contains-keys-insert :
      (k : K) (v : V) (m : Map K V) (j : K)
      → contains (keys (insert k v m)) j ≡ (e.beq j k || contains (keys m) j)
  contains-keys-insert k v m j =
      ground (arith, contains-keys m j, contains-keys (insert k v m) j, lookup-insert k v m j)

  contains-keys-retain :
      (p : K → V → Bool) (m : Map K V) (j : K)
      → contains (keys m) j ≡ false
      → contains (keys (retain p m)) j ≡ false
  unfolding retain
  contains-keys-retain p [] j h = refl
  contains-keys-retain p ((k, v) ∷ m) j h = ground (arith, contains-keys-retain p m j)

  pub delete-IsMap : (k : K) (m : Map K V) → IsMap m → IsMap (delete k m)
  unfolding delete
  delete-IsMap k [] h = tt
  delete-IsMap k ((j, v) ∷ m) h = ground (arith, delete-IsMap k m h.1, contains-keys-delete k m j)

  pub insert-IsMap : (k : K) (v : V) (m : Map K V) → IsMap m → IsMap (insert k v m)
  unfolding insert
  insert-IsMap k v [] h = (refl, tt)
  insert-IsMap k v ((j, w) ∷ m) h =
      ground
        (arith, insert-IsMap k v m h.1, contains-keys-insert k v m j, e.beq_iff j k, e.beq_iff k j)

  pub retain-IsMap : (p : K → V → Bool) (m : Map K V) → IsMap m → IsMap (retain p m)
  unfolding retain
  retain-IsMap p [] h = tt
  retain-IsMap p ((k, v) ∷ m) h =
      ground (arith, retain-IsMap p m h.1, contains-keys-retain p m k h.0)

  pub copy_into-IsMap : (m from : Map K V) → IsMap m → IsMap (copy_into m from)
  unfolding copy_into
  copy_into-IsMap m [] h = h
  copy_into-IsMap m ((k, v) ∷ from) h = copy_into-IsMap (insert k v m) from (insert-IsMap k v m h)

  abbrev pub passes : (K → V → Bool) → K → Option V → Option V
  passes p k none = none
  passes p k (some v) = if p k v then some v else none

  pub lookup-retain :
      (p : K → V → Bool) (m : Map K V) (j : K)
      → IsMap m
      → lookup j (retain p m) ≡ passes p j (lookup j m)
  unfolding lookup retain
  lookup-retain p [] j h = refl
  lookup-retain p ((k, v) ∷ m) j h =
      ground (arith, e.beq_iff j k, lookup-retain p m j h.1, lookup_of_absent m k h.0)

  pub lookup-copy_into :
      (m from : Map K V) (j : K)
      → IsMap from
      → lookup j (copy_into m from) ≡ or_else (lookup j from) (lookup j m)
  unfolding copy_into lookup
  lookup-copy_into m [] j h = refl
  lookup-copy_into m ((k, v) ∷ from) j h = ground (
    arith,
    e.beq_iff j k,
    lookup-copy_into (insert k v m) from j h.1,
    lookup-insert k v m j,
    lookup_of_absent from k h.0,
  )

module _ {ℓ κ} {K : Type ℓ} {V : Type κ} ⦃e : Eq K⦄ ⦃f : Eq V⦄ where
  abbrev pub has_entry : Map K V → K × V → Bool
  has_entry m (k, v) = elim (lookup k m) [ none ↦ false | some w ↦ f.beq v w ]

  -- `maps.Equal(m, n)`, and `reflect.DeepEqual` of maps that are both nil or both not.
  unfoldable pub map_equal : Map K V → Map K V → Bool
  map_equal m n = nat_beq (length m) (length n) && all (has_entry n) m

module _ {ℓ κ μ} {K : Type ℓ} {V : Type κ} ⦃e : Eq K⦄ (P : K × V → Type μ) where
  -- What holds of every value that is found holds of every entry.
  pub All_of_lookup :
      (m : Map K V) → IsMap m → ((k : K) (v : V) → lookup k m ≡ some v → P (k, v)) → All P m
  unfolding lookup
  All_of_lookup [] h f = tt
  All_of_lookup ((k, v) ∷ m) h f = (
    f k v (ground (arith, e.beq_iff k k)),
    All_of_lookup m h.1
        (λ j w found. f j w (ground (arith, e.beq_iff j k, lookup_of_absent m k h.0))),
  )
