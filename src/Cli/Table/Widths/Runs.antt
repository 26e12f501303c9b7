-- ===== src/Cli/Table/Widths/Runs.antt =====
-- internal/cli/output.go, `writeTableBlock`: the rows that go past a column, and their common width.
use labdns.Base.{
  ℕ, zero, suc, ◌-◌, ◌≤◌, ◌<◌, ◌≡◌, refl, ap, Bool, true, false, List, [], ◌∷◌, ◌++◌, length,
  nat_beq, arith, map, All, Bool-cases, inl, inr, if◌then◌else◌,
}
use labdns.Cli.Table.{Row, Sized, width, goes_past, cell_at, width_at, set_width, max, run, assign}

abbrev pub row_of : Sized → Row
row_of sized = sized.0

-- What a column says about a row.
abbrev pub at_column : ℕ → Sized → Row × ℕ
at_column column sized = (sized.0, width_at column sized.1)

-- A list of widths for all columns but the last.
abbrev pub HasWidths : Sized → Type 0
HasWidths sized = length sized.1 ≡ length sized.0 - 1

abbrev pub AllPast : ℕ → List Sized → Type 0
AllPast column rows = All (λ sized. goes_past column sized.0 ≡ true) rows

abbrev pub AllWithin : ℕ → ℕ → List Sized → Type 0
AllWithin column w rows = All (λ sized. width (cell_at column sized.0) ≤ w) rows

-- The rows begin with one that does not go past the column, if there are any.
abbrev pub Stops : ℕ → List Sized → Type 0
Stops column [] = Unit
Stops column (sized ∷ rows) = goes_past column sized.0 ≡ false

pub record IsRun (column w : ℕ) (rows taken : List Sized) (greatest : ℕ) (rest : List Sized)
    : Type 0 where
  pub together : taken ++ rest ≡ rows
  pub all_past : AllPast column taken
  pub all_within : AllWithin column greatest taken
  pub grows : w ≤ greatest
  pub stops : Stops column rest

pub run-IsRun :
    (column : ℕ) (rows : List Sized) (w : ℕ)
    → IsRun column w rows (run column w rows).0 (run column w rows).1.0 (run column w rows).1.1
unfolding run
run-IsRun column [] w = record {
  together = refl;
  all_past = tt;
  all_within = tt;
  grows = omega arith;
  stops = tt;
}
run-IsRun column (sized ∷ rows) w =
    let later = run-IsRun column rows (max w (width (cell_at column sized.0))) in
    elim (Bool-cases (goes_past column sized.0)) [
      | inl past ↦
          rw (past, run)
            (record {
              together = ap (λ xs. sized ∷ xs) later.together;
              all_past = (past, later.all_past);
              all_within = (ground (arith, later.grows), later.all_within);
              grows = ground (arith, later.grows);
              stops = later.stops;
            })
      | inr short ↦
          rw (short, run)
            (record {
              together = refl;
              all_past = tt;
              all_within = tt;
              grows = omega arith;
              stops = short;
            })
    ]

pub length-run :
    (column : ℕ) (rows : List Sized) (w : ℕ) → length (run column w rows).1.1 ≤ length rows
unfolding run
length-run column [] w = omega arith
length-run column (sized ∷ rows) w =
    ground (arith, length-run column rows (max w (width (cell_at column sized.0))))

width_at-set_width :
    (column : ℕ) (w : ℕ) (widths : List ℕ)
    → column < length widths
    → width_at column (set_width column w widths) ≡ w
width_at-set_width column w [] h = absurd (omega (arith, h))
width_at-set_width zero w (v ∷ widths) h = refl
width_at-set_width (suc column) w (v ∷ widths) h =
    width_at-set_width column w widths (omega (arith, h))

pub width_at-set_width_ne :
    (column other : ℕ) (w : ℕ) (widths : List ℕ)
    → nat_beq column other ≡ false
    → width_at column (set_width other w widths) ≡ width_at column widths
width_at-set_width_ne column other w [] h = refl
width_at-set_width_ne zero zero w (v ∷ widths) h = absurd (ground (arith, h))
width_at-set_width_ne zero (suc other) w (v ∷ widths) h = refl
width_at-set_width_ne (suc column) zero w (v ∷ widths) h = refl
width_at-set_width_ne (suc column) (suc other) w (v ∷ widths) h =
    width_at-set_width_ne column other w widths (ground (arith, h))

pub length-set_width :
    (column w : ℕ) (widths : List ℕ) → length (set_width column w widths) ≡ length widths
length-set_width column w [] = refl
length-set_width zero w (v ∷ widths) = refl
length-set_width (suc column) w (v ∷ widths) = ground (arith, length-set_width column w widths)

-- Each row that goes past the column has room for its cell, and the next one, if it goes past it too,
-- has the same width there.
abbrev pub Agrees : ℕ → Row × ℕ → List (Row × ℕ) → Type 0
Agrees column above [] = Unit
Agrees column above (below ∷ rows) =
    goes_past column above.0 ≡ true → goes_past column below.0 ≡ true → above.1 ≡ below.1

abbrev pub IsAlignedView : ℕ → List (Row × ℕ) → Type 0
IsAlignedView column [] = Unit
IsAlignedView column (above ∷ rows) =
    (goes_past column above.0 ≡ true → width (cell_at column above.0) ≤ above.1)
    × Agrees column above rows
    × IsAlignedView column rows

abbrev pub IsAligned : ℕ → List Sized → Type 0
IsAligned column rows = IsAlignedView column (map (at_column column) rows)

pub assign-IsAligned :
    (column w : ℕ) (taken rest : List Sized)
    → AllPast column taken
    → AllWithin column w taken
    → All HasWidths taken
    → Stops column rest
    → IsAligned column rest
    → IsAligned column (assign column w taken ++ rest)
assign-IsAligned column w [] rest p b n s h = h
assign-IsAligned column w ((row, widths) ∷ []) [] p b n s h =
    (λ past. ground (arith, width_at-set_width column w widths, b.0, n.0, p.0), tt, h)
assign-IsAligned column w ((row, widths) ∷ []) (next ∷ rest) p b n s h = (
  λ past. ground (arith, width_at-set_width column w widths, b.0, n.0, p.0),
  λ past below. absurd (ground (arith, s, below)),
  h,
)
assign-IsAligned column w ((row, widths) ∷ (next, others) ∷ taken) rest p b n s h = (
  λ past. ground (arith, width_at-set_width column w widths, b.0, n.0, p.0),
  λ past below. ground (
    arith,
    width_at-set_width column w widths,
    width_at-set_width column w others,
    n.0,
    n.1.0,
    p.0,
    p.1.0,
  ),
  assign-IsAligned column w ((next, others) ∷ taken) rest p.1 b.1 n.1 s h,
)

pub map-append {ℓ κ} :
    {A : Type ℓ} {B : Type κ} (f : A → B) (xs ys : List A) → map f (xs ++ ys) ≡ map f xs ++ map f ys
map-append f [] ys = refl
map-append f (x ∷ xs) ys = ap (λ zs. f x ∷ zs) (map-append f xs ys)

pub if_true {ℓ} : {A : Type ℓ} (b : Bool) (x y : A) → b ≡ true → (if b then x else y) ≡ x
if_true b x y h = rw h refl

pub if_false {ℓ} : {A : Type ℓ} (b : Bool) (x y : A) → b ≡ false → (if b then x else y) ≡ y
if_false b x y h = rw h refl

-- The two rounds of the loop over the rows.
