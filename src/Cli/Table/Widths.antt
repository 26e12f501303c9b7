-- ===== src/Cli/Table/Widths.antt =====
-- The columns of a block: each is as wide as its widest cell, and neighbouring rows that go past a
-- column agree on its width.
pub mod Runs
use labdns.Base.{
  ℕ, zero, suc, ◌-◌, ◌≤◌, ◌<◌, ◌≡◌, refl, sym, subst, ap, ◌∙◌, Bool, true, false, List, [], ◌∷◌,
  ◌++◌, length, ltb, nat_beq, arith, map, All, Bool-cases, inl, inr, if◌then◌else◌,
}
use labdns.Cli.Table.{
  Row, Sized, width, goes_past, cell_at, width_at, set_width, zeros, max, run, assign, fill_column,
  fill_columns, start_rows, max_columns, sized_rows,
}
use labdns.Cli.Table.Widths.Runs.{
  IsRun, Agrees, HasWidths, IsAligned, IsAlignedView, Stops, assign-IsAligned, at_column, if_false,
  if_true, length-run, length-set_width, map-append, row_of, run-IsRun, width_at-set_width_ne,
}

module _ (fuel column : ℕ) (sized : Sized) (rows : List Sized) where
  abbrev taken : List Sized
  taken = (run column 0 (sized ∷ rows)).0

  abbrev greatest : ℕ
  greatest = (run column 0 (sized ∷ rows)).1.0

  abbrev rest : List Sized
  rest = (run column 0 (sized ∷ rows)).1.1

  fill_column-past :
      goes_past column sized.0 ≡ true
      → fill_column (suc fuel) column (sized ∷ rows)
        ≡ assign column greatest taken ++ fill_column fuel column rest
  unfolding fill_column
  fill_column-past h = if_true _ _ _ h

  fill_column-short :
      goes_past column sized.0 ≡ false
      → fill_column (suc fuel) column (sized ∷ rows) ≡ sized ∷ fill_column fuel column rows
  unfolding fill_column
  fill_column-short h = if_false _ _ _ h

  length-rest : goes_past column sized.0 ≡ true → length rest ≤ length rows
  unfolding run
  length-rest h =
      subst (λ (result : List Sized × (ℕ × List Sized)). length result.1.1 ≤ length rows)
        (sym (if_true _ _ _ h)) (length-run column rows (max 0 (width (cell_at column sized.0))))

-- A view of the rows that an assignment to a column does not change.
module _ {κ} {B : Type κ} (f : Sized → B) (column : ℕ) where
  abbrev IsBlind : Type κ
  IsBlind =
      (row : Row) (widths : List ℕ) (w : ℕ) → f (row, set_width column w widths) ≡ f (row, widths)

  map-assign : (w : ℕ) (rows : List Sized) → IsBlind → map f (assign column w rows) ≡ map f rows
  map-assign w [] blind = refl
  map-assign w ((row, widths) ∷ rows) blind = rw (blind row widths w, map-assign w rows blind) refl

  -- Enough fuel is given, so no row is lost.
  map-fill_column :
      (fuel : ℕ) (rows : List Sized)
      → length rows ≤ fuel
      → IsBlind
      → map f (fill_column fuel column rows) ≡ map f rows
  unfolding fill_column
  map-fill_column fuel [] h blind = refl
  map-fill_column zero (sized ∷ rows) h blind = absurd (ground (arith, h))
  map-fill_column (suc fuel) (sized ∷ rows) h blind = elim (Bool-cases (goes_past column sized.0)) [
    | inr short ↦
        ap (map f) (fill_column-short fuel column sized rows short)
        ∙ ap (λ xs. f sized ∷ xs) (map-fill_column fuel rows (omega (arith, h)) blind)
    | inl past ↦
        let w = greatest fuel column sized rows in
        let left = taken fuel column sized rows in
        let right = rest fuel column sized rows in
        let short_rest : length right ≤ fuel =
          omega (arith, h, length-rest fuel column sized rows past) in
        ap (map f) (fill_column-past fuel column sized rows past)
        ∙ map-append f (assign column w left) (fill_column fuel column right)
        ∙ ap (λ xs. xs ++ map f (fill_column fuel column right)) (map-assign w left blind)
        ∙ ap (λ xs. map f left ++ xs) (map-fill_column fuel right short_rest blind)
        ∙ sym (map-append f left right)
        ∙ ap (map f) ((run-IsRun column (sized ∷ rows) 0).together)
  ]

row_of-IsBlind : (column : ℕ) → IsBlind row_of column
row_of-IsBlind column row widths w = refl

at_column-IsBlind :
    (column other : ℕ) → nat_beq column other ≡ false → IsBlind (at_column column) other
at_column-IsBlind column other h row widths w =
    ap (λ n. (row, n)) (width_at-set_width_ne column other w widths h)

-- The lengths of the row and of its widths.
abbrev sizes : Sized → ℕ × ℕ
sizes sized = (length sized.0, length sized.1)

sizes-IsBlind : (column : ℕ) → IsBlind sizes column
sizes-IsBlind column row widths w = ap (λ n. (length row, n)) (length-set_width column w widths)

-- Rows of the same sizes have widths for the same columns.
All-HasWidths :
    (xs ys : List Sized) → map sizes xs ≡ map sizes ys → All HasWidths ys → All HasWidths xs
All-HasWidths [] ys e h = tt
All-HasWidths (x ∷ xs) [] e h = absurd (ground (arith, e))
All-HasWidths (x ∷ xs) (y ∷ ys) e h =
    (ground (arith, e, h.0), All-HasWidths xs ys (ground (arith, e)) h.1)

All-left {ℓ κ} :
    {A : Type ℓ} (P : A → Type κ) (xs ys : List A) → All P (xs ++ ys) → All P xs × All P ys
All-left P [] ys h = (tt, h)
All-left P (x ∷ xs) ys h = let (left, right) = All-left P xs ys h.1 in ((h.0, left), right)

Stops-fill_column :
    (fuel column : ℕ) (rows : List Sized)
    → length rows ≤ fuel
    → Stops column rows
    → Stops column (fill_column fuel column rows)
unfolding fill_column
Stops-fill_column fuel column [] h s = tt
Stops-fill_column zero column (sized ∷ rows) h s = absurd (ground (arith, h))
Stops-fill_column (suc fuel) column (sized ∷ rows) h s =
    subst (Stops column) (sym (fill_column-short fuel column sized rows s)) s

Agrees-short :
    (column : ℕ) (above : Row × ℕ) (rows : List (Row × ℕ))
    → goes_past column above.0 ≡ false
    → Agrees column above rows
Agrees-short column above [] h = tt
Agrees-short column above (below ∷ rows) h = λ past. absurd (ground (arith, h, past))

fill_column-IsAligned :
    (fuel column : ℕ) (rows : List Sized)
    → length rows ≤ fuel
    → All HasWidths rows
    → IsAligned column (fill_column fuel column rows)
unfolding fill_column
fill_column-IsAligned fuel column [] h n = tt
fill_column-IsAligned zero column (sized ∷ rows) h n = absurd (ground (arith, h))
fill_column-IsAligned (suc fuel) column (sized ∷ rows) h n =
    elim (Bool-cases (goes_past column sized.0)) [
      | inr short ↦
          subst (IsAligned column) (sym (fill_column-short fuel column sized rows short)) (
            λ past. absurd (ground (arith, short, past)),
            Agrees-short column (at_column column sized) _ short,
            fill_column-IsAligned fuel column rows (omega (arith, h)) n.1,
          )
      | inl past ↦
          let good = run-IsRun column (sized ∷ rows) 0 in
          let left = taken fuel column sized rows in
          let right = rest fuel column sized rows in
          let (left_widths, right_widths) =
            All-left HasWidths left right (subst (All HasWidths) (sym good.together) n) in
          let short_rest : length right ≤ fuel =
            omega (arith, h, length-rest fuel column sized rows past) in
          subst (IsAligned column) (sym (fill_column-past fuel column sized rows past)) (
            assign-IsAligned column (greatest fuel column sized rows) left
              (fill_column fuel column right) good.all_past good.all_within left_widths
              (Stops-fill_column fuel column right short_rest good.stops)
              (fill_column-IsAligned fuel column right short_rest right_widths))
    ]

fill_columns-sizes : (n : ℕ) (rows : List Sized) → map sizes (fill_columns n rows) ≡ map sizes rows
unfolding fill_columns
fill_columns-sizes zero rows = refl
fill_columns-sizes (suc n) rows =
    let before = fill_columns n rows in
    map-fill_column sizes n (length before) before (omega arith) (sizes-IsBlind n)
    ∙ fill_columns-sizes n rows

fill_columns-rows : (n : ℕ) (rows : List Sized) → map row_of (fill_columns n rows) ≡ map row_of rows
unfolding fill_columns
fill_columns-rows zero rows = refl
fill_columns-rows (suc n) rows =
    let before = fill_columns n rows in
    map-fill_column row_of n (length before) before (omega arith) (row_of-IsBlind n)
    ∙ fill_columns-rows n rows

fill_columns-IsAligned :
    (n : ℕ) (rows : List Sized) (column : ℕ)
    → All HasWidths rows
    → column < n
    → IsAligned column (fill_columns n rows)
unfolding fill_columns
fill_columns-IsAligned zero rows column w h = absurd (omega (arith, h))
fill_columns-IsAligned (suc n) rows column w h =
    let before = fill_columns n rows in
    elim (Bool-cases (nat_beq column n)) [
      | inl last ↦
          subst (λ c. IsAligned c (fill_column (length before) n before)) (ground (arith, last))
            (fill_column-IsAligned (length before) n before (omega arith)
              (All-HasWidths before rows (fill_columns-sizes n rows) w))
      | inr earlier ↦
          subst (IsAlignedView column)
            (sym (
              map-fill_column (at_column column) n (length before) before (omega arith)
                (at_column-IsBlind column n earlier)))
            (fill_columns-IsAligned n rows column w (ground (arith, h, earlier)))
    ]

length-zeros : (n : ℕ) → length (zeros n) ≡ n
length-zeros zero = refl
length-zeros (suc n) = ap suc (length-zeros n)

start_rows-HasWidths : (rows : List Row) → All HasWidths (start_rows rows)
start_rows-HasWidths [] = tt
start_rows-HasWidths (row ∷ rows) = (length-zeros (length row - 1), start_rows-HasWidths rows)

start_rows-rows : (rows : List Row) → map row_of (start_rows rows) ≡ rows
start_rows-rows [] = refl
start_rows-rows (row ∷ rows) = ap (λ xs. row ∷ xs) (start_rows-rows rows)

-- A column that no row goes past is aligned.
beyond-IsAligned :
    (column : ℕ) (sized : List Sized)
    → max_columns (map row_of sized) ≤ column
    → IsAligned column sized
beyond-IsAligned column [] h = tt
beyond-IsAligned column (s ∷ sized) h = (
  λ past. absurd (ground (arith, h, past)),
  Agrees-short column (at_column column s) (map (at_column column) sized) (ground (arith, h)),
  beyond-IsAligned column sized (ground (arith, h)),
)

-- The rows of a block keep their order, and every column is aligned: it has room for each of its
-- cells, so no padding is negative, and neighbouring rows that both go past it agree on its width.
pub sized_rows_lem :
    (rows : List Row)
    → (map row_of (sized_rows rows) ≡ rows) × ((column : ℕ) → IsAligned column (sized_rows rows))
unfolding sized_rows
sized_rows_lem rows =
    let n = max_columns rows in
    let same : map row_of (fill_columns n (start_rows rows)) ≡ rows =
      fill_columns-rows n (start_rows rows) ∙ start_rows-rows rows in
    (
      same,
      λ column. elim (Bool-cases (ltb column n)) [
        | inl inside ↦
            fill_columns-IsAligned n (start_rows rows) column (start_rows-HasWidths rows)
              (ground (arith, inside))
        | inr beyond ↦
            beyond-IsAligned column (fill_columns n (start_rows rows))
              (subst (λ xs. max_columns xs ≤ column) (sym same) (ground (arith, beyond)))
      ],
    )
