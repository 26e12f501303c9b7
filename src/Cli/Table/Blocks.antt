-- ===== src/Cli/Table/Blocks.antt =====
-- The loop over the rows of a table writes its blocks one after the other, and ends.
use labdns.Base.{
  ℕ, zero, suc, ◌≤◌, ◌≡◌, refl, sym, ap, ◌∙◌, Bool, Option, none, some, List, [], ◌∷◌, ◌++◌, Text,
  length, arith, map, false, is_empty,
}
use labdns.Base.Results.{Result, ok, err}
use labdns.Cli.Table.{
  Row, Writer, WriteError, write, write_all, newline, row_pieces, sized_rows, take_block,
  write_table_block, write_rows, write_table, and_then,
}

abbrev pub Block : Type 0
Block = Option (List Row)

abbrev pub extend : Row → List Block → List Block
extend row [] = some (row ∷ []) ∷ []
extend row (none ∷ blocks) = some (row ∷ []) ∷ none ∷ blocks
extend row (some block ∷ blocks) = some (row ∷ block) ∷ blocks

-- The blocks of a table: the longest stretches of rows, and the blank lines between them.
unfoldable pub blocks_of : List (Option Row) → List Block
blocks_of [] = []
blocks_of (none ∷ rows) = none ∷ blocks_of rows
blocks_of (some row ∷ rows) = extend row (blocks_of rows)

abbrev pub block_pieces : Bool → Block → List Text
block_pieces enabled none = newline ∷ []
block_pieces enabled (some block) = row_pieces enabled (sized_rows block)

-- What the table is made of, in order.
unfoldable pub table_pieces : Bool → List Block → List Text
table_pieces enabled [] = []
table_pieces enabled (block ∷ blocks) = block_pieces enabled block ++ table_pieces enabled blocks

blocks_of-take_block :
    (row : Row) (rows : List (Option Row))
    → blocks_of (some row ∷ rows) ≡ some (row ∷ (take_block rows).0) ∷ blocks_of (take_block rows).1
unfolding blocks_of take_block
blocks_of-take_block row [] = refl
blocks_of-take_block row (none ∷ rows) = refl
blocks_of-take_block row (some next ∷ rows) = rw (blocks_of-take_block next rows) refl

length-take_block : (rows : List (Option Row)) → length (take_block rows).1 ≤ length rows
unfolding take_block
length-take_block [] = omega arith
length-take_block (none ∷ rows) = omega arith
length-take_block (some row ∷ rows) = ground (arith, length-take_block rows)

abbrev pub rows_of : List Block → List (Option Row)
rows_of [] = []
rows_of (none ∷ blocks) = none ∷ rows_of blocks
rows_of (some block ∷ blocks) = map some block ++ rows_of blocks

abbrev Separate : List Block → Type 0
Separate (some block ∷ blocks) = ⊥
Separate _ = Unit

-- No block is empty, and between two blocks there is a blank line.
abbrev pub IsBlocks : List Block → Type 0
IsBlocks [] = Unit
IsBlocks (none ∷ blocks) = IsBlocks blocks
IsBlocks (some block ∷ blocks) = (is_empty block ≡ false) × Separate blocks × IsBlocks blocks

extend-IsBlocks :
    (row : Row) (blocks : List Block)
    → IsBlocks blocks
    → IsBlocks (extend row blocks) × (rows_of (extend row blocks) ≡ some row ∷ rows_of blocks)
extend-IsBlocks row [] h = ((refl, tt, tt), refl)
extend-IsBlocks row (none ∷ blocks) h = ((refl, tt, h), refl)
extend-IsBlocks row (some block ∷ blocks) (full, apart, h) = ((refl, apart, h), refl)

blocks_of-IsBlocks :
    (rows : List (Option Row)) → IsBlocks (blocks_of rows) × (rows_of (blocks_of rows) ≡ rows)
unfolding blocks_of
blocks_of-IsBlocks [] = (tt, refl)
blocks_of-IsBlocks (none ∷ rows) =
    let (good, same) = blocks_of-IsBlocks rows in (good, ap (λ rest. none ∷ rest) same)
blocks_of-IsBlocks (some row ∷ rows) =
    let (good, same) = blocks_of-IsBlocks rows in
    let (kept, read) = extend-IsBlocks row (blocks_of rows) good in
    (kept, read ∙ ap (λ rest. some row ∷ rest) same)

module _ {S : Type 0} (w : Writer S) where
  abbrev Step : Type 0
  Step = S → Result WriteError (Unit {0}) × S

  and_then_congr :
      (x : Result WriteError (Unit {0}) × S) (k l : Step)
      → ((s : S) → k s ≡ l s)
      → and_then x k ≡ and_then x l
  and_then_congr (err e, s) k l h = refl
  and_then_congr (ok done, s) k l h = h s

  and_then_assoc :
      (x : Result WriteError (Unit {0}) × S) (k l : Step)
      → and_then (and_then x k) l ≡ and_then x (λ s. and_then (k s) l)
  and_then_assoc (err e, s) k l = refl
  and_then_assoc (ok done, s) k l = refl

  write_all-append :
      (left right : List Text) (s : S)
      → write_all w (left ++ right) s ≡ and_then (write_all w left s) (write_all w right)
  unfolding write_all
  write_all-append [] right s = refl
  write_all-append (value ∷ left) right s =
      and_then_congr (write w value s) _ _ (write_all-append left right)
      ∙ sym (and_then_assoc (write w value s) (write_all w left) (write_all w right))

  -- With at least one unit of fuel for each row, the loop writes exactly the strings of the blocks,
  -- up to the first error of the writer.
  write_rows-eq :
      (fuel : ℕ) (enabled : Bool) (rows : List (Option Row)) (s : S)
      → length rows ≤ fuel
      → write_rows w fuel enabled rows s ≡ write_all w (table_pieces enabled (blocks_of rows)) s
  unfolding write_rows table_pieces blocks_of write_all write_table_block
  write_rows-eq fuel enabled [] s h = refl
  write_rows-eq zero enabled (row ∷ rows) s h = absurd (ground (arith, h))
  write_rows-eq (suc fuel) enabled (none ∷ rows) s h =
      and_then_congr (write w newline s) _ _
        (λ s'. write_rows-eq fuel enabled rows s' (omega (arith, h)))
  write_rows-eq (suc fuel) enabled (some row ∷ rows) s h =
      let rest = (take_block rows).1 in
      let pieces = row_pieces enabled (sized_rows (row ∷ (take_block rows).0)) in
      and_then_congr (write_all w pieces s) _ _
        (λ s'. write_rows-eq fuel enabled rest s' (omega (arith, h, length-take_block rows)))
      ∙ sym (write_all-append pieces (table_pieces enabled (blocks_of rest)) s)
      ∙ ap (λ blocks. write_all w (table_pieces enabled blocks) s)
          (sym (blocks_of-take_block row rows))

  -- Writing a table ends, and it has written, up to the first error of the writer, its blocks in
  -- order: the blocks are the rows of the table, none is empty, and blank lines separate them.
  pub write_table_lem :
      (enabled : Bool) (rows : List (Option Row)) (s : S)
      → (write_table w enabled rows s ≡ write_all w (table_pieces enabled (blocks_of rows)) s)
        × IsBlocks (blocks_of rows)
        × (rows_of (blocks_of rows) ≡ rows)
  unfolding write_table
  write_table_lem enabled rows s =
      let (good, same) = blocks_of-IsBlocks rows in
      (write_rows-eq (length rows) enabled rows s (omega arith), good, same)
