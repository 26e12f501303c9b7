-- ===== src/Cli/Table.antt =====
-- internal/cli/output.go: coloured cells, and tables with elastic columns.
pub mod Blocks
pub mod Widths
use labdns.Base.{
  ℕ, zero, suc, ◌+◌, ◌-◌, Bool, true, false, not, ◌&&◌, ◌||◌, Option, none, some, List, [], ◌∷◌,
  ◌++◌, Text, codes, length, is_empty, leb, ltb, if◌then◌else◌, ◌==◌, list_eq, nat_eq, map,
}
use labdns.Base.Results.{Result, ok, err, ◌>>=◌, ◌>>◌}

pub data AnsiColor : Type 0 where
  uncoloured green yellow red : AnsiColor

abbrev pub color_beq : AnsiColor → AnsiColor → Bool
color_beq uncoloured uncoloured = true
color_beq green green = true
color_beq yellow yellow = true
color_beq red red = true
color_beq _ _ = false

-- The escape byte, and the sequences that it starts.
abbrev pub escape : ℕ
escape = 27

abbrev pub ansi_reset : Text
ansi_reset = escape ∷ codes "[0m"

unfoldable pub color_code : AnsiColor → Text
color_code green = escape ∷ codes "[32m"
color_code yellow = escape ∷ codes "[33m"
color_code red = escape ∷ codes "[31m"
color_code uncoloured = []

pub record Segment : Type 0 where
  pub text : Text
  pub color : AnsiColor

abbrev pub Cell : Type 0
Cell = List Segment

abbrev pub Row : Type 0
Row = List Cell

unfoldable pub plain_cell : Text → Cell
plain_cell text = record { text = text; color = uncoloured } ∷ []

unfoldable pub color_cell : Text → AnsiColor → Cell
unfolding plain_cell
color_cell text color =
    if is_empty text || color_beq color uncoloured
    then plain_cell text
    else record { text = text; color = color } ∷ []

unfoldable pub segment_rendered : Bool → Segment → Text
unfolding color_code
segment_rendered enabled segment =
    if not enabled || color_beq segment.color uncoloured || is_empty segment.text
    then segment.text
    else color_code segment.color ++ segment.text ++ ansi_reset

unfoldable pub cell_text : Cell → Text
cell_text [] = []
cell_text (segment ∷ cell) = segment.text ++ cell_text cell

unfoldable pub cell_rendered : Bool → Cell → Text
unfolding segment_rendered
cell_rendered enabled [] = []
cell_rendered enabled (segment ∷ cell) =
    segment_rendered enabled segment ++ cell_rendered enabled cell

-- `utf8.RuneCountInString`, at well-formed UTF-8: the bytes that do not continue a rune.
unfoldable pub rune_count : Text → ℕ
rune_count [] = 0
rune_count (c ∷ s) = if leb 128 c && ltb c 192 then rune_count s else suc (rune_count s)

unfoldable pub width : Cell → ℕ
unfolding cell_text rune_count
width cell = rune_count (cell_text cell)

-- The row has a column behind this one.
abbrev pub goes_past : ℕ → Row → Bool
goes_past column row = ltb (suc column) (length row)

-- The cell of a column, which is there where the row goes past it.
abbrev pub cell_at : ℕ → Row → Cell
cell_at column [] = []
cell_at zero (cell ∷ row) = cell
cell_at (suc column) (cell ∷ row) = cell_at column row

abbrev pub width_at : ℕ → List ℕ → ℕ
width_at column [] = 0
width_at zero (w ∷ widths) = w
width_at (suc column) (w ∷ widths) = width_at column widths

abbrev pub set_width : ℕ → ℕ → List ℕ → List ℕ
set_width column w [] = []
set_width zero w (v ∷ widths) = w ∷ widths
set_width (suc column) w (v ∷ widths) = v ∷ set_width column w widths

abbrev pub zeros : ℕ → List ℕ
zeros zero = []
zeros (suc n) = 0 ∷ zeros n

-- A row of the block, with the widths that are known of its columns.
abbrev pub Sized : Type 0
Sized = Row × List ℕ

abbrev pub max : ℕ → ℕ → ℕ
max a b = if leb a b then b else a

-- The inner loop: the rows from here on that go past the column, their greatest width, and the rest.
unfoldable pub run : ℕ → ℕ → List Sized → List Sized × (ℕ × List Sized)
unfolding width
run column w [] = ([], (w, []))
run column w (sized ∷ rows) =
    let (taken, (greatest, rest)) = run column (max w (width (cell_at column sized.0))) rows in
    if goes_past column sized.0 then (sized ∷ taken, (greatest, rest)) else ([], (w, sized ∷ rows))

abbrev pub assign : ℕ → ℕ → List Sized → List Sized
assign column w [] = []
assign column w ((row, widths) ∷ rows) = (row, set_width column w widths) ∷ assign column w rows

-- The loop over the rows for one column. The fuel counts the rounds; the number of rows is enough.
unfoldable pub fill_column : ℕ → ℕ → List Sized → List Sized
unfolding run
fill_column fuel column [] = []
fill_column zero column (sized ∷ rows) = []
fill_column (suc fuel) column (sized ∷ rows) =
    let (taken, (greatest, rest)) = run column 0 (sized ∷ rows) in
    let skipped = sized ∷ fill_column fuel column rows in
    let filled = assign column greatest taken ++ fill_column fuel column rest in
    if goes_past column sized.0 then filled else skipped

-- The loop over the columns below `count`.
unfoldable pub fill_columns : ℕ → List Sized → List Sized
unfolding fill_column
fill_columns zero rows = rows
fill_columns (suc column) rows =
    let before = fill_columns column rows in fill_column (length before) column before

abbrev pub start_rows : List Row → List Sized
start_rows [] = []
start_rows (row ∷ rows) = (row, zeros (length row - 1)) ∷ start_rows rows

abbrev pub max_columns : List Row → ℕ
max_columns [] = 0
max_columns (row ∷ rows) = max (length row - 1) (max_columns rows)

unfoldable pub sized_rows : List Row → List Sized
unfolding fill_columns
sized_rows rows = fill_columns (max_columns rows) (start_rows rows)

-- An `io.Writer` over some state: how many bytes were written, and maybe an error.
pub record Writer (S : Type 0) : Type 0 where
  pub write_string : Text → S → (ℕ × Bool) × S

pub data WriteError : Type 0 where
  write_failed short_write : WriteError

abbrev pub spaces : ℕ → Text
spaces zero = []
spaces (suc n) = b' ' ∷ spaces n

-- What stands behind a cell that is not the last one of its row.
abbrev pub padding : ℕ → Cell → Text
padding w cell = spaces (w + 2 - width cell)

-- `if err := …; err != nil { return err }`
abbrev pub and_then :
    {S : Type 0}
    → Result WriteError (Unit {0}) × S
    → (S → Result WriteError (Unit {0}) × S)
    → Result WriteError (Unit {0}) × S
and_then (err e, s) k = (err e, s)
and_then (ok _, s) k = k s

module _ {S : Type 0} (w : Writer S) where
  -- `writeString`, with the state behind it.
  unfoldable pub write : Text → S → Result WriteError (Unit {0}) × S
  write value s =
      let ((written, failed), s') = w.write_string value s in
      if failed
      then (err write_failed, s')
      else if written == length value
      then (ok tt, s')
      else (err short_write, s')

  -- Some strings, up to the first error.
  unfoldable pub write_all : List Text → S → Result WriteError (Unit {0}) × S
  unfolding write
  write_all [] s = (ok tt, s)
  write_all (value ∷ values) s = and_then (write value s) (λ s'. write_all values s')

-- The strings that are written for the cells of a row, the first of them in the given column.
unfoldable pub cell_pieces : Bool → ℕ → List ℕ → Row → List Text
unfolding cell_rendered width
cell_pieces enabled column widths [] = []
cell_pieces enabled column widths (cell ∷ []) = cell_rendered enabled cell ∷ []
cell_pieces enabled column widths (cell ∷ next ∷ cells) =
    cell_rendered enabled cell
    ∷ padding (width_at column widths) cell
    ∷ cell_pieces enabled (suc column) widths (next ∷ cells)

abbrev pub newline : Text
newline = b'\n' ∷ []

unfoldable pub row_pieces : Bool → List Sized → List Text
unfolding cell_pieces
row_pieces enabled [] = []
row_pieces enabled ((row, widths) ∷ rows) =
    cell_pieces enabled 0 widths row ++ newline ∷ row_pieces enabled rows

-- `rows[start:end]`: the rows up to the next blank line, and what is left.
unfoldable pub take_block : List (Option Row) → List Row × List (Option Row)
take_block [] = ([], [])
take_block (none ∷ rows) = ([], none ∷ rows)
take_block (some row ∷ rows) = let (block, rest) = take_block rows in (row ∷ block, rest)

module _ {S : Type 0} (w : Writer S) where
  unfoldable pub write_table_block : Bool → List Row → S → Result WriteError (Unit {0}) × S
  unfolding write_all row_pieces sized_rows
  write_table_block enabled rows s = write_all w (row_pieces enabled (sized_rows rows)) s

  -- The loop of `writeTable` over what is left of the rows. The fuel counts its rounds.
  unfoldable pub write_rows : ℕ → Bool → List (Option Row) → S → Result WriteError (Unit {0}) × S
  unfolding write write_table_block take_block
  write_rows fuel enabled [] s = (ok tt, s)
  write_rows zero enabled (row ∷ rows) s = (ok tt, s)
  write_rows (suc fuel) enabled (none ∷ rows) s =
      and_then (write w newline s) (λ s'. write_rows fuel enabled rows s')
  write_rows (suc fuel) enabled (some row ∷ rows) s =
      let (block, rest) = take_block rows in
      and_then (write_table_block enabled (row ∷ block) s) (λ s'. write_rows fuel enabled rest s')

  unfoldable pub write_table : Bool → List (Option Row) → S → Result WriteError (Unit {0}) × S
  unfolding write_rows
  write_table enabled rows s = write_rows (length rows) enabled rows s
