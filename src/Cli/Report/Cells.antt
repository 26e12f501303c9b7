-- ===== src/Cli/Report/Cells.antt =====
-- internal/cli/output.go: the cells of a table, their numbers and their colours.
use labdns.Base.{
  ℕ, zero, suc, ◌+◌, ◌/◌, ◌%◌, Bool, true, false, not, ◌&&◌, List, [], ◌∷◌, ◌++◌, Text, Map, ℤ, pos,
  negsuc, codes, join, contains, to_lower, sort_texts, int_ltb, nat_beq, if◌then◌else◌, ◌==◌,
  list_eq, nat_eq, ltb,
}
use labdns.Cli.Model.{
  state_current, state_missing, state_observed, state_stale, state_invalid, state_unsupported,
  state_nxdomain, state_match, state_mismatch,
}
use labdns.Cli.Table.{AnsiColor, uncoloured, green, yellow, red, Cell, plain_cell, color_cell}

-- The digits of a number; the fuel is at least their count.
abbrev digits : ℕ → ℕ → Text → Text
digits zero n acc = acc
digits (suc fuel) n acc = elim (n / 10) [
  | zero ↦ (b'0' + n % 10) ∷ acc
  | suc rest ↦ digits fuel (suc rest) ((b'0' + n % 10) ∷ acc)
]

-- `strconv.Itoa`
unfoldable pub decimal : ℕ → Text
decimal n = digits (suc n) n []

-- `strconv.FormatInt(n, 10)`
unfoldable pub decimal_int : ℤ → Text
unfolding decimal
decimal_int (pos n) = decimal n
decimal_int (negsuc n) = b'-' ∷ decimal (suc n)

abbrev pub bool_text : Bool → Text
bool_text true = codes "true"
bool_text false = codes "false"

unfoldable pub color_for_state : Text → AnsiColor
unfolding to_lower
color_for_state state =
    let lower = to_lower state in
    if contains (codes "healthy" ∷ state_current ∷ state_observed ∷ state_match ∷ []) lower
    then green
    else if contains
        (codes "unobserved"
          ∷ state_stale
          ∷ codes "pending"
          ∷ codes "degraded"
          ∷ codes "warning"
          ∷ codes "retiring"
          ∷ [])
        lower
    then yellow
    else if contains
        (codes "unhealthy"
          ∷ state_invalid
          ∷ state_missing
          ∷ codes "uid mismatch"
          ∷ state_mismatch
          ∷ state_nxdomain
          ∷ state_unsupported
          ∷ codes "error"
          ∷ codes "unavailable"
          ∷ codes "failed"
          ∷ [])
        lower
    then red
    else uncoloured

unfoldable pub color_for_dns_state : Text → AnsiColor
unfolding to_lower
color_for_dns_state state =
    let lower = to_lower state in
    if lower == state_match
    then green
    else if contains
        (state_mismatch ∷ state_nxdomain ∷ state_unsupported ∷ codes "error" ∷ codes "failed" ∷ [])
        lower
    then red
    else uncoloured

-- `outputColorizer.state`
unfoldable pub state_cell : Text → Cell
unfolding color_cell color_for_state
state_cell state = color_cell state (color_for_state state)

unfoldable pub found_state : Bool → Bool → Text
found_state found uid_matches =
    if not found
    then state_missing
    else if not uid_matches
    then codes "UID mismatch"
    else state_current

unfoldable pub present_state : Bool → Text
present_state found = if found then state_current else state_missing

abbrev assignments : Text → List Text → List Text
assignments name [] = []
assignments name (value ∷ values) = (name ++ b'=' ∷ value) ∷ assignments name values

abbrev all_assignments : Map Text (List Text) → List Text
all_assignments [] = []
all_assignments ((name, values) ∷ properties) =
    assignments name values ++ all_assignments properties

unfoldable pub format_properties : Map Text (List Text) → Text
unfolding join
format_properties properties = join (sort_texts (all_assignments properties)) (codes ", ")

unfoldable pub non_zero_cell : ℕ → AnsiColor → Cell
unfolding plain_cell color_cell decimal
non_zero_cell value color =
    if nat_beq value 0 then plain_cell (decimal value) else color_cell (decimal value) color

unfoldable pub controller_availability_color : ℤ → ℤ → AnsiColor
controller_availability_color available desired =
    if int_ltb (pos 0) desired && not (int_ltb available desired)
    then green
    else if int_ltb (pos 0) desired && int_ltb (pos 0) available
    then yellow
    else red

unfoldable pub ready_pods_color : ℕ → ℤ → AnsiColor
ready_pods_color ready desired =
    if int_ltb (pos 0) desired && not (int_ltb (pos ready) desired)
    then green
    else if int_ltb (pos 0) desired && ltb 0 ready
    then yellow
    else red
