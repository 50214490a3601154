-- ===== src/Chunking/Units.antt =====
-- chunking/service.py: the rows of a sheet as bounded units, and the units in groups. The encoder
-- json.dumps is a parameter.
use secure_portfolio_copilot.Base.{
  Bool, List, List-eq, Option, Option-eq, String-eq, [], false, if◌then◌else◌, leb, length, ltb,
  map, none, some, ℕ, ℕ-eq, ◌&&◌, ◌++◌, ◌+◌, ◌-◌, ◌==◌, ◌||◌, ◌∷◌,
}
use secure_portfolio_copilot.Chunking.Contracts.{
  ◌>>=◌, result_limit_exceeded, endless, done, chunking_error, ParsedCell, Chunked,
}
use secure_portfolio_copilot.Chunking.Splitting.{bounded_text}
use secure_portfolio_copilot.Text.{decimal, join, codes, Text}

pub record SpreadsheetUnit : Type 0 where
  pub row_number : ℕ
  pub cell_start : Text
  pub cell_end : Text
  pub content : Text

abbrev pub tab : Text
tab = 9 ∷ []

-- A cell that is placed: its coordinate and its token.
abbrev pub Placed : Type 0
Placed = Text × Text

abbrev pub tokens : List Placed → List Text
tokens placed = map (λ (p : Placed). p.1) placed

abbrev pub last_coordinate : Text → List Placed → Text
last_coordinate coordinate [] = coordinate
last_coordinate coordinate (p ∷ placed) = last_coordinate p.0 placed

-- `row {row.row_number}\t`
abbrev pub row_prefix : ℕ → Text
row_prefix number = codes "row " ++ (decimal number ++ tab)

abbrev pub row_content : ℕ → List Text → Text
row_content number tokens = row_prefix number ++ join tab tokens

-- `flush`
abbrev pub flush : ℕ → List Placed → List SpreadsheetUnit
flush number [] = []
flush number (p ∷ placed) =
    record {
      row_number = number;
      cell_start = p.0;
      cell_end = last_coordinate p.0 placed;
      content = row_content number (tokens (p ∷ placed));
    }
    ∷ []

abbrev pub fragment_unit : ℕ → Text → Text → SpreadsheetUnit
fragment_unit number coordinate fragment = record {
  row_number = number;
  cell_start = coordinate;
  cell_end = coordinate;
  content = (row_prefix number ++ (coordinate ++ codes "=")) ++ fragment;
}

abbrev pub with_units :
    List SpreadsheetUnit → Chunked (List SpreadsheetUnit) → Chunked (List SpreadsheetUnit)
with_units units rest = rest >>= λ later. done (units ++ later)

-- the units of a cell that is split, and what follows
abbrev pub fragments :
    ℕ → Text → Option (List Text) → Chunked (List SpreadsheetUnit) → Chunked (List SpreadsheetUnit)
fragments number coordinate none rest = endless
fragments number coordinate (some parts) rest =
    with_units (map (fragment_unit number coordinate) parts) rest

module _ (dumps : Text → Text) where
  -- `_render_cell`
  abbrev pub render_cell : ParsedCell → Text
  render_cell cell = cell.coordinate ++ (codes "=" ++ dumps cell.value_text)

  abbrev pub placed_cell : ParsedCell → Placed
  placed_cell cell = (cell.coordinate, render_cell cell)

  -- a cell that is too long for a unit of its own
  unfoldable pub split_cell :
      ℕ → ℕ → ParsedCell → Chunked (List SpreadsheetUnit) → Chunked (List SpreadsheetUnit)
  split_cell maximum number cell rest =
      let value_prefix = row_prefix number ++ (cell.coordinate ++ codes "=") in
      if leb maximum (length value_prefix)
      then chunking_error result_limit_exceeded
      else fragments number cell.coordinate
          (bounded_text (dumps cell.value_text) (maximum - length value_prefix)) rest

  -- `for cell in cells`, with `current`
  unfoldable pub units_from : ℕ → ℕ → List Placed → List ParsedCell → Chunked (List SpreadsheetUnit)
  unfolding split_cell
  units_from maximum number current [] = done (flush number current)
  units_from maximum number current (cell ∷ cells) =
      let joined = units_from maximum number (current ++ placed_cell cell ∷ []) cells in
      let alone = units_from maximum number (placed_cell cell ∷ []) cells in
      let after = units_from maximum number [] cells in
      if leb (length (row_content number (tokens current ++ render_cell cell ∷ []))) maximum
      then joined
      else with_units (flush number current) (
          if leb (length (row_prefix number) + length (render_cell cell)) maximum
          then alone
          else split_cell maximum number cell after)

-- `sorted(…)` by a Boolean test, which keeps the order of what is equal
unfoldable pub insert : {A : Type 0} → (A → A → Bool) → A → List A → List A
insert before x [] = x ∷ []
insert before x (y ∷ ys) =
    let rest = insert before x ys in if before y x then y ∷ rest else x ∷ y ∷ ys

unfoldable pub sorted : {A : Type 0} → (A → A → Bool) → List A → List A
unfolding insert
sorted before [] = []
sorted before (x ∷ xs) = insert before x (sorted before xs)

-- strings as Python orders them
unfoldable pub text_before : Text → Text → Bool
text_before [] t = false
text_before (c ∷ s) [] = false
text_before (c ∷ s) (d ∷ t) = ltb c d || ((c == d) && text_before s t)
