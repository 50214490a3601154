-- ===== src/Chunking/Groups.antt =====
-- chunking/service.py: `_row_units` and `_group_units`.
use secure_portfolio_copilot.Base.{
  Bool, List, List-eq, Option-eq, String-eq, [], contains, false, if◌then◌else◌, is_empty, length,
  ltb, map, not, suc, ℕ, ℕ-eq, ◌&&◌, ◌++◌, ◌==◌, ◌||◌, ◌∷◌,
}
use secure_portfolio_copilot.Text.{join, Text}
use secure_portfolio_copilot.Chunking.Contracts.{
  invalid_source, chunking_error, Chunked, ParsedRow, ChunkingLimits, ParsedCell,
}
use secure_portfolio_copilot.Chunking.Splitting.{newline}
use secure_portfolio_copilot.Chunking.Units.{units_from, text_before, sorted, SpreadsheetUnit}

abbrev pub cell_before : ParsedCell → ParsedCell → Bool
cell_before a b =
    ltb a.column_number b.column_number
    || ((a.column_number == b.column_number) && text_before a.coordinate b.coordinate)

abbrev pub row_before : ParsedRow → ParsedRow → Bool
row_before a b = ltb a.row_number b.row_number

-- `len(set(numbers)) != len(numbers)`
abbrev pub has_repeated : List ℕ → Bool
has_repeated [] = false
has_repeated (n ∷ ns) = contains ns n || has_repeated ns

-- `_row_units`
unfoldable pub row_units : (Text → Text) → ParsedRow → ℕ → Chunked (List SpreadsheetUnit)
unfolding sorted units_from
row_units dumps row maximum =
    let cells = sorted cell_before row.cells in
    if has_repeated (map (λ (c : ParsedCell). c.column_number) cells)
    then chunking_error invalid_source
    else units_from dumps maximum row.row_number [] cells

-- `len(set(numbers))`
abbrev pub distinct_count : List ℕ → ℕ
distinct_count [] = 0
distinct_count (n ∷ ns) = let rest = distinct_count ns in if contains ns n then rest else suc rest

abbrev pub contents : List SpreadsheetUnit → List Text
contents units = map (λ (u : SpreadsheetUnit). u.content) units

abbrev pub row_numbers : List SpreadsheetUnit → List ℕ
row_numbers units = map (λ (u : SpreadsheetUnit). u.row_number) units

abbrev pub group_content : List SpreadsheetUnit → Text
group_content units = join newline (contents units)

-- whether a unit would make a group too long or too tall
abbrev pub overfull : ChunkingLimits → List SpreadsheetUnit → SpreadsheetUnit → Bool
overfull limits current unit =
    let proposed = current ++ unit ∷ [] in
    not (is_empty current)
    && (ltb limits.max_content_chars (length (group_content proposed))
        || ltb limits.spreadsheet_rows_per_chunk (distinct_count (row_numbers proposed)))

-- the units that `_group_units` yields together; `distinct_rows` are the rows of `current`
unfoldable pub groups_from :
    ChunkingLimits → List SpreadsheetUnit → List SpreadsheetUnit → List (List SpreadsheetUnit)
groups_from limits [] [] = []
groups_from limits (u ∷ current) [] = (u ∷ current) ∷ []
groups_from limits current (unit ∷ units) =
    let alone = groups_from limits (unit ∷ []) units in
    let joined = groups_from limits (current ++ unit ∷ []) units in
    if overfull limits current unit then current ∷ alone else joined

unfoldable pub group_units : ChunkingLimits → List SpreadsheetUnit → List (List SpreadsheetUnit)
unfolding groups_from
group_units limits units = groups_from limits [] units

abbrev pub last_unit : SpreadsheetUnit → List SpreadsheetUnit → SpreadsheetUnit
last_unit u [] = u
last_unit u (v ∷ units) = last_unit v units
