-- ===== src/Chunking/Sheets.antt =====
-- chunking/service.py: `_chunk_spreadsheet` and `chunk_document`.
use secure_portfolio_copilot.Base.{
  Bool, List, List-eq, Option-eq, String-eq, [], any, contains, if◌then◌else◌, is_empty, length,
  ltb, map, none, not, some, total, ℕ, ℕ-eq, ◌&&◌, ◌++◌, ◌+◌, ◌==◌, ◌||◌, ◌∷◌,
}
use secure_portfolio_copilot.Text.{Text}
use secure_portfolio_copilot.Chunking.Units.{text_before, sorted, SpreadsheetUnit}
use secure_portfolio_copilot.Chunking.Contracts.{
  ◌>>=◌, source_limit_exceeded, csv, invalid_source, xlsx, invalid_lifecycle, pdf, chunking_error,
  done, Chunked, ParsedPage, ParsedCell, GeneratedChunk, FileKind, ParsedDocument, ParsedSheet,
  ChunkingLimits, ParsedRow, ChunkMetadata,
}
use secure_portfolio_copilot.Chunking.Groups.{
  row_before, last_unit, group_content, row_units, group_units,
}
use secure_portfolio_copilot.Chunking.Documents.{chunk_pdf, append, Rendering}

-- What is carried from row to row.
pub record Counts : Type 0 where
  pub row_count : ℕ
  pub cell_count : ℕ

abbrev pub count_row : Counts → ParsedRow → Counts
count_row counts row = record {
  row_count = counts.row_count + 1;
  cell_count = counts.cell_count + length row.cells;
}

abbrev pub seen_sheet : List (ℕ × Text) → ParsedSheet → Bool
seen_sheet seen sheet =
    any (λ (s : ℕ × Text). (s.0 == sheet.sheet_index) && (s.1 == sheet.name)) seen

abbrev pub sheet_before : ParsedSheet → ParsedSheet → Bool
sheet_before a b =
    ltb a.sheet_index b.sheet_index
    || ((a.sheet_index == b.sheet_index) && text_before a.name b.name)

abbrev pub cell_chars : ParsedRow → ℕ
cell_chars row = total (map (λ (c : ParsedCell). length c.value_text) row.cells)

abbrev pub sheet_chars : ParsedSheet → ℕ
sheet_chars sheet = total (map cell_chars sheet.rows)

abbrev pub source_chars : ParsedDocument → ℕ
source_chars parsed =
    total (map (λ (p : ParsedPage). length p.text) parsed.pages)
    + total (map sheet_chars parsed.sheets)

-- `if not chunks`
abbrev pub some_chunks : List GeneratedChunk → Chunked (List GeneratedChunk)
some_chunks [] = chunking_error invalid_source
some_chunks (c ∷ chunks) = done (c ∷ chunks)

module _ (rendering : Rendering) (metadata : ChunkMetadata) (limits : ChunkingLimits) where
  -- `for row in sorted(sheet.rows, …)`, with `sheet_units`
  unfoldable pub sheet_rows :
      List ℕ
      → Counts
      → List SpreadsheetUnit
      → List ParsedRow
      → Chunked (Counts × List SpreadsheetUnit)
  unfolding row_units
  sheet_rows seen counts units [] = done (counts, units)
  sheet_rows seen counts units (row ∷ rows) =
      let next = count_row counts row in
      if contains seen row.row_number
      then chunking_error invalid_source
      else if ltb limits.max_rows next.row_count || ltb limits.max_cells next.cell_count
      then chunking_error source_limit_exceeded
      else (row_units rendering.dumps row limits.max_content_chars >>= λ new.
          sheet_rows (row.row_number ∷ seen) next (units ++ new) rows)

  abbrev pub sheet_chunk :
      FileKind
      → Text
      → SpreadsheetUnit
      → List SpreadsheetUnit
      → List GeneratedChunk
      → GeneratedChunk
  sheet_chunk kind name first units chunks = record {
    ordinal = length chunks;
    metadata = metadata;
    source_type = kind;
    content = group_content (first ∷ units);
    content_hash = rendering.hash_content (group_content (first ∷ units));
    page_number = none;
    sheet_name = some name;
    row_start = some first.row_number;
    row_end = some (last_unit first units).row_number;
    cell_start = some first.cell_start;
    cell_end = some (last_unit first units).cell_end;
  }

  -- `for … in _group_units(sheet_units, limits)`; no group is empty
  unfoldable pub sheet_groups :
      FileKind
      → Text
      → List GeneratedChunk
      → List (List SpreadsheetUnit)
      → Chunked (List GeneratedChunk)
  unfolding append
  sheet_groups kind name chunks [] = done chunks
  sheet_groups kind name chunks ([] ∷ groups) = sheet_groups kind name chunks groups
  sheet_groups kind name chunks ((first ∷ units) ∷ groups) =
      append limits chunks (sheet_chunk kind name first units chunks) >>= λ next.
      sheet_groups kind name next groups

  -- `for sheet in sorted(parsed.sheets, …)`
  unfoldable pub sheets_from :
      FileKind
      → List (ℕ × Text)
      → Counts
      → List GeneratedChunk
      → List ParsedSheet
      → Chunked (List GeneratedChunk)
  unfolding sheet_rows sheet_groups group_units sorted
  sheets_from kind seen counts chunks [] = done chunks
  sheets_from kind seen counts chunks (sheet ∷ sheets) =
      if seen_sheet seen sheet
      then chunking_error invalid_source
      else (sheet_rows [] counts [] (sorted row_before sheet.rows) >>= λ r.
          sheet_groups kind sheet.name chunks (group_units limits r.1) >>= λ next.
          sheets_from kind ((sheet.sheet_index, sheet.name) ∷ seen) r.0 next sheets)

  -- `_chunk_spreadsheet`
  unfoldable pub chunk_spreadsheet : ParsedDocument → Chunked (List GeneratedChunk)
  unfolding sheets_from sorted
  chunk_spreadsheet parsed =
      if not (is_empty parsed.pages) || ltb limits.max_sheets (length parsed.sheets)
      then chunking_error invalid_source
      else sheets_from parsed.kind [] (record { row_count = 0; cell_count = 0 }) []
          (sorted sheet_before parsed.sheets)

  abbrev pub chunk_kind : FileKind → ParsedDocument → Chunked (List GeneratedChunk)
  chunk_kind pdf parsed = chunk_pdf rendering metadata limits parsed
  chunk_kind xlsx parsed = chunk_spreadsheet parsed
  chunk_kind csv parsed = chunk_spreadsheet parsed

  -- `chunk_document`
  unfoldable pub chunk_document : ParsedDocument → Chunked (List GeneratedChunk)
  unfolding chunk_spreadsheet chunk_pdf
  chunk_document parsed =
      if not (metadata.version_status == "APPROVED")
        || (not metadata.active || (metadata.document_deleted || metadata.version_deleted))
      then chunking_error invalid_lifecycle
      else if ltb limits.max_source_chars parsed.text_length
          || ltb limits.max_source_chars (source_chars parsed)
      then chunking_error source_limit_exceeded
      else (chunk_kind parsed.kind parsed >>= some_chunks)
