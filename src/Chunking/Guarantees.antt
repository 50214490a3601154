-- ===== src/Chunking/Guarantees.antt =====
-- chunking/service.py: what `chunk_document` guarantees.
use secure_portfolio_copilot.Base.{
  All, Bool-cases, List, List-eq, Option-eq, String-eq, [], all, ap, append-nil, append_assoc,
  arith, contains, eq_iff, false, inl, inr, is_empty, length, length-append, ltb, not, refl, subst,
  sym, true, ℕ, ℕ-eq, ◌++◌, ◌==◌, ◌||◌, ◌∙◌, ◌∷◌, ◌≡◌, ◌≤◌,
}
use secure_portfolio_copilot.Text.{join, Text}
use secure_portfolio_copilot.Chunking.Units.{sorted, SpreadsheetUnit}
use secure_portfolio_copilot.Chunking.Contracts.{
  csv, xlsx, pdf, limits_fit, ParsedDocument, ParsedSheet, GeneratedChunk, FileKind, ParsedRow,
  valid_chunk, ChunkingLimits, ChunkMetadata,
}
use secure_portfolio_copilot.Chunking.Groups.{
  row_before, last_unit, row_numbers, group_units, group_content,
}
use secure_portfolio_copilot.Chunking.Sheets.{
  sheet_before, source_chars, chunk_kind, chunk_document, some_chunks, chunk_spreadsheet, count_row,
  seen_sheet, sheet_chunk, Counts, sheets_from, sheet_groups, sheet_rows,
}
use secure_portfolio_copilot.Chunking.Grouping.{group_units-Fits, all_units, Short}
use secure_portfolio_copilot.Chunking.Fitting.{
  All-both, row_units-Fits, Returns-bind, Returns, Fits,
}
use secure_portfolio_copilot.Chunking.Parts.{Bounded}
use secure_portfolio_copilot.Chunking.Splitting.{newline}
use secure_portfolio_copilot.Chunking.Ordering.{
  Upward-sorted, all_units-Ordered, row_numbers-append, Upward-spread, Ordered, numbers, Upward,
}
use secure_portfolio_copilot.Chunking.Chunks.{
  chunk_pdf-Chunks, no-Chunks, append-Chunks, filled-text, Chunks,
}
use secure_portfolio_copilot.Chunking.Documents.{Rendering}

-- A unit that is neither empty nor too long.
abbrev Good : ChunkingLimits → SpreadsheetUnit → Type 0
Good limits u = Bounded limits.max_content_chars u.content

Fits-Good :
    (limits : ChunkingLimits) (number : ℕ) (units : List SpreadsheetUnit)
    → All (Fits limits.max_content_chars number) units
    → All (Good limits) units × All (λ m. m ≡ number) (row_numbers units)
Fits-Good limits number [] h = (tt, tt)
Fits-Good limits number (u ∷ units) (h, hs) =
    let (good, same) = Fits-Good limits number units hs in
    (((h.filled, h.bounded), good), (h.row, same))

Good-Short :
    (limits : ChunkingLimits) (units : List SpreadsheetUnit)
    → All (Good limits) units
    → All (Short limits) units
Good-Short limits [] h = tt
Good-Short limits (u ∷ units) ((_, short), h) = (short, Good-Short limits units h)

Good-groups :
    (limits : ChunkingLimits) (groups : List (List SpreadsheetUnit))
    → All (Good limits) (all_units groups)
    → All (All (Good limits)) groups
Good-groups limits [] h = tt
Good-groups limits ([] ∷ groups) h = (tt, Good-groups limits groups h)
Good-groups limits ((u ∷ units) ∷ groups) (good, h) =
    let (here, rest) = split units h in ((good, here), Good-groups limits groups rest)
  where
    split :
        (units : List SpreadsheetUnit)
        → All (Good limits) (units ++ all_units groups)
        → All (Good limits) units × All (Good limits) (all_units groups)
    split [] h = (tt, h)
    split (u ∷ units) (h, hs) = let (here, rest) = split units hs in ((h, here), rest)

group_content-filled :
    (u : SpreadsheetUnit) (units : List SpreadsheetUnit)
    → 1 ≤ length u.content
    → 1 ≤ length (group_content (u ∷ units))
unfolding join
group_content-filled u [] h = h
group_content-filled u (v ∷ units) h =
    omega (arith, h, length-append u.content (newline ++ group_content (v ∷ units)))

module _ (rendering : Rendering) (metadata : ChunkMetadata) (limits : ChunkingLimits)
    (room : 1 ≤ limits.max_content_chars) (tall : 1 ≤ limits.spreadsheet_rows_per_chunk) where
  -- The units of a sheet's rows.
  abbrev SheetUnits : Counts × List SpreadsheetUnit → Type 0
  SheetUnits r = All (Good limits) r.1 × Upward (row_numbers r.1)

  sheet_rows-Units :
      (seen : List ℕ) (counts : Counts) (units : List SpreadsheetUnit) (rows : List ParsedRow)
      → All (Good limits) units
      → Upward (row_numbers units ++ numbers rows)
      → Returns SheetUnits (sheet_rows rendering metadata limits seen counts units rows)
  unfolding sheet_rows
  sheet_rows-Units seen counts units [] good up =
      (good, subst Upward (append-nil (row_numbers units)) up)
  sheet_rows-Units seen counts units (row ∷ rows) good up =
      elim (Bool-cases (contains seen row.row_number)) [
        | inl e ↦ rw e tt
        | inr e ↦
            rw e
              (elim (Bool-cases (
                ltb limits.max_rows (count_row counts row).row_count
                || ltb limits.max_cells (count_row counts row).cell_count)) [
                  | inl f ↦ rw f tt
                  | inr f ↦ rw f (
                      Returns-bind (All (Fits limits.max_content_chars row.row_number)) SheetUnits _
                        _ (row_units-Fits rendering.dumps row limits.max_content_chars)
                        (λ new fits.
                          let (more, same) = Fits-Good limits row.row_number new fits in
                          let spread =
                            Upward-spread row.row_number (row_numbers units) (row_numbers new)
                              (numbers rows) same up in
                          sheet_rows-Units (row.row_number ∷ seen) (count_row counts row)
                            (units ++ new) rows (All-both (Good limits) units new good more)
                            (subst Upward
                              (sym (
                                  append_assoc (row_numbers units) (row_numbers new) (numbers rows))
                                ∙ ap (λ ns. ns ++ numbers rows)
                                    (sym (row_numbers-append units new)))
                              spread)))
                ])
      ]

  sheet_chunk-valid :
      (kind : FileKind) (name : Text) (u : SpreadsheetUnit) (units : List SpreadsheetUnit)
      (chunks : List GeneratedChunk)
      → 1 ≤ length (group_content (u ∷ units))
      → u.row_number ≤ (last_unit u units).row_number
      → valid_chunk (sheet_chunk rendering metadata limits kind name u units chunks) ≡ true
  unfolding valid_chunk
  sheet_chunk-valid kind name u units chunks some_text order =
      rw (filled-text metadata limits (group_content (u ∷ units)) some_text) (ground (arith, order))

  sheet_groups-Chunks :
      (kind : FileKind) (name : Text) (chunks : List GeneratedChunk)
      (groups : List (List SpreadsheetUnit))
      → Chunks metadata limits chunks
      → All (All (Good limits)) groups
      → All Ordered groups
      → Returns
          (Chunks metadata limits)
          (sheet_groups rendering metadata limits kind name chunks groups)
  unfolding sheet_groups
  sheet_groups-Chunks kind name chunks [] all good order = all
  sheet_groups-Chunks kind name chunks ([] ∷ groups) all (_, good) (_, order) =
      sheet_groups-Chunks kind name chunks groups all good order
  sheet_groups-Chunks kind name chunks ((u ∷ units) ∷ groups) all (((some_text, _), _), good)
        (here, order) =
      Returns-bind (Chunks metadata limits) (Chunks metadata limits) _ _
        (append-Chunks metadata limits chunks
          (sheet_chunk rendering metadata limits kind name u units chunks) all refl refl
          (sheet_chunk-valid kind name u units chunks (group_content-filled u units some_text)
            here))
        (λ next more. sheet_groups-Chunks kind name next groups more good order)

  sheet-Chunks :
      (kind : FileKind) (name : Text) (chunks : List GeneratedChunk)
      (r : Counts × List SpreadsheetUnit)
      → Chunks metadata limits chunks
      → SheetUnits r
      → Returns
          (Chunks metadata limits)
          (sheet_groups rendering metadata limits kind name chunks (group_units limits r.1))
  sheet-Chunks kind name chunks (counts, units) all (good, up) =
      let (fits, same) = group_units-Fits limits tall units (Good-Short limits units good) in
      sheet_groups-Chunks kind name chunks (group_units limits units) all
        (Good-groups limits (group_units limits units) (subst (All (Good limits)) (sym same) good))
        (all_units-Ordered (group_units limits units)
          (subst (λ us. Upward (row_numbers us)) (sym same) up))

  sheets_from-Chunks :
      (kind : FileKind) (seen : List (ℕ × Text)) (counts : Counts) (chunks : List GeneratedChunk)
      (sheets : List ParsedSheet)
      → Chunks metadata limits chunks
      → Returns
          (Chunks metadata limits)
          (sheets_from rendering metadata limits kind seen counts chunks sheets)
  unfolding sheets_from group_units
  sheets_from-Chunks kind seen counts chunks [] all = all
  sheets_from-Chunks kind seen counts chunks (sheet ∷ sheets) all =
      elim (Bool-cases (seen_sheet seen sheet)) [
        | inl e ↦ rw e tt
        | inr e ↦ rw e (
            Returns-bind SheetUnits (Chunks metadata limits) _ _
              (sheet_rows-Units [] counts [] (sorted row_before sheet.rows) tt
                (Upward-sorted sheet.rows))
              (λ r units.
                Returns-bind (Chunks metadata limits) (Chunks metadata limits) _ _
                  (sheet-Chunks kind sheet.name chunks r all units)
                  (λ next more.
                    sheets_from-Chunks kind ((sheet.sheet_index, sheet.name) ∷ seen) r.0 next sheets
                      more)))
      ]

  chunk_spreadsheet-Chunks :
      (parsed : ParsedDocument)
      → Returns (Chunks metadata limits) (chunk_spreadsheet rendering metadata limits parsed)
  unfolding chunk_spreadsheet
  chunk_spreadsheet-Chunks parsed =
      elim (Bool-cases
        (not (is_empty parsed.pages) || ltb limits.max_sheets (length parsed.sheets))) [
          | inl e ↦ rw e tt
          | inr e ↦ rw e (
              sheets_from-Chunks parsed.kind [] (record { row_count = 0; cell_count = 0 }) []
                (sorted sheet_before parsed.sheets) (no-Chunks metadata limits rendering room tall))
        ]

  chunk_kind-Chunks :
      (kind : FileKind) (parsed : ParsedDocument)
      → Returns (Chunks metadata limits) (chunk_kind rendering metadata limits kind parsed)
  chunk_kind-Chunks pdf parsed = chunk_pdf-Chunks metadata limits rendering room tall parsed
  chunk_kind-Chunks xlsx parsed = chunk_spreadsheet-Chunks parsed
  chunk_kind-Chunks csv parsed = chunk_spreadsheet-Chunks parsed

-- A version that may be cut into chunks.
pub record Eligible (metadata : ChunkMetadata) : Type 0 where
  pub approved : metadata.version_status ≡ "APPROVED"
  pub active : metadata.active ≡ true
  pub kept : metadata.document_deleted ≡ false
  pub current : metadata.version_deleted ≡ false

-- What a document is cut into.
abbrev pub ChunksOf : ChunkMetadata → ChunkingLimits → List GeneratedChunk → Type 0
ChunksOf metadata limits chunks =
    Chunks metadata limits chunks × (is_empty chunks ≡ false) × Eligible metadata

some_chunks-ChunksOf :
    (metadata : ChunkMetadata) (limits : ChunkingLimits) (chunks : List GeneratedChunk)
    → Eligible metadata
    → Chunks metadata limits chunks
    → Returns (ChunksOf metadata limits) (some_chunks chunks)
some_chunks-ChunksOf metadata limits [] eligible all = tt
some_chunks-ChunksOf metadata limits (c ∷ chunks) eligible all = (all, refl, eligible)

-- Under limits that `ChunkingLimits` accepts, whatever the document, its chunking ends, by chunks
-- or by a `ChunkingError` and no other error (the digest is total). The chunks are at least one
-- and at most the limit, are numbered from 0, carry the metadata that was given, and each is
-- accepted by `GeneratedChunk`, which makes it not empty, of one kind of source and with its rows
-- in order, and has a content within the limit. Only a version that is approved, active and not
-- deleted has chunks.
pub chunk_document-ChunksOf :
    (rendering : Rendering) (metadata : ChunkMetadata) (limits : ChunkingLimits)
    (parsed : ParsedDocument)
    → limits_fit limits ≡ true
    → Returns (ChunksOf metadata limits) (chunk_document rendering metadata limits parsed)
unfolding chunk_document
chunk_document-ChunksOf rendering metadata limits parsed fit =
    let room : 1 ≤ limits.max_content_chars = ground (arith, fit) in
    let tall : 1 ≤ limits.spreadsheet_rows_per_chunk = ground (arith, fit) in
    elim (Bool-cases (
      not (metadata.version_status == "APPROVED")
      || (not metadata.active || (metadata.document_deleted || metadata.version_deleted)))) [
        | inl e ↦ rw e tt
        | inr e ↦
            let eligible : Eligible metadata = record {
              approved = (eq_iff metadata.version_status "APPROVED").0 (ground (arith, e));
              active = ground (arith, e);
              kept = ground (arith, e);
              current = ground (arith, e);
            } in
            rw e
              (elim (Bool-cases (
                ltb limits.max_source_chars parsed.text_length
                || ltb limits.max_source_chars (source_chars parsed))) [
                  | inl f ↦ rw f tt
                  | inr f ↦ rw f (
                      Returns-bind (Chunks metadata limits) (ChunksOf metadata limits) _ _
                        (chunk_kind-Chunks rendering metadata limits room tall parsed.kind parsed)
                        (λ chunks all. some_chunks-ChunksOf metadata limits chunks eligible all))
                ])
      ]
