-- ===== src/Chunking/Documents.antt =====
-- chunking/service.py: `chunk_document`. The normal form NFC, the test of a heading, json.dumps and
-- the digest of a content are parameters.
use secure_portfolio_copilot.Base.{
  Bool, List, List-eq, Option, Option-eq, String-eq, [], any, contains, false, if◌then◌else◌,
  is_empty, leb, length, ltb, map, none, not, some, true, ℕ, ℕ-eq, ◌&&◌, ◌++◌, ◌==◌, ◌||◌, ◌∷◌,
}
use secure_portfolio_copilot.Text.{join, strip, rstrip, Text}
use secure_portfolio_copilot.Chunking.Contracts.{
  ◌>>=◌, invalid_source, result_limit_exceeded, done, chunking_error, value_error, endless, Chunked,
  ParsedDocument, pdf, ParsedPage, GeneratedChunk, ChunkingLimits, valid_chunk, ChunkMetadata,
}
use secure_portfolio_copilot.Chunking.Splitting.{bounded_text, newline}
use secure_portfolio_copilot.Chunking.Units.{sorted}

pub record Rendering : Type 0 where
  pub nfc : Text → Text
  pub is_heading : Text → Bool
  pub dumps : Text → Text
  pub hash_content : Text → Text

-- `value.replace("\r\n", "\n").replace("\r", "\n")`, after a `\r` or not
unfoldable pub unix_lines : Bool → Text → Text
unix_lines after [] = []
unix_lines after (c ∷ text) =
    let broken = unix_lines true text in
    let rest = unix_lines false text in
    if c == 13 then 10 ∷ broken else if after && (c == 10) then rest else c ∷ rest

-- `text.split("\n")`, with what has been read of the line at hand
unfoldable pub split_lines : Text → Text → List Text
split_lines line [] = line ∷ []
split_lines line (c ∷ text) =
    let over = split_lines [] text in
    let on = split_lines (line ++ c ∷ []) text in if c == 10 then line ∷ over else on

-- `_normalize`
unfoldable pub normalize : Rendering → Text → Text
unfolding unix_lines split_lines rstrip strip join
normalize rendering value =
    strip (join newline (map rstrip (split_lines [] (rendering.nfc (unix_lines false value)))))

-- `"\n".join(current).strip()`, if it is not empty
abbrev pub section_of : List Text → List Text
section_of current =
    let section = strip (join newline current) in if is_empty section then [] else section ∷ []

abbrev pub has_text : List Text → Bool
has_text lines = any (λ line. not (is_empty (strip line))) lines

-- `for line in text.split("\n")` of `_pdf_sections`, with `current`
unfoldable pub sections_from : (Text → Bool) → List Text → List Text → List Text
unfolding strip join
sections_from is_heading current [] = section_of current
sections_from is_heading current (line ∷ lines) =
    let over = sections_from is_heading (line ∷ []) lines in
    let on = sections_from is_heading (current ++ line ∷ []) lines in
    if is_heading line && has_text current then section_of current ++ over else on

unfoldable pub pdf_sections : (Text → Bool) → Text → List Text
unfolding sections_from split_lines
pdf_sections is_heading text = sections_from is_heading [] (split_lines [] text)

-- `_append` of a chunk that `GeneratedChunk` has accepted
unfoldable pub append :
    ChunkingLimits → List GeneratedChunk → GeneratedChunk → Chunked (List GeneratedChunk)
unfolding valid_chunk
append limits chunks chunk =
    if not (valid_chunk chunk)
    then value_error
    else if ltb limits.max_content_chars (length chunk.content)
    then chunking_error result_limit_exceeded
    else if leb limits.max_chunks (length chunks)
    then chunking_error result_limit_exceeded
    else done (chunks ++ chunk ∷ [])

module _ (rendering : Rendering) (metadata : ChunkMetadata) (limits : ChunkingLimits) where
  abbrev pub pdf_chunk : ℕ → Text → List GeneratedChunk → GeneratedChunk
  pdf_chunk page_number content chunks = record {
    ordinal = length chunks;
    metadata = metadata;
    source_type = pdf;
    content = content;
    content_hash = rendering.hash_content content;
    page_number = some page_number;
    sheet_name = none;
    row_start = none;
    row_end = none;
    cell_start = none;
    cell_end = none;
  }

  -- `for content in _bounded_text(section, …)`
  unfoldable pub pdf_parts : ℕ → List GeneratedChunk → List Text → Chunked (List GeneratedChunk)
  unfolding append
  pdf_parts page_number chunks [] = done chunks
  pdf_parts page_number chunks (content ∷ contents) =
      append limits chunks (pdf_chunk page_number content chunks) >>= λ next.
      pdf_parts page_number next contents

  abbrev pub pdf_cut : ℕ → List GeneratedChunk → Option (List Text) → Chunked (List GeneratedChunk)
  pdf_cut page_number chunks none = endless
  pdf_cut page_number chunks (some parts) = pdf_parts page_number chunks parts

  -- `for section in _pdf_sections(text)`
  unfoldable pub pdf_page : ℕ → List GeneratedChunk → List Text → Chunked (List GeneratedChunk)
  unfolding pdf_parts
  pdf_page page_number chunks [] = done chunks
  pdf_page page_number chunks (section ∷ sections) =
      pdf_cut page_number chunks (bounded_text section limits.max_content_chars) >>= λ next.
      pdf_page page_number next sections

  -- `for page in sorted(…)`
  unfoldable pub pdf_pages :
      List ℕ → List GeneratedChunk → List ParsedPage → Chunked (List GeneratedChunk)
  unfolding pdf_page normalize pdf_sections
  pdf_pages seen chunks [] = done chunks
  pdf_pages seen chunks (page ∷ pages) =
      if contains seen page.page_number
      then chunking_error invalid_source
      else (pdf_page page.page_number chunks
            (pdf_sections rendering.is_heading (normalize rendering page.text))
          >>= λ next. pdf_pages (page.page_number ∷ seen) next pages)

  -- `_chunk_pdf`
  unfoldable pub chunk_pdf : ParsedDocument → Chunked (List GeneratedChunk)
  unfolding pdf_pages sorted
  chunk_pdf parsed =
      if not (is_empty parsed.sheets) || ltb limits.max_pages (length parsed.pages)
      then chunking_error invalid_source
      else pdf_pages [] [] (
          sorted (λ (a : ParsedPage) (b : ParsedPage). ltb a.page_number b.page_number)
            parsed.pages)
