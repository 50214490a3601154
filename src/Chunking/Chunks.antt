-- ===== src/Chunking/Chunks.antt =====
-- chunking/service.py: the chunks of a document keep to the limits.
use secure_portfolio_copilot.Base.{
  All, Bool-cases, List, List-eq, Option-eq, String-eq, [], all, arith, contains, false, inl, inr,
  is_empty, leb, length, length-append, ltb, not, refl, suc, true, ℕ, ℕ-eq, ◌++◌, ◌+◌, ◌||◌, ◌∷◌,
  ◌≡◌, ◌≤◌,
}
use secure_portfolio_copilot.Text.{Text}
use secure_portfolio_copilot.Chunking.Contracts.{
  ParsedDocument, ParsedPage, valid_chunk, ChunkingLimits, GeneratedChunk, ChunkMetadata,
}
use secure_portfolio_copilot.Chunking.Fitting.{All-both, Returns-bind, Returns}
use secure_portfolio_copilot.Chunking.Parts.{bounded_text-PartsOf, Bounded}
use secure_portfolio_copilot.Chunking.Documents.{
  pdf_chunk, pdf_parts, pdf_pages, append, chunk_pdf, pdf_page, Rendering,
}

-- The ordinals count up from a number.
abbrev pub NumberedFrom : ℕ → List GeneratedChunk → Type 0
NumberedFrom n [] = Unit
NumberedFrom n (c ∷ chunks) = (c.ordinal ≡ n) × NumberedFrom (suc n) chunks

NumberedFrom-append :
    (n : ℕ) (chunks : List GeneratedChunk) (c : GeneratedChunk)
    → NumberedFrom n chunks
    → c.ordinal ≡ n + length chunks
    → NumberedFrom n (chunks ++ c ∷ [])
NumberedFrom-append n [] c h e = (omega (arith, e), tt)
NumberedFrom-append n (d ∷ chunks) c (h, hs) e =
    (h, NumberedFrom-append (suc n) chunks c hs (omega (arith, e)))

module _ (metadata : ChunkMetadata) (limits : ChunkingLimits) where
  -- A chunk of the document, which `GeneratedChunk` accepts.
  pub record Sane (c : GeneratedChunk) : Type 0 where
    pub source : c.metadata ≡ metadata
    pub valid : valid_chunk c ≡ true
    pub bounded : length c.content ≤ limits.max_content_chars

  -- The chunks of a document so far.
  pub record Chunks (chunks : List GeneratedChunk) : Type 0 where
    pub sane : All Sane chunks
    pub numbered : NumberedFrom 0 chunks
    pub bounded : length chunks ≤ limits.max_chunks

  pub append-Chunks :
      (chunks : List GeneratedChunk) (c : GeneratedChunk)
      → Chunks chunks
      → c.metadata ≡ metadata
      → c.ordinal ≡ length chunks
      → valid_chunk c ≡ true
      → Returns Chunks (append limits chunks c)
  unfolding append
  append-Chunks chunks c all source ordinal valid =
      rw valid (elim (Bool-cases (ltb limits.max_content_chars (length c.content))) [
        | inl e ↦ rw e tt
        | inr e ↦ rw e (elim (Bool-cases (leb limits.max_chunks (length chunks))) [
          | inl f ↦ rw f tt
          | inr f ↦ rw f (record {
            sane =
                All-both Sane chunks (c ∷ []) all.sane
                  (record { source = source; valid = valid; bounded = ground (arith, e) }, tt);
            numbered = NumberedFrom-append 0 chunks c all.numbered (omega (arith, ordinal));
            bounded = ground (arith, f, length-append chunks (c ∷ []));
          })
        ])
      ])

  pub filled-text : (t : Text) → 1 ≤ length t → is_empty t ≡ false
  filled-text [] h = absurd (omega (arith, h))
  filled-text (c ∷ t) h = refl

  module _ (rendering : Rendering) (room : 1 ≤ limits.max_content_chars)
      (tall : 1 ≤ limits.spreadsheet_rows_per_chunk) where
    pdf_chunk-valid :
        (page_number : ℕ) (content : Text) (chunks : List GeneratedChunk)
        → 1 ≤ length content
        → valid_chunk (pdf_chunk rendering metadata limits page_number content chunks) ≡ true
    unfolding valid_chunk
    pdf_chunk-valid page_number content chunks some_text = rw (filled-text content some_text) refl

    pdf_parts-Chunks :
        (page_number : ℕ) (chunks : List GeneratedChunk) (parts : List Text)
        → Chunks chunks
        → All (Bounded limits.max_content_chars) parts
        → Returns Chunks (pdf_parts rendering metadata limits page_number chunks parts)
    unfolding pdf_parts
    pdf_parts-Chunks page_number chunks [] all bounded = all
    pdf_parts-Chunks page_number chunks (part ∷ parts) all ((filled, short), bounded) =
        Returns-bind Chunks Chunks _ _
          (append-Chunks chunks (pdf_chunk rendering metadata limits page_number part chunks) all
            refl refl (pdf_chunk-valid page_number part chunks filled))
          (λ next more. pdf_parts-Chunks page_number next parts more bounded)

    pdf_page-Chunks :
        (page_number : ℕ) (chunks : List GeneratedChunk) (sections : List Text)
        → Chunks chunks
        → Returns Chunks (pdf_page rendering metadata limits page_number chunks sections)
    unfolding pdf_page
    pdf_page-Chunks page_number chunks [] all = all
    pdf_page-Chunks page_number chunks (section ∷ sections) all =
        let cut = bounded_text-PartsOf section limits.max_content_chars room in
        Returns-bind Chunks Chunks _ _
          (rw cut.returned (pdf_parts-Chunks page_number chunks cut.parts all cut.bounded))
          (λ next more. pdf_page-Chunks page_number next sections more)

    pdf_pages-Chunks :
        (seen : List ℕ) (chunks : List GeneratedChunk) (pages : List ParsedPage)
        → Chunks chunks
        → Returns Chunks (pdf_pages rendering metadata limits seen chunks pages)
    unfolding pdf_pages
    pdf_pages-Chunks seen chunks [] all = all
    pdf_pages-Chunks seen chunks (page ∷ pages) all =
        elim (Bool-cases (contains seen page.page_number)) [
          | inl e ↦ rw e tt
          | inr e ↦ rw e (
              Returns-bind Chunks Chunks _ _ (pdf_page-Chunks page.page_number chunks _ all)
                (λ next more. pdf_pages-Chunks (page.page_number ∷ seen) next pages more))
        ]

    pub no-Chunks : Chunks []
    no-Chunks = record { sane = tt; numbered = tt; bounded = omega arith }

    pub chunk_pdf-Chunks :
        (parsed : ParsedDocument) → Returns Chunks (chunk_pdf rendering metadata limits parsed)
    unfolding chunk_pdf
    chunk_pdf-Chunks parsed =
        elim (Bool-cases
          (not (is_empty parsed.sheets) || ltb limits.max_pages (length parsed.pages))) [
            | inl e ↦ rw e tt
            | inr e ↦ rw e (pdf_pages-Chunks [] [] _ no-Chunks)
          ]
