-- ===== src/Chunking/Coverage.antt =====
-- chunking/service.py: the chunks of a PDF document have all its visible characters.
use secure_portfolio_copilot.Base.{
  Bool, Bool-cases, List, List-eq, Option-eq, String-eq, [], ap, append-nil, append_assoc, arith,
  contains, false, inl, inr, is_empty, leb, length, ltb, map, not, refl, subst, sym, true, ℕ, ℕ-eq,
  ◌++◌, ◌==◌, ◌||◌, ◌∙◌, ◌∷◌, ◌≡◌, ◌≤◌,
}
use secure_portfolio_copilot.Chunking.Contracts.{
  csv, xlsx, FileKind, pdf, limits_fit, ParsedDocument, endless, value_error, chunking_error, ◌>>=◌,
  valid_chunk, done, ChunkMetadata, ChunkingLimits, Chunked, GeneratedChunk, ParsedPage,
}
use secure_portfolio_copilot.Chunking.Documents.{
  pdf_cut, pdf_sections, normalize, pdf_page, pdf_pages, chunk_pdf, pdf_chunk, pdf_parts,
  unix_lines, Rendering, append,
}
use secure_portfolio_copilot.Chunking.Parts.{bounded_text-PartsOf, concat, visible-append, visible}
use secure_portfolio_copilot.Chunking.Lossless.{
  visible-normalize, visible-pdf_sections, visible-concat,
}
use secure_portfolio_copilot.Chunking.Units.{sorted}
use secure_portfolio_copilot.Chunking.Sheets.{chunk_kind, source_chars, some_chunks, chunk_document}
use secure_portfolio_copilot.Chunking.Splitting.{bounded_text}
use secure_portfolio_copilot.Text.{Text}

abbrev pub texts : List GeneratedChunk → List Text
texts chunks = map (λ (c : GeneratedChunk). c.content) chunks

-- The text of a page as it is cut, but for white space.
abbrev pub page_text : Rendering → ParsedPage → Text
page_text rendering page = rendering.nfc (unix_lines false page.text)

abbrev pub by_page_number : ParsedPage → ParsedPage → Bool
by_page_number a b = ltb a.page_number b.page_number

-- What is returned satisfies `P`.
abbrev pub WhenDone : {A : Type 0} → (A → Type 0) → Chunked A → Type 0
WhenDone P (done a) = P a
WhenDone P _ = Unit

WhenDone-bind :
    {A B : Type 0} (P : A → Type 0) (Q : B → Type 0) (m : Chunked A) (next : A → Chunked B)
    → WhenDone P m
    → ((a : A) → P a → WhenDone Q (next a))
    → WhenDone Q (m >>= next)
WhenDone-bind P Q (done a) next h k = k a h
WhenDone-bind P Q (chunking_error code) next h k = tt
WhenDone-bind P Q value_error next h k = tt
WhenDone-bind P Q endless next h k = tt

-- The chunks together have the visible characters `shown`, in order.
abbrev pub Shows : Text → List GeneratedChunk → Type 0
Shows shown chunks = visible (concat (texts chunks)) ≡ shown

texts-append :
    (chunks : List GeneratedChunk) (c : GeneratedChunk)
    → texts (chunks ++ c ∷ []) ≡ texts chunks ++ c.content ∷ []
texts-append [] c = refl
texts-append (d ∷ chunks) c = ap (λ ts. d.content ∷ ts) (texts-append chunks c)

Shows-append :
    (shown : Text) (chunks : List GeneratedChunk) (c : GeneratedChunk)
    → Shows shown chunks
    → Shows (shown ++ visible c.content) (chunks ++ c ∷ [])
Shows-append shown chunks c h =
    ap (λ ts. visible (concat ts)) (texts-append chunks c)
    ∙ (visible-concat (texts chunks) (c.content ∷ [])
        ∙ (ap (λ v. v ++ visible (concat (c.content ∷ []))) h
            ∙ ap (λ t. shown ++ visible t) (append-nil c.content)))

append-Shows :
    (limits : ChunkingLimits) (shown : Text) (chunks : List GeneratedChunk) (c : GeneratedChunk)
    → Shows shown chunks
    → WhenDone (Shows (shown ++ visible c.content)) (append limits chunks c)
unfolding append
append-Shows limits shown chunks c h = elim (Bool-cases (not (valid_chunk c))) [
  | inl e ↦ rw e tt
  | inr e ↦ rw e (elim (Bool-cases (ltb limits.max_content_chars (length c.content))) [
    | inl f ↦ rw f tt
    | inr f ↦ rw f (elim (Bool-cases (leb limits.max_chunks (length chunks))) [
      | inl g ↦ rw g tt
      | inr g ↦ rw g (Shows-append shown chunks c h)
    ])
  ])
]

-- What is shown first and then the rest.
shown-then :
    (shown t : Text) (rest : Text)
    → (shown ++ visible t) ++ visible rest ≡ shown ++ visible (t ++ rest)
shown-then shown t rest =
    append_assoc shown (visible t) (visible rest)
    ∙ ap (λ v. shown ++ v) (sym (visible-append t rest))

module _ (rendering : Rendering) (metadata : ChunkMetadata) (limits : ChunkingLimits) where
  pdf_parts-Shows :
      (page_number : ℕ) (shown : Text) (chunks : List GeneratedChunk) (parts : List Text)
      → Shows shown chunks
      → WhenDone
          (Shows (shown ++ visible (concat parts)))
          (pdf_parts rendering metadata limits page_number chunks parts)
  unfolding pdf_parts visible
  pdf_parts-Shows page_number shown chunks [] h = h ∙ sym (append-nil shown)
  pdf_parts-Shows page_number shown chunks (part ∷ parts) h =
      WhenDone-bind (Shows (shown ++ visible part)) _ _ _
        (append-Shows limits shown chunks
          (pdf_chunk rendering metadata limits page_number part chunks) h)
        (λ next more.
          subst
            (λ v. WhenDone (Shows v) (pdf_parts rendering metadata limits page_number next parts))
            (shown-then shown part (concat parts))
            (pdf_parts-Shows page_number (shown ++ visible part) next parts more))

  module _ (room : 1 ≤ limits.max_content_chars) where
    pdf_page-Shows :
        (page_number : ℕ) (shown : Text) (chunks : List GeneratedChunk) (sections : List Text)
        → Shows shown chunks
        → WhenDone
            (Shows (shown ++ visible (concat sections)))
            (pdf_page rendering metadata limits page_number chunks sections)
    unfolding pdf_page visible
    pdf_page-Shows page_number shown chunks [] h = h ∙ sym (append-nil shown)
    pdf_page-Shows page_number shown chunks (section ∷ sections) h =
        let cut = bounded_text-PartsOf section limits.max_content_chars room in
        WhenDone-bind (Shows (shown ++ visible section)) _
          (pdf_cut rendering metadata limits page_number chunks
            (bounded_text section limits.max_content_chars))
          _
          (rw cut.returned (
            subst
              (λ v.
                WhenDone (Shows (shown ++ v))
                  (pdf_parts rendering metadata limits page_number chunks cut.parts))
              cut.same (pdf_parts-Shows page_number shown chunks cut.parts h)))
          (λ next more.
            subst
              (λ v.
                WhenDone (Shows v) (pdf_page rendering metadata limits page_number next sections))
              (shown-then shown section (concat sections))
              (pdf_page-Shows page_number (shown ++ visible section) next sections more))

    pdf_pages-Shows :
        (seen : List ℕ) (shown : Text) (chunks : List GeneratedChunk) (pages : List ParsedPage)
        → Shows shown chunks
        → WhenDone
            (Shows (shown ++ visible (concat (map (page_text rendering) pages))))
            (pdf_pages rendering metadata limits seen chunks pages)
    unfolding pdf_pages visible
    pdf_pages-Shows seen shown chunks [] h = h ∙ sym (append-nil shown)
    pdf_pages-Shows seen shown chunks (page ∷ pages) h =
        let text = normalize rendering page.text in
        let same =
          visible-pdf_sections rendering.is_heading text ∙ visible-normalize rendering page.text in
        elim (Bool-cases (contains seen page.page_number)) [
          | inl e ↦ rw e tt
          | inr e ↦ rw e (
              WhenDone-bind (Shows (shown ++ visible (page_text rendering page))) _ _ _
                (subst
                  (λ v. WhenDone (Shows (shown ++ v)) (
                    pdf_page rendering metadata limits page.page_number chunks
                      (pdf_sections rendering.is_heading text)))
                  same
                  (pdf_page-Shows page.page_number shown chunks
                    (pdf_sections rendering.is_heading text) h))
                (λ next more.
                  subst
                    (λ v.
                      WhenDone (Shows v)
                        (pdf_pages rendering metadata limits (page.page_number ∷ seen) next pages))
                    (shown-then shown (page_text rendering page)
                      (concat (map (page_text rendering) pages)))
                    (pdf_pages-Shows (page.page_number ∷ seen)
                      (shown ++ visible (page_text rendering page)) next pages more)))
        ]

    chunk_pdf-Shows :
        (parsed : ParsedDocument)
        → WhenDone
            (Shows
              (visible (concat (map (page_text rendering) (sorted by_page_number parsed.pages)))))
            (chunk_pdf rendering metadata limits parsed)
    unfolding chunk_pdf visible
    chunk_pdf-Shows parsed =
        elim (Bool-cases
          (not (is_empty parsed.sheets) || ltb limits.max_pages (length parsed.pages))) [
            | inl e ↦ rw e tt
            | inr e ↦ rw e (pdf_pages-Shows [] [] [] (sorted by_page_number parsed.pages) refl)
          ]

some_chunks-WhenDone :
    (P : List GeneratedChunk → Type 0) (chunks : List GeneratedChunk)
    → P chunks
    → WhenDone P (some_chunks chunks)
some_chunks-WhenDone P [] h = tt
some_chunks-WhenDone P (c ∷ chunks) h = h

-- The chunks show the pages of a document in the order of their numbers.
abbrev pub Whole : Rendering → ParsedDocument → List GeneratedChunk → Type 0
Whole rendering parsed chunks =
    Shows (visible (concat (map (page_text rendering) (sorted by_page_number parsed.pages)))) chunks

chunk_kind-Whole :
    (rendering : Rendering) (metadata : ChunkMetadata) (limits : ChunkingLimits) (kind : FileKind)
    (parsed : ParsedDocument)
    → 1 ≤ limits.max_content_chars
    → kind ≡ pdf
    → WhenDone (Whole rendering parsed) (chunk_kind rendering metadata limits kind parsed)
chunk_kind-Whole rendering metadata limits pdf parsed room e =
    chunk_pdf-Shows rendering metadata limits room parsed
chunk_kind-Whole rendering metadata limits xlsx parsed room e = cc
chunk_kind-Whole rendering metadata limits csv parsed room e = cc

-- Under limits that `ChunkingLimits` accepts, when a PDF document is cut, the contents of the
-- chunks, put together in order, have exactly the characters that are not white space of its
-- pages, in the order of the page numbers, each page with its line ends unified and in the normal
-- form NFC: nothing is lost, repeated or moved.
pub chunk_document-Whole :
    (rendering : Rendering) (metadata : ChunkMetadata) (limits : ChunkingLimits)
    (parsed : ParsedDocument)
    → limits_fit limits ≡ true
    → parsed.kind ≡ pdf
    → WhenDone (Whole rendering parsed) (chunk_document rendering metadata limits parsed)
unfolding chunk_document
chunk_document-Whole rendering metadata limits parsed fit kind =
    let room : 1 ≤ limits.max_content_chars = ground (arith, fit) in
    elim (Bool-cases (
      not (metadata.version_status == "APPROVED")
      || (not metadata.active || (metadata.document_deleted || metadata.version_deleted)))) [
        | inl e ↦ rw e tt
        | inr e ↦
            rw e
              (elim (Bool-cases (
                ltb limits.max_source_chars parsed.text_length
                || ltb limits.max_source_chars (source_chars parsed))) [
                  | inl f ↦ rw f tt
                  | inr f ↦ rw f (
                      WhenDone-bind (Whole rendering parsed) (Whole rendering parsed)
                        (chunk_kind rendering metadata limits parsed.kind parsed) (some_chunks)
                        (chunk_kind-Whole rendering metadata limits parsed.kind parsed room kind)
                        (some_chunks-WhenDone (Whole rendering parsed)))
                ])
      ]
