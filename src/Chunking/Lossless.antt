-- ===== src/Chunking/Lossless.antt =====
-- chunking/service.py: the normal form, the sections and the parts of a page lose nothing but white
-- space.
use secure_portfolio_copilot.Base.{
  Bool, Bool-cases, List, List-eq, Option-eq, String-eq, [], ap, append-nil, append_assoc, arith,
  false, if◌then◌else◌, inl, inr, is_empty, map, refl, subst, sym, true, ℕ, ℕ-eq, ◌&&◌, ◌++◌, ◌==◌,
  ◌∙◌, ◌∷◌, ◌≡◌,
}
use secure_portfolio_copilot.Chunking.Documents.{
  Rendering, has_text, normalize, sections_from, pdf_sections, section_of, unix_lines, split_lines,
}
use secure_portfolio_copilot.Chunking.Parts.{
  visible-strip, visible-rstrip, visible-append, concat, visible,
}
use secure_portfolio_copilot.Chunking.Splitting.{newline}
use secure_portfolio_copilot.Text.{strip, rstrip, is_space, join, Text}

line_feed-is_space : (c : ℕ) → (c == 10) ≡ true → is_space c ≡ true
unfolding is_space
line_feed-is_space c e =
    let at : c ≡ 10 = ground (arith, e) in subst (λ d. is_space d ≡ true) (sym at) refl

-- A space in front changes nothing that is visible.
visible-space : (c : ℕ) (t : Text) → is_space c ≡ true → visible (c ∷ t) ≡ visible t
unfolding visible
visible-space c t e = rw e refl

visible-newline : (t : Text) → visible (newline ++ t) ≡ visible t
visible-newline t = visible-space 10 t (line_feed-is_space 10 refl)

visible-join : (lines : List Text) → visible (join newline lines) ≡ visible (concat lines)
unfolding join
visible-join [] = refl
visible-join (line ∷ []) = ap visible (sym (append-nil line))
visible-join (line ∷ next ∷ lines) =
    visible-append line (newline ++ join newline (next ∷ lines))
    ∙ (ap (λ v. visible line ++ v)
          (visible-newline (join newline (next ∷ lines)) ∙ visible-join (next ∷ lines))
        ∙ sym (visible-append line (concat (next ∷ lines))))

visible-rstrip_lines :
    (lines : List Text) → visible (concat (map rstrip lines)) ≡ visible (concat lines)
visible-rstrip_lines [] = refl
visible-rstrip_lines (line ∷ lines) =
    visible-append (rstrip line) (concat (map rstrip lines))
    ∙ (ap (λ v. v ++ visible (concat (map rstrip lines))) (visible-rstrip line)
        ∙ (ap (λ v. visible line ++ v) (visible-rstrip_lines lines)
            ∙ sym (visible-append line (concat lines))))

visible-nil : (t : Text) → visible [] ++ visible t ≡ visible t
unfolding visible
visible-nil t = refl

visible-split_lines :
    (line t : Text) → visible (concat (split_lines line t)) ≡ visible line ++ visible t
unfolding split_lines visible
visible-split_lines line [] = visible-append line []
visible-split_lines line (c ∷ t) = elim (Bool-cases (c == 10)) [
  | inl e ↦
      rw (e, visible-append line (concat (split_lines [] t)), visible-split_lines [] t)
        (ap (λ v. visible line ++ v) (sym (visible-space c t (line_feed-is_space c e))))
  | inr e ↦ rw e (
      visible-split_lines (line ++ c ∷ []) t
      ∙ (sym (visible-append (line ++ c ∷ []) t)
          ∙ (ap visible (append_assoc line (c ∷ []) t) ∙ visible-append line (c ∷ t))))
]

pub visible-concat :
    (a b : List Text) → visible (concat (a ++ b)) ≡ visible (concat a) ++ visible (concat b)
unfolding visible
visible-concat [] b = refl
visible-concat (t ∷ a) b =
    visible-append t (concat (a ++ b))
    ∙ (ap (λ v. visible t ++ v) (visible-concat a b)
        ∙ (sym (append_assoc (visible t) (visible (concat a)) (visible (concat b)))
            ∙ ap (λ v. v ++ visible (concat b)) (sym (visible-append t (concat a)))))

visible-section_of :
    (current : List Text) → visible (concat (section_of current)) ≡ visible (concat current)
visible-section_of current =
    kept (strip (join newline current))
    ∙ (visible-strip (join newline current) ∙ visible-join current)
  where
    kept : (s : Text) → visible (concat (if is_empty s then [] else s ∷ [])) ≡ visible s
    kept [] = refl
    kept (c ∷ s) = ap visible (append-nil (c ∷ s))

visible-sections_from :
    (is_heading : Text → Bool) (current lines : List Text)
    → visible (concat (sections_from is_heading current lines))
      ≡ visible (concat current) ++ visible (concat lines)
unfolding sections_from visible
visible-sections_from is_heading current [] =
    visible-section_of current ∙ sym (append-nil (visible (concat current)))
visible-sections_from is_heading current (line ∷ lines) =
    elim (Bool-cases (is_heading line && has_text current)) [
      | inl e ↦ rw e (
          visible-concat (section_of current) (sections_from is_heading (line ∷ []) lines)
          ∙ (ap (λ v. v ++ visible (concat (sections_from is_heading (line ∷ []) lines)))
                (visible-section_of current)
              ∙ ap (λ v. visible (concat current) ++ v)
                  (visible-sections_from is_heading (line ∷ []) lines
                    ∙ sym (visible-concat (line ∷ []) lines))))
      | inr e ↦ rw e (
          visible-sections_from is_heading (current ++ line ∷ []) lines
          ∙ (ap (λ v. v ++ visible (concat lines)) (visible-concat current (line ∷ []))
              ∙ (append_assoc (visible (concat current)) (visible (concat (line ∷ []))) _
                  ∙ ap (λ v. visible (concat current) ++ v)
                      (sym (visible-concat (line ∷ []) lines)))))
    ]

-- Cut at its headings, a text has all its visible characters.
pub visible-pdf_sections :
    (is_heading : Text → Bool) (t : Text) → visible (concat (pdf_sections is_heading t)) ≡ visible t
unfolding pdf_sections visible
visible-pdf_sections is_heading t =
    visible-sections_from is_heading [] (split_lines [] t) ∙ visible-split_lines [] t

-- The normal form keeps what is visible after NFC.
pub visible-normalize :
    (rendering : Rendering) (t : Text)
    → visible (normalize rendering t) ≡ visible (rendering.nfc (unix_lines false t))
unfolding normalize visible
visible-normalize rendering t =
    let lines = split_lines [] (rendering.nfc (unix_lines false t)) in
    visible-strip (join newline (map rstrip lines))
    ∙ (visible-join (map rstrip lines)
        ∙ (visible-rstrip_lines lines
            ∙ visible-split_lines [] (rendering.nfc (unix_lines false t))))
