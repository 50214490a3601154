-- ===== src/Chunking/Fitting.antt =====
-- chunking/service.py: units and groups keep to the limits, and leave nothing out.
use secure_portfolio_copilot.Base.{
  All, Bool-cases, List, List-eq, Option-eq, String-eq, [], ap, arith, inl, inr, leb, length,
  length-append, map, refl, subst, sym, true, ℕ, ℕ-eq, ◌++◌, ◌+◌, ◌-◌, ◌<◌, ◌∷◌, ◌≡◌, ◌≤◌,
}
use secure_portfolio_copilot.Text.{join, codes, Text}
use secure_portfolio_copilot.Chunking.Contracts.{
  ParsedRow, ParsedCell, ◌>>=◌, endless, value_error, chunking_error, done, Chunked,
}
use secure_portfolio_copilot.Chunking.Groups.{cell_before, has_repeated, row_units}
use secure_portfolio_copilot.Chunking.Parts.{bounded_text-PartsOf, Bounded}
use secure_portfolio_copilot.Chunking.Units.{
  placed_cell, sorted, fragment_unit, render_cell, units_from, with_units, split_cell, row_content,
  tokens, flush, Placed, row_prefix, SpreadsheetUnit,
}

-- What returns satisfies `P`, loops end, and no error but `ChunkingError` is raised.
abbrev pub Returns : {A : Type 0} → (A → Type 0) → Chunked A → Type 0
Returns P (done a) = P a
Returns P (chunking_error code) = Unit
Returns P value_error = ⊥
Returns P endless = ⊥

pub Returns-bind :
    {A B : Type 0} (P : A → Type 0) (Q : B → Type 0) (m : Chunked A) (next : A → Chunked B)
    → Returns P m
    → ((a : A) → P a → Returns Q (next a))
    → Returns Q (m >>= next)
Returns-bind P Q (done a) next h k = k a h
Returns-bind P Q (chunking_error code) next h k = tt
Returns-bind P Q value_error next h k = h
Returns-bind P Q endless next h k = h

pub All-both :
    {A : Type 0} (P : A → Type 0) (xs ys : List A) → All P xs → All P ys → All P (xs ++ ys)
All-both P [] ys h k = k
All-both P (x ∷ xs) ys (h, hs) k = (h, All-both P xs ys hs k)

-- A unit of a row that is neither empty nor too long.
pub record Fits (maximum number : ℕ) (u : SpreadsheetUnit) : Type 0 where
  pub row : u.row_number ≡ number
  pub filled : 1 ≤ length u.content
  pub bounded : length u.content ≤ maximum

tokens-append :
    (placed : List Placed) (p : Placed) → tokens (placed ++ p ∷ []) ≡ tokens placed ++ p.1 ∷ []
tokens-append [] p = refl
tokens-append (q ∷ placed) p = ap (λ ts. q.1 ∷ ts) (tokens-append placed p)

-- What is placed fits into one unit.
abbrev Placeable : ℕ → ℕ → List Placed → Type 0
Placeable maximum number [] = Unit
Placeable maximum number (p ∷ placed) = length (row_content number (tokens (p ∷ placed))) ≤ maximum

flush-Fits :
    (maximum number : ℕ) (placed : List Placed)
    → Placeable maximum number placed
    → All (Fits maximum number) (flush number placed)
flush-Fits maximum number [] h = tt
flush-Fits maximum number (p ∷ placed) h =
    (record { row = refl; filled = omega arith; bounded = h }, tt)

Placeable-append :
    (maximum number : ℕ) (placed : List Placed) (p : Placed)
    → length (row_content number (tokens placed ++ p.1 ∷ [])) ≤ maximum
    → Placeable maximum number (placed ++ p ∷ [])
Placeable-append maximum number [] p h = h
Placeable-append maximum number (q ∷ placed) p h =
    subst (λ ts. length (row_content number ts) ≤ maximum) (sym (tokens-append (q ∷ placed) p)) h

with_units-Returns :
    (P : SpreadsheetUnit → Type 0) (units : List SpreadsheetUnit)
    (rest : Chunked (List SpreadsheetUnit))
    → All P units
    → Returns (All P) rest
    → Returns (All P) (with_units units rest)
with_units-Returns P units rest h k =
    Returns-bind (All P) (All P) rest (λ later. done (units ++ later)) k
      (λ later l. All-both P units later h l)

fragments-Fits :
    (maximum number room : ℕ) (coordinate : Text) (parts : List Text)
    → length (row_prefix number ++ (coordinate ++ codes "=")) + room ≤ maximum
    → All (Bounded room) parts
    → All (Fits maximum number) (map (fragment_unit number coordinate) parts)
fragments-Fits maximum number room coordinate [] short h = tt
fragments-Fits maximum number room coordinate (part ∷ parts) short ((filled, bounded), h) =
    let joined = length-append (row_prefix number ++ (coordinate ++ codes "=")) part in
    (
      record {
        row = refl;
        filled = omega (arith, joined, filled);
        bounded = omega (arith, joined, short, bounded);
      },
      fragments-Fits maximum number room coordinate parts short h,
    )

module _ (dumps : Text → Text) (maximum number : ℕ) where
  split_cell-Fits :
      (cell : ParsedCell) (rest : Chunked (List SpreadsheetUnit))
      → Returns (All (Fits maximum number)) rest
      → Returns (All (Fits maximum number)) (split_cell dumps maximum number cell rest)
  unfolding split_cell
  split_cell-Fits cell rest h =
      let taken = length (row_prefix number ++ (cell.coordinate ++ codes "=")) in
      elim (Bool-cases (leb maximum taken)) [
        | inl e ↦ rw e tt
        | inr e ↦
            let room : taken < maximum = ground (arith, e) in
            let cut =
              bounded_text-PartsOf (dumps cell.value_text) (maximum - taken)
                (omega (arith, room)) in
            rw (e, cut.returned)
              (with_units-Returns (Fits maximum number) _ rest
                (fragments-Fits maximum number (maximum - taken) cell.coordinate cut.parts
                  (omega (arith, room)) cut.bounded)
                h)
      ]

  alone-Placeable :
      (cell : ParsedCell)
      → leb (length (row_prefix number) + length (render_cell dumps cell)) maximum ≡ true
      → Placeable maximum number (placed_cell dumps cell ∷ [])
  unfolding join
  alone-Placeable cell f =
      let fits : length (row_prefix number) + length (render_cell dumps cell) ≤ maximum =
        ground (arith, f) in
      omega (arith, length-append (row_prefix number) (render_cell dumps cell), fits)

  units_from-Fits :
      (current : List Placed) (cells : List ParsedCell)
      → Placeable maximum number current
      → Returns (All (Fits maximum number)) (units_from dumps maximum number current cells)
  unfolding units_from
  units_from-Fits current [] h = flush-Fits maximum number current h
  units_from-Fits current (cell ∷ cells) h =
      let token = render_cell dumps cell in
      elim (Bool-cases (leb (length (row_content number (tokens current ++ token ∷ []))) maximum)) [
        | inl e ↦ rw e (
            units_from-Fits (current ++ placed_cell dumps cell ∷ []) cells (
              Placeable-append maximum number current (placed_cell dumps cell) (ground (arith, e))))
        | inr e ↦ rw e (
            with_units-Returns (Fits maximum number) (flush number current) _
              (flush-Fits maximum number current h)
              (elim (Bool-cases (leb (length (row_prefix number) + length token) maximum)) [
                | inl f ↦
                    rw f
                      (units_from-Fits (placed_cell dumps cell ∷ []) cells (alone-Placeable cell f))
                | inr f ↦ rw f (split_cell-Fits cell _ (units_from-Fits [] cells tt))
              ]))
      ]

-- Whatever a row holds, its units are of the row, are not empty and keep to the maximum, and the
-- loops end.
pub row_units-Fits :
    (dumps : Text → Text) (row : ParsedRow) (maximum : ℕ)
    → Returns (All (Fits maximum row.row_number)) (row_units dumps row maximum)
unfolding row_units
row_units-Fits dumps row maximum =
    elim (Bool-cases
      (has_repeated (map (λ (c : ParsedCell). c.column_number) (sorted cell_before row.cells)))) [
        | inl e ↦ rw e tt
        | inr e ↦ rw e (units_from-Fits dumps maximum row.row_number [] _ tt)
      ]
