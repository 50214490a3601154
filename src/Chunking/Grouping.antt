-- ===== src/Chunking/Grouping.antt =====
-- chunking/service.py: the groups that `_group_units` yields.
use secure_portfolio_copilot.Base.{
  All, Bool-cases, List, List-eq, Option-eq, String-eq, [], all, ap, append_assoc, arith, false,
  inl, inr, is_empty, length, refl, true, ℕ-eq, ◌++◌, ◌∙◌, ◌∷◌, ◌≡◌, ◌≤◌,
}
use secure_portfolio_copilot.Text.{join}
use secure_portfolio_copilot.Chunking.Contracts.{ChunkingLimits}
use secure_portfolio_copilot.Chunking.Groups.{
  row_numbers, distinct_count, overfull, group_content, groups_from, group_units,
}
use secure_portfolio_copilot.Chunking.Units.{SpreadsheetUnit}

abbrev pub all_units : List (List SpreadsheetUnit) → List SpreadsheetUnit
all_units [] = []
all_units (group ∷ groups) = group ++ all_units groups

-- A group with a unit, neither too long nor too tall.
pub record GroupFits (limits : ChunkingLimits) (group : List SpreadsheetUnit) : Type 0 where
  pub filled : is_empty group ≡ false
  pub bounded : length (group_content group) ≤ limits.max_content_chars
  pub rows : distinct_count (row_numbers group) ≤ limits.spreadsheet_rows_per_chunk

abbrev pub Short : ChunkingLimits → SpreadsheetUnit → Type 0
Short limits u = length u.content ≤ limits.max_content_chars

-- The units that are collected fit, unless there are none.
abbrev Collected : ChunkingLimits → List SpreadsheetUnit → Type 0
Collected limits [] = Unit
Collected limits (u ∷ units) = GroupFits limits (u ∷ units)

overfull-Fits :
    (limits : ChunkingLimits) (current : List SpreadsheetUnit) (u : SpreadsheetUnit)
    → 1 ≤ limits.spreadsheet_rows_per_chunk
    → Short limits u
    → overfull limits current u ≡ false
    → Collected limits (current ++ u ∷ [])
unfolding join
overfull-Fits limits [] u room short h = record {
  filled = refl;
  bounded = short;
  rows = omega (arith, room);
}
overfull-Fits limits (v ∷ current) u room short h = record {
  filled = refl;
  bounded = ground (arith, h);
  rows = ground (arith, h);
}

append-snoc :
    (xs ys : List SpreadsheetUnit) (u : SpreadsheetUnit) → (xs ++ u ∷ []) ++ ys ≡ xs ++ u ∷ ys
append-snoc xs ys u = append_assoc xs (u ∷ []) ys

overfull-Collected :
    (limits : ChunkingLimits) (current : List SpreadsheetUnit) (u : SpreadsheetUnit)
    → overfull limits current u ≡ true
    → Collected limits current
    → GroupFits limits current
overfull-Collected limits [] u h fits = cc
overfull-Collected limits (v ∷ current) u h fits = fits

module _ (limits : ChunkingLimits) (room : 1 ≤ limits.spreadsheet_rows_per_chunk) where
  groups_from-Fits :
      (current units : List SpreadsheetUnit)
      → Collected limits current
      → All (Short limits) units
      → All (GroupFits limits) (groups_from limits current units)
        × (all_units (groups_from limits current units) ≡ current ++ units)
  unfolding groups_from
  groups_from-Fits [] [] fits short = (tt, refl)
  groups_from-Fits (u ∷ current) [] fits short = ((fits, tt), refl)
  groups_from-Fits current (unit ∷ units) fits (short, shorts) =
      elim (Bool-cases (overfull limits current unit)) [
        | inl e ↦
            let (all, same) =
              groups_from-Fits (unit ∷ []) units (overfull-Fits limits [] unit room short refl)
                shorts in
            rw e
              ((overfull-Collected limits current unit e fits, all), ap (λ us. current ++ us) same)
        | inr e ↦
            let (all, same) =
              groups_from-Fits (current ++ unit ∷ []) units
                (overfull-Fits limits current unit room short e) shorts in
            rw e (all, same ∙ append-snoc current units unit)
      ]

  -- The groups of units that are no longer than the limit: each has a unit, its joined contents
  -- are no longer than the limit and come from no more rows than a chunk may have, and one after
  -- the other the groups are all units, in order.
  pub group_units-Fits :
      (units : List SpreadsheetUnit)
      → All (Short limits) units
      → All (GroupFits limits) (group_units limits units)
        × (all_units (group_units limits units) ≡ units)
  unfolding group_units
  group_units-Fits units shorts = groups_from-Fits [] units tt shorts
