-- ===== src/Chunking/Ordering.antt =====
-- chunking/service.py: rows come in ascending order, so that no chunk starts after its last row.
use secure_portfolio_copilot.Base.{
  All, Bool-cases, List, List-eq, Option-eq, String-eq, [], ap, arith, inl, inr, map, refl, subst,
  ℕ, ℕ-eq, ◌++◌, ◌∷◌, ◌≡◌, ◌≤◌,
}
use secure_portfolio_copilot.Chunking.Contracts.{ParsedRow}
use secure_portfolio_copilot.Chunking.Groups.{row_before, row_numbers, last_unit}
use secure_portfolio_copilot.Chunking.Grouping.{all_units}
use secure_portfolio_copilot.Chunking.Units.{insert, sorted, SpreadsheetUnit}

abbrev pub AtLeast : ℕ → List ℕ → Type 0
AtLeast n ns = All (λ m. n ≤ m) ns

abbrev pub Upward : List ℕ → Type 0
Upward [] = Unit
Upward (n ∷ ns) = AtLeast n ns × Upward ns

abbrev pub numbers : List ParsedRow → List ℕ
numbers rows = map (λ (r : ParsedRow). r.row_number) rows

AtLeast-trans : (n m : ℕ) (ns : List ℕ) → n ≤ m → AtLeast m ns → AtLeast n ns
AtLeast-trans n m [] le h = tt
AtLeast-trans n m (k ∷ ns) le (h, hs) = (omega (arith, le, h), AtLeast-trans n m ns le hs)

AtLeast-insert :
    (n : ℕ) (x : ParsedRow) (rows : List ParsedRow)
    → n ≤ x.row_number
    → AtLeast n (numbers rows)
    → AtLeast n (numbers (insert row_before x rows))
unfolding insert
AtLeast-insert n x [] le h = (le, tt)
AtLeast-insert n x (y ∷ rows) le (h, hs) = elim (Bool-cases (row_before y x)) [
  | inl e ↦ rw e (h, AtLeast-insert n x rows le hs)
  | inr e ↦ rw e (le, (h, hs))
]

Upward-insert :
    (x : ParsedRow) (rows : List ParsedRow)
    → Upward (numbers rows)
    → Upward (numbers (insert row_before x rows))
unfolding insert
Upward-insert x [] h = (tt, tt)
Upward-insert x (y ∷ rows) (h, hs) = elim (Bool-cases (row_before y x)) [
  | inl e ↦ rw e (AtLeast-insert y.row_number x rows (ground (arith, e)) h, Upward-insert x rows hs)
  | inr e ↦
      let le : x.row_number ≤ y.row_number = ground (arith, e) in
      rw e ((le, AtLeast-trans x.row_number y.row_number (numbers rows) le h), (h, hs))
]

pub Upward-sorted : (rows : List ParsedRow) → Upward (numbers (sorted row_before rows))
unfolding sorted
Upward-sorted [] = tt
Upward-sorted (x ∷ rows) = Upward-insert x (sorted row_before rows) (Upward-sorted rows)

-- A number that stands for several, all the same.
AtLeast-spread :
    (k n : ℕ) (before same after : List ℕ)
    → All (λ m. m ≡ n) same
    → AtLeast k (before ++ n ∷ after)
    → AtLeast k (before ++ (same ++ after))
AtLeast-spread k n [] [] after s (h, hs) = hs
AtLeast-spread k n [] (m ∷ same) after (e, s) (h, hs) =
    (omega (arith, e, h), AtLeast-spread k n [] same after s (h, hs))
AtLeast-spread k n (b ∷ before) same after s (h, hs) =
    (h, AtLeast-spread k n before same after s hs)

pub Upward-spread :
    (n : ℕ) (before same after : List ℕ)
    → All (λ m. m ≡ n) same
    → Upward (before ++ n ∷ after)
    → Upward (before ++ (same ++ after))
Upward-spread n [] [] after s (h, hs) = hs
Upward-spread n [] (m ∷ same) after (e, s) (h, hs) = (
  AtLeast-trans m n (same ++ after) (omega (arith, e))
      (AtLeast-spread n n [] same after s (omega arith, h)),
  Upward-spread n [] same after s (h, hs),
)
Upward-spread n (b ∷ before) same after s (h, hs) =
    (AtLeast-spread b n before same after s h, Upward-spread n before same after s hs)

AtLeast-first : (n : ℕ) (a b : List ℕ) → AtLeast n (a ++ b) → AtLeast n a
AtLeast-first n [] b h = tt
AtLeast-first n (x ∷ a) b (h, hs) = (h, AtLeast-first n a b hs)

Upward-first : (a b : List ℕ) → Upward (a ++ b) → Upward a
Upward-first [] b h = tt
Upward-first (x ∷ a) b (h, hs) = (AtLeast-first x a b h, Upward-first a b hs)

Upward-second : (a b : List ℕ) → Upward (a ++ b) → Upward b
Upward-second [] b h = h
Upward-second (x ∷ a) b (_, hs) = Upward-second a b hs

pub row_numbers-append :
    (a b : List SpreadsheetUnit) → row_numbers (a ++ b) ≡ row_numbers a ++ row_numbers b
row_numbers-append [] b = refl
row_numbers-append (u ∷ a) b = ap (λ ns. u.row_number ∷ ns) (row_numbers-append a b)

AtLeast-last :
    (n : ℕ) (u : SpreadsheetUnit) (units : List SpreadsheetUnit)
    → n ≤ u.row_number
    → AtLeast n (row_numbers units)
    → n ≤ (last_unit u units).row_number
AtLeast-last n u [] le h = le
AtLeast-last n u (v ∷ units) le (h, hs) = AtLeast-last n v units h hs

-- A group does not start after its last row.
abbrev pub Ordered : List SpreadsheetUnit → Type 0
Ordered [] = Unit
Ordered (u ∷ units) = u.row_number ≤ (last_unit u units).row_number

Upward-Ordered : (units : List SpreadsheetUnit) → Upward (row_numbers units) → Ordered units
Upward-Ordered [] h = tt
Upward-Ordered (u ∷ units) (h, hs) = AtLeast-last u.row_number u units (omega arith) h

pub all_units-Ordered :
    (groups : List (List SpreadsheetUnit))
    → Upward (row_numbers (all_units groups))
    → All Ordered groups
all_units-Ordered [] h = tt
all_units-Ordered (group ∷ groups) h =
    let split = subst Upward (row_numbers-append group (all_units groups)) h in
    (
      Upward-Ordered group (Upward-first (row_numbers group) _ split),
      all_units-Ordered groups (Upward-second (row_numbers group) _ split),
    )
