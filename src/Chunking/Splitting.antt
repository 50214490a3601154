-- ===== src/Chunking/Splitting.antt =====
-- chunking/service.py: `_bounded_text`, which cuts a text at paragraphs, lines or words.
use secure_portfolio_copilot.Base.{
  Bool, List, List-eq, Option, Option-eq, String-eq, [], false, if◌then◌else◌, leb, length, none,
  refl, some, suc, true, zero, ℕ, ℕ-eq, ◌&&◌, ◌+◌, ◌/◌, ◌∷◌, ◌≡◌,
}
use secure_portfolio_copilot.Text.{codes, starts_with, strip, Text}

abbrev pub take : ℕ → Text → Text
take zero text = []
take (suc n) [] = []
take (suc n) (c ∷ text) = c ∷ take n text

abbrev pub drop : ℕ → Text → Text
drop zero text = text
drop (suc n) [] = []
drop (suc n) (c ∷ text) = drop n text

-- the later place, or this one if it fits
abbrev pub last_place : ℕ → Bool → Option ℕ → Option ℕ
last_place here fits (some place) = some place
last_place here true none = some here
last_place here false none = none

-- `text.rfind(sub, start, end)` of what follows the first `here` characters; `none` is -1
unfoldable pub rfind_from : Text → ℕ → ℕ → ℕ → Text → Option ℕ
unfolding starts_with
rfind_from sub start end here [] = none
rfind_from sub start end here (c ∷ text) =
    last_place here (leb start here && (leb (here + length sub) end && starts_with sub (c ∷ text)))
      (rfind_from sub start end (suc here) text)

abbrev pub rfind : Text → ℕ → ℕ → Text → Option ℕ
rfind sub start end text = rfind_from sub start end 0 text

-- `next((position for position in candidates if position > 0), maximum)`
abbrev pub first_positive : ℕ → List (Option ℕ) → ℕ
first_positive maximum [] = maximum
first_positive maximum (none ∷ candidates) = first_positive maximum candidates
first_positive maximum (some zero ∷ candidates) = first_positive maximum candidates
first_positive maximum (some (suc p) ∷ candidates) = suc p

abbrev pub newline : Text
newline = 10 ∷ []

abbrev pub blank_line : Text
blank_line = 10 ∷ 10 ∷ []

abbrev pub space : Text
space = 32 ∷ []

abbrev pub candidates : ℕ → Text → List (Option ℕ)
candidates maximum remaining =
    let window = take (suc maximum) remaining in
    let lower_bound = maximum / 2 in
    rfind blank_line lower_bound (suc maximum) window
    ∷ rfind newline lower_bound (suc maximum) window
    ∷ rfind space lower_bound (suc maximum) window
    ∷ []

unfoldable pub split_at : ℕ → Text → ℕ
unfolding rfind_from
split_at maximum remaining = first_positive maximum (candidates maximum remaining)

-- the next part with the place where it ends, given the stripped text before that place
abbrev pub next_part : ℕ → Text → ℕ → Text → Text × ℕ
next_part maximum remaining place [] = (take maximum remaining, maximum)
next_part maximum remaining place (c ∷ part) = (c ∷ part, place)

abbrev pub with_part : Text → Option (List Text) → Option (List Text)
with_part part none = none
with_part part (some parts) = some (part ∷ parts)

-- `while remaining`, on fuel; `none` is a loop that goes on
unfoldable pub bounded_parts : ℕ → ℕ → Text → Option (List Text)
unfolding split_at strip
bounded_parts fuel maximum [] = some []
bounded_parts zero maximum (c ∷ text) = none
bounded_parts (suc fuel) maximum (c ∷ text) =
    let remaining = c ∷ text in
    let place = split_at maximum remaining in
    let next = next_part maximum remaining place (strip (take place remaining)) in
    let rest = bounded_parts fuel maximum (strip (drop next.1 remaining)) in
    if leb (length remaining) maximum then some (remaining ∷ []) else with_part next.0 rest

-- `_bounded_text`
unfoldable pub bounded_text : Text → ℕ → Option (List Text)
unfolding bounded_parts strip
bounded_text value maximum =
    let remaining = strip value in bounded_parts (length remaining) maximum remaining

cuts : bounded_text (codes " one two three ") 8 ≡ some (codes "one two" ∷ codes "three" ∷ [])
unfolding bounded_text
cuts = refl
