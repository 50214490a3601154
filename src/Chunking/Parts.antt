-- ===== src/Chunking/Parts.antt =====
-- chunking/service.py: the parts of a text are bounded, are not empty, and lose nothing but white
-- space.
use secure_portfolio_copilot.Base.{
  All, Bool, Bool-cases, List, List-eq, Option, Option-eq, String-eq, [], ap, append-nil, arith,
  false, if◌then◌else◌, inl, inr, is_empty, leb, length, none, refl, some, suc, true, zero, ℕ, ℕ-eq,
  ◌++◌, ◌+◌, ◌-◌, ◌/◌, ◌∙◌, ◌∷◌, ◌≡◌, ◌≤◌, ◌⊎◌,
}
use secure_portfolio_copilot.Chunking.Splitting.{
  candidates, space, newline, blank_line, rfind, bounded_parts, next_part, bounded_text, last_place,
  split_at, first_positive, rfind_from, take, drop,
}
use secure_portfolio_copilot.Text.{is_space, rstrip, strip, lstrip, Text}

-- The characters that are not white space.
unfoldable pub visible : Text → Text
visible [] = []
visible (c ∷ text) = let rest = visible text in if is_space c then rest else c ∷ rest

pub visible-append : (a b : Text) → visible (a ++ b) ≡ visible a ++ visible b
unfolding visible
visible-append [] b = refl
visible-append (c ∷ a) b = ground (arith, visible-append a b)

visible-lstrip : (t : Text) → visible (lstrip t) ≡ visible t
unfolding visible lstrip
visible-lstrip [] = refl
visible-lstrip (c ∷ t) = ground (arith, visible-lstrip t)

empty-rstrip : (t : Text) → is_empty (rstrip t) ≡ true → visible t ≡ []
unfolding visible rstrip
empty-rstrip [] h = refl
empty-rstrip (c ∷ t) h = ground (arith, empty-rstrip t)

pub visible-rstrip : (t : Text) → visible (rstrip t) ≡ visible t
unfolding visible rstrip
visible-rstrip [] = refl
visible-rstrip (c ∷ t) = ground (arith, visible-rstrip t, empty-rstrip t)

pub visible-strip : (t : Text) → visible (strip t) ≡ visible t
unfolding strip
visible-strip t = visible-rstrip (lstrip t) ∙ visible-lstrip t

length-lstrip : (t : Text) → length (lstrip t) ≤ length t
unfolding lstrip
length-lstrip [] = omega arith
length-lstrip (c ∷ t) = ground (arith, length-lstrip t)

length-rstrip : (t : Text) → length (rstrip t) ≤ length t
unfolding rstrip
length-rstrip [] = omega arith
length-rstrip (c ∷ t) = ground (arith, length-rstrip t)

pub length-strip : (t : Text) → length (strip t) ≤ length t
unfolding strip
length-strip t = omega (arith, length-rstrip (lstrip t), length-lstrip t)

length-take : (n : ℕ) (t : Text) → length (take n t) ≤ n
length-take zero t = omega arith
length-take (suc n) [] = omega arith
length-take (suc n) (c ∷ t) = omega (arith, length-take n t)

length-drop : (n : ℕ) (t : Text) → length (drop n t) ≡ length t - n
length-drop zero t = omega arith
length-drop (suc n) [] = omega arith
length-drop (suc n) (c ∷ t) = omega (arith, length-drop n t)

visible-take-drop : (n : ℕ) (t : Text) → visible (take n t) ++ visible (drop n t) ≡ visible t
unfolding visible
visible-take-drop zero t = refl
visible-take-drop (suc n) [] = refl
visible-take-drop (suc n) (c ∷ t) = ground (arith, visible-take-drop n t)

last_place-cases :
    (here : ℕ) (fits : Bool) (rest : Option ℕ) (place : ℕ)
    → last_place here fits rest ≡ some place
    → (rest ≡ some place) ⊎ ((fits ≡ true) × (here ≡ place))
last_place-cases here fits (some p) place h = inl h
last_place-cases here true none place h = inr (refl, ground arith)
last_place-cases here false none place h = cc

-- A place that is found leaves room for the text that is looked for.
rfind_from-bound :
    (sub : Text) (start end here : ℕ) (text : Text) (place : ℕ)
    → rfind_from sub start end here text ≡ some place
    → place + length sub ≤ end
unfolding rfind_from
rfind_from-bound sub start end here [] place h = cc
rfind_from-bound sub start end here (c ∷ text) place h =
    elim (last_place-cases here _ (rfind_from sub start end (suc here) text) place h) [
      | inl e ↦ rfind_from-bound sub start end (suc here) text place e
      | inr (fits, e) ↦ ground (arith, fits, e)
    ]

abbrev Within : ℕ → Option ℕ → Type 0
Within maximum place = (p : ℕ) → place ≡ some p → p ≤ maximum

first_positive-bounds :
    (maximum : ℕ) (candidates : List (Option ℕ))
    → 1 ≤ maximum
    → All (Within maximum) candidates
    → (1 ≤ first_positive maximum candidates) × (first_positive maximum candidates ≤ maximum)
first_positive-bounds maximum [] some_room h = (some_room, omega arith)
first_positive-bounds maximum (none ∷ candidates) some_room (_, h) =
    first_positive-bounds maximum candidates some_room h
first_positive-bounds maximum (some zero ∷ candidates) some_room (_, h) =
    first_positive-bounds maximum candidates some_room h
first_positive-bounds maximum (some (suc p) ∷ candidates) some_room (h, _) =
    (omega arith, h (suc p) refl)

-- The place where a part ends is neither 0 nor beyond the maximum.
split_at-bounds :
    (maximum : ℕ) (text : Text)
    → 1 ≤ maximum
    → (1 ≤ split_at maximum text) × (split_at maximum text ≤ maximum)
unfolding split_at
split_at-bounds maximum text room =
    let at : (sub : Text)
        → 1 ≤ length sub
        → Within maximum (rfind sub (maximum / 2) (suc maximum) (take (suc maximum) text)) =
      λ sub some_length p e. omega (
        arith,
        rfind_from-bound sub (maximum / 2) (suc maximum) 0 (take (suc maximum) text) p e,
        some_length,
      ) in
    first_positive-bounds maximum (candidates maximum text) room
      (at blank_line (omega arith), (at newline (omega arith), (at space (omega arith), tt)))

-- A part of a text, the place where it ends being cut off.
record Cut (maximum : ℕ) (remaining : Text) (next : Text × ℕ) : Type 0 where
  filled : 1 ≤ length next.0
  bounded : length next.0 ≤ maximum
  moves : 1 ≤ next.1
  same : visible next.0 ≡ visible (take next.1 remaining)

next_part-Cut :
    (maximum : ℕ) (c : ℕ) (text : Text) (place : ℕ) (part : Text)
    → 1 ≤ place
    → place ≤ maximum
    → length part ≤ place
    → visible part ≡ visible (take place (c ∷ text))
    → Cut maximum (c ∷ text) (next_part maximum (c ∷ text) place part)
next_part-Cut (suc maximum) c text place [] some_place room short same = record {
  filled = omega arith;
  bounded = omega (arith, length-take maximum text);
  moves = omega arith;
  same = refl;
}
next_part-Cut zero c text place [] some_place room short same =
    absurd (omega (arith, some_place, room))
next_part-Cut maximum c text place (d ∷ part) some_place room short same = record {
  filled = omega arith;
  bounded = omega (arith, short, room);
  moves = some_place;
  same = same;
}

abbrev pub concat : List Text → Text
concat [] = []
concat (part ∷ parts) = part ++ concat parts

abbrev pub Bounded : ℕ → Text → Type 0
Bounded maximum part = (1 ≤ length part) × (length part ≤ maximum)

-- Parts of a text.
pub record PartsOf (maximum : ℕ) (text : Text) (result : Option (List Text)) : Type 0 where
  pub parts : List Text
  pub returned : result ≡ some parts
  pub bounded : All (Bounded maximum) parts
  pub same : visible (concat parts) ≡ visible text

bounded_parts-PartsOf :
    (fuel maximum : ℕ) (text : Text)
    → 1 ≤ maximum
    → length text ≤ fuel
    → PartsOf maximum text (bounded_parts fuel maximum text)
unfolding bounded_parts
bounded_parts-PartsOf fuel maximum [] room enough = record {
  parts = [];
  returned = refl;
  bounded = tt;
  same = refl;
}
bounded_parts-PartsOf zero maximum (c ∷ text) room enough = absurd (omega (arith, enough))
bounded_parts-PartsOf (suc fuel) maximum (c ∷ text) room enough =
    elim (Bool-cases (leb (length (c ∷ text)) maximum)) [
      | inl e ↦ rw e (record {
        parts = (c ∷ text) ∷ [];
        returned = refl;
        bounded = ((omega arith, ground (arith, e)), tt);
        same = ap visible (append-nil (c ∷ text));
      })
      | inr e ↦
          let place = split_at maximum (c ∷ text) in
          let (some_place, fits) = split_at-bounds maximum (c ∷ text) room in
          let part = strip (take place (c ∷ text)) in
          let next = next_part maximum (c ∷ text) place part in
          let cut =
            next_part-Cut maximum c text place part some_place fits
              (omega (arith, length-strip (take place (c ∷ text)), length-take place (c ∷ text)))
              (visible-strip (take place (c ∷ text))) in
          let on = strip (drop next.1 (c ∷ text)) in
          let rest = bounded_parts-PartsOf fuel maximum on room (
            omega (
              arith,
              enough,
              length-strip (drop next.1 (c ∷ text)),
              length-drop next.1 (c ∷ text),
              cut.moves,
            )) in
          rw (e, rest.returned)
            (record {
              parts = next.0 ∷ rest.parts;
              returned = refl;
              bounded = ((cut.filled, cut.bounded), rest.bounded);
              same =
                  visible-append next.0 (concat rest.parts)
                  ∙ (ap (λ v. v ++ visible (concat rest.parts)) cut.same
                      ∙ (ap (λ v. visible (take next.1 (c ∷ text)) ++ v)
                            (rest.same ∙ visible-strip (drop next.1 (c ∷ text)))
                          ∙ visible-take-drop next.1 (c ∷ text)));
            })
    ]

-- A text is cut for every positive maximum: the loop ends, every part has at least one and at most
-- `maximum` characters, and put together the parts have all characters of the text that are not
-- white space, in order.
pub bounded_text-PartsOf :
    (value : Text) (maximum : ℕ) → 1 ≤ maximum → PartsOf maximum value (bounded_text value maximum)
unfolding bounded_text
bounded_text-PartsOf value maximum room =
    let all =
      bounded_parts-PartsOf (length (strip value)) maximum (strip value) room (omega arith) in
    record {
      parts = all.parts;
      returned = all.returned;
      bounded = all.bounded;
      same = all.same ∙ visible-strip value;
    }
