-- ===== src/Text.antt =====
-- Python's `str` as its code points, and the methods of it that the program calls.
use secure_portfolio_copilot.Base.{
  Bool, List, List-eq, Option-eq, String, String-eq, [], false, if◌then◌else◌, is_empty, leb, ltb,
  refl, suc, true, zero, ℕ, ℕ-eq, ◌%◌, ◌&&◌, ◌++◌, ◌+◌, ◌/◌, ◌==◌, ◌||◌, ◌∷◌, ◌≡◌,
}
use Prim.Native.Char.{code}

abbrev pub Text : Type 0
Text = List ℕ

abbrev pub codes : String → Text
codes String.[] = []
codes (String.◌∷◌ c s) = code c ∷ codes s

abbrev pub within : ℕ → ℕ → ℕ → Bool
within lo hi c = leb lo c && leb c hi

-- `str.isspace` of one character
unfoldable pub is_space : ℕ → Bool
is_space c =
    within 9 13 c
    || (within 28 32 c
        || ((c == 0x85)
            || ((c == 0xa0)
                || ((c == 0x1680)
                    || (within 0x2000 0x200a c
                        || ((c == 0x2028)
                            || ((c == 0x2029)
                                || ((c == 0x202f) || ((c == 0x205f) || (c == 0x3000))))))))))

-- `text.split()`: `word` is what has been read of the word at hand.
pub split_words : Text → Text → List Text
split_words word [] = if is_empty word then [] else word ∷ []
split_words word (c ∷ text) =
    let on = split_words (word ++ c ∷ []) text in
    let over = split_words [] text in
    if is_space c then (if is_empty word then over else word ∷ over) else on

abbrev pub words : Text → List Text
words = split_words []

-- `separator.join(parts)`
unfoldable pub join : Text → List Text → Text
join separator [] = []
join separator (part ∷ []) = part
join separator (part ∷ next ∷ parts) = part ++ (separator ++ join separator (next ∷ parts))

-- `" ".join(text.split())`
unfoldable pub collapse : Text → Text
unfolding split_words join is_space
collapse text = join (codes " ") (words text)

-- `text.startswith(prefix)`
unfoldable pub starts_with : Text → Text → Bool
starts_with [] text = true
starts_with (c ∷ prefix) [] = false
starts_with (c ∷ prefix) (d ∷ text) = (c == d) && starts_with prefix text

-- `text.lstrip()`
unfoldable pub lstrip : Text → Text
unfolding is_space
lstrip [] = []
lstrip (c ∷ text) = let rest = lstrip text in if is_space c then rest else c ∷ text

-- `text.rstrip()`
unfoldable pub rstrip : Text → Text
unfolding is_space
rstrip [] = []
rstrip (c ∷ text) = let rest = rstrip text in if is_space c && is_empty rest then [] else c ∷ rest

-- `text.strip()`
unfoldable pub strip : Text → Text
unfolding lstrip rstrip
strip text = rstrip (lstrip text)

-- The decimal digits of a number, for f-strings.
pub decimal_from : ℕ → ℕ → Text → Text
decimal_from zero n digits = digits
decimal_from (suc fuel) n digits =
    let shorter = decimal_from fuel (n / 10) ((48 + n % 10) ∷ digits) in
    if ltb n 10 then (48 + n) ∷ digits else shorter

unfoldable pub decimal : ℕ → Text
unfolding decimal_from
decimal n = decimal_from (suc n) n []

collapse_test : collapse (codes "  a  bc ") ≡ codes "a bc"
unfolding collapse
collapse_test = refl

strip_test : strip (codes "  a  bc ") ≡ codes "a  bc"
unfolding strip
strip_test = refl

decimal_test : decimal 307 ≡ codes "307"
unfolding decimal
decimal_test = refl
