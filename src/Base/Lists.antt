-- ===== src/Base/Lists.antt =====
-- Lists measured and searched by native numbers and Boolean tests, under the library's names.
use Prim.Native.Nat.{ℕ, suc, ◌+◌}
use mathlib.Core.Path.{◌≡◌, refl, sym, subst}
use mathlib.Core.Logic.{◌↔◌, ◌⊎◌, inl, inr}
use mathlib.Core.Bool.{Bool, true, false, ◌||◌, ◌&&◌, not}
use mathlib.Core.Option.{Option, none, some}
use mathlib.Core.List.{List, [], ◌∷◌, ◌++◌}
use native.Mathlib.Omega.{arith}
use secure_portfolio_copilot.Base.Tests.{Eq, ◌==◌, if◌then◌else◌}

module _ {ℓ} {A : Type ℓ} where
  abbrev pub length : List A → ℕ
  length [] = 0
  length (x ∷ xs) = suc (length xs)

  pub length-append : (xs ys : List A) → length (xs ++ ys) ≡ length xs + length ys
  length-append [] ys = omega arith
  length-append (x ∷ xs) ys = omega (arith, length-append xs ys)

  -- `not xs`
  abbrev pub is_empty : List A → Bool
  is_empty [] = true
  is_empty (x ∷ xs) = false

  -- `any(p(x) for x in xs)` and `all(p(x) for x in xs)`
  abbrev pub any : (A → Bool) → List A → Bool
  any p [] = false
  any p (x ∷ xs) = p x || any p xs

  abbrev pub all : (A → Bool) → List A → Bool
  all p [] = true
  all p (x ∷ xs) = p x && all p xs

  -- `tuple(x for x in xs if p(x))`
  abbrev pub filter : (A → Bool) → List A → List A
  filter p [] = []
  filter p (x ∷ xs) = let rest = filter p xs in if p x then x ∷ rest else rest

  -- `next((x for x in xs if p(x)), None)`
  abbrev pub find? : (A → Bool) → List A → Option A
  find? p [] = none
  find? p (x ∷ xs) = if p x then some x else find? p xs

module _ {ℓ} {A : Type ℓ} where
  abbrev pub is_some : Option A → Bool
  is_some none = false
  is_some (some a) = true

-- Membership that can be matched, and what holds of every element.
module _ {ℓ} {A : Type ℓ} where
  abbrev pub Exists : (A → Type 0) → List A → Type 0
  Exists P [] = ⊥
  Exists P (x ∷ xs) = P x ⊎ Exists P xs

  abbrev pub All : (A → Type 0) → List A → Type 0
  All P [] = Unit
  All P (x ∷ xs) = P x × All P xs

module _ {ℓ} {A : Type ℓ} ⦃e : Eq A⦄ where
  -- `a in xs`
  abbrev pub contains : List A → A → Bool
  contains [] a = false
  contains (x ∷ xs) a = (x == a) || contains xs a

module _ {A : Type 0} ⦃e : Eq A⦄ where
  pub contains_iff : (xs : List A) (a : A) → (contains xs a ≡ true) ↔ Exists (λ x. x ≡ a) xs
  contains_iff [] a = ground arith
  contains_iff (x ∷ xs) a = ground (arith, contains_iff xs a, e.same_iff x a)

module _ {ℓ} {A : Type ℓ} (p : A → Bool) where
  pub any_iff : (xs : List A) → (any p xs ≡ true) ↔ Exists (λ x. p x ≡ true) xs
  any_iff [] = ground arith
  any_iff (x ∷ xs) = ground (arith, any_iff xs)

  pub any-is_empty : (xs : List A) → is_empty xs ≡ true → any p xs ≡ false
  any-is_empty [] h = refl
  any-is_empty (x ∷ xs) h = cc

  pub any-append : (xs ys : List A) → any p (xs ++ ys) ≡ (any p xs || any p ys)
  any-append [] ys = refl
  any-append (x ∷ xs) ys = ground (arith, any-append xs ys)

  pub any-filter : (q : A → Bool) (xs : List A) → any p (filter q xs) ≡ any (λ x. q x && p x) xs
  any-filter q [] = refl
  any-filter q (x ∷ xs) = ground (arith, any-filter q xs)

  pub is_empty-filter : (xs : List A) → is_empty (filter p xs) ≡ not (any p xs)
  is_empty-filter [] = refl
  is_empty-filter (x ∷ xs) = ground (arith, is_empty-filter xs)

  pub is_some-find? : (xs : List A) → is_some (find? p xs) ≡ any p xs
  is_some-find? [] = refl
  is_some-find? (x ∷ xs) = ground (arith, is_some-find? xs)

module _ {ℓ} {A : Type ℓ} where
  pub any-false : (xs : List A) → any (λ _. false) xs ≡ false
  any-false [] = refl
  any-false (x ∷ xs) = any-false xs

  pub any-and : (b : Bool) (p : A → Bool) (xs : List A) → any (λ x. b && p x) xs ≡ (b && any p xs)
  any-and true p xs = refl
  any-and false p xs = any-false xs

-- What holds of some element holds of one that is in the list, and the other way round.
module _ {A : Type 0} (P : A → Type 0) where
  pub Exists-out : (xs : List A) → Exists P xs → (a : A) × Exists (λ x. x ≡ a) xs × P a
  Exists-out [] h = elim h [ ]
  Exists-out (x ∷ xs) (inl h) = (x, inl refl, h)
  Exists-out (x ∷ xs) (inr h) = let (a, m, p) = Exists-out xs h in (a, inr m, p)

  pub Exists-in : (xs : List A) (a : A) → Exists (λ x. x ≡ a) xs → P a → Exists P xs
  Exists-in [] a m h = elim m [ ]
  Exists-in (x ∷ xs) a (inl e) h = inl (subst P (sym e) h)
  Exists-in (x ∷ xs) a (inr m) h = inr (Exists-in xs a m h)

-- `sum`
abbrev pub total : List ℕ → ℕ
total [] = 0
total (n ∷ ns) = n + total ns
