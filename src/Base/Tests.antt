-- ===== src/Base/Tests.antt =====
-- Boolean tests on numbers, texts and options, the conditional, and the splits on them.
use Prim.Native.Nat.{ℕ, compare, Ordering}
use Prim.Native.String.{String}
use mathlib.Core.Path.{◌≡◌, refl}
use mathlib.Core.Logic.{◌↔◌, ◌⊎◌, inl, inr}
use mathlib.Core.Bool.{Bool, true, false, ◌&&◌}
use mathlib.Core.List.{List, [], ◌∷◌}
use mathlib.Core.Option.{Option, none, some}
use native.Mathlib.Omega.{arith}
use text.Mathlib.Text.{◌==◌ as str_eq}
use text.Mathlib.TextEquality.{eq_iff}

abbrev pub ltb : ℕ → ℕ → Bool
ltb a b = elim (compare a b) [ Ordering.lt ↦ true | _ ↦ false ]

abbrev pub leb : ℕ → ℕ → Bool
leb a b = elim (compare a b) [ Ordering.gt ↦ false | _ ↦ true ]

abbrev pub nat_eq : ℕ → ℕ → Bool
nat_eq a b = elim (compare a b) [ Ordering.eq ↦ true | _ ↦ false ]

infix 1 if◌then◌else◌
abbrev pub if◌then◌else◌ {ℓ} : {A : Type ℓ} → Bool → A → A → A
if true then x else y = x
if false then x else y = y

pub nat_eq_iff : (a b : ℕ) → (nat_eq a b ≡ true) ↔ (a ≡ b)
nat_eq_iff a b = ground arith

-- `==` of a type, with what makes it an equality.
pub record Eq {ℓ} (T : Type ℓ) : Type ℓ where
  pub same : T → T → Bool
  pub same_iff : (x y : T) → (same x y ≡ true) ↔ (x ≡ y)

module _ {ℓ} {T : Type ℓ} ⦃eq : Eq T⦄ where
  infix 50 ◌==◌
  abbrev pub ◌==◌ : T → T → Bool
  x == y = eq.same x y

instance abbrev pub String-eq : Eq String
String-eq = record { same_iff = eq_iff; same = str_eq }

instance abbrev pub ℕ-eq : Eq ℕ
ℕ-eq = record { same_iff = nat_eq_iff; same = nat_eq }

-- Python compares the members of an enumeration by identity.
abbrev pub enum_beq {ℓ} : {A : Type ℓ} → Discrete A → A → A → Bool
enum_beq d a b = elim (d a b) [ yes _ ↦ true | no _ ↦ false ]

enum_beq_of {ℓ} :
    {A : Type ℓ} {a b : A} (t : Dec (a ≡ b))
    → (elim t as (λ _. Bool) [ yes _ ↦ true | no _ ↦ false ]) ≡ true
    → a ≡ b
enum_beq_of (yes p) h = p
enum_beq_of (no n) h = cc

enum_beq_to {ℓ} :
    {A : Type ℓ} {a b : A} (t : Dec (a ≡ b))
    → a ≡ b
    → (elim t as (λ _. Bool) [ yes _ ↦ true | no _ ↦ false ]) ≡ true
enum_beq_to (yes p) h = refl
enum_beq_to (no n) h = absurd (n h)

pub enum_beq_iff {ℓ} : {A : Type ℓ} (d : Discrete A) (a b : A) → (enum_beq d a b ≡ true) ↔ (a ≡ b)
enum_beq_iff d a b = (enum_beq_of (d a b), enum_beq_to (d a b))

abbrev pub enum_eq {ℓ} : {A : Type ℓ} → Discrete A → Eq A
enum_eq d = record { same = enum_beq d; same_iff = enum_beq_iff d }

-- To split on a computed value and keep the equation.
pub Bool-cases : (b : Bool) → (b ≡ true) ⊎ (b ≡ false)
Bool-cases true = inl refl
Bool-cases false = inr refl

pub Option-cases {ℓ} : {A : Type ℓ} (o : Option A) → (o ≡ none) ⊎ ((a : A) × (o ≡ some a))
Option-cases none = inl refl
Option-cases (some a) = inr (a, refl)

module _ {ℓ} {A : Type ℓ} ⦃e : Eq A⦄ where
  abbrev pub option_beq : Option A → Option A → Bool
  option_beq none none = true
  option_beq none (some b) = false
  option_beq (some a) none = false
  option_beq (some a) (some b) = a == b

  pub option_beq_iff : (a b : Option A) → (option_beq a b ≡ true) ↔ (a ≡ b)
  option_beq_iff none none = ground arith
  option_beq_iff none (some b) = ground arith
  option_beq_iff (some a) none = ground arith
  option_beq_iff (some a) (some b) = ground (arith, e.same_iff a b)

  instance abbrev pub Option-eq : Eq (Option A)
  Option-eq = record { same = option_beq; same_iff = option_beq_iff }

module _ {ℓ} {A : Type ℓ} ⦃e : Eq A⦄ where
  abbrev pub list_beq : List A → List A → Bool
  list_beq [] [] = true
  list_beq [] (y ∷ ys) = false
  list_beq (x ∷ xs) [] = false
  list_beq (x ∷ xs) (y ∷ ys) = (x == y) && list_beq xs ys

  pub list_beq_iff : (xs ys : List A) → (list_beq xs ys ≡ true) ↔ (xs ≡ ys)
  list_beq_iff [] [] = ground arith
  list_beq_iff [] (y ∷ ys) = ground arith
  list_beq_iff (x ∷ xs) [] = ground arith
  list_beq_iff (x ∷ xs) (y ∷ ys) = ground (arith, e.same_iff x y, list_beq_iff xs ys)

  instance abbrev pub List-eq : Eq (List A)
  List-eq = record { same = list_beq; same_iff = list_beq_iff }
