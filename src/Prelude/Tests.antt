-- ===== src/Prelude/Tests.antt =====
-- Boolean tests on numbers and texts, equality as an interface, and the conditional.
use Prim.Native.Nat.{ℕ, ◌≤◌, ◌<◌, compare, Ordering}
use Prim.Native.String.{String}
use mathlib.Core.Path.{◌≡◌, refl}
use mathlib.Core.Logic.{◌↔◌, ◌⊎◌, inl, inr}
use mathlib.Core.Bool.{Bool, true, false}
use mathlib.Core.Option.{Option, none, some}
use native.Mathlib.Omega.{arith}
use text.Mathlib.Text.{◌==◌ as str_eq}
use text.Mathlib.TextEquality.{eq_iff}

abbrev pub ltb : ℕ → ℕ → Bool
ltb a b = elim (compare a b) [ Ordering.lt ↦ true | _ ↦ false ]

abbrev pub leb : ℕ → ℕ → Bool
leb a b = elim (compare a b) [ Ordering.gt ↦ false | _ ↦ true ]

abbrev pub nat_eq : ℕ → ℕ → Bool
nat_eq a b = elim (compare a b) [ Ordering.eq ↦ true | _ ↦ false ]

pub nat_eq_iff : (a b : ℕ) → (nat_eq a b ≡ true) ↔ (a ≡ b)
nat_eq_iff a b = ground arith

-- `PartialEq`, for the types that the program compares: a test, and that it decides the path type.
pub record Eq {ℓ} (A : Type ℓ) : Type ℓ where
  pub same : A → A → Bool
  pub same_sound : (x y : A) → same x y ≡ true → x ≡ y
  pub same_complete : (x y : A) → x ≡ y → same x y ≡ true

instance abbrev pub ℕ_eq : Eq ℕ
ℕ_eq = record {
  same = nat_eq;
  same_sound = λ x y. (nat_eq_iff x y).0;
  same_complete = λ x y. (nat_eq_iff x y).1;
}

instance abbrev pub String_eq : Eq String
String_eq = record {
  same = str_eq;
  same_sound = λ x y. (eq_iff x y).0;
  same_complete = λ x y. (eq_iff x y).1;
}

module _ {ℓ} {A : Type ℓ} ⦃d : Eq A⦄ where
  infix 50 ◌==◌
  abbrev pub ◌==◌ : A → A → Bool
  x == y = d.same x y

  -- The law of `==`, in the form that `ground` is given at each pair that is compared.
  pub beq_iff : (x y : A) → ((x == y) ≡ true) ↔ (x ≡ y)
  beq_iff x y = (d.same_sound x y, d.same_complete x y)

  pub beq_refl : (x : A) → (x == x) ≡ true
  beq_refl x = d.same_complete x x refl

infix 1 if◌then◌else◌
abbrev pub if◌then◌else◌ {ℓ} : {A : Type ℓ} → Bool → A → A → A
if true then x else y = x
if false then x else y = y

pub ltb→lt : (a b : ℕ) → ltb a b ≡ true → a < b
ltb→lt a b h = ground arith

pub leb→le : (a b : ℕ) → leb a b ≡ true → a ≤ b
leb→le a b h = ground arith

-- To split on a computed value and keep the equation.
pub Bool-cases : (b : Bool) → (b ≡ true) ⊎ (b ≡ false)
Bool-cases true = inl refl
Bool-cases false = inr refl

pub Option-cases {ℓ} : {A : Type ℓ} (o : Option A) → (o ≡ none) ⊎ ((a : A) × (o ≡ some a))
Option-cases none = inl refl
Option-cases (some a) = inr (a, refl)
