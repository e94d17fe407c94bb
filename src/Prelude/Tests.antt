-- ===== src/Prelude/Tests.antt =====
-- Boolean tests, the conditional, and `===` as one operator for every type that has an instance.
use Prim.Native.Nat.{ℕ, compare, Ordering}
use Prim.Native.String.{String}
use mathlib.Core.Path.{◌≡◌, refl, ap}
use mathlib.Core.Logic.{◌↔◌, ◌⊎◌, inl, inr}
use mathlib.Core.Bool.{Bool, true, false, ◌||◌}
use mathlib.Core.Option.{Option, none, some}
use mathlib.Core.List.{List, [], ◌∷◌}
use native.Mathlib.Omega.{arith}
use text.Mathlib.Text.{◌==◌ as str_beq}
use text.Mathlib.TextEquality.{eq_iff}

abbrev pub ltb : ℕ → ℕ → Bool
ltb a b = elim (compare a b) [ Ordering.lt ↦ true | _ ↦ false ]

abbrev pub leb : ℕ → ℕ → Bool
leb a b = elim (compare a b) [ Ordering.gt ↦ false | _ ↦ true ]

abbrev pub nat_beq : ℕ → ℕ → Bool
nat_beq a b = elim (compare a b) [ Ordering.eq ↦ true | _ ↦ false ]

pub nat_beq_iff : (a b : ℕ) → (nat_beq a b ≡ true) ↔ (a ≡ b)
nat_beq_iff a b = ground arith

infix 1 if◌then◌else◌
abbrev pub if◌then◌else◌ {ℓ} : {A : Type ℓ} → Bool → A → A → A
if true then x else y = x
if false then x else y = y

pub Bool-cases : (b : Bool) → (b ≡ true) ⊎ (b ≡ false)
Bool-cases true = inl refl
Bool-cases false = inr refl

-- Whether an optional value is there, with the equation.
pub Option-cases {ℓ} :
    {B : Type ℓ} (found : Option B) → (found ≡ none) ⊎ ((value : B) × (found ≡ some value))
Option-cases (some value) = inr (value, refl)
Option-cases none = inl refl

-- A type that the source compares by `===`.
pub record Comparable {ℓ} (Value : Type ℓ) : Type ℓ where
  pub same_value : (left right : Value) → Bool
  pub same_iff : (left right : Value) → (same_value left right ≡ true) ↔ (left ≡ right)

infix 50 ◌==◌
abbrev pub ◌==◌ {ℓ} : {A : Type ℓ} ⦃e : Comparable A⦄ → A → A → Bool
◌==◌ ⦃e⦄ = e.same_value

instance abbrev pub nat_eq : Comparable ℕ
nat_eq = record { same_value = nat_beq; same_iff = nat_beq_iff }

instance abbrev pub string_eq : Comparable String
string_eq = record { same_value = str_beq; same_iff = eq_iff }

module _ {ℓ} {A : Type ℓ} ⦃e : Comparable A⦄ where
  -- `===` where either side may be `null`.
  abbrev pub option_beq : Option A → Option A → Bool
  option_beq none none = true
  option_beq (some a) (some b) = a == b
  option_beq _ _ = false

  pub option_beq_iff : (a b : Option A) → (option_beq a b ≡ true) ↔ (a ≡ b)
  option_beq_iff none none = ground arith
  option_beq_iff none (some b) = ground arith
  option_beq_iff (some a) none = ground arith
  option_beq_iff (some a) (some b) = ground (arith, e.same_iff a b)

  -- `xs.includes(a)`
  abbrev pub includes : List A → A → Bool
  includes [] a = false
  includes (x ∷ xs) a = a == x || includes xs a

-- `Boolean(o)` of an object or `null`
abbrev pub is_some {ℓ} : {A : Type ℓ} → Option A → Bool
is_some none = false
is_some (some _) = true

-- An enumeration is compared by the position of its values.
module _ {A : Type 0} (code : A → ℕ) (injective : (a b : A) → code a ≡ code b → a ≡ b) where
  pub code_iff : (a b : A) → (nat_beq (code a) (code b) ≡ true) ↔ (a ≡ b)
  code_iff a b =
      let (there, back) = nat_beq_iff (code a) (code b) in
      (λ h. injective a b (there h), λ e. back (ap code e))

  abbrev pub code_eq : Comparable A
  code_eq = record { same_value = λ a b. nat_beq (code a) (code b); same_iff = code_iff }
