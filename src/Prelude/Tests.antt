-- ===== src/Prelude/Tests.antt =====
-- Boolean tests on the native numbers, equality as an interface, and the conditional.
use Prim.Native.Nat.{ℕ, ◌≤◌, ◌<◌, compare, Ordering}
use mathlib.Core.Path.{◌≡◌, refl}
use mathlib.Core.Logic.{◌↔◌, ◌⊎◌, inl, inr}
use mathlib.Core.Bool.{Bool, true, false}
use mathlib.Core.Option.{Option, none, some}
use mathlib.Core.List.{List}
use native.Mathlib.Omega.{arith}
use native.Mathlib.Decide.{ℕ_discrete}

abbrev pub ltb : ℕ → ℕ → Bool
ltb a b = elim (compare a b) [ Ordering.lt ↦ true | _ ↦ false ]

abbrev pub leb : ℕ → ℕ → Bool
leb a b = elim (compare a b) [ Ordering.gt ↦ false | _ ↦ true ]

infix 1 if◌then◌else◌
abbrev pub if◌then◌else◌ {ℓ} : {A : Type ℓ} → Bool → A → A → A
if true then x else y = x
if false then x else y = y

-- `PartialEq` of the source, where it is derived: equality of all fields.
pub record Eq {ℓ} (A : Type ℓ) : Type ℓ where
  pub decide_eq : Discrete A

infix 50 ◌==◌
abbrev pub ◌==◌ {ℓ} : {A : Type ℓ} ⦃e : Eq A⦄ → A → A → Bool
◌==◌ ⦃e⦄ a b = elim (e.decide_eq a b) [ yes _ ↦ true | no _ ↦ false ]

unfoldable pub text_discrete : Discrete (List ℕ)
unfolding ℕ_discrete
text_discrete = hlevel ℕ_discrete

unfoldable pub texts_discrete : Discrete (List (List ℕ))
unfolding ℕ_discrete
texts_discrete = hlevel ℕ_discrete

unfoldable pub option_text_discrete : Discrete (Option (List ℕ))
unfolding ℕ_discrete
option_text_discrete = hlevel ℕ_discrete

instance abbrev pub nat_eq : Eq ℕ
nat_eq = record { decide_eq = ℕ_discrete }

instance abbrev pub text_eq : Eq (List ℕ)
text_eq = record { decide_eq = text_discrete }

instance abbrev pub texts_eq : Eq (List (List ℕ))
texts_eq = record { decide_eq = texts_discrete }

instance abbrev pub option_text_eq : Eq (Option (List ℕ))
option_text_eq = record { decide_eq = option_text_discrete }

pub ==_iff {ℓ} : {A : Type ℓ} ⦃e : Eq A⦄ (a b : A) → ((a == b) ≡ true) ↔ (a ≡ b)
==_iff a b = ground arith

pub ==_refl {ℓ} : {A : Type ℓ} ⦃e : Eq A⦄ (a : A) → (a == a) ≡ true
==_refl a = ground arith

pub ltb→lt : (a b : ℕ) → ltb a b ≡ true → a < b
ltb→lt a b h = ground arith

pub leb→le : (a b : ℕ) → leb a b ≡ true → a ≤ b
leb→le a b h = ground arith

-- To split on a computed value and keep the equation.
pub Bool-cases : (b : Bool) → (b ≡ true) ⊎ (b ≡ false)
Bool-cases true = inl refl
Bool-cases false = inr refl

pub Option-cases {ℓ} : {A : Type ℓ} (o : Option A) → (o ≡ none) ⊎ ((a : A) × (o ≡ some a))
Option-cases none = inl refl
Option-cases (some a) = inr (a, refl)
