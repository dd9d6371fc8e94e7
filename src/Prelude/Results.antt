-- ===== src/Prelude/Results.antt =====
-- Rust's `Result` with `?` as a bind, and an early return on a test as `refuse_if`.
use mathlib.Core.Path.{◌≡◌, refl}
use mathlib.Core.Logic.{◌⊎◌, inl, inr}
use mathlib.Core.Bool.{Bool, true, false}
use mathlib.Core.Option.{Option, none, some}

pub data Result {ℓ} (E A : Type ℓ) : Type ℓ where
  ok : A → Result E A
  err : E → Result E A

-- `if b { return Err(e); }`
abbrev pub refuse_if {ℓ} : {E : Type ℓ} → Bool → E → Result E (Unit {ℓ})
refuse_if false e = ok tt
refuse_if true e = err e

module _ {ℓ} {E A : Type ℓ} where
  -- `Option::ok_or`
  abbrev pub ok_or : Option A → E → Result E A
  ok_or none e = err e
  ok_or (some a) e = ok a

  pub Result-cases : (r : Result E A) → ((a : A) × (r ≡ ok a)) ⊎ ((e : E) × (r ≡ err e))
  Result-cases (err e) = inr (e, refl)
  Result-cases (ok a) = inl (a, refl)

-- `Result::map_err`
abbrev pub map_err {ℓ} : {E F A : Type ℓ} → (E → F) → Result E A → Result F A
map_err f (err e) = err (f e)
map_err f (ok a) = ok a

module _ {ℓ} {E A B : Type ℓ} where
  -- `Result::and_then`, by name and as the bind of `do`.
  abbrev pub and_then : Result E A → (A → Result E B) → Result E B
  and_then (err e) f = err e
  and_then (ok a) f = f a

  infixl 5 ◌>>=◌ ◌>>◌
  abbrev pub ◌>>=◌ : Result E A → (A → Result E B) → Result E B
  r >>= f = and_then r f

  abbrev pub ◌>>◌ : Result E A → Result E B → Result E B
  r >> next = and_then r (λ a. next)
