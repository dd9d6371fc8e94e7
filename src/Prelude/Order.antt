-- ===== src/Prelude/Order.antt =====
-- The order of byte strings, sorting, and checked machine addition.
use Prim.Native.Nat.{ℕ, ◌+◌}
use mathlib.Core.Bool.{Bool, true, false}
use mathlib.Core.Option.{Option, none, some}
use mathlib.Core.List.{List, [], ◌∷◌}
use bullet_git.Prelude.Tests.{◌==◌, nat_eq, if◌then◌else◌, ltb}
use bullet_git.Prelude.Lists.{Text, u64_max}

-- `a <= b` on byte strings: lexicographic.
unfoldable pub text_le : Text → Text → Bool
text_le [] b = true
text_le (x ∷ xs) [] = false
text_le (x ∷ xs) (y ∷ ys) = if x == y then text_le xs ys else ltb x y

unfoldable pub insert_sorted : Text → List Text → List Text
insert_sorted x [] = x ∷ []
insert_sorted x (y ∷ ys) = if text_le x y then x ∷ y ∷ ys else y ∷ insert_sorted x ys

-- The result of `sort` and of `sort_unstable`: equal texts cannot be told apart.
unfoldable pub sort : List Text → List Text
unfolding insert_sorted
sort [] = []
sort (x ∷ xs) = insert_sorted x (sort xs)

-- `usize::checked_add` and `u64::checked_add` of a 64-bit target.
unfoldable pub checked_add : ℕ → ℕ → Option ℕ
checked_add a b = if ltb u64_max (a + b) then none else some (a + b)
