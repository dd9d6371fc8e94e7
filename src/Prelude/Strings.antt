-- ===== src/Prelude/Strings.antt =====
-- `str` operations at ASCII characters, on the bytes of a text.
use Prim.Native.Nat.{ℕ, zero, suc, ◌+◌, ◌/◌, ◌%◌}
use mathlib.Core.Path.{◌≡◌, refl}
use mathlib.Core.Bool.{Bool, true, false, ◌&&◌}
use mathlib.Core.Option.{Option, none, some}
use mathlib.Core.List.{List, [], ◌∷◌, ◌++◌}
use native.Mathlib.Omega.{arith}
use bullet_git.Prelude.Tests.{◌==◌, nat_eq, if◌then◌else◌, leb, ltb}
use bullet_git.Prelude.Lists.{Text, codes, length, drop}

-- `str::starts_with`
unfoldable pub starts_with : Text → Text → Bool
starts_with [] value = true
starts_with (p ∷ ps) [] = false
starts_with (p ∷ ps) (c ∷ cs) = if p == c then starts_with ps cs else false

-- `str::split_once` at one ASCII character.
unfoldable pub split_once : ℕ → Text → Option (Text × Text)
split_once sep [] = none
split_once sep (c ∷ cs) =
    let rest = split_once sep cs in
    if c == sep
    then some ([], cs)
    else elim rest [ none ↦ none | some (before, after) ↦ some (c ∷ before, after) ]

-- `str::split` at one ASCII character: at least one segment.
unfoldable pub split : ℕ → Text → List Text
split sep [] = [] ∷ []
split sep (c ∷ cs) =
    let rest = split sep cs in
    if c == sep then [] ∷ rest else elim rest [ [] ↦ (c ∷ []) ∷ [] | s ∷ ss ↦ (c ∷ s) ∷ ss ]

-- `Vec<&str>::join` with one ASCII character.
unfoldable pub join : ℕ → List Text → Text
join sep [] = []
join sep (s ∷ []) = s
join sep (s ∷ t ∷ ss) = s ++ sep ∷ join sep (t ∷ ss)

-- `str::strip_prefix`
unfoldable pub strip_prefix : Text → Text → Option Text
strip_prefix [] value = some value
strip_prefix (p ∷ ps) [] = none
strip_prefix (p ∷ ps) (c ∷ cs) = if p == c then strip_prefix ps cs else none

-- `u8::to_ascii_lowercase` on each byte.
unfoldable pub to_ascii_lowercase : Text → Text
to_ascii_lowercase [] = []
to_ascii_lowercase (c ∷ cs) =
    (if leb b'A' c && leb c b'Z' then c + 32 else c) ∷ to_ascii_lowercase cs

pub starts_with-append : (p rest : Text) → starts_with p (p ++ rest) ≡ true
unfolding starts_with
starts_with-append [] rest = refl
starts_with-append (c ∷ p) rest = ground (arith, starts_with-append p rest)

pub starts_with-eq-append :
    (p raw : Text) → starts_with p raw ≡ true → raw ≡ p ++ drop (length p) raw
unfolding starts_with
starts_with-eq-append [] raw h = refl
starts_with-eq-append (c ∷ p) [] h = cc
starts_with-eq-append (c ∷ p) (d ∷ raw) h = ground (arith, starts_with-eq-append p raw)

pub strip_prefix-append : (p rest : Text) → strip_prefix p (p ++ rest) ≡ some rest
unfolding strip_prefix
strip_prefix-append [] rest = refl
strip_prefix-append (c ∷ p) rest = ground (arith, strip_prefix-append p rest)

pub strip_prefix-eq-some : (p raw rest : Text) → strip_prefix p raw ≡ some rest → raw ≡ p ++ rest
unfolding strip_prefix
strip_prefix-eq-some [] raw rest h = ground arith
strip_prefix-eq-some (c ∷ p) [] rest h = cc
strip_prefix-eq-some (c ∷ p) (d ∷ raw) rest h = ground (arith, strip_prefix-eq-some p raw rest)

-- `u64::to_string`: twenty digits are enough below 10^20.
unfoldable pub decimal_from : ℕ → ℕ → Text → Text
decimal_from zero n acc = acc
decimal_from (suc fuel) n acc =
    let longer = decimal_from fuel (n / 10) ((48 + n % 10) ∷ acc) in
    if ltb n 10 then (48 + n) ∷ acc else longer

unfoldable pub to_string : ℕ → Text
unfolding decimal_from
to_string n = decimal_from 20 n []

to_string_test : to_string 9007199254740991 ≡ codes "9007199254740991"
unfolding to_string
to_string_test = refl
