-- ===== src/Journal/Names/RoundTrip.antt =====
-- The names of batches read back, and staging names are told apart from them.
use bullet_git.Prelude.{
  ℕ, zero, suc, ◌+◌, ◌*◌, ◌-◌, ◌/◌, ◌%◌, ◌^◌, ◌≤◌, ◌<◌, ◌≡◌, ◌≢◌, refl, sym, ap, ◌∙◌, Bool, true,
  false, not, ◌&&◌, ◌||◌, ◌==◌, none, some, [], ◌∷◌, ◌++◌, Text, codes, length, all, is_empty, take,
  get_last?, nat_eq, text_eq, ==_refl, length-append, take-append-drop, drop-append, split,
  split_once, strip_prefix, strip_prefix-append, to_string, decimal_from, u64_max, arith, leb,
  Option-cases, inl, inr,
}
use native.Mathlib.Nat.{pow-suc}
use mathlib.Core.List.{append_assoc}
use bullet_git.Workspace.Scope.Coverage.{split-append}
use bullet_git.Types.Digest.{is_hex_byte, is_lower_hex}
use bullet_git.Journal.Names.{
  is_ascii_digit, padded, decimal_value, parse_u64, strip_suffix, batch_name, parse_range,
  parse_batch_name, are_temp_fields, is_temp_name, staging_stem, staging_name,
}

-- The value of padded digits is the number.
decimal_value-padded :
    (k n : ℕ) (acc : Text) → n < 10 ^ k → decimal_value 0 (padded k n acc) ≡ decimal_value n acc
unfolding decimal_value padded
decimal_value-padded zero n acc h = let none_left : n ≡ 0 = omega arith in rw none_left refl
decimal_value-padded (suc k) n acc h =
    let fits : n < 10 ^ k * 10 = rw (← pow-suc) h in
    let value : n / 10 * 10 + (48 + n % 10 - 48) ≡ n = omega arith in
    decimal_value-padded k (n / 10) ((48 + n % 10) ∷ acc) (omega arith)
    ∙ ap (λ m. decimal_value m acc) value

length-padded : (k n : ℕ) (acc : Text) → length (padded k n acc) ≡ k + length acc
unfolding padded
length-padded zero n acc = omega arith
length-padded (suc k) n acc = length-padded k (n / 10) ((48 + n % 10) ∷ acc) ∙ omega arith

padded-digits :
    (k n : ℕ) (acc : Text)
    → all is_ascii_digit acc ≡ true
    → all is_ascii_digit (padded k n acc) ≡ true
unfolding padded is_ascii_digit
padded-digits zero n acc h = h
padded-digits (suc k) n acc h = padded-digits k (n / 10) ((48 + n % 10) ∷ acc) (ground arith)

decimal_from-digits :
    (fuel n : ℕ) (acc : Text)
    → all is_ascii_digit acc ≡ true
    → all is_ascii_digit (decimal_from fuel n acc) ≡ true
unfolding decimal_from is_ascii_digit
decimal_from-digits zero n acc h = h
decimal_from-digits (suc fuel) n acc h =
    let rest = decimal_from-digits fuel (n / 10) ((48 + n % 10) ∷ acc) (ground arith) in
    ground (arith, rest)

decimal_from-not_empty :
    (fuel n c : ℕ) (acc : Text) → is_empty (decimal_from fuel n (c ∷ acc)) ≡ false
unfolding decimal_from
decimal_from-not_empty zero n c acc = refl
decimal_from-not_empty (suc fuel) n c acc =
    ground (arith, decimal_from-not_empty fuel (n / 10) (48 + n % 10) (c ∷ acc))

to_string-digits :
    (n : ℕ) → (is_empty (to_string n) ≡ false) × (all is_ascii_digit (to_string n) ≡ true)
unfolding to_string
to_string-digits n = (
  unfold decimal_from in ground (arith, decimal_from-not_empty 19 (n / 10) (48 + n % 10) []),
  decimal_from-digits 20 n [] refl,
)

take-append : (xs ys : Text) → take (length xs) (xs ++ ys) ≡ xs
take-append [] ys = refl
take-append (x ∷ xs) ys = ap (λ r. x ∷ r) (take-append xs ys)

strip_suffix-append : (a suffix : Text) → strip_suffix suffix (a ++ suffix) ≡ some a
unfolding strip_suffix
strip_suffix-append a suffix =
    let kept : length (a ++ suffix) - length suffix ≡ length a =
      omega (arith, length-append a suffix) in
    rw (kept, drop-append a suffix, take-append a suffix, ==_refl suffix)
      (ground (arith, length-append a suffix))

strip_suffix-eq-some :
    (suffix value r : Text) → strip_suffix suffix value ≡ some r → value ≡ r ++ suffix
unfolding strip_suffix
strip_suffix-eq-some suffix value r h =
    ground (arith, take-append-drop (length value - length suffix) value)

get_last?-append : (a : Text) (x : ℕ) (xs : Text) → get_last? (a ++ x ∷ xs) ≡ get_last? (x ∷ xs)
get_last?-append [] x xs = refl
get_last?-append (c ∷ []) x xs = refl
get_last?-append (c ∷ d ∷ a) x xs = get_last?-append (d ∷ a) x xs

-- No text ends both ways.
json_or_tmp : (a b : Text) → a ++ codes ".json" ≢ b ++ codes ".tmp"
json_or_tmp a b e = absurd (
    ground (
      arith,
      get_last?-append a 46 (codes "json"),
      get_last?-append b 46 (codes "tmp"),
      ap get_last? e,
    ))

split_once-digits :
    (a rest : Text)
    → all is_ascii_digit a ≡ true
    → split_once b'-' (a ++ b'-' ∷ rest) ≡ some (a, rest)
unfolding split_once is_ascii_digit
split_once-digits [] rest h = ground arith
split_once-digits (c ∷ a) rest h = ground (arith, split_once-digits a rest)

no_dash : Text → Bool
no_dash s = all (λ c. not (c == b'-')) s

split-whole : (s : Text) → no_dash s ≡ true → split b'-' s ≡ s ∷ []
unfolding split no_dash
split-whole [] h = refl
split-whole (c ∷ s) h = ground (arith, split-whole s)

no_dash-digits : (s : Text) → all is_ascii_digit s ≡ true → no_dash s ≡ true
unfolding no_dash is_ascii_digit
no_dash-digits [] h = refl
no_dash-digits (c ∷ s) h = ground (arith, no_dash-digits s)

no_dash-hex : (s : Text) → all is_hex_byte s ≡ true → no_dash s ≡ true
unfolding no_dash is_hex_byte
no_dash-hex [] h = refl
no_dash-hex (c ∷ s) h = ground (arith, no_dash-hex s)

temp_hex :
    (s : Text)
    → all is_hex_byte s ≡ true
    → all (λ b. is_ascii_digit b || (leb b'a' b && leb b b'f')) s ≡ true
unfolding is_hex_byte is_ascii_digit
temp_hex [] h = refl
temp_hex (c ∷ s) h = ground (arith, temp_hex s)

-- A digit text is one field, and what is behind its dash is split on its own.
split-field :
    (s rest : Text) → no_dash s ≡ true → split b'-' (s ++ b'-' ∷ rest) ≡ s ∷ split b'-' rest
split-field s rest h = split-append b'-' s rest ∙ ap (λ r. r ++ split b'-' rest) (split-whole s h)

padded-field :
    (n : ℕ) → (length (padded 20 n []) ≡ 20) × (all is_ascii_digit (padded 20 n []) ≡ true)
padded-field n = (length-padded 20 n [] ∙ refl, padded-digits 20 n [] refl)

split-staging_stem :
    (start end_ process attempt : ℕ) (checksum : Text)
    → all is_hex_byte checksum ≡ true
    → split b'-' (staging_stem start end_ process checksum attempt)
      ≡ padded 20 start []
        ∷ padded 20 end_ []
        ∷ to_string process
        ∷ checksum
        ∷ to_string attempt
        ∷ []
unfolding staging_stem
split-staging_stem start end_ process attempt checksum hex =
    let first = no_dash-digits (padded 20 start []) (padded-field start).1 in
    let second = no_dash-digits (padded 20 end_ []) (padded-field end_).1 in
    let third = no_dash-digits (to_string process) (to_string-digits process).1 in
    let last = no_dash-digits (to_string attempt) (to_string-digits attempt).1 in
    split-field (padded 20 start []) _ first
    ∙ ap (λ r. padded 20 start [] ∷ r)
        (split-field (padded 20 end_ []) _ second
          ∙ ap (λ r. padded 20 end_ [] ∷ r)
              (split-field (to_string process) _ third
                ∙ ap (λ r. to_string process ∷ r)
                    (split-field checksum _ (no_dash-hex checksum hex)
                      ∙ ap (λ r. checksum ∷ r) (split-whole (to_string attempt) last))))

is_temp_name-stem :
    (name rest stem : Text)
    → strip_prefix (codes ".batch-") name ≡ some rest
    → strip_suffix (codes ".tmp") rest ≡ some stem
    → is_temp_name name ≡ are_temp_fields (split b'-' stem)
unfolding is_temp_name
is_temp_name-stem name rest stem e f = rw (e, f, is_temp_name) refl

parse_batch_name-stem :
    (name stem a b : Text)
    → strip_suffix (codes ".json") name ≡ some stem
    → split_once b'-' stem ≡ some (a, b)
    → parse_batch_name name ≡ parse_range a b
unfolding parse_batch_name
parse_batch_name-stem name stem a b e f = rw (e, f, parse_batch_name) refl

parse_batch_name-none :
    (name : Text) → strip_suffix (codes ".json") name ≡ none → parse_batch_name name ≡ none
unfolding parse_batch_name
parse_batch_name-none name e = rw (e, parse_batch_name) refl

temp_fields :
    (start end_ process attempt : ℕ) (checksum : Text)
    → length checksum ≡ 64
    → all is_hex_byte checksum ≡ true
    → are_temp_fields (
        padded 20 start []
        ∷ padded 20 end_ []
        ∷ to_string process
        ∷ checksum
        ∷ to_string attempt
        ∷ [])
      ≡ true
unfolding are_temp_fields
temp_fields start end_ process attempt checksum width hex = ground (
  arith,
  padded-field start,
  padded-field end_,
  to_string-digits process,
  to_string-digits attempt,
  temp_hex checksum hex,
  width,
)

-- A staging name is a temporary name.
pub is_temp_name-staging :
    (start end_ process attempt : ℕ) (checksum : Text)
    → is_lower_hex checksum 64 ≡ true
    → is_temp_name (staging_name start end_ process checksum attempt) ≡ true
unfolding staging_name is_lower_hex
is_temp_name-staging start end_ process attempt checksum hex =
    let stem = staging_stem start end_ process checksum attempt in
    let all_hex : all is_hex_byte checksum ≡ true = ground arith in
    let width : length checksum ≡ 64 = ground arith in
    is_temp_name-stem _ (stem ++ codes ".tmp") stem
      (strip_prefix-append (codes ".batch-") (stem ++ codes ".tmp"))
      (strip_suffix-append stem (codes ".tmp"))
    ∙ ap are_temp_fields (split-staging_stem start end_ process attempt checksum all_hex)
    ∙ temp_fields start end_ process attempt checksum width all_hex

ends_tmp :
    (r : Text) (start end_ process attempt : ℕ) (checksum : Text)
    → staging_name start end_ process checksum attempt ≢ r ++ codes ".json"
unfolding staging_name
ends_tmp r start end_ process attempt checksum e =
    let stem = staging_stem start end_ process checksum attempt in
    json_or_tmp r (codes ".batch-" ++ stem)
      (sym e ∙ sym (append_assoc (codes ".batch-") stem (codes ".tmp")))

-- It is not the name of a batch.
pub parse_batch_name-staging :
    (start end_ process attempt : ℕ) (checksum : Text)
    → parse_batch_name (staging_name start end_ process checksum attempt) ≡ none
parse_batch_name-staging start end_ process attempt checksum =
    elim (Option-cases
      (strip_suffix (codes ".json") (staging_name start end_ process checksum attempt))) [
        | inl e ↦ parse_batch_name-none (staging_name start end_ process checksum attempt) e
        | inr (r, e) ↦ absurd (
            ends_tmp r start end_ process attempt checksum (
              strip_suffix-eq-some (codes ".json")
                (staging_name start end_ process checksum attempt) r e))
      ]

parse_u64-padded : (n : ℕ) → n ≤ u64_max → parse_u64 (padded 20 n []) ≡ some n
unfolding parse_u64
parse_u64-padded n h =
    rw (decimal_value-padded 20 n [] (omega arith)) (unfold decimal_value in ground arith)

parse_range-padded :
    (start end_ : ℕ)
    → start ≤ u64_max
    → end_ ≤ u64_max
    → parse_range (padded 20 start []) (padded 20 end_ []) ≡ some (start, end_)
unfolding parse_range
parse_range-padded start end_ hs he = ground (
  arith,
  padded-field start,
  padded-field end_,
  parse_u64-padded start hs,
  parse_u64-padded end_ he,
)

-- A range reads back from the name of its batch.
pub parse_batch_name-batch_name :
    (start end_ : ℕ)
    → start ≤ u64_max
    → end_ ≤ u64_max
    → parse_batch_name (batch_name start end_) ≡ some (start, end_)
unfolding batch_name
parse_batch_name-batch_name start end_ hs he =
    let a = padded 20 start [] in
    let b = padded 20 end_ [] in
    let suffix =
      ap (strip_suffix (codes ".json")) (sym (append_assoc a (b'-' ∷ b) (codes ".json")))
      ∙ strip_suffix-append (a ++ b'-' ∷ b) (codes ".json") in
    parse_batch_name-stem (batch_name start end_) (a ++ b'-' ∷ b) a b suffix
      (split_once-digits a b (padded-field start).1)
    ∙ parse_range-padded start end_ hs he
