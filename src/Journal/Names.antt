-- ===== src/Journal/Names.antt =====
-- crates/bullet-git-journal/src/storage.rs: the names of batch files and of staging files.
pub mod RoundTrip
use bullet_git.Prelude.{
  ℕ, zero, suc, ◌+◌, ◌*◌, ◌-◌, ◌/◌, ◌%◌, Bool, true, false, not, ◌&&◌, ◌||◌, Option, none, some,
  List, [], ◌∷◌, ◌++◌, Text, codes, length, all, is_empty, take, drop, leb, ltb, ◌==◌, nat_eq,
  text_eq, if◌then◌else◌, split, split_once, strip_prefix, to_string, u64_max,
}

-- `u8::is_ascii_digit`
unfoldable pub is_ascii_digit : ℕ → Bool
is_ascii_digit c = leb b'0' c && leb c b'9'

-- `{n:0k}` of a number below 10^k.
unfoldable pub padded : ℕ → ℕ → Text → Text
padded zero n acc = acc
padded (suc k) n acc = padded k (n / 10) ((48 + n % 10) ∷ acc)

-- The value of decimal digits.
unfoldable pub decimal_value : ℕ → Text → ℕ
decimal_value acc [] = acc
decimal_value acc (c ∷ cs) = decimal_value (acc * 10 + (c - 48)) cs

-- `str::parse::<u64>` on decimal digits.
unfoldable pub parse_u64 : Text → Option ℕ
unfolding decimal_value
parse_u64 text = let value = decimal_value 0 text in if leb value u64_max then some value else none

-- `str::strip_suffix`
unfoldable pub strip_suffix : Text → Text → Option Text
strip_suffix suffix value =
    let kept = length value - length suffix in
    if leb (length suffix) (length value) && drop kept value == suffix
    then some (take kept value)
    else none

unfoldable pub batch_name : ℕ → ℕ → Text
unfolding padded
batch_name start end_ = padded 20 start [] ++ b'-' ∷ (padded 20 end_ [] ++ codes ".json")

abbrev pub Range : Type 0
Range = ℕ × ℕ

-- `parse_batch_name` behind the dash.
unfoldable pub parse_range : Text → Text → Option Range
unfolding is_ascii_digit parse_u64
parse_range start end_ =
    if not (length start == 20)
      || not (length end_ == 20)
      || not (all is_ascii_digit start)
      || not (all is_ascii_digit end_)
    then none
    else elim (parse_u64 start) [
      | none ↦ none
      | some a ↦ elim (parse_u64 end_) [ none ↦ none | some b ↦ some (a, b) ]
    ]

unfoldable pub parse_batch_name : Text → Option Range
unfolding strip_suffix parse_range
parse_batch_name name = elim (strip_suffix (codes ".json") name) [
  | none ↦ none
  | some stem ↦ elim (split_once b'-' stem) [
    | none ↦ none
    | some (start, end_) ↦ parse_range start end_
  ]
]

-- The tests on the five fields of a staging name.
unfoldable pub are_temp_fields : List Text → Bool
unfolding is_ascii_digit
are_temp_fields (start ∷ end_ ∷ process ∷ checksum ∷ attempt ∷ []) =
    length start == 20
    && length end_ == 20
    && all is_ascii_digit start
    && all is_ascii_digit end_
    && not (is_empty process)
    && all is_ascii_digit process
    && length checksum == 64
    && all (λ b. is_ascii_digit b || (leb b'a' b && leb b b'f')) checksum
    && not (is_empty attempt)
    && all is_ascii_digit attempt
are_temp_fields _ = false

unfoldable pub is_temp_name : Text → Bool
unfolding strip_suffix are_temp_fields
is_temp_name name = elim (strip_prefix (codes ".batch-") name) [
  | none ↦ false
  | some rest ↦ elim (strip_suffix (codes ".tmp") rest) [
    | none ↦ false
    | some stem ↦ are_temp_fields (split b'-' stem)
  ]
]

-- The fields between the dashes of a staging name; `process` is `std::process::id()` and `checksum`
-- is in hexadecimal.
unfoldable pub staging_stem : ℕ → ℕ → ℕ → Text → ℕ → Text
unfolding padded
staging_stem start end_ process checksum attempt =
    padded 20 start []
    ++ b'-'
      ∷ (padded 20 end_ []
          ++ b'-' ∷ (to_string process ++ b'-' ∷ (checksum ++ b'-' ∷ to_string attempt)))

unfoldable pub staging_name : ℕ → ℕ → ℕ → Text → ℕ → Text
unfolding staging_stem
staging_name start end_ process checksum attempt =
    codes ".batch-" ++ (staging_stem start end_ process checksum attempt ++ codes ".tmp")
