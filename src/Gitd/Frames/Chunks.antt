-- ===== src/Gitd/Frames/Chunks.antt =====
-- What the reader returns does not depend on how the input is cut into chunks.
use bullet_git.Prelude.{
  ℕ, ◌+◌, ◌≤◌, ◌≡◌, refl, sym, ap, ◌∙◌, true, false, Option, none, some, List, [], ◌∷◌, ◌++◌, map,
  Bytes, Text, All, length, length-append, is_empty, ltb, nat_eq, if◌then◌else◌, Result, err, arith,
  Bool-cases, Option-cases, inl, inr,
}
use mathlib.Core.List.{append_assoc, append-nil}
use bullet_git.Gitd.Frames.{
  FrameReadError, Reader, available, split_newline, decode_utf8, at_end, read_loop, read_frame,
  max_frame_bytes, too_large,
}
use bullet_git.Gitd.Frames.Lines.{over_bound_iff_lt}

-- All the chunks at once.
abbrev pub concat : List Bytes → Bytes
concat [] = []
concat (c ∷ cs) = c ++ concat cs

split-append-found :
    (c rest after : Bytes)
    → (split_newline c).1 ≡ some after
    → split_newline (c ++ rest) ≡ ((split_newline c).0, some (after ++ rest))
unfolding split_newline
split-append-found [] rest after h = cc
split-append-found (b ∷ c) rest after h = ground (arith, split-append-found c rest after)

split-none : (c : Bytes) → (split_newline c).1 ≡ none → (split_newline c).0 ≡ c
unfolding split_newline
split-none [] h = refl
split-none (b ∷ c) h = ground (arith, split-none c)

split-append-none :
    (c rest : Bytes)
    → (split_newline c).1 ≡ none
    → split_newline (c ++ rest) ≡ (c ++ (split_newline rest).0, (split_newline rest).1)
unfolding split_newline
split-append-none [] rest h = refl
split-append-none (b ∷ c) rest h = ground (arith, split-append-none c rest)

-- The answer once the input is split at its newline, and with everything in one chunk.
abbrev answer : Bytes → Bytes × Option Bytes → Result FrameReadError (Option Text)
answer acc (payload, rest) =
    if ltb max_frame_bytes (length acc + length payload)
    then err too_large
    else elim rest [ none ↦ at_end (acc ++ payload) | some after ↦ decode_utf8 (acc ++ payload) ]

abbrev whole : Bytes → Bytes → Result FrameReadError (Option Text)
whole acc [] = at_end acc
whole acc (b ∷ bs) = answer acc (split_newline (b ∷ bs))

read_loop-whole : (acc input : Bytes) → (read_loop acc (available input ∷ [])).0 ≡ whole acc input
unfolding read_loop
read_loop-whole acc [] = refl
read_loop-whole acc (b ∷ bs) =
    ground (arith, over_bound_iff_lt (length acc) (length (split_newline (b ∷ bs)).0))

answer-append :
    (acc c payload : Bytes) (rest : Option Bytes)
    → answer acc (c ++ payload, rest) ≡ answer (acc ++ c) (payload, rest)
answer-append acc c payload rest =
    ground (arith, length-append c payload, length-append acc c, append_assoc acc c payload)

answer-within : (acc : Bytes) → length acc ≤ max_frame_bytes → answer acc ([], none) ≡ at_end acc
answer-within acc fits = ground (arith, append-nil acc)

-- One chunk moved in front of the loop.
whole-append :
    (acc : Bytes) (b : ℕ) (c rest : Bytes)
    → (split_newline (b ∷ c)).1 ≡ none
    → length acc + length (b ∷ c) ≤ max_frame_bytes
    → whole acc ((b ∷ c) ++ rest) ≡ whole (acc ++ b ∷ c) rest
unfolding split_newline
whole-append acc b c [] none_found fits =
    ap (answer acc) (split-append-none (b ∷ c) [] none_found)
    ∙ answer-append acc (b ∷ c) [] none
    ∙ answer-within (acc ++ b ∷ c) (omega (arith, length-append acc (b ∷ c)))
whole-append acc b c (r ∷ rest) none_found fits =
    ap (answer acc) (split-append-none (b ∷ c) (r ∷ rest) none_found)
    ∙ answer-append acc (b ∷ c) (split_newline (r ∷ rest)).0 (split_newline (r ∷ rest)).1

abbrev pub IsSome : Bytes → Type 0
IsSome c = is_empty c ≡ false

-- One round of the loop over a chunk with no newline.
read_loop-passes :
    (acc : Bytes) (b : ℕ) (c : Bytes) (more : Reader)
    → (split_newline (b ∷ c)).1 ≡ none
    → (read_loop acc (available (b ∷ c) ∷ more)).0 ≡ (
        if ltb max_frame_bytes (length acc + length (b ∷ c))
        then err too_large
        else (read_loop (acc ++ b ∷ c) more).0)
unfolding read_loop
read_loop-passes acc b c more none_found = ground (
  arith,
  over_bound_iff_lt (length acc) (length (split_newline (b ∷ c)).0),
  split-none (b ∷ c) none_found,
)

answer-beyond :
    (acc c payload : Bytes) (rest : Option Bytes)
    → ltb max_frame_bytes (length acc + length c) ≡ true
    → answer acc (c ++ payload, rest) ≡ err too_large
answer-beyond acc c payload rest beyond = ground (arith, length-append c payload)

read_loop-found :
    (acc : Bytes) (b : ℕ) (c rest after : Bytes) (more : Reader)
    → (split_newline (b ∷ c)).1 ≡ some after
    → (read_loop acc (available (b ∷ c) ∷ more)).0 ≡ whole acc ((b ∷ c) ++ rest)
unfolding read_loop
read_loop-found acc b c rest after more found = ground (
  arith,
  over_bound_iff_lt (length acc) (length (split_newline (b ∷ c)).0),
  split-append-found (b ∷ c) rest after found,
)

-- The loop over chunks: each has bytes, as `fill_buf` gives none at the end of the input alone.
read_loop-concat :
    (acc : Bytes) (cs : List Bytes)
    → All IsSome cs
    → length acc ≤ max_frame_bytes
    → (read_loop acc (map available cs)).0 ≡ whole acc (concat cs)
unfolding read_loop
read_loop-concat acc [] filled fits = refl
read_loop-concat acc ([] ∷ cs) filled fits = cc (filled.0)
read_loop-concat acc ((b ∷ c) ∷ cs) filled fits = elim (Option-cases (split_newline (b ∷ c)).1) [
  | inr (after, found) ↦ read_loop-found acc b c (concat cs) after (map available cs) found
  | inl none_found ↦
      let round = read_loop-passes acc b c (map available cs) none_found in
      elim (Bool-cases (ltb max_frame_bytes (length acc + length (b ∷ c)))) [
        | inl beyond ↦
            round
            ∙ ap (λ x. if x then err too_large else (read_loop (acc ++ b ∷ c) (map available cs)).0)
                beyond
            ∙ sym (
                ap (answer acc) (split-append-none (b ∷ c) (concat cs) none_found)
                ∙ answer-beyond acc (b ∷ c) (split_newline (concat cs)).0
                    (split_newline (concat cs)).1 beyond)
        | inr within ↦
            let room : length acc + length (b ∷ c) ≤ max_frame_bytes = ground arith in
            let total : length (acc ++ b ∷ c) ≤ max_frame_bytes =
              omega (arith, length-append acc (b ∷ c)) in
            round
            ∙ ap (λ x. if x then err too_large else (read_loop (acc ++ b ∷ c) (map available cs)).0)
                within
            ∙ read_loop-concat (acc ++ b ∷ c) cs (filled.1) total
            ∙ sym (whole-append acc b c (concat cs) none_found room)
      ]
]

-- However an input is cut into chunks that have bytes, the reader returns what it returns for the
-- input in one chunk: the same line, the same end, or the same error.
pub read_frame-concat :
    (cs : List Bytes)
    → All IsSome cs
    → (read_frame (map available cs)).0 ≡ (read_frame (available (concat cs) ∷ [])).0
unfolding read_frame
read_frame-concat cs filled =
    read_loop-concat [] cs filled (omega arith) ∙ sym (read_loop-whole [] (concat cs))
