-- ===== src/Gitd/Frames/Lines.antt =====
-- How the reader takes one line, and that the chunks do not matter.
use bullet_git.Prelude.{
  ℕ, suc, ◌+◌, ◌≤◌, ◌≡◌, refl, ◌∙◌, true, false, not, none, some, [], ◌∷◌, ◌++◌, Bytes, length,
  is_empty, all, ltb, ◌==◌, nat_eq, ok, checked_add, if◌then◌else◌, arith,
}
use bullet_git.Gitd.Frames.{
  available, Reader, max_frame_bytes, is_utf8, split_newline, decode_utf8, over_bound, read_frame,
  consume,
}

pub split_newline-line :
    (b rest : Bytes)
    → all (λ x. not (x == 10)) b ≡ true
    → split_newline (b ++ 10 ∷ rest) ≡ (b, some rest)
unfolding split_newline
split_newline-line [] rest h = ground arith
split_newline-line (x ∷ b) rest h = ground (arith, split_newline-line b rest)

pub over_bound_iff_lt : (a b : ℕ) → over_bound a b ≡ ltb max_frame_bytes (a + b)
unfolding over_bound checked_add
over_bound_iff_lt a b = ground arith

-- A line is read whole, and what is behind its line feed is left as `consume` leaves it.
pub read_frame-consumes :
    (b rest : Bytes) (more : Reader)
    → all (λ x. not (x == 10)) b ≡ true
    → is_utf8 b ≡ true
    → length b ≤ max_frame_bytes
    → read_frame (available (b ++ 10 ∷ rest) ∷ more) ≡ (ok (some b), consume rest more)
unfolding read_frame decode_utf8 consume
read_frame-consumes [] rest more n u l =
    let fits : over_bound 0 0 ≡ false = over_bound_iff_lt 0 0 ∙ ground arith in
    ground (arith, split_newline-line [] rest n, fits)
read_frame-consumes (x ∷ b) rest more n u l =
    let fits : over_bound 0 (suc (length b)) ≡ false =
      over_bound_iff_lt 0 (suc (length b)) ∙ ground arith in
    ground (arith, split_newline-line (x ∷ b) rest n, fits)

pub read_frame-end : read_frame [] ≡ (ok none, [])
unfolding read_frame
read_frame-end = refl

-- What has a line feed in it is not used up.
pub consume-line :
    (b rest : Bytes) (more : Reader)
    → consume (b ++ 10 ∷ rest) more ≡ available (b ++ 10 ∷ rest) ∷ more
unfolding consume
consume-line [] rest more = refl
consume-line (x ∷ b) rest more = refl

-- A line of valid UTF-8 within the bound, empty or not, whose newline is at hand is read whole, and
-- what is behind the newline stays in the reader: the rest of the chunk, unless it is used up, and
-- the chunks that follow.
pub read_frame-line :
    (b rest : Bytes) (more : Reader)
    → all (λ x. not (x == 10)) b ≡ true
    → is_utf8 b ≡ true
    → length b ≤ max_frame_bytes
    → read_frame (available (b ++ 10 ∷ rest) ∷ more)
      ≡ (ok (some b), if is_empty rest then more else available rest ∷ more)
unfolding consume
read_frame-line b rest more n u l = read_frame-consumes b rest more n u l
