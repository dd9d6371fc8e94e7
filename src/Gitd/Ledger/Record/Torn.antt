-- ===== src/Gitd/Ledger/Record/Torn.antt =====
-- A record file in which at most one line is complete holds no result.
use bullet_git.Prelude.{
  ℕ, zero, suc, ◌≤◌, ◌≡◌, ◌⊎◌, inl, inr, refl, Bool, true, not, ◌&&◌, ◌||◌, none, some, List, [],
  ◌∷◌, ◌++◌, Bytes, Text, length, take, is_empty, all, ◌==◌, nat_eq, ok, arith, Result-cases,
}
use bullet_git.Gitd.Frames.{available, split_newline, at_end, read_frame}
use bullet_git.Gitd.Ledger.Record.{
  LedgerEvent, reserved, settled, EventCodec, file, LoadedRecord, read_events, interpret,
  settlement, load_record,
}

-- No newline but perhaps the last byte.
unfoldable pub is_one_line : Bytes → Bool
is_one_line [] = true
is_one_line (b ∷ bs) = (not (b == 10) || is_empty bs) && is_one_line bs

split_newline-one_line :
    (bs : Bytes)
    → is_one_line bs ≡ true
    → ((split_newline bs).1 ≡ none) ⊎ ((split_newline bs).1 ≡ some [])
unfolding split_newline is_one_line
split_newline-one_line [] h = inl refl
split_newline-one_line (b ∷ []) h = ground arith
split_newline-one_line (b ∷ c ∷ bs) h =
    let ih = split_newline-one_line (c ∷ bs) in ground (arith, ih)

-- What a frame leaves of such a file.
read_frame-one_line :
    (bs : Bytes) (line : Text)
    → is_one_line bs ≡ true
    → (read_frame (available bs ∷ [])).0 ≡ ok (some line)
    → ((read_frame (available bs ∷ [])).1 ≡ [])
      ⊎ ((read_frame (available bs ∷ [])).1 ≡ available [] ∷ [])
unfolding read_frame at_end
read_frame-one_line [] line h r = ground arith
read_frame-one_line (b ∷ bs) line h r = ground (arith, split_newline-one_line (b ∷ bs) h)

module _ (codec : EventCodec) where
  read_events-none : (room : ℕ) → read_events codec room [] ≡ ok []
  unfolding read_events read_frame at_end
  read_events-none zero = refl
  read_events-none (suc room) = refl

  read_events-nothing : (room : ℕ) → read_events codec room (available [] ∷ []) ≡ ok []
  unfolding read_events read_frame at_end
  read_events-nothing zero = refl
  read_events-nothing (suc room) = refl

  -- The first frame gives at most one event, and there is nothing behind it.
  one_line-events :
      (bs : Bytes) (events : List LedgerEvent)
      → is_one_line bs ≡ true
      → read_events codec 2 (available bs ∷ []) ≡ ok events
      → length events ≤ 1
  unfolding read_events
  one_line-events bs events h r = elim (Result-cases (read_frame (available bs ∷ [])).0) [
    | inr (e, failed) ↦ ground arith
    | inl (none, ended) ↦ ground arith
    | inl (some line, read) ↦
        ground
          (arith, read_frame-one_line bs line h read, read_events-none 1, read_events-nothing 1)
  ]

  interpret-one :
      (events : List LedgerEvent) (loaded : LoadedRecord)
      → length events ≤ 1
      → interpret events ≡ ok loaded
      → loaded.result ≡ none
  unfolding interpret settlement
  interpret-one [] loaded l h = cc
  interpret-one (reserved version subject ∷ []) loaded l h = ground arith
  interpret-one (settled version subject outcome digest at ∷ []) loaded l h = cc
  interpret-one (e ∷ e' ∷ events) loaded l h = absurd (omega arith)

  -- A file that holds at most one line, complete or not, never loads to a result.
  pub one_line-no_result :
      (bs : Bytes) (loaded : LoadedRecord)
      → is_one_line bs ≡ true
      → load_record codec (file bs) ≡ ok loaded
      → loaded.result ≡ none
  unfolding load_record
  one_line-no_result bs loaded h r = elim (Result-cases (read_events codec 2 (available bs ∷ []))) [
    | inr (e, failed) ↦ ground arith
    | inl (events, read) ↦
        interpret-one events loaded (one_line-events bs events h read) (ground arith)
  ]

-- Every prefix of a line is such a file.
pub line-is_one_line :
    (b : Bytes) → all (λ x. not (x == 10)) b ≡ true → is_one_line (b ++ 10 ∷ []) ≡ true
unfolding is_one_line
line-is_one_line [] h = ground arith
line-is_one_line (x ∷ b) h = ground (arith, line-is_one_line b)

pub take-is_one_line : (n : ℕ) (b : Bytes) → is_one_line b ≡ true → is_one_line (take n b) ≡ true
unfolding is_one_line
take-is_one_line zero b h = refl
take-is_one_line (suc n) [] h = refl
take-is_one_line (suc zero) (x ∷ b) h = ground arith
take-is_one_line (suc (suc n)) (x ∷ []) h = ground arith
take-is_one_line (suc (suc n)) (x ∷ y ∷ b) h = ground (arith, take-is_one_line (suc n) (y ∷ b))
