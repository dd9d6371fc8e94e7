-- ===== src/Journal/Durable/Numbering.antt =====
-- The batch that `append_batch` builds: its operations, their numbers, and that it is valid.
use bullet_git.Prelude.{
  ℕ, suc, ◌+◌, ◌<◌, ◌≡◌, inl, inr, refl, sym, ap, ◌∙◌, true, false, Option, some, List, [], ◌∷◌,
  length, is_empty, get_last?, All, nat_eq, text_eq, option_text_eq, Option-cases, Result-cases, ok,
  arith, u64_max, checked_add,
}
use mathlib.Core.Path.{subst}
use bullet_git.Types.Digest.{Hashing, Digest}
use bullet_git.Journal.{JournalOp}
use bullet_git.Journal.Storage.{
  StoredBatch, content_shape_valid, bad_path, check_ops, ends_at, new_batch, validate_batch,
}
use bullet_git.Journal.Storage.Loading.{IsRecorded, IsRecorded-check_ops, ends_at-IsRecorded}
use bullet_git.Journal.Durable.{JournalMutation, DurableJournal, number_ops, next_batch}

-- What `write_mutation` and `delete_mutation` build.
abbrev pub IsMutation : JournalMutation → Type 0
IsMutation m = content_shape_valid m.kind m.before m.after ≡ true

abbrev pub op_of : ℕ → JournalMutation → JournalOp
op_of n m = record { seq = n; path = m.path; kind = m.kind; before = m.before; after = m.after }

-- The operations of a batch, numbered from `n` on.
abbrev pub numbered : ℕ → List JournalMutation → List JournalOp
numbered n [] = []
numbered n (m ∷ ms) = op_of n m ∷ numbered (suc n) ms

pub length-numbered : (n : ℕ) (ms : List JournalMutation) → length (numbered n ms) ≡ length ms
length-numbered n [] = refl
length-numbered n (m ∷ ms) = ap suc (length-numbered (suc n) ms)

pub number_ops-ok :
    (start offset : ℕ) (ms : List JournalMutation) (ops : List JournalOp)
    → All IsMutation ms
    → number_ops start offset ms ≡ ok ops
    → (ops ≡ numbered (start + offset) ms) × IsRecorded (start + offset) ops
unfolding number_ops checked_add
number_ops-ok start offset [] ops shapes e =
    let none_left : [] ≡ ops = ground arith in
    (sym none_left, subst (IsRecorded (start + offset)) none_left tt)
number_ops-ok start offset (m ∷ ms) ops (shape, shapes) e =
    elim (Result-cases (number_ops start (suc offset) ms)) [
      | inr (why, refused) ↦ absurd (ground arith)
      | inl (rest, numbered_rest) ↦
          let same : start + suc offset ≡ suc (start + offset) = omega arith in
          let (equal, recorded) = number_ops-ok start (suc offset) ms rest shapes numbered_rest in
          let here : bad_path m.path ≡ false = ground arith in
          let whole : ops ≡ op_of (start + offset) m ∷ rest = ground arith in
          (
            whole ∙ ap (λ r. op_of (start + offset) m ∷ r) (rw same at equal),
            subst (IsRecorded (start + offset)) (sym whole)
                (refl, here, shape, rw same at recorded),
          )
    ]

pub ends_at-last :
    (ops : List JournalOp) (last : JournalOp)
    → get_last? ops ≡ some last
    → (ends_at last.seq ops ≡ true) × (is_empty ops ≡ false)
unfolding ends_at
ends_at-last [] last e = absurd (ground arith)
ends_at-last (op ∷ ops) last e = (ground arith, refl)

module _ (h : Hashing) where
  -- What `append_batch` publishes.
  pub record IsNextBatch (ms : List JournalMutation) (j : DurableJournal) (batch : StoredBatch)
      : Type 0 where
    pub shape : batch ≡ new_batch h (suc (length j.journal)) batch.end_seq j.head_checksum batch.ops
    pub ops : batch.ops ≡ numbered (suc (length j.journal)) ms
    pub recorded : IsRecorded (suc (length j.journal)) batch.ops
    pub ends : ends_at batch.end_seq batch.ops ≡ true
    pub not_empty : is_empty batch.ops ≡ false

  pub next_batch-facts :
      (ms : List JournalMutation) (j : DurableJournal) (batch : StoredBatch)
      → All IsMutation ms
      → length j.journal < u64_max
      → next_batch h ms j ≡ ok batch
      → IsNextBatch ms j batch
  unfolding next_batch checked_add
  next_batch-facts ms j batch shapes room e =
      elim (Result-cases (number_ops (length j.journal + 1) 0 ms)) [
        | inr (why, refused) ↦ absurd (ground arith)
        | inl (ops, numbers) ↦ elim (Option-cases (get_last? ops)) [
          | inl nothing ↦ absurd (ground arith)
          | inr (last, found) ↦
              let built : new_batch h (length j.journal + 1) last.seq j.head_checksum ops ≡ batch =
                ground arith in
              let (equal, recorded) =
                number_ops-ok (length j.journal + 1) 0 ms ops shapes numbers in
              let start : length j.journal + 1 + 0 ≡ suc (length j.journal) = omega arith in
              let start' : length j.journal + 1 ≡ suc (length j.journal) = omega arith in
              let (ends, full) = ends_at-last ops last found in
              subst (IsNextBatch ms j) (rw start' at built) (
                unfold new_batch in
                record {
                  shape = refl;
                  ops = rw start at equal;
                  recorded = rw start at recorded;
                  ends = ends;
                  not_empty = full;
                })
        ]
      ]

  pub validate_batch-new :
      (start end_ : ℕ) (previous : Option Digest) (ops : List JournalOp)
      → check_ops start 0 ops ≡ ok tt
      → ends_at end_ ops ≡ true
      → is_empty ops ≡ false
      → validate_batch h (new_batch h start end_ previous ops) (start, end_) start previous ≡ ok tt
  unfolding validate_batch new_batch
  validate_batch-new start end_ previous ops checked ends full = ground arith

  -- The room that a journal leaves for a batch.
  pub batch-bounds :
      (ms : List JournalMutation) (j : DurableJournal) (batch : StoredBatch)
      → length j.journal + length ms < u64_max
      → IsNextBatch ms j batch
      → (suc batch.end_seq ≡ suc (length j.journal) + length ms)
        × (check_ops (suc (length j.journal)) 0 batch.ops ≡ ok tt)
  batch-bounds ms j batch room next =
      let count = ap length next.ops ∙ length-numbered (suc (length j.journal)) ms in
      let start : suc (length j.journal) + 0 ≡ suc (length j.journal) = omega arith in
      (
        ends_at-IsRecorded (suc (length j.journal)) batch.end_seq batch.ops next.recorded next.ends
            ∙ omega (arith, count),
        IsRecorded-check_ops (suc (length j.journal)) 0 batch.ops (omega (arith, count))
            (subst (λ n. IsRecorded n batch.ops) (sym start) next.recorded),
      )
