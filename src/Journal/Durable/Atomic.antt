-- ===== src/Journal/Durable/Atomic.antt =====
-- A batch is recorded whole or not at all, whatever the file system answers.
use bullet_git.Prelude.{
  suc, ◌+◌, ◌<◌, ◌≡◌, ◌⊎◌, inl, inr, refl, sym, ap, ◌∙◌, true, false, Option, none, some, List, [],
  ◌∷◌, ◌++◌, Bytes, length, is_empty, All, nat_eq, text_eq, option_text_eq, Bool-cases,
  Option-cases, Result-cases, Result, ok, err, arith, u64_max, checked_add,
}
use mathlib.Core.Path.{subst}
use mathlib.Core.List.{append-nil}
use bullet_git.Types.Digest.{Hashing, HashingLaws, Digest, digest_of, is_digest}
use bullet_git.Journal.{JournalOp}
use bullet_git.Journal.Storage.{
  JournalError, corrupt, poisoned, StoredBatch, BatchCodec, BatchCodecLaws, Directory, Body,
  LoadState, PublishIo, batch_checksum, new_batch, validate_batch, load_one, load_batches,
  publish_batch,
}
use bullet_git.Journal.Storage.Loading.{load_batches-snoc}
use bullet_git.Journal.Storage.Publishing.{
  SameBatches, OneMore, Published, unchanged, unsynced, published, publish_batch-published,
}
use bullet_git.Journal.Durable.Numbering.{
  IsMutation, numbered, IsNextBatch, next_batch-facts, validate_batch-new, batch-bounds,
}
use bullet_git.Journal.Durable.{
  JournalMutation, DurableJournal, next_batch, take_published, note_failure, append_batch,
  record_batch,
}

module _ (h : Hashing) (codec : BatchCodec) where
  -- What the loader makes of the batch that was appended.
  load_one-next :
      BatchCodecLaws codec
      → (ms : List JournalMutation) (j : DurableJournal) (batch : StoredBatch) (encoded : Bytes)
      → length j.journal + length ms < u64_max
      → IsNextBatch h ms j batch
      → codec.encode batch ≡ some encoded
      → (state : LoadState) → state.ops ≡ j.journal
      → state.previous ≡ j.head_checksum
      → state.expected ≡ suc (length j.journal)
      → load_one h codec state ((batch.start_seq, batch.end_seq), some (encoded ++ 10 ∷ []))
        ≡ ok (record {
          ops = j.journal ++ batch.ops;
          previous = some batch.checksum;
          expected = suc batch.end_seq;
        })
  unfolding load_one checked_add
  load_one-next laws ms j batch encoded room next enc state same head expected =
      let (end_, checked) = batch-bounds h ms j batch room next in
      let valid =
        validate_batch-new h (suc (length j.journal)) batch.end_seq j.head_checksum batch.ops
          checked next.ends next.not_empty in
      let start : batch.start_seq ≡ suc (length j.journal) =
        unfold new_batch in ap (λ b. b.start_seq) next.shape in
      let here : validate_batch h batch (batch.start_seq, batch.end_seq) state.expected
            state.previous
          ≡ ok tt =
        cc (valid, next.shape, start, expected, head) in
      let decoded = laws.decode-encode batch encoded enc in ground (arith, here, decoded, same)

  -- The directory of a journal loads to these operations.
  abbrev pub LoadsTo : Directory → List JournalOp → Type 0
  LoadsTo d ops = (head : Option Digest) × (load_batches h codec d ≡ ok (ops, head))

  -- The journal in memory is what its directory loads to.
  abbrev pub IsStored : DurableJournal → Type 0
  IsStored j = load_batches h codec j.directory ≡ ok (j.journal, j.head_checksum)

  loads-same :
      (d d' : Directory) → SameBatches d d' → load_batches h codec d' ≡ load_batches h codec d
  unfolding load_batches
  loads-same d d' same = rw (same, load_batches) refl

  -- The batch is recorded whole; or the journal is poisoned and its directory loads to what it loaded
  -- to, or to that and the whole batch when the outcome is unknown.
  abbrev pub Atomic :
      List JournalMutation
      → DurableJournal
      → Result JournalError (Unit {0}) × DurableJournal
      → Type 0
  Atomic ms j left =
      let more = j.journal ++ numbered (suc (length j.journal)) ms in
      ((left.0 ≡ ok tt) × IsStored left.1 × (left.1.journal ≡ more) × (left.1.healthy ≡ true))
      ⊎ ((e : JournalError) × (left.0 ≡ err e)
          × (left.1.healthy ≡ false)
          × (left.1.journal ≡ j.journal)
          × (LoadsTo left.1.directory j.journal ⊎ ((e ≡ poisoned) × LoadsTo left.1.directory more)))

  grown_directory_loads :
      BatchCodecLaws codec
      → (ms : List JournalMutation) (j : DurableJournal) (batch : StoredBatch) (encoded : Bytes)
      → length j.journal + length ms < u64_max
      → IsStored j
      → IsNextBatch h ms j batch
      → codec.encode batch ≡ some encoded
      → (d' : Directory)
      → OneMore ((batch.start_seq, batch.end_seq), some (encoded ++ 10 ∷ [])) j.directory d'
      → load_batches h codec d' ≡ ok (j.journal ++ batch.ops, some batch.checksum)
  unfolding new_batch
  grown_directory_loads laws ms j batch encoded room stored next enc d' one =
      load_batches-snoc h codec j.directory d' j.journal j.head_checksum
        (batch.start_seq, batch.end_seq) (some (encoded ++ 10 ∷ []))
        (record {
          ops = j.journal ++ batch.ops;
          previous = some batch.checksum;
          expected = suc batch.end_seq;
        })
        stored one (ap (λ b. b.start_seq) next.shape)
        (load_one-next laws ms j batch encoded room next enc)

  after_publish :
      (ms : List JournalMutation) (j : DurableJournal) (batch : StoredBatch) (b : Body)
      → j.healthy ≡ true
      → IsStored j
      → batch.ops ≡ numbered (suc (length j.journal)) ms
      → ((d' : Directory)
          → OneMore b j.directory d'
          → load_batches h codec d' ≡ ok (j.journal ++ batch.ops, some batch.checksum))
      → (r : Result JournalError (Unit {0})) (d' : Directory) → Published b j.directory r d'
      → Atomic ms j (note_failure (take_published j batch (r, d')))
  unfolding note_failure take_published
  after_publish ms j batch b healthy stored ops more _ d' (unchanged e ne same) =
      inr (e, refl, refl, refl, inl (j.head_checksum, loads-same j.directory d' same ∙ stored))
  after_publish ms j batch b healthy stored ops more _ d' (unsynced one) =
      let loads : LoadsTo d' (j.journal ++ batch.ops) = (some batch.checksum, more d' one) in
      inr (poisoned, refl, refl, refl, inr (refl, rw ops at loads))
  after_publish ms j batch b healthy stored ops more _ d' (published one) =
      inl (refl, more d' one, ap (λ r. j.journal ++ r) ops, healthy)

  -- Nothing was published.
  refused_before :
      (ms : List JournalMutation) (j : DurableJournal) (e : JournalError)
      → IsStored j
      → Atomic ms j (err e, record j { healthy = false })
  refused_before ms j e stored = inr (e, refl, refl, refl, inl (j.head_checksum, stored))

  publish_unencoded :
      (answers : PublishIo) (batch : StoredBatch) (d : Directory)
      → codec.encode batch ≡ none
      → publish_batch h codec answers batch d ≡ (err corrupt, d)
  unfolding publish_batch
  publish_unencoded answers batch d failed = rw (failed, publish_batch) refl

  append_built :
      (answers : PublishIo) (ms : List JournalMutation) (j : DurableJournal) (batch : StoredBatch)
      → next_batch h ms j ≡ ok batch
      → append_batch h codec answers ms j
        ≡ take_published j batch (publish_batch h codec answers batch j.directory)
  unfolding append_batch
  append_built answers ms j batch e = rw (e, append_batch) refl

  append_refused :
      (answers : PublishIo) (ms : List JournalMutation) (j : DurableJournal) (e : JournalError)
      → next_batch h ms j ≡ err e
      → append_batch h codec answers ms j ≡ (err e, j)
  unfolding append_batch
  append_refused answers ms j e refused = rw (refused, append_batch) refl

  encode_refused :
      (answers : PublishIo) (ms : List JournalMutation) (j : DurableJournal) (batch : StoredBatch)
      → next_batch h ms j ≡ ok batch
      → codec.encode batch ≡ none
      → append_batch h codec answers ms j ≡ (err corrupt, j)
  unfolding take_published publish_batch
  encode_refused answers ms j batch e failed =
      append_built answers ms j batch e
      ∙ ap (λ r. take_published j batch r) (publish_unencoded answers batch j.directory failed)

  append_batch-atomic :
      HashingLaws h
      → BatchCodecLaws codec
      → (answers : PublishIo) (ms : List JournalMutation) (j : DurableJournal) → All IsMutation ms
      → length j.journal + length ms < u64_max
      → j.healthy ≡ true
      → IsStored j
      → Atomic ms j (note_failure (append_batch h codec answers ms j))
  append_batch-atomic hashes laws answers ms j shapes room healthy stored =
      elim (Result-cases (next_batch h ms j)) [
        | inr (e, refused) ↦
            subst (λ r. Atomic ms j (note_failure r)) (sym (append_refused answers ms j e refused))
              (unfold note_failure in refused_before ms j e stored)
        | inl (batch, built) ↦ elim (Option-cases (codec.encode batch)) [
          | inl failed ↦
              subst (λ r. Atomic ms j (note_failure r))
                (sym (encode_refused answers ms j batch built failed))
                (unfold note_failure in refused_before ms j corrupt stored)
          | inr (encoded, enc) ↦
              let next = next_batch-facts h ms j batch shapes (omega arith) built in
              let (end_, _) = batch-bounds h ms j batch room next in
              let start : batch.start_seq ≡ suc (length j.journal) =
                unfold new_batch in ap (λ b. b.start_seq) next.shape in
              let shape : is_digest batch.checksum ≡ true =
                unfold new_batch batch_checksum digest_of in
                rw next.shape (hashes.blake3_shape _) in
              let d = publish_batch h codec answers batch j.directory in
              subst (λ r. Atomic ms j (note_failure r))
                (sym (append_built answers ms j batch built))
                (after_publish ms j batch
                  ((batch.start_seq, batch.end_seq), some (encoded ++ 10 ∷ [])) healthy stored
                  next.ops (grown_directory_loads laws ms j batch encoded room stored next enc) d.0
                  d.1
                  (publish_batch-published h codec answers hashes batch encoded j.directory enc
                    (omega arith) (omega arith) shape))
        ]
      ]

  settled :
      (ms : List JournalMutation) (j : DurableJournal)
      (expected : Result JournalError (Unit {0}) × DurableJournal)
      → {got : Result JournalError (Unit {0}) × DurableJournal} → got ≡ expected
      → Atomic ms j expected
      → Atomic ms j got
  settled ms j expected e a = subst (Atomic ms j) (sym e) a

  no_mutation :
      (ms : List JournalMutation) (j : DurableJournal)
      → is_empty ms ≡ true
      → j.journal ≡ j.journal ++ numbered (suc (length j.journal)) ms
  no_mutation [] j h = sym (append-nil j.journal)
  no_mutation (m ∷ ms) j h = cc

  -- A batch of mutations recorded in a healthy or poisoned journal that its directory loads to is
  -- recorded whole, or not at all, or with an unknown outcome, whatever the file system answers. When
  -- recording succeeds, the directory loads to the journal in memory: the old operations, and the
  -- mutations numbered behind them. When it fails, the journal in memory is as it was and poisoned, and
  -- its directory loads to the old operations, or, only if the error says so, to those and the batch.
  pub record_batch_atomic :
      HashingLaws h
      → BatchCodecLaws codec
      → (answers : PublishIo) (ms : List JournalMutation) (j : DurableJournal) → All IsMutation ms
      → length j.journal + length ms < u64_max
      → IsStored j
      → Atomic ms j (record_batch h codec answers ms j)
  unfolding record_batch
  record_batch_atomic hashes laws answers ms j shapes room stored = elim (Bool-cases j.healthy) [
    | inr down ↦
        settled ms j (err poisoned, j) (ground arith)
          (inr (poisoned, refl, down, refl, inl (j.head_checksum, stored)))
    | inl healthy ↦ elim (Bool-cases (is_empty ms)) [
      | inl nothing ↦
          settled ms j (ok tt, j) (ground arith)
            (inl (refl, stored, no_mutation ms j nothing, healthy))
      | inr something ↦
          settled ms j (note_failure (append_batch h codec answers ms j)) (ground arith)
            (append_batch-atomic hashes laws answers ms j shapes room healthy stored)
    ]
  ]
