-- ===== src/Journal/Storage/Publishing.antt =====
-- What publishing a batch leaves in the directory, whatever fails.
use bullet_git.Prelude.{
  ℕ, zero, suc, ◌≤◌, ◌≡◌, ◌≢◌, inl, inr, refl, sym, ap, ◌∙◌, true, false, ◌&&◌, Option, none, some,
  List, [], ◌∷◌, ◌++◌, Bytes, Text, nat_eq, text_eq, ◌==◌, ==_refl, ==_iff, Bool-cases,
  Option-cases, Result-cases, Result, ok, err, arith, u64_max,
}
use mathlib.Core.Path.{subst}
use bullet_git.Types.Digest.{Hashing, HashingLaws, to_hex, is_lower_hex, is_digest}
use bullet_git.Journal.Names.{Range, batch_name, parse_batch_name, is_temp_name, staging_name}
use bullet_git.Journal.Names.RoundTrip.{
  is_temp_name-staging, parse_batch_name-staging, parse_batch_name-batch_name,
}
use bullet_git.Journal.Storage.{
  JournalError, io, corrupt, poisoned, StoredBatch, BatchCodec, Node, file, Directory, Body,
  collect_batches, PublishIo, present, remove_file, create_from, create_staging_file, discard,
  link_batch, write_batch, publish_bytes, publish_batch,
}

-- The directory gives the same batches as before, or fails as before.
abbrev pub SameBatches : Directory → Directory → Type 0
SameBatches d d' = collect_batches d' ≡ collect_batches d

-- The directory gives one more batch.
abbrev pub OneMore : Body → Directory → Directory → Type 0
OneMore b d d' = (bs : List Body) → collect_batches d ≡ ok bs → collect_batches d' ≡ ok (b ∷ bs)

-- A staging name as the loader sees it.
record IsOrphan (name : Text) : Type 0 where
  not_batch : parse_batch_name name ≡ none
  temp : is_temp_name name ≡ true

collect-orphan :
    (name : Text) (body : Option Bytes) (d : Directory)
    → IsOrphan name
    → SameBatches d ((name, file body) ∷ d)
unfolding collect_batches
collect-orphan name body d orphan = ground (arith, orphan.not_batch, orphan.temp)

collect-batch :
    (name : Text) (range : Range) (body : Option Bytes) (d : Directory)
    → parse_batch_name name ≡ some range
    → OneMore (range, body) d ((name, file body) ∷ d)
unfolding collect_batches
collect-batch name range body d parsed bs e = ground arith

remove-head : (name : Text) (node : Node) (d : Directory) → remove_file name ((name, node) ∷ d) ≡ d
unfolding remove_file
remove-head name node d = rw (==_refl name) refl

remove-behind :
    (name other : Text) (node node' : Node) (d : Directory)
    → (other == name) ≡ false
    → remove_file name ((other, node) ∷ (name, node') ∷ d) ≡ (other, node) ∷ d
unfolding remove_file
remove-behind name other node node' d apart = rw (apart, ==_refl name) refl

orphan_not_range :
    (name final : Text) (range : Range)
    → IsOrphan name
    → parse_batch_name final ≡ some range
    → final ≢ name
orphan_not_range name final range orphan parsed e =
    let both : some range ≡ none = sym parsed ∙ ap parse_batch_name e ∙ orphan.not_batch in cc

staging-IsOrphan :
    (start end_ process n : ℕ) (hex : Text)
    → is_lower_hex hex 64 ≡ true
    → IsOrphan (staging_name start end_ process hex n)
staging-IsOrphan start end_ process n hex shape = record {
  not_batch = parse_batch_name-staging start end_ process n hex;
  temp = is_temp_name-staging start end_ process n hex shape;
}

-- What publishing left: the batches as they were; or one more, with the outcome unknown to the
-- caller, or published.
pub data Published (b : Body) (d : Directory)
    : Result JournalError (Unit {0}) → Directory → Type 0 where
  unchanged :
      (e : JournalError) {d' : Directory}
      → e ≢ poisoned
      → SameBatches d d'
      → Published b d (err e) d'
  unsynced : {d' : Directory} → OneMore b d d' → Published b d (err poisoned) d'
  published : {d' : Directory} → OneMore b d d' → Published b d (ok tt) d'

module _ {b : Body} {d : Directory} where
  settled :
      (got expected : Result JournalError (Unit {0}) × Directory)
      → got ≡ expected
      → Published b d expected.0 expected.1
      → Published b d got.0 got.1
  settled got expected e p = subst (λ r. Published b d r.0 r.1) (sym e) p

module _ (h : Hashing) (codec : BatchCodec) (answers : PublishIo) where
  discard-orphan :
      (name : Text) (body : Option Bytes) (d : Directory)
      → IsOrphan name
      → SameBatches d (discard h codec answers name ((name, file body) ∷ d))
  unfolding discard
  discard-orphan name body d orphan = elim (Bool-cases answers.remove_fails) [
    | inl kept ↦ rw kept (collect-orphan name body d orphan)
    | inr gone ↦ rw gone (ap collect_batches (remove-head name (file body) d))
  ]

  -- The link is there: a reader finds one more batch, with the staging file or without it.
  discard-linked :
      (name final : Text) (range : Range) (bytes : Bytes) (d : Directory)
      → IsOrphan name
      → parse_batch_name final ≡ some range
      → OneMore
          (range, some bytes)
          d
          (discard h codec answers name
            ((final, file (some bytes)) ∷ (name, file (some bytes)) ∷ d))
  unfolding discard
  discard-linked name final range bytes d orphan parsed bs e =
      let node = file (some bytes) in
      elim (Bool-cases answers.remove_fails) [
        | inl kept ↦ rw kept (
            collect-batch final range (some bytes) ((name, node) ∷ d) parsed bs
              (collect-orphan name (some bytes) d orphan ∙ e))
        | inr gone ↦ elim (Bool-cases (final == name)) [
          | inl same ↦
              absurd (orphan_not_range name final range orphan parsed ((==_iff final name).0 same))
          | inr apart ↦ rw gone (
              ap collect_batches (remove-behind name final node node d apart)
              ∙ collect-batch final range (some bytes) d parsed bs e)
        ]
      ]

  link_batch-published :
      (name final : Text) (range : Range) (bytes : Bytes) (d : Directory)
      → IsOrphan name
      → parse_batch_name final ≡ some range
      → let left = link_batch h codec answers name final bytes ((name, file (some bytes)) ∷ d) in
        Published (range, some bytes) d left.0 left.1
  unfolding link_batch
  link_batch-published name final range bytes d orphan parsed =
      let staged : Directory = (name, file (some bytes)) ∷ d in
      let gone = discard-orphan name (some bytes) d orphan in
      elim (Bool-cases (present final staged)) [
        | inl taken ↦ settled _ _ (ground arith) (unchanged corrupt (λ e. cc) gone)
        | inr free ↦ elim (Bool-cases answers.link_fails) [
          | inl fails ↦ settled _ _ (ground arith) (unchanged io (λ e. cc) gone)
          | inr links ↦ elim (Bool-cases answers.sync_fails) [
            | inl lost ↦ settled _ _ (ground arith) (
                unsynced (λ bs e.
                  collect-batch final range (some bytes) staged parsed bs
                    (collect-orphan name (some bytes) d orphan ∙ e)))
            | inr synced ↦
                settled _ _ (ground arith)
                  (published (discard-linked name final range bytes d orphan parsed))
          ]
        ]
      ]

  write_batch-published :
      (name final : Text) (range : Range) (bytes : Bytes) (d : Directory)
      → IsOrphan name
      → parse_batch_name final ≡ some range
      → let left = write_batch h codec answers name final bytes d in
        Published (range, some bytes) d left.0 left.1
  unfolding write_batch
  write_batch-published name final range bytes d orphan parsed =
      elim (Option-cases answers.write_failure) [
        | inl written ↦
            settled _ _ (ground arith) (link_batch-published name final range bytes d orphan parsed)
        | inr (left, failed) ↦
            settled _ _ (ground arith) (unchanged io (λ e. cc) (discard-orphan name left d orphan))
      ]

  create_from-name :
      (d : Directory) (name : ℕ → Text) (left attempt : ℕ) (staging : Text)
      → create_from answers d name left attempt ≡ ok staging
      → (n : ℕ) × (staging ≡ name n)
  unfolding create_from
  create_from-name d name zero attempt staging e = absurd (ground arith)
  create_from-name d name (suc left) attempt staging e =
      let more = create_from-name d name left (suc attempt) staging in
      elim (Bool-cases (present (name attempt) d)) [
        | inl taken ↦ more (ground arith)
        | inr free ↦ (attempt, ground arith)
      ]

  create_from-refused :
      (d : Directory) (name : ℕ → Text) (left attempt : ℕ) (e : JournalError)
      → create_from answers d name left attempt ≡ err e
      → e ≢ poisoned
  unfolding create_from
  create_from-refused d name zero attempt e refused p = absurd (ground arith)
  create_from-refused d name (suc left) attempt e refused p =
      let more = create_from-refused d name left (suc attempt) e in
      elim (Bool-cases (present (name attempt) d)) [
        | inl taken ↦ more (ground arith) p
        | inr free ↦ absurd (ground arith)
      ]

  publish_bytes-published :
      HashingLaws h
      → (batch : StoredBatch) (bytes : Bytes) (d : Directory) → batch.start_seq ≤ u64_max
      → batch.end_seq ≤ u64_max
      → is_digest batch.checksum ≡ true
      → let left = publish_bytes h codec answers batch bytes d in
        Published ((batch.start_seq, batch.end_seq), some bytes) d left.0 left.1
  unfolding publish_bytes create_staging_file to_hex
  publish_bytes-published laws batch bytes d hs he shape =
      let final = batch_name batch.start_seq batch.end_seq in
      let hex = h.hex_encode batch.checksum in
      let names = staging_name batch.start_seq batch.end_seq answers.process hex in
      let parsed = parse_batch_name-batch_name batch.start_seq batch.end_seq hs he in
      elim (Bool-cases (answers.exists_follows && present final d)) [
        | inl there ↦ settled _ _ (ground arith) (unchanged corrupt (λ e. cc) refl)
        | inr free ↦ elim (Result-cases (create_from answers d names 128 0)) [
          | inr (e, refused) ↦
              settled _ _ (ground arith)
                (unchanged e (create_from-refused d names 128 0 e refused) refl)
          | inl (staging, created) ↦
              let (n, named) = create_from-name d names 128 0 staging created in
              let orphan = subst IsOrphan (sym named) (
                staging-IsOrphan batch.start_seq batch.end_seq answers.process n hex
                  (laws.hex_encode_shape batch.checksum shape)) in
              settled _ _ (ground arith) (
                write_batch-published staging final (batch.start_seq, batch.end_seq) bytes d orphan
                  parsed)
        ]
      ]

  -- Whatever the file system answers, publishing leaves the batches as they were and fails with
  -- something else than an unknown outcome, or adds this one batch.
  pub publish_batch-published :
      HashingLaws h
      → (batch : StoredBatch) (encoded : Bytes) (d : Directory) → codec.encode batch ≡ some encoded
      → batch.start_seq ≤ u64_max
      → batch.end_seq ≤ u64_max
      → is_digest batch.checksum ≡ true
      → let left = publish_batch h codec answers batch d in
        Published ((batch.start_seq, batch.end_seq), some (encoded ++ 10 ∷ [])) d left.0 left.1
  unfolding publish_batch
  publish_batch-published laws batch encoded d e hs he shape =
      settled _ _ (ground arith)
        (publish_bytes-published laws batch (encoded ++ 10 ∷ []) d hs he shape)
