-- ===== src/Journal/Storage.antt =====
-- crates/bullet-git-journal/src/storage.rs with the types of crates/bullet-git-journal/src/durable.rs:
-- batches, the directory that holds them, loading and publishing. The JSON codec of a batch
-- (`serde_json`) is a parameter, and the answers of the file system are arguments.
pub mod Loading
pub mod Publishing
use bullet_git.Prelude.{
  ℕ, zero, suc, ◌+◌, Bool, true, false, not, ◌&&◌, ◌||◌, ◌≡◌, Option, none, some, List, [], ◌∷◌,
  ◌++◌, Bytes, Text, codes, length, is_empty, get_last?, ltb, leb, ◌==◌, nat_eq, text_eq,
  option_text_eq, if◌then◌else◌, Result, ok, err, ok_or, refuse_if, ◌>>=◌, ◌>>◌, checked_add,
}
use bullet_git.Types.Digest.{Hashing, Digest, digest_of, frame_all, to_le_bytes, to_hex}
use bullet_git.Types.RepoPath.{contains}
use bullet_git.Journal.{JournalOpKind, write, delete, JournalOp, Journal, frame_ops}
use bullet_git.Journal.Names.{Range, batch_name, parse_batch_name, is_temp_name, staging_name}

pub data JournalError : Type 0 where
  io corrupt poisoned : JournalError

unfoldable pub reason_code : JournalError → Text
reason_code io = codes "JOURNAL_IO_FAILED"
reason_code corrupt = codes "CORRUPT_JOURNAL"
reason_code poisoned = codes "JOURNAL_POISONED"

unfoldable pub may_have_published : JournalError → Bool
may_have_published poisoned = true
may_have_published _ = false

abbrev pub schema_version : ℕ
schema_version = 2

pub record StoredBatch : Type 0 where
  pub schema_version : ℕ
  pub start_seq : ℕ
  pub end_seq : ℕ
  pub previous_checksum : Option Digest
  pub ops : List JournalOp
  pub checksum : Digest

-- `serde_json::to_vec` and `serde_json::from_slice`.
pub record BatchCodec : Type 0 where
  pub encode : StoredBatch → Option Bytes
  pub decode : Bytes → Option StoredBatch

-- A batch reads back from its JSON text, also with white space behind it.
pub record BatchCodecLaws (c : BatchCodec) : Type 0 where
  pub decode-encode :
      (batch : StoredBatch) (b : Bytes)
      → c.encode batch ≡ some b
      → c.decode (b ++ 10 ∷ []) ≡ some batch

-- The fields in front of the operations.
unfoldable pub chain_fields : Option Digest → ℕ → List Bytes
chain_fields (some digest) count =
    codes "bullet-git-journal-batch-v2" ∷ codes "previous" ∷ digest ∷ to_le_bytes count ∷ []
chain_fields none count =
    codes "bullet-git-journal-batch-v2" ∷ codes "genesis" ∷ to_le_bytes count ∷ []

-- The tests of `validate_batch` on one operation.
unfoldable pub content_shape_valid : JournalOpKind → Option Digest → Option Digest → Bool
content_shape_valid write before (some _) = true
content_shape_valid write before none = false
content_shape_valid delete (some _) none = true
content_shape_valid delete (some _) (some _) = false
content_shape_valid delete none after = false

unfoldable pub bad_path : Text → Bool
bad_path path = is_empty path || contains 0 path

unfoldable pub check_op : ℕ → JournalOp → Result JournalError (Unit {0})
unfolding content_shape_valid bad_path
check_op wanted op =
    refuse_if
      (not (op.seq == wanted)
        || bad_path op.path
        || not (content_shape_valid op.kind op.before op.after))
      corrupt

-- The loop of `validate_batch`.
unfoldable pub check_ops : ℕ → ℕ → List JournalOp → Result JournalError (Unit {0})
check_ops start offset [] = ok tt
check_ops start offset (op ∷ ops) = do
  wanted ← ok_or (checked_add start offset) corrupt
  check_op wanted op
  check_ops start (suc offset) ops

unfoldable pub ends_at : ℕ → List JournalOp → Bool
ends_at end_seq ops = elim (get_last? ops) [ none ↦ false | some op ↦ op.seq == end_seq ]

-- An entry of the directory: a regular file with its contents, or none if it cannot be read; a file
-- of another type; or an entry that cannot be inspected.
pub data Node : Type 0 where
  file : Option Bytes → Node
  irregular uninspectable : Node

-- In the order in which the directory is read.
abbrev pub Directory : Type 0
Directory = List (Text × Node)

abbrev pub Body : Type 0
Body = Range × Option Bytes

-- The loop over the entries in `load_batches`.
unfoldable pub collect_batches : Directory → Result JournalError (List Body)
collect_batches [] = ok []
collect_batches ((name, uninspectable) ∷ rest) = err io
collect_batches ((name, irregular) ∷ rest) = err corrupt
collect_batches ((name, file body) ∷ rest) = elim (parse_batch_name name) [
  | some range ↦ do batches ← collect_batches rest; ok ((range, body) ∷ batches)
  | none ↦ if is_temp_name name then collect_batches rest else err corrupt
]

-- `Ord` of a pair of numbers.
unfoldable pub range_le : Range → Range → Bool
range_le (a, b) (c, d) = if a == c then leb b d else ltb a c

unfoldable pub insert_batch : Body → List Body → List Body
unfolding range_le
insert_batch b [] = b ∷ []
insert_batch b (c ∷ cs) = if range_le b.0 c.0 then b ∷ c ∷ cs else c ∷ insert_batch b cs

-- `sort_by_key`, which is stable.
unfoldable pub sort_batches : List Body → List Body
unfolding insert_batch
sort_batches [] = []
sort_batches (b ∷ bs) = insert_batch b (sort_batches bs)

-- The variables of the second loop of `load_batches`.
pub record LoadState : Type 0 where
  pub ops : List JournalOp
  pub previous : Option Digest
  pub expected : ℕ

abbrev pub initial : LoadState
initial = record { ops = []; previous = none; expected = 1 }

module _ (h : Hashing) where
  unfoldable pub batch_checksum : Option Digest → List JournalOp → Digest
  unfolding chain_fields
  batch_checksum previous ops =
      digest_of h (frame_ops (frame_all [] (chain_fields previous (length ops))) ops)

  unfoldable pub new_batch : ℕ → ℕ → Option Digest → List JournalOp → StoredBatch
  new_batch start_seq end_seq previous ops = record {
    schema_version = schema_version;
    start_seq = start_seq;
    end_seq = end_seq;
    previous_checksum = previous;
    ops = ops;
    checksum = batch_checksum previous ops;
  }

  unfoldable pub validate_batch :
      StoredBatch → Range → ℕ → Option Digest → Result JournalError (Unit {0})
  validate_batch batch (file_start, file_end) expected previous = do
    refuse_if (not (batch.schema_version == schema_version)) corrupt
    refuse_if
        (not (batch.start_seq == file_start)
          || not (batch.end_seq == file_end)
          || not (batch.start_seq == expected))
        corrupt
    refuse_if (is_empty batch.ops || not (batch.previous_checksum == previous)) corrupt
    check_ops batch.start_seq 0 batch.ops
    refuse_if (not (ends_at batch.end_seq batch.ops)) corrupt
    refuse_if (not (batch_checksum previous batch.ops == batch.checksum)) corrupt
    ok tt

module _ (h : Hashing) (codec : BatchCodec) where
  unfoldable pub load_one : LoadState → Body → Result JournalError LoadState
  load_one state (range, body) = do
    bytes ← ok_or body io
    batch ← ok_or (codec.decode bytes) corrupt
    validate_batch h batch range state.expected state.previous
    expected ← ok_or (checked_add batch.end_seq 1) corrupt
    ok (record {
      ops = state.ops ++ batch.ops;
      previous = some batch.checksum;
      expected = expected;
    })

  unfoldable pub load_sorted : LoadState → List Body → Result JournalError LoadState
  load_sorted state [] = ok state
  load_sorted state (b ∷ bs) = do next ← load_one state b; load_sorted next bs

  -- `load_batches` on a directory that can be read.
  unfoldable pub load_batches : Directory → Result JournalError (List JournalOp × Option Digest)
  load_batches directory = do
    batches ← collect_batches directory
    state ← load_sorted initial (sort_batches batches)
    ok (state.ops, state.previous)

-- What the file system answers while a batch is published: whether `exists` follows the entry of
-- the final path to a file, whether an attempt to create a staging file fails for another reason
-- than that it is there, what a failed write leaves, and whether the link, the sync of the directory
-- and the removals fail.
pub record PublishIo : Type 0 where
  pub process : ℕ
  pub exists_follows : Bool
  pub create_fails : ℕ → Bool
  -- `none`: written and synced; otherwise what stands in the file.
  pub write_failure : Option (Option Bytes)
  pub link_fails : Bool
  pub sync_fails : Bool
  pub remove_fails : Bool

unfoldable pub present : Text → Directory → Bool
present name [] = false
present name ((other, _) ∷ rest) = other == name || present name rest

-- `fs::remove_file`, with its error ignored.
unfoldable pub remove_file : Text → Directory → Directory
remove_file name [] = []
remove_file name ((other, node) ∷ rest) =
    let rest' = remove_file name rest in if other == name then rest else (other, node) ∷ rest'

-- The loop of `create_staging_file`: `left` more attempts from `attempt` on.
unfoldable pub create_from : PublishIo → Directory → (ℕ → Text) → ℕ → ℕ → Result JournalError Text
create_from answers directory name zero attempt = err io
create_from answers directory name (suc left) attempt =
    let more = create_from answers directory name left (suc attempt) in
    if present (name attempt) directory
    then more
    else if answers.create_fails attempt
    then err io
    else ok (name attempt)

module _ (h : Hashing) (codec : BatchCodec) (answers : PublishIo) where
  unfoldable pub create_staging_file : Directory → StoredBatch → Result JournalError Text
  create_staging_file directory batch =
      create_from answers directory
        (staging_name batch.start_seq batch.end_seq answers.process (to_hex h batch.checksum)) 128 0

  unfoldable pub discard : Text → Directory → Directory
  discard staging directory =
      if answers.remove_fails then directory else remove_file staging directory

  -- From the hard link on: `staged` holds the staging file.
  unfoldable pub link_batch :
      Text → Text → Bytes → Directory → Result JournalError (Unit {0}) × Directory
  link_batch staging final bytes staged =
      if present final staged
      then (err corrupt, discard staging staged)
      else if answers.link_fails
      then (err io, discard staging staged)
      else if answers.sync_fails
      then (err poisoned, (final, file (some bytes)) ∷ staged)
      else (ok tt, discard staging ((final, file (some bytes)) ∷ staged))

  -- From the write on.
  unfoldable pub write_batch :
      Text → Text → Bytes → Directory → Result JournalError (Unit {0}) × Directory
  write_batch staging final bytes directory = elim answers.write_failure [
    | some left ↦ (err io, discard staging ((staging, file left) ∷ directory))
    | none ↦ link_batch staging final bytes ((staging, file (some bytes)) ∷ directory)
  ]

  unfoldable pub publish_bytes :
      StoredBatch → Bytes → Directory → Result JournalError (Unit {0}) × Directory
  publish_bytes batch bytes directory =
      let final = batch_name batch.start_seq batch.end_seq in
      if answers.exists_follows && present final directory
      then (err corrupt, directory)
      else elim (create_staging_file directory batch) [
        | err e ↦ (err e, directory)
        | ok staging ↦ write_batch staging final bytes directory
      ]

  unfoldable pub publish_batch :
      StoredBatch → Directory → Result JournalError (Unit {0}) × Directory
  publish_batch batch directory = elim (codec.encode batch) [
    | none ↦ (err corrupt, directory)
    | some bytes ↦ publish_bytes batch (bytes ++ 10 ∷ []) directory
  ]
