-- ===== src/Journal/Durable.antt =====
-- crates/bullet-git-journal/src/durable.rs: the journal whose batches are files of one directory.
pub mod Numbering
pub mod Atomic
use bullet_git.Prelude.{
  ℕ, zero, suc, ◌+◌, Bool, true, false, not, Option, none, some, List, [], ◌∷◌, ◌++◌, Text, length,
  get_last?, is_empty, if◌then◌else◌, Result, ok, err, ok_or, refuse_if, ◌>>=◌, ◌>>◌, checked_add,
}
use bullet_git.Types.Digest.{Hashing, Digest}
use bullet_git.Journal.{JournalOpKind, write, delete, JournalOp, Journal, Checkpoint, checkpoint}
use bullet_git.Journal.Storage.{
  JournalError, io, corrupt, poisoned, StoredBatch, BatchCodec, Directory, PublishIo, bad_path,
  new_batch, load_batches, publish_batch,
}

pub record JournalMutation : Type 0 where
  pub path : Text
  pub kind : JournalOpKind
  pub before : Option Digest
  pub after : Option Digest

unfoldable pub write_mutation : Text → Option Digest → Digest → JournalMutation
write_mutation path before after = record {
  path = path;
  kind = write;
  before = before;
  after = some after;
}

unfoldable pub delete_mutation : Text → Digest → JournalMutation
delete_mutation path before = record {
  path = path;
  kind = delete;
  before = some before;
  after = none;
}

-- `directory` is what stands in the directory of the journal.
pub record DurableJournal : Type 0 where
  pub directory : Directory
  pub journal : Journal
  pub head_checksum : Option Digest
  pub healthy : Bool

-- What stands at the path of the directory, and whether creating it and the two syncs fail.
pub data Root : Type 0 where
  ordinary : Directory → Root
  not_ordinary uninspectable : Root
  missing : Bool → Bool → Bool → Root

unfoldable pub prepare_directory : Root → Result JournalError Directory
prepare_directory (ordinary directory) = ok directory
prepare_directory not_ordinary = err corrupt
prepare_directory uninspectable = err io
prepare_directory (missing create_fails sync_fails parent_sync_fails) = do
  refuse_if create_fails io
  refuse_if sync_fails io
  refuse_if parent_sync_fails io
  ok []

-- The loop of `append_batch`.
unfoldable pub number_ops : ℕ → ℕ → List JournalMutation → Result JournalError (List JournalOp)
number_ops start offset [] = ok []
number_ops start offset (m ∷ ms) = do
  refuse_if (bad_path m.path) corrupt
  seq ← ok_or (checked_add start offset) corrupt
  ops ← number_ops start (suc offset) ms
  ok (record { seq = seq; path = m.path; kind = m.kind; before = m.before; after = m.after } ∷ ops)

-- `append_batch` behind `publish_batch`.
unfoldable pub take_published :
    DurableJournal
    → StoredBatch
    → Result JournalError (Unit {0}) × Directory
    → Result JournalError (Unit {0}) × DurableJournal
take_published j batch (err e, directory) = (err e, record j { directory = directory })
take_published j batch (ok _, directory) = (
  ok tt,
  record j {
    directory = directory;
    journal = j.journal ++ batch.ops;
    head_checksum = some batch.checksum;
  },
)

-- `if result.is_err() { self.healthy = false }`
unfoldable pub note_failure :
    Result JournalError (Unit {0}) × DurableJournal
    → Result JournalError (Unit {0}) × DurableJournal
note_failure (ok _, j) = (ok tt, j)
note_failure (err e, j) = (err e, record j { healthy = false })

module _ (h : Hashing) where
  -- The batch that `append_batch` publishes.
  unfoldable pub next_batch :
      List JournalMutation → DurableJournal → Result JournalError StoredBatch
  next_batch mutations j = do
    start_seq ← ok_or (checked_add (length j.journal) 1) corrupt
    ops ← number_ops start_seq 0 mutations
    last ← ok_or (get_last? ops) corrupt
    ok (new_batch h start_seq last.seq j.head_checksum ops)

module _ (h : Hashing) (codec : BatchCodec) where
  unfoldable pub open_journal : Bool → Root → Result JournalError DurableJournal
  open_journal read_fails root = do
    directory ← prepare_directory root
    refuse_if read_fails io
    (ops, head_checksum) ← load_batches h codec directory
    ok (record {
      directory = directory;
      journal = ops;
      head_checksum = head_checksum;
      healthy = true;
    })

  unfoldable pub append_batch :
      PublishIo
      → List JournalMutation
      → DurableJournal
      → Result JournalError (Unit {0}) × DurableJournal
  append_batch answers mutations j = elim (next_batch h mutations j) [
    | err e ↦ (err e, j)
    | ok batch ↦ take_published j batch (publish_batch h codec answers batch j.directory)
  ]

  unfoldable pub record_batch :
      PublishIo
      → List JournalMutation
      → DurableJournal
      → Result JournalError (Unit {0}) × DurableJournal
  record_batch answers mutations j =
      if not j.healthy
      then (err poisoned, j)
      else if is_empty mutations
      then (ok tt, j)
      else note_failure (append_batch answers mutations j)

  unfoldable pub durable_checkpoint : DurableJournal → Checkpoint
  durable_checkpoint j = checkpoint h j.journal
