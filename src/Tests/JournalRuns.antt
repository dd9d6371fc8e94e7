-- ===== src/Tests/JournalRuns.antt =====
-- A journal on an empty directory, and on the directory that one batch leaves.
use bullet_git.Prelude.{
  ℕ_discrete, ◌≡◌, refl, true, false, none, some, [], ◌∷◌, Bytes, codes, ◌==◌, if◌then◌else◌, ok,
  arith, text_eq, text_discrete, option_text_discrete, split_once, checked_add,
}
use bullet_git.Types.Digest.{Digest, digest_of, frame, frame_all, to_le_bytes}
use bullet_git.Journal.{JournalOp, write, frame_ops, op_fields, optional_fields, frame_tag}
use bullet_git.Journal.Names.{
  batch_name, parse_batch_name, strip_suffix, parse_range, is_ascii_digit, parse_u64, decimal_value,
  padded,
}
use bullet_git.Journal.Storage.{
  StoredBatch, BatchCodec, BatchCodecLaws, Directory, file, PublishIo, new_batch, batch_checksum,
  load_batches, collect_batches, load_sorted, content_shape_valid, sort_batches, insert_batch,
  load_one, validate_batch, chain_fields, check_ops, check_op, bad_path, ends_at,
}
use bullet_git.Journal.Storage.Loading.{IsRecorded, load_batches-IsRecorded}
use bullet_git.Journal.Durable.{JournalMutation, DurableJournal, record_batch}
use bullet_git.Journal.Durable.Atomic.{Atomic, record_batch_atomic}
use bullet_git.Tests.Instances.{hashing, hashing_laws, repeat}

abbrev digest : Digest
digest = repeat 32 7

abbrev op : JournalOp
op = record { seq = 1; path = codes "src/a"; kind = write; before = none; after = some digest }

abbrev batch : StoredBatch
batch = new_batch hashing 1 1 none (op ∷ [])

batch_discrete : Discrete StoredBatch
unfolding ℕ_discrete
batch_discrete = hlevel ℕ_discrete

-- The codec of this batch.
unfoldable batches : BatchCodec
batches = record {
  encode = λ b. elim (batch_discrete b batch) [ yes _ ↦ some (1 ∷ []) | no _ ↦ none ];
  decode = λ b. if b == 1 ∷ 10 ∷ [] then some batch else none;
}

decodes : batches.decode (1 ∷ 10 ∷ []) ≡ some batch
unfolding batches text_discrete ℕ_discrete
decodes = refl

encoded_case :
    (b : StoredBatch) (bytes : Bytes)
    → batches.encode b ≡ some bytes
    → (b ≡ batch) × (bytes ≡ 1 ∷ [])
unfolding batches
encoded_case b bytes e = elim (batch_discrete b batch) [
  | yes same ↦ (same, ground arith)
  | no other ↦ absurd (ground arith)
]

batches_laws : BatchCodecLaws batches
batches_laws = record {
  decode-encode = λ b bytes e. let (same, line) = encoded_case b bytes e in rw (same, line) decodes;
}

-- A file system that does its part.
abbrev smooth : PublishIo
smooth = record {
  process = 42;
  exists_follows = true;
  create_fails = λ n. false;
  write_failure = none;
  link_fails = false;
  sync_fails = false;
  remove_fails = false;
}

abbrev empty_journal : DurableJournal
empty_journal = record { directory = []; journal = []; head_checksum = none; healthy = true }

abbrev mutation : JournalMutation
mutation = record { path = codes "src/a"; kind = write; before = none; after = some digest }

empty_loads : load_batches hashing batches [] ≡ ok ([], none)
unfolding load_batches collect_batches load_sorted sort_batches
empty_loads = refl

mutation_shape : content_shape_valid write none (some digest) ≡ true
unfolding content_shape_valid
mutation_shape = refl

record_batch_atomic_example :
    Atomic hashing batches
      (mutation ∷ [])
      empty_journal
      (record_batch hashing batches smooth (mutation ∷ []) empty_journal)
record_batch_atomic_example =
    record_batch_atomic hashing batches hashing_laws batches_laws smooth (mutation ∷ [])
      empty_journal (mutation_shape, tt) (omega arith) empty_loads

-- The batch on its own.
abbrev directory : Directory
directory = (batch_name 1 1, file (some (1 ∷ 10 ∷ []))) ∷ []

directory_loads : load_batches hashing batches directory ≡ ok (op ∷ [], some batch.checksum)
unfolding load_batches collect_batches parse_batch_name strip_suffix split_once parse_range
    is_ascii_digit parse_u64 decimal_value batch_name padded sort_batches insert_batch load_sorted
    load_one validate_batch new_batch batch_checksum chain_fields check_ops check_op bad_path
    content_shape_valid ends_at batches frame_ops op_fields optional_fields frame_tag frame_all
    frame to_le_bytes digest_of hashing checked_add ℕ_discrete text_discrete option_text_discrete
directory_loads = refl

load_batches-IsRecorded_example : IsRecorded 1 (op ∷ [])
load_batches-IsRecorded_example =
    load_batches-IsRecorded hashing batches directory (op ∷ []) (some batch.checksum)
      directory_loads
