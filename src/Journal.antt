-- ===== src/Journal.antt =====
-- crates/bullet-git-journal/src/lib.rs: the in-memory journal and its checkpoints.
pub mod Preimage
pub mod Names
pub mod Storage
pub mod Durable
use bullet_git.Prelude.{
  ℕ, ◌+◌, Bool, ◌&&◌, Option, none, some, List, [], ◌∷◌, ◌++◌, Bytes, Text, codes, length,
  get_last?, ◌==◌, text_eq,
}
use bullet_git.Types.Digest.{
  Hashing, Digest, digest_of, framed_digest, frame, frame_all, to_le_bytes, to_hex,
}
use bullet_git.Types.Ids.{from_seed}

pub data JournalOpKind : Type 0 where
  write delete : JournalOpKind

unfoldable pub frame_tag : JournalOpKind → Bytes
frame_tag write = codes "w"
frame_tag delete = codes "d"

pub record JournalOp : Type 0 where
  pub seq : ℕ
  pub path : Text
  pub kind : JournalOpKind
  pub before : Option Digest
  pub after : Option Digest

pub record Checkpoint : Type 0 where
  pub id : Text
  pub through_seq : ℕ
  pub tree : Digest
  pub git_tree : Option Text
  pub digest : Digest

-- A `Journal` is its `ops`.
abbrev pub Journal : Type 0
Journal = List JournalOp

unfoldable pub push : Text → JournalOpKind → Option Digest → Option Digest → Journal → Journal
push path kind before after ops =
    ops
    ++ record { seq = length ops + 1; path = path; kind = kind; before = before; after = after }
      ∷ []

-- The framed fields of `frame_optional_digest`.
unfoldable pub optional_fields : Option Digest → List Bytes
optional_fields (some digest) = codes "present" ∷ digest ∷ []
optional_fields none = codes "absent" ∷ []

unfoldable pub op_fields : JournalOp → List Bytes
unfolding frame_tag optional_fields
op_fields op =
    to_le_bytes op.seq
    ∷ frame_tag op.kind
    ∷ op.path
    ∷ (optional_fields op.before ++ optional_fields op.after)

-- The loop of `checkpoint`.
unfoldable pub frame_ops : Bytes → Journal → Bytes
unfolding op_fields
frame_ops buf [] = buf
frame_ops buf (op ∷ ops) = frame_ops (frame_all buf (op_fields op)) ops

unfoldable pub tree_preimage : Journal → Bytes
unfolding frame_ops
tree_preimage ops = frame_ops (frame [] (codes "bullet-git.journal-tree.v2")) ops

unfoldable pub through_seq : Journal → ℕ
through_seq ops = elim (get_last? ops) [ none ↦ 0 | some op ↦ op.seq ]

module _ (h : Hashing) where
  unfoldable pub record_write : Text → Bytes → Journal → Journal
  unfolding push
  record_write path contents ops = push path write none (some (digest_of h contents)) ops

  unfoldable pub record_delete : Text → Bytes → Journal → Journal
  unfolding push
  record_delete path before ops = push path delete (some (digest_of h before)) none ops

  unfoldable pub checkpoint_digest : ℕ → Digest → Option Text → Digest
  checkpoint_digest seq tree (some git_tree) =
      framed_digest h (codes "bullet-git.checkpoint.v3" ∷ to_le_bytes seq ∷ tree ∷ git_tree ∷ [])
  checkpoint_digest seq tree none =
      framed_digest h
        (codes "bullet-git.checkpoint.v3" ∷ to_le_bytes seq ∷ tree ∷ codes "none" ∷ [])

  unfoldable pub checkpoint_id : Digest → Text
  checkpoint_id digest = from_seed h (codes "ckp") (to_hex h digest)

  unfoldable pub checkpoint : Journal → Checkpoint
  unfolding tree_preimage checkpoint_digest checkpoint_id through_seq
  checkpoint ops =
      let tree = digest_of h (tree_preimage ops) in
      let digest = checkpoint_digest (through_seq ops) tree none in
      record {
        id = checkpoint_id digest;
        through_seq = through_seq ops;
        tree = tree;
        git_tree = none;
        digest = digest;
      }

  unfoldable pub identity_is_valid : Checkpoint → Bool
  unfolding checkpoint_digest checkpoint_id
  identity_is_valid c =
      let digest = checkpoint_digest c.through_seq c.tree c.git_tree in
      c.digest == digest && c.id == checkpoint_id digest

  -- `bind_git_tree` with `rebind_identity`.
  unfoldable pub bind_git_tree : Text → Checkpoint → Checkpoint
  unfolding checkpoint_digest checkpoint_id
  bind_git_tree git_tree c =
      let digest = checkpoint_digest c.through_seq c.tree (some git_tree) in
      record c { git_tree = some git_tree; digest = digest; id = checkpoint_id digest }
