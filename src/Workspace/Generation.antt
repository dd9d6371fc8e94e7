-- ===== src/Workspace/Generation.antt =====
-- crates/bullet-git-workspace/src/generation.rs: the manifests of workspace generations and the pointer
-- to the active one, with the names of generations of crates/bullet-git-workspace/src/tree_copy.rs.
pub mod Opening
pub mod Ancestry
pub mod Publishing
use bullet_git.Prelude.{
  ℕ, zero, suc, ◌*◌, ◌+◌, Bool, true, false, not, ◌||◌, Option, none, some, List, [], ◌∷◌, ◌++◌,
  Bytes, Text, codes, length, all, ltb, leb, ◌==◌, nat_eq, text_eq, if◌then◌else◌, Result, ok, err,
  refuse_if, ok_or, ◌>>=◌, ◌>>◌, starts_with, strip_prefix,
}
use bullet_git.Types.Digest.{Hashing, Digest, framed_digest, to_le_bytes}
use bullet_git.Journal.{Checkpoint, identity_is_valid}
use bullet_git.Journal.Names.{padded, is_ascii_digit, parse_u64}

pub data GenerationError : Type 0 where
  corrupt unsupported io outcome_unknown : GenerationError

unfoldable pub reason_code : GenerationError → Text
reason_code corrupt = codes "GENERATION_CORRUPT"
reason_code unsupported = codes "GENERATION_UNSUPPORTED"
reason_code io = codes "GENERATION_IO_FAILED"
reason_code outcome_unknown = codes "GENERATION_OUTCOME_UNKNOWN"

unfoldable pub may_have_published : GenerationError → Bool
may_have_published outcome_unknown = true
may_have_published _ = false

abbrev pub schema_version : ℕ
schema_version = 1

pub record ParentGeneration : Type 0 where
  pub generation : ℕ
  pub manifest_digest : Digest

pub record GenerationManifest : Type 0 where
  pub schema_version : ℕ
  pub attempt_id : Text
  pub workspace_nonce_hex : Text
  pub generation : ℕ
  pub parent : Option ParentGeneration
  pub checkpoint : Checkpoint
  pub manifest_digest : Digest

pub record ActivePointer : Type 0 where
  pub schema_version : ℕ
  pub generation : ℕ
  pub manifest_digest : Digest
  pub pointer_digest : Digest

-- The three fields of a preimage that say which parent a manifest has.
unfoldable pub parent_fields : Option ParentGeneration → List Bytes
parent_fields none =
    codes "root"
    ∷ (0 ∷ 0 ∷ 0 ∷ 0 ∷ 0 ∷ 0 ∷ 0 ∷ 0 ∷ [])
    ∷ (0 ∷ 0 ∷ 0 ∷ 0 ∷ 0 ∷ 0 ∷ 0 ∷ 0 ∷ 0 ∷ 0 ∷ 0 ∷ 0 ∷ 0 ∷ 0 ∷ 0 ∷ 0 ∷ 0 ∷ 0 ∷ 0 ∷ 0 ∷ 0 ∷ 0 ∷ 0 ∷ 0
        ∷ 0 ∷ 0 ∷ 0 ∷ 0 ∷ 0 ∷ 0 ∷ 0 ∷ 0 ∷ [])
    ∷ []
parent_fields (some parent) =
    codes "parent" ∷ to_le_bytes parent.generation ∷ parent.manifest_digest ∷ []

unfoldable pub has_git_tree : Checkpoint → Bool
has_git_tree checkpoint = elim checkpoint.git_tree [ none ↦ false | some _ ↦ true ]

module _ (h : Hashing) where
  unfoldable pub manifest_digest : Text → Text → ℕ → Option ParentGeneration → Checkpoint → Digest
  unfolding parent_fields
  manifest_digest attempt_id nonce_hex generation parent checkpoint = framed_digest h (
      codes "bullet-git-generation-manifest-v1"
      ∷ attempt_id
      ∷ nonce_hex
      ∷ to_le_bytes generation
      ∷ (parent_fields parent ++ checkpoint.digest ∷ []))

  unfoldable pub pointer_digest : ℕ → Digest → Digest
  pointer_digest generation manifest =
      framed_digest h
        (codes "bullet-git-active-generation-v1" ∷ to_le_bytes generation ∷ manifest ∷ [])

  unfoldable pub new_manifest :
      Text
      → Text
      → ℕ
      → Option ParentGeneration
      → Checkpoint
      → Result GenerationError GenerationManifest
  new_manifest attempt_id nonce_hex generation parent checkpoint = do
    refuse_if (not (identity_is_valid h checkpoint) || not (has_git_tree checkpoint)) corrupt
    ok (record {
      schema_version = schema_version;
      attempt_id = attempt_id;
      workspace_nonce_hex = nonce_hex;
      generation = generation;
      parent = parent;
      checkpoint = checkpoint;
      manifest_digest = manifest_digest attempt_id nonce_hex generation parent checkpoint;
    })

  unfoldable pub validate_manifest : GenerationManifest → Result GenerationError (Unit {0})
  validate_manifest m =
      let expected =
        manifest_digest m.attempt_id m.workspace_nonce_hex m.generation m.parent m.checkpoint in
      refuse_if
        (not (m.schema_version == schema_version)
          || not (identity_is_valid h m.checkpoint)
          || not (has_git_tree m.checkpoint)
          || not (m.manifest_digest == expected))
        corrupt

  unfoldable pub new_pointer : GenerationManifest → ActivePointer
  new_pointer m = record {
    schema_version = schema_version;
    generation = m.generation;
    manifest_digest = m.manifest_digest;
    pointer_digest = pointer_digest m.generation m.manifest_digest;
  }

  unfoldable pub validate_pointer : ActivePointer → Result GenerationError (Unit {0})
  validate_pointer p =
      refuse_if
        (not (p.schema_version == schema_version)
          || not (p.pointer_digest == pointer_digest p.generation p.manifest_digest))
        corrupt

unfoldable pub generation_name : ℕ → Text
generation_name generation = codes "generation-" ++ padded 20 generation []

unfoldable pub parse_generation_name : Text → Option ℕ
unfolding is_ascii_digit parse_u64
parse_generation_name name = elim (strip_prefix (codes "generation-") name) [
  | none ↦ none
  | some suffix ↦
      if length suffix == 20
      then if all is_ascii_digit suffix then parse_u64 suffix else none
      else none
]
