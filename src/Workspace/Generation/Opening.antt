-- ===== src/Workspace/Generation/Opening.antt =====
-- crates/bullet-git-workspace/src/generation_store.rs and generation/binding.rs: opening a workspace and
-- the binding of its active generation, with `validate_lineage` of
-- crates/bullet-git-workspace/src/generation.rs and the control files of
-- crates/bullet-git-workspace/src/tree_copy.rs. The JSON codec of the control files is a parameter.
use bullet_git.Prelude.{
  ℕ, zero, suc, ◌*◌, Bool, not, ◌||◌, Option, none, some, List, [], ◌∷◌, Bytes, Text, codes, length,
  ltb, leb, ◌==◌, nat_eq, text_eq, if◌then◌else◌, Result, ok, err, refuse_if, ok_or, ◌>>=◌, ◌>>◌,
  starts_with,
}
use bullet_git.Types.Digest.{Hashing, Digest}
use bullet_git.Journal.{Checkpoint}
use bullet_git.Workspace.Generation.{
  GenerationError, ParentGeneration, GenerationManifest, ActivePointer, pointer_digest,
  validate_manifest, validate_pointer, generation_name, parse_generation_name, corrupt, io,
}

-- What `symlink_metadata` finds where a directory should be.
pub data Shape : Type 0 where
  ordinary irregular uninspectable : Shape

unfoldable pub require_ordinary_directory : Shape → Result GenerationError (Unit {0})
require_ordinary_directory ordinary = ok tt
require_ordinary_directory irregular = err corrupt
require_ordinary_directory uninspectable = err io

-- A control file: nothing that can be inspected, something that is no regular file, a file that
-- cannot be read, or its contents.
pub data Control : Type 0 where
  missing special unreadable : Control
  file : Bytes → Control

abbrev pub max_control_bytes : ℕ
max_control_bytes = 64 * 1024

-- `read_json` before the decoder.
unfoldable pub read_control : Control → Result GenerationError Bytes
read_control missing = err io
read_control special = err corrupt
read_control unreadable = err io
read_control (file bytes) = do refuse_if (ltb max_control_bytes (length bytes)) corrupt; ok bytes

-- `serde_json` on the two control files.
pub record ControlCodec : Type 0 where
  pub encode_manifest : GenerationManifest → Option Bytes
  pub decode_manifest : Bytes → Option GenerationManifest
  pub encode_pointer : ActivePointer → Option Bytes
  pub decode_pointer : Bytes → Option ActivePointer

pub record GenerationDir : Type 0 where
  pub shape : Shape
  pub manifest : Control
  pub repo : Shape
  pub journal : Shape

abbrev pub Generations : Type 0
Generations = List (Text × GenerationDir)

unfoldable pub entry_at : Text → Generations → Option GenerationDir
entry_at name [] = none
entry_at name ((other, dir) ∷ rest) =
    let later = entry_at name rest in if other == name then some dir else later

-- `manifest.json` of a generation; no file is there without its directory.
unfoldable pub manifest_at : Generations → ℕ → Control
manifest_at generations n = elim (entry_at (generation_name n) generations) [
  | none ↦ missing
  | some dir ↦ dir.manifest
]

unfoldable pub inspect_generation_entries : Generations → Result GenerationError (Unit {0})
inspect_generation_entries [] = ok tt
inspect_generation_entries ((name, dir) ∷ rest) = do
  elim dir.shape [
    | uninspectable ↦ err io
    | irregular ↦ err corrupt
    | ordinary ↦
        if starts_with (codes ".stage-") name
        then ok tt
        else elim (parse_generation_name name) [ none ↦ err corrupt | some _ ↦ ok tt ]
  ]
  inspect_generation_entries rest

module _ (h : Hashing) (codec : ControlCodec) where
  unfoldable pub read_manifest : Control → Result GenerationError GenerationManifest
  read_manifest control = do
    bytes ← read_control control
    ok_or (codec.decode_manifest bytes) corrupt

  -- `read_json` of the parent, and the tests on it.
  unfoldable pub read_parent :
      Generations → ParentGeneration → Text → Text → Result GenerationError GenerationManifest
  read_parent generations parent attempt_id nonce_hex = do
    prior ← read_manifest (manifest_at generations parent.generation)
    validate_manifest h prior
    refuse_if
        (not (prior.attempt_id == attempt_id)
          || not (prior.workspace_nonce_hex == nonce_hex)
          || not (prior.generation == parent.generation)
          || not (prior.manifest_digest == parent.manifest_digest))
        corrupt
    ok prior

  -- The loop of `validate_lineage`; `none` is running out of fuel.
  unfoldable pub lineage_loop :
      ℕ
      → Generations
      → Text
      → Text
      → GenerationManifest
      → Option (Result GenerationError (Unit {0}))
  lineage_loop zero generations attempt_id nonce_hex current = none
  lineage_loop (suc fuel) generations attempt_id nonce_hex current = elim current.parent [
    | none ↦ some (if current.generation == 0 then ok tt else err corrupt)
    | some parent ↦
        if leb current.generation parent.generation
        then some (err corrupt)
        else elim (read_parent generations parent attempt_id nonce_hex) [
          | err e ↦ some (err e)
          | ok prior ↦ lineage_loop fuel generations attempt_id nonce_hex prior
        ]
  ]

  -- With enough fuel for every chain of generations, which only descend.
  unfoldable pub validate_lineage :
      Generations → GenerationManifest → Text → Text → Result GenerationError (Unit {0})
  validate_lineage generations active attempt_id nonce_hex =
      elim (lineage_loop (suc active.generation) generations attempt_id nonce_hex active) [
        | none ↦ err corrupt
        | some answer ↦ answer
      ]

-- What stands in the working directory of a workspace, and whether its generations can be listed.
pub record WorkDir : Type 0 where
  pub shape : Shape
  pub generations_shape : Shape
  pub listable : Bool
  pub generations : Generations
  pub active : Control

-- The directory of the active generation is named by its number.
pub record GenerationStore : Type 0 where
  pub attempt_id : Text
  pub nonce_hex : Text
  pub active : GenerationManifest

module _ (h : Hashing) (codec : ControlCodec) where
  unfoldable pub read_pointer : Control → Result GenerationError ActivePointer
  read_pointer control = do bytes ← read_control control; ok_or (codec.decode_pointer bytes) corrupt

  -- The directories inside the active generation.
  unfoldable pub require_layout : Generations → ℕ → Result GenerationError (Unit {0})
  require_layout generations n = elim (entry_at (generation_name n) generations) [
    | none ↦ err io
    | some dir ↦ do require_ordinary_directory dir.repo; require_ordinary_directory dir.journal
  ]

  unfoldable pub read_active :
      Generations → ActivePointer → Text → Text → Result GenerationError GenerationManifest
  read_active generations pointer attempt_id nonce_hex = do
    manifest ← read_manifest h codec (manifest_at generations pointer.generation)
    validate_manifest h manifest
    refuse_if
        (not (manifest.attempt_id == attempt_id)
          || not (manifest.workspace_nonce_hex == nonce_hex)
          || not (manifest.generation == pointer.generation)
          || not (manifest.manifest_digest == pointer.manifest_digest))
        corrupt
    ok manifest

  unfoldable pub open_store : WorkDir → Text → Text → Result GenerationError GenerationStore
  open_store d attempt_id nonce_hex = do
    require_ordinary_directory d.shape
    require_ordinary_directory d.generations_shape
    refuse_if (not d.listable) io
    inspect_generation_entries d.generations
    pointer ← read_pointer d.active
    validate_pointer h pointer
    manifest ← read_active d.generations pointer attempt_id nonce_hex
    validate_lineage h codec d.generations manifest attempt_id nonce_hex
    require_layout d.generations pointer.generation
    ok (record { attempt_id = attempt_id; nonce_hex = nonce_hex; active = manifest })

pub record ActiveGenerationBinding : Type 0 where
  pub generation : ℕ
  pub parent : Option ParentGeneration
  pub manifest_digest : Digest
  pub pointer_digest : Digest
  pub checkpoint : Checkpoint

unfoldable pub binding : Hashing → GenerationStore → ActiveGenerationBinding
binding h store = record {
  generation = store.active.generation;
  parent = store.active.parent;
  manifest_digest = store.active.manifest_digest;
  pointer_digest = pointer_digest h store.active.generation store.active.manifest_digest;
  checkpoint = store.active.checkpoint;
}
