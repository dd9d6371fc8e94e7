-- ===== src/Workspace/Generation/Publishing.antt =====
-- crates/bullet-git-workspace/src/generation_store.rs: staging a generation and publishing it, with the
-- allocation of names of crates/bullet-git-workspace/src/tree_copy.rs. The answers of the file system
-- and the injected faults are arguments.
pub mod Switch
use bullet_git.Prelude.{
  ℕ, zero, suc, ◌+◌, Bool, true, false, not, ◌||◌, Option, none, some, List, [], ◌∷◌, ◌++◌, Bytes,
  Text, codes, ltb, ◌==◌, text_eq, if◌then◌else◌, Result, ok, err, ok_or, refuse_if, map_err,
  checked_add, starts_with, to_string,
}
use bullet_git.Prelude.Exec.{Exec, pure, raise, lift, ◌>>=◌, ◌>>◌}
use bullet_git.Types.Digest.{Hashing}
use bullet_git.Journal.{Checkpoint}
use bullet_git.Journal.Names.{padded}
use bullet_git.Workspace.Generation.{
  GenerationError, corrupt, io, outcome_unknown, ParentGeneration, GenerationManifest,
  ActivePointer, new_manifest, new_pointer, generation_name, parse_generation_name,
}
use bullet_git.Workspace.Generation.Opening.{
  Shape, ordinary, Control, missing, file, ControlCodec, GenerationDir, Generations, entry_at,
  WorkDir, GenerationStore,
}

abbrev pub Stored : Type 0 → Type 0
Stored A = Exec GenerationError WorkDir A

-- The names in the directories; the paths are these below it.
pub record StagedGeneration : Type 0 where
  pub staging_dir : Text
  pub final_dir : Text
  pub generation : ℕ

-- The loop of `next_generation`.
unfoldable pub maximum_of : Option ℕ → Generations → Result GenerationError (Option ℕ)
maximum_of maximum [] = ok maximum
maximum_of maximum ((name, _) ∷ rest) = elim (parse_generation_name name) [
  | some number ↦
      maximum_of
        (some (elim maximum [ none ↦ number | some m ↦ if ltb m number then number else m ])) rest
  | none ↦ if starts_with (codes ".stage-") name then maximum_of maximum rest else err corrupt
]

unfoldable pub next_generation : Bool → Generations → Result GenerationError ℕ
next_generation read_fails generations =
    if read_fails then err io else elim (maximum_of none generations) [
      | err e ↦ err e
      | ok maximum ↦ ok_or (checked_add (elim maximum [ none ↦ 0 | some m ↦ m ]) 1) corrupt
    ]

unfoldable pub stage_name : ℕ → ℕ → ℕ → Text
stage_name generation process attempt =
    codes ".stage-"
    ++ (padded 20 generation [] ++ b'-' ∷ (to_string process ++ b'-' ∷ to_string attempt))

-- The loop of `allocate_staging`: `left` more attempts from `attempt` on.
unfoldable pub allocate_from :
    (ℕ → Bool) → Generations → (ℕ → Text) → ℕ → ℕ → Result GenerationError Text
allocate_from create_fails generations name zero attempt = err io
allocate_from create_fails generations name (suc left) attempt =
    let more = allocate_from create_fails generations name left (suc attempt) in
    elim (entry_at (name attempt) generations) [
      | some _ ↦ more
      | none ↦ if create_fails attempt then err io else ok (name attempt)
    ]

-- What the file system answers while a generation is staged: a copy leaves a shape, whether it
-- succeeds or fails.
pub record StageIo : Type 0 where
  pub process : ℕ
  pub read_fails : Bool
  pub create_fails : ℕ → Bool
  pub repo_copied : Shape × Result GenerationError (Unit {0})
  pub journal_copied : Shape × Result GenerationError (Unit {0})

unfoldable pub set_entry : Text → (GenerationDir → GenerationDir) → Generations → Generations
set_entry name change [] = []
set_entry name change ((other, dir) ∷ rest) =
    let later = set_entry name change rest in
    if other == name then (other, change dir) ∷ rest else (other, dir) ∷ later

unfoldable pub add_staging : Text → Stored (Unit {0})
add_staging name d = (
  ok tt,
  record d {
    generations =
        (
          name,
          record {
            shape = ordinary;
            manifest = missing;
            repo = Shape.uninspectable;
            journal = Shape.uninspectable;
          },
        )
        ∷ d.generations;
  },
)

unfoldable pub change_entry : Text → (GenerationDir → GenerationDir) → Stored (Unit {0})
change_entry name change d = (ok tt, record d { generations = set_entry name change d.generations })

unfoldable pub next_names : StageIo → WorkDir → Result GenerationError StagedGeneration
next_names answers d = elim (next_generation answers.read_fails d.generations) [
  | err e ↦ err e
  | ok generation ↦
      elim (allocate_from answers.create_fails d.generations (stage_name generation answers.process)
        128 0) [
          | err e ↦ err e
          | ok staging ↦ ok (record {
            staging_dir = staging;
            final_dir = generation_name generation;
            generation = generation;
          })
        ]
]

unfoldable pub stage : StageIo → Stored StagedGeneration
stage answers = do
  staged ← (λ d. (next_names answers d, d))
  add_staging staged.staging_dir
  change_entry staged.staging_dir (λ dir. record dir { repo = answers.repo_copied.0 })
  lift answers.repo_copied.1
  change_entry staged.staging_dir (λ dir. record dir { journal = answers.journal_copied.0 })
  lift answers.journal_copied.1
  pure staged

pub data GenerationBoundary : Type 0 where
  generation_file_sync generation_rename generation_directory_sync : GenerationBoundary
  pointer_write pointer_file_sync pointer_rename pointer_directory_sync : GenerationBoundary

-- `GenerationFaults`, and what the file system answers while a generation is published.
pub record PublishIo : Type 0 where
  pub trips : GenerationBoundary → Bool
  pub manifest_create_fails : Bool
  -- What a failed write of the manifest leaves.
  pub manifest_failure : Option Control
  pub tree_sync_fails : Bool
  pub rename_fails : Bool
  pub generations_sync_fails : Bool
  pub pointer_stage_fails : Bool
  pub pointer_open_fails : Bool
  pub pointer_write_fails : Bool
  pub pointer_sync_fails : Bool
  pub replace_fails : Bool
  pub work_dir_sync_fails : Bool

unfoldable pub rename_entry : Text → Text → Generations → Generations
rename_entry name final [] = []
rename_entry name final ((other, dir) ∷ rest) =
    let later = rename_entry name final rest in
    if other == name then (final, dir) ∷ rest else (other, dir) ∷ later

-- What a write of these bytes leaves under the file's name.
unfoldable pub left_by : Bytes → Option Control → Control
left_by written none = file written
left_by written (some control) = control

module _ (h : Hashing) (codec : ControlCodec) (answers : PublishIo) where
  -- `GenerationFaults::check`
  unfoldable pub check : GenerationBoundary → Stored (Unit {0})
  check boundary = lift (refuse_if (answers.trips boundary) io)

  -- `write_json` of the manifest in the staging directory.
  unfoldable pub write_manifest : Text → GenerationManifest → Stored (Unit {0})
  write_manifest staging manifest = do
    lift (refuse_if answers.manifest_create_fails io)
    change_entry staging (λ dir. record dir { manifest = file [] })
    encoded ← lift (ok_or (codec.encode_manifest manifest) corrupt)
    change_entry staging
        (λ dir. record dir { manifest = left_by (encoded ++ 10 ∷ []) answers.manifest_failure })
    lift (elim answers.manifest_failure [ none ↦ ok tt | some _ ↦ err io ])

  unfoldable pub rename_generation : StagedGeneration → Stored (Unit {0})
  rename_generation staged d = if answers.rename_fails then (err io, d) else (
    ok tt,
    record d { generations = rename_entry staged.staging_dir staged.final_dir d.generations },
  )

  -- `publish_with` from the new manifest to the renamed generation.
  unfoldable pub write_generation : StagedGeneration → GenerationManifest → Stored (Unit {0})
  write_generation staged manifest = do
    check generation_file_sync
    write_manifest staged.staging_dir manifest
    lift (refuse_if answers.tree_sync_fails io)
    check generation_rename
    rename_generation staged
    check generation_directory_sync
    lift (refuse_if answers.generations_sync_fails io)
    lift (refuse_if answers.pointer_stage_fails io)
    check pointer_write
    lift (refuse_if answers.pointer_open_fails io)

  -- The bytes of the pointer in its staged file.
  unfoldable pub pointer_bytes : GenerationManifest → Result GenerationError Bytes
  pointer_bytes manifest = ok_or (codec.encode_pointer (new_pointer h manifest)) corrupt

  unfoldable pub sync_staged_pointer : Stored (Unit {0})
  sync_staged_pointer = do
    lift (refuse_if answers.pointer_write_fails io)
    check pointer_file_sync
    lift (refuse_if answers.pointer_sync_fails io)
    check pointer_rename

  -- The manifest of what is published.
  unfoldable pub manifest_of :
      GenerationStore → StagedGeneration → Checkpoint → Result GenerationError GenerationManifest
  manifest_of store staged checkpoint =
      new_manifest h store.attempt_id store.nonce_hex staged.generation
        (some (record {
          generation = store.active.generation;
          manifest_digest = store.active.manifest_digest;
        }))
        checkpoint

  -- `replace_pointer`
  unfoldable pub replace_pointer : Bytes → Stored (Unit {0})
  replace_pointer bytes d =
      if answers.replace_fails then (err io, d) else (ok tt, record d { active = file bytes })

  unfoldable pub sync_pointer : Result GenerationError (Unit {0})
  sync_pointer =
      refuse_if (answers.trips pointer_directory_sync || answers.work_dir_sync_fails)
        outcome_unknown

  unfoldable pub publish_with :
      GenerationStore → StagedGeneration → Checkpoint → Stored GenerationStore
  publish_with store staged checkpoint = do
    manifest ← lift (manifest_of store staged checkpoint)
    write_generation staged manifest
    encoded ← lift (pointer_bytes manifest)
    sync_staged_pointer
    replace_pointer (encoded ++ 10 ∷ [])
    lift sync_pointer
    pure (record store { active = manifest })
