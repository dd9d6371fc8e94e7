-- ===== src/Tests/GenerationRuns.antt =====
-- Staging and publishing a generation.
use bullet_git.Prelude.{◌≡◌, true, false, none, some, [], ◌∷◌, codes, ok, arith, checked_add}
use bullet_git.Journal.{Checkpoint, checkpoint, bind_git_tree}
use bullet_git.Workspace.Generation.{GenerationManifest}
use bullet_git.Workspace.Generation.Opening.{ordinary, file, ControlCodec, WorkDir, GenerationStore}
use bullet_git.Workspace.Generation.Publishing.{
  StagedGeneration, PublishIo, next_generation, maximum_of, publish_with,
}
use bullet_git.Workspace.Generation.Publishing.Switch.{Ends, IsPublished, publish_with_switches}
use bullet_git.Tests.Instances.{hashing, repeat}
use bullet_git.Tests.Samples.{zeros}

abbrev taken : Checkpoint
taken = bind_git_tree hashing (codes "sha1:00") (checkpoint hashing [])

abbrev initial : GenerationManifest
initial = record {
  schema_version = 1;
  attempt_id = codes "a";
  workspace_nonce_hex = zeros;
  generation = 0;
  parent = none;
  checkpoint = taken;
  manifest_digest = repeat 32 1;
}

abbrev controls : ControlCodec
controls = record {
  encode_manifest = λ m. some (m.generation ∷ []);
  decode_manifest = λ b. none;
  encode_pointer = λ p. some (p.generation ∷ []);
  decode_pointer = λ b. none;
}

abbrev work : WorkDir
work = record {
  shape = ordinary;
  generations_shape = ordinary;
  listable = true;
  generations = [];
  active = file (0 ∷ 10 ∷ []);
}

abbrev opened : GenerationStore
opened = record { attempt_id = codes "a"; nonce_hex = zeros; active = initial }

abbrev staged : StagedGeneration
staged = record { staging_dir = codes ".stage"; final_dir = codes "g"; generation = 1 }

abbrev healthy : PublishIo
healthy = record {
  trips = λ b. false;
  manifest_create_fails = false;
  manifest_failure = none;
  tree_sync_fails = false;
  rename_fails = false;
  generations_sync_fails = false;
  pointer_stage_fails = false;
  pointer_open_fails = false;
  pointer_write_fails = false;
  pointer_sync_fails = false;
  replace_fails = false;
  work_dir_sync_fails = true;
}

publish_with_switches_example :
    Ends
      (IsPublished hashing controls healthy opened staged taken)
      (file (0 ∷ 10 ∷ []))
      (publish_with hashing controls healthy opened staged taken work)
publish_with_switches_example =
    publish_with_switches hashing controls healthy opened staged taken work

next_is_one : next_generation false [] ≡ ok 1
unfolding next_generation maximum_of checked_add
next_is_one = ground arith
