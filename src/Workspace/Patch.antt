-- ===== src/Workspace/Patch.antt =====
-- crates/bullet-git-workspace/src/patch.rs: patch batches and their validation. `exists` is the
-- caller's test for a regular file.
pub mod Admission
use bullet_git.Prelude.{
  ℕ, ◌+◌, Bool, true, false, not, ◌||◌, ◌&&◌, Option, none, some, List, [], ◌∷◌, ◌++◌, Bytes, Text,
  length, is_empty, ltb, ◌==◌, nat_eq, text_eq, if◌then◌else◌, Result, ok, err, ok_or, refuse_if,
  ◌>>=◌, ◌>>◌, any, u64_max, checked_add,
}
use bullet_git.Types.Proposal.{max_patch_operations, max_content_bytes, max_aggregate_content_bytes}
use bullet_git.Types.RepoPath.{Unicode}
use bullet_git.Workspace.Error.{
  CapabilityError, invalid_operation_count, content_too_large, aggregate_content_too_large,
  duplicate_path, path_collision, path_absent,
}
use bullet_git.Workspace.Scope.{ScopeGrant, check}

pub data PatchOp : Type 0 where
  write : Bytes → PatchOp
  delete : PatchOp

pub record PatchHunk : Type 0 where
  pub path : Text
  pub op : PatchOp

-- `HashSet::contains`; `insert` returns its negation.
unfoldable pub seen_before : Text → List Text → Bool
seen_before path seen = any (λ p. p == path) seen

-- The value that `HashMap::insert` returns for a key that the map has.
unfoldable pub portable_lookup : Text → List (Text × Text) → Option Text
portable_lookup key [] = none
portable_lookup key ((k, p) ∷ rest) = if key == k then some p else portable_lookup key rest

-- The variables of the loop.
pub record Batch : Type 0 where
  pub normalized : List Text
  pub seen : List Text
  pub portable : List (Text × Text)
  pub aggregate_content_bytes : ℕ

abbrev pub empty_batch : Batch
empty_batch = record { normalized = []; seen = []; portable = []; aggregate_content_bytes = 0 }

-- The bounds on one write: the new aggregate, or the refusal.
unfoldable pub add_contents : Text → ℕ → PatchOp → Result CapabilityError ℕ
add_contents path aggregate delete = ok aggregate
add_contents path aggregate (write contents) = do
  refuse_if (ltb max_content_bytes (length contents))
      (content_too_large path max_content_bytes (length contents))
  total ←
      ok_or (checked_add aggregate (length contents))
        (aggregate_content_too_large max_aggregate_content_bytes u64_max)
  refuse_if (ltb max_aggregate_content_bytes total)
      (aggregate_content_too_large max_aggregate_content_bytes total)
  ok total

unfoldable pub refuse_collision : Option Text → Text → Result CapabilityError (Unit {0})
refuse_collision (some first) path = err (path_collision first path)
refuse_collision none path = ok tt

unfoldable pub is_delete : PatchOp → Bool
is_delete delete = true
is_delete (write _) = false

-- One round of the loop.
unfoldable pub admit :
    Unicode → ScopeGrant → (Text → Bool) → Batch → PatchHunk → Result CapabilityError Batch
unfolding seen_before portable_lookup add_contents refuse_collision is_delete
admit u grant exists b patch = do
  path ← check u grant patch.path
  total ← add_contents path b.aggregate_content_bytes patch.op
  refuse_if (seen_before path b.seen) (duplicate_path path)
  let portable_key = u.lowercase path
  refuse_collision (portable_lookup portable_key b.portable) path
  refuse_if (is_delete patch.op && not (exists path)) (path_absent path)
  ok (record {
    normalized = b.normalized ++ path ∷ [];
    seen = path ∷ b.seen;
    portable = (portable_key, path) ∷ b.portable;
    aggregate_content_bytes = total;
  })

unfoldable pub admit_all :
    Unicode → ScopeGrant → (Text → Bool) → Batch → List PatchHunk → Result CapabilityError Batch
admit_all u grant exists b [] = ok b
admit_all u grant exists b (patch ∷ patches) = do
  b' ← admit u grant exists b patch
  admit_all u grant exists b' patches

unfoldable pub validate_batch :
    Unicode → ScopeGrant → List PatchHunk → (Text → Bool) → Result CapabilityError (List Text)
unfolding admit_all
validate_batch u grant patches exists = do
  refuse_if (is_empty patches || ltb max_patch_operations (length patches))
      (invalid_operation_count max_patch_operations (length patches))
  b ← admit_all u grant exists empty_batch patches
  ok b.normalized
