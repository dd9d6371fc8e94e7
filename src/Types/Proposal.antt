-- ===== src/Types/Proposal.antt =====
-- crates/bullet-git-types/src/proposal.rs: the canonical patch proposal and its validation.
pub mod Error
pub mod Apart
pub mod Bounds
use bullet_git.Prelude.{
  ℕ, zero, suc, ◌+◌, Bool, true, false, not, ◌||◌, ◌&&◌, Option, none, some, List, [], ◌∷◌, Text,
  length, is_empty, ltb, leb, ◌==◌, nat_eq, text_eq, if◌then◌else◌, Result, ok, err, refuse_if,
  ◌>>=◌, ◌>>◌, u64_max, checked_add, ok_or, text_le, insert_sorted, sort, any,
}
use bullet_git.Types.Digest.{Digest}
use bullet_git.Types.RepoPath.{Unicode, collision_key, contains_path}
use bullet_git.Types.Proposal.Error.{
  ProposalError, unsupported_schema, invalid_operation_count, gate_required, duplicate_gate,
  content_too_large, aggregate_content_too_large, missing_preimage, path_collision, path_conflict,
}

abbrev pub patch_proposal_schema_version : ℕ
patch_proposal_schema_version = 1

abbrev pub max_patch_operations : ℕ
max_patch_operations = 128

abbrev pub max_content_bytes : ℕ
max_content_bytes = 1048576

abbrev pub max_aggregate_content_bytes : ℕ
max_aggregate_content_bytes = 33554432

pub data Preimage : Type 0 where
  absent : Preimage
  digest : Digest → Preimage

pub data PatchMutation : Type 0 where
  write : Text → PatchMutation
  delete : PatchMutation

pub record PatchOperation : Type 0 where
  pub path : Text
  pub preimage : Preimage
  pub mutation : PatchMutation

pub record PatchProposal : Type 0 where
  pub schema_version : ℕ
  pub proposal_id : Text
  pub producing_attempt_id : Text
  pub base_checkpoint_id : Text
  pub base_checkpoint_digest : Digest
  pub operations : List PatchOperation
  pub gate_ids : List Text

-- `gates.windows(2).any(|pair| pair[0] == pair[1])`
unfoldable pub adjacent_equal : List Text → Bool
adjacent_equal [] = false
adjacent_equal (g ∷ []) = false
adjacent_equal (g ∷ g' ∷ gs) = g == g' || adjacent_equal (g' ∷ gs)

-- The `BTreeMap` from collision keys to paths: an association list in the order of the keys.
abbrev pub PathMap : Type 0
PathMap = List (Text × Text)

unfoldable pub lookup : Text → PathMap → Option Text
lookup key [] = none
lookup key ((k, p) ∷ rest) = if key == k then some p else lookup key rest

unfoldable pub put : Text → Text → PathMap → PathMap
put key path [] = (key, path) ∷ []
put key path ((k, p) ∷ rest) =
    if key == k
    then (key, path) ∷ rest
    else if text_le key k
    then (key, path) ∷ (k, p) ∷ rest
    else (k, p) ∷ put key path rest

-- `BTreeMap::insert`: the value that the key had, and the map.
unfoldable pub insert : Text → Text → PathMap → Option Text × PathMap
unfolding lookup put
insert key path map = (lookup key map, put key path map)

-- The bytes that one operation adds to the aggregate, or its refusal.
unfoldable pub add_content : ℕ → PatchOperation → PatchMutation → Result ProposalError ℕ
add_content aggregate operation delete = ok aggregate
add_content aggregate operation (write content_utf8) = do
  refuse_if (ltb max_content_bytes (length content_utf8)) (content_too_large operation.path)
  total ← ok_or (checked_add aggregate (length content_utf8)) (aggregate_content_too_large u64_max)
  refuse_if (ltb max_aggregate_content_bytes total) (aggregate_content_too_large total)
  ok total

unfoldable pub deletes_absent : PatchMutation → Preimage → Bool
deletes_absent delete absent = true
deletes_absent _ _ = false

-- What `paths.insert` returned.
unfoldable pub refuse_collision : Option Text → Text → Result ProposalError (Unit {0})
refuse_collision (some existing) path = err (path_collision existing path)
refuse_collision none path = ok tt

unfoldable pub validate_operations :
    Unicode → PathMap → ℕ → List PatchOperation → Result ProposalError PathMap
unfolding insert add_content deletes_absent refuse_collision
validate_operations u paths aggregate [] = ok paths
validate_operations u paths aggregate (operation ∷ operations) = do
  total ← add_content aggregate operation operation.mutation
  refuse_if (deletes_absent operation.mutation operation.preimage) (missing_preimage operation.path)
  let inserted = insert (collision_key u operation.path) operation.path paths
  refuse_collision inserted.0 operation.path
  validate_operations u inserted.1 total operations

-- The inner loop: `left` against every later key.
unfoldable pub conflicts_with : Text → Text → PathMap → Result ProposalError (Unit {0})
conflicts_with left_key left [] = ok tt
conflicts_with left_key left ((right_key, right) ∷ rest) = do
  refuse_if (contains_path left_key right_key || contains_path right_key left_key)
      (path_conflict left right)
  conflicts_with left_key left rest

unfoldable pub validate_conflicts : PathMap → Result ProposalError (Unit {0})
unfolding conflicts_with
validate_conflicts [] = ok tt
validate_conflicts ((left_key, left) ∷ rest) = do
  conflicts_with left_key left rest
  validate_conflicts rest

unfoldable pub validate : Unicode → PatchProposal → Result ProposalError (Unit {0})
unfolding adjacent_equal validate_operations validate_conflicts
validate u proposal = do
  refuse_if (not (proposal.schema_version == patch_proposal_schema_version))
      (unsupported_schema proposal.schema_version)
  refuse_if (is_empty proposal.operations || ltb max_patch_operations (length proposal.operations))
      (invalid_operation_count (length proposal.operations))
  refuse_if (is_empty proposal.gate_ids) gate_required
  refuse_if (adjacent_equal (sort proposal.gate_ids)) duplicate_gate
  paths ← validate_operations u [] 0 proposal.operations
  validate_conflicts paths
