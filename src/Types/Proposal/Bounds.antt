-- ===== src/Types/Proposal/Bounds.antt =====
-- What an accepted proposal keeps to.
use bullet_git.Prelude.{
  ℕ, ◌+◌, ◌≤◌, ◌≡◌, false, List, [], ◌∷◌, All, length, is_empty, nat_eq, text_eq, ok, arith,
  checked_add, Result-cases, inl, inr, sort,
}
use bullet_git.Types.RepoPath.{Unicode, collision_key}
use bullet_git.Types.Proposal.{
  PatchProposal, PatchOperation, PatchMutation, write, delete, PathMap, max_patch_operations,
  max_content_bytes, max_aggregate_content_bytes, patch_proposal_schema_version, adjacent_equal,
  add_content, deletes_absent, insert, validate_operations, validate,
}
use bullet_git.Types.Proposal.Apart.{ArePairwiseApart, validated-ArePairwiseApart}

-- The bytes that a mutation writes.
unfoldable pub content_size : PatchMutation → ℕ
content_size (write content_utf8) = length content_utf8
content_size delete = 0

unfoldable pub total_content : List PatchOperation → ℕ
unfolding content_size
total_content [] = 0
total_content (operation ∷ operations) = content_size operation.mutation + total_content operations

abbrev pub IsWithinBounds : PatchOperation → Type 0
IsWithinBounds operation =
    (content_size operation.mutation ≤ max_content_bytes)
    × (deletes_absent operation.mutation operation.preimage ≡ false)

add_content-ok :
    (aggregate total : ℕ) (operation : PatchOperation) (mutation : PatchMutation)
    → aggregate ≤ max_aggregate_content_bytes
    → add_content aggregate operation mutation ≡ ok total
    → (total ≡ aggregate + content_size mutation)
      × (content_size mutation ≤ max_content_bytes)
      × (total ≤ max_aggregate_content_bytes)
unfolding add_content checked_add content_size
add_content-ok aggregate total operation (write content) within h = ground arith
add_content-ok aggregate total operation delete within h = ground arith

module _ (u : Unicode) where
  validate_operations-ok :
      (paths paths' : PathMap) (aggregate : ℕ) (operations : List PatchOperation)
      → aggregate ≤ max_aggregate_content_bytes
      → validate_operations u paths aggregate operations ≡ ok paths'
      → All IsWithinBounds operations
        × (aggregate + total_content operations ≤ max_aggregate_content_bytes)
  unfolding validate_operations total_content
  validate_operations-ok paths paths' aggregate [] within h = (tt, omega arith)
  validate_operations-ok paths paths' aggregate (operation ∷ operations) within h =
      elim (Result-cases (add_content aggregate operation operation.mutation)) [
        | inr (e, failed) ↦ absurd (ground arith)
        | inl (total, added) ↦
            let sizes = add_content-ok aggregate total operation operation.mutation within added in
            let next = (insert (collision_key u operation.path) operation.path paths).1 in
            let rest =
              validate_operations-ok next paths' total operations (sizes.2) (ground arith) in
            (((sizes.1, ground arith), rest.0), omega (arith, sizes, rest.1))
      ]

  some_operation :
      (operations : List PatchOperation) → is_empty operations ≡ false → 1 ≤ length operations
  some_operation [] h = cc
  some_operation (operation ∷ operations) h = omega arith

  -- A proposal that is accepted has schema version 1, between 1 and 128 operations, at least one gate,
  -- and no two equal neighbours among its sorted gates; a write has at most 1 MiB and all of them
  -- 32 MiB, no deletion claims that its path is absent, and the collision keys of any two of its
  -- operations differ, and neither key lies below the other.
  pub accepted_proposal_bounded :
      (proposal : PatchProposal)
      → validate u proposal ≡ ok tt
      → (proposal.schema_version ≡ patch_proposal_schema_version)
        × (1 ≤ length proposal.operations)
        × (length proposal.operations ≤ max_patch_operations)
        × (is_empty proposal.gate_ids ≡ false)
        × (adjacent_equal (sort proposal.gate_ids) ≡ false)
        × All IsWithinBounds proposal.operations
        × (total_content proposal.operations ≤ max_aggregate_content_bytes)
        × ArePairwiseApart u proposal.operations
  unfolding validate
  accepted_proposal_bounded proposal valid =
      elim (Result-cases (validate_operations u [] 0 proposal.operations)) [
        | inr (e, failed) ↦ absurd (ground arith)
        | inl (paths, validated) ↦
            let bounds =
              validate_operations-ok [] paths 0 proposal.operations (omega arith) validated in
            (
              ground arith,
              some_operation proposal.operations (ground arith),
              ground arith,
              ground arith,
              ground arith,
              bounds.0,
              omega (arith, bounds.1),
              (validated-ArePairwiseApart u [] paths 0 proposal.operations validated
                  (ground arith)).1,
            )
      ]
