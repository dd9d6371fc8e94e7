-- ===== src/Tests/RepositoryRuns.antt =====
-- Patch batches, and the repository in memory.
use bullet_git.Prelude.{
  is_empty, All, sort, insert_sorted, ℕ_discrete, text_discrete, ◌≤◌, ◌≡◌, ◌⊎◌, refl, false, List,
  [], ◌∷◌, Text, codes, length, ok, err, starts_with, split, join, to_ascii_lowercase, checked_add,
}
use bullet_git.Types.Proposal
use bullet_git.Types.Proposal.Apart.{ArePairwiseApart}
use bullet_git.Types.Proposal.Bounds.{IsWithinBounds, total_content, accepted_proposal_bounded}
use bullet_git.Types.Proposal.{
  PathMap, patch_proposal_schema_version, validate, adjacent_equal, validate_operations,
  validate_conflicts, conflicts_with, add_content, deletes_absent, insert, lookup, put,
  PatchProposal, PatchMutation, absent, max_patch_operations, max_aggregate_content_bytes,
}
use bullet_git.Types.RepoPath.{collision_key, ends_with, eq_ignore_ascii_case}
use bullet_git.Journal.{checkpoint}
use bullet_git.Workspace.Error.{CapabilityError}
use bullet_git.Workspace.Scope.{
  check, normalize_rel_path, push_segments, permits, prefix_covers, zip_all_equal,
}
use bullet_git.Workspace.Patch.{
  PatchHunk, PatchOp, validate_batch, admit_all, admit, add_contents, seen_before, portable_lookup,
  refuse_collision, is_delete,
}
use bullet_git.Workspace.Patch.Admission.{total_size, AreAdmitted, validate_batch-ok}
use bullet_git.Gitd.Memory.{MemoryRepository, Files, find, exists, apply_all, apply_change}
use bullet_git.Gitd.Memory.Files.{AreDistinct, after, find-apply_all}
use bullet_git.Gitd.Memory.Atomic.{apply_change_atomic}
use bullet_git.Tests.Instances.{hashing}
use bullet_git.Tests.Samples.{unicode}
use bullet_git.Tests.Basics.{decoder, expected, envelope, grant, journal}

-- A file of the grant is written, and one that exists is deleted.
abbrev patches : List PatchHunk
patches =
    record { path = codes "src/a"; op = PatchOp.write (codes "new") }
    ∷ record { path = codes "src/b"; op = PatchOp.delete }
    ∷ []

abbrev paths : List Text
paths = codes "src/a" ∷ codes "src/b" ∷ []

abbrev files : Files
files = (codes "src/b", codes "old") ∷ []

batch_admitted : validate_batch unicode grant patches (exists files) ≡ ok paths
unfolding validate_batch admit_all admit check normalize_rel_path push_segments permits
    prefix_covers zip_all_equal split join starts_with eq_ignore_ascii_case to_ascii_lowercase
    ends_with add_contents checked_add seen_before portable_lookup refuse_collision is_delete exists
    unicode text_discrete ℕ_discrete
batch_admitted = refl

validate_batch-ok_example :
    (1 ≤ length patches)
    × (length patches ≤ max_patch_operations)
    × (total_size patches ≤ max_aggregate_content_bytes)
    × AreAdmitted unicode grant (exists files) [] patches paths
validate_batch-ok_example =
    validate_batch-ok unicode grant (exists files) patches paths batch_admitted

find-apply_all_example :
    AreDistinct (apply_all hashing patches paths (files, journal)).0
    × ((q : Text)
        → find q (apply_all hashing patches paths (files, journal)).0
          ≡ after patches paths q (find q files))
unfolding find
find-apply_all_example = find-apply_all hashing patches paths (files, journal) (refl, tt)

abbrev repository : MemoryRepository
repository = record {
  files = files;
  journal = journal;
  expected = expected;
  grant = grant;
  base = codes "base";
  is_worktree = false;
  lineage = [];
}

distinct : AreDistinct repository.files
unfolding find
distinct = (refl, tt)

apply_change_atomic_example :
    let done = apply_change unicode hashing decoder repository envelope patches in
    ((e : CapabilityError) × (done ≡ (err e, repository)))
    ⊎ ((normalized : List Text) × (done.0 ≡ ok tt)
        × (false ≡ false)
        × AreAdmitted unicode grant (exists files) [] patches normalized
        × AreDistinct done.1.files
        × ((q : Text) → find q done.1.files ≡ after patches normalized q (find q files))
        × (done.1 ≡ record repository { files = done.1.files; journal = done.1.journal }))
apply_change_atomic_example =
    apply_change_atomic unicode hashing decoder repository envelope patches distinct

abbrev proposed : PatchProposal
proposed = record {
  schema_version = 1;
  proposal_id = codes "p";
  producing_attempt_id = codes "a";
  base_checkpoint_id = (checkpoint hashing journal).id;
  base_checkpoint_digest = (checkpoint hashing journal).digest;
  operations =
      record { path = codes "src/c"; preimage = absent; mutation = PatchMutation.write (codes "c") }
      ∷ [];
  gate_ids = codes "g" ∷ [];
}

proposed_valid : validate unicode proposed ≡ ok tt
unfolding validate adjacent_equal validate_operations validate_conflicts conflicts_with add_content
    deletes_absent insert lookup put Proposal.refuse_collision sort insert_sorted checked_add
    collision_key unicode text_discrete ℕ_discrete
proposed_valid = refl

accepted_proposal_bounded_example :
    (1 ≡ patch_proposal_schema_version)
    × (1 ≤ length proposed.operations)
    × (length proposed.operations ≤ max_patch_operations)
    × (is_empty proposed.gate_ids ≡ false)
    × (adjacent_equal (sort proposed.gate_ids) ≡ false)
    × All IsWithinBounds proposed.operations
    × (total_content proposed.operations ≤ max_aggregate_content_bytes)
    × ArePairwiseApart unicode proposed.operations
accepted_proposal_bounded_example = accepted_proposal_bounded unicode proposed proposed_valid
