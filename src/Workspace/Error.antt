-- ===== src/Workspace/Error.antt =====
-- crates/bullet-git-workspace/src/lib.rs: `CapabilityError`. The texts of messages are left out;
-- paths, counts and bounds are kept. The errors of the content store, of generations, of
-- preservation, of the Git binary and of candidate manifests are known by their reason codes.
use bullet_git.Prelude.{ℕ, Text, codes}
use bullet_git.Types.Authority.{AuthorityError}
use bullet_git.Types.Proposal.Error
use bullet_git.Types.Proposal.Error.{ProposalError}
use bullet_git.Types.Lineage
use bullet_git.Types.Lineage.{LineageError}

pub data CapabilityError : Type 0 where
  unauthorized stale_authority : CapabilityError
  proposal_attempt_mismatch : Text → Text → CapabilityError
  candidate_subject_mismatch : Text → CapabilityError
  stale_checkpoint : CapabilityError
  stale_preimage out_of_scope path_absent duplicate_path : Text → CapabilityError
  invalid_operation_count : ℕ → ℕ → CapabilityError
  content_too_large : Text → ℕ → ℕ → CapabilityError
  aggregate_content_too_large : ℕ → ℕ → CapabilityError
  path_collision : Text → Text → CapabilityError
  symlink_forbidden worktree_forbidden wrong_repository : Text → CapabilityError
  wrong_branch : Text → Text → CapabilityError
  sequencer_active unclassified_untracked base_missing mirror_lock_timeout : Text → CapabilityError
  git journal hostile_git_config io types : CapabilityError
  content_store generation preservation git_binary candidate_manifest : Text → CapabilityError
  proposal : ProposalError → CapabilityError
  lineage : LineageError → CapabilityError

unfoldable pub reason_code : CapabilityError → Text
reason_code CapabilityError.unauthorized = codes "UNAUTHORIZED"
reason_code CapabilityError.stale_authority = codes "STALE_AUTHORITY"
reason_code (proposal_attempt_mismatch _ _) = codes "PROPOSAL_ATTEMPT_MISMATCH"
reason_code (candidate_subject_mismatch _) = codes "CANDIDATE_SUBJECT_MISMATCH"
reason_code stale_checkpoint = codes "STALE_CHECKPOINT"
reason_code (stale_preimage _) = codes "STALE_PREIMAGE"
reason_code (out_of_scope _) = codes "OUT_OF_SCOPE"
reason_code (path_absent _) = codes "PATH_ABSENT"
reason_code (duplicate_path _) = codes "DUPLICATE_PATH"
reason_code (invalid_operation_count _ _) = codes "INVALID_OPERATION_COUNT"
reason_code (content_too_large _ _ _) = codes "CONTENT_TOO_LARGE"
reason_code (aggregate_content_too_large _ _) = codes "AGGREGATE_CONTENT_TOO_LARGE"
reason_code (path_collision _ _) = codes "PATH_COLLISION"
reason_code (symlink_forbidden _) = codes "SYMLINK_FORBIDDEN"
reason_code (worktree_forbidden _) = codes "WORKTREE_FORBIDDEN"
reason_code (wrong_repository _) = codes "WRONG_REPOSITORY"
reason_code (wrong_branch _ _) = codes "WRONG_BRANCH"
reason_code (sequencer_active _) = codes "SEQUENCER_ACTIVE"
reason_code (unclassified_untracked _) = codes "UNCLASSIFIED_UNTRACKED"
reason_code (base_missing _) = codes "BASE_MISSING"
reason_code (mirror_lock_timeout _) = codes "MIRROR_LOCK_TIMEOUT"
reason_code git = codes "GIT_FAILED"
reason_code journal = codes "JOURNAL_FAILED"
reason_code hostile_git_config = codes "HOSTILE_GIT_CONFIG"
reason_code io = codes "IO_FAILED"
reason_code types = codes "INVALID_TYPES"
reason_code (content_store code) = code
reason_code (generation code) = code
reason_code (preservation code) = code
reason_code (git_binary code) = code
reason_code (candidate_manifest code) = code
reason_code (proposal e) = Error.reason_code e
reason_code (lineage e) = Lineage.reason_code e

-- `impl From<AuthorityError> for CapabilityError`
unfoldable pub from_authority : AuthorityError → CapabilityError
from_authority AuthorityError.unauthorized = CapabilityError.unauthorized
from_authority AuthorityError.stale_authority = CapabilityError.stale_authority
