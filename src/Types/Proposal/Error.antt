-- ===== src/Types/Proposal/Error.antt =====
-- crates/bullet-git-types/src/proposal.rs: the refusals of a proposal and their reason codes.
use bullet_git.Prelude.{ℕ, Text, codes}

pub data ProposalError : Type 0 where
  unsupported_schema : ℕ → ProposalError
  invalid_operation_count : ℕ → ProposalError
  gate_required duplicate_gate : ProposalError
  content_too_large : Text → ProposalError
  aggregate_content_too_large : ℕ → ProposalError
  missing_preimage : Text → ProposalError
  path_collision : Text → Text → ProposalError
  path_conflict : Text → Text → ProposalError
  invalid_repo_path : Text → ProposalError

unfoldable pub reason_code : ProposalError → Text
reason_code (unsupported_schema _) = codes "UNSUPPORTED_SCHEMA"
reason_code (invalid_operation_count _) = codes "INVALID_OPERATION_COUNT"
reason_code gate_required = codes "GATE_REQUIRED"
reason_code duplicate_gate = codes "DUPLICATE_GATE"
reason_code (content_too_large _) = codes "CONTENT_TOO_LARGE"
reason_code (aggregate_content_too_large _) = codes "AGGREGATE_CONTENT_TOO_LARGE"
reason_code (missing_preimage _) = codes "MISSING_PREIMAGE"
reason_code (path_collision _ _) = codes "PATH_COLLISION"
reason_code (path_conflict _ _) = codes "PATH_CONFLICT"
reason_code (invalid_repo_path _) = codes "INVALID_REPO_PATH"
