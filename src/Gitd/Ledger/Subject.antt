-- ===== src/Gitd/Ledger/Subject.antt =====
-- crates/bullet-gitd/src/mutation_ledger.rs: operations, subjects, outcomes, results and refusals.
-- The texts of messages are left out.
pub mod Validity
use bullet_git.Prelude.{
  ℕ, ℕ_discrete, Bool, not, ◌&&◌, ◌||◌, Option, none, some, Text, codes, length, all, ltb, Eq, ◌==◌,
  nat_eq, text_eq, Result, ok, err, refuse_if, ◌>>=◌, ◌>>◌, strip_prefix, if◌then◌else◌,
}
use bullet_git.Types.Digest.{is_hex_byte}

abbrev pub schema_version : ℕ
schema_version = 1

abbrev pub max_safe_integer : ℕ
max_safe_integer = 9007199254740991

pub data MutationOperation : Type 0 where
  clone_workspace apply_patch checkpoint prepare_candidate : MutationOperation
  preserve_workspace cleanup_workspace : MutationOperation

unfoldable pub operation_discrete : Discrete MutationOperation
operation_discrete = hlevel

instance abbrev pub operation_eq : Eq MutationOperation
operation_eq = record { decide_eq = operation_discrete }

unfoldable pub as_str : MutationOperation → Text
as_str clone_workspace = codes "clone-workspace"
as_str apply_patch = codes "apply-patch"
as_str checkpoint = codes "checkpoint"
as_str prepare_candidate = codes "prepare-candidate"
as_str preserve_workspace = codes "preserve-workspace"
as_str cleanup_workspace = codes "cleanup-workspace"

pub record MutationSubject : Type 0 where
  pub authority_envelope_digest : Text
  pub authority_token_nonce : Text
  pub mutation_id : Text
  pub reservation_id : Text
  pub operation : MutationOperation
  pub request_digest : Text
  pub repository_id : Text
  pub workspace_id : Text
  pub workspace_generation : ℕ
  pub workspace_nonce : Text
  pub attempt_id : Text
  pub attempt_fence : ℕ
  pub authority_epoch : ℕ
  pub freeze_generation : ℕ
  pub permit_nonce : Text
  pub permit_digest : Text

unfoldable pub subject_discrete : Discrete MutationSubject
unfolding ℕ_discrete operation_discrete
subject_discrete = hlevel (ℕ_discrete, operation_discrete)

instance abbrev pub subject_eq : Eq MutationSubject
subject_eq = record { decide_eq = subject_discrete }

pub data MutationLedgerError : Type 0 where
  invalid_subject : MutationLedgerError
  replay_conflict : Text → MutationLedgerError
  outcome_unknown : MutationLedgerError
  io : MutationLedgerError

unfoldable pub reason_code : MutationLedgerError → Text
reason_code invalid_subject = codes "INVALID_MUTATION_SUBJECT"
reason_code (replay_conflict _) = codes "AUTHORITY_REPLAY_CONFLICT"
reason_code outcome_unknown = codes "MUTATION_OUTCOME_UNKNOWN"
reason_code io = codes "MUTATION_LEDGER_IO_FAILED"

unfoldable pub is_lower_hex : Text → Bool
is_lower_hex value = length value == 64 && all is_hex_byte value

unfoldable pub validate_id : Text → Text → Result MutationLedgerError (Unit {0})
unfolding is_lower_hex
validate_id value prefix = elim (strip_prefix prefix value) [
  | none ↦ err invalid_subject
  | some hex ↦ refuse_if (not (is_lower_hex hex)) invalid_subject
]

unfoldable pub validate_digest : Text → Result MutationLedgerError (Unit {0})
unfolding is_lower_hex
validate_digest value = if is_lower_hex value then ok tt else err invalid_subject

unfoldable pub validate_positive_generation : ℕ → Result MutationLedgerError (Unit {0})
validate_positive_generation value =
    refuse_if (value == 0 || ltb max_safe_integer value) invalid_subject

unfoldable pub validate : MutationSubject → Result MutationLedgerError (Unit {0})
validate s = do
  validate_digest s.authority_envelope_digest
  validate_digest s.authority_token_nonce
  validate_id s.mutation_id (codes "mut_")
  validate_id s.reservation_id (codes "rsv_")
  validate_digest s.request_digest
  validate_id s.repository_id (codes "rep_")
  validate_id s.workspace_id (codes "wsp_")
  validate_positive_generation s.workspace_generation
  validate_digest s.workspace_nonce
  validate_id s.attempt_id (codes "atm_")
  validate_positive_generation s.attempt_fence
  validate_positive_generation s.authority_epoch
  refuse_if (ltb max_safe_integer s.freeze_generation) invalid_subject
  validate_digest s.permit_nonce
  validate_digest s.permit_digest

pub data MutationOutcome : Type 0 where
  committed aborted unknown : MutationOutcome

unfoldable pub outcome_discrete : Discrete MutationOutcome
outcome_discrete = hlevel

instance abbrev pub outcome_eq : Eq MutationOutcome
outcome_eq = record { decide_eq = outcome_discrete }

pub record MutationResult : Type 0 where
  pub subject : MutationSubject
  pub outcome : MutationOutcome
  pub result_digest : Text
  pub completed_at_unix_ms : ℕ

unfoldable pub result_discrete : Discrete MutationResult
unfolding ℕ_discrete subject_discrete outcome_discrete
result_discrete = hlevel (ℕ_discrete, subject_discrete, outcome_discrete)

instance abbrev pub result_eq : Eq MutationResult
result_eq = record { decide_eq = result_discrete }

pub data ReplayDisposition : Type 0 where
  fresh : ReplayDisposition
  exact_replay : MutationResult → ReplayDisposition

unfoldable pub require_same_subject :
    MutationSubject → MutationSubject → Result MutationLedgerError (Unit {0})
require_same_subject requested stored =
    if requested == stored then ok tt else err (replay_conflict requested.mutation_id)
