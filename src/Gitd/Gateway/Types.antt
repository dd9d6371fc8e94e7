-- ===== src/Gitd/Gateway/Types.antt =====
-- crates/bullet-gitd/src/authority_gateway.rs and authority_gateway/support.rs: inputs, decisions,
-- permits and refusals, and the state of the gateway. JSON values are a parameter.
use bullet_git.Prelude.{ℕ, Bool, Option, List, Bytes, Text, codes, text_eq, Result}
use bullet_git.Types.Digest.{Digest}
use bullet_git.Gitd.Ledger.Subject
use bullet_git.Gitd.Ledger.Subject.{
  MutationOperation, MutationSubject, MutationOutcome, MutationResult, MutationLedgerError,
}
use bullet_git.Gitd.Ledger.Recovery.{Directory}
use bullet_git.Gitd.Ledger.Store.{MutationLedger, RootIo, ReserveIo, SettleIo}

-- What the gateway takes from `serde_json`: compact encoding, and the fields of an object.
pub record Json (Value : Type 0) : Type 0 where
  pub to_vec : Value → Option Bytes
  pub as_object : Value → Option (List (Text × Value))
  pub object : List (Text × Value) → Value

pub data GatewayError : Type 0 where
  contract_unavailable refused subject_mismatch permit_expired : GatewayError
  invalid_permit_window clock settlement_unknown : GatewayError
  ledger : MutationLedgerError → GatewayError

unfoldable pub reason_code : GatewayError → Text
reason_code contract_unavailable = codes "AUTHORITY_CONTRACT_UNAVAILABLE"
reason_code refused = codes "AUTHORITY_REFUSED"
reason_code subject_mismatch = codes "AUTHORITY_SUBJECT_MISMATCH"
reason_code permit_expired = codes "MUTATION_PERMIT_EXPIRED"
reason_code invalid_permit_window = codes "INVALID_MUTATION_PERMIT_WINDOW"
reason_code clock = codes "AUTHORITY_CLOCK_FAILED"
reason_code settlement_unknown = codes "MUTATION_OUTCOME_UNKNOWN"
reason_code (ledger error) = Subject.reason_code error

pub record FinalCheckInput (Value : Type 0) : Type 0 where
  pub operation : MutationOperation
  pub authority : Value
  pub params : Value
  pub transport_fingerprint : Digest

pub record VerifiedDecision : Type 0 where
  pub subject : MutationSubject
  pub operation : MutationOperation
  pub transport_fingerprint : Digest
  pub expires_at_unix_ms : ℕ

pub record FinalSettlementInput : Type 0 where
  pub subject : MutationSubject
  pub outcome : MutationOutcome
  pub result_digest : Text
  pub completed_at_unix_ms : ℕ
  pub settlement_fingerprint : Digest

pub record VerifiedSettlement : Type 0 where
  pub mutation_id : Text
  pub reservation_id : Text
  pub result_digest : Text
  pub settlement_fingerprint : Digest

pub record MutationPermit : Type 0 where
  pub subject : MutationSubject
  pub operation : MutationOperation
  pub transport_fingerprint : Digest
  pub expires_at_unix_ms : ℕ

pub record PendingMutation : Type 0 where
  pub subject : MutationSubject

unfoldable pub into_pending : MutationPermit → PendingMutation
into_pending permit = record { subject = permit.subject }

-- `ReceiptSubject` of crates/bullet-gitd/src/daemon.rs.
pub record ReceiptSubject : Type 0 where
  pub receipt_token : Text
  pub receipt_digest : Text
  pub attempt_id : Text
  pub attempt_fence : ℕ
  pub workspace_nonce : Bytes
  pub repository_id : Text
  pub workspace_id : Text
  pub workspace_generation : ℕ

pub data ReceiptAuthorization : Type 0 where
  fresh : MutationPermit → ReceiptAuthorization
  replay : MutationResult → ReceiptAuthorization

pub data SettlementPath : Type 0 where
  kernel receipt_local : SettlementPath

-- The gateway, with what stands on disk at `.bullet-mutation-ledger` below the attached root: no
-- root is attached, the directory is not there, or it holds these entries.
pub record AuthorityGateway : Type 0 where
  pub ledger : Option MutationLedger
  pub ledger_root : Option (Option Directory)

-- Every answer from outside during one call: `symlink_metadata` on the ledger's directory, the
-- opening of the directory, the final check, the clock, the file system, and for a settlement the
-- clock again, the acknowledgment and the append; last the reservation that an abort repeats.
pub record Outside (Value : Type 0) : Type 0 where
  pub inspects : Bool
  pub root : RootIo
  pub check : FinalCheckInput Value → Result GatewayError VerifiedDecision
  pub now : Result GatewayError ℕ
  pub reserve : ReserveIo
  pub settle_now : Result GatewayError ℕ
  pub acknowledge : FinalSettlementInput → Result GatewayError VerifiedSettlement
  pub settle : SettleIo
  pub reserve_again : ReserveIo
