-- ===== src/Gitd/Gateway/Operations.antt =====
-- crates/bullet-gitd/src/authority_gateway/gateway.rs: authorizing, consuming and settling. A method
-- on `&mut self` is an action on the gateway's state; `o` holds the answers from outside.
pub mod Decisions
pub mod Permits
use bullet_git.Prelude.{
  ℕ, ◌+◌, ◌-◌, Bool, true, false, not, ◌||◌, Option, none, some, List, [], ◌∷◌, ◌++◌, Bytes, Text,
  codes, ltb, leb, ◌==◌, nat_eq, text_eq, if◌then◌else◌, Result, ok, err, ok_or, map_err, refuse_if,
  checked_add, to_string, and_then,
}
use bullet_git.Prelude.Exec.{Exec, pure, raise, lift, ◌>>=◌, ◌>>◌}
use bullet_git.Types.Digest.{
  Hashing, Digest, TypesError, digest_of, framed_digest, to_hex, from_hex,
}
use bullet_git.Gitd.Ledger.Subject.{
  MutationOperation, cleanup_workspace, operation_eq, as_str, MutationSubject, MutationOutcome,
  aborted, ReplayDisposition, exact_replay, MutationLedgerError,
}
use bullet_git.Gitd.Ledger.Subject
use bullet_git.Gitd.Ledger.Record.{EventCodec}
use bullet_git.Gitd.Ledger.Recovery.{Directory, require_writable}
use bullet_git.Gitd.Ledger.Store
use bullet_git.Gitd.Ledger.Store.{MutationLedger, open_ledger, RootIo, ReserveIo}
use bullet_git.Gitd.Gateway.Types.{
  Json, GatewayError, contract_unavailable, refused, subject_mismatch, permit_expired,
  invalid_permit_window, clock, settlement_unknown, ledger, reason_code, FinalCheckInput,
  VerifiedDecision, FinalSettlementInput, VerifiedSettlement, MutationPermit, PendingMutation,
  into_pending, ReceiptSubject, ReceiptAuthorization, replay, SettlementPath, kernel, receipt_local,
  AuthorityGateway, Outside,
}
use bullet_git.Gitd.Gateway.Fingerprint.{
  authority_without_permit, transport_fingerprint, settlement_fingerprint,
}

abbrev pub max_mutation_permit_ttl_ms : ℕ
max_mutation_permit_ttl_ms = 1000

abbrev pub receipt_authority_epoch : ℕ
receipt_authority_epoch = 1

abbrev pub Gated : Type 0 → Type 0
Gated A = Exec GatewayError AuthorityGateway A

abbrev pub is_kernel : SettlementPath → Bool
is_kernel kernel = true
is_kernel receipt_local = false

-- The refusal that the permit's window calls for at a reading of the clock.
unfoldable pub window_refusal : Result GatewayError ℕ → ℕ → Option GatewayError
window_refusal (err error) expires = some error
window_refusal (ok now) expires =
    if leb expires now
    then some permit_expired
    else if ltb max_mutation_permit_ttl_ms (expires - now)
    then some invalid_permit_window
    else none

-- `attach_ledger_root`: the directory that stands below the root is what is there.
unfoldable pub attach_ledger_root : Option Directory → AuthorityGateway → AuthorityGateway
attach_ledger_root existing g = record g { ledger_root = some existing }

unfoldable pub gateway_kernel : AuthorityGateway
gateway_kernel = record { ledger = none; ledger_root = none }

-- The bindings that `authorize` demands of a decision.
unfoldable pub binds_request : Hashing → VerifiedDecision → MutationOperation → Digest → Bool
binds_request h decision operation fingerprint = not (
    not (decision.operation == operation)
    || not (decision.subject.operation == operation)
    || not (decision.transport_fingerprint == fingerprint)
    || not (decision.subject.request_digest == to_hex h fingerprint))

unfoldable pub binds_writer : Hashing → VerifiedDecision → Text → ℕ → Bytes → Bool
binds_writer h decision attempt fence nonce = not (
    not (decision.subject.attempt_id == attempt)
    || not (decision.subject.attempt_fence == fence)
    || not (decision.subject.workspace_nonce == h.hex_encode nonce))

module _ (codec : EventCodec) where
  unfoldable pub open_at : RootIo → Option Directory → Result GatewayError MutationLedger
  open_at answer none = map_err ledger (open_ledger codec answer [])
  open_at answer (some dir) = map_err ledger (open_ledger codec answer dir)

  -- `open_ledger`: the ledger of the gateway, opened if it is not.
  unfoldable pub open_gateway_ledger : RootIo → Gated MutationLedger
  unfolding open_at
  open_gateway_ledger answer g = elim g.ledger [
    | some l ↦ (ok l, g)
    | none ↦ elim g.ledger_root [
      | none ↦ (err contract_unavailable, g)
      | some dir ↦ elim (open_at answer dir) [
        | err e ↦ (err e, g)
        | ok l ↦ (ok l, record g { ledger = some l })
      ]
    ]
  ]

  -- The first half of `recover_existing_ledger`.
  unfoldable pub open_existing : Bool → RootIo → Gated (Unit {0})
  unfolding open_at
  open_existing inspects answer g = elim g.ledger [
    | some l ↦ (ok tt, g)
    | none ↦ elim g.ledger_root [
      | none ↦ (ok tt, g)
      | some existing ↦
          if not inspects then (err (ledger MutationLedgerError.io), g) else elim existing [
            | none ↦ (ok tt, g)
            | some dir ↦ elim (open_at answer (some dir)) [
              | err e ↦ (err e, g)
              | ok l ↦ (ok tt, record g { ledger = some l })
            ]
          ]
    ]
  ]

  unfoldable pub require_ledger_writable : Gated (Unit {0})
  require_ledger_writable g = elim g.ledger [
    | none ↦ (ok tt, g)
    | some l ↦ (map_err ledger (require_writable l.recovery), g)
  ]

  unfoldable pub recover_existing_ledger : Bool → RootIo → Gated (Unit {0})
  unfolding open_existing require_ledger_writable
  recover_existing_ledger inspects answer = do
    open_existing inspects answer
    require_ledger_writable

  -- `ledger.reserve` on the ledger that the gateway holds.
  unfoldable pub reserve_in : MutationLedger → MutationSubject → ReserveIo → Gated ReplayDisposition
  reserve_in l subject disk g =
      let (answer, l') = Store.reserve codec l subject disk in
      (map_err ledger answer, record g { ledger = some l' })

  unfoldable pub open_and_reserve : RootIo → MutationSubject → ReserveIo → Gated ReplayDisposition
  unfolding open_gateway_ledger reserve_in
  open_and_reserve answer subject disk = do
    l ← open_gateway_ledger answer
    reserve_in l subject disk

  -- `ledger.settle` of the gateway's ledger; every error is an unknown outcome.
  unfoldable pub settle_in :
      MutationSubject → MutationOutcome → Text → ℕ → Store.SettleIo → Gated (Unit {0})
  settle_in subject outcome digest completed_at disk g = elim g.ledger [
    | none ↦ (err settlement_unknown, g)
    | some l ↦
        let (answer, l') = Store.settle codec l subject outcome digest completed_at disk in
        (
          elim answer [ ok _ ↦ ok tt | err _ ↦ err settlement_unknown ],
          record g { ledger = some l' },
        )
  ]

  -- `let _ = ledger.reserve(&subject)` after a failed abort.
  unfoldable pub reserve_again : MutationSubject → ReserveIo → AuthorityGateway → AuthorityGateway
  reserve_again subject disk g = elim g.ledger [
    | none ↦ g
    | some l ↦ record g { ledger = some (Store.reserve codec l subject disk).1 }
  ]

module _ (h : Hashing) where
  -- `acknowledge_online`
  unfoldable pub acknowledge_online :
      (FinalSettlementInput → Result GatewayError VerifiedSettlement)
      → MutationSubject
      → MutationOutcome
      → Text
      → ℕ
      → Result GatewayError (Unit {0})
  acknowledge_online acknowledge subject outcome digest completed_at =
      let fingerprint = settlement_fingerprint h subject outcome digest completed_at in
      let input : FinalSettlementInput = record {
        subject = subject;
        outcome = outcome;
        result_digest = digest;
        completed_at_unix_ms = completed_at;
        settlement_fingerprint = fingerprint;
      } in
      elim (acknowledge input) [
        | err _ ↦ err settlement_unknown
        | ok a ↦
            refuse_if
              (not (a.mutation_id == subject.mutation_id)
                || not (a.reservation_id == subject.reservation_id)
                || not (a.result_digest == digest)
                || not (a.settlement_fingerprint == fingerprint))
              settlement_unknown
      ]

  -- `Digest::from_hex` and the comparison with its own hexadecimal form.
  unfoldable pub require_canonical_digest : Text → Result GatewayError (Unit {0})
  require_canonical_digest digest = elim (from_hex h digest) [
    | err _ ↦ err settlement_unknown
    | ok parsed ↦ refuse_if (not (to_hex h parsed == digest)) settlement_unknown
  ]

  -- The subject of a receipt-gated cleanup.
  unfoldable pub derive : ReceiptSubject → Text → Text
  derive receipt domain = to_hex h (
      framed_digest h (
        domain
        ∷ receipt.receipt_digest
        ∷ as_str cleanup_workspace
        ∷ receipt.attempt_id
        ∷ to_string receipt.attempt_fence
        ∷ h.hex_encode receipt.workspace_nonce
        ∷ []))

  unfoldable pub receipt_mutation_subject : ReceiptSubject → Digest → MutationSubject
  unfolding derive
  receipt_mutation_subject receipt fingerprint = record {
    authority_envelope_digest = to_hex h (digest_of h receipt.receipt_token);
    authority_token_nonce = receipt.receipt_digest;
    mutation_id = codes "mut_" ++ derive receipt (codes "bullet-gitd.receipt-mutation-id.v1");
    reservation_id = codes "rsv_" ++ derive receipt (codes "bullet-gitd.receipt-reservation-id.v1");
    operation = cleanup_workspace;
    request_digest = to_hex h fingerprint;
    repository_id = receipt.repository_id;
    workspace_id = receipt.workspace_id;
    workspace_generation = receipt.workspace_generation;
    workspace_nonce = h.hex_encode receipt.workspace_nonce;
    attempt_id = receipt.attempt_id;
    attempt_fence = receipt.attempt_fence;
    authority_epoch = receipt_authority_epoch;
    freeze_generation = 0;
    permit_nonce = derive receipt (codes "bullet-gitd.receipt-permit-nonce.v1");
    permit_digest = derive receipt (codes "bullet-gitd.receipt-permit-digest.v1");
  }

  unfoldable pub abort_digest : MutationOperation → GatewayError → Text
  abort_digest operation refusal = to_hex h (
      framed_digest h
        (codes "bullet-gitd.pre-repository-abort.v1" ∷ as_str operation ∷ reason_code refusal ∷ []))

module _ (Value : Type 0) (json : Json Value) (h : Hashing) (codec : EventCodec) where
  unfoldable pub settle_through :
      Outside Value → PendingMutation → MutationOutcome → Text → SettlementPath → Gated (Unit {0})
  unfolding settle_in acknowledge_online require_canonical_digest
  settle_through o pending outcome digest path = do
    completed_at ← lift (map_err (λ _. settlement_unknown) o.settle_now)
    lift (require_canonical_digest h digest)
    lift (
        if is_kernel path
        then acknowledge_online h o.acknowledge pending.subject outcome digest completed_at
        else ok tt)
    settle_in codec pending.subject outcome digest completed_at o.settle

  -- The error that `abort_before_repository` returns, and the gateway that it leaves.
  unfoldable pub abort_before_repository :
      {A : Type 0} → Outside Value → PendingMutation → GatewayError → SettlementPath → Gated A
  unfolding settle_through abort_digest reserve_again
  abort_before_repository o pending refusal path g =
      let settled =
        settle_through o pending aborted (abort_digest h pending.subject.operation refusal) path
          g in
      elim settled.0 [
        | ok _ ↦ (err refusal, settled.1)
        | err failure ↦ (err failure, reserve_again codec pending.subject o.reserve_again settled.1)
      ]

  unfoldable pub validate_immediately_before_repository :
      MutationPermit → MutationOperation → Value → Value → ℕ → Result GatewayError (Unit {0})
  validate_immediately_before_repository permit operation authority params now =
      elim (transport_fingerprint Value json h operation
        (authority_without_permit Value json authority) params) [
          | err e ↦ err e
          | ok actual ↦
              if not (permit.operation == operation) || not (permit.transport_fingerprint == actual)
              then err subject_mismatch
              else refuse_if (leb permit.expires_at_unix_ms now) permit_expired
        ]

  unfoldable pub consume_through :
      Outside Value
      → MutationPermit
      → MutationOperation
      → Value
      → Value
      → SettlementPath
      → Gated PendingMutation
  unfolding validate_immediately_before_repository abort_before_repository into_pending
  consume_through o permit operation authority params path =
      elim (and_then o.now
        (validate_immediately_before_repository permit operation authority params)) [
          | ok _ ↦ pure (into_pending permit)
          | err refusal ↦ abort_before_repository o (into_pending permit) refusal path
        ]

  unfoldable pub consume :
      Outside Value → MutationPermit → MutationOperation → Value → Value → Gated PendingMutation
  unfolding consume_through
  consume o permit operation authority params =
      consume_through o permit operation authority params kernel

  unfoldable pub consume_by_preservation_receipt :
      Outside Value → MutationPermit → Value → Value → Gated PendingMutation
  unfolding consume_through
  consume_by_preservation_receipt o permit authority params =
      consume_through o permit cleanup_workspace authority params receipt_local

  unfoldable pub settle :
      Outside Value → PendingMutation → MutationOutcome → Text → Gated (Unit {0})
  unfolding settle_through
  settle o pending outcome digest = settle_through o pending outcome digest kernel

  unfoldable pub settle_locally :
      Outside Value → PendingMutation → MutationOutcome → Text → Gated (Unit {0})
  unfolding settle_through
  settle_locally o pending outcome digest = settle_through o pending outcome digest receipt_local

  -- The two tests of a decision.
  unfoldable pub require_bindings :
      VerifiedDecision
      → MutationOperation
      → Digest
      → Text
      → ℕ
      → Bytes
      → Result GatewayError (Unit {0})
  unfolding binds_request binds_writer
  require_bindings decision operation fingerprint attempt fence nonce =
      if not (binds_request h decision operation fingerprint)
      then err subject_mismatch
      else refuse_if (not (binds_writer h decision attempt fence nonce)) subject_mismatch

  -- What `authorize` makes of the reservation.
  unfoldable pub permit_of :
      VerifiedDecision
      → MutationOperation
      → Digest
      → ReplayDisposition
      → Result GatewayError MutationPermit
  permit_of decision operation fingerprint ReplayDisposition.fresh = ok (record {
    subject = decision.subject;
    operation = operation;
    transport_fingerprint = fingerprint;
    expires_at_unix_ms = decision.expires_at_unix_ms;
  })
  permit_of decision operation fingerprint (exact_replay _) = err refused

  unfoldable pub refuse_window :
      Outside Value → Option GatewayError → MutationPermit → Gated MutationPermit
  unfolding abort_before_repository into_pending
  refuse_window o none permit = pure permit
  refuse_window o (some refusal) permit =
      abort_before_repository o (into_pending permit) refusal kernel

  -- The half of `authorize` behind the final check.
  unfoldable pub issue_permit :
      Outside Value
      → VerifiedDecision
      → MutationOperation
      → Digest
      → Text
      → ℕ
      → Bytes
      → Gated MutationPermit
  unfolding require_bindings open_and_reserve permit_of refuse_window window_refusal
  issue_permit o decision operation fingerprint attempt fence nonce = do
    lift (require_bindings decision operation fingerprint attempt fence nonce)
    disposition ← open_and_reserve codec o.root decision.subject o.reserve
    permit ← lift (permit_of decision operation fingerprint disposition)
    refuse_window o (window_refusal o.now decision.expires_at_unix_ms) permit

  unfoldable pub authorize :
      Outside Value → MutationOperation → Value → Value → Text → ℕ → Bytes → Gated MutationPermit
  unfolding recover_existing_ledger issue_permit
  authorize o operation authority params attempt fence nonce = do
    recover_existing_ledger codec o.inspects o.root
    fingerprint ← lift (
        transport_fingerprint Value json h operation (authority_without_permit Value json authority)
          params)
    decision ← lift (
        o.check (record {
          operation = operation;
          authority = authority;
          params = params;
          transport_fingerprint = fingerprint;
        }))
    issue_permit o decision operation fingerprint attempt fence nonce

  -- What `authorize_by_preservation_receipt` makes of the reservation.
  unfoldable pub receipt_authorization :
      MutationSubject → Digest → ℕ → ReplayDisposition → ReceiptAuthorization
  receipt_authorization subject fingerprint expires ReplayDisposition.fresh =
      ReceiptAuthorization.fresh (record {
        subject = subject;
        operation = cleanup_workspace;
        transport_fingerprint = fingerprint;
        expires_at_unix_ms = expires;
      })
  receipt_authorization subject fingerprint expires (exact_replay result) = replay result

  unfoldable pub authorize_by_preservation_receipt :
      Outside Value → Value → Value → ReceiptSubject → Gated ReceiptAuthorization
  unfolding recover_existing_ledger receipt_mutation_subject open_and_reserve receipt_authorization
  authorize_by_preservation_receipt o authority params receipt = do
    recover_existing_ledger codec o.inspects o.root
    fingerprint ← lift (
        transport_fingerprint Value json h cleanup_workspace
          (authority_without_permit Value json authority) params)
    now ← lift o.now
    expires ← lift (ok_or (checked_add now max_mutation_permit_ttl_ms) clock)
    let subject = receipt_mutation_subject h receipt fingerprint
    disposition ← open_and_reserve codec o.root subject o.reserve
    pure (receipt_authorization subject fingerprint expires disposition)
