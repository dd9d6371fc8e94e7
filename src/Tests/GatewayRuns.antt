-- ===== src/Tests/GatewayRuns.antt =====
-- The authority gateway on an empty directory.
use bullet_git.Prelude.{
  ℕ, ℕ_discrete, text_discrete, ◌+◌, ◌≤◌, ◌<◌, ◌≡◌, ◌⊎◌, refl, ap, map_err, true, some, [], ◌∷◌,
  ◌++◌, Bytes, codes, ok, err, arith, ==_refl, text_eq,
}
use bullet_git.Types.Digest.{
  Digest, is_digest, is_hex_byte, digest_of, frame, frame_all, framed_digest, to_le_bytes, to_hex,
  from_hex,
}
use bullet_git.Gitd.Ledger.Subject.{
  is_lower_hex, MutationOperation, apply_patch, checkpoint, MutationSubject, MutationOutcome,
  committed, ReplayDisposition, outcome_unknown, validate, validate_id, validate_digest,
  validate_positive_generation, operation_discrete, subject_discrete, outcome_discrete,
}
use bullet_git.Gitd.Ledger.Subject
use bullet_git.Gitd.Ledger.Subject.Validity.{IsValidSubject}
use bullet_git.Gitd.Ledger.Recovery.{is_frozen, require_writable, lookup, record_name}
use bullet_git.Gitd.Ledger.Store
use bullet_git.Gitd.Ledger.Store.{
  MutationLedger, RootIo, smooth, smooth_settle, reserve_new, put, insert, append_event,
}
use bullet_git.Gitd.Ledger.Store.Replay.{with_reservation, settle-with_settlement, owns-insert}
use bullet_git.Gitd.Ledger.Record.{file}
use bullet_git.Gitd.Gateway.Types.{
  settlement_unknown, ledger, VerifiedDecision, VerifiedSettlement, MutationPermit, PendingMutation,
  ReceiptSubject, kernel, AuthorityGateway, Outside,
}
use bullet_git.Gitd.Gateway.Fingerprint.{
  authority_without_permit, transport_fingerprint, settlement_fingerprint,
}
use bullet_git.Gitd.Gateway.Operations.{
  max_mutation_permit_ttl_ms, authorize, recover_existing_ledger, open_existing,
  require_ledger_writable, issue_permit, require_bindings, binds_request, binds_writer,
  open_and_reserve, open_gateway_ledger, reserve_in, settle_through, require_canonical_digest,
  acknowledge_online, settle_in, receipt_mutation_subject,
}
use bullet_git.Gitd.Gateway.Operations.Permits.{permit_binds_request}
use bullet_git.Gitd.Gateway.Operations.Decisions.{
  settlement_fails_unknown, settlement_is_acknowledged, IsCheckedReceipt,
  receipt_mutation_subject-IsValidSubject,
}
use bullet_git.Tests.LedgerRuns.{empty_reserves, empty_writable}
use bullet_git.Tests.Instances.{hashing, hashing_laws, repeat}
use bullet_git.Tests.Samples.{
  codec_laws, encode_reserved, encode_settled, subject_valid, zeros_valid, result, json, subject,
  zeros, request, codec, empty_ledger,
}

abbrev decision : VerifiedDecision
decision = record {
  subject = subject;
  operation = apply_patch;
  transport_fingerprint = request;
  expires_at_unix_ms = 1500;
}

-- A kernel that acknowledges what it is sent, and one file system that does its part.
abbrev pub outside : Outside Bytes
outside = record {
  inspects = true;
  root = RootIo.listed;
  check = λ input. ok decision;
  now = ok 1000;
  reserve = smooth;
  settle_now = ok 1000;
  acknowledge = λ input. ok (record {
    mutation_id = input.subject.mutation_id;
    reservation_id = input.subject.reservation_id;
    result_digest = input.result_digest;
    settlement_fingerprint = input.settlement_fingerprint;
  });
  settle = smooth_settle;
  reserve_again = smooth;
}

abbrev gateway : AuthorityGateway
gateway = record { ledger = some empty_ledger; ledger_root = some (some []) }

abbrev nonce : Bytes
nonce = repeat 32 0

abbrev permit : MutationPermit
permit = record {
  subject = subject;
  operation = apply_patch;
  transport_fingerprint = request;
  expires_at_unix_ms = 1500;
}

fingerprint_made :
    transport_fingerprint Bytes json hashing apply_patch
      (authority_without_permit Bytes json (codes "a"))
      (codes "p")
    ≡ ok request
unfolding transport_fingerprint authority_without_permit json hashing framed_digest digest_of
    frame_all frame to_le_bytes Subject.as_str
fingerprint_made = refl

recovers : recover_existing_ledger codec true RootIo.listed gateway ≡ (ok tt, gateway)
unfolding recover_existing_ledger open_existing require_ledger_writable require_writable is_frozen
    ℕ_discrete
recovers = refl

binds :
    require_bindings Bytes json hashing codec decision apply_patch request
      (codes "atm_" ++ zeros)
      7
      nonce
    ≡ ok tt
unfolding require_bindings binds_request binds_writer operation_discrete to_hex hashing
    text_discrete ℕ_discrete
binds = refl

reserves :
    (open_and_reserve codec RootIo.listed subject smooth gateway).0 ≡ ok ReplayDisposition.fresh
unfolding open_and_reserve open_gateway_ledger reserve_in
reserves = ap (λ x. map_err ledger (x.0)) empty_reserves

issues :
    (authorize Bytes json hashing codec outside apply_patch
      (codes "a")
      (codes "p")
      (codes "atm_" ++ zeros)
      7
      nonce
      gateway).0
    ≡ ok permit
unfolding authorize issue_permit
issues = ground (arith, fingerprint_made, recovers, binds, reserves)

permit_binds_request_example :
    (fingerprint : Digest) × (d : VerifiedDecision) × (now : ℕ) × (transport_fingerprint Bytes json
        hashing apply_patch
        (authority_without_permit Bytes json (codes "a"))
        (codes "p")
      ≡ ok fingerprint)
    × (outside.check (record {
      operation = apply_patch;
      authority = codes "a";
      params = codes "p";
      transport_fingerprint = fingerprint;
    })
        ≡ ok d)
    × (permit.subject ≡ d.subject)
    × (permit.operation ≡ apply_patch)
    × (permit.transport_fingerprint ≡ fingerprint)
    × (permit.subject.operation ≡ apply_patch)
    × (permit.subject.request_digest ≡ to_hex hashing fingerprint)
    × (permit.subject.attempt_id ≡ codes "atm_" ++ zeros)
    × (permit.subject.attempt_fence ≡ 7)
    × (permit.subject.workspace_nonce ≡ hashing.hex_encode nonce)
    × (outside.now ≡ ok now)
    × (now < permit.expires_at_unix_ms)
    × (permit.expires_at_unix_ms ≤ now + max_mutation_permit_ttl_ms)
    × ((open_and_reserve codec RootIo.listed permit.subject smooth
          (recover_existing_ledger codec true RootIo.listed gateway).1).0
        ≡ ok ReplayDisposition.fresh)
permit_binds_request_example =
    permit_binds_request Bytes json hashing codec outside gateway apply_patch (codes "a")
      (codes "p") (codes "atm_" ++ zeros) 7 nonce permit issues

abbrev pending : PendingMutation
pending = record { subject = subject }

abbrev reserved_gateway : AuthorityGateway
reserved_gateway = record {
  ledger = some (with_reservation codec codec_laws empty_ledger subject (b'r' ∷ []));
  ledger_root = some (some []);
}

settlement_fails_unknown_example :
    ((settle_through Bytes json hashing codec outside pending committed
        (codes "?")
        kernel
        reserved_gateway).0
      ≡ ok tt)
    ⊎ ((settle_through Bytes json hashing codec outside pending committed
          (codes "?")
          kernel
          reserved_gateway).0
        ≡ err settlement_unknown)
settlement_fails_unknown_example =
    settlement_fails_unknown Bytes json hashing codec outside pending committed (codes "?") kernel
      reserved_gateway

found :
    lookup
      (record_name subject)
      (with_reservation codec codec_laws empty_ledger subject (b'r' ∷ [])).root
    ≡ some (file (b'r' ∷ 10 ∷ []))
unfolding lookup put record_name text_discrete ℕ_discrete
found = refl

settles :
    (Store.settle codec
      (with_reservation codec codec_laws empty_ledger subject (b'r' ∷ []))
      subject
      committed
      zeros
      1000
      smooth_settle).0
    ≡ ok ReplayDisposition.fresh
settles =
    ap (λ x. x.0)
      (settle-with_settlement codec codec_laws
        (with_reservation codec codec_laws empty_ledger subject (b'r' ∷ [])) result (b'r' ∷ [])
        (b's' ∷ []) empty_writable subject_valid zeros_valid (omega arith) (λ h. cc)
        (owns-insert subject.mutation_id []) found encode_reserved encode_settled)

canonical : require_canonical_digest hashing zeros ≡ ok tt
unfolding require_canonical_digest from_hex to_hex hashing is_hex_byte text_discrete ℕ_discrete
canonical = refl

acknowledges : acknowledge_online hashing outside.acknowledge subject committed zeros 1000 ≡ ok tt
unfolding acknowledge_online
acknowledges = ground (
  arith,
  ==_refl subject.mutation_id,
  ==_refl subject.reservation_id,
  ==_refl zeros,
  ==_refl (settlement_fingerprint hashing subject committed zeros 1000),
)

settle_answers :
    (settle_through Bytes json hashing codec outside pending committed zeros kernel
      reserved_gateway).0
    ≡ ok tt
unfolding settle_through settle_in
settle_answers = ground (arith, canonical, acknowledges, settles)

settlement_is_acknowledged_example :
    (completed_at : ℕ) × (a : VerifiedSettlement) × (l : MutationLedger)
    × (disposition : ReplayDisposition) × (outside.settle_now ≡ ok completed_at)
    × ((is_lower_hex zeros ≡ true)
        × (d : Digest) × (from_hex hashing zeros ≡ ok d)
        × (to_hex hashing d ≡ zeros))
    × (outside.acknowledge (record {
      subject = subject;
      outcome = committed;
      result_digest = zeros;
      completed_at_unix_ms = completed_at;
      settlement_fingerprint = settlement_fingerprint hashing subject committed zeros completed_at;
    })
        ≡ ok a)
    × (a.mutation_id ≡ subject.mutation_id)
    × (a.reservation_id ≡ subject.reservation_id)
    × (a.result_digest ≡ zeros)
    × (a.settlement_fingerprint
        ≡ settlement_fingerprint hashing subject committed zeros completed_at)
    × (reserved_gateway.ledger ≡ some l)
    × ((Store.settle codec l subject committed zeros completed_at smooth_settle).0 ≡ ok disposition)
settlement_is_acknowledged_example =
    settlement_is_acknowledged Bytes json hashing codec outside pending committed zeros
      reserved_gateway settle_answers

abbrev receipt : ReceiptSubject
receipt = record {
  receipt_token = codes "r";
  receipt_digest = zeros;
  attempt_id = codes "atm_" ++ zeros;
  attempt_fence = 7;
  workspace_nonce = nonce;
  repository_id = codes "rep_" ++ zeros;
  workspace_id = codes "wsp_" ++ zeros;
  workspace_generation = 1;
}

zeros_hex : Subject.is_lower_hex zeros ≡ true
unfolding Subject.is_lower_hex is_hex_byte ℕ_discrete
zeros_hex = refl

nonce_digest : is_digest nonce ≡ true
unfolding is_digest ℕ_discrete
nonce_digest = refl

receipt_checked : IsCheckedReceipt receipt
receipt_checked = record {
  digest = zeros_hex;
  attempt = (zeros, refl, zeros_hex);
  fence = (omega arith, omega arith);
  nonce = nonce_digest;
  repository = (zeros, refl, zeros_hex);
  workspace = (zeros, refl, zeros_hex);
  generation = (omega arith, omega arith);
}

receipt_mutation_subject-IsValidSubject_example :
    IsValidSubject (receipt_mutation_subject hashing receipt nonce)
receipt_mutation_subject-IsValidSubject_example =
    receipt_mutation_subject-IsValidSubject hashing hashing_laws receipt nonce nonce_digest
      receipt_checked
