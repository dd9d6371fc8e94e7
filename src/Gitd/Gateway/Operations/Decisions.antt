-- ===== src/Gitd/Gateway/Operations/Decisions.antt =====
-- What the gateway refuses before it writes, and when it takes a settlement as known.
use bullet_git.Prelude.{
  ℕ, ◌≤◌, ◌<◌, ◌≡◌, ◌⊎◌, inl, inr, refl, true, some, Bytes, Text, codes, nat_eq, text_eq, Result,
  ok, err, arith, Result-cases, Option-cases,
}
use bullet_git.Types.Digest.{
  Hashing, HashingLaws, Digest, is_digest, digest_of, framed_digest, to_hex, from_hex,
}
use bullet_git.Gitd.Ledger.Subject.{
  MutationOperation, MutationSubject, MutationOutcome, ReplayDisposition, is_lower_hex,
  max_safe_integer,
}
use bullet_git.Gitd.Ledger.Subject.Validity.{IsId, IsValidSubject}
use bullet_git.Gitd.Ledger.Record.{EventCodec}
use bullet_git.Gitd.Ledger.Store
use bullet_git.Gitd.Ledger.Store.{MutationLedger}
use bullet_git.Gitd.Gateway.Types.{
  Json, GatewayError, settlement_unknown, FinalSettlementInput, VerifiedDecision,
  VerifiedSettlement, AuthorityGateway, Outside, PendingMutation, SettlementPath, kernel,
  ReceiptSubject,
}
use bullet_git.Gitd.Gateway.Fingerprint.{
  authority_without_permit, transport_fingerprint, settlement_fingerprint,
}
use bullet_git.Gitd.Gateway.Operations.{
  binds_request, binds_writer, settle_in, acknowledge_online, require_canonical_digest,
  settle_through, receipt_mutation_subject, derive,
}

from_hex-is_lower_hex :
    (h : Hashing) (t : Text) (d : Digest) → from_hex h t ≡ ok d → is_lower_hex t ≡ true
unfolding from_hex is_lower_hex bullet_git.Types.Digest.is_lower_hex
from_hex-is_lower_hex h t d parsed = ground arith

module _ (Value : Type 0) (json : Json Value) (h : Hashing) (codec : EventCodec) where
  -- What has been checked before the gateway reserves.
  abbrev pub IsBoundDecision :
      Outside Value
      → MutationOperation
      → Value
      → Value
      → Text
      → ℕ
      → Bytes
      → VerifiedDecision
      → Type 0
  IsBoundDecision o operation authority params attempt fence nonce decision =
      (fingerprint : Digest) × (transport_fingerprint Value json h operation
          (authority_without_permit Value json authority) params
        ≡ ok fingerprint)
      × (o.check (record {
        operation = operation;
        authority = authority;
        params = params;
        transport_fingerprint = fingerprint;
      })
          ≡ ok decision)
      × (binds_request h decision operation fingerprint ≡ true)
      × (binds_writer h decision attempt fence nonce ≡ true)

  acknowledged :
      (acknowledge : FinalSettlementInput → Result GatewayError VerifiedSettlement)
      (subject : MutationSubject) (outcome : MutationOutcome) (digest : Text) (completed_at : ℕ)
      → acknowledge_online h acknowledge subject outcome digest completed_at ≡ ok tt
      → (a : VerifiedSettlement) × (acknowledge (record {
        subject = subject;
        outcome = outcome;
        result_digest = digest;
        completed_at_unix_ms = completed_at;
        settlement_fingerprint = settlement_fingerprint h subject outcome digest completed_at;
      })
          ≡ ok a)
        × (a.mutation_id ≡ subject.mutation_id)
        × (a.reservation_id ≡ subject.reservation_id)
        × (a.result_digest ≡ digest)
        × (a.settlement_fingerprint ≡ settlement_fingerprint h subject outcome digest completed_at)
  unfolding acknowledge_online
  acknowledged acknowledge subject outcome digest completed_at answered =
      elim (Result-cases (
        acknowledge (record {
          subject = subject;
          outcome = outcome;
          result_digest = digest;
          completed_at_unix_ms = completed_at;
          settlement_fingerprint = settlement_fingerprint h subject outcome digest completed_at;
        }))) [
          | inr (e, failed) ↦ absurd (ground arith)
          | inl (a, given) ↦ (a, given, ground arith, ground arith, ground arith, ground arith)
        ]

  -- Every settlement that is not taken is refused as unknown, on either path.
  pub settlement_fails_unknown :
      (o : Outside Value) (pending : PendingMutation) (outcome : MutationOutcome) (digest : Text)
      (path : SettlementPath) (g : AuthorityGateway)
      → let answer = (settle_through Value json h codec o pending outcome digest path g).0 in
        (answer ≡ ok tt) ⊎ (answer ≡ err settlement_unknown)
  unfolding settle_through acknowledge_online require_canonical_digest settle_in
  settlement_fails_unknown o pending outcome digest path g = ground arith

  settle_in-ok :
      (subject : MutationSubject) (outcome : MutationOutcome) (digest : Text) (completed_at : ℕ)
      (disk : Store.SettleIo) (g : AuthorityGateway)
      → (settle_in codec subject outcome digest completed_at disk g).0 ≡ ok tt
      → (l : MutationLedger) × (disposition : ReplayDisposition) × (g.ledger ≡ some l)
        × ((Store.settle codec l subject outcome digest completed_at disk).0 ≡ ok disposition)
  unfolding settle_in
  settle_in-ok subject outcome digest completed_at disk g settled = elim (Option-cases g.ledger) [
    | inl e ↦ absurd (ground arith)
    | inr (l, held) ↦
        elim (Result-cases (Store.settle codec l subject outcome digest completed_at disk).0) [
          | inr (e, failed) ↦ absurd (ground arith)
          | inl (disposition, done) ↦ (l, disposition, held, done)
        ]
  ]

  require_canonical_digest-ok :
      (digest : Text)
      → require_canonical_digest h digest ≡ ok tt
      → (is_lower_hex digest ≡ true)
        × (d : Digest) × (from_hex h digest ≡ ok d)
        × (to_hex h d ≡ digest)
  unfolding require_canonical_digest
  require_canonical_digest-ok digest canonical = elim (Result-cases (from_hex h digest)) [
    | inr (e, failed) ↦ absurd (ground arith)
    | inl (d, parsed) ↦ (from_hex-is_lower_hex h digest d parsed, d, parsed, ground arith)
  ]

  -- A settlement that the gateway takes on the kernel's path was acknowledged: the clock was read, the
  -- digest is 64 lowercase digits that parse to a digest which prints as them, the kernel answered with the Mutation, the reservation, the digest and the
  -- fingerprint that were sent to it, and the ledger took that settlement.
  pub settlement_is_acknowledged :
      (o : Outside Value) (pending : PendingMutation) (outcome : MutationOutcome) (digest : Text)
      (g : AuthorityGateway)
      → (settle_through Value json h codec o pending outcome digest kernel g).0 ≡ ok tt
      → (completed_at : ℕ) × (a : VerifiedSettlement) × (l : MutationLedger)
        × (disposition : ReplayDisposition) × (o.settle_now ≡ ok completed_at)
        × ((is_lower_hex digest ≡ true)
            × (d : Digest) × (from_hex h digest ≡ ok d)
            × (to_hex h d ≡ digest))
        × (o.acknowledge (record {
          subject = pending.subject;
          outcome = outcome;
          result_digest = digest;
          completed_at_unix_ms = completed_at;
          settlement_fingerprint =
              settlement_fingerprint h pending.subject outcome digest completed_at;
        })
            ≡ ok a)
        × (a.mutation_id ≡ pending.subject.mutation_id)
        × (a.reservation_id ≡ pending.subject.reservation_id)
        × (a.result_digest ≡ digest)
        × (a.settlement_fingerprint
            ≡ settlement_fingerprint h pending.subject outcome digest completed_at)
        × (g.ledger ≡ some l)
        × ((Store.settle codec l pending.subject outcome digest completed_at o.settle).0
            ≡ ok disposition)
  unfolding settle_through
  settlement_is_acknowledged o pending outcome digest g settled = elim (Result-cases o.settle_now) [
    | inr (e, failed) ↦ absurd (ground arith)
    | inl (completed_at, read) ↦
        let canonical = require_canonical_digest-ok digest (ground arith) in
        let answered : acknowledge_online h o.acknowledge pending.subject outcome digest
              completed_at
            ≡ ok tt =
          ground arith in
        let ack = acknowledged o.acknowledge pending.subject outcome digest completed_at answered in
        let local =
          settle_in-ok pending.subject outcome digest completed_at o.settle g (ground arith) in
        (
          completed_at, ack.0, local.0, local.1, read, canonical, ack.1, ack.2, ack.3, ack.4, ack.5,
          local.2, local.3,
        )
  ]

-- What a verified receipt has: identifiers and a digest of their checked forms, a nonce of 32 bytes,
-- and positive generations.
pub record IsCheckedReceipt (receipt : ReceiptSubject) : Type 0 where
  pub digest : is_lower_hex receipt.receipt_digest ≡ true
  pub attempt : IsId (codes "atm_") receipt.attempt_id
  pub fence : (0 < receipt.attempt_fence) × (receipt.attempt_fence ≤ max_safe_integer)
  pub nonce : is_digest receipt.workspace_nonce ≡ true
  pub repository : IsId (codes "rep_") receipt.repository_id
  pub workspace : IsId (codes "wsp_") receipt.workspace_id
  pub generation :
      (0 < receipt.workspace_generation) × (receipt.workspace_generation ≤ max_safe_integer)

module _ (h : Hashing) (laws : HashingLaws h) where
  hex_of_digest : (b : Bytes) → is_digest b ≡ true → is_lower_hex (h.hex_encode b) ≡ true
  unfolding is_lower_hex bullet_git.Types.Digest.is_lower_hex
  hex_of_digest b n = laws.hex_encode_shape b n

  derived_hex :
      (receipt : ReceiptSubject) (domain : Text) → is_lower_hex (derive h receipt domain) ≡ true
  unfolding derive framed_digest digest_of to_hex
  derived_hex receipt domain = hex_of_digest _ (laws.blake3_shape _)

  -- The subject that the gateway derives from a checked receipt is one that the ledger accepts.
  pub receipt_mutation_subject-IsValidSubject :
      (receipt : ReceiptSubject) (fingerprint : Digest)
      → is_digest fingerprint ≡ true
      → IsCheckedReceipt receipt
      → IsValidSubject (receipt_mutation_subject h receipt fingerprint)
  unfolding receipt_mutation_subject to_hex digest_of
  receipt_mutation_subject-IsValidSubject receipt fingerprint n c = record {
    envelope = hex_of_digest _ (laws.blake3_shape _);
    token_nonce = c.digest;
    mutation = (_, refl, derived_hex receipt _);
    reservation = (_, refl, derived_hex receipt _);
    request = hex_of_digest _ n;
    repository = c.repository;
    workspace = c.workspace;
    generation = c.generation;
    nonce = hex_of_digest _ c.nonce;
    attempt = c.attempt;
    fence = c.fence;
    epoch = (ground arith, ground arith);
    freeze = ground arith;
    permit_nonce = derived_hex receipt _;
    permit = derived_hex receipt _;
  }
