-- ===== src/Gitd/Gateway/Fingerprint.antt =====
-- crates/bullet-gitd/src/authority_gateway/fingerprint.rs, and `authority_without_permit` of
-- crates/bullet-gitd/src/kernel_permit.rs.
use bullet_git.Prelude.{
  ℕ, none, some, List, [], ◌∷◌, Bytes, Text, codes, ◌==◌, text_eq, if◌then◌else◌, Result, ok, ok_or,
  ◌>>=◌, to_string,
}
use bullet_git.Types.Digest.{Hashing, Digest, framed_digest}
use bullet_git.Gitd.Ledger.Subject.{
  MutationOperation, MutationSubject, MutationOutcome, committed, aborted, unknown, as_str,
}
use bullet_git.Gitd.Gateway.Types.{Json, GatewayError, refused}

unfoldable pub outcome_str : MutationOutcome → Text
outcome_str committed = codes "committed"
outcome_str aborted = codes "aborted"
outcome_str unknown = codes "unknown"

-- The framed fields of a settlement.
unfoldable pub settlement_fields : MutationSubject → MutationOutcome → Text → ℕ → List Bytes
unfolding outcome_str as_str
settlement_fields s outcome result_digest completed_at =
    codes "bullet-gitd.pre-contract-settlement-fingerprint.v1"
    ∷ s.authority_envelope_digest
    ∷ s.authority_token_nonce
    ∷ s.mutation_id
    ∷ s.reservation_id
    ∷ as_str s.operation
    ∷ s.request_digest
    ∷ s.repository_id
    ∷ s.workspace_id
    ∷ to_string s.workspace_generation
    ∷ s.workspace_nonce
    ∷ s.attempt_id
    ∷ to_string s.attempt_fence
    ∷ to_string s.authority_epoch
    ∷ to_string s.freeze_generation
    ∷ s.permit_nonce
    ∷ s.permit_digest
    ∷ outcome_str outcome
    ∷ result_digest
    ∷ to_string completed_at
    ∷ []

unfoldable pub remove_key : {A : Type 0} → Text → List (Text × A) → List (Text × A)
remove_key key [] = []
remove_key key ((k, v) ∷ fields) =
    let rest = remove_key key fields in if k == key then rest else (k, v) ∷ rest

module _ (h : Hashing) where
  unfoldable pub settlement_fingerprint : MutationSubject → MutationOutcome → Text → ℕ → Digest
  unfolding settlement_fields
  settlement_fingerprint s outcome result_digest completed_at =
      framed_digest h (settlement_fields s outcome result_digest completed_at)

module _ (Value : Type 0) (json : Json Value) where
  unfoldable pub authority_without_permit : Value → Value
  unfolding remove_key
  authority_without_permit authority = elim (json.as_object authority) [
    | none ↦ authority
    | some fields ↦ json.object (remove_key (codes "kernel_permit") fields)
  ]

  unfoldable pub transport_fingerprint :
      Hashing → MutationOperation → Value → Value → Result GatewayError Digest
  unfolding as_str
  transport_fingerprint h operation authority params = do
    authority_bytes ← ok_or (json.to_vec authority) refused
    params_bytes ← ok_or (json.to_vec params) refused
    ok (
        framed_digest h (
          codes "bullet-gitd.pre-contract-request-fingerprint.v1"
          ∷ as_str operation
          ∷ authority_bytes
          ∷ params_bytes
          ∷ []))
