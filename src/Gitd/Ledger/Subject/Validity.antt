-- ===== src/Gitd/Ledger/Subject/Validity.antt =====
-- Which subjects the ledger accepts.
use bullet_git.Prelude.{
  ℕ, ◌≤◌, ◌<◌, ◌≡◌, ◌↔◌, ◌++◌, true, Text, codes, ok, arith, strip_prefix, strip_prefix-append,
  strip_prefix-eq-some, Option-cases, inl, inr,
}
use bullet_git.Gitd.Ledger.Subject.{
  MutationSubject, is_lower_hex, validate_id, validate_digest, validate_positive_generation,
  validate, max_safe_integer,
}

-- The prefix and 64 lowercase hexadecimal digits.
abbrev pub IsId : Text → Text → Type 0
IsId prefix value = (hex : Text) × (value ≡ prefix ++ hex) × (is_lower_hex hex ≡ true)

pub record IsValidSubject (s : MutationSubject) : Type 0 where
  pub envelope : is_lower_hex s.authority_envelope_digest ≡ true
  pub token_nonce : is_lower_hex s.authority_token_nonce ≡ true
  pub mutation : IsId (codes "mut_") s.mutation_id
  pub reservation : IsId (codes "rsv_") s.reservation_id
  pub request : is_lower_hex s.request_digest ≡ true
  pub repository : IsId (codes "rep_") s.repository_id
  pub workspace : IsId (codes "wsp_") s.workspace_id
  pub generation : (0 < s.workspace_generation) × (s.workspace_generation ≤ max_safe_integer)
  pub nonce : is_lower_hex s.workspace_nonce ≡ true
  pub attempt : IsId (codes "atm_") s.attempt_id
  pub fence : (0 < s.attempt_fence) × (s.attempt_fence ≤ max_safe_integer)
  pub epoch : (0 < s.authority_epoch) × (s.authority_epoch ≤ max_safe_integer)
  pub freeze : s.freeze_generation ≤ max_safe_integer
  pub permit_nonce : is_lower_hex s.permit_nonce ≡ true
  pub permit : is_lower_hex s.permit_digest ≡ true

validate_id-ok : (value prefix : Text) → validate_id value prefix ≡ ok tt → IsId prefix value
unfolding validate_id
validate_id-ok value prefix h = elim (Option-cases (strip_prefix prefix value)) [
  | inl e ↦ ground arith
  | inr (hex, e) ↦ (hex, strip_prefix-eq-some prefix value hex e, ground arith)
]

IsId-validate_id : (value prefix : Text) → IsId prefix value → validate_id value prefix ≡ ok tt
unfolding validate_id
IsId-validate_id value prefix (hex, e, h) = ground (arith, strip_prefix-append prefix hex)

validate_digest-ok : (value : Text) → validate_digest value ≡ ok tt → is_lower_hex value ≡ true
unfolding validate_digest
validate_digest-ok value h = ground arith

digest-validate_digest : (value : Text) → is_lower_hex value ≡ true → validate_digest value ≡ ok tt
unfolding validate_digest
digest-validate_digest value h = ground arith

generation_iff :
    (value : ℕ)
    → (validate_positive_generation value ≡ ok tt) ↔ ((0 < value) × (value ≤ max_safe_integer))
unfolding validate_positive_generation
generation_iff value = ground arith

-- `validate` accepts a subject exactly when its five identifiers are canonical under their own
-- prefixes, its six digests and nonces are 64 lowercase hexadecimal digits, its three generations
-- are positive and no larger than 2^53 - 1, and its freeze generation is no larger.
pub validate_iff : (s : MutationSubject) → (validate s ≡ ok tt) ↔ IsValidSubject s
unfolding validate
validate_iff s = (
  (λ h. record {
    envelope = validate_digest-ok s.authority_envelope_digest (ground arith);
    token_nonce = validate_digest-ok s.authority_token_nonce (ground arith);
    mutation = validate_id-ok s.mutation_id (codes "mut_") (ground arith);
    reservation = validate_id-ok s.reservation_id (codes "rsv_") (ground arith);
    request = validate_digest-ok s.request_digest (ground arith);
    repository = validate_id-ok s.repository_id (codes "rep_") (ground arith);
    workspace = validate_id-ok s.workspace_id (codes "wsp_") (ground arith);
    generation = (generation_iff s.workspace_generation).0 (ground arith);
    nonce = validate_digest-ok s.workspace_nonce (ground arith);
    attempt = validate_id-ok s.attempt_id (codes "atm_") (ground arith);
    fence = (generation_iff s.attempt_fence).0 (ground arith);
    epoch = (generation_iff s.authority_epoch).0 (ground arith);
    freeze = ground arith;
    permit_nonce = validate_digest-ok s.permit_nonce (ground arith);
    permit = validate_digest-ok s.permit_digest (ground arith);
  }),
  (λ v.
      rw
        (
          digest-validate_digest s.authority_envelope_digest v.envelope,
          digest-validate_digest s.authority_token_nonce v.token_nonce,
          IsId-validate_id s.mutation_id (codes "mut_") v.mutation,
          IsId-validate_id s.reservation_id (codes "rsv_") v.reservation,
          digest-validate_digest s.request_digest v.request,
          IsId-validate_id s.repository_id (codes "rep_") v.repository,
          IsId-validate_id s.workspace_id (codes "wsp_") v.workspace,
          (generation_iff s.workspace_generation).1 v.generation,
          digest-validate_digest s.workspace_nonce v.nonce,
          IsId-validate_id s.attempt_id (codes "atm_") v.attempt,
          (generation_iff s.attempt_fence).1 v.fence,
          (generation_iff s.authority_epoch).1 v.epoch,
          digest-validate_digest s.permit_nonce v.permit_nonce,
          digest-validate_digest s.permit_digest v.permit,
        )
        (ground arith)),
)
