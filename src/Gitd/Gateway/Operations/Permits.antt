-- ===== src/Gitd/Gateway/Operations/Permits.antt =====
-- What a permit that the gateway issues is bound to.
use bullet_git.Prelude.{
  ℕ, ◌+◌, ◌≤◌, ◌<◌, ◌≡◌, ◌≢◌, inl, inr, refl, ap, ◌∙◌, true, Option, none, some, Bytes, Text,
  nat_eq, text_eq, Result, ok, err, arith, Result-cases,
}
use bullet_git.Types.Digest.{Hashing, Digest, to_hex}
use bullet_git.Gitd.Ledger.Subject.{MutationOperation, operation_eq, ReplayDisposition}
use bullet_git.Gitd.Ledger.Record.{EventCodec}
use bullet_git.Gitd.Gateway.Types.{
  Json, GatewayError, FinalCheckInput, VerifiedDecision, MutationPermit, AuthorityGateway, Outside,
  PendingMutation, into_pending, SettlementPath, kernel,
}
use bullet_git.Gitd.Gateway.Fingerprint.{authority_without_permit, transport_fingerprint}
use bullet_git.Gitd.Gateway.Operations.{
  max_mutation_permit_ttl_ms, window_refusal, binds_request, binds_writer, require_bindings,
  recover_existing_ledger, open_and_reserve, permit_of, refuse_window, abort_before_repository,
  authorize, issue_permit,
}

-- The window that a permit's last instant must lie in.
window_refusal-none :
    (now : Result GatewayError ℕ) (expires : ℕ)
    → window_refusal now expires ≡ none
    → (t : ℕ) × (now ≡ ok t) × (t < expires) × (expires ≤ t + max_mutation_permit_ttl_ms)
unfolding window_refusal
window_refusal-none (err e) expires h = cc
window_refusal-none (ok t) expires h = (t, refl, ground arith, ground arith)

binds_request-true :
    (h : Hashing) (d : VerifiedDecision) (operation : MutationOperation) (fingerprint : Digest)
    → binds_request h d operation fingerprint ≡ true
    → (d.operation ≡ operation)
      × (d.subject.operation ≡ operation)
      × (d.transport_fingerprint ≡ fingerprint)
      × (d.subject.request_digest ≡ to_hex h fingerprint)
unfolding binds_request
binds_request-true h d operation fingerprint b = ground arith

binds_writer-true :
    (h : Hashing) (d : VerifiedDecision) (attempt : Text) (fence : ℕ) (nonce : Bytes)
    → binds_writer h d attempt fence nonce ≡ true
    → (d.subject.attempt_id ≡ attempt)
      × (d.subject.attempt_fence ≡ fence)
      × (d.subject.workspace_nonce ≡ h.hex_encode nonce)
unfolding binds_writer
binds_writer-true h d attempt fence nonce b = ground arith

module _ (Value : Type 0) (json : Json Value) (h : Hashing) (codec : EventCodec) where
  abort-not-ok :
      {A : Type 0} (o : Outside Value) (pending : PendingMutation) (reason : GatewayError)
      (path : SettlementPath) (g : AuthorityGateway) (a : A)
      → (abort_before_repository Value json h codec {A = A} o pending reason path g).0 ≢ ok a
  unfolding abort_before_repository
  abort-not-ok o pending reason path g a issued = ground arith

  refuse_window-ok :
      (o : Outside Value) (refusal : Option GatewayError) (permit permit' : MutationPermit)
      (g : AuthorityGateway)
      → (refuse_window Value json h codec o refusal permit g).0 ≡ ok permit'
      → (refusal ≡ none) × (permit' ≡ permit)
  unfolding refuse_window
  refuse_window-ok o none permit permit' g issued = (refl, cc)
  refuse_window-ok o (some refusal) permit permit' g issued =
      absurd (abort-not-ok o (into_pending permit) refusal kernel g permit' issued)

  permit_of-ok :
      (decision : VerifiedDecision) (operation : MutationOperation) (fingerprint : Digest)
      (disposition : ReplayDisposition) (permit : MutationPermit)
      → permit_of Value json h codec decision operation fingerprint disposition ≡ ok permit
      → (disposition ≡ ReplayDisposition.fresh)
        × (permit.subject ≡ decision.subject)
        × (permit.operation ≡ operation)
        × (permit.transport_fingerprint ≡ fingerprint)
        × (permit.expires_at_unix_ms ≡ decision.expires_at_unix_ms)
  unfolding permit_of
  permit_of-ok decision operation fingerprint ReplayDisposition.fresh permit e = ground arith
  permit_of-ok decision operation fingerprint (ReplayDisposition.exact_replay r) permit e = cc

  require_bindings-ok :
      (d : VerifiedDecision) (operation : MutationOperation) (fingerprint : Digest) (attempt : Text)
      (fence : ℕ) (nonce : Bytes)
      → require_bindings Value json h codec d operation fingerprint attempt fence nonce ≡ ok tt
      → (binds_request h d operation fingerprint ≡ true)
        × (binds_writer h d attempt fence nonce ≡ true)
  unfolding require_bindings
  require_bindings-ok d operation fingerprint attempt fence nonce e = ground arith

  -- What `issue_permit` has checked, and what the permit holds.
  abbrev IsBound :
      Outside Value
      → AuthorityGateway
      → MutationOperation
      → Digest
      → Text
      → ℕ
      → Bytes
      → VerifiedDecision
      → MutationPermit
      → Type 0
  IsBound o g operation fingerprint attempt fence nonce decision permit =
      (permit.subject ≡ decision.subject)
      × (permit.operation ≡ operation)
      × (permit.transport_fingerprint ≡ fingerprint)
      × (permit.expires_at_unix_ms ≡ decision.expires_at_unix_ms)
      × (binds_request h decision operation fingerprint ≡ true)
      × (binds_writer h decision attempt fence nonce ≡ true)
      × (window_refusal o.now decision.expires_at_unix_ms ≡ none)
      × ((open_and_reserve codec o.root decision.subject o.reserve g).0
          ≡ ok ReplayDisposition.fresh)

  issue_permit-ok :
      (o : Outside Value) (g : AuthorityGateway) (decision : VerifiedDecision)
      (operation : MutationOperation) (fingerprint : Digest) (attempt : Text) (fence : ℕ)
      (nonce : Bytes) (permit : MutationPermit)
      → (issue_permit Value json h codec o decision operation fingerprint attempt fence nonce g).0
        ≡ ok permit
      → IsBound o g operation fingerprint attempt fence nonce decision permit
  unfolding issue_permit
  issue_permit-ok o g decision operation fingerprint attempt fence nonce permit issued =
      elim (Result-cases
        (require_bindings Value json h codec decision operation fingerprint attempt fence nonce)) [
          | inr (e, failed) ↦ absurd (ground arith)
          | inl (_, bound) ↦
              elim (Result-cases (open_and_reserve codec o.root decision.subject o.reserve g).0) [
                | inr (e, failed) ↦ absurd (ground arith)
                | inl (disposition, reserved) ↦
                    elim (Result-cases
                      (permit_of Value json h codec decision operation fingerprint disposition)) [
                        | inr (e, failed) ↦ absurd (ground arith)
                        | inl (candidate, permitted) ↦
                            let g1 =
                              (open_and_reserve codec o.root decision.subject o.reserve g).1 in
                            ground (
                              arith,
                              require_bindings-ok decision operation fingerprint attempt fence nonce
                                  bound,
                              permit_of-ok decision operation fingerprint disposition candidate
                                  permitted,
                              refuse_window-ok o (window_refusal o.now decision.expires_at_unix_ms)
                                  candidate permit g1,
                            )
                      ]
              ]
        ]

  -- A permit that `authorize` issues was bound in every respect to the call: the final check accepted
  -- the operation, the parameters and the authority with the fingerprint of the transport, and its
  -- subject has that operation and fingerprint and the attempt, the fence and the nonce of the caller;
  -- the clock stood before the last instant, which is at most 1,000 ms ahead; and the ledger's
  -- reservation was fresh.
  pub permit_binds_request :
      (o : Outside Value) (g : AuthorityGateway) (operation : MutationOperation)
      (authority params : Value) (attempt : Text) (fence : ℕ) (nonce : Bytes)
      (permit : MutationPermit)
      → (authorize Value json h codec o operation authority params attempt fence nonce g).0
        ≡ ok permit
      → (fingerprint : Digest) × (decision : VerifiedDecision) × (now : ℕ) × (transport_fingerprint
            Value json h operation
            (authority_without_permit Value json authority)
            params
          ≡ ok fingerprint)
        × (o.check (record {
          operation = operation;
          authority = authority;
          params = params;
          transport_fingerprint = fingerprint;
        })
            ≡ ok decision)
        × (permit.subject ≡ decision.subject)
        × (permit.operation ≡ operation)
        × (permit.transport_fingerprint ≡ fingerprint)
        × (permit.subject.operation ≡ operation)
        × (permit.subject.request_digest ≡ to_hex h fingerprint)
        × (permit.subject.attempt_id ≡ attempt)
        × (permit.subject.attempt_fence ≡ fence)
        × (permit.subject.workspace_nonce ≡ h.hex_encode nonce)
        × (o.now ≡ ok now)
        × (now < permit.expires_at_unix_ms)
        × (permit.expires_at_unix_ms ≤ now + max_mutation_permit_ttl_ms)
        × ((open_and_reserve codec o.root permit.subject o.reserve
              (recover_existing_ledger codec o.inspects o.root g).1).0
            ≡ ok ReplayDisposition.fresh)
  unfolding authorize
  permit_binds_request o g operation authority params attempt fence nonce permit issued =
      elim (Result-cases (recover_existing_ledger codec o.inspects o.root g).0) [
        | inr (e, failed) ↦ absurd (ground arith)
        | inl (_, recovered) ↦
            elim (Result-cases (
              transport_fingerprint Value json h operation
                (authority_without_permit Value json authority) params)) [
                  | inr (e, failed) ↦ absurd (ground arith)
                  | inl (fingerprint, transported) ↦
                      let input : FinalCheckInput Value = record {
                        operation = operation;
                        authority = authority;
                        params = params;
                        transport_fingerprint = fingerprint;
                      } in
                      elim (Result-cases (o.check input)) [
                        | inr (e, failed) ↦ absurd (ground arith)
                        | inl (decision, checked) ↦
                            let g1 = (recover_existing_ledger codec o.inspects o.root g).1 in
                            let bound =
                              issue_permit-ok o g1 decision operation fingerprint attempt fence
                                nonce permit (ground arith) in
                            let subject = bound.0 in
                            let request =
                              binds_request-true h decision operation fingerprint (bound.4) in
                            let writer =
                              binds_writer-true h decision attempt fence nonce (bound.5) in
                            let window =
                              window_refusal-none o.now decision.expires_at_unix_ms (bound.6) in
                            (
                              fingerprint,
                              decision,
                              window.0,
                              transported,
                              checked,
                              subject,
                              bound.1,
                              bound.2,
                              ap (λ x. x.operation) subject ∙ request.1,
                              ap (λ x. x.request_digest) subject ∙ request.3,
                              ap (λ x. x.attempt_id) subject ∙ writer.0,
                              ap (λ x. x.attempt_fence) subject ∙ writer.1,
                              ap (λ x. x.workspace_nonce) subject ∙ writer.2,
                              window.1,
                              rw (bound.3) (window.2),
                              rw (bound.3) (window.3),
                              rw subject (bound.7),
                            )
                      ]
                ]
      ]
