-- ===== src/Gitd/Daemon.antt =====
-- crates/bullet-gitd/src/daemon.rs and daemon_handlers.rs: the dispatch of requests over the authority
-- gateway and a repository. A method on `&mut self` is an action on the daemon's state; `t` holds the
-- answers from outside during one request.
pub mod Types
pub mod Cleaning
pub mod Handlers
pub mod Rules
pub mod Latch
use bullet_git.Prelude.{
  ℕ, ◌+◌, Bool, true, false, not, Option, none, some, List, [], ◌∷◌, ◌++◌, Bytes, Text, codes,
  length, ltb, ◌==◌, text_eq, if◌then◌else◌, Result, ok, err, ok_or, map_err, refuse_if, and_then,
  u64_max,
}
use bullet_git.Prelude.Exec.{Exec, pure, raise, lift, ◌>>=◌, ◌>>◌}
use bullet_git.Types.Digest.{Hashing, framed_digest, to_hex}
use bullet_git.Types.Authority.{
  AuthorityEnvelope, ExpectedAuthority, WireAuthorityToken, TokenDecoder, parse, verify,
}
use bullet_git.Types.RepoPath.{Unicode}
use bullet_git.Types.Proposal.{PatchProposal}
use bullet_git.Types.Candidate.{CanonicalJson, validate_identity}
use bullet_git.Types.ProofRoot.{bind, verify_proof_root}
use bullet_git.Types.ProofRoot
use bullet_git.Workspace.Scope
use bullet_git.Workspace.Patch.{PatchHunk}
use bullet_git.Gitd.Ledger.Subject.{
  MutationOperation, clone_workspace, apply_patch, checkpoint, prepare_candidate,
  preserve_workspace, cleanup_workspace, as_str, MutationOutcome, committed, aborted, unknown,
  MutationResult,
}
use bullet_git.Gitd.Ledger.Record.{EventCodec}
use bullet_git.Gitd.Ledger.Recovery.{Directory}
use bullet_git.Gitd.Gateway.Types.{
  Json, GatewayError, MutationPermit, PendingMutation, ReceiptSubject, ReceiptAuthorization, fresh,
  replay, AuthorityGateway, Outside,
}
use bullet_git.Gitd.Gateway.Fingerprint.{outcome_str}
use bullet_git.Gitd.Gateway.Operations.{
  Gated, attach_ledger_root, gateway_kernel, authorize, consume, settle, settle_locally,
  authorize_by_preservation_receipt, consume_by_preservation_receipt,
}
use bullet_git.Gitd.Daemon.Types.{
  MethodError, Request, CloneParams, CleanupParams, ParamCodec, Encoder, TokenShape, null, other,
  string, Display, cap, auth, gateway, candidate_manifest, parse_params, to_value, decode_patches,
  not_cloned, Workspace, Repository, Session, Daemon,
}

-- What the daemon takes from elsewhere, at one type of JSON values.
pub record Parts (Value : Type 0) : Type 0 where
  pub json : Json Value
  pub hashing : Hashing
  pub events : EventCodec
  pub tokens : TokenDecoder
  pub unicode : Unicode
  pub canonical : CanonicalJson
  pub params : ParamCodec Value
  pub encoder : Encoder Value
  pub display : Display Value
  pub token_shape : Value → TokenShape

-- The answers from outside during one request: what stands at `.bullet-mutation-ledger` below a root
-- that is attached, and what the gateway meets while it authorizes, consumes and settles.
pub record Turn (Value : Type 0) : Type 0 where
  pub attached : Text → Option Directory
  pub authorizing : Outside Value
  pub consuming : Outside Value
  pub settling : Outside Value

module _ (Value : Type 0) (parts : Parts Value) where
  -- `protocol::envelope`
  unfoldable pub envelope : Value → AuthorityEnvelope
  envelope token = elim (parts.token_shape token) [
    | null ↦ record { token = [] }
    | string text ↦ record { token = text }
    | other ↦ record { token = elim (parts.json.to_vec token) [ none ↦ [] | some bytes ↦ bytes ] }
  ]

  -- The digest that names the exact result of a mutation.
  unfoldable pub result_digest : MutationOperation → MutationOutcome → Bytes → Text
  result_digest operation outcome encoded = to_hex parts.hashing (
      framed_digest parts.hashing (
        codes "bullet-gitd.mutation-result.v1"
        ∷ as_str operation
        ∷ outcome_str outcome
        ∷ encoded
        ∷ []))

  unfoldable pub cleanup_result : Text → Text → Value
  cleanup_result tombstone receipt_digest = parts.json.object (
      (codes "tombstone", parts.encoder.text tombstone)
      ∷ (codes "preservation_receipt_digest", parts.encoder.text receipt_digest)
      ∷ (codes "verified", parts.encoder.boolean true)
      ∷ [])

  -- The outcome of a result and the payload that is digested.
  unfoldable pub outcome_of : Result MethodError Value → MutationOutcome × Value
  outcome_of (ok value) = (committed, value)
  outcome_of (err (code, message)) = (
    unknown,
    parts.json.object (
        (codes "code", parts.encoder.text code)
        ∷ (codes "message", parts.encoder.text message)
        ∷ []),
  )

unfoldable pub unknown_outcome : Text → MethodError
unknown_outcome message = (codes "MUTATION_OUTCOME_UNKNOWN", message)

module _ (Value Repo Keeper : Type 0) (parts : Parts Value) where
  abbrev pub Handler : Type 0 → Type 0
  Handler A = Exec MethodError (Daemon Repo Keeper) A

  -- A call of the gateway, with its refusal as a method error.
  unfoldable pub gated : {A : Type 0} → Gated A → Handler A
  gated call d =
      let called = call d.authority in
      (map_err (gateway parts.display) called.0, record d { authority = called.1 })

  -- A question to the daemon's state.
  abbrev pub ask : {A : Type 0} → (Daemon Repo Keeper → Result MethodError A) → Handler A
  ask question d = (question d, d)

  unfoldable pub current : Daemon Repo Keeper → Result MethodError (Session Repo Keeper)
  current d = ok_or d.session not_cloned

  unfoldable pub verify_token :
      Request Value → Daemon Repo Keeper → Result MethodError WireAuthorityToken
  verify_token req d = and_then (current d) (λ session.
      and_then
        (map_err (auth parts.display) (parse parts.tokens (envelope Value parts req.token).token))
        (λ token.
          and_then
            (map_err (auth parts.display) (
              verify token session.expected.attempt_id session.expected.attempt_fence
                session.expected.workspace_nonce))
            (λ verified. ok token)))

  unfoldable pub require_unfrozen : Daemon Repo Keeper → Result MethodError (Unit {0})
  require_unfrozen d = refuse_if d.mutation_frozen (
      unknown_outcome (codes "daemon mutation is frozen after an indeterminate repository outcome"))

  unfoldable pub authorize_mutation :
      Outside Value
      → Request Value
      → MutationOperation
      → WireAuthorityToken
      → Handler MutationPermit
  authorize_mutation o req operation token = do
    ask require_unfrozen
    gated (
        authorize Value parts.json parts.hashing parts.events o operation req.token req.params
          token.attempt_id token.attempt_fence token.workspace_nonce)

  unfoldable pub consume_permit :
      Outside Value → Request Value → MutationOperation → MutationPermit → Handler PendingMutation
  consume_permit o req operation permit =
      gated (
        consume Value parts.json parts.hashing parts.events o permit operation req.token req.params)

  unfoldable pub authorize_cleanup_by_receipt :
      Outside Value → Request Value → ReceiptSubject → Handler ReceiptAuthorization
  authorize_cleanup_by_receipt o req receipt = do
    ask require_unfrozen
    gated (
        authorize_by_preservation_receipt Value parts.json parts.hashing parts.events o req.token
          req.params receipt)

  unfoldable pub consume_receipt_permit :
      Outside Value → Request Value → MutationPermit → Handler PendingMutation
  consume_receipt_permit o req permit = gated (
      consume_by_preservation_receipt Value parts.json parts.hashing parts.events o permit req.token
        req.params)

  -- The settlement on either path.
  unfoldable pub settle_digest :
      Outside Value → PendingMutation → MutationOutcome → Text → Bool → Gated (Unit {0})
  settle_digest o pending outcome digest receipt_gated =
      if receipt_gated
      then settle_locally Value parts.json parts.hashing parts.events o pending outcome digest
      else settle Value parts.json parts.hashing parts.events o pending outcome digest

  -- What `finish_mutation` answers once the settlement is taken.
  unfoldable pub answer_settled : Result MethodError Value → Handler Value
  answer_settled (ok value) d = (ok value, d)
  answer_settled (err (code, message)) d = (
    err (
        unknown_outcome (
          codes "repository returned "
          ++ (code ++ (codes " after permit consumption: " ++ message)))),
    record d { mutation_frozen = true },
  )

  unfoldable pub settle_encoded :
      Outside Value
      → MutationOperation
      → PendingMutation
      → Result MethodError Value
      → Bool
      → Bytes
      → Handler Value
  settle_encoded o operation pending result receipt_gated encoded d =
      let outcome = (outcome_of Value parts result).0 in
      let settled =
        settle_digest o pending outcome (result_digest Value parts operation outcome encoded)
          receipt_gated d.authority in
      elim settled.0 [
        | err e ↦ (
          err (gateway parts.display e),
          record d { authority = settled.1; mutation_frozen = true },
        )
        | ok _ ↦ answer_settled result (record d { authority = settled.1 })
      ]

  unfoldable pub finish_mutation :
      Outside Value
      → MutationOperation
      → PendingMutation
      → Result MethodError Value
      → Bool
      → Handler Value
  finish_mutation o operation pending result receipt_gated d =
      elim (parts.json.to_vec (outcome_of Value parts result).1) [
        | none ↦ (
          err (
              unknown_outcome
                (codes "cannot encode exact mutation result: " ++ parts.display.encoding)),
          record d { mutation_frozen = true },
        )
        | some encoded ↦ settle_encoded o operation pending result receipt_gated encoded d
      ]

  -- What a handler does with the session once its permit is consumed.
  abbrev pub Work : Type 0
  Work = Option (Session Repo Keeper) → Result MethodError Value × Option (Session Repo Keeper)

  -- `settle_result` and `settle_receipt_result` on the work's result.
  unfoldable pub run_and_finish :
      Outside Value → MutationOperation → PendingMutation → Bool → Work → Handler Value
  run_and_finish o operation pending receipt_gated work d =
      let worked = work d.session in
      finish_mutation o operation pending worked.0 receipt_gated (record d { session = worked.1 })

  -- The steps that the mutating methods share: authorize, consume, work, settle.
  unfoldable pub mutate :
      Turn Value → Request Value → MutationOperation → WireAuthorityToken → Work → Handler Value
  mutate t req operation token work = do
    permit ← authorize_mutation t.authorizing req operation token
    pending ← consume_permit t.consuming req operation permit
    run_and_finish t.settling operation pending false work

  -- `as_mut().ok_or_else(not_cloned).and_then(..)`: work on a session that is there.
  unfoldable pub on_session :
      (Session Repo Keeper → Result MethodError Value × Session Repo Keeper) → Work
  on_session work none = (err not_cloned, none)
  on_session work (some session) = let worked = work session in (worked.0, some worked.1)
