-- ===== src/Gitd/Daemon/Cleaning.antt =====
-- crates/bullet-gitd/src/daemon_handlers.rs: cleaning up a workspace on the authority of its receipt,
-- and replaying a settled cleanup, with `receipt_identity` of crates/bullet-gitd/src/daemon.rs.
use bullet_git.Prelude.{
  ℕ, ◌+◌, true, not, none, some, [], ◌∷◌, ◌++◌, Text, codes, ltb, ◌==◌, text_eq, if◌then◌else◌, ok,
  err, map_err, u64_max,
}
use bullet_git.Prelude.Exec.{lift, ◌>>=◌, ◌>>◌}
use bullet_git.Types.Digest.{framed_digest, to_hex}
use bullet_git.Types.Authority.{WireAuthorityToken}
use bullet_git.Gitd.Ledger.Subject.{
  cleanup_workspace, MutationOutcome, committed, aborted, unknown, MutationResult,
}
use bullet_git.Gitd.Gateway.Types.{ReceiptSubject, ReceiptAuthorization, fresh, replay}
use bullet_git.Gitd.Daemon.Types.{
  Request, CleanupParams, cap, parse_params, not_cloned, Workspace, Repository, Session,
}
use bullet_git.Gitd.Daemon.{
  Parts, Turn, envelope, result_digest, cleanup_result, unknown_outcome, Handler, current,
  verify_token, require_unfrozen, authorize_cleanup_by_receipt, consume_receipt_permit,
  run_and_finish, ask, Work,
}

module _ (Value Clone Repo Keeper Cleanup : Type 0) (parts : Parts Value)
    (repository : Repository Clone Repo Keeper Cleanup) where
  abbrev Handle : Type 0
  Handle = Handler Value Repo Keeper parts Value

  -- `Session::receipt_identity`
  unfoldable pub receipt_identity : Workspace → Text × Text
  receipt_identity workspace =
      let h = parts.hashing in
      (
        codes "rep_"
            ++ to_hex h (
                framed_digest h (
                  codes "bullet-gitd.receipt-repository-id.v1"
                  ∷ workspace.source_repo
                  ∷ workspace.mirror_dir
                  ∷ workspace.base_sha
                  ∷ [])),
        codes "wsp_"
            ++ to_hex h (
                framed_digest h (
                  codes "bullet-gitd.receipt-workspace-id.v1"
                  ∷ workspace.runtime_dir
                  ∷ workspace.attempt_id
                  ∷ workspace.nonce_hex
                  ∷ [])),
      )

  -- `u64::saturating_add(1)`
  unfoldable pub next_saturating : ℕ → ℕ
  next_saturating n = if ltb n u64_max then n + 1 else u64_max

  unfoldable pub receipt_subject :
      Session Repo Keeper → CleanupParams → Cleanup → WireAuthorityToken → ReceiptSubject
  receipt_subject session params authorized token =
      let workspace = repository.workspace session.repo in
      let identity = receipt_identity workspace in
      record {
        receipt_token = params.preservation_receipt;
        receipt_digest = repository.receipt_digest authorized;
        attempt_id = token.attempt_id;
        attempt_fence = token.attempt_fence;
        workspace_nonce = token.workspace_nonce;
        repository_id = identity.0;
        workspace_id = identity.1;
        workspace_generation = next_saturating workspace.generation;
      }

  -- The committed arm of `replay_cleanup`.
  unfoldable pub replay_committed : Text → Text → MutationResult → Handle
  replay_committed runtime_dir receipt_digest settled d =
      let payload =
        cleanup_result Value parts (runtime_dir ++ codes "/tombstone.json") receipt_digest in
      elim (parts.json.to_vec payload) [
        | none ↦ (
          err (
              unknown_outcome
                (codes "cannot encode exact mutation result: " ++ parts.display.encoding)),
          d,
        )
        | some encoded ↦
            if not (
              result_digest Value parts cleanup_workspace committed encoded
              == settled.result_digest)
            then (
              err (
                codes "AUTHORITY_REPLAY_CONFLICT",
                settled.subject.mutation_id
                    ++ codes " does not reproduce its durable result digest",
              ),
              d,
            )
            else (ok payload, record d { session = none })
      ]

  -- The `match` on the settled outcome.
  unfoldable pub replay_outcome : MutationOutcome → Text → Text → MutationResult → Handle
  replay_outcome committed runtime_dir receipt_digest settled d =
      replay_committed runtime_dir receipt_digest settled d
  replay_outcome aborted runtime_dir receipt_digest settled d = (
    err (
      codes "AUTHORITY_REFUSED",
      settled.subject.mutation_id ++ codes " durably aborted before repository execution",
    ),
    d,
  )
  replay_outcome unknown runtime_dir receipt_digest settled d = (
    err (
        unknown_outcome
          (settled.subject.mutation_id ++ codes " has an indeterminate durable cleanup outcome")),
    record d { mutation_frozen = true },
  )

  unfoldable pub replay_cleanup : Text → Text → MutationResult → Handle
  replay_cleanup runtime_dir receipt_digest settled =
      replay_outcome settled.outcome runtime_dir receipt_digest settled

  -- Removing the workspace; the session ends only when that is done.
  unfoldable pub cleanup_work : CleanupParams → Cleanup → Work Value Repo Keeper parts
  cleanup_work params authorized none = (err not_cloned, none)
  cleanup_work params authorized (some session) =
      let cleaned = repository.cleanup authorized session.repo params.deleted_at in
      elim cleaned.0 [
        | err e ↦ (err (cap parts.display e), some (record session { repo = cleaned.1 }))
        | ok tombstone ↦
            (ok (cleanup_result Value parts tombstone (repository.receipt_digest authorized)), none)
      ]

  -- `handle_cleanup` behind its authorization.
  unfoldable pub cleanup_authorized :
      Turn Value
      → Request Value
      → CleanupParams
      → Session Repo Keeper
      → Cleanup
      → ReceiptAuthorization
      → Handle
  cleanup_authorized t req params session authorized (replay settled) =
      replay_cleanup (repository.workspace session.repo).runtime_dir
        (repository.receipt_digest authorized) settled
  cleanup_authorized t req params session authorized (fresh permit) = do
    pending ← consume_receipt_permit Value Repo Keeper parts t.consuming req permit
    run_and_finish Value Repo Keeper parts t.settling cleanup_workspace pending true
        (cleanup_work params authorized)

  unfoldable pub handle_cleanup : Turn Value → Request Value → Handle
  handle_cleanup t req = do
    token ← ask Value Repo Keeper parts (verify_token Value Repo Keeper parts req)
    params ← lift (parse_params parts.display parts.params.cleanup req.params)
    ask Value Repo Keeper parts (require_unfrozen Value Repo Keeper parts)
    session ← ask Value Repo Keeper parts (current Value Repo Keeper parts)
    authorized ← lift (
        map_err (cap parts.display) (
          repository.authorize_receipt session.preservation session.repo
            (envelope Value parts req.token) params.preservation_receipt))
    admitted ←
        authorize_cleanup_by_receipt Value Repo Keeper parts t.authorizing req
          (receipt_subject session params authorized token)
    cleanup_authorized t req params session authorized admitted
