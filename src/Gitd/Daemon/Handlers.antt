-- ===== src/Gitd/Daemon/Handlers.antt =====
-- crates/bullet-gitd/src/daemon_handlers.rs: the handlers of the other methods, and the dispatch of
-- crates/bullet-gitd/src/daemon.rs.
use bullet_git.Prelude.{
  true, false, Option, none, some, [], ◌∷◌, ◌++◌, Text, codes, length, ◌==◌, text_eq, if◌then◌else◌,
  Result, ok, err, map_err, and_then,
}
use bullet_git.Prelude.Exec.{pure, raise, lift, ◌>>=◌, ◌>>◌}
use bullet_git.Types.Authority.{ExpectedAuthority, WireAuthorityToken, parse}
use bullet_git.Types.Candidate.{validate_identity}
use bullet_git.Types.ProofRoot
use bullet_git.Types.ProofRoot.{bind, verify_proof_root}
use bullet_git.Workspace.Scope
use bullet_git.Gitd.Ledger.Subject.{
  clone_workspace, apply_patch, checkpoint, prepare_candidate, preserve_workspace,
}
use bullet_git.Gitd.Gateway.Operations.{attach_ledger_root, gateway_kernel}
use bullet_git.Gitd.Daemon.Types.{
  MethodError, Request, CloneParams, CloneRequest, cap, auth, candidate_manifest, parse_params,
  to_value, decode_patches, Repository, Session, Daemon,
}
use bullet_git.Gitd.Daemon.{
  Parts, Turn, envelope, Handler, current, verify_token, ask, Work, mutate, on_session,
}
use bullet_git.Gitd.Daemon.Cleaning.{handle_cleanup}

module _ (Value Clone Repo Keeper Cleanup : Type 0) (parts : Parts Value)
    (repository : Repository Clone Repo Keeper Cleanup) where
  abbrev Handle : Type 0
  Handle = Handler Value Repo Keeper parts Value

  unfoldable pub new_daemon : Daemon Repo Keeper
  new_daemon = record { session = none; authority = gateway_kernel; mutation_frozen = false }

  -- The value that a successful clone answers with.
  unfoldable pub clone_report : Repo → Value
  clone_report repo =
      let workspace = repository.workspace repo in
      let e = parts.encoder in
      parts.json.object (
        (codes "repo_dir", e.text workspace.repo_dir)
        ∷ (codes "runtime_dir", e.text workspace.runtime_dir)
        ∷ (codes "branch", e.text workspace.branch)
        ∷ (codes "base_sha", e.text workspace.base_sha)
        ∷ (codes "base_checkpoint_id", e.text workspace.active_checkpoint.id)
        ∷ (codes "base_checkpoint_digest", e.digest workspace.active_checkpoint.digest)
        ∷ (codes "active_generation", e.binding workspace.active_generation)
        ∷ [])

  -- Creating the workspace and its repository.
  unfoldable pub create_session :
      CloneParams → WireAuthorityToken → Result MethodError (Session Repo Keeper)
  create_session params token =
      let display = parts.display in
      let request : CloneRequest = record {
        source_repo = params.source_repo;
        base_sha = params.base_sha;
        variant_id = token.variant_id;
        attempt_id = token.attempt_id;
        root = params.root;
        created_at = params.created_at;
        nonce = token.workspace_nonce;
      } in
      let expected : ExpectedAuthority = record {
        attempt_id = token.attempt_id;
        attempt_fence = token.attempt_fence;
        workspace_nonce = token.workspace_nonce;
      } in
      and_then (map_err (cap display) (repository.create request)) (λ workspace.
        and_then (map_err (cap display) (Scope.new parts.unicode params.allowed_prefixes)) (λ grant.
          and_then (repository.open_keeper workspace) (λ preservation.
            and_then
              (map_err (cap display) (repository.new workspace grant expected params.commit_date))
              (λ repo.
                ok (record { repo = repo; expected = expected; preservation = preservation })))))

  unfoldable pub clone_work : CloneParams → WireAuthorityToken → Work Value Repo Keeper parts
  clone_work params token session = elim (create_session params token) [
    | err e ↦ (err e, session)
    | ok created ↦ (ok (clone_report created.repo), some created)
  ]

  unfoldable pub refuse_cloned : Option (Session Repo Keeper) → Result MethodError (Unit {0})
  refuse_cloned none = ok tt
  refuse_cloned (some _) =
      err (codes "ALREADY_CLONED", codes "this daemon already serves a workspace")

  unfoldable pub attach : Turn Value → Text → Handler Value Repo Keeper parts (Unit {0})
  attach t root d =
      (ok tt, record d { authority = attach_ledger_root (t.attached root) d.authority })

  unfoldable pub handle_clone : Turn Value → Request Value → Handle
  handle_clone t req = do
    ask Value Repo Keeper parts (λ d. refuse_cloned d.session)
    token ←
        lift
          (map_err (auth parts.display) (parse parts.tokens (envelope Value parts req.token).token))
    params ← lift (parse_params parts.display parts.params.clone req.params)
    attach t params.root
    mutate Value Repo Keeper parts t req clone_workspace token (clone_work params token)

  unfoldable pub handle_read_tree : Request Value → Handle
  handle_read_tree req = do
    token ← ask Value Repo Keeper parts (verify_token Value Repo Keeper parts req)
    session ← ask Value Repo Keeper parts (current Value Repo Keeper parts)
    files ← lift (
        map_err (cap parts.display)
          (repository.read_tree session.repo (envelope Value parts req.token)))
    pure (parts.json.object ((codes "files", parts.encoder.texts files) ∷ []))

  unfoldable pub handle_apply_change : Turn Value → Request Value → Handle
  handle_apply_change t req = do
    token ← ask Value Repo Keeper parts (verify_token Value Repo Keeper parts req)
    params ← lift (parse_params parts.display parts.params.apply req.params)
    patches ← lift (decode_patches parts.display parts.hashing params)
    mutate Value Repo Keeper parts t req apply_patch token (
        on_session Value Repo Keeper parts (λ session.
          let applied =
            repository.apply_change session.repo (envelope Value parts req.token) patches in
          (
            and_then (map_err (cap parts.display) applied.0) (λ done. ok (
                parts.json.object ((codes "applied", parts.encoder.number (length patches)) ∷ []))),
            record session { repo = applied.1 },
          )))

  unfoldable pub handle_apply_proposal : Turn Value → Request Value → Handle
  handle_apply_proposal t req = do
    token ← ask Value Repo Keeper parts (verify_token Value Repo Keeper parts req)
    proposal ← lift (parse_params parts.display parts.params.proposal req.params)
    session ← ask Value Repo Keeper parts (current Value Repo Keeper parts)
    let auth_envelope = envelope Value parts req.token
    lift (
        map_err (cap parts.display)
          (repository.validate_proposal session.repo auth_envelope proposal))
    mutate Value Repo Keeper parts t req apply_patch token (
        on_session Value Repo Keeper parts (λ served.
          let applied = repository.apply_proposal served.repo auth_envelope proposal in
          let workspace = repository.workspace applied.1 in
          let e = parts.encoder in
          (
            and_then (map_err (cap parts.display) applied.0) (λ point. ok (
                parts.json.object (
                  (codes "proposal_id", e.text proposal.proposal_id)
                  ∷ (codes "applied", e.number (length proposal.operations))
                  ∷ (
                    codes "checkpoint",
                    parts.json.object (
                        (codes "id", e.text point.id)
                        ∷ (codes "digest", e.digest point.digest)
                        ∷ []),
                  )
                  ∷ (codes "repo_dir", e.text workspace.repo_dir)
                  ∷ (codes "active_generation", e.binding workspace.active_generation)
                  ∷ []))),
            record served { repo = applied.1 },
          )))

  unfoldable pub handle_checkpoint : Turn Value → Request Value → Handle
  handle_checkpoint t req = do
    token ← ask Value Repo Keeper parts (verify_token Value Repo Keeper parts req)
    mutate Value Repo Keeper parts t req checkpoint token (
        on_session Value Repo Keeper parts (λ session.
          let taken = repository.checkpoint session.repo (envelope Value parts req.token) in
          (
            and_then (map_err (cap parts.display) taken.0)
                (λ point. to_value parts.display (parts.encoder.checkpoint point)),
            record session { repo = taken.1 },
          )))

  unfoldable pub handle_prepare_candidate : Turn Value → Request Value → Handle
  handle_prepare_candidate t req = do
    token ← ask Value Repo Keeper parts (verify_token Value Repo Keeper parts req)
    params ← lift (parse_params parts.display parts.params.prepare req.params)
    session ← ask Value Repo Keeper parts (current Value Repo Keeper parts)
    let auth_envelope = envelope Value parts req.token
    lift (
        map_err (cap parts.display)
          (repository.validate_candidate_preparation session.repo auth_envelope params.provenance))
    mutate Value Repo Keeper parts t req prepare_candidate token (
        on_session Value Repo Keeper parts (λ served.
          let prepared =
            repository.prepare_candidate served.repo auth_envelope params.change
              params.provenance in
          (
            and_then (map_err (cap parts.display) prepared.0)
                (λ candidate. to_value parts.display (parts.encoder.candidate candidate)),
            record served { repo = prepared.1 },
          )))

  unfoldable pub handle_bind_proof : Request Value → Result MethodError Value
  handle_bind_proof req =
      and_then (parse_params parts.display parts.params.bind_proof req.params) (λ params.
        and_then
          (map_err (candidate_manifest parts.display)
            (validate_identity parts.hashing parts.canonical params.candidate))
          (λ valid.
            to_value parts.display
              (parts.encoder.proof_root (bind parts.hashing params.candidate params.inputs))))

  unfoldable pub handle_verify_proof_root : Request Value → Result MethodError Value
  handle_verify_proof_root req =
      and_then (parse_params parts.display parts.params.verify_proof req.params) (λ params.
        and_then
          (map_err (candidate_manifest parts.display)
            (validate_identity parts.hashing parts.canonical params.candidate))
          (λ valid.
            and_then
              (map_err (λ e. (ProofRoot.reason_code e, parts.display.proof_root))
                (verify_proof_root parts.hashing params.root params.candidate params.inputs))
              (λ bound.
                ok (parts.json.object ((codes "verified", parts.encoder.boolean true) ∷ [])))))

  unfoldable pub handle_preserve : Turn Value → Request Value → Handle
  handle_preserve t req = do
    token ← ask Value Repo Keeper parts (verify_token Value Repo Keeper parts req)
    destination ← lift (parse_params parts.display parts.params.preserve req.params)
    mutate Value Repo Keeper parts t req preserve_workspace token (
        on_session Value Repo Keeper parts (λ session.
          let issued =
            repository.issue session.preservation session.repo (envelope Value parts req.token)
              destination in
          let e = parts.encoder in
          (
            and_then (map_err (cap parts.display) issued) (λ receipt. ok (
                parts.json.object (
                  (codes "preservation_receipt", e.text receipt.token)
                  ∷ (codes "preservation_receipt_digest", e.text receipt.receipt_digest)
                  ∷ (codes "artifact_digest", e.text receipt.artifact_digest)
                  ∷ (codes "destination", e.text receipt.destination)
                  ∷ []))),
            session,
          )))

  unfoldable pub dispatch : Turn Value → Request Value → Handle
  dispatch t req =
      if req.method == codes "clone"
      then handle_clone t req
      else if req.method == codes "read_tree"
      then handle_read_tree req
      else if req.method == codes "apply_change"
      then handle_apply_change t req
      else if req.method == codes "apply_proposal"
      then handle_apply_proposal t req
      else if req.method == codes "checkpoint"
      then handle_checkpoint t req
      else if req.method == codes "prepare_candidate"
      then handle_prepare_candidate t req
      else if req.method == codes "preserve"
      then handle_preserve t req
      else if req.method == codes "cleanup"
      then handle_cleanup Value Clone Repo Keeper Cleanup parts repository t req
      else if req.method == codes "bind_proof"
      then lift (handle_bind_proof req)
      else if req.method == codes "verify_proof_root"
      then lift (handle_verify_proof_root req)
      else raise (codes "UNKNOWN_METHOD", codes "unknown method: " ++ req.method)
