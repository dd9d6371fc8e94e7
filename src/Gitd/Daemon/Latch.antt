-- ===== src/Gitd/Daemon/Latch.antt =====
-- The latch of the daemon: an indeterminate outcome freezes it, and a frozen daemon changes nothing.
use bullet_git.Prelude.{
  ◌≡◌, ◌⊎◌, inl, inr, refl, true, List, [], ◌∷◌, ◌++◌, Text, text_eq, ok, err, Option-cases,
  Bool-cases, arith, map_err, codes, ◌==◌,
}
use bullet_git.Types.Authority.{parse, WireAuthorityToken}
use bullet_git.Gitd.Ledger.Subject.{
  MutationOutcome, MutationResult, clone_workspace, apply_patch, checkpoint, prepare_candidate,
  preserve_workspace, cleanup_workspace, committed, aborted, unknown,
}
use bullet_git.Gitd.Gateway.Types.{ReceiptAuthorization, fresh, replay}
use bullet_git.Gitd.Gateway.Operations.{attach_ledger_root}
use bullet_git.Gitd.Daemon.Types.{
  MethodError, Request, Repository, Session, Daemon, CleanupParams, CloneParams, auth, cap,
  parse_params, decode_patches, PatchParam, PrepareParams,
}
use bullet_git.Workspace.Patch.{PatchHunk}
use bullet_git.Types.Proposal.{PatchProposal}
use bullet_git.Gitd.Daemon.{
  Parts, Turn, require_unfrozen, authorize_cleanup_by_receipt, consume_receipt_permit,
  result_digest, cleanup_result, verify_token, current, envelope,
}
use bullet_git.Gitd.Daemon.Rules.{
  Quiet, Latched, Still, Sound, Latched-bind, sound-bind, after, asked, blocked-bind, idle,
  branch-sound, run-Latched, receipt-Quiet, receipt-Blocks, consume_receipt-Quiet, mutate-sound,
}
use bullet_git.Gitd.Daemon.Cleaning.{
  replay_cleanup, replay_outcome, replay_committed, receipt_subject, cleanup_authorized,
  handle_cleanup,
}
use bullet_git.Gitd.Daemon.Handlers.{
  attach, refuse_cloned, clone_work, handle_clone, handle_read_tree, handle_apply_change,
  handle_apply_proposal, handle_checkpoint, handle_prepare_candidate, handle_preserve, dispatch,
}

module _ (Value Clone Repo Keeper Cleanup : Type 0) (parts : Parts Value)
    (repository : Repository Clone Repo Keeper Cleanup) where
  committed-Latched :
      (runtime_dir digest : Text) (settled : MutationResult)
      → Latched (
          replay_committed Value Clone Repo Keeper Cleanup parts repository runtime_dir digest
            settled)
  unfolding replay_committed
  committed-Latched runtime_dir digest settled d e failed =
      elim (Option-cases (
        parts.json.to_vec
          (cleanup_result Value parts (runtime_dir ++ codes "/tombstone.json") digest))) [
            | inl nothing ↦ inl (ground arith)
            | inr (encoded, enc) ↦
                elim (Bool-cases (
                  result_digest Value parts cleanup_workspace committed encoded
                  == settled.result_digest)) [
                    | inl same ↦ absurd (ground arith)
                    | inr other ↦ inl (ground arith)
                  ]
          ]

  replay-Latched :
      (outcome : MutationOutcome) (runtime_dir digest : Text) (settled : MutationResult)
      → Latched (
          replay_outcome Value Clone Repo Keeper Cleanup parts repository outcome runtime_dir digest
            settled)
  unfolding replay_outcome
  replay-Latched committed runtime_dir digest settled d e failed =
      committed-Latched runtime_dir digest settled d e failed
  replay-Latched aborted runtime_dir digest settled d e failed = inl refl
  replay-Latched unknown runtime_dir digest settled d e failed = inr refl

  attach-Quiet :
      (t : Turn Value) (root : Text)
      → Quiet (attach Value Clone Repo Keeper Cleanup parts repository t root)
  unfolding attach
  attach-Quiet t root d = refl

  attach-Still :
      (t : Turn Value) (root : Text)
      → Still (attach Value Clone Repo Keeper Cleanup parts repository t root)
  unfolding attach attach_ledger_root
  attach-Still t root d frozen = (refl, frozen, refl)

  clone-sound :
      (t : Turn Value) (req : Request Value)
      → Sound (handle_clone Value Clone Repo Keeper Cleanup parts repository t req)
  unfolding handle_clone
  clone-sound t req =
      asked (λ d. refuse_cloned Value Clone Repo Keeper Cleanup parts repository d.session) _
        (λ (u : Unit {0}).
          after
            (map_err (auth parts.display)
              (parse parts.tokens (envelope Value parts req.token).token))
            _
            (λ (token : WireAuthorityToken).
              after (parse_params parts.display parts.params.clone req.params) _
                (λ (params : CloneParams).
                  sound-bind (attach Value Clone Repo Keeper Cleanup parts repository t params.root)
                    _ (attach-Quiet t params.root) (attach-Still t params.root)
                    (λ v.
                      mutate-sound Repo Keeper parts t req clone_workspace token (
                        clone_work Value Clone Repo Keeper Cleanup parts repository params
                          token)))))

  read_tree-sound :
      (req : Request Value)
      → Sound (handle_read_tree Value Clone Repo Keeper Cleanup parts repository req)
  unfolding handle_read_tree
  read_tree-sound req =
      asked (verify_token Value Repo Keeper parts req) _ (λ (token : WireAuthorityToken).
        asked (current Value Repo Keeper parts) _ (λ (session : Session Repo Keeper).
          after
            (map_err (cap parts.display)
              (repository.read_tree session.repo (envelope Value parts req.token)))
            _
            (λ (files : List Text).
              idle (ok (parts.json.object ((codes "files", parts.encoder.texts files) ∷ []))))))

  apply_change-sound :
      (t : Turn Value) (req : Request Value)
      → Sound (handle_apply_change Value Clone Repo Keeper Cleanup parts repository t req)
  unfolding handle_apply_change
  apply_change-sound t req =
      asked (verify_token Value Repo Keeper parts req) _ (λ (token : WireAuthorityToken).
        after (parse_params parts.display parts.params.apply req.params) _
          (λ (params : List PatchParam).
            after (decode_patches parts.display parts.hashing params) _
              (λ (patches : List PatchHunk).
                mutate-sound Repo Keeper parts t req apply_patch token _)))

  apply_proposal-sound :
      (t : Turn Value) (req : Request Value)
      → Sound (handle_apply_proposal Value Clone Repo Keeper Cleanup parts repository t req)
  unfolding handle_apply_proposal
  apply_proposal-sound t req =
      asked (verify_token Value Repo Keeper parts req) _ (λ (token : WireAuthorityToken).
        after (parse_params parts.display parts.params.proposal req.params) _
          (λ (proposal : PatchProposal).
            asked (current Value Repo Keeper parts) _ (λ (session : Session Repo Keeper).
              after
                (map_err (cap parts.display) (
                  repository.validate_proposal session.repo (envelope Value parts req.token)
                    proposal))
                _ (λ (u : Unit {0}). mutate-sound Repo Keeper parts t req apply_patch token _))))

  checkpoint-sound :
      (t : Turn Value) (req : Request Value)
      → Sound (handle_checkpoint Value Clone Repo Keeper Cleanup parts repository t req)
  unfolding handle_checkpoint
  checkpoint-sound t req =
      asked (verify_token Value Repo Keeper parts req) _
        (λ (token : WireAuthorityToken). mutate-sound Repo Keeper parts t req checkpoint token _)

  prepare-sound :
      (t : Turn Value) (req : Request Value)
      → Sound (handle_prepare_candidate Value Clone Repo Keeper Cleanup parts repository t req)
  unfolding handle_prepare_candidate
  prepare-sound t req =
      asked (verify_token Value Repo Keeper parts req) _ (λ (token : WireAuthorityToken).
        after (parse_params parts.display parts.params.prepare req.params) _
          (λ (params : PrepareParams).
            asked (current Value Repo Keeper parts) _ (λ (session : Session Repo Keeper).
              after
                (map_err (cap parts.display) (
                  repository.validate_candidate_preparation session.repo
                    (envelope Value parts req.token) params.provenance))
                _
                (λ (u : Unit {0}).
                  mutate-sound Repo Keeper parts t req prepare_candidate token _))))

  preserve-sound :
      (t : Turn Value) (req : Request Value)
      → Sound (handle_preserve Value Clone Repo Keeper Cleanup parts repository t req)
  unfolding handle_preserve
  preserve-sound t req =
      asked (verify_token Value Repo Keeper parts req) _ (λ (token : WireAuthorityToken).
        after (parse_params parts.display parts.params.preserve req.params) _
          (λ (destination : Text). mutate-sound Repo Keeper parts t req preserve_workspace token _))

  authorized-Latched :
      (t : Turn Value) (req : Request Value) (params : CleanupParams)
      (session : Session Repo Keeper) (authorized : Cleanup) (admitted : ReceiptAuthorization)
      → Latched (
          cleanup_authorized Value Clone Repo Keeper Cleanup parts repository t req params session
            authorized admitted)
  unfolding cleanup_authorized replay_cleanup
  authorized-Latched t req params session authorized (replay settled) =
      replay-Latched settled.outcome (repository.workspace session.repo).runtime_dir
        (repository.receipt_digest authorized) settled
  authorized-Latched t req params session authorized (fresh permit) =
      Latched-bind (consume_receipt_permit Value Repo Keeper parts t.consuming req permit) _
        (consume_receipt-Quiet Repo Keeper parts t.consuming req permit)
        (λ pending. run-Latched Repo Keeper parts t.settling cleanup_workspace pending true _)

  cleanup-sound :
      (t : Turn Value) (req : Request Value)
      → Sound (handle_cleanup Value Clone Repo Keeper Cleanup parts repository t req)
  unfolding handle_cleanup
  cleanup-sound t req =
      asked (verify_token Value Repo Keeper parts req) _ (λ (token : WireAuthorityToken).
        after (parse_params parts.display parts.params.cleanup req.params) _
          (λ (params : CleanupParams).
            asked (require_unfrozen Value Repo Keeper parts) _ (λ (u : Unit {0}).
              asked (current Value Repo Keeper parts) _ (λ (session : Session Repo Keeper).
                after
                  (map_err (cap parts.display) (
                    repository.authorize_receipt session.preservation session.repo
                      (envelope Value parts req.token) params.preservation_receipt))
                  _
                  (λ (authorized : Cleanup).
                    blocked-bind
                      (authorize_cleanup_by_receipt Value Repo Keeper parts t.authorizing req (
                        receipt_subject Value Clone Repo Keeper Cleanup parts repository session
                          params authorized token))
                      _
                      (receipt-Quiet Repo Keeper parts t.authorizing req (
                        receipt_subject Value Clone Repo Keeper Cleanup parts repository session
                          params authorized token))
                      (receipt-Blocks Repo Keeper parts t.authorizing req (
                        receipt_subject Value Clone Repo Keeper Cleanup parts repository session
                          params authorized token))
                      (authorized-Latched t req params session authorized))))))

  dispatch-sound :
      (t : Turn Value) (req : Request Value)
      → Sound (dispatch Value Clone Repo Keeper Cleanup parts repository t req)
  unfolding dispatch
  dispatch-sound t req = branch-sound (req.method == codes "clone") _ _ (clone-sound t req) (
      branch-sound (req.method == codes "read_tree") _ _ (read_tree-sound req) (
        branch-sound (req.method == codes "apply_change") _ _ (apply_change-sound t req) (
          branch-sound (req.method == codes "apply_proposal") _ _ (apply_proposal-sound t req) (
            branch-sound (req.method == codes "checkpoint") _ _ (checkpoint-sound t req) (
              branch-sound (req.method == codes "prepare_candidate") _ _ (prepare-sound t req) (
                branch-sound (req.method == codes "preserve") _ _ (preserve-sound t req) (
                  branch-sound (req.method == codes "cleanup") _ _ (cleanup-sound t req) (
                    branch-sound (req.method == codes "bind_proof") _ _ (idle _) (
                      branch-sound (req.method == codes "verify_proof_root") _ _ (idle _)
                        (idle _))))))))))

  -- A request that is refused leaves the session as it was, or leaves the daemon frozen: no failure
  -- behind a change of the repository goes unnoticed, whatever the gateway, the repository and the
  -- file system answer.
  pub dispatch_latches :
      (t : Turn Value) (req : Request Value) (d : Daemon Repo Keeper) (e : MethodError)
      → (dispatch Value Clone Repo Keeper Cleanup parts repository t req d).0 ≡ err e
      → ((dispatch Value Clone Repo Keeper Cleanup parts repository t req d).1.session ≡ d.session)
        ⊎ ((dispatch Value Clone Repo Keeper Cleanup parts repository t req d).1.mutation_frozen
            ≡ true)
  dispatch_latches t req d e failed = (dispatch-sound t req).latched d e failed

  -- A frozen daemon stays frozen whatever it is asked, and neither its session nor its ledger changes.
  pub frozen_daemon_keeps :
      (t : Turn Value) (req : Request Value) (d : Daemon Repo Keeper)
      → d.mutation_frozen ≡ true
      → let left = dispatch Value Clone Repo Keeper Cleanup parts repository t req d in
        (left.1.session ≡ d.session)
        × (left.1.mutation_frozen ≡ true)
        × (left.1.authority.ledger ≡ d.authority.ledger)
  frozen_daemon_keeps t req d frozen = (dispatch-sound t req).still d frozen
