-- ===== src/Tests/CandidateRuns.antt =====
-- Candidates, proof roots and the lineage of generations.
use bullet_git.Prelude.{◌≡◌, ◌↔◌, ◌⊎◌, none, some, [], ◌∷◌, ◌++◌, Text, codes, ok, arith, ==_refl}
use mathlib.Core.List.{Memᴰ}
use bullet_git.Workspace.Scope.Coverage.{Covers}
use bullet_git.Types.Digest.{frame_all, frame, to_le_bytes}
use bullet_git.Types.Candidate.{
  CandidateManifest, CanonicalJson, Candidate, write_set_within_grant, from_manifest,
  validate_identity,
}
use bullet_git.Types.Candidate.WriteSet.{write_set_iff}
use bullet_git.Types.Candidate.Identity.{validate_identity_iff}
use bullet_git.Types.ProofRoot.{
  empty, bind, bound_fields, lineage_of, verify_proof_root, proof_root_eq,
}
use bullet_git.Types.ProofRoot.Binding.{FitsBinding, SameBound, Collision, proof_root_binds}
use bullet_git.Journal.{checkpoint}
use bullet_git.Workspace.Generation.{GenerationManifest}
use bullet_git.Workspace.Generation.Opening.{ControlCodec, lineage_loop, validate_lineage}
use bullet_git.Workspace.Generation.Ancestry.{Descends, validate_lineage_decides}
use bullet_git.Tests.Instances.{hashing, repeat}
use bullet_git.Tests.Samples.{zeros}

write_set_iff_example : (write_set_within_grant (codes "src" ∷ []) (codes "src/a" ∷ []) ≡ ok tt) ↔ (
    (path : Text)
    → Memᴰ path (codes "src/a" ∷ [])
    → (grant : Text) × Memᴰ grant (codes "src" ∷ []) × Covers grant path)
write_set_iff_example = write_set_iff (codes "src" ∷ []) (codes "src/a" ∷ [])

abbrev manifest : CandidateManifest
manifest = record {
  schema_version = 1;
  repository_id = codes "rep_" ++ zeros;
  change_id = codes "chg_" ++ zeros;
  producing_attempt_id = codes "atm_" ++ zeros;
  attempt_fence = 7;
  work_package_id = codes "wpk_" ++ zeros;
  variant_id = codes "var_" ++ zeros;
  plan_revision_id = codes "pln_" ++ zeros;
  graph_revision_id = codes "grf_" ++ zeros;
  base_checkpoint_id = codes "ckp_" ++ zeros;
  base_commit = codes "sha1:0";
  head_commit = codes "sha1:1";
  tree_oid = codes "sha1:2";
  patch_digest = repeat 32 5;
  parent_candidate_ids = (codes "can_" ++ zeros) ∷ [];
  granted_scope = codes "src" ∷ [];
  actual_scope = codes "src/a" ∷ [];
  context_capsule_id = codes "cnt_" ++ zeros;
  configuration_snapshot_id = codes "cnt_" ++ zeros;
  policy_snapshot_id = codes "cnt_" ++ zeros;
  routing_snapshot_id = codes "cnt_" ++ zeros;
  environment_digest = repeat 32 6;
  toolchain_digest = repeat 32 7;
}

-- Fields of a manifest instead of its JSON text.
abbrev pub canonical : CanonicalJson
canonical = record {
  manifest_to_vec = λ m. some m.change_id;
  content_to_vec = λ m. some m.repository_id;
}

abbrev candidate : Candidate
candidate = record {
  id = codes "can_" ++ zeros;
  content_id = codes "cnt_" ++ zeros;
  manifest = manifest;
  prepared_at = codes "now";
}

validate_identity_iff_example :
    (validate_identity hashing canonical candidate ≡ ok tt)
    ↔ (from_manifest hashing canonical manifest (codes "now") ≡ ok candidate)
validate_identity_iff_example = validate_identity_iff hashing canonical candidate

candidate_fits : FitsBinding candidate empty
unfolding bound_fields lineage_of frame_all frame to_le_bytes
candidate_fits = (
  (
    omega arith,
    (
      omega arith,
      (
        omega arith,
        (
          omega arith,
          (
            omega arith,
            (
              omega arith,
              (
                omega arith,
                (
                  omega arith,
                  (
                    omega arith,
                    (
                      omega arith,
                      (
                        omega arith,
                        (
                          omega arith,
                          (omega arith, (omega arith, (omega arith, (omega arith, tt)))),
                        ),
                      ),
                    ),
                  ),
                ),
              ),
            ),
          ),
        ),
      ),
    ),
  ),
  (omega arith, (omega arith, tt)),
)

verifies : verify_proof_root hashing (bind hashing candidate empty) candidate empty ≡ ok tt
unfolding verify_proof_root
verifies = ground (arith, ==_refl (bind hashing candidate empty))

proof_root_binds_example :
    (SameBound candidate candidate × (empty ≡ empty))
    ⊎ Collision hashing
        (frame_all [] (bound_fields candidate empty))
        (frame_all [] (bound_fields candidate empty))
proof_root_binds_example =
    proof_root_binds hashing (bind hashing candidate empty) candidate candidate empty empty
      candidate_fits candidate_fits verifies verifies

abbrev first : GenerationManifest
first = record {
  schema_version = 1;
  attempt_id = codes "a";
  workspace_nonce_hex = zeros;
  generation = 0;
  parent = none;
  checkpoint = checkpoint hashing [];
  manifest_digest = repeat 32 1;
}

abbrev controls : ControlCodec
controls = record {
  encode_manifest = λ m. none;
  decode_manifest = λ b. none;
  encode_pointer = λ p. none;
  decode_pointer = λ b. none;
}

validate_lineage_decides_example :
    (lineage_loop hashing controls 1 [] (codes "a") zeros first
      ≡ some (validate_lineage hashing controls [] first (codes "a") zeros))
    × ((validate_lineage hashing controls [] first (codes "a") zeros ≡ ok tt)
        ↔ Descends hashing controls [] (codes "a") zeros first)
validate_lineage_decides_example =
    validate_lineage_decides hashing controls [] (codes "a") zeros first 1 (omega arith)
