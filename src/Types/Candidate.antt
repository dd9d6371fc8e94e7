-- ===== src/Types/Candidate.antt =====
-- crates/bullet-git-types/src/change_candidate.rs: candidate manifests, their two addresses and the
-- check of the write set, with `CandidateProvenance` of crates/bullet-git-types/src/change.rs. The
-- canonical JSON encoder `serde_jcs` is a parameter.
pub mod WriteSet
pub mod Identity
use bullet_git.Prelude.{
  ℕ, Bool, false, not, ◌||◌, Option, none, some, List, [], ◌∷◌, ◌++◌, Bytes, Text, codes, any, ◌==◌,
  nat_eq, text_eq, Result, ok, err, ok_or, refuse_if, ◌>>=◌, ◌>>◌, starts_with, strip_prefix,
}
use bullet_git.Types.Digest.{Hashing, Digest, digest_of, frame}
use bullet_git.Types.Ids.{from_digest}

abbrev pub candidate_manifest_schema_version : ℕ
candidate_manifest_schema_version = 1

-- A typed identifier, a `GitOid` and a `RepoPath` are their texts.
pub record CandidateManifest : Type 0 where
  pub schema_version : ℕ
  pub repository_id : Text
  pub change_id : Text
  pub producing_attempt_id : Text
  pub attempt_fence : ℕ
  pub work_package_id : Text
  pub variant_id : Text
  pub plan_revision_id : Text
  pub graph_revision_id : Text
  pub base_checkpoint_id : Text
  pub base_commit : Text
  pub head_commit : Text
  pub tree_oid : Text
  pub patch_digest : Digest
  pub parent_candidate_ids : List Text
  pub granted_scope : List Text
  pub actual_scope : List Text
  pub context_capsule_id : Text
  pub configuration_snapshot_id : Text
  pub policy_snapshot_id : Text
  pub routing_snapshot_id : Text
  pub environment_digest : Digest
  pub toolchain_digest : Digest

pub record CandidateContentManifest : Type 0 where
  pub repository_id : Text
  pub base_commit : Text
  pub head_commit : Text
  pub tree_oid : Text
  pub patch_digest : Digest

pub data CandidateManifestError : Type 0 where
  unsupported_schema : ℕ → CandidateManifestError
  invalid_fence : CandidateManifestError
  actual_scope_exceeds_grant : Text → CandidateManifestError
  candidate_id_mismatch content_id_mismatch canonical_json : CandidateManifestError

unfoldable pub reason_code : CandidateManifestError → Text
reason_code (unsupported_schema _) = codes "UNSUPPORTED_SCHEMA"
reason_code invalid_fence = codes "INVALID_FENCE"
reason_code (actual_scope_exceeds_grant _) = codes "ACTUAL_SCOPE_EXCEEDS_GRANT"
reason_code candidate_id_mismatch = codes "CANDIDATE_ID_MISMATCH"
reason_code content_id_mismatch = codes "CONTENT_ID_MISMATCH"
reason_code canonical_json = codes "CANONICAL_JSON_FAILED"

-- `serde_jcs::to_vec` at the two types that are hashed.
pub record CanonicalJson : Type 0 where
  pub manifest_to_vec : CandidateManifest → Option Bytes
  pub content_to_vec : CandidateContentManifest → Option Bytes

pub record Candidate : Type 0 where
  pub id : Text
  pub content_id : Text
  pub manifest : CandidateManifest
  pub prepared_at : Text

unfoldable pub path_is_within : Text → Text → Bool
path_is_within grant path = path == grant || elim (strip_prefix grant path) [
  | none ↦ false
  | some remainder ↦ starts_with (codes "/") remainder
]

unfoldable pub write_set_within_grant :
    List Text → List Text → Result CandidateManifestError (Unit {0})
unfolding path_is_within
write_set_within_grant granted [] = ok tt
write_set_within_grant granted (path ∷ paths) = do
  refuse_if (not (any (λ grant. path_is_within grant path) granted))
      (actual_scope_exceeds_grant path)
  write_set_within_grant granted paths

unfoldable pub validate : CandidateManifest → Result CandidateManifestError (Unit {0})
unfolding write_set_within_grant
validate manifest = do
  refuse_if (not (manifest.schema_version == candidate_manifest_schema_version))
      (unsupported_schema manifest.schema_version)
  refuse_if (manifest.attempt_fence == 0) invalid_fence
  write_set_within_grant manifest.granted_scope manifest.actual_scope

module _ (h : Hashing) where
  -- `hash_canonical` on the encoder's answer, with its `hash_frame`.
  unfoldable pub hash_canonical : Text → Option Bytes → Result CandidateManifestError Digest
  hash_canonical domain encoded = do
    canonical ← ok_or encoded canonical_json
    ok (digest_of h (frame (frame (codes "bullet-wire.v1" ++ 0 ∷ []) domain) canonical))

  module _ (json : CanonicalJson) where
    unfoldable pub content_id : CandidateManifest → Result CandidateManifestError Text
    unfolding hash_canonical
    content_id manifest = do
      digest ← hash_canonical (codes "candidate.content") (
          json.content_to_vec (record {
            repository_id = manifest.repository_id;
            base_commit = manifest.base_commit;
            head_commit = manifest.head_commit;
            tree_oid = manifest.tree_oid;
            patch_digest = manifest.patch_digest;
          }))
      ok (from_digest h (codes "cnt") digest)

    unfoldable pub candidate_id : CandidateManifest → Result CandidateManifestError Text
    unfolding validate hash_canonical
    candidate_id manifest = do
      validate manifest
      digest ← hash_canonical (codes "candidate.provenance") (json.manifest_to_vec manifest)
      ok (from_digest h (codes "can") digest)

    unfoldable pub from_manifest :
        CandidateManifest → Text → Result CandidateManifestError Candidate
    unfolding content_id candidate_id
    from_manifest manifest prepared_at = do
      content ← content_id manifest
      id ← candidate_id manifest
      ok (record { id = id; content_id = content; manifest = manifest; prepared_at = prepared_at })

    unfoldable pub validate_identity : Candidate → Result CandidateManifestError (Unit {0})
    unfolding content_id candidate_id
    validate_identity candidate = do
      id ← candidate_id candidate.manifest
      refuse_if (not (candidate.id == id)) candidate_id_mismatch
      content ← content_id candidate.manifest
      refuse_if (not (candidate.content_id == content)) content_id_mismatch
      ok tt

pub record CandidateProvenance : Type 0 where
  pub schema_version : ℕ
  pub repository_id : Text
  pub producing_attempt_id : Text
  pub attempt_fence : ℕ
  pub work_package_id : Text
  pub variant_id : Text
  pub plan_revision_id : Text
  pub graph_revision_id : Text
  pub base_checkpoint_id : Text
  pub base_commit : Text
  pub parent_candidate_ids : List Text
  pub granted_scope : List Text
  pub context_capsule_id : Text
  pub configuration_snapshot_id : Text
  pub policy_snapshot_id : Text
  pub routing_snapshot_id : Text
  pub environment_digest : Digest
  pub toolchain_digest : Digest

unfoldable pub validate_provenance : CandidateProvenance → Result CandidateManifestError (Unit {0})
validate_provenance provenance = do
  refuse_if (not (provenance.schema_version == candidate_manifest_schema_version))
      (unsupported_schema provenance.schema_version)
  refuse_if (provenance.attempt_fence == 0) invalid_fence
  ok tt
