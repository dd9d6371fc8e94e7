-- ===== src/Types/ProofRoot/Binding.antt =====
-- A proof root binds one candidate and one set of leaves, unless the hash collides.
use bullet_git.Prelude.{
  ◌≡◌, ◌≢◌, ◌⊎◌, inl, inr, sym, ap, ◌∙◌, [], ◌∷◌, Bytes, ok, arith, All, text_discrete,
}
use bullet_git.Types.Digest.{Hashing, framed_digest, digest_of, frame_all}
use bullet_git.Types.Digest.Framing.{FitsU64, frame_all-injective}
use bullet_git.Types.Candidate.{Candidate}
use bullet_git.Types.ProofRoot.{
  ProofInputs, ProofRoot, lineage_of, bound_fields, bind, verify_proof_root,
}

-- What a 64-bit machine can hold.
abbrev pub FitsBinding : Candidate → ProofInputs → Type 0
FitsBinding c i =
    All FitsU64 (bound_fields c i)
    × All FitsU64 (c.manifest.change_id ∷ c.manifest.parent_candidate_ids)

-- Two inputs that are different and have one hash.
pub record Collision (h : Hashing) (first second : Bytes) : Type 0 where
  pub apart : first ≢ second
  pub same_hash : h.blake3 first ≡ h.blake3 second

-- The facts of a candidate that its proof root binds.
pub record SameBound (c d : Candidate) : Type 0 where
  pub id : c.id ≡ d.id
  pub content_id : c.content_id ≡ d.content_id
  pub base_commit : c.manifest.base_commit ≡ d.manifest.base_commit
  pub head_commit : c.manifest.head_commit ≡ d.manifest.head_commit
  pub tree_oid : c.manifest.tree_oid ≡ d.manifest.tree_oid
  pub patch_digest : c.manifest.patch_digest ≡ d.manifest.patch_digest
  pub change_id : c.manifest.change_id ≡ d.manifest.change_id
  pub parents : c.manifest.parent_candidate_ids ≡ d.manifest.parent_candidate_ids

bound_fields-injective :
    (c d : Candidate) (i j : ProofInputs)
    → FitsBinding c i
    → FitsBinding d j
    → bound_fields c i ≡ bound_fields d j
    → SameBound c d × (i ≡ j)
unfolding bound_fields lineage_of frame_all
bound_fields-injective c d i j fc fd e =
    let buffers : lineage_of c ≡ lineage_of d = cc in
    let lineage =
      frame_all-injective (c.manifest.change_id ∷ c.manifest.parent_candidate_ids)
        (d.manifest.change_id ∷ d.manifest.parent_candidate_ids) fc.1 fd.1 buffers in
    (
      record {
        id = cc;
        content_id = cc;
        base_commit = cc;
        head_commit = cc;
        tree_oid = cc;
        patch_digest = cc;
        change_id = cc lineage;
        parents = cc lineage;
      },
      cc,
    )

module _ (h : Hashing) where
  verify-eq :
      (root : ProofRoot) (c : Candidate) (i : ProofInputs)
      → verify_proof_root h root c i ≡ ok tt
      → root ≡ bind h c i
  unfolding verify_proof_root
  verify-eq root c i e = ground arith

  -- A proof root that verifies against two candidates and two sets of leaves of a 64-bit machine binds
  -- the same identities, commits, tree, patch, change and parents and the same eight leaves, unless the
  -- preimages that the two bind, the framed fields of each, are different and have one hash.
  pub proof_root_binds :
      (root : ProofRoot) (c d : Candidate) (i j : ProofInputs)
      → FitsBinding c i
      → FitsBinding d j
      → verify_proof_root h root c i ≡ ok tt
      → verify_proof_root h root d j ≡ ok tt
      → (SameBound c d × (i ≡ j))
        ⊎ Collision h (frame_all [] (bound_fields c i)) (frame_all [] (bound_fields d j))
  unfolding bind framed_digest digest_of
  proof_root_binds root c d i j fc fd e f =
      let hashes = ap (λ r. r.root) (sym (verify-eq root c i e) ∙ verify-eq root d j f) in
      elim (text_discrete (frame_all [] (bound_fields c i)) (frame_all [] (bound_fields d j))) [
        | yes same ↦ inl (
            bound_fields-injective c d i j fc fd
              (frame_all-injective (bound_fields c i) (bound_fields d j) fc.0 fd.0 same))
        | no apart ↦ inr (record { apart = apart; same_hash = hashes })
      ]
