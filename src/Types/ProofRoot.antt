-- ===== src/Types/ProofRoot.antt =====
-- crates/bullet-git-types/src/change_proof.rs: binding a proof root to an exact candidate, and
-- verifying one.
pub mod Binding
use bullet_git.Prelude.{
  ℕ_discrete, Bool, not, List, [], ◌∷◌, Bytes, Text, codes, Eq, ◌==◌, if◌then◌else◌, Result, ok,
  err,
}
use bullet_git.Types.Digest.{Hashing, Digest, frame, frame_all, framed_digest}
use bullet_git.Types.Candidate.{Candidate}

pub record ProofInputs : Type 0 where
  pub scope_and_write_set : Bytes
  pub runner_and_sandbox : Bytes
  pub toolchain_and_deps : Bytes
  pub evidence : Bytes
  pub verifier_evidence : Bytes
  pub reviews : Bytes
  pub policy : Bytes
  pub approvals_and_effect_receipts : Bytes

abbrev pub empty : ProofInputs
empty = record {
  scope_and_write_set = [];
  runner_and_sandbox = [];
  toolchain_and_deps = [];
  evidence = [];
  verifier_evidence = [];
  reviews = [];
  policy = [];
  approvals_and_effect_receipts = [];
}

unfoldable pub named_leaves : ProofInputs → List (Text × Bytes)
named_leaves inputs =
    (codes "scope_and_write_set", inputs.scope_and_write_set)
    ∷ (codes "runner_and_sandbox", inputs.runner_and_sandbox)
    ∷ (codes "toolchain_and_deps", inputs.toolchain_and_deps)
    ∷ (codes "evidence", inputs.evidence)
    ∷ (codes "verifier_evidence", inputs.verifier_evidence)
    ∷ (codes "reviews", inputs.reviews)
    ∷ (codes "policy", inputs.policy)
    ∷ (codes "approvals_and_effect_receipts", inputs.approvals_and_effect_receipts)
    ∷ []

pub record ProofRoot : Type 0 where
  pub candidate : Text
  pub root : Digest

unfoldable pub proof_root_discrete : Discrete ProofRoot
unfolding ℕ_discrete
proof_root_discrete = hlevel ℕ_discrete

instance abbrev pub proof_root_eq : Eq ProofRoot
proof_root_eq = record { decide_eq = proof_root_discrete }

pub data ProofRootError : Type 0 where
  mismatch : ProofRootError

unfoldable pub reason_code : ProofRootError → Text
reason_code mismatch = codes "PROOF_ROOT_MISMATCH"

-- The `lineage` buffer of `bind`.
unfoldable pub lineage_of : Candidate → Bytes
lineage_of candidate =
    frame_all (frame [] candidate.manifest.change_id) candidate.manifest.parent_candidate_ids

-- The fields that `bind` frames, in order.
unfoldable pub bound_fields : Candidate → ProofInputs → List Bytes
unfolding lineage_of
bound_fields candidate inputs =
    codes "proof-root.v3"
    ∷ candidate.id
    ∷ candidate.content_id
    ∷ candidate.manifest.base_commit
    ∷ candidate.manifest.head_commit
    ∷ candidate.manifest.tree_oid
    ∷ candidate.manifest.patch_digest
    ∷ lineage_of candidate
    ∷ inputs.scope_and_write_set
    ∷ inputs.runner_and_sandbox
    ∷ inputs.toolchain_and_deps
    ∷ inputs.evidence
    ∷ inputs.verifier_evidence
    ∷ inputs.reviews
    ∷ inputs.policy
    ∷ inputs.approvals_and_effect_receipts
    ∷ []

module _ (h : Hashing) where
  unfoldable pub bind : Candidate → ProofInputs → ProofRoot
  unfolding bound_fields
  bind candidate inputs = record {
    candidate = candidate.id;
    root = framed_digest h (bound_fields candidate inputs);
  }

  unfoldable pub compute : Candidate → Bytes → Bytes → Bytes → Bytes → ProofRoot
  unfolding bind
  compute candidate scope evidence reviews policy = bind candidate (record {
    scope_and_write_set = scope;
    runner_and_sandbox = [];
    toolchain_and_deps = [];
    evidence = evidence;
    verifier_evidence = [];
    reviews = reviews;
    policy = policy;
    approvals_and_effect_receipts = [];
  })

  unfoldable pub verify : ProofRoot → Candidate → ProofInputs → Result ProofRootError (Unit {0})
  unfolding bind
  verify root candidate inputs = if not (root == bind candidate inputs) then err mismatch else ok tt

  unfoldable pub verify_proof_root :
      ProofRoot → Candidate → ProofInputs → Result ProofRootError (Unit {0})
  unfolding verify
  verify_proof_root root candidate inputs = verify root candidate inputs
