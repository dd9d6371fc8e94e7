-- ===== src/Types.antt =====
-- The crate bullet-git-types: digests and framing, typed identifiers, authority tokens, patch
-- proposals and the lineage of changes.
pub mod Digest
pub mod Candidate
pub mod ProofRoot
pub mod Ids
pub mod GitOid
pub mod Authority
pub mod Lineage
pub mod RepoPath
pub mod Proposal
