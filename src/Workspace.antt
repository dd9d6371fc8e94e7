-- ===== src/Workspace.antt =====
-- The crate bullet-git-workspace: scope grants, patch batches, status lines, the refusal of hostile
-- configuration keys, and the errors that these share.
pub mod Error
pub mod Scope
pub mod Patch
pub mod Status
pub mod GitConfig
pub mod Generation
