-- ===== src/Gitd/Memory/Atomic.antt =====
-- A change or a proposal is applied as a whole or not at all.
use bullet_git.Prelude.{
  ◌≡◌, ◌⊎◌, inl, inr, sym, ap, ◌∙◌, false, List, [], Text, text_eq, ok, err, arith, Result-cases,
}
use mathlib.Core.Path.{subst}
use bullet_git.Types.Digest.{Hashing}
use bullet_git.Types.Authority.{AuthorityEnvelope, TokenDecoder}
use bullet_git.Types.RepoPath.{Unicode}
use bullet_git.Workspace.Error.{CapabilityError}
use bullet_git.Workspace.Patch.{PatchHunk, validate_batch}
use bullet_git.Workspace.Patch.Admission.{AreAdmitted, validate_batch-ok}
use bullet_git.Gitd.Memory.{MemoryRepository, find, exists, apply_all, admit_change, apply_change}
use bullet_git.Gitd.Memory.Files.{AreDistinct, after, find-apply_all}

module _ (u : Unicode) (h : Hashing) (from_slice : TokenDecoder) where
  admit_change-ok :
      (r : MemoryRepository) (auth : AuthorityEnvelope) (patches : List PatchHunk)
      (paths : List Text)
      → admit_change u h from_slice r auth patches ≡ ok paths
      → (r.is_worktree ≡ false) × (validate_batch u r.grant patches (exists r.files) ≡ ok paths)
  unfolding admit_change
  admit_change-ok r auth patches paths admitted = (ground arith, ground arith)

  -- A change of files of distinct paths either is refused, and then nothing changes, or is done, and
  -- then the repository is no worktree, every hunk was admitted under its path, the paths are still
  -- distinct, each path reads as the last of its hunks says, and nothing but files and journal changes.
  pub apply_change_atomic :
      (r : MemoryRepository) (auth : AuthorityEnvelope) (patches : List PatchHunk)
      → AreDistinct r.files
      → let done = apply_change u h from_slice r auth patches in
        ((e : CapabilityError) × (done ≡ (err e, r)))
        ⊎ ((paths : List Text) × (done.0 ≡ ok tt)
            × (r.is_worktree ≡ false)
            × AreAdmitted u r.grant (exists r.files) [] patches paths
            × AreDistinct done.1.files
            × ((q : Text) → find q done.1.files ≡ after patches paths q (find q r.files))
            × (done.1 ≡ record r { files = done.1.files; journal = done.1.journal }))
  unfolding apply_change
  apply_change_atomic r auth patches distinct =
      elim (Result-cases (admit_change u h from_slice r auth patches)) [
        | inr (e, refusal) ↦ inl (e, ground arith)
        | inl (paths, admitted) ↦
            let checked = admit_change-ok r auth patches paths admitted in
            let batch = validate_batch-ok u r.grant (exists r.files) patches paths (checked.1) in
            let applied = find-apply_all h patches paths (r.files, r.journal) distinct in
            let files : (apply_change u h from_slice r auth patches).1.files
                ≡ (apply_all h patches paths (r.files, r.journal)).0 =
              ground arith in
            inr (
              paths,
              ground arith,
              checked.0,
              batch.3,
              subst AreDistinct (sym files) (applied.0),
              (λ q. ap (find q) files ∙ applied.1 q),
              ground arith,
            )
      ]
