-- ===== src/Workspace/Patch/Admission.antt =====
-- What a batch satisfies once it is admitted.
use bullet_git.Prelude.{
  ℕ, ◌+◌, ◌≤◌, ◌≡◌, sym, ◌∙◌, Bool, true, false, none, List, [], ◌∷◌, ◌++◌, Text, length, is_empty,
  nat_eq, text_eq, ok, arith, checked_add, Result-cases, inl, inr,
}
use mathlib.Core.Path.{subst}
use mathlib.Core.List.{append_assoc, append-nil}
use bullet_git.Types.Proposal.{max_patch_operations, max_content_bytes, max_aggregate_content_bytes}
use bullet_git.Types.RepoPath.{Unicode}
use bullet_git.Workspace.Scope.{ScopeGrant, check}
use bullet_git.Workspace.Patch.{
  PatchOp, write, delete, PatchHunk, portable_lookup, Batch, empty_batch, add_contents,
  refuse_collision, is_delete, admit, admit_all, validate_batch,
}

-- The bytes that an operation writes.
unfoldable pub size : PatchOp → ℕ
size (write contents) = length contents
size delete = 0

unfoldable pub total_size : List PatchHunk → ℕ
unfolding size
total_size [] = 0
total_size (patch ∷ patches) = size patch.op + total_size patches

add_contents-ok :
    (path : Text) (aggregate total : ℕ) (op : PatchOp)
    → aggregate ≤ max_aggregate_content_bytes
    → add_contents path aggregate op ≡ ok total
    → (total ≡ aggregate + size op)
      × (size op ≤ max_content_bytes)
      × (total ≤ max_aggregate_content_bytes)
unfolding add_contents checked_add size
add_contents-ok path aggregate total (write contents) within h = ground arith
add_contents-ok path aggregate total delete within h = ground arith

some_patch : (patches : List PatchHunk) → is_empty patches ≡ false → 1 ≤ length patches
some_patch [] h = cc
some_patch (patch ∷ patches) h = omega arith

-- What holds of one admitted hunk and its path.
module _ (u : Unicode) (grant : ScopeGrant) (exists : Text → Bool) where
  abbrev pub IsAdmitted : PatchHunk → Text → Type 0
  IsAdmitted patch path =
      (check u grant patch.path ≡ ok path)
      × (size patch.op ≤ max_content_bytes)
      × (is_delete patch.op ≡ true → exists path ≡ true)

  -- The paths after the ones that were seen: each admitted, and apart from all before it, also when
  -- letter case is ignored.
  abbrev pub AreAdmitted : List (Text × Text) → List PatchHunk → List Text → Type 0
  AreAdmitted earlier [] [] = Unit
  AreAdmitted earlier [] (_ ∷ _) = ⊥
  AreAdmitted earlier (_ ∷ _) [] = ⊥
  AreAdmitted earlier (patch ∷ patches) (path ∷ paths) =
      IsAdmitted patch path
      × ((portable_lookup (u.lowercase path) earlier ≡ none)
          × AreAdmitted ((u.lowercase path, path) ∷ earlier) patches paths)

  admit-ok :
      (b b' : Batch) (patch : PatchHunk)
      → b.aggregate_content_bytes ≤ max_aggregate_content_bytes
      → admit u grant exists b patch ≡ ok b'
      → (path : Text) × (b'.normalized ≡ b.normalized ++ path ∷ [])
        × (b'.portable ≡ (u.lowercase path, path) ∷ b.portable)
        × (b'.aggregate_content_bytes ≡ b.aggregate_content_bytes + size patch.op)
        × (b'.aggregate_content_bytes ≤ max_aggregate_content_bytes)
        × IsAdmitted patch path
        × (portable_lookup (u.lowercase path) b.portable ≡ none)
  unfolding admit refuse_collision
  admit-ok b b' patch within h = elim (Result-cases (check u grant patch.path)) [
    | inr (e, failed) ↦ absurd (ground arith)
    | inl (path, checked) ↦
        elim (Result-cases (add_contents path b.aggregate_content_bytes patch.op)) [
          | inr (e, failed) ↦ absurd (ground arith)
          | inl (total, added) ↦
              let sizes =
                add_contents-ok path b.aggregate_content_bytes total patch.op within added in
              (
                path,
                ground arith,
                ground arith,
                ground (arith, sizes),
                ground (arith, sizes),
                (checked, sizes.1, λ deletes. ground arith),
                ground arith,
              )
        ]
  ]

  admit_all-ok :
      (b b' : Batch) (patches : List PatchHunk)
      → b.aggregate_content_bytes ≤ max_aggregate_content_bytes
      → admit_all u grant exists b patches ≡ ok b'
      → (paths : List Text) × (b'.normalized ≡ b.normalized ++ paths)
        × AreAdmitted b.portable patches paths
        × (b'.aggregate_content_bytes ≡ b.aggregate_content_bytes + total_size patches)
        × (b'.aggregate_content_bytes ≤ max_aggregate_content_bytes)
  unfolding admit_all total_size
  admit_all-ok b b' [] within h =
      ([], ground (arith, append-nil b.normalized), tt, ground arith, ground arith)
  admit_all-ok b b' (patch ∷ patches) within h =
      elim (Result-cases (admit u grant exists b patch)) [
        | inr (e, failed) ↦ absurd (ground arith)
        | inl (next, admitted) ↦
            let first = admit-ok b next patch within admitted in
            let rest = admit_all-ok next b' patches (first.4) (ground arith) in
            (
              first.0 ∷ rest.0,
              ground (arith, first, rest, append_assoc b.normalized (first.0 ∷ []) (rest.0)),
              (
                first.5,
                (
                  first.6,
                  subst (λ earlier. AreAdmitted earlier patches (rest.0)) (first.2) (rest.2),
                ),
              ),
              ground (arith, first, rest),
              rest.4,
            )
      ]

  -- A batch that is accepted has between 1 and 128 hunks that write at most 32 MiB in total. The paths
  -- that come back stand one for each hunk, in their order: each is what the scope check makes of the
  -- hunk's path; no two are the same, even in lower case; a write has at most 1 MiB, and a deletion
  -- meets a file that exists.
  pub validate_batch-ok :
      (patches : List PatchHunk) (paths : List Text)
      → validate_batch u grant patches exists ≡ ok paths
      → (1 ≤ length patches)
        × (length patches ≤ max_patch_operations)
        × (total_size patches ≤ max_aggregate_content_bytes)
        × AreAdmitted [] patches paths
  unfolding validate_batch
  validate_batch-ok patches paths h =
      elim (Result-cases (admit_all u grant exists empty_batch patches)) [
        | inr (e, failed) ↦ absurd (ground arith)
        | inl (b, admitted) ↦
            let all = admit_all-ok empty_batch b patches (omega arith) admitted in
            let same : all.0 ≡ paths = sym (all.1) ∙ ground arith in
            (
              some_patch patches (ground arith),
              ground arith,
              ground (arith, all),
              subst (λ ps. AreAdmitted [] patches ps) same (all.2),
            )
      ]
