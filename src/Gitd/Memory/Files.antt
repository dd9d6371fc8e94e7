-- ===== src/Gitd/Memory/Files.antt =====
-- What a change does to the files: it is an update of a map from paths to contents.
use bullet_git.Prelude.{
  ◌≡◌, refl, sym, Option, none, some, List, [], ◌∷◌, Bytes, Text, ◌==◌, text_eq, text_discrete,
  if◌then◌else◌, arith, Option-cases, inl, inr,
}
use mathlib.Core.Path.{subst}
use bullet_git.Types.Digest.{Hashing}
use bullet_git.Journal
use bullet_git.Workspace.Patch.{PatchHunk, PatchOp, write, delete}
use bullet_git.Gitd.Memory.{Files, find, write_file, remove_file, apply_op, apply_all}

-- No path stands twice: what the repository starts with, as it has no files.
abbrev pub AreDistinct : Files → Type 0
AreDistinct [] = Unit
AreDistinct ((p, bytes) ∷ rest) = (find p rest ≡ none) × AreDistinct rest

-- The map that a batch leaves, as the reference reads it: the last hunk of a path decides.
unfoldable pub after : List PatchHunk → List Text → Text → Option Bytes → Option Bytes
after [] paths q before = before
after (patch ∷ patches) [] q before = before
after (patch ∷ patches) (path ∷ paths) q before =
    after patches paths q (
      if path == q
      then elim patch.op [ write contents ↦ some contents | delete ↦ none ]
      else before)

find-write_file :
    (q path : Text) (contents : Bytes) (files : Files)
    → find q (write_file path contents files) ≡ (if path == q then some contents else find q files)
unfolding find write_file
find-write_file q path contents [] = refl
find-write_file q path contents ((p, bytes) ∷ rest) =
    ground (arith, find-write_file q path contents rest)

find-remove_file :
    (q path : Text) (files : Files)
    → AreDistinct files
    → find q (remove_file path files) ≡ (if path == q then none else find q files)
unfolding find remove_file
find-remove_file q path [] distinct = ground arith
find-remove_file q path ((p, bytes) ∷ rest) (apart, distinct) =
    ground (arith, find-remove_file q path rest distinct)

write_file-AreDistinct :
    (path : Text) (contents : Bytes) (files : Files)
    → AreDistinct files
    → AreDistinct (write_file path contents files)
unfolding write_file find
write_file-AreDistinct path contents [] distinct = (refl, tt)
write_file-AreDistinct path contents ((p, bytes) ∷ rest) (apart, distinct) =
    elim (text_discrete p path) [
      | yes same ↦ ground arith
      | no differs ↦ ground (
        arith,
        find-write_file p path contents rest,
        write_file-AreDistinct path contents rest distinct,
      )
    ]

remove_file-AreDistinct :
    (path : Text) (files : Files) → AreDistinct files → AreDistinct (remove_file path files)
unfolding remove_file find
remove_file-AreDistinct path [] distinct = tt
remove_file-AreDistinct path ((p, bytes) ∷ rest) (apart, distinct) = elim (text_discrete p path) [
  | yes same ↦ ground arith
  | no differs ↦
      ground
        (arith, find-remove_file p path rest distinct, remove_file-AreDistinct path rest distinct)
]

module _ (h : Hashing) where
  apply_op-AreDistinct :
      (op : PatchOp) (path : Text) (s : Files × Journal.Journal)
      → AreDistinct s.0
      → AreDistinct (apply_op h op path s).0
  unfolding apply_op
  apply_op-AreDistinct (write contents) path s distinct =
      write_file-AreDistinct path contents (s.0) distinct
  apply_op-AreDistinct delete path s distinct = elim (Option-cases (find path s.0)) [
    | inl absent ↦
        let same : (apply_op h delete path s).0 ≡ s.0 = ground arith in
        subst AreDistinct (sym same) distinct
    | inr (bytes, there) ↦
        let same : (apply_op h delete path s).0 ≡ remove_file path s.0 = ground arith in
        subst AreDistinct (sym same) (remove_file-AreDistinct path (s.0) distinct)
  ]

  find-apply_op :
      (q : Text) (op : PatchOp) (path : Text) (s : Files × Journal.Journal)
      → AreDistinct s.0
      → find q (apply_op h op path s).0 ≡ (
          if path == q
          then elim op [ write contents ↦ some contents | delete ↦ none ]
          else find q s.0)
  unfolding apply_op
  find-apply_op q (write contents) path s distinct = find-write_file q path contents (s.0)
  find-apply_op q delete path s distinct = ground (arith, find-remove_file q path (s.0) distinct)

  -- Applying a batch to files of distinct paths keeps the paths distinct, and every path then reads as
  -- the last of its hunks says: the contents written, or nothing once it is deleted. A path with no
  -- hunk reads as before.
  pub find-apply_all :
      (patches : List PatchHunk) (paths : List Text) (s : Files × Journal.Journal)
      → AreDistinct s.0
      → AreDistinct (apply_all h patches paths s).0
        × ((q : Text) → find q (apply_all h patches paths s).0 ≡ after patches paths q (find q s.0))
  unfolding apply_all after
  find-apply_all [] paths s distinct = (distinct, λ q. refl)
  find-apply_all (patch ∷ patches) [] s distinct = (distinct, λ q. refl)
  find-apply_all (patch ∷ patches) (path ∷ paths) s distinct =
      let kept = apply_op-AreDistinct patch.op path s distinct in
      let rest = find-apply_all patches paths (apply_op h patch.op path s) kept in
      (rest.0, λ q. rw (sym (find-apply_op q patch.op path s distinct)) (rest.1 q))
