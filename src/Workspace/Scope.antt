-- ===== src/Workspace/Scope.antt =====
-- crates/bullet-git-workspace/src/scope.rs: normalized relative paths and scope grants. NFC is a
-- parameter.
pub mod Segments
pub mod Coverage
use bullet_git.Prelude.{
  ℕ, Bool, true, false, not, ◌||◌, ◌&&◌, Option, none, some, List, [], ◌∷◌, ◌++◌, Text, codes,
  length, is_empty, any, leb, ◌==◌, nat_eq, text_eq, if◌then◌else◌, Result, ok, err, refuse_if,
  ◌>>=◌, ◌>>◌, starts_with, split, join, get_last?,
}
use bullet_git.Types.RepoPath.{Unicode, contains, ends_with, eq_ignore_ascii_case}
use bullet_git.Workspace.Error.{CapabilityError, out_of_scope}

-- The loop over the segments; `parts` is the vector so far.
unfoldable pub push_segments : Text → List Text → List Text → Result CapabilityError (List Text)
unfolding ends_with eq_ignore_ascii_case
push_segments raw parts [] = ok parts
push_segments raw parts (segment ∷ segments) = do
  refuse_if (is_empty segment || segment == codes "." || segment == codes "..") (out_of_scope raw)
  refuse_if
      (eq_ignore_ascii_case segment (codes ".git")
        || contains b':' segment
        || (ends_with b'.' segment || ends_with b' ' segment))
      (out_of_scope raw)
  push_segments raw (parts ++ segment ∷ []) segments

unfoldable pub normalize_rel_path : Unicode → Text → Result CapabilityError Text
unfolding push_segments
normalize_rel_path u raw = do
  let normalized = u.nfc raw
  refuse_if
      (is_empty normalized
        || starts_with (codes "/") normalized
        || contains 92 normalized
        || contains 0 normalized)
      (out_of_scope raw)
  parts ← push_segments raw [] (split b'/' normalized)
  ok (join b'/' parts)

pub record ScopeGrant : Type 0 where
  pub allowed_prefixes : List Text

-- `prefix.strip_suffix('/').unwrap_or(prefix)`
unfoldable pub trim_slash : Text → Text
trim_slash [] = []
trim_slash (c ∷ []) = if c == b'/' then [] else c ∷ []
trim_slash (c ∷ d ∷ cs) = c ∷ trim_slash (d ∷ cs)

-- The loop of `ScopeGrant::new`.
unfoldable pub push_prefixes : Unicode → List Text → List Text → Result CapabilityError (List Text)
unfolding trim_slash normalize_rel_path
push_prefixes u allowed [] = ok allowed
push_prefixes u allowed (prefix ∷ prefixes) = do
  path ← normalize_rel_path u (trim_slash prefix)
  push_prefixes u (allowed ++ path ∷ []) prefixes

unfoldable pub new : Unicode → List Text → Result CapabilityError ScopeGrant
unfolding push_prefixes
new u prefixes = do
  allowed ← push_prefixes u [] prefixes
  ok (record { allowed_prefixes = allowed })

-- `a.iter().zip(b).all(|(a, b)| a == b)`
unfoldable pub zip_all_equal : List Text → List Text → Bool
zip_all_equal [] path = true
zip_all_equal (a ∷ as_) [] = true
zip_all_equal (a ∷ as_) (b ∷ bs) = a == b && zip_all_equal as_ bs

unfoldable pub prefix_covers : Text → Text → Bool
unfolding zip_all_equal
prefix_covers normalized_path prefix =
    let path_segments = split b'/' normalized_path in
    let prefix_segments = split b'/' prefix in
    leb (length prefix_segments) (length path_segments)
    && zip_all_equal prefix_segments path_segments

unfoldable pub permits : ScopeGrant → Text → Bool
permits grant normalized_path = any (prefix_covers normalized_path) grant.allowed_prefixes

unfoldable pub check : Unicode → ScopeGrant → Text → Result CapabilityError Text
check u grant raw = do
  normalized ← normalize_rel_path u raw
  if permits grant normalized then ok normalized else err (out_of_scope raw)
