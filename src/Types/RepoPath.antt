-- ===== src/Types/RepoPath.antt =====
-- crates/bullet-git-types/src/proposal.rs: canonical repository-relative paths. The tables of
-- Unicode, NFC of the crate `unicode_normalization` and `char::to_lowercase`, are parameters.
use bullet_git.Prelude.{
  ℕ, Bool, false, not, ◌||◌, ◌&&◌, none, some, List, [], ◌∷◌, Text, codes, length, is_empty, any,
  get_last?, ltb, leb, ◌==◌, nat_eq, text_eq, Result, ok, refuse_if, ◌>>◌, starts_with,
  strip_prefix, split, to_ascii_lowercase,
}
use bullet_git.Types.Proposal.Error.{ProposalError, invalid_repo_path}

pub record Unicode : Type 0 where
  -- `s.nfc().collect::<String>()`
  pub nfc : Text → Text
  -- `s.chars().flat_map(char::to_lowercase).collect::<String>()`
  pub lowercase : Text → Text

-- The first byte of a sequence that continues U+0080 to U+009F behind 0xC2.
starts_c1 : Text → Bool
starts_c1 [] = false
starts_c1 (c ∷ _) = leb 0x80 c && leb c 0x9f

-- `s.chars().any(char::is_control)` on UTF-8 bytes.
unfoldable pub any_is_control : Text → Bool
unfolding starts_c1
any_is_control [] = false
any_is_control (c ∷ cs) =
    (ltb c 0x20 || c == 0x7f || (c == 0xc2 && starts_c1 cs)) || any_is_control cs

-- `s.ends_with(c)` at an ASCII character.
unfoldable pub ends_with : ℕ → Text → Bool
ends_with c s = elim (get_last? s) [ none ↦ false | some l ↦ l == c ]

unfoldable pub eq_ignore_ascii_case : Text → Text → Bool
eq_ignore_ascii_case a b = to_ascii_lowercase a == to_ascii_lowercase b

-- `s.contains(c)` at an ASCII character.
abbrev pub contains : ℕ → Text → Bool
contains c s = any (λ b. b == c) s

-- The loop over the segments in `validate_repo_path`.
unfoldable pub validate_segments : Text → List Text → Result ProposalError (Unit {0})
unfolding ends_with eq_ignore_ascii_case any_is_control
validate_segments raw [] = ok tt
validate_segments raw (segment ∷ segments) = do
  refuse_if (is_empty segment || segment == codes "." || segment == codes "..")
      (invalid_repo_path raw)
  refuse_if (eq_ignore_ascii_case segment (codes ".git")) (invalid_repo_path raw)
  refuse_if
      (contains b':' segment
        || ends_with b'.' segment
        || ends_with b' ' segment
        || any_is_control segment)
      (invalid_repo_path raw)
  validate_segments raw segments

unfoldable pub validate_repo_path : Unicode → Text → Result ProposalError (Unit {0})
unfolding validate_segments
validate_repo_path u raw = do
  refuse_if
      (is_empty raw || ltb 4096 (length raw) || starts_with (codes "/") raw || contains 92 raw)
      (invalid_repo_path raw)
  refuse_if (not (u.nfc raw == raw)) (invalid_repo_path raw)
  validate_segments raw (split b'/' raw)

-- `RepoPath::from_str`; a `RepoPath` is its text.
unfoldable pub from_str : Unicode → Text → Result ProposalError Text
unfolding validate_repo_path
from_str u raw = do validate_repo_path u raw; ok raw

unfoldable pub collision_key : Unicode → Text → Text
collision_key u path = u.lowercase (u.nfc path)

unfoldable pub contains_path : Text → Text → Bool
contains_path parent child = elim (strip_prefix parent child) [
  | none ↦ false
  | some suffix ↦ starts_with (codes "/") suffix
]
