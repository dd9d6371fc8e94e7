-- ===== src/Types/Ids.antt =====
-- crates/bullet-git-types/src/ids.rs: the typed identifiers of the macro `typed_id!`. The
-- macro's `$prefix` is the argument `prefix`.
pub mod Canonical
use bullet_git.Prelude.{
  ℕ, suc, ◌+◌, Bool, true, ◌||◌, not, Option, none, some, List, [], ◌∷◌, ◌++◌, Text, codes, length,
  drop, ◌==◌, nat_eq, text_eq, if◌then◌else◌, Result, ok, err, refuse_if, starts_with, ◌>>=◌, ◌>>◌,
}
use bullet_git.Types.Digest.{
  Hashing, Digest, TypesError, invalid_id, invalid_oid, is_lower_hex, digest_of, to_hex,
}

abbrev pub id_hex_len : ℕ
id_hex_len = 64

-- The text behind the prefix and its underscore.
abbrev pub prefixed : Text → Text
prefixed prefix = prefix ++ codes "_"

module _ (h : Hashing) where
  unfoldable pub from_seed : Text → Text → Text
  from_seed prefix seed =
      let digest = digest_of h (prefix ++ codes ":" ++ seed) in
      prefix ++ codes "_" ++ to_hex h digest

  unfoldable pub from_digest : Text → Digest → Text
  from_digest prefix digest = prefix ++ codes "_" ++ to_hex h digest

unfoldable pub parse : Text → Text → Result TypesError Text
parse prefix raw = do
  let expected = prefixed prefix
  refuse_if (not (starts_with expected raw) || not (length raw == length expected + id_hex_len))
      (invalid_id raw)
  let body = drop (length expected) raw
  refuse_if (not (is_lower_hex body id_hex_len)) (invalid_id raw)
  ok raw
