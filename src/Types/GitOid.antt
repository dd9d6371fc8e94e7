-- ===== src/Types/GitOid.antt =====
-- crates/bullet-git-types/src/ids.rs: the algorithm-tagged Git object id.
pub mod RoundTrip
use bullet_git.Prelude.{
  ℕ, suc, ◌+◌, Bool, true, ◌||◌, not, Option, none, some, List, [], ◌∷◌, ◌++◌, Text, codes, length,
  drop, ◌==◌, nat_eq, text_eq, if◌then◌else◌, Result, ok, err, starts_with, split_once,
}
use bullet_git.Types.Digest.{TypesError, invalid_oid, is_lower_hex}

pub data GitOidAlgorithm : Type 0 where
  sha1 sha256 : GitOidAlgorithm

unfoldable pub algorithm_str : GitOidAlgorithm → Text
algorithm_str sha1 = codes "sha1"
algorithm_str sha256 = codes "sha256"

unfoldable pub hex_len : GitOidAlgorithm → ℕ
hex_len sha1 = 40
hex_len sha256 = 64

-- The `match tag` of `GitOid::new`.
unfoldable pub algorithm_of_tag : Text → Option GitOidAlgorithm
algorithm_of_tag tag =
    if tag == codes "sha1" then some sha1 else if tag == codes "sha256" then some sha256 else none

-- `GitOid::new` once the text is split at its colon.
unfoldable pub admit : Text → Option (Text × Text) → Result TypesError Text
unfolding algorithm_of_tag hex_len
admit raw none = err (invalid_oid raw)
admit raw (some (tag, hex)) = elim (algorithm_of_tag tag) [
  | none ↦ err (invalid_oid raw)
  | some algorithm ↦
      if not (is_lower_hex hex (hex_len algorithm)) then err (invalid_oid raw) else ok raw
]

unfoldable pub new : Text → Result TypesError Text
unfolding admit
new raw = admit raw (split_once b':' raw)

unfoldable pub from_hex : GitOidAlgorithm → Text → Result TypesError Text
unfolding hex_len algorithm_str
from_hex algorithm hex =
    if not (is_lower_hex hex (hex_len algorithm))
    then err (invalid_oid hex)
    else ok (algorithm_str algorithm ++ codes ":" ++ hex)

unfoldable pub algorithm : Text → GitOidAlgorithm
algorithm oid = if starts_with (codes "sha1:") oid then sha1 else sha256

-- `expect` on a text with no colon does not return: the model has `none` there.
unfoldable pub hex : Text → Option Text
hex oid = elim (split_once b':' oid) [ none ↦ none | some (_, after) ↦ some after ]
