-- ===== src/Types/GitOid/RoundTrip.antt =====
-- Tagged object ids read back.
use bullet_git.Prelude.{
  ◌≡◌, some, Text, ok, arith, split_once, starts_with, nat_eq, text_discrete, ℕ_discrete,
}
use bullet_git.Types.GitOid.{GitOidAlgorithm, sha1, sha256, new, from_hex, algorithm, hex}

-- An object id that `from_hex` builds is accepted by `new` unchanged, and its algorithm and its
-- hexadecimal part read back, for both algorithms.
pub from_hex_reads_back :
    (a : GitOidAlgorithm) (digits oid : Text)
    → from_hex a digits ≡ ok oid
    → (new oid ≡ ok oid) × (algorithm oid ≡ a) × (hex oid ≡ some digits)
unfolding from_hex new algorithm hex split_once starts_with text_discrete ℕ_discrete
from_hex_reads_back sha1 digits oid h = ground arith
from_hex_reads_back sha256 digits oid h = ground arith
