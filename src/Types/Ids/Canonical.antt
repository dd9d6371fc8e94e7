-- ===== src/Types/Ids/Canonical.antt =====
-- The accepted identifiers and object ids are exactly the canonical ones.
use bullet_git.Prelude.{
  ℕ, ◌≡◌, ◌↔◌, true, ◌++◌, Text, codes, length, drop, drop-append, length-append, nat_eq, ok, arith,
  starts_with-append, starts_with-eq-append,
}
use bullet_git.Types.Digest.{Hashing, HashingLaws, is_lower_hex, digest_of, to_hex}
use bullet_git.Types.Ids.{prefixed, parse, from_seed}

length_of_lower_hex : (t : Text) (n : ℕ) → is_lower_hex t n ≡ true → length t ≡ n
unfolding is_lower_hex
length_of_lower_hex t n h = ground arith

parse_both :
    (prefix : Text)
    → ((raw id : Text)
        → parse prefix raw ≡ ok id
        → (id ≡ raw)
          × (body : Text) × (raw ≡ prefixed prefix ++ body)
          × (is_lower_hex body 64 ≡ true))
      × ((body : Text)
          → is_lower_hex body 64 ≡ true
          → parse prefix (prefixed prefix ++ body) ≡ ok (prefixed prefix ++ body))
unfolding parse
parse_both prefix = (
  (λ raw id e. (
    ground arith,
    drop (length (prefixed prefix)) raw,
    ground (arith, starts_with-eq-append (prefixed prefix) raw),
    ground arith,
  )),
  (λ body hex. ground (
    arith,
    starts_with-append (prefixed prefix) body,
    drop-append (prefixed prefix) body,
    length-append (prefixed prefix) body,
    length_of_lower_hex body 64 hex,
  )),
)

-- `parse` accepts a text exactly when it is the prefix, an underscore and 64 lowercase hexadecimal
-- digits, and then returns it as it is.
pub parse_iff_canonical :
    (prefix raw id : Text)
    → (parse prefix raw ≡ ok id) ↔ (
        (id ≡ raw)
        × (body : Text) × (raw ≡ prefixed prefix ++ body)
        × (is_lower_hex body 64 ≡ true))
parse_iff_canonical prefix raw id = (
  (parse_both prefix).0 raw id,
  λ (same, body, split, hex). rw (same, split) ((parse_both prefix).1 body hex),
)

-- An identifier derived from any seed is one that `parse` accepts.
parse-from_seed :
    (h : Hashing)
    → HashingLaws h
    → (prefix seed : Text) → parse prefix (from_seed h prefix seed) ≡ ok (from_seed h prefix seed)
unfolding from_seed digest_of to_hex
parse-from_seed h laws prefix seed =
    (parse_both prefix).1 (h.hex_encode (h.blake3 (prefix ++ codes ":" ++ seed)))
      (laws.hex_encode_shape _ (laws.blake3_shape _))
