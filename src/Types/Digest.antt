-- ===== src/Types/Digest.antt =====
-- crates/bullet-git-types/src/lib.rs: `Digest`, its hexadecimal form, and the framing of hash
-- preimages. BLAKE3 and the `hex` crate are parameters.
pub mod Framing
use bullet_git.Prelude.{
  ℕ, zero, suc, ◌+◌, ◌/◌, ◌%◌, ◌≤◌, ◌<◌, ◌≡◌, Bool, true, ◌&&◌, ◌||◌, not, Option, none, some, List,
  [], ◌∷◌, ◌++◌, Bytes, Text, length, all, leb, ltb, ◌==◌, nat_eq, if◌then◌else◌, Result, ok, err,
  ok_or, map_err, refuse_if, ◌>>=◌, ◌>>◌,
}

-- What the program takes from the crates `blake3` and `hex`.
pub record Hashing : Type 0 where
  pub blake3 : Bytes → Bytes
  pub hex_encode : Bytes → Text
  pub hex_decode : Text → Option Bytes

-- `byte.is_ascii_digit() || (b'a'..=b'f').contains(&byte)`
unfoldable pub is_hex_byte : ℕ → Bool
is_hex_byte b = (leb b'0' b && leb b b'9') || (leb b'a' b && leb b b'f')

unfoldable pub is_lower_hex : Text → ℕ → Bool
is_lower_hex value expected_len = length value == expected_len && all is_hex_byte value

-- 32 bytes.
unfoldable pub is_digest : Bytes → Bool
is_digest b = length b == 32 && all (λ x. ltb x 256) b

-- The documented behaviour of the two crates: a BLAKE3 hash has 32 bytes, `hex::encode` writes two
-- lowercase digits for each byte, and `hex::decode` and `hex::encode` read back what the other wrote.
pub record HashingLaws (h : Hashing) : Type 0 where
  pub blake3_shape : (b : Bytes) → is_digest (h.blake3 b) ≡ true
  pub hex_encode_shape : (b : Bytes) → is_digest b ≡ true → is_lower_hex (h.hex_encode b) 64 ≡ true
  pub hex_decode-hex_encode :
      (b : Bytes) → is_digest b ≡ true → h.hex_decode (h.hex_encode b) ≡ some b
  pub hex_encode-hex_decode :
      (t : Text) (b : Bytes)
      → is_lower_hex t 64 ≡ true
      → h.hex_decode t ≡ some b
      → h.hex_encode b ≡ t

pub data TypesError : Type 0 where
  invalid_id : Text → TypesError
  invalid_oid : Text → TypesError
  encoding : TypesError

-- The exact bytes of a digest.
abbrev pub Digest : Type 0
Digest = Bytes

-- `(n as u64).to_le_bytes()`, for any width.
pub le_bytes : ℕ → ℕ → Bytes
le_bytes zero n = []
le_bytes (suc k) n = (n % 256) ∷ le_bytes k (n / 256)

unfoldable pub to_le_bytes : ℕ → Bytes
unfolding le_bytes
to_le_bytes n = le_bytes 8 n

unfoldable pub frame : Bytes → Bytes → Bytes
frame buf bytes = (buf ++ to_le_bytes (length bytes)) ++ bytes

-- The loop of `framed_digest`.
unfoldable pub frame_all : Bytes → List Bytes → Bytes
frame_all buf [] = buf
frame_all buf (field ∷ fields) = frame_all (frame buf field) fields

module _ (h : Hashing) where
  unfoldable pub digest_of : Bytes → Digest
  digest_of bytes = h.blake3 bytes

  unfoldable pub to_hex : Digest → Text
  to_hex d = h.hex_encode d

  unfoldable pub from_hex : Text → Result TypesError Digest
  from_hex text = do
    refuse_if (not (length text == 64) || not (all is_hex_byte text)) encoding
    raw ← ok_or (h.hex_decode text) encoding
    if length raw == 32 then ok raw else err encoding

  unfoldable pub framed_digest : List Bytes → Digest
  framed_digest fields = digest_of (frame_all [] fields)
