-- ===== src/Types/Digest/Framing.antt =====
-- Field boundaries of a framed preimage are unambiguous, and the hexadecimal form of a digest is
-- canonical.
use bullet_git.Prelude.{
  ℕ, zero, suc, ◌*◌, ◌/◌, ◌%◌, ◌^◌, ◌≤◌, ◌<◌, ◌≡◌, ◌≢◌, ◌↔◌, refl, sym, ◌∙◌, ap, true, List, [],
  ◌∷◌, ◌++◌, Bytes, Text, length, All, append-injective, u64_max, arith, ok,
}
use mathlib.Core.List.{append-nil, append_assoc}
use native.Mathlib.Nat.{pow-suc}
use bullet_git.Types.Digest.{
  Hashing, HashingLaws, Digest, is_lower_hex, is_digest, le_bytes, to_le_bytes, frame, frame_all,
  to_hex, from_hex,
}

le_bytes-injective : (k n m : ℕ) → n < 256 ^ k → m < 256 ^ k → le_bytes k n ≡ le_bytes k m → n ≡ m
unfolding le_bytes
le_bytes-injective zero n m hn hm e = omega arith
le_bytes-injective (suc k) n m hn hm e =
    let low : n % 256 ≡ m % 256 = cc in
    let rest : le_bytes k (n / 256) ≡ le_bytes k (m / 256) = cc in
    let fits_n : n < 256 ^ k * 256 = rw (← pow-suc) hn in
    let fits_m : m < 256 ^ k * 256 = rw (← pow-suc) hm in
    let high : n / 256 ≡ m / 256 =
      le_bytes-injective k (n / 256) (m / 256) (omega arith) (omega arith) rest in
    omega arith

length-le_bytes : (k n : ℕ) → length (le_bytes k n) ≡ k
unfolding le_bytes
length-le_bytes zero n = refl
length-le_bytes (suc k) n = ap suc (length-le_bytes k (n / 256))

pub length-to_le_bytes : (n : ℕ) → length (to_le_bytes n) ≡ 8
unfolding to_le_bytes
length-to_le_bytes n = length-le_bytes 8 n

-- The preimage as one plain recursion.
framed : List Bytes → Bytes
framed [] = []
framed (f ∷ fs) = to_le_bytes (length f) ++ (f ++ framed fs)

frame_all-eq-framed : (buf : Bytes) (fs : List Bytes) → frame_all buf fs ≡ buf ++ framed fs
unfolding frame_all framed frame
frame_all-eq-framed buf [] = sym (append-nil buf)
frame_all-eq-framed buf (f ∷ fs) = frame_all-eq-framed (frame buf f) fs ∙ simp append_assoc

abbrev pub FitsU64 : Bytes → Type 0
FitsU64 f = length f ≤ u64_max

pub to_le_bytes-injective :
    (n m : ℕ) → n ≤ u64_max → m ≤ u64_max → to_le_bytes n ≡ to_le_bytes m → n ≡ m
unfolding to_le_bytes
to_le_bytes-injective n m hn hm e = le_bytes-injective 8 n m (omega arith) (omega arith) e

framed-cons-ne-nil : (f : Bytes) (fs : List Bytes) → framed (f ∷ fs) ≢ []
unfolding framed to_le_bytes le_bytes
framed-cons-ne-nil f fs e = cc

-- One field is read off a framed preimage, whatever follows it.
framed-injective_head :
    (f g : Bytes) (a b : Bytes)
    → length f ≤ u64_max
    → length g ≤ u64_max
    → to_le_bytes (length f) ++ (f ++ a) ≡ to_le_bytes (length g) ++ (g ++ b)
    → (f ≡ g) × (a ≡ b)
framed-injective_head f g a b hf hg e =
    let widths : length (to_le_bytes (length f)) ≡ length (to_le_bytes (length g)) =
      length-to_le_bytes (length f) ∙ sym (length-to_le_bytes (length g)) in
    let split = append-injective (to_le_bytes (length f)) (to_le_bytes (length g)) widths e in
    append-injective f g (to_le_bytes-injective (length f) (length g) hf hg split.0) split.1

framed-injective :
    (fs gs : List Bytes) → All FitsU64 fs → All FitsU64 gs → framed fs ≡ framed gs → fs ≡ gs
unfolding framed
framed-injective [] [] hf hg e = refl
framed-injective [] (g ∷ gs) hf hg e = absurd (framed-cons-ne-nil g gs (sym e))
framed-injective (f ∷ fs) [] hf hg e = absurd (framed-cons-ne-nil f fs e)
framed-injective (f ∷ fs) (g ∷ gs) hf hg e =
    let head = framed-injective_head f g (framed fs) (framed gs) hf.0 hg.0 e in
    cc (head.0, framed-injective fs gs hf.1 hg.1 head.1)

-- Two lists of fields with one framed preimage are the same fields, at the same boundaries, where
-- no field passes 2^64 - 1 bytes.
pub frame_all-injective :
    (fs gs : List Bytes)
    → All FitsU64 fs
    → All FitsU64 gs
    → frame_all [] fs ≡ frame_all [] gs
    → fs ≡ gs
frame_all-injective fs gs hf hg e =
    framed-injective fs gs hf hg (sym (frame_all-eq-framed [] fs) ∙ e ∙ frame_all-eq-framed [] gs)

module _ (h : Hashing) (laws : HashingLaws h) where
  from_hex-to_hex : (d : Digest) → is_digest d ≡ true → from_hex h (to_hex h d) ≡ ok d
  unfolding from_hex to_hex is_lower_hex is_digest
  from_hex-to_hex d n = ground (arith, laws.hex_encode_shape d n, laws.hex_decode-hex_encode d n)

  -- A text that `from_hex` accepts is the canonical form of its digest, of 64 lowercase digits.
  pub from_hex_canonical :
      (t : Text) (d : Digest)
      → from_hex h t ≡ ok d
      → (to_hex h d ≡ t) × (length d ≡ 32) × (is_lower_hex t 64 ≡ true)
  unfolding from_hex to_hex is_lower_hex
  from_hex_canonical t d e = ground (arith, laws.hex_encode-hex_decode t d)

  -- A text parses to a digest of 32 bytes exactly when it is what `to_hex` writes for it.
  pub from_hex_iff :
      (t : Text) (d : Digest) → is_digest d ≡ true → (from_hex h t ≡ ok d) ↔ (to_hex h d ≡ t)
  from_hex_iff t d n =
      ((λ e. (from_hex_canonical t d e).0), (λ w. rw (sym w) (from_hex-to_hex d n)))
