-- ===== src/Tests/Instances.antt =====
-- Concrete instances of the parameters: a stand-in for a hash, hexadecimal text, an encoding of two
-- events, and plain tables.
use bullet_git.Prelude.{
  ℕ, zero, suc, ◌+◌, ◌-◌, ◌*◌, ◌/◌, ◌%◌, ◌≤◌, ◌≡◌, inl, inr, ◌≢◌, refl, sym, ap, ◌∙◌, Bool, true,
  false, ◌&&◌, Option, none, some, [], ◌∷◌, Bytes, Text, length, all, ltb, leb, ◌==◌, nat_eq,
  text_eq, ==_refl, if◌then◌else◌, arith, Option-cases,
}
use bullet_git.Types.Digest.{Hashing, HashingLaws, is_hex_byte, is_lower_hex, is_digest}

abbrev pub repeat : ℕ → ℕ → Bytes
repeat zero b = []
repeat (suc n) b = b ∷ repeat n b

-- Sums instead of a hash.
abbrev sum : Bytes → ℕ
sum [] = 0
sum (b ∷ bs) = b + sum bs

abbrev digit : ℕ → ℕ
digit n = if ltb n 10 then 48 + n else 87 + n

abbrev value : ℕ → ℕ
value c = if leb c 57 then c - 48 else c - 87

abbrev pub hex_encode : Bytes → Text
hex_encode [] = []
hex_encode (b ∷ bs) = digit (b / 16) ∷ digit (b % 16) ∷ hex_encode bs

abbrev pair_with : ℕ → ℕ → Option Bytes → Option Bytes
pair_with c d none = none
pair_with c d (some bs) = some ((16 * value c + value d) ∷ bs)

abbrev hex_decode : Text → Option Bytes
hex_decode [] = some []
hex_decode (c ∷ []) = none
hex_decode (c ∷ d ∷ cs) = pair_with c d (hex_decode cs)

unfoldable pub hashing : Hashing
hashing = record {
  blake3 = λ b. repeat 32 (sum b % 256);
  hex_encode = hex_encode;
  hex_decode = hex_decode;
}

repeat_digest : (b : ℕ) → b % 256 ≡ b → is_digest (repeat 32 b) ≡ true
unfolding is_digest
repeat_digest b h = ground arith

hex_encode-length : (b : Bytes) → length (hex_encode b) ≡ 2 * length b
hex_encode-length [] = omega arith
hex_encode-length (x ∷ b) = omega (arith, hex_encode-length b)

hex_encode-hex : (b : Bytes) → all (λ x. ltb x 256) b ≡ true → all is_hex_byte (hex_encode b) ≡ true
unfolding is_hex_byte
hex_encode-hex [] h = refl
hex_encode-hex (x ∷ b) h = ground (arith, hex_encode-hex b)

some-injective : {A : Type 0} {a b : A} → some a ≡ some b → a ≡ b
some-injective e = cc

none-ne-some : {A : Type 0} {a : A} → none ≢ some a
none-ne-some e = cc

and_right : (a b : Bool) → (a && b) ≡ true → b ≡ true
and_right true b h = h
and_right false b h = cc

value-digit : (n : ℕ) → ltb n 16 ≡ true → value (digit n) ≡ n
value-digit n h = ground arith

nibbles : (x : ℕ) → ltb x 256 ≡ true → 16 * value (digit (x / 16)) + value (digit (x % 16)) ≡ x
nibbles x h =
    let small : ltb (x / 16) 16 ≡ true = ground arith in
    let rest : ltb (x % 16) 16 ≡ true = ground arith in
    rw (value-digit (x / 16) small, value-digit (x % 16) rest) (omega arith)

all_cons :
    (p : ℕ → Bool) (x : ℕ) (xs : Bytes) → all p (x ∷ xs) ≡ true → (p x ≡ true) × (all p xs ≡ true)
all_cons p x xs h = ground arith

decode_cons :
    (c d : ℕ) (cs bs : Bytes)
    → hex_decode cs ≡ some bs
    → hex_decode (c ∷ d ∷ cs) ≡ some ((16 * value c + value d) ∷ bs)
decode_cons c d cs bs e = rw e refl

decode_encode : (b : Bytes) → all (λ x. ltb x 256) b ≡ true → hex_decode (hex_encode b) ≡ some b
decode_encode [] h = refl
decode_encode (x ∷ b) h =
    let parts = all_cons (λ y. ltb y 256) x b h in
    decode_cons (digit (x / 16)) (digit (x % 16)) (hex_encode b) b (decode_encode b parts.1)
    ∙ ap (λ y. some (y ∷ b)) (nibbles x parts.0)

digit-value : (c : ℕ) → is_hex_byte c ≡ true → (digit (value c) ≡ c) × (ltb (value c) 16 ≡ true)
unfolding is_hex_byte
digit-value c h = ground arith

unpair : (u v : ℕ) → ltb v 16 ≡ true → ((16 * u + v) / 16 ≡ u) × ((16 * u + v) % 16 ≡ v)
unpair u v h = let small : v ≤ 15 = ground arith in (omega arith, omega arith)

encode_decode :
    (t : Text) (b : Bytes) → all is_hex_byte t ≡ true → hex_decode t ≡ some b → hex_encode b ≡ t
encode_decode [] b h e = rw (sym (some-injective e)) refl
encode_decode (c ∷ []) b h e = cc
encode_decode (c ∷ d ∷ t) b h e = elim (Option-cases (hex_decode t)) [
  | inl failed ↦ absurd (none-ne-some (ap (pair_with c d) (sym failed) ∙ e))
  | inr (bs, read) ↦
      let first = all_cons is_hex_byte c (d ∷ t) h in
      let second = all_cons is_hex_byte d t (first.1) in
      let high = digit-value c (first.0) in
      let low = digit-value d (second.0) in
      let halves = unpair (value c) (value d) (low.1) in
      let shape : b ≡ (16 * value c + value d) ∷ bs =
        some-injective (sym e ∙ decode_cons c d t bs read) in
      let rest = encode_decode t bs (second.1) read in
      rw (shape, halves.0, halves.1, high.0, low.0, rest) refl
]

digest_parts : (b : Bytes) → is_digest b ≡ true → (length b ≡ 32) × (all (λ x. ltb x 256) b ≡ true)
unfolding is_digest
digest_parts b h = ground arith

lower_hex_shape :
    (t : Text) (n : ℕ) → length t ≡ n → all is_hex_byte t ≡ true → is_lower_hex t n ≡ true
unfolding is_lower_hex
lower_hex_shape t n l h = rw (l, h, ==_refl n) refl

lower_hex_all : (t : Text) (n : ℕ) → is_lower_hex t n ≡ true → all is_hex_byte t ≡ true
unfolding is_lower_hex
lower_hex_all t n h = and_right (length t == n) (all is_hex_byte t) h

pub hashing_laws : HashingLaws hashing
unfolding hashing
hashing_laws = record {
  blake3_shape = λ b. repeat_digest (sum b % 256) (omega arith);
  hex_encode_shape = λ b d.
      let parts = digest_parts b d in
      lower_hex_shape (hex_encode b) 64 (hex_encode-length b ∙ rw (parts.0) refl)
        (hex_encode-hex b (parts.1));
  hex_decode-hex_encode = λ b d. decode_encode b (digest_parts b d).1;
  hex_encode-hex_decode = λ t b shape e. encode_decode t b (lower_hex_all t 64 shape) e;
}
