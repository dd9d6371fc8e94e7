-- ===== src/Tests/Samples.antt =====
-- The data that the tests run on.
use bullet_git.Prelude.{
  ℕ_discrete, ◌≡◌, ◌≢◌, ◌⊎◌, inl, inr, refl, none, some, [], ◌∷◌, ◌++◌, Bytes, Text, codes, Eq,
  ◌==◌, nat_eq, text_eq, text_discrete, ==_refl, if◌then◌else◌, ok, arith, strip_prefix,
}
use bullet_git.Types.Digest.{
  Digest, is_hex_byte, framed_digest, digest_of, frame_all, frame, to_le_bytes,
}
use bullet_git.Types.RepoPath.{Unicode}
use bullet_git.Gitd.Frames.{is_utf8}
use bullet_git.Gitd.Gateway.Types.{Json}
use bullet_git.Gitd.Ledger.Subject.{
  MutationSubject, apply_patch, MutationOutcome, MutationResult, committed, subject_discrete,
  outcome_discrete, validate, validate_digest, validate_id, validate_positive_generation,
  is_lower_hex,
}
use bullet_git.Gitd.Ledger.Record.{EventCodec, EventCodecLaws, LedgerEvent, reserved, settled}
use bullet_git.Gitd.Ledger.Recovery.{clean_status}
use bullet_git.Gitd.Ledger.Store.{MutationLedger}
use bullet_git.Gitd.Gateway.Fingerprint.{transport_fingerprint}
use bullet_git.Tests.Instances.{hashing, repeat, hex_encode}

unfoldable pub unicode : Unicode
unicode = record { nfc = λ t. t; lowercase = λ t. t }

-- A value is its own compact form, and none is an object.
unfoldable pub json : Json Bytes
json = record { to_vec = λ v. some v; as_object = λ v. none; object = λ fields. [] }

abbrev pub zeros : Text
zeros = repeat 64 b'0'

abbrev pub request : Digest
request = repeat 32 173

request_test :
    transport_fingerprint Bytes json hashing apply_patch (codes "a") (codes "p") ≡ ok request
unfolding transport_fingerprint json hashing framed_digest digest_of frame_all frame to_le_bytes
    bullet_git.Gitd.Ledger.Subject.as_str
request_test = refl

abbrev pub subject : MutationSubject
subject = record {
  authority_envelope_digest = zeros;
  authority_token_nonce = zeros;
  mutation_id = codes "mut_" ++ zeros;
  reservation_id = codes "rsv_" ++ zeros;
  operation = apply_patch;
  request_digest = hex_encode request;
  repository_id = codes "rep_" ++ zeros;
  workspace_id = codes "wsp_" ++ zeros;
  workspace_generation = 1;
  workspace_nonce = zeros;
  attempt_id = codes "atm_" ++ zeros;
  attempt_fence = 7;
  authority_epoch = 1;
  freeze_generation = 0;
  permit_nonce = zeros;
  permit_digest = zeros;
}

pub subject_valid : validate subject ≡ ok tt
unfolding validate validate_digest validate_id validate_positive_generation is_lower_hex is_hex_byte
    strip_prefix ℕ_discrete
subject_valid = refl

pub zeros_valid : validate_digest zeros ≡ ok tt
unfolding validate_digest is_lower_hex is_hex_byte ℕ_discrete
zeros_valid = refl

abbrev pub result : MutationResult
result = record {
  subject = subject;
  outcome = committed;
  result_digest = zeros;
  completed_at_unix_ms = 1000;
}

abbrev pub event_reserved : LedgerEvent
event_reserved = reserved 1 subject

abbrev pub event_settled : LedgerEvent
event_settled = settled 1 subject committed zeros 1000

unfoldable pub event_discrete : Discrete LedgerEvent
unfolding ℕ_discrete subject_discrete outcome_discrete
event_discrete = hlevel (ℕ_discrete, subject_discrete, outcome_discrete)

instance abbrev pub event_eq : Eq LedgerEvent
event_eq = record { decide_eq = event_discrete }

-- The codec of two events.
module _ (first second : LedgerEvent) where
  unfoldable pub two_events : EventCodec
  two_events = record {
    encode = λ e.
        if e == first then some (b'r' ∷ []) else if e == second then some (b's' ∷ []) else none;
    decode =
        λ t. if t == b'r' ∷ [] then some first else if t == b's' ∷ [] then some second else none;
  }

  encoded_cases :
      (e : LedgerEvent) (b : Bytes)
      → two_events.encode e ≡ some b
      → ((e ≡ first) × (b ≡ b'r' ∷ [])) ⊎ ((e ≡ second) × (b ≡ b's' ∷ []))
  unfolding two_events
  encoded_cases e b h = elim (event_discrete e first) [
    | yes same ↦ inl (same, ground arith)
    | no differs ↦ elim (event_discrete e second) [
      | yes same ↦ inr (same, ground arith)
      | no neither ↦ absurd (ground arith)
    ]
  ]

  encode_first : two_events.encode first ≡ some (b'r' ∷ [])
  unfolding two_events
  encode_first = ground (arith, ==_refl first)

  encode_second : first ≢ second → two_events.encode second ≡ some (b's' ∷ [])
  unfolding two_events
  encode_second differ = ground (arith, ==_refl second)

  decodes_first : two_events.decode (b'r' ∷ []) ≡ some first
  unfolding two_events text_discrete ℕ_discrete
  decodes_first = refl

  decodes_second : two_events.decode (b's' ∷ []) ≡ some second
  unfolding two_events text_discrete ℕ_discrete
  decodes_second = refl

  two_events_laws : EventCodecLaws two_events
  unfolding is_utf8 ℕ_discrete
  two_events_laws = record {
    decode-encode = λ e b h. elim (encoded_cases e b h) [
      | inl (same, line) ↦ rw (same, line) decodes_first
      | inr (same, line) ↦ rw (same, line) decodes_second
    ];
    one_line = λ e b h. elim (encoded_cases e b h) [
      | inl (same, line) ↦ rw line refl
      | inr (same, line) ↦ rw line refl
    ];
    utf8 = λ e b h. elim (encoded_cases e b h) [
      | inl (same, line) ↦ rw line refl
      | inr (same, line) ↦ rw line refl
    ];
    not_empty = λ e b h. elim (encoded_cases e b h) [
      | inl (same, line) ↦ rw line refl
      | inr (same, line) ↦ rw line refl
    ];
    short = λ e b h valid checked. elim (encoded_cases e b h) [
      | inl (same, line) ↦ rw line (omega arith)
      | inr (same, line) ↦ rw line (omega arith)
    ];
  }

unfoldable pub codec : EventCodec
codec = two_events event_reserved event_settled

reserved-ne-settled : event_reserved ≢ event_settled
reserved-ne-settled h = cc

pub codec_laws : EventCodecLaws codec
unfolding codec
codec_laws = two_events_laws event_reserved event_settled

pub encode_reserved : codec.encode event_reserved ≡ some (b'r' ∷ [])
unfolding codec
encode_reserved = encode_first event_reserved event_settled

pub encode_settled : codec.encode event_settled ≡ some (b's' ∷ [])
unfolding codec
encode_settled = encode_second event_reserved event_settled reserved-ne-settled

-- A ledger on an empty directory.
abbrev pub empty_ledger : MutationLedger
empty_ledger = record { root = []; owned_reservations = []; recovery = clean_status }
