-- ===== src/Gitd/Ledger/Record.antt =====
-- crates/bullet-gitd/src/mutation_recovery.rs: one record file, and what it loads to. The JSON codec
-- of an event (`serde_json`, with the duplicate-key check of `decode_strict_json`) is a parameter.
pub mod Loading
pub mod Torn
use bullet_git.Prelude.{
  ℕ, zero, suc, ◌+◌, ◌*◌, ◌≤◌, ◌≡◌, Bool, true, false, not, ◌&&◌, ◌||◌, Option, none, some, List,
  [], ◌∷◌, ◌++◌, Bytes, Text, length, is_empty, all, ltb, leb, ◌==◌, ◌≢◌, nat_eq, if◌then◌else◌,
  Result, ok, err, ok_or, refuse_if, ◌>>=◌, ◌>>◌,
}
use bullet_git.Gitd.Frames.{
  FrameReadError, Chunk, failed, available, Reader, max_frame_bytes, is_utf8, read_frame,
}
use bullet_git.Gitd.Ledger.Subject.{
  MutationSubject, MutationOutcome, MutationResult, MutationLedgerError, outcome_unknown, validate,
  validate_digest, schema_version, max_safe_integer, subject_eq,
}

abbrev pub max_ledger_record_bytes : ℕ
max_ledger_record_bytes = 2 * (max_frame_bytes + 1)

pub data LedgerEvent : Type 0 where
  reserved : ℕ → MutationSubject → LedgerEvent
  settled : ℕ → MutationSubject → MutationOutcome → Text → ℕ → LedgerEvent

-- `serde_json::to_vec`, and `decode_strict_json` with `serde_json::from_value`.
pub record EventCodec : Type 0 where
  pub encode : LedgerEvent → Option Bytes
  pub decode : Text → Option LedgerEvent

abbrev pub subject_of : LedgerEvent → MutationSubject
subject_of (reserved _ s) = s
subject_of (settled _ s _ _ _) = s

-- The digest of a settlement is as wide as it is checked to be.
abbrev pub validate_digest_of : LedgerEvent → Result MutationLedgerError (Unit {0})
validate_digest_of (reserved _ _) = ok tt
validate_digest_of (settled _ _ _ digest _) = validate_digest digest

-- What the ledger relies on: the compact JSON text of an event reads back as that event; it is UTF-8
-- and has no newline; and it is not empty and, for a subject and a digest whose texts have their checked
-- widths, no longer than a frame.
pub record EventCodecLaws (c : EventCodec) : Type 0 where
  pub decode-encode : (e : LedgerEvent) (b : Bytes) → c.encode e ≡ some b → c.decode b ≡ some e
  pub one_line :
      (e : LedgerEvent) (b : Bytes) → c.encode e ≡ some b → all (λ x. not (x == 10)) b ≡ true
  pub utf8 : (e : LedgerEvent) (b : Bytes) → c.encode e ≡ some b → is_utf8 b ≡ true
  pub not_empty : (e : LedgerEvent) (b : Bytes) → c.encode e ≡ some b → is_empty b ≡ false
  pub short :
      (e : LedgerEvent) (b : Bytes)
      → c.encode e ≡ some b
      → validate (subject_of e) ≡ ok tt
      → validate_digest_of e ≡ ok tt
      → length b ≤ max_frame_bytes

-- A directory entry as `open` with NOFOLLOW finds it: a regular file, something else that opens, or
-- something that does not open or cannot be read.
pub data Entry : Type 0 where
  file : Bytes → Entry
  irregular unopenable : Entry

pub record LoadedRecord : Type 0 where
  pub subject : MutationSubject
  pub result : Option MutationResult

-- The condition under which a settlement is refused.
unfoldable pub bad_settlement : ℕ → MutationSubject → MutationSubject → Text → ℕ → Bool
bad_settlement version settled_subject subject digest completed_at =
    not (version == schema_version)
    || not (settled_subject == subject)
    || ltb max_safe_integer completed_at
    || elim (validate_digest digest) [ ok _ ↦ false | err _ ↦ true ]

-- `events.get(1)`
unfoldable pub settlement :
    MutationSubject → List LedgerEvent → Result MutationLedgerError (Option MutationResult)
unfolding bad_settlement
settlement subject [] = ok none
settlement subject (settled version settled_subject outcome digest completed_at ∷ _) = do
  refuse_if (bad_settlement version settled_subject subject digest completed_at) outcome_unknown
  ok (
      some (record {
        subject = subject;
        outcome = outcome;
        result_digest = digest;
        completed_at_unix_ms = completed_at;
      }))
settlement subject (reserved _ _ ∷ _) = err outcome_unknown

-- What the events of a file stand for.
unfoldable pub interpret : List LedgerEvent → Result MutationLedgerError LoadedRecord
unfolding settlement
interpret [] = err outcome_unknown
interpret (settled _ _ _ _ _ ∷ _) = err outcome_unknown
interpret (reserved version subject ∷ rest) = do
  refuse_if (not (version == schema_version)) outcome_unknown
  elim (validate subject) [ ok _ ↦ ok tt | err _ ↦ err outcome_unknown ]
  result ← settlement subject rest
  ok (record { subject = subject; result = result })

module _ (codec : EventCodec) where
  unfoldable pub decode_line : Text → Result MutationLedgerError LedgerEvent
  decode_line line = do
    refuse_if (is_empty line) outcome_unknown
    ok_or (codec.decode line) outcome_unknown

  -- The loop over the frames; `room` is how many more events the vector of two takes.
  unfoldable pub read_events : ℕ → Reader → Result MutationLedgerError (List LedgerEvent)
  unfolding decode_line
  read_events zero reader = elim (read_frame reader).0 [
    | err _ ↦ err outcome_unknown
    | ok none ↦ ok []
    | ok (some line) ↦ err outcome_unknown
  ]
  read_events (suc room) reader =
      let rest = read_events room (read_frame reader).1 in
      elim (read_frame reader).0 [
        | err _ ↦ err outcome_unknown
        | ok none ↦ ok []
        | ok (some line) ↦ do event ← decode_line line; events ← rest; ok (event ∷ events)
      ]

  -- `load_record_with_access` on an entry; the file itself is the second part of the source's result.
  unfoldable pub load_record : Entry → Result MutationLedgerError LoadedRecord
  unfolding read_events interpret
  load_record unopenable = err outcome_unknown
  load_record irregular = err outcome_unknown
  load_record (file contents) = do
    refuse_if (ltb max_ledger_record_bytes (length contents)) outcome_unknown
    events ← read_events 2 (available contents ∷ [])
    interpret events
