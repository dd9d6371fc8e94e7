-- ===== src/Gitd/Ledger/Record/Loading.antt =====
-- A record file that the ledger wrote loads to what was written.
use bullet_git.Prelude.{
  ℕ, zero, suc, ◌≤◌, ◌≡◌, refl, none, some, List, [], ◌∷◌, ◌++◌, Bytes, length-append, nat_eq, ok,
  arith,
}
use bullet_git.Gitd.Frames.{available, read_frame, consume}
use bullet_git.Gitd.Frames.Lines.{read_frame-consumes, read_frame-end, consume-line}
use bullet_git.Gitd.Ledger.Subject.{
  MutationSubject, MutationResult, validate, validate_digest, schema_version, max_safe_integer,
  subject_eq,
}
use bullet_git.Gitd.Ledger.Record.{
  LedgerEvent, reserved, settled, subject_of, validate_digest_of, EventCodec, EventCodecLaws, file,
  decode_line, read_events, load_record,
}

module _ (codec : EventCodec) (laws : EventCodecLaws codec) where
  read_frame-event :
      (e : LedgerEvent) (b rest : Bytes)
      → codec.encode e ≡ some b
      → validate (subject_of e) ≡ ok tt
      → validate_digest_of e ≡ ok tt
      → read_frame (available (b ++ 10 ∷ rest) ∷ []) ≡ (ok (some b), consume rest [])
  read_frame-event e b rest enc v w =
      read_frame-consumes b rest [] (laws.one_line e b enc) (laws.utf8 e b enc)
        (laws.short e b enc v w)

  decode_line-event :
      (e : LedgerEvent) (b : Bytes) → codec.encode e ≡ some b → decode_line codec b ≡ ok e
  unfolding decode_line
  decode_line-event e b enc = rw (laws.not_empty e b enc, laws.decode-encode e b enc)

  -- One round: an event is read, and the rest of the input gives the others.
  read_events-step :
      (room : ℕ) (e : LedgerEvent) (es : List LedgerEvent) (b rest : Bytes)
      → codec.encode e ≡ some b
      → validate (subject_of e) ≡ ok tt
      → validate_digest_of e ≡ ok tt
      → read_events codec room (consume rest []) ≡ ok es
      → read_events codec (suc room) (available (b ++ 10 ∷ rest) ∷ []) ≡ ok (e ∷ es)
  unfolding read_events
  read_events-step room e es b rest enc v w more =
      ground (arith, read_frame-event e b rest enc v w, decode_line-event e b enc)

  read_events-end : (room : ℕ) → read_events codec room (consume [] []) ≡ ok []
  unfolding read_events consume
  read_events-end zero = ground (arith, read_frame-end)
  read_events-end (suc room) = ground (arith, read_frame-end)

  read_events-one :
      (e : LedgerEvent) (b : Bytes)
      → codec.encode e ≡ some b
      → validate (subject_of e) ≡ ok tt
      → validate_digest_of e ≡ ok tt
      → read_events codec 2 (available (b ++ 10 ∷ []) ∷ []) ≡ ok (e ∷ [])
  read_events-one e b enc v w = read_events-step 1 e [] b [] enc v w (read_events-end 1)

  read_events-two :
      (e e' : LedgerEvent) (b b' : Bytes)
      → codec.encode e ≡ some b
      → codec.encode e' ≡ some b'
      → validate (subject_of e) ≡ ok tt
      → validate_digest_of e ≡ ok tt
      → validate (subject_of e') ≡ ok tt
      → validate_digest_of e' ≡ ok tt
      → read_events codec 2 (available (b ++ 10 ∷ (b' ++ 10 ∷ [])) ∷ []) ≡ ok (e ∷ e' ∷ [])
  read_events-two e e' b b' enc enc' v w v' w' =
      read_events-step 1 e (e' ∷ []) b (b' ++ 10 ∷ []) enc v w
        (rw (consume-line b' [] []) (read_events-step 0 e' [] b' [] enc' v' w' (read_events-end 0)))

  -- A file with one reservation of a valid subject loads to that subject, with no result.
  pub load_record-reserved :
      (s : MutationSubject) (b : Bytes)
      → codec.encode (reserved schema_version s) ≡ some b
      → validate s ≡ ok tt
      → load_record codec (file (b ++ 10 ∷ [])) ≡ ok (record { subject = s; result = none })
  unfolding load_record
  load_record-reserved s b enc v = ground (
    arith,
    laws.short (reserved schema_version s) b enc v refl,
    length-append b (10 ∷ []),
    read_events-one (reserved schema_version s) b enc v refl,
  )

  -- A file with that reservation and a settlement of it loads to the settled result.
  pub load_record-settled :
      (r : MutationResult) (b b' : Bytes)
      → codec.encode (reserved schema_version r.subject) ≡ some b
      → codec.encode
          (settled schema_version r.subject r.outcome r.result_digest r.completed_at_unix_ms)
        ≡ some b'
      → validate r.subject ≡ ok tt
      → validate_digest r.result_digest ≡ ok tt
      → r.completed_at_unix_ms ≤ max_safe_integer
      → load_record codec (file (b ++ 10 ∷ (b' ++ 10 ∷ [])))
        ≡ ok (record { subject = r.subject; result = some r })
  unfolding load_record
  load_record-settled r b b' enc enc' v d t = ground (
    arith,
    laws.short (reserved schema_version r.subject) b enc v refl,
    laws.short (settled schema_version r.subject r.outcome r.result_digest r.completed_at_unix_ms)
        b' enc' v d,
    length-append b (10 ∷ (b' ++ 10 ∷ [])),
    length-append b' (10 ∷ []),
    read_events-two (reserved schema_version r.subject)
        (settled schema_version r.subject r.outcome r.result_digest r.completed_at_unix_ms) b b' enc
        enc' v refl v d,
  )
