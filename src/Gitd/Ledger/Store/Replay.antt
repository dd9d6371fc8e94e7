-- ===== src/Gitd/Ledger/Store/Replay.antt =====
-- What a reservation and its settlement leave for later calls.
use bullet_git.Prelude.{
  ℕ, ◌≤◌, ◌≡◌, ◌≢◌, refl, ap, ◌∙◌, true, false, none, some, List, [], ◌∷◌, ◌++◌, Bytes, Text, ◌==◌,
  nat_eq, text_eq, if◌then◌else◌, ok, err, arith, ==_refl,
}
use mathlib.Core.List.{append_assoc}
use bullet_git.Gitd.Ledger.Subject.{
  MutationSubject, MutationOutcome, unknown, MutationResult, fresh, exact_replay, replay_conflict,
  validate, validate_digest, require_same_subject, schema_version, max_safe_integer, result_eq,
  outcome_eq, subject_eq,
}
use bullet_git.Gitd.Ledger.Record.{EventCodec, EventCodecLaws, file, reserved, settled}
use bullet_git.Gitd.Ledger.Record.Loading.{load_record-reserved, load_record-settled}
use bullet_git.Gitd.Ledger.Recovery.{lookup, record_name, is_frozen, load_at}
use bullet_git.Gitd.Ledger.Store.{
  MutationLedger, smooth, smooth_settle, done, put, insert, remove, owns, append_event, contents_of,
  reserve, reserve_new, reserve_existing, reserve_loaded, settle, settle_owned, settle_loaded,
}
use bullet_git.Gitd.Ledger.Store.Frozen.{require_writable-ok}
use bullet_git.Gitd.Ledger.Store.Once.{lookup-put}

require_same_subject_refl : (s : MutationSubject) → require_same_subject s s ≡ ok tt
unfolding require_same_subject
require_same_subject_refl s = ground (arith, ==_refl s)

abbrev pub requested : MutationResult → MutationOutcome → Text → ℕ → MutationResult
requested r outcome digest t = record {
  subject = r.subject;
  outcome = outcome;
  result_digest = digest;
  completed_at_unix_ms = t;
}

pub owns-insert : (id : Text) (set : List Text) → owns id (insert id set) ≡ true
unfolding owns insert
owns-insert id set = ground (arith, ==_refl id)

module _ (codec : EventCodec) (laws : EventCodecLaws codec) where
  -- The ledger after a new reservation whose file system calls succeed.
  abbrev pub with_reservation : MutationLedger → MutationSubject → Bytes → MutationLedger
  with_reservation l s b = record l {
    root = put (record_name s) (file (b ++ 10 ∷ [])) l.root;
    owned_reservations = insert s.mutation_id l.owned_reservations;
  }

  pub reserve-with_reservation :
      (l : MutationLedger) (s : MutationSubject) (b : Bytes)
      → is_frozen l.recovery ≡ false
      → validate s ≡ ok tt
      → lookup (record_name s) l.root ≡ none
      → codec.encode (reserved schema_version s) ≡ some b
      → reserve codec l s smooth ≡ (ok fresh, with_reservation l s b)
  unfolding reserve reserve_new append_event
  reserve-with_reservation l s b writable valid absent enc =
      ground (arith, require_writable-ok l.recovery writable)

  -- And after its settlement.
  abbrev pub with_settlement : MutationLedger → MutationResult → Bytes → Bytes → MutationLedger
  with_settlement l r b b' = record l {
    root = put (record_name r.subject) (file ((b ++ 10 ∷ []) ++ b' ++ 10 ∷ [])) l.root;
    owned_reservations = remove r.subject.mutation_id l.owned_reservations;
  }

  settle_owned-with_settlement :
      (l : MutationLedger) (r : MutationResult) (b b' : Bytes)
      → r.outcome ≢ unknown
      → lookup (record_name r.subject) l.root ≡ some (file (b ++ 10 ∷ []))
      → codec.encode
          (settled schema_version r.subject r.outcome r.result_digest r.completed_at_unix_ms)
        ≡ some b'
      → settle_owned codec l r done ≡ (ok fresh, with_settlement l r b b')
  unfolding settle_owned append_event contents_of
  settle_owned-with_settlement l r b b' known there enc = ground arith

  pub settle-with_settlement :
      (l : MutationLedger) (r : MutationResult) (b b' : Bytes)
      → is_frozen l.recovery ≡ false
      → validate r.subject ≡ ok tt
      → validate_digest r.result_digest ≡ ok tt
      → r.completed_at_unix_ms ≤ max_safe_integer
      → r.outcome ≢ unknown
      → owns r.subject.mutation_id l.owned_reservations ≡ true
      → lookup (record_name r.subject) l.root ≡ some (file (b ++ 10 ∷ []))
      → codec.encode (reserved schema_version r.subject) ≡ some b
      → codec.encode
          (settled schema_version r.subject r.outcome r.result_digest r.completed_at_unix_ms)
        ≡ some b'
      → settle codec l r.subject r.outcome r.result_digest r.completed_at_unix_ms smooth_settle
        ≡ (ok fresh, with_settlement l r b b')
  unfolding settle settle_loaded load_at
  settle-with_settlement l r b b' writable valid digest time known own there enc enc' = ground (
    arith,
    require_writable-ok l.recovery writable,
    load_record-reserved codec laws r.subject b enc valid,
    require_same_subject_refl r.subject,
    settle_owned-with_settlement l r b b' known there enc',
  )

  -- A settled record answers a reservation of its subject with the result, and a settlement by whether
  -- it asks for that result.
  settled-answers :
      (l : MutationLedger) (r : MutationResult) (b b' : Bytes)
      → is_frozen l.recovery ≡ false
      → validate r.subject ≡ ok tt
      → validate_digest r.result_digest ≡ ok tt
      → r.completed_at_unix_ms ≤ max_safe_integer
      → lookup (record_name r.subject) l.root ≡ some (file (b ++ 10 ∷ (b' ++ 10 ∷ [])))
      → codec.encode (reserved schema_version r.subject) ≡ some b
      → codec.encode
          (settled schema_version r.subject r.outcome r.result_digest r.completed_at_unix_ms)
        ≡ some b'
      → reserve codec l r.subject smooth ≡ (ok (exact_replay r), l)
  unfolding reserve reserve_existing reserve_loaded
  settled-answers l r b b' writable valid digest time there enc enc' = ground (
    arith,
    require_writable-ok l.recovery writable,
    load_record-settled codec laws r b b' enc enc' valid digest time,
    require_same_subject_refl r.subject,
  )

  settled-settle-answers :
      (l : MutationLedger) (r : MutationResult) (outcome : MutationOutcome) (digest : Text) (t : ℕ)
      (b b' : Bytes)
      → is_frozen l.recovery ≡ false
      → validate r.subject ≡ ok tt
      → validate_digest r.result_digest ≡ ok tt
      → r.completed_at_unix_ms ≤ max_safe_integer
      → validate_digest digest ≡ ok tt
      → t ≤ max_safe_integer
      → lookup (record_name r.subject) l.root ≡ some (file (b ++ 10 ∷ (b' ++ 10 ∷ [])))
      → codec.encode (reserved schema_version r.subject) ≡ some b
      → codec.encode
          (settled schema_version r.subject r.outcome r.result_digest r.completed_at_unix_ms)
        ≡ some b'
      → settle codec l r.subject outcome digest t smooth_settle ≡ (
        if r == requested r outcome digest t
            then ok (exact_replay r)
            else err (replay_conflict r.subject.mutation_id),
        l,
      )
  unfolding settle settle_loaded load_at
  settled-settle-answers l r outcome digest t b b' writable valid digest_ok time digest_ok' time'
        there enc enc' =
      ground (
        arith,
        require_writable-ok l.recovery writable,
        load_record-settled codec laws r b b' enc enc' valid digest_ok time,
        require_same_subject_refl r.subject,
      )

  line_assoc : (b b' : Bytes) → (b ++ 10 ∷ []) ++ b' ++ 10 ∷ [] ≡ b ++ 10 ∷ (b' ++ 10 ∷ [])
  line_assoc b b' =
      append_assoc (b ++ 10 ∷ []) b' (10 ∷ []) ∙ append_assoc b (10 ∷ []) (b' ++ 10 ∷ [])

  -- On a writable ledger without a record of the Mutation, a valid reservation and its settlement to a
  -- known outcome are both fresh, when the file system does its part. Afterwards a reservation of that
  -- subject replays the result, and a settlement of it replays the result if it asks for exactly that
  -- result and is a replay conflict if not; neither changes the ledger.
  pub settled_replays :
      (l : MutationLedger) (r : MutationResult) (outcome : MutationOutcome) (digest : Text) (t : ℕ)
      (b b' : Bytes)
      → is_frozen l.recovery ≡ false
      → lookup (record_name r.subject) l.root ≡ none
      → validate r.subject ≡ ok tt
      → validate_digest r.result_digest ≡ ok tt
      → r.completed_at_unix_ms ≤ max_safe_integer
      → r.outcome ≢ unknown
      → validate_digest digest ≡ ok tt
      → t ≤ max_safe_integer
      → codec.encode (reserved schema_version r.subject) ≡ some b
      → codec.encode
          (settled schema_version r.subject r.outcome r.result_digest r.completed_at_unix_ms)
        ≡ some b'
      → let reservation = reserve codec l r.subject smooth in
        let settlement =
          settle codec reservation.1 r.subject r.outcome r.result_digest r.completed_at_unix_ms
            smooth_settle in
        (reservation.0 ≡ ok fresh)
        × (settlement.0 ≡ ok fresh)
        × (reserve codec settlement.1 r.subject smooth ≡ (ok (exact_replay r), settlement.1))
        × (settle codec settlement.1 r.subject outcome digest t smooth_settle ≡ (
          if r == requested r outcome digest t
              then ok (exact_replay r)
              else err (replay_conflict r.subject.mutation_id),
          settlement.1,
        ))
  settled_replays l r outcome digest t b b' writable absent valid digest_ok time known digest_ok'
        time' enc enc' =
      let l1 = with_reservation l r.subject b in
      let l2 = with_settlement l1 r b b' in
      let name = record_name r.subject in
      let there1 : lookup name l1.root ≡ some (file (b ++ 10 ∷ [])) =
        ground (arith, lookup-put name name (file (b ++ 10 ∷ [])) l.root, ==_refl name) in
      let there2 : lookup name l2.root ≡ some (file (b ++ 10 ∷ (b' ++ 10 ∷ []))) = ground (
        arith,
        lookup-put name name (file ((b ++ 10 ∷ []) ++ b' ++ 10 ∷ [])) l1.root,
        ==_refl name,
        line_assoc b b',
      ) in
      let reserving = reserve-with_reservation l r.subject b writable valid absent enc in
      let settling =
        settle-with_settlement l1 r b b' writable valid digest_ok time known
          (owns-insert r.subject.mutation_id l.owned_reservations) there1 enc enc' in
      let again = settled-answers l2 r b b' writable valid digest_ok time there2 enc enc' in
      let asked =
        settled-settle-answers l2 r outcome digest t b b' writable valid digest_ok time digest_ok'
          time' there2 enc enc' in
      (
        ap (λ x. x.0) reserving,
        rw (reserving, settling) refl,
        rw (reserving, settling) again,
        rw (reserving, settling) asked,
      )
