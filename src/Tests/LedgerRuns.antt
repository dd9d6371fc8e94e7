-- ===== src/Tests/LedgerRuns.antt =====
-- The mutation ledger on an empty directory.
use bullet_git.Prelude.{
  ◌⊎◌, checked_add, List, ℕ_discrete, ◌≤◌, ◌≡◌, ◌≢◌, ◌↔◌, refl, ap, true, false, not, none, some,
  [], ◌∷◌, ◌++◌, map, Bytes, codes, length, all, All, ◌==◌, nat_eq, if◌then◌else◌, ok, err, arith,
}
use bullet_git.Gitd.Frames.{
  available, read_frame, is_utf8, split_newline, over_bound, decode_utf8, consume,
}
use bullet_git.Gitd.Frames.Lines.{read_frame-line}
use bullet_git.Gitd.Frames.Chunks.{concat, read_frame-concat}
use bullet_git.Gitd.Ledger.Subject.{
  committed, aborted, fresh, exact_replay, replay_conflict, outcome_unknown, io, result_eq,
  validate,
}
use bullet_git.Gitd.Ledger.Subject.Validity.{IsValidSubject, validate_iff}
use bullet_git.Gitd.Ledger.Recovery.{
  Directory, is_frozen, lookup, record_name, scan_recovery, load_at, max_ledger_records,
}
use bullet_git.Gitd.Ledger.Recovery.Scan.{IsSettledRecord, recovery_writable_iff}
use bullet_git.Gitd.Ledger.Store.{
  MutationLedger, ReserveIo, failed_after, RootIo, open_ledger, reserve, reserve_new, append_event,
  settle, smooth, smooth_settle,
}
use bullet_git.Gitd.Ledger.Store.Frozen.{IsFrozen, require_writable-ok}
use bullet_git.Gitd.Ledger.Store.Latch.{Call, reserving, settling, perform_all, failure_latches}
use bullet_git.Gitd.Ledger.Store.Replay.{
  requested, with_reservation, reserve-with_reservation, settled_replays,
}
use bullet_git.Gitd.Ledger.Store.Once.{here, reserved_once}
use bullet_git.Gitd.Ledger.Store.Crash.{unsettled_freezes}
use bullet_git.Tests.Samples.{
  subject, subject_valid, zeros, zeros_valid, result, codec, codec_laws, encode_reserved,
  encode_settled, empty_ledger,
}

pub empty_writable : is_frozen empty_ledger.recovery ≡ false
unfolding is_frozen ℕ_discrete
empty_writable = refl

empty_absent : lookup (record_name subject) empty_ledger.root ≡ none
unfolding lookup
empty_absent = refl

pub empty_reserves :
    reserve codec empty_ledger subject smooth
    ≡ (ok fresh, with_reservation codec codec_laws empty_ledger subject (b'r' ∷ []))
empty_reserves =
    reserve-with_reservation codec codec_laws empty_ledger subject (b'r' ∷ []) empty_writable
      subject_valid empty_absent encode_reserved

line_plain : all (λ x. not (x == 10)) (codes "ok") ≡ true
unfolding ℕ_discrete
line_plain = refl

line_utf8 : is_utf8 (codes "ok") ≡ true
unfolding is_utf8 ℕ_discrete
line_utf8 = refl

settled_replays_example :
    let reservation = reserve codec empty_ledger subject smooth in
    let settlement = settle codec reservation.1 subject committed zeros 1000 smooth_settle in
    (reservation.0 ≡ ok fresh)
    × (settlement.0 ≡ ok fresh)
    × (reserve codec settlement.1 subject smooth ≡ (ok (exact_replay result), settlement.1))
    × (settle codec settlement.1 subject aborted zeros 5 smooth_settle ≡ (
      if result == requested result aborted zeros 5
          then ok (exact_replay result)
          else err (replay_conflict subject.mutation_id),
      settlement.1,
    ))
settled_replays_example =
    settled_replays codec codec_laws empty_ledger result aborted zeros 5 (b'r' ∷ []) (b's' ∷ [])
      empty_writable empty_absent subject_valid zeros_valid (omega arith) (λ h. cc) zeros_valid
      (omega arith) encode_reserved encode_settled

reserved_once_example :
    (reserve codec (reserve codec empty_ledger subject smooth).1 subject smooth).0 ≢ ok fresh
reserved_once_example =
    reserved_once codec empty_ledger (reserve codec empty_ledger subject smooth).1 subject subject
      smooth smooth (ap (λ x. x.0) empty_reserves)
      (here (reserve codec empty_ledger subject smooth).1) refl

-- The file system fails after three bytes.
abbrev torn : ReserveIo
torn = record { opens = true; reads = true; append = failed_after 3; directory_synced = false }

abbrev torn_root : Directory
torn_root = (reserve codec empty_ledger subject torn).1.root

abbrev restarted : MutationLedger
restarted = record {
  root = torn_root;
  owned_reservations = [];
  recovery = scan_recovery codec torn_root;
}

restarts_at_torn : open_ledger codec RootIo.listed torn_root ≡ ok restarted
unfolding open_ledger
restarts_at_torn = refl

unsettled_freezes_example :
    ((torn.opens ≡ false) × (reserve codec empty_ledger subject torn ≡ (err io, empty_ledger)))
    ⊎ ((torn.opens ≡ true) × IsFrozen restarted)
unsettled_freezes_example =
    unsettled_freezes codec codec_laws empty_ledger restarted subject torn empty_writable
      subject_valid empty_absent restarts_at_torn

torn_answer : (reserve codec empty_ledger subject torn).0 ≡ err outcome_unknown
unfolding reserve reserve_new append_event
torn_answer = ground (
  arith,
  require_writable-ok empty_ledger.recovery empty_writable,
  subject_valid,
  empty_absent,
  encode_reserved,
)

recovery_writable_iff_example : (is_frozen (scan_recovery codec torn_root) ≡ false) ↔ (
    (length torn_root ≤ max_ledger_records)
    × All (λ name. IsSettledRecord name (load_at codec torn_root name)) (map (λ e. e.0) torn_root))
recovery_writable_iff_example = recovery_writable_iff codec torn_root

-- After a torn write a second reservation and a settlement.
abbrev later : List Call
later = reserving subject smooth ∷ settling subject committed zeros 1 smooth_settle ∷ []

failure_latches_example :
    let l' = (reserve codec empty_ledger subject torn).1 in
    (l' ≡ empty_ledger)
    ⊎ (All (λ a. a ≡ err outcome_unknown) (perform_all codec later l').0
        × ((perform_all codec later l').1 ≡ l'))
failure_latches_example =
    failure_latches codec empty_ledger (reserving subject torn) outcome_unknown later torn_answer

validate_iff_example : (validate subject ≡ ok tt) ↔ IsValidSubject subject
validate_iff_example = validate_iff subject

read_frame-line_example :
    read_frame (available (codes "ok" ++ 10 ∷ codes "next") ∷ [])
    ≡ (ok (some (codes "ok")), available (codes "next") ∷ [])
read_frame-line_example =
    read_frame-line (codes "ok") (codes "next") [] line_plain line_utf8 (omega arith)

-- A line that ends its chunk: the next chunk is read next, not an end of the input.
next_line :
    (read_frame (read_frame (available (codes "ok" ++ 10 ∷ []) ∷ available (10 ∷ []) ∷ [])).1).0
    ≡ ok (some [])
unfolding read_frame split_newline over_bound checked_add decode_utf8 consume is_utf8 ℕ_discrete
next_line = refl

abbrev pieces : List Bytes
pieces = codes "o" ∷ (b'k' ∷ 10 ∷ []) ∷ []

read_frame-concat_example :
    (read_frame (map available pieces)).0 ≡ (read_frame (available (concat pieces) ∷ [])).0
read_frame-concat_example = read_frame-concat pieces (refl, (refl, tt))
