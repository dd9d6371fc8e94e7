-- ===== src/Gitd/Ledger/Store.antt =====
-- crates/bullet-gitd/src/mutation_ledger_store.rs: opening the ledger, reserving and settling.
-- Every operation takes the outcome of its file-system calls as an argument.
pub mod Frozen
pub mod Once
pub mod Replay
pub mod Crash
pub mod Latch
use bullet_git.Prelude.{
  ℕ, Bool, true, false, not, ◌||◌, ◌&&◌, Option, none, some, List, [], ◌∷◌, ◌++◌, Bytes, Text,
  length, any, take, ltb, ◌==◌, nat_eq, text_eq, if◌then◌else◌, Result, ok, err, refuse_if, ◌>>=◌,
  ◌>>◌,
}
use bullet_git.Gitd.Ledger.Subject.{
  MutationSubject, MutationOutcome, unknown, MutationResult, ReplayDisposition, fresh, exact_replay,
  MutationLedgerError, outcome_unknown, invalid_subject, io, replay_conflict, validate,
  validate_digest, require_same_subject, schema_version, max_safe_integer, result_eq, outcome_eq,
}
use bullet_git.Gitd.Ledger.Record.{
  Entry, file, irregular, unopenable, EventCodec, LedgerEvent, reserved, settled, LoadedRecord,
  load_record,
}
use bullet_git.Gitd.Ledger.Recovery.{
  MutationRecoveryStatus, in_flight, unknown_outcome, require_writable, mark_indeterminate,
  mark_corrupt, Directory, lookup, record_name, scan_recovery, load_at,
}

-- The ledger beside the directory below its root. A restart keeps `root` alone.
pub record MutationLedger : Type 0 where
  pub root : Directory
  pub owned_reservations : List Text
  pub recovery : MutationRecoveryStatus

-- How the root answers when a ledger opens: the directory cannot be made, inspected or listed; it is
-- no directory; it is one.
pub data RootIo : Type 0 where
  unavailable not_directory listed : RootIo

-- `write_all` of the event, `write_all` of the newline and `sync_all`: done, or failed when so many
-- bytes had landed in the file.
pub data AppendIo : Type 0 where
  done : AppendIo
  failed_after : ℕ → AppendIo

-- `create_new` opens unless it fails with another error than `AlreadyExists`; then the append, and
-- the `sync_all` of the directory; or the read of the record that exists.
pub record ReserveIo : Type 0 where
  pub opens : Bool
  pub reads : Bool
  pub append : AppendIo
  pub directory_synced : Bool

abbrev pub smooth : ReserveIo
smooth = record { opens = true; reads = true; append = done; directory_synced = true }

-- The record opens and reads for append, and the append itself.
pub record SettleIo : Type 0 where
  pub reads : Bool
  pub append : AppendIo

abbrev pub smooth_settle : SettleIo
smooth_settle = record { reads = true; append = done }

-- A load that fails where the file system does.
abbrev pub read_or_fail :
    {A : Type 0} → Bool → Result MutationLedgerError A → Result MutationLedgerError A
read_or_fail true r = r
read_or_fail false r = err outcome_unknown

-- The entry of a name replaced, or added.
unfoldable pub put : Text → Entry → Directory → Directory
put name entry [] = (name, entry) ∷ []
put name entry ((n, e) ∷ rest) =
    if n == name then (name, entry) ∷ rest else (n, e) ∷ put name entry rest

unfoldable pub contents_of : Option Entry → Bytes
contents_of (some (file contents)) = contents
contents_of _ = []

-- `BTreeSet::insert`, and `BTreeSet::remove` with what it returns.
unfoldable pub insert : Text → List Text → List Text
insert id set = if any (λ x. x == id) set then set else id ∷ set

unfoldable pub remove : Text → List Text → List Text
remove id [] = []
remove id (x ∷ xs) = let rest = remove id xs in if x == id then rest else x ∷ rest

unfoldable pub owns : Text → List Text → Bool
owns id set = any (λ x. x == id) set

module _ (codec : EventCodec) where
  -- The file's bytes after `append_event`, and whether it returned `Ok`.
  unfoldable pub append_event : Bytes → LedgerEvent → AppendIo → Bytes × Bool
  append_event contents event disk = elim (codec.encode event) [
    | none ↦ (contents, false)
    | some encoded ↦ elim disk [
      | done ↦ (contents ++ encoded ++ 10 ∷ [], true)
      | failed_after n ↦ (contents ++ take n (encoded ++ 10 ∷ []), false)
    ]
  ]

  unfoldable pub open_ledger : RootIo → Directory → Result MutationLedgerError MutationLedger
  open_ledger unavailable root = err io
  open_ledger not_directory root = err io
  open_ledger listed root =
      ok (record { root = root; owned_reservations = []; recovery = scan_recovery codec root })

  -- The arm of `reserve` for a new record file.
  unfoldable pub reserve_new :
      MutationLedger
      → MutationSubject
      → ReserveIo
      → Result MutationLedgerError ReplayDisposition × MutationLedger
  unfolding append_event put insert mark_corrupt
  reserve_new l subject disk =
      let (contents, appended) = append_event [] (reserved schema_version subject) disk.append in
      let l' = record l { root = put (record_name subject) (file contents) l.root } in
      if appended && disk.directory_synced
      then (
        ok fresh,
        record l' { owned_reservations = insert subject.mutation_id l.owned_reservations },
      )
      else (err outcome_unknown, record l' { recovery = mark_corrupt l.recovery })

  -- The arm for a record file that exists, once it is loaded.
  unfoldable pub reserve_loaded :
      MutationLedger
      → MutationSubject
      → LoadedRecord
      → Result MutationLedgerError ReplayDisposition × MutationLedger
  unfolding mark_indeterminate
  reserve_loaded l subject state = elim (require_same_subject subject state.subject) [
    | err e ↦ (err e, l)
    | ok _ ↦ elim state.result [
      | some result ↦ (ok (exact_replay result), l)
      | none ↦ (
        err outcome_unknown,
        record l { recovery = mark_indeterminate state.subject in_flight l.recovery },
      )
    ]
  ]

  unfoldable pub reserve_existing :
      MutationLedger
      → MutationSubject
      → Entry
      → Bool
      → Result MutationLedgerError ReplayDisposition × MutationLedger
  unfolding reserve_loaded mark_corrupt
  reserve_existing l subject entry reads = elim (read_or_fail reads (load_record codec entry)) [
    | err e ↦ (err e, record l { recovery = mark_corrupt l.recovery })
    | ok state ↦ reserve_loaded l subject state
  ]

  unfoldable pub reserve :
      MutationLedger
      → MutationSubject
      → ReserveIo
      → Result MutationLedgerError ReplayDisposition × MutationLedger
  unfolding reserve_new reserve_existing
  reserve l subject disk = elim (require_writable l.recovery >> validate subject) [
    | err e ↦ (err e, l)
    | ok _ ↦ if not disk.opens then (err io, l) else elim (lookup (record_name subject) l.root) [
      | none ↦ reserve_new l subject disk
      | some entry ↦ reserve_existing l subject entry disk.reads
    ]
  ]

  -- The append of `settle`, for a reservation that this process owns.
  unfoldable pub settle_owned :
      MutationLedger
      → MutationResult
      → AppendIo
      → Result MutationLedgerError ReplayDisposition × MutationLedger
  unfolding append_event put remove mark_corrupt mark_indeterminate
  settle_owned l requested disk =
      let name = record_name requested.subject in
      let event =
        settled schema_version requested.subject requested.outcome requested.result_digest
          requested.completed_at_unix_ms in
      let (contents, appended) = append_event (contents_of (lookup name l.root)) event disk in
      let l' = record l {
        root = put name (file contents) l.root;
        owned_reservations = remove requested.subject.mutation_id l.owned_reservations;
      } in
      if not appended
      then (err outcome_unknown, record l' { recovery = mark_corrupt l.recovery })
      else (
        ok fresh,
        if requested.outcome == unknown
            then record l' {
              recovery = mark_indeterminate requested.subject unknown_outcome l.recovery;
            }
            else l',
      )

  -- `settle` once the record is loaded.
  unfoldable pub settle_loaded :
      MutationLedger
      → MutationResult
      → LoadedRecord
      → AppendIo
      → Result MutationLedgerError ReplayDisposition × MutationLedger
  unfolding settle_owned owns
  settle_loaded l requested state disk =
      elim (require_same_subject requested.subject state.subject) [
        | err e ↦ (err e, l)
        | ok _ ↦ elim state.result [
          | some existing ↦
              if existing == requested
              then (ok (exact_replay existing), l)
              else (err (replay_conflict requested.subject.mutation_id), l)
          | none ↦
              if not (owns requested.subject.mutation_id l.owned_reservations)
              then (err outcome_unknown, l)
              else settle_owned l requested disk
        ]
      ]

  unfoldable pub settle :
      MutationLedger
      → MutationSubject
      → MutationOutcome
      → Text
      → ℕ
      → SettleIo
      → Result MutationLedgerError ReplayDisposition × MutationLedger
  unfolding settle_loaded mark_corrupt
  settle l subject outcome result_digest completed_at disk =
      let requested : MutationResult = record {
        subject = subject;
        outcome = outcome;
        result_digest = result_digest;
        completed_at_unix_ms = completed_at;
      } in
      elim (require_writable l.recovery
        >> validate subject
        >> validate_digest result_digest
        >> refuse_if (ltb max_safe_integer completed_at) invalid_subject) [
          | err e ↦ (err e, l)
          | ok _ ↦ elim (read_or_fail disk.reads (load_at codec l.root (record_name subject))) [
            | err e ↦ (err e, record l { recovery = mark_corrupt l.recovery })
            | ok state ↦ settle_loaded l requested state disk.append
          ]
        ]
