-- ===== src/Gitd/Ledger/Recovery.antt =====
-- crates/bullet-gitd/src/mutation_recovery.rs: the recovery status and the scan that a ledger makes
-- when it opens.
pub mod Scan
use bullet_git.Prelude.{
  ℕ, zero, suc, ◌+◌, Bool, true, false, not, ◌||◌, Option, none, some, List, [], ◌∷◌, ◌++◌, Text,
  codes, length, is_empty, ◌==◌, nat_eq, text_eq, if◌then◌else◌, Result, ok, err, refuse_if, sort,
  u64_max,
}
use bullet_git.Gitd.Ledger.Subject.{
  MutationSubject, MutationOutcome, committed, aborted, unknown, MutationResult,
  MutationLedgerError, outcome_unknown,
}
use bullet_git.Gitd.Ledger.Record.{Entry, EventCodec, LoadedRecord, load_record}

abbrev pub max_ledger_records : ℕ
max_ledger_records = 4096

pub data IndeterminateMutationState : Type 0 where
  in_flight unknown_outcome : IndeterminateMutationState

pub record IndeterminateMutation : Type 0 where
  pub subject : MutationSubject
  pub state : IndeterminateMutationState

pub record MutationRecoveryStatus : Type 0 where
  pub indeterminate : List IndeterminateMutation
  pub corrupt_record_count : ℕ

-- `MutationRecoveryStatus::default()`
abbrev pub clean_status : MutationRecoveryStatus
clean_status = record { indeterminate = []; corrupt_record_count = 0 }

unfoldable pub is_frozen : MutationRecoveryStatus → Bool
is_frozen status = not (is_empty status.indeterminate) || not (status.corrupt_record_count == 0)

unfoldable pub require_writable : MutationRecoveryStatus → Result MutationLedgerError (Unit {0})
unfolding is_frozen
require_writable status = refuse_if (is_frozen status) outcome_unknown

unfoldable pub mark_indeterminate :
    MutationSubject → IndeterminateMutationState → MutationRecoveryStatus → MutationRecoveryStatus
mark_indeterminate subject state status = record status {
  indeterminate = status.indeterminate ++ record { subject = subject; state = state } ∷ [];
}

-- `saturating_add(1)` on a `usize`.
unfoldable pub mark_corrupt : MutationRecoveryStatus → MutationRecoveryStatus
mark_corrupt status = record status {
  corrupt_record_count =
      if status.corrupt_record_count == u64_max then u64_max else status.corrupt_record_count + 1;
}

-- The ledger's directory: file names, in the order in which `read_dir` lists them, and entries.
abbrev pub Directory : Type 0
Directory = List (Text × Entry)

unfoldable pub lookup : Text → Directory → Option Entry
lookup name [] = none
lookup name ((n, entry) ∷ rest) = if n == name then some entry else lookup name rest

-- The loop over `read_dir`: at most `room` more names, and whether one was left out.
unfoldable pub collect : ℕ → Directory → List Text × Bool
collect room [] = ([], false)
collect zero (_ ∷ _) = ([], true)
collect (suc room) ((name, _) ∷ rest) =
    let (names, more) = collect room rest in (name ∷ names, more)

unfoldable pub record_name : MutationSubject → Text
record_name subject = subject.mutation_id ++ codes ".jsonl"

-- What one well-named record adds to the status.
unfoldable pub note_result : LoadedRecord → MutationRecoveryStatus → MutationRecoveryStatus
unfolding mark_indeterminate
note_result loaded status = elim loaded.result [
  | none ↦ mark_indeterminate loaded.subject in_flight status
  | some result ↦ elim result.outcome [
    | unknown ↦ mark_indeterminate result.subject unknown_outcome status
    | committed ↦ status
    | aborted ↦ status
  ]
]

module _ (codec : EventCodec) (dir : Directory) where
  -- `load_record` on a path below the root; a file that has vanished does not open.
  unfoldable pub load_at : Text → Result MutationLedgerError LoadedRecord
  load_at name = elim (lookup name dir) [
    | none ↦ err outcome_unknown
    | some e ↦ load_record codec e
  ]

  -- One round of the loop over the sorted paths.
  unfoldable pub scan_one : Text → MutationRecoveryStatus → MutationRecoveryStatus
  unfolding load_at mark_corrupt record_name note_result
  scan_one name status = elim (load_at name) [
    | err _ ↦ mark_corrupt status
    | ok loaded ↦
        if not (name == record_name loaded.subject)
        then mark_corrupt status
        else note_result loaded status
  ]

  unfoldable pub scan_all : List Text → MutationRecoveryStatus → MutationRecoveryStatus
  unfolding scan_one
  scan_all [] status = status
  scan_all (name ∷ names) status = scan_all names (scan_one name status)

  -- `scan_recovery` where the directory can be listed.
  unfoldable pub scan_recovery : MutationRecoveryStatus
  unfolding collect scan_all
  scan_recovery =
      let (names, truncated) = collect max_ledger_records dir in
      scan_all (sort names) (if truncated then mark_corrupt clean_status else clean_status)
