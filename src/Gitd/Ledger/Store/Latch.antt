-- ===== src/Gitd/Ledger/Store/Latch.antt =====
-- A failure that leaves its mark on the ledger stops the process: nothing is taken after it.
use bullet_git.Prelude.{
  ℕ, Bool, Option-cases, ◌≡◌, ◌⊎◌, inl, inr, refl, List, [], ◌∷◌, All, Text, Result, err, arith,
  Result-cases,
}
use bullet_git.Gitd.Ledger.Subject.{
  MutationSubject, MutationOutcome, MutationResult, ReplayDisposition, MutationLedgerError,
  outcome_unknown,
}
use bullet_git.Gitd.Ledger.Record.{EventCodec, Entry, LoadedRecord, load_record}
use bullet_git.Gitd.Ledger.Recovery.{in_flight, record_name, load_at, lookup}
use bullet_git.Gitd.Ledger.Store.{
  MutationLedger, ReserveIo, SettleIo, AppendIo, read_or_fail, reserve, settle, reserve_new,
  reserve_loaded, reserve_existing, settle_owned, settle_loaded,
}
use bullet_git.Gitd.Ledger.Store.Frozen.{
  IsFrozen, mark_corrupt-frozen, mark_indeterminate-frozen, frozen_refuses,
}

pub data Call : Type 0 where
  reserving : MutationSubject → ReserveIo → Call
  settling : MutationSubject → MutationOutcome → Text → ℕ → SettleIo → Call

abbrev pub Answer : Type 0
Answer = Result MutationLedgerError ReplayDisposition

abbrev pub perform : EventCodec → Call → MutationLedger → Answer × MutationLedger
perform codec (reserving s disk) l = reserve codec l s disk
perform codec (settling s outcome digest completed_at disk) l =
    settle codec l s outcome digest completed_at disk

-- The answers of the calls in their order, and the ledger behind them.
abbrev pub perform_all : EventCodec → List Call → MutationLedger → List Answer × MutationLedger
perform_all codec [] l = ([], l)
perform_all codec (call ∷ calls) l =
    let (answer, l') = perform codec call l in
    let (answers, l'') = perform_all codec calls l' in (answer ∷ answers, l'')

-- What a call that fails does: nothing, or it freezes the ledger.
abbrev IsMarked : MutationLedger → Answer × MutationLedger → Type 0
IsMarked l out = (e : MutationLedgerError) → out.0 ≡ err e → (out.1 ≡ l) ⊎ IsFrozen out.1

module _ (codec : EventCodec) where
  reserve_new-IsMarked :
      (l : MutationLedger) (s : MutationSubject) (disk : ReserveIo)
      → IsMarked l (reserve_new codec l s disk)
  unfolding reserve_new
  reserve_new-IsMarked l s disk e failed = inr (ground (arith, mark_corrupt-frozen l.recovery))

  reserve_loaded-IsMarked :
      (l : MutationLedger) (s : MutationSubject) (state : LoadedRecord)
      → IsMarked l (reserve_loaded codec l s state)
  unfolding reserve_loaded
  reserve_loaded-IsMarked l s state e failed =
      ground (arith, mark_indeterminate-frozen state.subject in_flight l.recovery)

  reserve_existing-IsMarked :
      (l : MutationLedger) (s : MutationSubject) (entry : Entry) (reads : Bool)
      → IsMarked l (reserve_existing codec l s entry reads)
  unfolding reserve_existing
  reserve_existing-IsMarked l s entry reads e failed =
      elim (Result-cases (read_or_fail reads (load_record codec entry))) [
        | inl (state, loaded) ↦ ground (arith, reserve_loaded-IsMarked l s state e)
        | inr (error, failed_load) ↦ ground (arith, mark_corrupt-frozen l.recovery)
      ]

  reserve-IsMarked :
      (l : MutationLedger) (s : MutationSubject) (disk : ReserveIo)
      → IsMarked l (reserve codec l s disk)
  unfolding reserve
  reserve-IsMarked l s disk e failed = elim (Option-cases (lookup (record_name s) l.root)) [
    | inl absent ↦ ground (arith, reserve_new-IsMarked l s disk e)
    | inr (entry, there) ↦ ground (arith, reserve_existing-IsMarked l s entry disk.reads e)
  ]

  settle_owned-IsMarked :
      (l : MutationLedger) (r : MutationResult) (disk : AppendIo)
      → IsMarked l (settle_owned codec l r disk)
  unfolding settle_owned
  settle_owned-IsMarked l r disk e failed = inr (ground (arith, mark_corrupt-frozen l.recovery))

  settle_loaded-IsMarked :
      (l : MutationLedger) (r : MutationResult) (state : LoadedRecord) (disk : AppendIo)
      → IsMarked l (settle_loaded codec l r state disk)
  unfolding settle_loaded
  settle_loaded-IsMarked l r state disk e failed = ground (arith, settle_owned-IsMarked l r disk e)

  settle-IsMarked :
      (l : MutationLedger) (s : MutationSubject) (outcome : MutationOutcome) (digest : Text)
      (completed_at : ℕ) (disk : SettleIo)
      → IsMarked l (settle codec l s outcome digest completed_at disk)
  unfolding settle
  settle-IsMarked l s outcome digest completed_at disk e failed =
      let requested : MutationResult = record {
        subject = s;
        outcome = outcome;
        result_digest = digest;
        completed_at_unix_ms = completed_at;
      } in
      elim (Result-cases (read_or_fail disk.reads (load_at codec l.root (record_name s)))) [
        | inl (state, loaded) ↦
            ground (arith, settle_loaded-IsMarked l requested state disk.append e)
        | inr (error, failed_load) ↦ ground (arith, mark_corrupt-frozen l.recovery)
      ]

  perform-IsMarked : (call : Call) (l : MutationLedger) → IsMarked l (perform codec call l)
  perform-IsMarked (reserving s disk) l = reserve-IsMarked l s disk
  perform-IsMarked (settling s outcome digest completed_at disk) l =
      settle-IsMarked l s outcome digest completed_at disk

  perform-frozen :
      (call : Call) (l : MutationLedger)
      → IsFrozen l
      → perform codec call l ≡ (err outcome_unknown, l)
  perform-frozen (reserving s disk) l frozen = (frozen_refuses codec l frozen).0 s disk
  perform-frozen (settling s outcome digest completed_at disk) l frozen =
      (frozen_refuses codec l frozen).1 s outcome digest completed_at disk

  perform_all-frozen :
      (calls : List Call) (l : MutationLedger)
      → IsFrozen l
      → All (λ a. a ≡ err outcome_unknown) (perform_all codec calls l).0
        × ((perform_all codec calls l).1 ≡ l)
  perform_all-frozen [] l frozen = (tt, refl)
  perform_all-frozen (call ∷ calls) l frozen =
      rw (perform-frozen call l frozen)
        (let later = perform_all-frozen calls l frozen in ((refl, later.0), later.1))

  -- A reservation or settlement that fails leaves the ledger as it was, files and all; or every call
  -- that follows it in the process, whatever the file system does, is refused with an unknown outcome
  -- and changes nothing.
  pub failure_latches :
      (l : MutationLedger) (call : Call) (e : MutationLedgerError) (calls : List Call)
      → (perform codec call l).0 ≡ err e
      → let l' = (perform codec call l).1 in
        (l' ≡ l)
        ⊎ (All (λ a. a ≡ err outcome_unknown) (perform_all codec calls l').0
            × ((perform_all codec calls l').1 ≡ l'))
  failure_latches l call e calls failed = elim (perform-IsMarked call l e failed) [
    | inl same ↦ inl same
    | inr frozen ↦ inr (perform_all-frozen calls (perform codec call l).1 frozen)
  ]
