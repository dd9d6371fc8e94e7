-- ===== src/Gitd/Ledger/Store/Once.antt =====
-- A Mutation id is reserved at most once, whatever happens in between.
use bullet_git.Prelude.{
  ℕ, ◌≡◌, ◌≢◌, refl, sym, Bool, none, some, [], ◌∷◌, Text, ◌==◌, text_eq, if◌then◌else◌, ok, arith,
  Result-cases, inl, inr,
}
use bullet_git.Gitd.Ledger.Subject.{
  MutationSubject, MutationOutcome, MutationResult, fresh, schema_version,
}
use bullet_git.Gitd.Ledger.Record.{EventCodec, Entry, file, LoadedRecord, reserved, settled}
use bullet_git.Gitd.Ledger.Recovery.{Directory, lookup, record_name, load_at}
use bullet_git.Gitd.Ledger.Store.{
  MutationLedger, ReserveIo, SettleIo, AppendIo, RootIo, put, open_ledger, append_event,
  contents_of, read_or_fail, reserve, settle, reserve_new, reserve_loaded, reserve_existing,
  settle_owned, settle_loaded,
}

pub lookup-put :
    (j k : Text) (e : Entry) (dir : Directory)
    → lookup j (put k e dir) ≡ (if k == j then some e else lookup j dir)
unfolding lookup put
lookup-put j k e [] = refl
lookup-put j k e ((n, x) ∷ dir) = ground (arith, lookup-put j k e dir)

abbrev pub IsTaken : Text → MutationLedger → Type 0
IsTaken name l = lookup name l.root ≢ none

put-IsTaken :
    (j k : Text) (e : Entry) (dir : Directory) → lookup j dir ≢ none → lookup j (put k e dir) ≢ none
put-IsTaken j k e dir taken gone = ground (arith, lookup-put j k e dir)

module _ (codec : EventCodec) where
  reserve_new-IsTaken :
      (name : Text) (l : MutationLedger) (s : MutationSubject) (disk : ReserveIo)
      → IsTaken name l
      → IsTaken name (reserve_new codec l s disk).1
  unfolding reserve_new
  reserve_new-IsTaken name l s disk taken gone =
      let contents = (append_event codec [] (reserved schema_version s) disk.append).0 in
      ground (arith, put-IsTaken name (record_name s) (file contents) l.root)

  reserve_existing-root :
      (l : MutationLedger) (s : MutationSubject) (entry : Entry) (reads : Bool)
      → (reserve_existing codec l s entry reads).1.root ≡ l.root
  unfolding reserve_existing reserve_loaded
  reserve_existing-root l s entry reads = ground arith

  reserve-IsTaken :
      (name : Text) (l : MutationLedger) (s : MutationSubject) (disk : ReserveIo)
      → IsTaken name l
      → IsTaken name (reserve codec l s disk).1
  unfolding reserve
  reserve-IsTaken name l s disk taken gone =
      ground (arith, reserve_new-IsTaken name l s disk, reserve_existing-root l s)

  settle_owned-IsTaken :
      (name : Text) (l : MutationLedger) (r : MutationResult) (disk : AppendIo)
      → IsTaken name l
      → IsTaken name (settle_owned codec l r disk).1
  unfolding settle_owned
  settle_owned-IsTaken name l r disk taken gone =
      let contents =
        (append_event codec (contents_of (lookup (record_name r.subject) l.root))
          (settled schema_version r.subject r.outcome r.result_digest r.completed_at_unix_ms)
          disk).0 in
      ground (arith, put-IsTaken name (record_name r.subject) (file contents) l.root)

  settle_loaded-IsTaken :
      (name : Text) (l : MutationLedger) (r : MutationResult) (state : LoadedRecord)
      (disk : AppendIo)
      → IsTaken name l
      → IsTaken name (settle_loaded codec l r state disk).1
  unfolding settle_loaded
  settle_loaded-IsTaken name l r state disk taken gone =
      ground (arith, settle_owned-IsTaken name l r disk)

  settle-IsTaken :
      (name : Text) (l : MutationLedger) (s : MutationSubject) (outcome : MutationOutcome)
      (digest : Text) (completed_at : ℕ) (disk : SettleIo)
      → IsTaken name l
      → IsTaken name (settle codec l s outcome digest completed_at disk).1
  unfolding settle
  settle-IsTaken name l s outcome digest completed_at disk taken gone =
      let requested : MutationResult = record {
        subject = s;
        outcome = outcome;
        result_digest = digest;
        completed_at_unix_ms = completed_at;
      } in
      elim (Result-cases (read_or_fail disk.reads (load_at codec l.root (record_name s)))) [
        | inl (state, loaded) ↦
            ground (arith, settle_loaded-IsTaken name l requested state disk.append)
        | inr (e, failed) ↦ ground arith
      ]

  -- What may happen to a ledger: a reservation, a settlement, or the process starts again on the
  -- files that are there.
  pub data Step : MutationLedger → MutationLedger → Type 0 where
    reserves :
        (l : MutationLedger) (s : MutationSubject) (disk : ReserveIo)
        → Step l (reserve codec l s disk).1
    settles :
        (l : MutationLedger) (s : MutationSubject) (outcome : MutationOutcome) (digest : Text)
        (completed_at : ℕ) (disk : SettleIo)
        → Step l (settle codec l s outcome digest completed_at disk).1
    restarts : (l l' : MutationLedger) → open_ledger codec RootIo.listed l.root ≡ ok l' → Step l l'

  pub data Steps : MutationLedger → MutationLedger → Type 0 where
    here : (l : MutationLedger) → Steps l l
    then_on : (l l' l'' : MutationLedger) → Step l l' → Steps l' l'' → Steps l l''

  restart-root :
      (l l' : MutationLedger) → open_ledger codec RootIo.listed l.root ≡ ok l' → l'.root ≡ l.root
  unfolding open_ledger
  restart-root l l' opened = ground arith

  restart-IsTaken :
      (name : Text) (l l' : MutationLedger)
      → open_ledger codec RootIo.listed l.root ≡ ok l'
      → IsTaken name l
      → IsTaken name l'
  restart-IsTaken name l l' opened taken gone = taken (rw (sym (restart-root l l' opened)) gone)

  Step-IsTaken :
      (name : Text) (l l' : MutationLedger) → Step l l' → IsTaken name l → IsTaken name l'
  Step-IsTaken name l l' (reserves _ s disk) taken = reserve-IsTaken name l s disk taken
  Step-IsTaken name l l' (settles _ s outcome digest completed_at disk) taken =
      settle-IsTaken name l s outcome digest completed_at disk taken
  Step-IsTaken name l l' (restarts _ _ opened) taken = restart-IsTaken name l l' opened taken

  Steps-IsTaken :
      (name : Text) (l l' : MutationLedger) → Steps l l' → IsTaken name l → IsTaken name l'
  Steps-IsTaken name l l' (here _) taken = taken
  Steps-IsTaken name l l' (then_on _ middle _ step steps) taken =
      Steps-IsTaken name middle l' steps (Step-IsTaken name l middle step taken)

  reserve_existing-not-fresh :
      (l : MutationLedger) (s : MutationSubject) (entry : Entry) (reads : Bool)
      → (reserve_existing codec l s entry reads).0 ≢ ok fresh
  unfolding reserve_existing reserve_loaded
  reserve_existing-not-fresh l s entry reads h = ground arith

  -- A fresh reservation found no record of that name, and leaves one.
  pub reserve-fresh :
      (l : MutationLedger) (s : MutationSubject) (disk : ReserveIo)
      → (reserve codec l s disk).0 ≡ ok fresh
      → (lookup (record_name s) l.root ≡ none)
        × ((reserve codec l s disk).1 ≡ (reserve_new codec l s disk).1)
  unfolding reserve
  reserve-fresh l s disk h = ground (arith, reserve_existing-not-fresh l s)

  put-taken : (name : Text) (e : Entry) (dir : Directory) → lookup name (put name e dir) ≡ some e
  put-taken name e dir = ground (arith, lookup-put name name e dir)

  new_record-IsTaken :
      (l : MutationLedger) (s : MutationSubject) (disk : ReserveIo)
      → IsTaken (record_name s) (reserve_new codec l s disk).1
  unfolding reserve_new
  new_record-IsTaken l s disk gone =
      let contents = (append_event codec [] (reserved schema_version s) disk.append).0 in
      ground (arith, put-taken (record_name s) (file contents) l.root)

  record_name-id :
      (s s' : MutationSubject) → s.mutation_id ≡ s'.mutation_id → record_name s ≡ record_name s'
  unfolding record_name
  record_name-id s s' same = rw same

  -- Once a Mutation is freshly reserved, no later reservation with its Mutation id is fresh, after
  -- any reservations, settlements and restarts, and whatever the file system did in them.
  pub reserved_once :
      (l l' : MutationLedger) (s s' : MutationSubject) (disk disk' : ReserveIo)
      → (reserve codec l s disk).0 ≡ ok fresh
      → Steps (reserve codec l s disk).1 l'
      → s'.mutation_id ≡ s.mutation_id
      → (reserve codec l' s' disk').0 ≢ ok fresh
  reserved_once l l' s s' disk disk' first steps same again =
      let at_first = reserve-fresh l s disk first in
      let taken : IsTaken (record_name s) (reserve codec l s disk).1 =
        rw (at_first.1) (new_record-IsTaken l s disk) in
      let later = Steps-IsTaken (record_name s) (reserve codec l s disk).1 l' steps taken in
      later (rw (sym (record_name-id s' s same)) (reserve-fresh l' s' disk' again).0)
