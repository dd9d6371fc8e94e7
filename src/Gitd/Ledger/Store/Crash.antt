-- ===== src/Gitd/Ledger/Store/Crash.antt =====
-- A reservation that was not settled freezes the ledger of the next process.
use bullet_git.Prelude.{
  ◌≡◌, ◌⊎◌, inl, inr, refl, ap, ◌∙◌, true, false, none, some, [], ◌∷◌, ◌++◌, Text, take, map, All,
  text_discrete, nat_eq, text_eq, Result, ok, err, arith, ==_refl, Bool-cases, Option-cases,
}
use mathlib.Core.Path.{subst}
use bullet_git.Gitd.Ledger.Subject.{
  MutationSubject, MutationLedgerError, io, validate, schema_version,
}
use bullet_git.Gitd.Ledger.Record.{
  EventCodec, EventCodecLaws, Entry, file, reserved, LedgerEvent, LoadedRecord, load_record,
}
use bullet_git.Gitd.Ledger.Record.Torn.{
  is_one_line, one_line-no_result, line-is_one_line, take-is_one_line,
}
use bullet_git.Gitd.Ledger.Recovery.{
  Directory, lookup, record_name, is_frozen, load_at, scan_recovery,
}
use bullet_git.Gitd.Ledger.Recovery.Scan.{recovery_writable_iff, IsSettledRecord}
use bullet_git.Gitd.Ledger.Store.{
  MutationLedger, ReserveIo, AppendIo, done, failed_after, RootIo, append_event, open_ledger,
  reserve, reserve_new,
}
use bullet_git.Gitd.Ledger.Store.Frozen.{IsFrozen, require_writable-ok}
use bullet_git.Gitd.Ledger.Store.Once.{lookup-put}

-- What holds of all names of a directory holds of a name that it has.
All-lookup :
    (P : Text → Type 0) (name : Text) (dir : Directory) (e : Entry)
    → All P (map (λ x. x.0) dir)
    → lookup name dir ≡ some e
    → P name
unfolding lookup
All-lookup P name [] e h found = cc
All-lookup P name ((n, x) ∷ dir) e h found = elim (text_discrete n name) [
  | yes same ↦ subst P same (h.0)
  | no differs ↦ All-lookup P name dir e (h.1) (ground arith)
]

module _ (codec : EventCodec) (laws : EventCodecLaws codec) where
  -- The bytes that an append to an empty file leaves, whatever happens in it.
  append_event-is_one_line :
      (event : LedgerEvent) (disk : AppendIo)
      → is_one_line (append_event codec [] event disk).0 ≡ true
  unfolding append_event is_one_line
  append_event-is_one_line event done = elim (Option-cases (codec.encode event)) [
    | inl refused ↦ ground arith
    | inr (b, enc) ↦
        let whole = line-is_one_line b (laws.one_line event b enc) in
        let after : (append_event codec [] event done).0 ≡ b ++ 10 ∷ [] = ground arith in
        ap is_one_line after ∙ whole
  ]
  append_event-is_one_line event (failed_after n) = elim (Option-cases (codec.encode event)) [
    | inl refused ↦ ground arith
    | inr (b, enc) ↦
        let whole = line-is_one_line b (laws.one_line event b enc) in
        let after : (append_event codec [] event (failed_after n)).0 ≡ take n (b ++ 10 ∷ []) =
          ground arith in
        ap is_one_line after ∙ take-is_one_line n (b ++ 10 ∷ []) whole
  ]

  no_result-not-settled :
      (name : Text) (answer : Result MutationLedgerError LoadedRecord)
      → ((loaded : LoadedRecord) → answer ≡ ok loaded → loaded.result ≡ none)
      → ¬ IsSettledRecord name answer
  no_result-not-settled name (err e) h settled = settled
  no_result-not-settled name (ok loaded) h settled = ground (arith, h loaded refl)

  reserve-leaves :
      (l : MutationLedger) (s : MutationSubject) (disk : ReserveIo)
      → is_frozen l.recovery ≡ false
      → validate s ≡ ok tt
      → lookup (record_name s) l.root ≡ none
      → disk.opens ≡ true
      → lookup (record_name s) (reserve codec l s disk).1.root
        ≡ some (file (append_event codec [] (reserved schema_version s) disk.append).0)
  unfolding reserve reserve_new
  reserve-leaves l s disk writable valid absent opens =
      let contents = (append_event codec [] (reserved schema_version s) disk.append).0 in
      ground (
        arith,
        require_writable-ok l.recovery writable,
        lookup-put (record_name s) (record_name s) (file contents) l.root,
        ==_refl (record_name s),
      )

  load_at-found :
      (name : Text) (e : Entry) (dir : Directory)
      → lookup name dir ≡ some e
      → load_at codec dir name ≡ load_record codec e
  unfolding load_at
  load_at-found name e dir found = ground arith

  opened-recovery :
      (root : Directory) (l' : MutationLedger)
      → open_ledger codec RootIo.listed root ≡ ok l'
      → l'.recovery ≡ scan_recovery codec root
  unfolding open_ledger
  opened-recovery root l' opened = ground arith

  -- A reservation whose record file cannot be created.
  reserve-unopened :
      (l : MutationLedger) (s : MutationSubject) (disk : ReserveIo)
      → is_frozen l.recovery ≡ false
      → validate s ≡ ok tt
      → disk.opens ≡ false
      → reserve codec l s disk ≡ (err io, l)
  unfolding reserve
  reserve-unopened l s disk writable valid unopened =
      ground (arith, require_writable-ok l.recovery writable)

  reserved-freezes :
      (l l' : MutationLedger) (s : MutationSubject) (disk : ReserveIo)
      → is_frozen l.recovery ≡ false
      → validate s ≡ ok tt
      → lookup (record_name s) l.root ≡ none
      → disk.opens ≡ true
      → open_ledger codec RootIo.listed (reserve codec l s disk).1.root ≡ ok l'
      → IsFrozen l'
  reserved-freezes l l' s disk writable valid absent opens opened =
      let root = (reserve codec l s disk).1.root in
      let contents = (append_event codec [] (reserved schema_version s) disk.append).0 in
      let name = record_name s in
      let there = reserve-leaves l s disk writable valid absent opens in
      let unsettled : ¬ IsSettledRecord name (load_at codec root name) =
        rw (load_at-found name (file contents) root there) (
          no_result-not-settled name (load_record codec (file contents)) (λ loaded e.
            one_line-no_result codec contents loaded
              (append_event-is_one_line (reserved schema_version s) disk.append) e)) in
      elim (Bool-cases (is_frozen (scan_recovery codec root))) [
        | inl frozen ↦ rw (opened-recovery root l' opened) frozen
        | inr clean ↦ absurd (
            unsettled (
              All-lookup (λ n. IsSettledRecord n (load_at codec root n)) name root (file contents)
                ((recovery_writable_iff codec root).0 clean).1 there))
      ]

  -- A valid reservation of a Mutation without a record, on a writable ledger, either cannot create the
  -- record file, and then answers with an IO error and changes nothing; or it leaves, whatever becomes
  -- of its writes and of the sync of the directory, files on which the next process opens a frozen
  -- ledger.
  pub unsettled_freezes :
      (l l' : MutationLedger) (s : MutationSubject) (disk : ReserveIo)
      → is_frozen l.recovery ≡ false
      → validate s ≡ ok tt
      → lookup (record_name s) l.root ≡ none
      → open_ledger codec RootIo.listed (reserve codec l s disk).1.root ≡ ok l'
      → ((disk.opens ≡ false) × (reserve codec l s disk ≡ (err io, l)))
        ⊎ ((disk.opens ≡ true) × IsFrozen l')
  unsettled_freezes l l' s disk writable valid absent opened = elim (Bool-cases disk.opens) [
    | inl opens ↦ inr (opens, reserved-freezes l l' s disk writable valid absent opens opened)
    | inr unopened ↦ inl (unopened, reserve-unopened l s disk writable valid unopened)
  ]
