-- ===== src/Gitd/Ledger/Recovery/Scan.antt =====
-- When a ledger opens frozen.
use bullet_git.Prelude.{
  ℕ, ℕ_discrete, zero, suc, ◌≤◌, ◌<◌, ◌≡◌, ◌≢◌, ◌↔◌, ◌⊎◌, inl, inr, refl, sym, true, false, Option,
  none, some, List, [], ◌∷◌, Text, map, All, length, nat_eq, text_eq, if◌then◌else◌, Result, ok,
  err, arith, sort, insert_sorted, text_le, Bool-cases, Option-cases, Result-cases,
}
use bullet_git.Gitd.Ledger.Subject.{unknown, MutationResult, MutationLedgerError}
use bullet_git.Gitd.Ledger.Record.{EventCodec, LoadedRecord}
use bullet_git.Gitd.Ledger.Recovery.{
  MutationRecoveryStatus, clean_status, is_frozen, mark_corrupt, Directory, collect, record_name,
  in_flight, unknown_outcome, note_result, load_at, scan_one, scan_all, scan_recovery,
  max_ledger_records,
}
use bullet_git.Gitd.Ledger.Store.Frozen.{mark_corrupt-frozen, mark_indeterminate-frozen}

-- What a record must hold for a recovery to leave the ledger writable.
abbrev pub IsTerminal : Option MutationResult → Type 0
IsTerminal none = ⊥
IsTerminal (some r) = r.outcome ≢ unknown

abbrev pub IsSettledRecord : Text → Result MutationLedgerError LoadedRecord → Type 0
IsSettledRecord name (err _) = ⊥
IsSettledRecord name (ok loaded) = (name ≡ record_name loaded.subject) × IsTerminal loaded.result

-- The two sides of one round.
note_result-frozen :
    (loaded : LoadedRecord) (status : MutationRecoveryStatus)
    → is_frozen (note_result loaded status) ≡ false
    → (is_frozen status ≡ false) × IsTerminal loaded.result
unfolding note_result
note_result-frozen loaded status h = elim (Option-cases loaded.result) [
  | inl none_yet ↦ ground (arith, mark_indeterminate-frozen loaded.subject in_flight status)
  | inr (result, e) ↦
      ground (arith, mark_indeterminate-frozen result.subject unknown_outcome status)
]

note_result-clean :
    (loaded : LoadedRecord) (status : MutationRecoveryStatus)
    → IsTerminal loaded.result
    → note_result loaded status ≡ status
unfolding note_result
note_result-clean loaded status h = ground arith

module _ (codec : EventCodec) (dir : Directory) where
  scan_one-frozen :
      (name : Text) (status : MutationRecoveryStatus)
      → is_frozen (scan_one codec dir name status) ≡ false
      → (is_frozen status ≡ false) × IsSettledRecord name (load_at codec dir name)
  unfolding scan_one
  scan_one-frozen name status h = elim (Result-cases (load_at codec dir name)) [
    | inl (loaded, e) ↦ ground (arith, mark_corrupt-frozen status, note_result-frozen loaded status)
    | inr (refusal, e) ↦ ground (arith, mark_corrupt-frozen status)
  ]

  scan_one-clean :
      (name : Text) (status : MutationRecoveryStatus)
      → IsSettledRecord name (load_at codec dir name)
      → scan_one codec dir name status ≡ status
  unfolding scan_one
  scan_one-clean name status h = elim (Result-cases (load_at codec dir name)) [
    | inl (loaded, e) ↦ ground (arith, note_result-clean loaded status)
    | inr (refusal, e) ↦ ground arith
  ]

  scan_all-frozen :
      (names : List Text) (status : MutationRecoveryStatus)
      → is_frozen (scan_all codec dir names status) ≡ false
      → (is_frozen status ≡ false)
        × All (λ name. IsSettledRecord name (load_at codec dir name)) names
  unfolding scan_all
  scan_all-frozen [] status h = (h, tt)
  scan_all-frozen (name ∷ names) status h =
      let rest = scan_all-frozen names (scan_one codec dir name status) h in
      let one = scan_one-frozen name status rest.0 in (one.0, (one.1, rest.1))

  scan_all-clean :
      (names : List Text) (status : MutationRecoveryStatus)
      → All (λ name. IsSettledRecord name (load_at codec dir name)) names
      → scan_all codec dir names status ≡ status
  unfolding scan_all
  scan_all-clean [] status h = refl
  scan_all-clean (name ∷ names) status (one, rest) =
      rw (scan_one-clean name status one) (scan_all-clean names status rest)

-- Sorting keeps what holds of every name.
insert_sorted-All :
    (P : Text → Type 0) (x : Text) (xs : List Text) → All P (x ∷ xs) ↔ All P (insert_sorted x xs)
unfolding insert_sorted
insert_sorted-All P x [] = ((λ h. h), λ h. h)
insert_sorted-All P x (y ∷ ys) =
    let ih = insert_sorted-All P x ys in
    elim (Bool-cases (text_le x y)) [
      | inl e ↦ rw e ((λ h. h), λ h. h)
      | inr e ↦
          rw e (
            (λ h. (h.1.0, ih.0 (h.0, h.1.1))),
            λ h. let back = ih.1 (h.1) in (back.0, (h.0, back.1)),
          )
    ]

sort-All : (P : Text → Type 0) (xs : List Text) → All P xs ↔ All P (sort xs)
unfolding sort
sort-All P [] = ((λ h. h), λ h. h)
sort-All P (x ∷ xs) =
    let ih = sort-All P xs in
    let at_x = insert_sorted-All P x (sort xs) in
    ((λ h. at_x.0 (h.0, ih.0 (h.1))), λ h. let back = at_x.1 h in (back.0, ih.1 (back.1)))

collect-names :
    (room : ℕ) (dir : Directory)
    → length dir ≤ room
    → collect room dir ≡ (map (λ e. e.0) dir, false)
unfolding collect
collect-names room [] h = ground arith
collect-names zero (e ∷ dir) h = absurd (omega arith)
collect-names (suc room) (e ∷ dir) h = rw (collect-names room dir (omega arith))

collect-truncated : (room : ℕ) (dir : Directory) → room < length dir → (collect room dir).1 ≡ true
unfolding collect
collect-truncated room [] h = absurd (omega arith)
collect-truncated zero (e ∷ dir) h = refl
collect-truncated (suc room) (e ∷ dir) h = collect-truncated room dir (omega arith)

le_or_lt : (a b : ℕ) → (a ≤ b) ⊎ (b < a)
le_or_lt a b = ground arith

clean-writable : is_frozen clean_status ≡ false
unfolding is_frozen ℕ_discrete
clean-writable = refl

-- What `scan_recovery` answers, by whether the directory holds too many entries.
scan_recovery-within :
    (codec : EventCodec) (dir : Directory)
    → length dir ≤ max_ledger_records
    → scan_recovery codec dir ≡ scan_all codec dir (sort (map (λ e. e.0) dir)) clean_status
unfolding scan_recovery
scan_recovery-within codec dir h = rw (collect-names max_ledger_records dir h) refl

scan_recovery-beyond :
    (codec : EventCodec) (dir : Directory)
    → max_ledger_records < length dir
    → is_frozen (scan_recovery codec dir) ≢ false
unfolding scan_recovery
scan_recovery-beyond codec dir h writable =
    let truncated = collect-truncated max_ledger_records dir h in
    let start =
      scan_all-frozen codec dir (sort (collect max_ledger_records dir).0)
        (if (collect max_ledger_records dir).1 then mark_corrupt clean_status else clean_status)
        writable in
    ground (arith, mark_corrupt-frozen clean_status)

-- A ledger opens writable exactly when its directory holds at most 4,096 entries and every one of them
-- loads, stands under the name of its Mutation, and has a result whose outcome is known.
pub recovery_writable_iff :
    (codec : EventCodec) (dir : Directory)
    → (is_frozen (scan_recovery codec dir) ≡ false) ↔ (
        (length dir ≤ max_ledger_records)
        × All (λ name. IsSettledRecord name (load_at codec dir name)) (map (λ e. e.0) dir))
recovery_writable_iff codec dir =
    let P : Text → Type 0 = λ name. IsSettledRecord name (load_at codec dir name) in
    let names : List Text = map (λ e. e.0) dir in
    elim (le_or_lt (length dir) max_ledger_records) [
      | inl within ↦ (
        (λ h.
            let scanned : is_frozen (scan_all codec dir (sort names) clean_status) ≡ false =
              rw (sym (scan_recovery-within codec dir within)) h in
            (
              within,
              (sort-All P names).1 (scan_all-frozen codec dir (sort names) clean_status scanned).1,
            )),
        λ h.
            rw
              (
                scan_recovery-within codec dir within,
                scan_all-clean codec dir (sort names) clean_status ((sort-All P names).0 (h.1)),
              )
              clean-writable,
      )
      | inr beyond ↦ (
        (λ h. absurd (scan_recovery-beyond codec dir beyond h)),
        λ h. absurd (omega (arith, h.0)),
      )
    ]
