-- ===== src/Gitd/Ledger/Store/Frozen.antt =====
-- A frozen ledger writes nothing, and stays frozen.
use bullet_git.Prelude.{
  ℕ, ◌≡◌, refl, true, false, List, [], ◌∷◌, ◌++◌, Text, is_empty, nat_eq, ok, err, arith,
}
use bullet_git.Gitd.Ledger.Subject.{MutationSubject, MutationOutcome, outcome_unknown}
use bullet_git.Gitd.Ledger.Record.{EventCodec}
use bullet_git.Gitd.Ledger.Recovery.{
  MutationRecoveryStatus, IndeterminateMutationState, is_frozen, require_writable,
  mark_indeterminate, mark_corrupt,
}
use bullet_git.Gitd.Ledger.Store.{MutationLedger, ReserveIo, SettleIo, reserve, settle}

abbrev pub IsFrozen : MutationLedger → Type 0
IsFrozen l = is_frozen l.recovery ≡ true

pub mark_corrupt-frozen : (s : MutationRecoveryStatus) → is_frozen (mark_corrupt s) ≡ true
unfolding is_frozen mark_corrupt
mark_corrupt-frozen s = ground arith

append-not-empty : {A : Type 0} (xs : List A) (x : A) → is_empty (xs ++ x ∷ []) ≡ false
append-not-empty [] x = refl
append-not-empty (y ∷ xs) x = refl

pub mark_indeterminate-frozen :
    (subject : MutationSubject) (state : IndeterminateMutationState) (s : MutationRecoveryStatus)
    → is_frozen (mark_indeterminate subject state s) ≡ true
unfolding is_frozen mark_indeterminate
mark_indeterminate-frozen subject state s =
    ground (arith, append-not-empty s.indeterminate (record { subject = subject; state = state }))

pub require_writable-frozen :
    (s : MutationRecoveryStatus) → is_frozen s ≡ true → require_writable s ≡ err outcome_unknown
unfolding require_writable
require_writable-frozen s frozen = ground arith

pub require_writable-ok :
    (s : MutationRecoveryStatus) → is_frozen s ≡ false → require_writable s ≡ ok tt
unfolding require_writable
require_writable-ok s writable = ground arith

reserve-frozen :
    (codec : EventCodec) (l : MutationLedger) (s : MutationSubject) (disk : ReserveIo)
    → IsFrozen l
    → reserve codec l s disk ≡ (err outcome_unknown, l)
unfolding reserve
reserve-frozen codec l s disk frozen = ground (arith, require_writable-frozen l.recovery frozen)

settle-frozen :
    (codec : EventCodec) (l : MutationLedger) (s : MutationSubject) (outcome : MutationOutcome)
    (digest : Text) (completed_at : ℕ) (disk : SettleIo)
    → IsFrozen l
    → settle codec l s outcome digest completed_at disk ≡ (err outcome_unknown, l)
unfolding settle
settle-frozen codec l s outcome digest completed_at disk frozen =
    ground (arith, require_writable-frozen l.recovery frozen)

-- A frozen ledger refuses every reservation and every settlement with an unknown outcome, whatever
-- the file system does, and neither its files nor its state change.
pub frozen_refuses :
    (codec : EventCodec) (l : MutationLedger)
    → IsFrozen l
    → ((s : MutationSubject) (disk : ReserveIo) → reserve codec l s disk ≡ (err outcome_unknown, l))
      × ((s : MutationSubject) (outcome : MutationOutcome) (digest : Text) (completed_at : ℕ)
            (disk : SettleIo)
          → settle codec l s outcome digest completed_at disk ≡ (err outcome_unknown, l))
frozen_refuses codec l frozen = (
  (λ s disk. reserve-frozen codec l s disk frozen),
  (λ s outcome digest completed_at disk.
      settle-frozen codec l s outcome digest completed_at disk frozen),
)
