-- ===== src/Gitd/Daemon/Rules.antt =====
-- Rules for the actions of a daemon: what a failure leaves, and what a frozen daemon leaves.
use bullet_git.Prelude.{
  ◌≡◌, ◌⊎◌, inl, inr, refl, sym, ap, ◌∙◌, Bool, true, false, Bytes, text_eq, Result, ok, err,
  Result-cases, Option-cases, arith, codes, if◌then◌else◌,
}
use bullet_git.Prelude.Exec.{Exec, lift, ◌>>=◌, continue}
use bullet_git.Types.Authority.{WireAuthorityToken}
use bullet_git.Gitd.Ledger.Subject.{MutationOperation}
use bullet_git.Gitd.Gateway.Types.{PendingMutation, MutationPermit, ReceiptSubject, Outside}
use bullet_git.Gitd.Gateway.Operations.{Gated}
use bullet_git.Gitd.Daemon.Types.{MethodError, Request, Daemon}
use bullet_git.Gitd.Daemon.{
  Parts, Turn, gated, require_unfrozen, authorize_mutation, consume_permit,
  authorize_cleanup_by_receipt, consume_receipt_permit, settle_digest, answer_settled,
  settle_encoded, finish_mutation, run_and_finish, Work, mutate, outcome_of, result_digest, ask,
  unknown_outcome,
}

module _ {Repo Keeper : Type 0} where
  -- An action that leaves the session.
  abbrev pub Quiet : {A : Type 0} → Exec MethodError (Daemon Repo Keeper) A → Type 0
  Quiet m = (d : Daemon Repo Keeper) → (m d).1.session ≡ d.session

  -- An action that, when it fails, leaves the session or a frozen daemon.
  abbrev pub Latched : {A : Type 0} → Exec MethodError (Daemon Repo Keeper) A → Type 0
  Latched m =
      (d : Daemon Repo Keeper) (e : MethodError)
      → (m d).0 ≡ err e
      → ((m d).1.session ≡ d.session) ⊎ ((m d).1.mutation_frozen ≡ true)

  pub Latched-bind :
      {A B : Type 0} (m : Exec MethodError (Daemon Repo Keeper) A)
      (f : A → Exec MethodError (Daemon Repo Keeper) B)
      → Quiet m
      → ((a : A) → Latched (f a))
      → Latched (m >>= f)
  Latched-bind m f quiet latched d e failed = elim (Result-cases (m d).0) [
    | inr (why, refused) ↦ inl (ap (λ r. (continue r f (m d).1).1.session) refused ∙ quiet d)
    | inl (a, good) ↦
        let same = ap (λ r. continue r f (m d).1) good in
        elim (latched a (m d).1 e (ap (λ r. r.0) (sym same) ∙ failed)) [
          | inl kept ↦ inl (ap (λ r. r.1.session) same ∙ kept ∙ quiet d)
          | inr frozen ↦ inr (ap (λ r. r.1.mutation_frozen) same ∙ frozen)
        ]
  ]

  Quiet-bind :
      {A B : Type 0} (m : Exec MethodError (Daemon Repo Keeper) A)
      (f : A → Exec MethodError (Daemon Repo Keeper) B)
      → Quiet m
      → ((a : A) → Quiet (f a))
      → Quiet (m >>= f)
  Quiet-bind m f quiet quiets d = elim (Result-cases (m d).0) [
    | inr (why, refused) ↦ ap (λ r. (continue r f (m d).1).1.session) refused ∙ quiet d
    | inl (a, good) ↦ ap (λ r. (continue r f (m d).1).1.session) good ∙ quiets a (m d).1 ∙ quiet d
  ]

module _ {Repo Keeper : Type 0} where
  -- A frozen daemon stays frozen and keeps its session and its ledger.
  abbrev pub Still : {A : Type 0} → Exec MethodError (Daemon Repo Keeper) A → Type 0
  Still m =
      (d : Daemon Repo Keeper)
      → d.mutation_frozen ≡ true
      → ((m d).1.session ≡ d.session)
        × ((m d).1.mutation_frozen ≡ true)
        × ((m d).1.authority.ledger ≡ d.authority.ledger)

  -- A frozen daemon refuses and is left as it was.
  abbrev Blocks : {A : Type 0} → Exec MethodError (Daemon Repo Keeper) A → Type 0
  Blocks m =
      (d : Daemon Repo Keeper) → d.mutation_frozen ≡ true → (e : MethodError) × (m d ≡ (err e, d))

  pub record Sound {A : Type 0} (m : Exec MethodError (Daemon Repo Keeper) A) : Type 0 where
    pub latched : Latched m
    pub still : Still m

  Still-bind :
      {A B : Type 0} (m : Exec MethodError (Daemon Repo Keeper) A)
      (f : A → Exec MethodError (Daemon Repo Keeper) B)
      → Still m
      → ((a : A) → Still (f a))
      → Still (m >>= f)
  Still-bind m f here later d frozen = elim (Result-cases (m d).0) [
    | inr (why, refused) ↦
        let end_ = ap (λ r. (continue r f (m d).1).1) refused in
        let (session, kept, ledger) = here d frozen in
        (
          ap (λ x. x.session) end_ ∙ session,
          ap (λ x. x.mutation_frozen) end_ ∙ kept,
          ap (λ x. x.authority.ledger) end_ ∙ ledger,
        )
    | inl (a, good) ↦
        let end_ = ap (λ r. (continue r f (m d).1).1) good in
        let (session, kept, ledger) = here d frozen in
        let (session', kept', ledger') = later a (m d).1 kept in
        (
          ap (λ x. x.session) end_ ∙ session' ∙ session,
          ap (λ x. x.mutation_frozen) end_ ∙ kept',
          ap (λ x. x.authority.ledger) end_ ∙ ledger' ∙ ledger,
        )
  ]

  pub sound-bind :
      {A B : Type 0} (m : Exec MethodError (Daemon Repo Keeper) A)
      (f : A → Exec MethodError (Daemon Repo Keeper) B)
      → Quiet m
      → Still m
      → ((a : A) → Sound (f a))
      → Sound (m >>= f)
  sound-bind m f quiet still sound = record {
    latched = Latched-bind m f quiet (λ a. (sound a).latched);
    still = Still-bind m f still (λ a. (sound a).still);
  }

  -- Behind a step that only computes.
  pub after :
      {A B : Type 0} (r : Result MethodError A) (f : A → Exec MethodError (Daemon Repo Keeper) B)
      → ((a : A) → Sound (f a))
      → Sound (lift r >>= f)
  after r f sound = sound-bind (lift r) f (λ d. refl) (λ d frozen. (refl, frozen, refl)) sound

  -- Behind a step that a frozen daemon refuses.
  pub blocked-bind :
      {A B : Type 0} (m : Exec MethodError (Daemon Repo Keeper) A)
      (f : A → Exec MethodError (Daemon Repo Keeper) B)
      → Quiet m
      → Blocks m
      → ((a : A) → Latched (f a))
      → Sound (m >>= f)
  blocked-bind m f quiet blocks latched = record {
    latched = Latched-bind m f quiet latched;
    still = λ d frozen.
        let (e, refused) = blocks d frozen in
        let end_ = ap (λ r. (continue r.0 f r.1).1) refused in
        (
          ap (λ x. x.session) end_,
          ap (λ x. x.mutation_frozen) end_ ∙ frozen,
          ap (λ x. x.authority.ledger) end_,
        );
  }

  -- Behind a question to the state.
  pub asked :
      {A B : Type 0} (question : Daemon Repo Keeper → Result MethodError A)
      (f : A → Exec MethodError (Daemon Repo Keeper) B)
      → ((a : A) → Sound (f a))
      → Sound ((λ d. (question d, d)) >>= f)
  asked question f sound =
      sound-bind (λ d. (question d, d)) f (λ d. refl) (λ d frozen. (refl, frozen, refl)) sound

  -- A step that leaves the daemon.
  pub idle : {A : Type 0} (r : Result MethodError A) → Sound (lift {S = Daemon Repo Keeper} r)
  idle r = record { latched = λ d e failed. inl refl; still = λ d frozen. (refl, frozen, refl) }

  pub branch-sound :
      {A : Type 0} (test : Bool) (m n : Exec MethodError (Daemon Repo Keeper) A)
      → Sound m
      → Sound n
      → Sound (if test then m else n)
  branch-sound true m n hm hn = hm
  branch-sound false m n hm hn = hn

module _ {Value : Type 0} (Repo Keeper : Type 0) (parts : Parts Value) where
  gated-Quiet : {A : Type 0} (call : Gated A) → Quiet (gated Value Repo Keeper parts call)
  unfolding gated
  gated-Quiet call d = refl

  authorize-Quiet :
      (o : Outside Value) (req : Request Value) (operation : MutationOperation)
      (token : WireAuthorityToken)
      → Quiet (authorize_mutation Value Repo Keeper parts o req operation token)
  unfolding authorize_mutation
  authorize-Quiet o req operation token d =
      Quiet-bind (ask Value Repo Keeper parts (require_unfrozen Value Repo Keeper parts)) _
        (λ s. refl) (λ _. gated-Quiet _) d

  consume-Quiet :
      (o : Outside Value) (req : Request Value) (operation : MutationOperation)
      (permit : MutationPermit)
      → Quiet (consume_permit Value Repo Keeper parts o req operation permit)
  unfolding consume_permit
  consume-Quiet o req operation permit = gated-Quiet _

  pub receipt-Quiet :
      (o : Outside Value) (req : Request Value) (receipt : ReceiptSubject)
      → Quiet (authorize_cleanup_by_receipt Value Repo Keeper parts o req receipt)
  unfolding authorize_cleanup_by_receipt
  receipt-Quiet o req receipt d =
      Quiet-bind (ask Value Repo Keeper parts (require_unfrozen Value Repo Keeper parts)) _
        (λ s. refl) (λ _. gated-Quiet _) d

  pub consume_receipt-Quiet :
      (o : Outside Value) (req : Request Value) (permit : MutationPermit)
      → Quiet (consume_receipt_permit Value Repo Keeper parts o req permit)
  unfolding consume_receipt_permit
  consume_receipt-Quiet o req permit = gated-Quiet _

  answer-freezes :
      (result : Result MethodError Value) (d : Daemon Repo Keeper) (e : MethodError)
      → (answer_settled Value Repo Keeper parts result d).0 ≡ err e
      → (answer_settled Value Repo Keeper parts result d).1.mutation_frozen ≡ true
  unfolding answer_settled
  answer-freezes (ok value) d e failed = cc
  answer-freezes (err (code, message)) d e failed = refl

  settle-freezes :
      (o : Outside Value) (operation : MutationOperation) (pending : PendingMutation)
      (result : Result MethodError Value) (local : Bool) (encoded : Bytes) (d : Daemon Repo Keeper)
      (e : MethodError)
      → (settle_encoded Value Repo Keeper parts o operation pending result local encoded d).0
        ≡ err e
      → (settle_encoded Value Repo Keeper parts o operation pending result local encoded
          d).1.mutation_frozen
        ≡ true
  unfolding settle_encoded
  settle-freezes o operation pending result local encoded d e failed =
      let outcome = (outcome_of Value parts result).0 in
      let settled =
        settle_digest Value Repo Keeper parts o pending outcome
          (result_digest Value parts operation outcome encoded) local d.authority in
      elim (Result-cases settled.0) [
        | inr (why, refused) ↦ ground arith
        | inl (_, taken) ↦
            ground (arith, answer-freezes result (record d { authority = settled.1 }) e)
      ]

  finish-freezes :
      (o : Outside Value) (operation : MutationOperation) (pending : PendingMutation)
      (result : Result MethodError Value) (local : Bool) (d : Daemon Repo Keeper) (e : MethodError)
      → (finish_mutation Value Repo Keeper parts o operation pending result local d).0 ≡ err e
      → (finish_mutation Value Repo Keeper parts o operation pending result local
          d).1.mutation_frozen
        ≡ true
  unfolding finish_mutation
  finish-freezes o operation pending result local d e failed =
      elim (Option-cases (parts.json.to_vec (outcome_of Value parts result).1)) [
        | inl nothing ↦ ground arith
        | inr (encoded, enc) ↦
            ground (arith, settle-freezes o operation pending result local encoded d e)
      ]

  pub run-Latched :
      (o : Outside Value) (operation : MutationOperation) (pending : PendingMutation) (local : Bool)
      (work : Work Value Repo Keeper parts)
      → Latched (run_and_finish Value Repo Keeper parts o operation pending local work)
  unfolding run_and_finish
  run-Latched o operation pending local work d e failed = inr (
      finish-freezes o operation pending (work d.session).0 local
        (record d { session = (work d.session).1 }) e failed)

  authorize-Blocks :
      (o : Outside Value) (req : Request Value) (operation : MutationOperation)
      (token : WireAuthorityToken)
      → Blocks (authorize_mutation Value Repo Keeper parts o req operation token)
  unfolding authorize_mutation require_unfrozen
  authorize-Blocks o req operation token d frozen = (
    unknown_outcome (codes "daemon mutation is frozen after an indeterminate repository outcome"),
    ground arith,
  )

  pub receipt-Blocks :
      (o : Outside Value) (req : Request Value) (receipt : ReceiptSubject)
      → Blocks (authorize_cleanup_by_receipt Value Repo Keeper parts o req receipt)
  unfolding authorize_cleanup_by_receipt require_unfrozen
  receipt-Blocks o req receipt d frozen = (
    unknown_outcome (codes "daemon mutation is frozen after an indeterminate repository outcome"),
    ground arith,
  )

  pub mutate-sound :
      (t : Turn Value) (req : Request Value) (operation : MutationOperation)
      (token : WireAuthorityToken) (work : Work Value Repo Keeper parts)
      → Sound (mutate Value Repo Keeper parts t req operation token work)
  unfolding mutate
  mutate-sound t req operation token work =
      blocked-bind (authorize_mutation Value Repo Keeper parts t.authorizing req operation token) _
        (authorize-Quiet t.authorizing req operation token)
        (authorize-Blocks t.authorizing req operation token)
        (λ permit.
          Latched-bind (consume_permit Value Repo Keeper parts t.consuming req operation permit) _
            (consume-Quiet t.consuming req operation permit)
            (λ pending. run-Latched t.settling operation pending false work))
