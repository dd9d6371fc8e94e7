-- ===== src/Journal/Storage/Loading.antt =====
-- What loading a directory guarantees, and what one more batch adds to it.
use bullet_git.Prelude.{
  ℕ, suc, ◌+◌, ◌≤◌, ◌<◌, ◌≡◌, refl, sym, ap, ◌∙◌, true, false, Option, none, some, List, [], ◌∷◌,
  ◌++◌, Bytes, length, nat_eq, option_text_eq, Result-cases, Option-cases, inl, inr, ok, arith,
  length-append, All, u64_max, checked_add,
}
use bullet_git.Types.Digest.{Hashing, Digest}
use bullet_git.Journal.{JournalOp}
use bullet_git.Journal.Names.{Range}
use bullet_git.Journal.Storage.{
  StoredBatch, BatchCodec, Body, Directory, LoadState, initial, content_shape_valid, bad_path,
  check_op, check_ops, ends_at, validate_batch, load_one, load_sorted, load_batches,
  collect_batches, insert_batch, sort_batches, range_le,
}

-- The operations are numbered without a gap from `n` on, each has a path without NUL, and the digests
-- that its kind has.
abbrev pub IsRecorded : ℕ → List JournalOp → Type 0
IsRecorded n [] = Unit
IsRecorded n (op ∷ ops) =
    (op.seq ≡ n)
    × (bad_path op.path ≡ false)
    × (content_shape_valid op.kind op.before op.after ≡ true)
    × IsRecorded (suc n) ops

pub check_ops-IsRecorded :
    (start offset : ℕ) (ops : List JournalOp)
    → check_ops start offset ops ≡ ok tt
    → IsRecorded (start + offset) ops
unfolding check_ops check_op checked_add
check_ops-IsRecorded start offset [] h = tt
check_ops-IsRecorded start offset (op ∷ ops) h =
    let rest : IsRecorded (start + suc offset) ops =
      check_ops-IsRecorded start (suc offset) ops (ground arith) in
    let same : start + suc offset ≡ suc (start + offset) = omega arith in
    (ground arith, ground arith, ground arith, rw same at rest)

pub IsRecorded-check_ops :
    (start offset : ℕ) (ops : List JournalOp)
    → start + offset + length ops ≤ suc u64_max
    → IsRecorded (start + offset) ops
    → check_ops start offset ops ≡ ok tt
unfolding check_ops check_op checked_add
IsRecorded-check_ops start offset [] h r = refl
IsRecorded-check_ops start offset (op ∷ ops) h r =
    let same : suc (start + offset) ≡ start + suc offset = omega arith in
    let rest : IsRecorded (start + suc offset) ops = rw same at r.3 in
    ground (arith, IsRecorded-check_ops start (suc offset) ops (omega arith) rest)

pub IsRecorded-append :
    (n : ℕ) (xs ys : List JournalOp)
    → IsRecorded n xs
    → IsRecorded (n + length xs) ys
    → IsRecorded n (xs ++ ys)
IsRecorded-append n [] ys h k = let same : n + 0 ≡ n = omega arith in rw same at k
IsRecorded-append n (x ∷ xs) ys h k =
    let same : n + suc (length xs) ≡ suc n + length xs = omega arith in
    (h.0, h.1, h.2, IsRecorded-append (suc n) xs ys h.3 (rw same at k))

-- The number of the last operation.
pub ends_at-IsRecorded :
    (n end_ : ℕ) (ops : List JournalOp)
    → IsRecorded n ops
    → ends_at end_ ops ≡ true
    → suc end_ ≡ n + length ops
unfolding ends_at
ends_at-IsRecorded n end_ [] r h = absurd (ground arith)
ends_at-IsRecorded n end_ (op ∷ []) r h = ground arith
ends_at-IsRecorded n end_ (op ∷ op' ∷ ops) r h =
    ends_at-IsRecorded (suc n) end_ (op' ∷ ops) r.3 h ∙ omega arith

ends_at-not_empty : (end_ : ℕ) (ops : List JournalOp) → ends_at end_ ops ≡ true → 1 ≤ length ops
unfolding ends_at
ends_at-not_empty end_ [] h = absurd (ground arith)
ends_at-not_empty end_ (op ∷ ops) h = omega arith

-- What holds between two rounds of the loop.
pub record IsLoaded (state : LoadState) : Type 0 where
  pub counted : state.expected ≡ suc (length state.ops)
  pub recorded : IsRecorded 1 state.ops

module _ (h : Hashing) where
  pub validate_batch-facts :
      (batch : StoredBatch) (range : Range) (expected : ℕ) (previous : Option Digest)
      → validate_batch h batch range expected previous ≡ ok tt
      → (batch.start_seq ≡ expected)
        × (range.0 ≡ expected)
        × (check_ops batch.start_seq 0 batch.ops ≡ ok tt)
        × (ends_at batch.end_seq batch.ops ≡ true)
  unfolding validate_batch
  validate_batch-facts batch range expected previous e =
      (ground arith, ground arith, ground arith, ground arith)

module _ (h : Hashing) (codec : BatchCodec) where
  -- One round reads a batch that was validated.
  pub load_one-facts :
      (state next : LoadState) (range : Range) (body : Option Bytes)
      → load_one h codec state (range, body) ≡ ok next
      → (batch : StoredBatch) × (validate_batch h batch range state.expected state.previous ≡ ok tt)
        × (next.ops ≡ state.ops ++ batch.ops)
        × (next.expected ≡ suc batch.end_seq)
  unfolding load_one checked_add
  load_one-facts state next range none e = absurd (ground arith)
  load_one-facts state next range (some bytes) e = elim (Option-cases (codec.decode bytes)) [
    | inl failed ↦ absurd (ground arith)
    | inr (batch, decoded) ↦
        elim (Result-cases (validate_batch h batch range state.expected state.previous)) [
          | inr (why, refused) ↦ absurd (ground arith)
          | inl (_, valid) ↦ (batch, valid, ground arith, ground arith)
        ]
  ]

  load_one-IsLoaded :
      (state next : LoadState) (b : Body)
      → IsLoaded state
      → load_one h codec state b ≡ ok next
      → IsLoaded next × (b.0.0 < next.expected) × (state.expected ≤ next.expected)
  load_one-IsLoaded state next (range, body) loaded e =
      let (batch, valid, ops, expected) = load_one-facts state next range body e in
      let (start, file, checked, ends) =
        validate_batch-facts h batch range state.expected state.previous valid in
      let recorded : IsRecorded (batch.start_seq + 0) batch.ops =
        check_ops-IsRecorded batch.start_seq 0 batch.ops checked in
      let from : batch.start_seq + 0 ≡ 1 + length state.ops = omega (arith, loaded.counted) in
      let placed : IsRecorded (1 + length state.ops) batch.ops = rw from at recorded in
      let last = ends_at-IsRecorded (1 + length state.ops) batch.end_seq batch.ops placed ends in
      let some_op = ends_at-not_empty batch.end_seq batch.ops ends in
      let total = ap length ops ∙ length-append state.ops batch.ops in
      (
        record {
          counted = omega arith;
          recorded = rw ops (IsRecorded-append 1 state.ops batch.ops loaded.recorded placed);
        },
        omega (arith, loaded.counted),
        omega (arith, loaded.counted),
      )

  pub load_sorted-IsLoaded :
      (state last : LoadState) (bs : List Body)
      → IsLoaded state
      → load_sorted h codec state bs ≡ ok last
      → IsLoaded last × All (λ b. b.0.0 < last.expected) bs × (state.expected ≤ last.expected)
  unfolding load_sorted
  load_sorted-IsLoaded state last [] loaded e =
      let same : state ≡ last = cc in
      (rw same at loaded, tt, omega (arith, ap (λ s. s.expected) same))
  load_sorted-IsLoaded state last (b ∷ bs) loaded e =
      elim (Result-cases (load_one h codec state b)) [
        | inr (why, refused) ↦ absurd (ground arith)
        | inl (next, one) ↦
            let (kept, below, grows) = load_one-IsLoaded state next b loaded one in
            let (end_, others, more) = load_sorted-IsLoaded next last bs kept (ground arith) in
            (end_, (omega arith, others), omega arith)
      ]

  load_sorted-append :
      (state : LoadState) (bs cs : List Body) (last : LoadState)
      → load_sorted h codec state bs ≡ ok last
      → load_sorted h codec state (bs ++ cs) ≡ load_sorted h codec last cs
  unfolding load_sorted
  load_sorted-append state [] cs last e = let same : state ≡ last = cc in rw same refl
  load_sorted-append state (b ∷ bs) cs last e = elim (Result-cases (load_one h codec state b)) [
    | inr (why, refused) ↦ absurd (ground arith)
    | inl (next, one) ↦ ground (arith, load_sorted-append next bs cs last)
  ]

initial-IsLoaded : IsLoaded initial
initial-IsLoaded = record { counted = refl; recorded = tt }

range_le-after : (a b : Range) → b.0 < a.0 → range_le a b ≡ false
unfolding range_le
range_le-after (a, x) (b, y) h = ground arith

-- A batch that starts behind all others is sorted behind them.
insert_batch-last :
    (b : Body) (bs : List Body) → All (λ c. c.0.0 < b.0.0) bs → insert_batch b bs ≡ bs ++ b ∷ []
unfolding insert_batch
insert_batch-last b [] h = refl
insert_batch-last b (c ∷ cs) (below, h) =
    ground (arith, range_le-after b.0 c.0 below, insert_batch-last b cs h)

module _ (h : Hashing) (codec : BatchCodec) where
  load_batches-facts :
      (d : Directory) (ops : List JournalOp) (head : Option Digest)
      → load_batches h codec d ≡ ok (ops, head)
      → (bs : List Body) × (state : LoadState) × (collect_batches d ≡ ok bs)
        × (load_sorted h codec initial (sort_batches bs) ≡ ok state)
        × (state.ops ≡ ops)
        × (state.previous ≡ head)
  unfolding load_batches
  load_batches-facts d ops head e = elim (Result-cases (collect_batches d)) [
    | inr (why, refused) ↦ absurd (ground arith)
    | inl (bs, collected) ↦ elim (Result-cases (load_sorted h codec initial (sort_batches bs))) [
      | inr (why, refused) ↦ absurd (ground arith)
      | inl (state, loaded) ↦ (bs, state, collected, loaded, ground arith, ground arith)
    ]
  ]

  -- What loads is numbered from 1 without a gap, and every operation has a path that is not empty and
  -- holds no NUL, and the digests that its kind has.
  pub load_batches-IsRecorded :
      (d : Directory) (ops : List JournalOp) (head : Option Digest)
      → load_batches h codec d ≡ ok (ops, head)
      → IsRecorded 1 ops
  load_batches-IsRecorded d ops head e =
      let (bs, state, collected, loaded, same, _) = load_batches-facts d ops head e in
      let invariant =
        load_sorted-IsLoaded h codec initial state (sort_batches bs) initial-IsLoaded loaded in
      rw same at invariant.0.recorded

  load_batches-of :
      (d : Directory) (bs : List Body) (state : LoadState)
      → collect_batches d ≡ ok bs
      → load_sorted h codec initial (sort_batches bs) ≡ ok state
      → load_batches h codec d ≡ ok (state.ops, state.previous)
  unfolding load_batches
  load_batches-of d bs state e f = rw (e, f) refl

  load_sorted-one :
      (state next : LoadState) (b : Body)
      → load_one h codec state b ≡ ok next
      → load_sorted h codec state (b ∷ []) ≡ ok next
  unfolding load_sorted
  load_sorted-one state next b e = rw e refl

  -- A directory with one more batch loads to what it loaded to, and that batch.
  pub load_batches-snoc :
      (d d' : Directory) (ops : List JournalOp) (head : Option Digest) (range : Range)
      (body : Option Bytes) (next : LoadState)
      → load_batches h codec d ≡ ok (ops, head)
      → ((bs : List Body)
          → collect_batches d ≡ ok bs
          → collect_batches d' ≡ ok ((range, body) ∷ bs))
      → range.0 ≡ suc (length ops)
      → ((state : LoadState)
          → state.ops ≡ ops
          → state.previous ≡ head
          → state.expected ≡ suc (length ops)
          → load_one h codec state (range, body) ≡ ok next)
      → load_batches h codec d' ≡ ok (next.ops, next.previous)
  unfolding sort_batches
  load_batches-snoc d d' ops head range body next e more start one =
      let (bs, state, collected, loaded, same, prev) = load_batches-facts d ops head e in
      let (invariant, below, _) =
        load_sorted-IsLoaded h codec initial state (sort_batches bs) initial-IsLoaded loaded in
      let count = invariant.counted ∙ ap (λ o. suc (length o)) same in
      let behind : All (λ b. b.0.0 < range.0) (sort_batches bs) = rw (count ∙ sym start) at below in
      let sorted = insert_batch-last (range, body) (sort_batches bs) behind in
      let all_of =
        load_sorted-append h codec initial (sort_batches bs) ((range, body) ∷ []) state loaded in
      let last = one state same prev count in
      load_batches-of d' ((range, body) ∷ bs) next (more bs collected) (
        ap (load_sorted h codec initial) sorted
        ∙ all_of
        ∙ load_sorted-one state next (range, body) last)
