-- ===== src/Journal/Preimage.antt =====
-- A journal's preimage determines its operations, and the identity of a checkpoint is what its fields
-- give.
use bullet_git.Prelude.{
  ◌≤◌, ◌≡◌, ◌≢◌, refl, sym, ◌∙◌, true, Option, none, some, List, [], ◌∷◌, ◌++◌, Bytes, Text, codes,
  All, text_eq, u64_max, arith,
}
use mathlib.Core.List.{append_assoc}
use bullet_git.Types.Digest.{Hashing, Digest, frame, frame_all, to_le_bytes}
use bullet_git.Types.Digest.Framing.{
  frame_all-injective, FitsU64, to_le_bytes-injective, length-to_le_bytes,
}
use bullet_git.Journal.{
  JournalOpKind, write, delete, frame_tag, JournalOp, Journal, optional_fields, op_fields,
  frame_ops, tree_preimage, checkpoint, identity_is_valid, bind_git_tree,
}

-- The operations that a journal on a 64-bit machine can hold.
pub record FitsOp (op : JournalOp) : Type 0 where
  pub seq : op.seq ≤ u64_max
  pub path : FitsU64 op.path
  pub before : All FitsU64 (optional_fields op.before)
  pub after : All FitsU64 (optional_fields op.after)

all_fields : Journal → List Bytes
all_fields [] = []
all_fields (op ∷ ops) = op_fields op ++ all_fields ops

frame_all-append :
    (buf : Bytes) (fs gs : List Bytes) → frame_all buf (fs ++ gs) ≡ frame_all (frame_all buf fs) gs
unfolding frame_all
frame_all-append buf [] gs = refl
frame_all-append buf (f ∷ fs) gs = frame_all-append (frame buf f) fs gs

frame_ops-fields :
    (buf : Bytes) (ops : Journal) → frame_ops buf ops ≡ frame_all buf (all_fields ops)
unfolding frame_ops all_fields frame_all
frame_ops-fields buf [] = refl
frame_ops-fields buf (op ∷ ops) =
    frame_ops-fields (frame_all buf (op_fields op)) ops
    ∙ sym (frame_all-append buf (op_fields op) (all_fields ops))

All-append : (P : Bytes → Type 0) (xs ys : List Bytes) → All P xs → All P ys → All P (xs ++ ys)
All-append P [] ys h k = k
All-append P (x ∷ xs) ys (p, h) k = (p, All-append P xs ys h k)

optional-injective :
    (a b : Option Digest) (xs ys : List Bytes)
    → optional_fields a ++ xs ≡ optional_fields b ++ ys
    → (a ≡ b) × (xs ≡ ys)
unfolding optional_fields
optional-injective none none xs ys e = (refl, cc)
optional-injective none (some d) xs ys e = cc
optional-injective (some d) none xs ys e = cc
optional-injective (some d) (some d') xs ys e = (cc, cc)

frame_tag-injective : (k k' : JournalOpKind) → frame_tag k ≡ frame_tag k' → k ≡ k'
unfolding frame_tag
frame_tag-injective write write e = refl
frame_tag-injective write delete e = absurd (ground arith)
frame_tag-injective delete write e = absurd (ground arith)
frame_tag-injective delete delete e = refl

op_fields-injective :
    (a b : JournalOp) (xs ys : List Bytes)
    → a.seq ≤ u64_max
    → b.seq ≤ u64_max
    → op_fields a ++ xs ≡ op_fields b ++ ys
    → (a ≡ b) × (xs ≡ ys)
unfolding op_fields
op_fields-injective a b xs ys fa fb e =
    let tails : (optional_fields a.before ++ optional_fields a.after) ++ xs
        ≡ (optional_fields b.before ++ optional_fields b.after) ++ ys =
      cc in
    let shifted : optional_fields a.before ++ (optional_fields a.after ++ xs)
        ≡ optional_fields b.before ++ (optional_fields b.after ++ ys) =
      sym (append_assoc (optional_fields a.before) (optional_fields a.after) xs)
      ∙ tails
      ∙ append_assoc (optional_fields b.before) (optional_fields b.after) ys in
    let first =
      optional-injective a.before b.before (optional_fields a.after ++ xs)
        (optional_fields b.after ++ ys) shifted in
    let second = optional-injective a.after b.after xs ys (first.1) in
    let sequence : to_le_bytes a.seq ≡ to_le_bytes b.seq = cc in
    let tags : frame_tag a.kind ≡ frame_tag b.kind = cc in
    let seqs : a.seq ≡ b.seq = to_le_bytes-injective a.seq b.seq fa fb sequence in
    let kinds : a.kind ≡ b.kind = frame_tag-injective a.kind b.kind tags in
    let paths : a.path ≡ b.path = cc in (cc (seqs, kinds, paths, first.0, second.0), second.1)

op_fields-not_empty : (a : JournalOp) (xs : List Bytes) → op_fields a ++ xs ≢ []
unfolding op_fields
op_fields-not_empty a xs e = cc

all_fields-injective :
    (a b : Journal) → All FitsOp a → All FitsOp b → all_fields a ≡ all_fields b → a ≡ b
unfolding all_fields
all_fields-injective [] [] fa fb e = refl
all_fields-injective [] (op ∷ b) fa fb e = absurd (op_fields-not_empty op (all_fields b) (sym e))
all_fields-injective (op ∷ a) [] fa fb e = absurd (op_fields-not_empty op (all_fields a) e)
all_fields-injective (op ∷ a) (op' ∷ b) (fop, fa) (fop', fb) e =
    let head = op_fields-injective op op' (all_fields a) (all_fields b) fop.seq fop'.seq e in
    cc (head.0, all_fields-injective a b fa fb (head.1))

short_tag : (k : JournalOpKind) → FitsU64 (frame_tag k)
unfolding frame_tag
short_tag write = omega arith
short_tag delete = omega arith

op_fields-fit : (a : JournalOp) → FitsOp a → All FitsU64 (op_fields a)
unfolding op_fields
op_fields-fit a f = (
  omega (arith, length-to_le_bytes a.seq),
  (
    short_tag a.kind,
    (
      f.path,
      All-append FitsU64 (optional_fields a.before) (optional_fields a.after) f.before f.after,
    ),
  ),
)

all_fields-fit : (ops : Journal) → All FitsOp ops → All FitsU64 (all_fields ops)
unfolding all_fields
all_fields-fit [] f = tt
all_fields-fit (op ∷ ops) (f, fs) =
    All-append FitsU64 (op_fields op) (all_fields ops) (op_fields-fit op f) (all_fields-fit ops fs)

tree_preimage-fields :
    (ops : Journal)
    → tree_preimage ops ≡ frame_all [] (codes "bullet-git.journal-tree.v2" ∷ all_fields ops)
unfolding tree_preimage frame_all
tree_preimage-fields ops = frame_ops-fields (frame [] (codes "bullet-git.journal-tree.v2")) ops

domain_fits : FitsU64 (codes "bullet-git.journal-tree.v2")
domain_fits = omega arith

-- Two journals whose preimages of the tree digest agree are the same operations in the same order,
-- with their numbers, paths, kinds and digests, where every number and field fits in 64 bits.
pub tree_preimage-injective :
    (a b : Journal) → All FitsOp a → All FitsOp b → tree_preimage a ≡ tree_preimage b → a ≡ b
tree_preimage-injective a b fa fb e =
    let domain = codes "bullet-git.journal-tree.v2" in
    let fields : domain ∷ all_fields a ≡ domain ∷ all_fields b =
      frame_all-injective (domain ∷ all_fields a) (domain ∷ all_fields b)
        (domain_fits, all_fields-fit a fa) (domain_fits, all_fields-fit b fb)
        (sym (tree_preimage-fields a) ∙ e ∙ tree_preimage-fields b) in
    all_fields-injective a b fa fb cc

-- A checkpoint has a valid identity when it is taken, also after a Git tree is bound to it; binding
-- one keeps its sequence number and its tree digest.
pub checkpoint_identity_valid :
    (h : Hashing) (ops : Journal) (git_tree : Text)
    → let bound = bind_git_tree h git_tree (checkpoint h ops) in
      (identity_is_valid h (checkpoint h ops) ≡ true)
      × (identity_is_valid h bound ≡ true)
      × (bound.through_seq ≡ (checkpoint h ops).through_seq)
      × (bound.tree ≡ (checkpoint h ops).tree)
unfolding identity_is_valid checkpoint bind_git_tree
checkpoint_identity_valid h ops git_tree = (ground arith, ground arith, refl, refl)
