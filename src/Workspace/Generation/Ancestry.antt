-- ===== src/Workspace/Generation/Ancestry.antt =====
-- The lineage of a generation: the loop ends, and accepts exactly the chains down to generation zero.
use bullet_git.Prelude.{
  ℕ, zero, suc, ◌<◌, ◌≤◌, ◌≡◌, ◌≢◌, ◌↔◌, refl, sym, ap, ◌∙◌, Option, none, some, Text, leb, nat_eq,
  text_eq, ◌==◌, Result, ok, err, arith, Bool-cases, leb→le, Option-cases, Result-cases, inl, inr,
}
use bullet_git.Types.Digest.{Hashing}
use bullet_git.Workspace.Generation.{
  GenerationError, corrupt, ParentGeneration, GenerationManifest, validate_manifest,
}
use bullet_git.Workspace.Generation.Opening.{
  Generations, ControlCodec, manifest_at, read_manifest, read_parent, lineage_loop,
  validate_lineage,
}

module _ (h : Hashing) (codec : ControlCodec) (generations : Generations)
    (attempt nonce : Text) where
  -- A manifest whose parents lead down to generation zero: each parent has a smaller number, and its
  -- manifest stands under that number, is valid, belongs to this attempt and workspace, and has the
  -- digest that its child names.
  pub data Descends : GenerationManifest → Type 0 where
    root : (m : GenerationManifest) → m.parent ≡ none → m.generation ≡ 0 → Descends m
    child :
        (m prior : GenerationManifest) (parent : ParentGeneration)
        → m.parent ≡ some parent
        → parent.generation < m.generation
        → read_parent h codec generations parent attempt nonce ≡ ok prior
        → Descends prior
        → Descends m

  loop : ℕ → GenerationManifest → Option (Result GenerationError (Unit {0}))
  loop fuel m = lineage_loop h codec fuel generations attempt nonce m

  read_parent-generation :
      (parent : ParentGeneration) (prior : GenerationManifest)
      → read_parent h codec generations parent attempt nonce ≡ ok prior
      → prior.generation ≡ parent.generation
  unfolding read_parent
  read_parent-generation parent prior e =
      elim (Result-cases (read_manifest h codec (manifest_at generations parent.generation))) [
        | inr (why, refused) ↦ absurd (ground arith)
        | inl (read, found) ↦ elim (Result-cases (validate_manifest h read)) [
          | inr (why, refused) ↦ absurd (ground arith)
          | inl (_, valid) ↦ ground arith
        ]
      ]

  -- Any fuel above the number of the generation gives this answer.
  abbrev EndsIn : GenerationManifest → Result GenerationError (Unit {0}) → Type 0
  EndsIn m answer = (fuel : ℕ) → m.generation < fuel → loop fuel m ≡ some answer

  root-ends : (m : GenerationManifest) → m.parent ≡ none → m.generation ≡ 0 → EndsIn m (ok tt)
  unfolding loop lineage_loop
  root-ends m orphan first zero enough = absurd (omega arith)
  root-ends m orphan first (suc fuel) enough = ground arith

  orphan-ends :
      (m : GenerationManifest) → m.parent ≡ none → m.generation ≢ 0 → EndsIn m (err corrupt)
  unfolding loop lineage_loop
  orphan-ends m orphan later zero enough = absurd (omega arith)
  orphan-ends m orphan later (suc fuel) enough = ground arith

  high-ends :
      (m : GenerationManifest) (parent : ParentGeneration)
      → m.parent ≡ some parent
      → m.generation ≤ parent.generation
      → EndsIn m (err corrupt)
  unfolding loop lineage_loop
  high-ends m parent has high zero enough = absurd (omega arith)
  high-ends m parent has high (suc fuel) enough = ground arith

  refused-ends :
      (m : GenerationManifest) (parent : ParentGeneration) (e : GenerationError)
      → m.parent ≡ some parent
      → parent.generation < m.generation
      → read_parent h codec generations parent attempt nonce ≡ err e
      → EndsIn m (err e)
  unfolding loop lineage_loop
  refused-ends m parent e has below refused zero enough = absurd (omega arith)
  refused-ends m parent e has below refused (suc fuel) enough = ground arith

  child-ends :
      (m prior : GenerationManifest) (parent : ParentGeneration)
      (answer : Result GenerationError (Unit {0}))
      → m.parent ≡ some parent
      → parent.generation < m.generation
      → read_parent h codec generations parent attempt nonce ≡ ok prior
      → EndsIn prior answer
      → EndsIn m answer
  unfolding loop lineage_loop
  child-ends m prior parent answer has below found ends zero enough = absurd (omega arith)
  child-ends m prior parent answer has below found ends (suc fuel) enough =
      let number = read_parent-generation parent prior found in
      ground (arith, ends fuel (omega (arith, number)))

  Descends-root : (m : GenerationManifest) → Descends m → m.parent ≡ none → m.generation ≡ 0
  Descends-root m (root _ orphan first) e = first
  Descends-root m (child _ prior parent has below found rest) e = absurd (ground arith)

  Descends-child :
      (m : GenerationManifest) (parent : ParentGeneration)
      → Descends m
      → m.parent ≡ some parent
      → (parent.generation < m.generation)
        × (prior : GenerationManifest) × (read_parent h codec generations parent attempt nonce
            ≡ ok prior)
        × Descends prior
  Descends-child m parent (root _ orphan first) e = absurd (ground arith)
  Descends-child m parent (child _ prior other has below found rest) e =
      let same : other ≡ parent = some-injective (sym has ∙ e) in
      (rw same at below, prior, rw same at found, rest)
    where
      some-injective : {A : Type 0} {a b : A} → some a ≡ some b → a ≡ b
      some-injective e = cc

  -- The loop ends, and accepts exactly what descends to generation zero.
  abbrev Decided : GenerationManifest → Type 0
  Decided m =
      (answer : Result GenerationError (Unit {0})) × EndsIn m answer
      × (answer ≡ ok tt → Descends m)
      × (Descends m → answer ≡ ok tt)

  orphan-Decided : (m : GenerationManifest) → m.parent ≡ none → Decided m
  orphan-Decided m orphan = elim (Bool-cases (m.generation == 0)) [
    | inl first ↦
        let at_zero : m.generation ≡ 0 = ground arith in
        (ok tt, root-ends m orphan at_zero, (λ _. root m orphan at_zero), λ _. refl)
    | inr later ↦
        let not_zero : m.generation ≢ 0 = λ z. absurd (ground arith) in
        (
          err corrupt,
          orphan-ends m orphan not_zero,
          (λ e. absurd (ground arith)),
          λ d. absurd (not_zero (Descends-root m d orphan)),
        )
  ]

  high-Decided :
      (m : GenerationManifest) (parent : ParentGeneration)
      → m.parent ≡ some parent
      → m.generation ≤ parent.generation
      → Decided m
  high-Decided m parent has high = (
    err corrupt,
    high-ends m parent has high,
    (λ e. absurd (ground arith)),
    λ d. absurd (omega (arith, (Descends-child m parent d has).0)),
  )

  refused-Decided :
      (m : GenerationManifest) (parent : ParentGeneration) (e : GenerationError)
      → m.parent ≡ some parent
      → parent.generation < m.generation
      → read_parent h codec generations parent attempt nonce ≡ err e
      → Decided m
  refused-Decided m parent e has below refused = (
    err e,
    refused-ends m parent e has below refused,
    (λ same. absurd (ground arith)),
    λ d. let (_, prior, found, _) = Descends-child m parent d has in absurd (ground arith),
  )

  child-Decided :
      (m prior : GenerationManifest) (parent : ParentGeneration)
      → m.parent ≡ some parent
      → parent.generation < m.generation
      → read_parent h codec generations parent attempt nonce ≡ ok prior
      → Decided prior
      → Decided m
  child-Decided m prior parent has below found (answer, ends, to, from) = (
    answer,
    child-ends m prior parent answer has below found ends,
    (λ accepted. child m prior parent has below found (to accepted)),
    λ d.
        let (_, other, found', rest) = Descends-child m parent d has in
        let same : other ≡ prior = ok-injective (sym found' ∙ found) in from (rw same at rest),
  )
    where
      ok-injective : {E A : Type 0} {a b : A} → ◌≡◌ {A = Result E A} (ok a) (ok b) → a ≡ b
      ok-injective e = cc

  -- By induction on a bound of the generation's number.
  lineage-Decided : (bound : ℕ) (m : GenerationManifest) → m.generation < bound → Decided m
  lineage-Decided zero m small = absurd (omega arith)
  lineage-Decided (suc bound) m small = elim (Option-cases m.parent) [
    | inl orphan ↦ orphan-Decided m orphan
    | inr (parent, has) ↦ elim (Bool-cases (leb m.generation parent.generation)) [
      | inl high ↦ high-Decided m parent has (leb→le m.generation parent.generation high)
      | inr low ↦
          let below : parent.generation < m.generation = ground arith in
          elim (Result-cases (read_parent h codec generations parent attempt nonce)) [
            | inr (e, refused) ↦ refused-Decided m parent e has below refused
            | inl (prior, found) ↦
                let number = read_parent-generation parent prior found in
                child-Decided m prior parent has below found
                  (lineage-Decided bound prior (omega (arith, number)))
          ]
    ]
  ]

  answered :
      (m : GenerationManifest) (answer : Result GenerationError (Unit {0}))
      → lineage_loop h codec (suc m.generation) generations attempt nonce m ≡ some answer
      → validate_lineage h codec generations m attempt nonce ≡ answer
  unfolding validate_lineage
  answered m answer e = rw (e, validate_lineage) refl

  -- The walk over the parents of a generation ends: fuel above the generation's number is enough, and
  -- more changes nothing. It accepts exactly the manifests whose parents lead down to generation zero.
  pub validate_lineage_decides :
      (m : GenerationManifest) (fuel : ℕ)
      → m.generation < fuel
      → (lineage_loop h codec fuel generations attempt nonce m
          ≡ some (validate_lineage h codec generations m attempt nonce))
        × ((validate_lineage h codec generations m attempt nonce ≡ ok tt) ↔ Descends m)
  unfolding loop
  validate_lineage_decides m fuel enough =
      let (answer, ends, to, from) = lineage-Decided (suc m.generation) m (omega arith) in
      let same : validate_lineage h codec generations m attempt nonce ≡ answer =
        answered m answer (ends (suc m.generation) (omega arith)) in
      (
        ends fuel enough ∙ ap (λ r. some r) (sym same),
        ((λ e. to (sym same ∙ e)), λ d. same ∙ from d),
      )
