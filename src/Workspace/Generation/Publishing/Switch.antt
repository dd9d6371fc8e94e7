-- ===== src/Workspace/Generation/Publishing/Switch.antt =====
-- Publishing a generation switches the active pointer once, and an error tells which side it is on.
use bullet_git.Prelude.{
  ℕ, ◌≡◌, refl, Text, ◌⊎◌, ◌||◌, if◌then◌else◌, ◌∙◌, Bool, true, false, Option, none, some, [], ◌∷◌,
  ◌++◌, Bytes, Result, ok, err, refuse_if, ok_or, inl, inr, arith,
}
use bullet_git.Prelude.Exec.{◌>>=◌, ◌>>◌, lift, pure, continue}
use mathlib.Core.Path.{subst}
use bullet_git.Types.Digest.{Hashing}
use bullet_git.Journal.{Checkpoint}
use bullet_git.Workspace.Generation.{
  GenerationError, corrupt, io, outcome_unknown, may_have_published, ParentGeneration,
  GenerationManifest, new_manifest, new_pointer,
}
use bullet_git.Workspace.Generation.Opening.{
  Control, file, GenerationDir, ControlCodec, WorkDir, GenerationStore,
}
use bullet_git.Workspace.Generation.Publishing.{
  Stored, StagedGeneration, GenerationBoundary, PublishIo, change_entry, check, write_manifest,
  rename_generation, write_generation, pointer_bytes, manifest_of, sync_staged_pointer,
  generation_file_sync, generation_rename, generation_directory_sync, pointer_write,
  pointer_directory_sync, pointer_file_sync, pointer_rename, replace_pointer, sync_pointer,
  publish_with,
}

abbrev IsBefore : {A : Type 0} → Result GenerationError A → Type 0
IsBefore {A} r = (e : GenerationError) → r ≡ err e → may_have_published e ≡ false

-- A step that leaves the pointer as it stands, and whose errors say so.
record LeavesPointer {A : Type 0} (m : Stored A) : Type 0 where
  kept : (d : WorkDir) → (m d).1.active ≡ d.active
  before : (d : WorkDir) → IsBefore (m d).0

refuse_if-IsBefore : (b : Bool) → IsBefore (refuse_if b io)
unfolding may_have_published
refuse_if-IsBefore b = ground arith

ok_or-IsBefore : {A : Type 0} → (a : Option A) → IsBefore (ok_or a corrupt)
unfolding may_have_published
ok_or-IsBefore a = ground arith

ok_or-some :
    {A : Type 0}
    → (o : Option A) (a : A) → ok_or {E = GenerationError} o corrupt ≡ ok a
    → o ≡ some a
ok_or-some o a same = ground arith

lift-LeavesPointer :
    {A : Type 0} → (r : Result GenerationError A) → IsBefore r → LeavesPointer (lift r)
lift-LeavesPointer r p = record { kept = λ d. refl; before = λ d. p }

module _ {A B : Type 0} (f : A → Stored B) (q : (a : A) → LeavesPointer (f a)) where
  continue-kept :
      (r : Result GenerationError A) (d : WorkDir) → (continue r f d).1.active ≡ d.active
  continue-kept (ok a) d = (q a).kept d
  continue-kept (err e) d = refl

  continue-IsBefore :
      (r : Result GenerationError A) (d : WorkDir) → IsBefore r → IsBefore (continue r f d).0
  continue-IsBefore (ok a) d p e' same = (q a).before d e' same
  continue-IsBefore (err e) d p e' same = grind arith

bind-LeavesPointer :
    {A B : Type 0} {m : Stored A} {f : A → Stored B}
    → LeavesPointer m
    → ((a : A) → LeavesPointer (f a))
    → LeavesPointer (m >>= f)
bind-LeavesPointer {A} {B} {m} {f} p q = record {
  kept = λ d. continue-kept f q (m d).0 (m d).1 ∙ p.kept d;
  before = λ d. continue-IsBefore f q (m d).0 (m d).1 (p.before d);
}

then-LeavesPointer :
    {A B : Type 0} {m : Stored A} {n : Stored B}
    → LeavesPointer m
    → LeavesPointer n
    → LeavesPointer (m >> n)
then-LeavesPointer p q = bind-LeavesPointer p (λ _. q)

module _ (h : Hashing) (codec : ControlCodec) (answers : PublishIo) where
  check-LeavesPointer : (b : GenerationBoundary) → LeavesPointer (check h codec answers b)
  unfolding check
  check-LeavesPointer b =
      lift-LeavesPointer (refuse_if (answers.trips b) io) (refuse_if-IsBefore (answers.trips b))

  failure-IsBefore :
      (c : Option Control) → IsBefore {A = Unit {0}} (elim c [ none ↦ ok tt | some _ ↦ err io ])
  unfolding may_have_published
  failure-IsBefore c = ground arith

  change_entry-LeavesPointer :
      (name : Text) (change : GenerationDir → GenerationDir)
      → LeavesPointer (change_entry name change)
  unfolding change_entry
  change_entry-LeavesPointer name change = record {
    kept = λ d. refl;
    before = λ d e same. ground arith;
  }

  rename_generation-LeavesPointer :
      (staged : StagedGeneration) → LeavesPointer (rename_generation h codec answers staged)
  unfolding rename_generation may_have_published
  rename_generation-LeavesPointer staged = record {
    kept = λ d. ground arith;
    before = λ d e same. ground arith;
  }

  new_manifest-IsBefore :
      (attempt nonce : Text) (n : ℕ) (parent : Option ParentGeneration) (checkpoint : Checkpoint)
      → IsBefore (new_manifest h attempt nonce n parent checkpoint)
  unfolding new_manifest may_have_published
  new_manifest-IsBefore attempt nonce n parent checkpoint e same = ground arith

  manifest_of-IsBefore :
      (store : GenerationStore) (staged : StagedGeneration) (checkpoint : Checkpoint)
      → IsBefore (manifest_of h codec answers store staged checkpoint)
  unfolding manifest_of
  manifest_of-IsBefore store staged checkpoint =
      new_manifest-IsBefore store.attempt_id store.nonce_hex staged.generation _ checkpoint

  tripped : (b : Bool) → LeavesPointer (lift (refuse_if b io))
  tripped b = lift-LeavesPointer (refuse_if b io) (refuse_if-IsBefore b)

  write_manifest-LeavesPointer :
      (staging : Text) (manifest : GenerationManifest)
      → LeavesPointer (write_manifest h codec answers staging manifest)
  unfolding write_manifest
  write_manifest-LeavesPointer staging manifest =
      then-LeavesPointer (tripped answers.manifest_create_fails) (
        then-LeavesPointer (change_entry-LeavesPointer staging _) (
          bind-LeavesPointer
            (lift-LeavesPointer _ (ok_or-IsBefore (codec.encode_manifest manifest)))
            (λ encoded.
              then-LeavesPointer (change_entry-LeavesPointer staging _)
                (lift-LeavesPointer _ (failure-IsBefore answers.manifest_failure)))))

  write_generation-LeavesPointer :
      (staged : StagedGeneration) (manifest : GenerationManifest)
      → LeavesPointer (write_generation h codec answers staged manifest)
  unfolding write_generation
  write_generation-LeavesPointer staged manifest =
      then-LeavesPointer (check-LeavesPointer generation_file_sync) (
        then-LeavesPointer (write_manifest-LeavesPointer staged.staging_dir manifest) (
          then-LeavesPointer (tripped answers.tree_sync_fails) (
            then-LeavesPointer (check-LeavesPointer generation_rename) (
              then-LeavesPointer (rename_generation-LeavesPointer staged) (
                then-LeavesPointer (check-LeavesPointer generation_directory_sync) (
                  then-LeavesPointer (tripped answers.generations_sync_fails) (
                    then-LeavesPointer (tripped answers.pointer_stage_fails) (
                      then-LeavesPointer (check-LeavesPointer pointer_write)
                        (tripped answers.pointer_open_fails)))))))))

  sync_staged_pointer-LeavesPointer : LeavesPointer (sync_staged_pointer h codec answers)
  unfolding sync_staged_pointer
  sync_staged_pointer-LeavesPointer = then-LeavesPointer (tripped answers.pointer_write_fails) (
      then-LeavesPointer (check-LeavesPointer pointer_file_sync) (
        then-LeavesPointer (tripped answers.pointer_sync_fails)
          (check-LeavesPointer pointer_rename)))

-- An error from before the switch under the old pointer, or `After` the switch.
abbrev pub Ends :
    {A : Type 0}
    → (Result GenerationError A → Control → Type 0)
    → Control
    → Result GenerationError A × WorkDir
    → Type 0
Ends After old out =
    ((e : GenerationError) × (out.0 ≡ err e)
      × (may_have_published e ≡ false)
      × (out.1.active ≡ old))
    ⊎ After out.0 out.1.active

module _ {A B : Type 0} (f : A → Stored B) (After : Result GenerationError B → Control → Type 0)
    (old : Control) where
  continue-Ends :
      (r : Result GenerationError A) (d : WorkDir)
      → d.active ≡ old
      → IsBefore r
      → ((a : A) → r ≡ ok a → (d : WorkDir) → Ends After d.active (f a d))
      → Ends After old (continue r f d)
  continue-Ends (ok a) d same p q = subst (λ c. Ends After c (f a d)) same (q a refl d)
  continue-Ends (err e) d same p q = inl (e, refl, p e refl, same)

bind-Ends :
    {A B : Type 0} {m : Stored A} (f : A → Stored B)
    (After : Result GenerationError B → Control → Type 0) (d : WorkDir)
    → LeavesPointer m
    → ((a : A) → (m d).0 ≡ ok a → (d : WorkDir) → Ends After d.active (f a d))
    → Ends After d.active ((m >>= f) d)
bind-Ends {A} {B} {m} f After d p q =
    continue-Ends f After d.active (m d).0 (m d).1 (p.kept d) (p.before d) q

module _ (h : Hashing) (codec : ControlCodec) (answers : PublishIo) (store : GenerationStore)
    (staged : StagedGeneration) (checkpoint : Checkpoint) where
  -- The new pointer stands, and the error, if there is one, leaves the outcome open.
  abbrev pub IsPublished : Result GenerationError GenerationStore → Control → Type 0
  IsPublished r active =
      (manifest : GenerationManifest) × (encoded : Bytes) × (manifest_of h codec answers store
          staged checkpoint
        ≡ ok manifest)
      × (codec.encode_pointer (new_pointer h manifest) ≡ some encoded)
      × (active ≡ file (encoded ++ 10 ∷ []))
      × ((r ≡ ok (record store { active = manifest })) ⊎ (r ≡ err outcome_unknown))

  -- The replacement of the pointer, by whether it fails and whether the directory's sync does.
  replaced_by :
      (manifest : GenerationManifest) (encoded : Bytes) (d : WorkDir)
      → manifest_of h codec answers store staged checkpoint ≡ ok manifest
      → codec.encode_pointer (new_pointer h manifest) ≡ some encoded
      → (fails unsynced : Bool)
      → Ends IsPublished d.active (
          ((λ d.
                if fails
                then (err io, d)
                else (ok (tt {0}), record d { active = file (encoded ++ 10 ∷ []) }))
              >>= λ _. lift (refuse_if unsynced outcome_unknown) >>= λ _.
                  pure (record store { active = manifest }))
            d)
  unfolding may_have_published
  replaced_by manifest encoded d made bytes true unsynced = inl (io, refl, refl, refl)
  replaced_by manifest encoded d made bytes false true =
      inr (manifest, encoded, made, bytes, refl, inr refl)
  replaced_by manifest encoded d made bytes false false =
      inr (manifest, encoded, made, bytes, refl, inl refl)

  -- Whatever the file system answers and wherever a fault is injected, publishing either fails with
  -- an error whose `may_have_published` is false, and the active pointer is the old one; or the
  -- active pointer is that of the new manifest, encoded and ended by a line feed, and the result is
  -- the store of that manifest or OutcomeUnknown.
  pub publish_with_switches :
      (d : WorkDir)
      → Ends IsPublished d.active (publish_with h codec answers store staged checkpoint d)
  unfolding publish_with pointer_bytes replace_pointer sync_pointer
  publish_with_switches d =
      bind-Ends _ IsPublished d
        (lift-LeavesPointer _ (manifest_of-IsBefore h codec answers store staged checkpoint))
        (λ manifest made d1.
          bind-Ends _ IsPublished d1
            (write_generation-LeavesPointer h codec answers staged manifest)
            (λ _ _ d2.
              bind-Ends _ IsPublished d2
                (lift-LeavesPointer _
                  (ok_or-IsBefore (codec.encode_pointer (new_pointer h manifest))))
                (λ encoded bytes d3.
                  bind-Ends _ IsPublished d3 (sync_staged_pointer-LeavesPointer h codec answers)
                    (λ _ _ d4.
                      replaced_by manifest encoded d4 made (ok_or-some _ encoded bytes)
                        answers.replace_fails
                        (answers.trips pointer_directory_sync || answers.work_dir_sync_fails)))))
