-- ===== src/Types/Proposal/Apart.antt =====
-- The paths of an accepted proposal are pairwise apart.
use bullet_git.Prelude.{
  ℕ, ◌≡◌, ◌≢◌, refl, ap, false, none, some, Option-cases, List, [], ◌∷◌, Text, All, ◌==◌, text_eq,
  if◌then◌else◌, ok, arith, Result-cases, inl, inr, ==_refl,
}
use bullet_git.Types.RepoPath.{Unicode, collision_key, contains_path}
use bullet_git.Types.Proposal.{
  PatchOperation, PathMap, lookup, put, add_content, insert, refuse_collision, validate_operations,
  conflicts_with, validate_conflicts,
}

-- Two keys that differ, and neither of which lies below the other.
pub record AreApart (left right : Text) : Type 0 where
  pub differ : left ≢ right
  pub not_below : contains_path left right ≡ false
  pub not_above : contains_path right left ≡ false

abbrev pub ArePairwiseApart : Unicode → List PatchOperation → Type 0
ArePairwiseApart u [] = Unit
ArePairwiseApart u (operation ∷ operations) =
    All (λ later. AreApart (collision_key u operation.path) (collision_key u later.path)) operations
    × ArePairwiseApart u operations

lookup-put :
    (j key path : Text) (m : PathMap)
    → lookup j (put key path m) ≡ (if j == key then some path else lookup j m)
unfolding lookup put
lookup-put j key path [] = refl
lookup-put j key path ((k, p) ∷ rest) = ground (arith, lookup-put j key path rest)

conflicts_with-ok :
    (key path : Text) (m : PathMap) (j p : Text)
    → conflicts_with key path m ≡ ok tt
    → lookup j m ≡ some p
    → (contains_path key j ≡ false) × (contains_path j key ≡ false)
unfolding conflicts_with lookup
conflicts_with-ok key path [] j p h found = cc
conflicts_with-ok key path ((k, q) ∷ rest) j p h found =
    ground (arith, conflicts_with-ok key path rest j p)

-- Two different keys of a map that is free of conflicts.
validate_conflicts-ok :
    (m : PathMap) (j k p q : Text)
    → validate_conflicts m ≡ ok tt
    → lookup j m ≡ some p
    → lookup k m ≡ some q
    → j ≢ k
    → (contains_path j k ≡ false) × (contains_path k j ≡ false)
unfolding validate_conflicts lookup
validate_conflicts-ok [] j k p q h fj fk apart = cc
validate_conflicts-ok ((key, path) ∷ rest) j k p q h fj fk apart = ground (
  arith,
  conflicts_with-ok key path rest j p,
  conflicts_with-ok key path rest k q,
  validate_conflicts-ok rest j k p q,
)

module _ (u : Unicode) where
  abbrev key_of : PatchOperation → Text
  key_of operation = collision_key u operation.path

  -- What one accepted round of the loop has checked.
  round-ok :
      (paths paths' : PathMap) (aggregate : ℕ) (operation : PatchOperation)
      (operations : List PatchOperation)
      → validate_operations u paths aggregate (operation ∷ operations) ≡ ok paths'
      → (lookup (key_of operation) paths ≡ none)
        × (total : ℕ) × (validate_operations u
              (put (key_of operation) operation.path paths)
              total
              operations
            ≡ ok paths')
  unfolding validate_operations insert refuse_collision
  round-ok paths paths' aggregate operation operations h =
      elim (Result-cases (add_content aggregate operation operation.mutation)) [
        | inr (e, failed) ↦ absurd (ground arith)
        | inl (total, added) ↦ elim (Option-cases (lookup (key_of operation) paths)) [
          | inl absent ↦ (absent, total, ground arith)
          | inr (p, there) ↦ absurd (ground arith)
        ]
      ]

  -- A key that is there stays, and no operation brings it again.
  lookup-validate_operations :
      (paths paths' : PathMap) (aggregate : ℕ) (operations : List PatchOperation) (key p : Text)
      → validate_operations u paths aggregate operations ≡ ok paths'
      → lookup key paths ≡ some p
      → (lookup key paths' ≡ some p) × All (λ later. key ≢ key_of later) operations
  unfolding validate_operations
  lookup-validate_operations paths paths' aggregate [] key p h there = (ground arith, tt)
  lookup-validate_operations paths paths' aggregate (operation ∷ operations) key p h there =
      let round = round-ok paths paths' aggregate operation operations h in
      let apart : key ≢ key_of operation =
        λ same. ground (arith, round.0, ap (λ k. lookup k paths) same) in
      let still : lookup key (put (key_of operation) operation.path paths) ≡ some p =
        ground (arith, lookup-put key (key_of operation) operation.path paths, apart) in
      let rest =
        lookup-validate_operations (put (key_of operation) operation.path paths) paths' round.1
          operations key p round.2 still in
      (rest.0, (apart, rest.1))

  abbrev IsFound : PathMap → PatchOperation → Type 0
  IsFound paths operation = (p : Text) × (lookup (key_of operation) paths ≡ some p)

  found-apart :
      (paths : PathMap) (key p : Text) (operations : List PatchOperation)
      → validate_conflicts paths ≡ ok tt
      → lookup key paths ≡ some p
      → All (λ later. key ≢ key_of later) operations
      → All (IsFound paths) operations
      → All (λ later. AreApart key (key_of later)) operations
  found-apart paths key p [] free there apart found = tt
  found-apart paths key p (operation ∷ operations) free there apart found =
      let clear =
        validate_conflicts-ok paths key (key_of operation) p found.0.0 free there found.0.1
          apart.0 in
      (
        record { differ = apart.0; not_below = clear.0; not_above = clear.1 },
        found-apart paths key p operations free there apart.1 found.1,
      )

  -- The operations that fill a map free of conflicts.
  pub validated-ArePairwiseApart :
      (paths paths' : PathMap) (aggregate : ℕ) (operations : List PatchOperation)
      → validate_operations u paths aggregate operations ≡ ok paths'
      → validate_conflicts paths' ≡ ok tt
      → All (IsFound paths') operations × ArePairwiseApart u operations
  validated-ArePairwiseApart paths paths' aggregate [] h free = (tt, tt)
  validated-ArePairwiseApart paths paths' aggregate (operation ∷ operations) h free =
      let round = round-ok paths paths' aggregate operation operations h in
      let key = key_of operation in
      let next = put key operation.path paths in
      let there : lookup key next ≡ some operation.path =
        ground (arith, lookup-put key key operation.path paths, ==_refl key) in
      let stays =
        lookup-validate_operations next paths' round.1 operations key operation.path round.2
          there in
      let rest = validated-ArePairwiseApart next paths' round.1 operations round.2 free in
      (
        ((operation.path, stays.0), rest.0),
        (found-apart paths' key operation.path operations free stays.0 stays.1 rest.0, rest.1),
      )
