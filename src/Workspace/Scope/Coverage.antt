-- ===== src/Workspace/Scope/Coverage.antt =====
-- What a grant covers.
use bullet_git.Prelude.{
  ℕ, ◌≤◌, ◌≡◌, ◌≢◌, ◌↔◌, ◌⊎◌, refl, sym, ap, ◌∙◌, Bool, true, ◌&&◌, List, [], ◌∷◌, ◌++◌, Text,
  length, length-append, any, leb, nat_eq, text_eq, ok, arith, split, join, Result-cases,
  Bool-cases, inl, inr,
}
use mathlib.Core.List.{Memᴰ, append-nil, append_assoc}
use bullet_git.Types.RepoPath.{Unicode}
use bullet_git.Workspace.Scope.{
  ScopeGrant, normalize_rel_path, zip_all_equal, prefix_covers, permits, check,
}
use bullet_git.Workspace.Scope.Segments.{
  IsNormalPath, normalize_rel_path_iff, split-ne-nil, join-split, join-cons,
}

-- The path is the prefix itself, or lies below it.
abbrev pub Covers : Text → Text → Type 0
Covers prefix path = (path ≡ prefix) ⊎ ((rest : Text) × (path ≡ prefix ++ b'/' ∷ rest))

pub split-append :
    (sep : ℕ) (s rest : Text) → split sep (s ++ sep ∷ rest) ≡ split sep s ++ split sep rest
unfolding split
split-append sep [] rest = ground arith
split-append sep (c ∷ s) rest = ground (arith, split-append sep s rest, split-ne-nil sep s)

join-append :
    (sep : ℕ) (ss ts : List Text)
    → ss ≢ []
    → ts ≢ []
    → join sep (ss ++ ts) ≡ join sep ss ++ sep ∷ join sep ts
unfolding join
join-append sep [] ts hs ht = absurd (hs refl)
join-append sep (s ∷ []) ts hs ht = join-cons sep s ts ht
join-append sep (s ∷ s' ∷ ss) ts hs ht =
    rw (join-append sep (s' ∷ ss) ts (λ e. cc) ht) (simp append_assoc)

zip_all_equal-append : (xs ys : List Text) → zip_all_equal xs (xs ++ ys) ≡ true
unfolding zip_all_equal
zip_all_equal-append [] ys = refl
zip_all_equal-append (x ∷ xs) ys = ground (arith, zip_all_equal-append xs ys)

zip_all_equal-true :
    (xs ys : List Text)
    → length xs ≤ length ys
    → zip_all_equal xs ys ≡ true
    → (zs : List Text) × (ys ≡ xs ++ zs)
unfolding zip_all_equal
zip_all_equal-true [] ys n h = (ys, refl)
zip_all_equal-true (x ∷ xs) [] n h = absurd (omega arith)
zip_all_equal-true (x ∷ xs) (y ∷ ys) n h =
    let (zs, e) = zip_all_equal-true xs ys (omega arith) (ground arith) in (zs, ground arith)

covers_of_append :
    (xs zs : List Text)
    → (leb (length xs) (length (xs ++ zs)) && zip_all_equal xs (xs ++ zs)) ≡ true
covers_of_append xs zs = ground (arith, length-append xs zs, zip_all_equal-append xs zs)

prefix_covers_iff : (prefix path : Text) → (prefix_covers path prefix ≡ true) ↔ Covers prefix path
unfolding prefix_covers
prefix_covers_iff prefix path = (
  (λ h.
      let (zs, e) =
        zip_all_equal-true (split b'/' prefix) (split b'/' path) (ground arith) (ground arith) in
      covered zs e),
  (λ c. elim c [
    | inl same ↦ rw same (rw append-nil at (covers_of_append (split b'/' prefix) []))
    | inr (rest, below) ↦
        rw (below, split-append b'/' prefix rest)
          (covers_of_append (split b'/' prefix) (split b'/' rest))
  ]),
)
  where
    covered : (zs : List Text) → split b'/' path ≡ split b'/' prefix ++ zs → Covers prefix path
    covered [] e =
        inl
          (sym (join-split b'/' path) ∙ ap (join b'/') (e ∙ append-nil _) ∙ join-split b'/' prefix)
    covered (z ∷ zs) e = inr (
      join b'/' (z ∷ zs),
      sym (join-split b'/' path)
          ∙ ap (join b'/') e
          ∙ join-append b'/' (split b'/' prefix) (z ∷ zs) (split-ne-nil b'/' prefix) (λ n. cc)
          ∙ ap (λ s. s ++ b'/' ∷ join b'/' (z ∷ zs)) (join-split b'/' prefix),
    )

pub any_of_mem :
    (p : Text → Bool) {x : Text} {xs : List Text} → Memᴰ x xs → p x ≡ true → any p xs ≡ true
any_of_mem p (Memᴰ.head e) h = ground arith
any_of_mem p (Memᴰ.tail m) h = ground (arith, any_of_mem p m h)

pub mem_of_any :
    (p : Text → Bool) (xs : List Text) → any p xs ≡ true → (x : Text) × Memᴰ x xs × (p x ≡ true)
mem_of_any p [] h = cc
mem_of_any p (x ∷ xs) h = elim (Bool-cases (p x)) [
  | inl here ↦ (x, Memᴰ.head refl, here)
  | inr miss ↦ let (y, m, e) = mem_of_any p xs (ground arith) in (y, Memᴰ.tail m, e)
]

-- A grant permits a normalized path exactly when one of its prefixes is the path itself, or is
-- followed in the path by a slash: coverage goes by whole segments.
pub permits_iff :
    (grant : ScopeGrant) (path : Text)
    → (permits grant path ≡ true)
      ↔ ((prefix : Text) × Memᴰ prefix grant.allowed_prefixes × Covers prefix path)
unfolding permits
permits_iff grant path = (
  (λ h.
      let (prefix, m, e) = mem_of_any (prefix_covers path) grant.allowed_prefixes h in
      (prefix, m, (prefix_covers_iff prefix path).0 e)),
  (λ (prefix, m, c). any_of_mem (prefix_covers path) m ((prefix_covers_iff prefix path).1 c)),
)

-- `check` returns a path exactly when it is the NFC form of the raw path, is a normal path, and is a
-- prefix of the grant or lies below one.
pub check_iff :
    (u : Unicode) (grant : ScopeGrant) (raw p : Text)
    → (check u grant raw ≡ ok p) ↔ (
        (p ≡ u.nfc raw)
        × IsNormalPath p
        × ((prefix : Text) × Memᴰ prefix grant.allowed_prefixes × Covers prefix p))
unfolding check
check_iff u grant raw p = (
  (λ h. elim (Result-cases (normalize_rel_path u raw)) [
    | inl (q, e) ↦
        let same : q ≡ p = ground arith in
        let normal = (normalize_rel_path_iff u raw p).0 (e ∙ ap (λ (x : Text). ok x) same) in
        (normal.0, normal.1, (permits_iff grant p).0 (ground arith))
    | inr (e, failed) ↦ ground arith
  ]),
  (λ (same, normal, covered).
      ground (
        arith,
        (normalize_rel_path_iff u raw p).1 (same, normal),
        (permits_iff grant p).1 covered,
      )),
)
