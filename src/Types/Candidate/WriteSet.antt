-- ===== src/Types/Candidate/WriteSet.antt =====
-- The check of the write set against the grant.
use bullet_git.Prelude.{
  ◌≡◌, ◌↔◌, refl, ap, ◌∙◌, true, List, [], ◌∷◌, ◌++◌, Text, codes, text_eq, arith, ok, starts_with,
  strip_prefix, strip_prefix-append, strip_prefix-eq-some, Bool-cases, Option-cases, ==_iff,
  ==_refl, ◌==◌, inl, inr,
}
use mathlib.Core.List.{Memᴰ}
use bullet_git.Workspace.Scope.Coverage.{Covers, any_of_mem, mem_of_any}
use bullet_git.Types.Candidate.{path_is_within, write_set_within_grant}

starts_with-slash : (t : Text) → starts_with (codes "/") t ≡ true → (r : Text) × (t ≡ b'/' ∷ r)
unfolding starts_with
starts_with-slash [] h = cc
starts_with-slash (c ∷ r) h = (r, ground arith)

path_is_within_iff : (grant path : Text) → (path_is_within grant path ≡ true) ↔ Covers grant path
unfolding path_is_within
path_is_within_iff grant path = (
  (λ h. elim (Bool-cases (path == grant)) [
    | inl same ↦ inl ((==_iff path grant).0 same)
    | inr other ↦ elim (Option-cases (strip_prefix grant path)) [
      | inl e ↦ absurd (ground arith)
      | inr (r, e) ↦
          let (rest, slash) = starts_with-slash r (ground arith) in
          inr (rest, strip_prefix-eq-some grant path r e ∙ ap (λ x. grant ++ x) slash)
    ]
  ]),
  (λ c. elim c [
    | inl same ↦ rw (same, ==_refl grant) refl
    | inr (rest, below) ↦
        let stripped = strip_prefix-append grant (b'/' ∷ rest) in
        rw below (unfold starts_with in ground (arith, stripped))
  ]),
)

-- The write set is accepted exactly when every path of it is a path of the grant or lies below one,
-- behind a slash.
pub write_set_iff :
    (granted actual : List Text)
    → (write_set_within_grant granted actual ≡ ok tt)
      ↔ ((path : Text) → Memᴰ path actual → (grant : Text) × Memᴰ grant granted × Covers grant path)
unfolding write_set_within_grant
write_set_iff granted [] = ((λ h path m. elim m [ ]), λ h. refl)
write_set_iff granted (p ∷ ps) = (
  (λ h path m. elim m [
    | Memᴰ.head same ↦
        let (grant, member, e) = mem_of_any (λ g. path_is_within g p) granted (ground arith) in
        (grant, member, rw same ((path_is_within_iff grant p).0 e))
    | Memᴰ.tail rest ↦ (write_set_iff granted ps).0 (ground arith) path rest
  ]),
  (λ h.
      let (grant, member, covers) = h p (Memᴰ.head refl) in
      let here =
        any_of_mem (λ g. path_is_within g p) member ((path_is_within_iff grant p).1 covers) in
      rw here ((write_set_iff granted ps).1 (λ path m. h path (Memᴰ.tail m)))),
)
