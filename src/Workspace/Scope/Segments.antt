-- ===== src/Workspace/Scope/Segments.antt =====
-- What a normalized path looks like.
use bullet_git.Prelude.{
  ℕ, ◌≡◌, ◌≢◌, refl, ap, ◌∙◌, false, List, [], ◌∷◌, ◌++◌, Text, codes, is_empty, ◌==◌, nat_eq,
  text_eq, if◌then◌else◌, ok, arith, split, join, All, starts_with, Result-cases, Bool-cases,
  ==_iff, ◌↔◌, inl, inr,
}
use mathlib.Core.List.{append_assoc, append-nil}
use bullet_git.Types.RepoPath.{Unicode, contains, ends_with, eq_ignore_ascii_case}
use bullet_git.Workspace.Scope.{push_segments, normalize_rel_path}

-- A segment that no platform reads as anything but a plain name.
pub record IsPlainSegment (s : Text) : Type 0 where
  pub not_empty : is_empty s ≡ false
  pub not_dot : ◌≢◌ {A = Text} s (codes ".")
  pub not_dot_dot : ◌≢◌ {A = Text} s (codes "..")
  pub not_git : eq_ignore_ascii_case s (codes ".git") ≡ false
  pub no_colon : contains b':' s ≡ false
  pub no_final_dot : ends_with b'.' s ≡ false
  pub no_final_space : ends_with b' ' s ≡ false

pub split-ne-nil : (sep : ℕ) (s : Text) → split sep s ≢ []
unfolding split
split-ne-nil sep [] h = cc
split-ne-nil sep (c ∷ cs) h = ground (arith, split-ne-nil sep cs)

pub join-cons :
    (sep : ℕ) (s : Text) (ss : List Text) → ss ≢ [] → join sep (s ∷ ss) ≡ s ++ sep ∷ join sep ss
unfolding join
join-cons sep s [] h = absurd (h refl)
join-cons sep s (t ∷ ss) h = refl

join_grow :
    (sep c : ℕ) (s : Text) (ss : List Text) → join sep ((c ∷ s) ∷ ss) ≡ c ∷ join sep (s ∷ ss)
unfolding join
join_grow sep c s [] = refl
join_grow sep c s (t ∷ ss) = refl

-- Splitting at a character and joining with it gives the text back.
pub join-split : (sep : ℕ) (s : Text) → join sep (split sep s) ≡ s
unfolding split
join-split sep [] = unfold join in refl
join-split sep (c ∷ cs) = step (split sep cs) (join-split sep cs) (split-ne-nil sep cs)
  where
    step :
        (rest : List Text)
        → join sep rest ≡ cs
        → rest ≢ []
        → join sep (
            if c == sep
            then [] ∷ rest
            else elim rest [ [] ↦ (c ∷ []) ∷ [] | s ∷ ss ↦ (c ∷ s) ∷ ss ])
          ≡ c ∷ cs
    step [] e ne = absurd (ne refl)
    step (s ∷ ss) e ne = elim (Bool-cases (c == sep)) [
      | inl h ↦ rw h (join-cons sep [] (s ∷ ss) ne ∙ cc (e, (==_iff c sep).0 h))
      | inr h ↦ rw h (join_grow sep c s ss ∙ ap (λ r. c ∷ r) e)
    ]

push_segments-parts :
    (raw : Text) (parts segments out : List Text)
    → push_segments raw parts segments ≡ ok out
    → (out ≡ parts ++ segments) × All IsPlainSegment segments
unfolding push_segments
push_segments-parts raw parts [] out h = (ground (arith, append-nil parts), tt)
push_segments-parts raw parts (s ∷ ss) out h =
    let ih : push_segments raw (parts ++ s ∷ []) ss ≡ ok out = ground arith in
    let rest = push_segments-parts raw (parts ++ s ∷ []) ss out ih in
    (rest.0 ∙ append_assoc parts (s ∷ []) ss, (ground arith, rest.1))

push_segments-ok :
    (raw : Text) (parts segments : List Text)
    → All IsPlainSegment segments
    → push_segments raw parts segments ≡ ok (parts ++ segments)
unfolding push_segments
push_segments-ok raw parts [] h = rw append-nil
push_segments-ok raw parts (s ∷ ss) h =
    let plain = h.0 in
    ground (arith, push_segments-ok raw (parts ++ s ∷ []) ss h.1, append_assoc parts (s ∷ []) ss)

-- A normalized path: relative, with no backslash and no NUL, of plain segments.
pub record IsNormalPath (p : Text) : Type 0 where
  pub not_empty : is_empty p ≡ false
  pub relative : starts_with (codes "/") p ≡ false
  pub no_backslash : contains 92 p ≡ false
  pub no_nul : contains 0 p ≡ false
  pub plain : All IsPlainSegment (split b'/' p)

-- `normalize_rel_path` accepts a path exactly when its NFC form is relative, not empty, free of
-- backslashes and NUL, and made of plain segments: none is empty, `.`, `..` or `.git` in any ASCII
-- case, none holds a colon or ends in a dot or a space. The result is then that NFC form.
pub normalize_rel_path_iff :
    (u : Unicode) (raw p : Text)
    → (normalize_rel_path u raw ≡ ok p) ↔ ((p ≡ u.nfc raw) × IsNormalPath p)
unfolding normalize_rel_path
normalize_rel_path_iff u raw p = (
  (λ h. elim (Result-cases (push_segments raw [] (split b'/' (u.nfc raw)))) [
    | inl (parts, pushed) ↦
        let inner = push_segments-parts raw [] (split b'/' (u.nfc raw)) parts pushed in
        let same : p ≡ u.nfc raw = ground (arith, join-split b'/' (u.nfc raw)) in
        (
          same,
          rw same (record {
            not_empty = ground arith;
            relative = ground arith;
            no_backslash = ground arith;
            no_nul = ground arith;
            plain = inner.1;
          }),
        )
    | inr (e, pushed) ↦ ground arith
  ]),
  (λ h.
      let normal : IsNormalPath (u.nfc raw) = rw h.0 at h.1 in
      let pushed = push_segments-ok raw [] (split b'/' (u.nfc raw)) normal.plain in
      ground (arith, join-split b'/' (u.nfc raw))),
)
