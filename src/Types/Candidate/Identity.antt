-- ===== src/Types/Candidate/Identity.antt =====
-- The addresses of a candidate are what its manifest gives.
use bullet_git.Prelude.{
  ◌≡◌, ◌↔◌, refl, ap, Result, Text, text_eq, nat_eq, arith, ok, Result-cases, ==_refl, inl, inr,
}
use bullet_git.Types.Digest.{Hashing}
use bullet_git.Types.Candidate.{
  CanonicalJson, Candidate, candidate_id, content_id, from_manifest, validate_identity,
}

module _ (h : Hashing) (json : CanonicalJson) where
  ok-injective : {E A : Type 0} {a b : A} → ◌≡◌ {A = Result E A} (ok a) (ok b) → a ≡ b
  ok-injective e = cc

  built :
      (c : Candidate) (id content : Text)
      → candidate_id h json c.manifest ≡ ok id
      → content_id h json c.manifest ≡ ok content
      → (validate_identity h json c ≡ ok tt)
        ↔ (from_manifest h json c.manifest c.prepared_at ≡ ok c)
  unfolding validate_identity from_manifest
  built c id content e f = (
    (λ v.
        let same : c.id ≡ id = ground arith in
        let same' : c.content_id ≡ content = ground arith in rw (e, f, same, same') refl),
    (λ v.
        let shape : ok (record {
          id = id;
          content_id = content;
          manifest = c.manifest;
          prepared_at = c.prepared_at;
        })
            ≡ ok c =
          rw (e, f) at v in
        let whole = ok-injective shape in
        rw
          (
            e,
            f,
            ap (λ x. x.id) whole,
            ap (λ x. x.content_id) whole,
            ==_refl c.id,
            ==_refl c.content_id,
          )
          refl),
  )

  -- A stored candidate is accepted exactly when constructing one from its manifest gives it back.
  pub validate_identity_iff :
      (c : Candidate)
      → (validate_identity h json c ≡ ok tt)
        ↔ (from_manifest h json c.manifest c.prepared_at ≡ ok c)
  unfolding validate_identity from_manifest
  validate_identity_iff c = elim (Result-cases (candidate_id h json c.manifest)) [
    | inr (e, failed) ↦ ((λ v. absurd (ground arith)), λ v. absurd (ground arith))
    | inl (id, e) ↦ elim (Result-cases (content_id h json c.manifest)) [
      | inr (e', failed) ↦ ((λ v. absurd (ground arith)), λ v. absurd (ground arith))
      | inl (content, f) ↦ built c id content e f
    ]
  ]
