-- ===== src/Types/Authority.antt =====
-- crates/bullet-git-types/src/authority.rs, and `ExpectedAuthority` of
-- crates/bullet-git-workspace/src/repository.rs. The JSON decoder of a token is a parameter.
pub mod Checks
use bullet_git.Prelude.{
  ℕ, Bool, not, Option, Bytes, Text, is_empty, codes, ◌==◌, nat_eq, text_eq, Result, ok, err, ok_or,
  refuse_if, ◌>>=◌, ◌>>◌,
}

pub record AuthorityEnvelope : Type 0 where
  pub token : Bytes

unfoldable pub is_present : AuthorityEnvelope → Bool
is_present e = not (is_empty e.token)

pub data AuthorityError : Type 0 where
  unauthorized stale_authority : AuthorityError

unfoldable pub reason_code : AuthorityError → Text
reason_code unauthorized = codes "UNAUTHORIZED"
reason_code stale_authority = codes "STALE_AUTHORITY"

pub record WireAuthorityToken : Type 0 where
  pub variant_id : Text
  pub attempt_id : Text
  pub attempt_fence : ℕ
  pub workspace_nonce : Bytes

-- `serde_json::from_slice` at the token's type.
abbrev pub TokenDecoder : Type 0
TokenDecoder = Bytes → Option WireAuthorityToken

unfoldable pub parse : TokenDecoder → Bytes → Result AuthorityError WireAuthorityToken
parse from_slice token = do
  refuse_if (is_empty token) unauthorized
  ok_or (from_slice token) unauthorized

unfoldable pub verify : WireAuthorityToken → Text → ℕ → Bytes → Result AuthorityError (Unit {0})
verify token expected_attempt expected_fence expected_nonce = do
  refuse_if (not (token.attempt_id == expected_attempt)) stale_authority
  refuse_if (not (token.attempt_fence == expected_fence)) stale_authority
  refuse_if (not (token.workspace_nonce == expected_nonce)) stale_authority
  ok tt

pub record ExpectedAuthority : Type 0 where
  pub attempt_id : Text
  pub attempt_fence : ℕ
  pub workspace_nonce : Bytes

unfoldable pub require :
    TokenDecoder → ExpectedAuthority → AuthorityEnvelope → Result AuthorityError WireAuthorityToken
unfolding parse verify
require from_slice expected auth = do
  token ← parse from_slice auth.token
  verify token expected.attempt_id expected.attempt_fence expected.workspace_nonce
  ok token
