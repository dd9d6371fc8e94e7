-- ===== src/Types/Authority/Checks.antt =====
-- What an accepted token names.
use bullet_git.Prelude.{◌≡◌, ◌↔◌, ◌≢◌, some, [], ok, arith, Bytes}
use bullet_git.Types.Authority.{
  AuthorityEnvelope, WireAuthorityToken, TokenDecoder, ExpectedAuthority, require,
}

-- `require` returns a token exactly when the envelope is not empty, its bytes decode to that token,
-- and the token names the expected attempt, fence and workspace nonce.
pub require_iff :
    (from_slice : TokenDecoder) (expected : ExpectedAuthority) (auth : AuthorityEnvelope)
    (token : WireAuthorityToken)
    → (require from_slice expected auth ≡ ok token) ↔ (
        (◌≢◌ {A = Bytes} auth.token [])
        × (from_slice auth.token ≡ some token)
        × (token.attempt_id ≡ expected.attempt_id)
        × (token.attempt_fence ≡ expected.attempt_fence)
        × (token.workspace_nonce ≡ expected.workspace_nonce))
unfolding require
require_iff from_slice expected auth token = ground arith
