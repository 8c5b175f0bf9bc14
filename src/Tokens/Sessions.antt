-- ===== src/Tokens/Sessions.antt =====
-- What a token of each kind is good for, and for how long.
use transactguard.Prelude.{ℕ, ◌+◌, ◌≡◌, ◌∙◌, ap, arith, leb, if◌then◌else◌}
use transactguard.Errors.{Code, ok, throw}
use transactguard.Errors.Raise
use transactguard.Schema.{User}
use transactguard.Tokens.{
  Jwt, access_secret, refresh_secret, access, refresh, access_token_ttl, refresh_token_ttl,
  access_claims, refresh_claims, sign_access_token, sign_refresh_token, checked,
  verify_access_token, verify_refresh_token,
}

module _ (J : Jwt) (u : User) (jti issued now : ℕ) where
  -- An access token gives back its holder's id and role for fifteen minutes and is refused as
  -- expired from then on; as a refresh token it is refused at any time.
  pub access_token_life :
      (verify_access_token J (sign_access_token J u jti issued) now ≡ (
        if leb (issued + access_token_ttl) now
        then throw (Raise.unauthorized Code.token_expired)
        else ok (access_claims J u jti issued)))
      × (verify_refresh_token J (sign_access_token J u jti issued) now
          ≡ throw (Raise.unauthorized Code.token_invalid))
  unfolding verify_access_token verify_refresh_token sign_access_token
  access_token_life =
      let c = access_claims J u jti issued in
      (
        ap (checked J access) (J.verify-sign access_secret c now) ∙ ground arith,
        ap (checked J refresh) (J.verify-sign_access c now),
      )

  -- The same of a refresh token, for seven days; it never passes for an access token.
  pub refresh_token_life :
      (verify_refresh_token J (sign_refresh_token J u jti issued) now ≡ (
        if leb (issued + refresh_token_ttl) now
        then throw (Raise.unauthorized Code.token_expired)
        else ok (refresh_claims J u jti issued)))
      × (verify_access_token J (sign_refresh_token J u jti issued) now
          ≡ throw (Raise.unauthorized Code.token_invalid))
  unfolding verify_access_token verify_refresh_token sign_refresh_token
  refresh_token_life =
      let c = refresh_claims J u jti issued in
      (
        ap (checked J refresh) (J.verify-sign refresh_secret c now) ∙ ground arith,
        ap (checked J access) (J.verify-sign_refresh c now),
      )
