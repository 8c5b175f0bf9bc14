-- ===== src/Auth/Sessions.antt =====
-- `loginUser`, `refreshAccessToken` and `logoutUser` of backend/src/modules/auth/auth.service.js, and
-- `authenticate` of backend/src/middleware/auth.js.
pub mod Logout
pub mod Login
use transactguard.Prelude.{
  ℕ, ◌==◌, String, Bool, true, false, not, ◌||◌, Option, none, some, if◌then◌else◌, is_some,
}
use transactguard.Errors.{Code, ApiError, Result, ok, throw}
use transactguard.Errors.Raise
use transactguard.Schema.{World, User, Action, record_audit}
use transactguard.Tokens.{
  Claims, sign_access_token, sign_refresh_token, verify_access_token, verify_refresh_token,
  seconds_until_expiry,
}
use transactguard.Auth.{
  Services, Site, Principal, AuthCtx, Keys, revoke_token, is_token_revoked, find_by_email,
}

-- `revoked` of `logoutUser`
pub record Revoked : Type 0 where
  pub access_token : Bool
  pub refresh_token : Bool

-- `TIMING_SAFE_DUMMY_HASH`
abbrev timing_safe_dummy_hash : String
timing_safe_dummy_hash = "$2b$12$EpMqNtaMGrhNWtzY5/tZ8OisxCS.YA4q9LvkARsDZWH4g4lquXbce"

abbrev pub invalid_credentials : ApiError
invalid_credentials = Raise.unauthorized Code.invalid_credentials

module _ (S : Services) where
  abbrev pub Token : Type 0
  Token = S.jwt.Token

  -- `req.user`
  unfoldable pub principal : Claims → Principal
  principal c = record { id = c.sub; email = c.email; role = c.role; jti = c.jti; exp = c.exp }

  -- A token whose signature and expiry are good, unless it has been revoked.
  unfoldable pub unrevoked : Claims → ApiError → Result Bool → Result Claims
  unrevoked c revoked (throw e) = throw e
  unrevoked c revoked (ok true) = throw revoked
  unrevoked c revoked (ok false) = ok c

  unfoldable pub authenticate_payload : ℕ → Bool → Keys S → Result Claims → Result Principal
  unfolding unrevoked principal
  authenticate_payload now up keys (throw e) = throw e
  authenticate_payload now up keys (ok c) =
      elim (unrevoked c (Raise.unauthorized Code.token_revoked)
        (is_token_revoked S c.jti now up keys)) [ throw e ↦ throw e | ok c' ↦ ok (principal c') ]

  -- `authenticate`, of the token that the header carries.
  unfoldable pub authenticate : Option Token → ℕ → Bool → Keys S → Result Principal
  unfolding authenticate_payload
  authenticate none now up keys = throw (Raise.unauthorized Code.token_missing)
  authenticate (some t) now up keys =
      authenticate_payload now up keys (verify_access_token S.jwt t now)

  audited : Bool → Option ℕ → Action → Option ℕ → World S.database → World S.database
  audited up user_id action resource_id w = record w {
    audit =
        record_audit up (record { user_id = user_id; action = action; resource_id = resource_id })
          w.audit;
  }

  logged : Bool → Option ℕ → Action → Site S → Site S
  unfolding audited
  logged up user_id action s = record s { world = audited up user_id action user_id s.world }

  -- `loginUser` of an account that was found. The token pair is its result.
  login_found : User → String → AuthCtx → Site S → Result (User × Token × Token) × Site S
  unfolding logged
  login_found u password c s =
      let failed = logged c.ctx.audit_up (some u.id) Action.login_failed s in
      if S.bcrypt.compare password u.password_hash
      then (if u.is_active
          then (
            ok (
              u,
              sign_access_token S.jwt u c.ctx.new_id c.ctx.now,
              sign_refresh_token S.jwt u c.refresh_jti c.ctx.now,
            ),
            logged c.ctx.audit_up (some u.id) Action.user_login s,
          )
          else (throw Raise.forbidden, s))
      else (throw invalid_credentials, failed)

  login_with : Option User → String → AuthCtx → Site S → Result (User × Token × Token) × Site S
  unfolding login_found logged
  login_with none password c s =
      let ignored = S.bcrypt.compare password timing_safe_dummy_hash in
      (throw invalid_credentials, logged c.ctx.audit_up none Action.login_failed s)
  login_with (some u) password c s = login_found u password c s

  unfoldable pub login_user :
      String → String → AuthCtx → Site S → Result (User × Token × Token) × Site S
  unfolding login_with
  login_user email password c s = login_with (find_by_email S email s.world) password c s

  refresh_for : Option User → AuthCtx → Site S → Result Token × Site S
  unfolding logged
  refresh_for none c s = (throw (Raise.unauthorized Code.account_inactive), s)
  refresh_for (some u) c s =
      if u.is_active
      then (
        ok (sign_access_token S.jwt u c.ctx.new_id c.ctx.now),
        logged c.ctx.audit_up (some u.id) Action.token_refreshed s,
      )
      else (throw (Raise.unauthorized Code.account_inactive), s)

  refresh_payload : AuthCtx → Site S → Result Claims → Result Token × Site S
  unfolding unrevoked refresh_for
  refresh_payload c s (throw e) = (throw e, s)
  refresh_payload c s (ok p) =
      elim (unrevoked p (Raise.unauthorized Code.token_revoked)
        (is_token_revoked S p.jti c.ctx.now c.redis_up s.keys)) [
          | throw e ↦ (throw e, s)
          | ok p' ↦ refresh_for (S.database.users.find p'.sub s.world.users) c s
        ]

  -- `refreshAccessToken`
  unfoldable pub refresh_access_token : Token → AuthCtx → Site S → Result Token × Site S
  unfolding refresh_payload
  refresh_access_token t c s = refresh_payload c s (verify_refresh_token S.jwt t c.ctx.now)

  -- The `try` around the refresh token: whatever it throws is swallowed.
  swallowed : Keys S → Result Bool × Keys S → Bool × Keys S
  swallowed keys (throw e, after) = (false, keys)
  swallowed keys (ok b, after) = (b, after)

  revoke_claims : ℕ → ℕ → Bool → Keys S → Result Claims → Bool × Keys S
  unfolding swallowed
  revoke_claims user_id now up keys (throw e) = (false, keys)
  revoke_claims user_id now up keys (ok p) =
      if p.sub == user_id
      then swallowed keys (revoke_token S p.jti (seconds_until_expiry p.exp now) now up keys)
      else (false, keys)

  revoke_refresh : ℕ → Option Token → ℕ → Bool → Keys S → Bool × Keys S
  unfolding revoke_claims
  revoke_refresh user_id none now up keys = (false, keys)
  revoke_refresh user_id (some t) now up keys =
      revoke_claims user_id now up keys (verify_refresh_token S.jwt t now)

  logout_rest :
      Principal → Option Token → AuthCtx → Site S → Result Bool × Keys S → Result Revoked × Site S
  unfolding revoke_refresh logged
  logout_rest p t c s (throw e, keys) = (throw e, s)
  logout_rest p t c s (ok first, keys) =
      let r = revoke_refresh p.id t c.ctx.now c.redis_still_up keys in
      (
        ok (record { access_token = first; refresh_token = r.0 }),
        logged c.ctx.audit_up (some p.id) Action.user_logout (record s { keys = r.1 }),
      )

  -- `logoutUser`
  unfoldable pub logout_user : Principal → Option Token → AuthCtx → Site S → Result Revoked × Site S
  unfolding logout_rest
  logout_user p t c s =
      logout_rest p t c s
        (revoke_token S p.jti (seconds_until_expiry p.exp c.ctx.now) c.ctx.now c.redis_up s.keys)
