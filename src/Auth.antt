-- ===== src/Auth.antt =====
-- backend/src/modules/auth/auth.service.js, with backend/src/config/redis.js (the denylist) and
-- backend/src/middleware/auth.js and requireRole.js. bcrypt, Redis and jsonwebtoken are parameters.
pub mod Sessions
pub mod Users
pub mod Gate
use text.Mathlib.Text.{◌==◌ as str_eq}
use transactguard.Prelude.{
  ℕ, ◌+◌, ◌-◌, ◌≤◌, ◌<◌, ◌≡◌, String, Bool, true, false, not, ◌&&◌, ◌||◌, Option, none, some, List,
  [], ◌∷◌, ◌++◌, leb, ltb, ◌==◌, if◌then◌else◌, is_some,
}
use transactguard.Errors.{Code, ApiError, Result, ok, throw}
use transactguard.Errors.Raise
use transactguard.Schema.{
  Database, World, Ctx, Role, admin, analyst, viewer, User, Action, record_audit,
}
use transactguard.Tokens.{
  Jwt, Claims, sign_access_token, sign_refresh_token, verify_access_token, verify_refresh_token,
  seconds_until_expiry,
}

abbrev pub same_role : Role → Role → Bool
same_role admin admin = true
same_role analyst analyst = true
same_role viewer viewer = true
same_role _ _ = false

-- Redis, as the denylist uses it: a key that is set with a time to live exists for so long.
pub record Redis : Type 1 where
  pub Keys : Type 0
  pub set_ex : (key ttl now : ℕ) → Keys → Keys
  pub exists : (key now : ℕ) → Keys → Bool
  pub exists-set_ex :
      (key ttl now j later : ℕ) (k : Keys)
      → now ≤ later
      → exists j later (set_ex key ttl now k)
        ≡ ((key == j && ltb later (now + ttl)) || (not (key == j) && exists j later k))

-- bcrypt
pub record Bcrypt : Type 0 where
  pub hash : String → String
  pub compare : String → String → Bool
  pub compare-hash : (p : String) → compare p (hash p) ≡ true

pub record Services : Type 1 where
  pub database : Database
  pub jwt : Jwt
  pub redis : Redis
  pub bcrypt : Bcrypt

-- The database and the keys of the denylist.
pub record Site (S : Services) : Type 0 where
  pub world : World S.database
  pub keys : S.redis.Keys

-- `req.user`
pub record Principal : Type 0 where
  pub id : ℕ
  pub email : Option String
  pub role : Option Role
  pub jti : ℕ
  pub exp : ℕ

-- The second new key that a login needs, for the refresh token, and whether Redis answers: the first
-- time it is asked, and when a logout asks it again.
pub record AuthCtx : Type 0 where
  pub ctx : Ctx
  pub refresh_jti : ℕ
  pub redis_up : Bool
  pub redis_still_up : Bool

-- `allowed.includes(role)`
unfoldable pub includes : List Role → Option Role → Bool
includes [] r = false
includes (a ∷ as') none = false
includes (a ∷ as') (some r) = same_role a r || includes as' (some r)

-- `requireRole(...roles)`; `none` is a request without `req.user`.
unfoldable pub role_gate : List Role → Option Principal → Result Principal
unfolding includes
role_gate allowed none = throw (Raise.unauthorized Code.unauthorized)
role_gate allowed (some u) = if includes allowed u.role then ok u else throw Raise.forbidden

module _ (S : Services) where
  abbrev pub Keys : Type 0
  Keys = S.redis.Keys

  -- `revokeToken`: whether an entry was made, and the denylist when it returns. A SET that timed out
  -- stays in the client's queue; when it is run later, that is a change by itself.
  unfoldable pub revoke_token : ℕ → ℕ → ℕ → Bool → Keys → Result Bool × Keys
  revoke_token jti ttl now up keys =
      if leb ttl 0
      then (ok false, keys)
      else (if up
          then (ok true, S.redis.set_ex jti ttl now keys)
          else (throw Raise.service_unavailable, keys))

  -- `isTokenRevoked`
  unfoldable pub is_token_revoked : ℕ → ℕ → Bool → Keys → Result Bool
  is_token_revoked jti now up keys =
      if up then ok (S.redis.exists jti now keys) else throw Raise.service_unavailable

  -- `findUnique({ where: { email } })`; the column is unique.
  abbrev pub first_found : List ℕ → World S.database → Option User
  first_found [] w = none
  first_found (id ∷ rest) w = S.database.users.find id w.users

  unfoldable pub find_by_email : String → World S.database → Option User
  find_by_email email w =
      first_found (S.database.users.find_ids (λ id u. str_eq u.email email) w.users) w
