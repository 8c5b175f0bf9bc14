-- ===== src/Tokens.antt =====
-- backend/src/utils/tokens.js: the tokens of a session. jsonwebtoken is not in the repository: it is
-- the parameter `Jwt`. Times are in seconds; a text that is walked is the list of its code points.
pub mod Bearer
pub mod Sessions
use Prim.Native.Char.{code}
use transactguard.Prelude.{
  ℕ, ◌+◌, ◌-◌, ◌≤◌, ◌<◌, ◌≡◌, String, Bool, true, false, ◌&&◌, ◌||◌, Option, none, some, List, [],
  ◌∷◌, leb, ltb, ◌==◌, if◌then◌else◌,
}
use transactguard.Errors.{Code, ApiError, Result, ok, throw}
use transactguard.Errors.Raise
use transactguard.Schema.{Role, User}

-- `ACCESS_TOKEN_TTL` and `REFRESH_TOKEN_TTL`: fifteen minutes, seven days.
abbrev pub access_token_ttl : ℕ
access_token_ttl = 900

abbrev pub refresh_token_ttl : ℕ
refresh_token_ttl = 604800

-- `env.JWT_SECRET` and `env.JWT_REFRESH_SECRET`
pub data Secret : Type 0 where
  access_secret refresh_secret : Secret

-- The claim `type`.
pub data TokenType : Type 0 where
  access refresh : TokenType

pub record Claims : Type 0 where
  pub sub : ℕ
  pub email : Option String
  pub role : Option Role
  pub type : TokenType
  pub jti : ℕ
  pub exp : ℕ

-- What `jwt.verify` comes to.
pub data Verified : Type 0 where
  expired invalid : Verified
  payload : Claims → Verified

abbrev pub same_type : TokenType → TokenType → Bool
same_type access access = true
same_type refresh refresh = true
same_type _ _ = false

-- jsonwebtoken, with the issuer and the audience that the code always passes. A token verifies
-- against the secret that signed it until it expires, and against no other.
pub record Jwt : Type 1 where
  pub Token : Type 0
  pub sign : Secret → Claims → Token
  pub jwt_verify : Secret → Token → ℕ → Verified
  pub verify-sign :
      (s : Secret) (c : Claims) (now : ℕ)
      → jwt_verify s (sign s c) now ≡ (if leb c.exp now then expired else payload c)
  pub verify-sign_access :
      (c : Claims) (now : ℕ) → jwt_verify refresh_secret (sign access_secret c) now ≡ invalid
  pub verify-sign_refresh :
      (c : Claims) (now : ℕ) → jwt_verify access_secret (sign refresh_secret c) now ≡ invalid

-- `Math.max(0, payload.exp - Math.floor(Date.now() / 1000))`
unfoldable pub seconds_until_expiry : ℕ → ℕ → ℕ
seconds_until_expiry exp now = exp - now

module _ (J : Jwt) where
  -- `jti` is a new UUID.
  unfoldable pub access_claims : User → ℕ → ℕ → Claims
  access_claims u jti now = record {
    sub = u.id;
    email = some u.email;
    role = some u.role;
    type = access;
    jti = jti;
    exp = now + access_token_ttl;
  }

  unfoldable pub refresh_claims : User → ℕ → ℕ → Claims
  refresh_claims u jti now = record {
    sub = u.id;
    email = none;
    role = none;
    type = refresh;
    jti = jti;
    exp = now + refresh_token_ttl;
  }

  unfoldable pub sign_access_token : User → ℕ → ℕ → J.Token
  unfolding access_claims
  sign_access_token u jti now = J.sign access_secret (access_claims u jti now)

  unfoldable pub sign_refresh_token : User → ℕ → ℕ → J.Token
  unfolding refresh_claims
  sign_refresh_token u jti now = J.sign refresh_secret (refresh_claims u jti now)

  checked : TokenType → Verified → Result Claims
  checked expected expired = throw (Raise.unauthorized Code.token_expired)
  checked expected invalid = throw (Raise.unauthorized Code.token_invalid)
  checked expected (payload c) =
      if same_type c.type expected then ok c else throw (Raise.unauthorized Code.token_wrong_type)

  verify : J.Token → Secret → TokenType → ℕ → Result Claims
  unfolding checked
  verify token secret expected now = checked expected (J.jwt_verify secret token now)

  unfoldable pub verify_access_token : J.Token → ℕ → Result Claims
  unfolding verify
  verify_access_token token now = verify token access_secret access now

  unfoldable pub verify_refresh_token : J.Token → ℕ → Result Claims
  unfolding verify
  verify_refresh_token token now = verify token refresh_secret refresh now
