-- ===== src/Auth/Sessions/Logout.antt =====
-- What a logout makes of the two tokens of a session.
use transactguard.Prelude.{
  ℕ, ◌+◌, ◌≤◌, ◌≡◌, refl, ◌==◌, Bool, false, none, some, Option, List, [], ◌∷◌,
}
use transactguard.Errors.{Result, ok, throw}
use transactguard.Errors.Raise
use transactguard.Schema.{User}
use transactguard.Tokens.{
  Claims, verify_refresh_token, access_token_ttl, sign_access_token, sign_refresh_token,
  seconds_until_expiry,
}
use transactguard.Auth.{Services, Site, Principal, AuthCtx, Keys, revoke_token}
use transactguard.Auth.Sessions.{Revoked, swallowed, logout_user}

-- A call of `revokeToken`.
pub record Revocation : Type 0 where
  pub jti : ℕ
  pub ttl : ℕ
  pub now : ℕ
  pub up : Bool

module _ (S : Services) where
  abbrev pub revoke_all : List Revocation → Keys S → Keys S
  revoke_all [] keys = keys
  revoke_all (v ∷ vs) keys = revoke_all vs (revoke_token S v.jti v.ttl v.now v.up keys).1

  module _ (u : User) (jti refresh_jti issued : ℕ) where
    abbrev access : S.jwt.Token
    access = sign_access_token S.jwt u jti issued

    abbrev refresh : S.jwt.Token
    refresh = sign_refresh_token S.jwt u refresh_jti issued

    -- A revocation of another token, no later than this.
    abbrev pub Other : ℕ → Revocation → Type 0
    Other later v = (v.now ≤ later) × ((v.jti == jti) ≡ false)

    -- `req.user` of a request that carries the access token.
    abbrev pub caller : Principal
    caller = record {
      id = u.id;
      email = some u.email;
      role = some u.role;
      jti = jti;
      exp = issued + access_token_ttl;
    }

    swallowed-keys :
        (keys : Keys S) (r : Result Bool × Keys S)
        → (swallowed S keys r).1 ≡ (elim r.0 [ throw e ↦ keys | ok b ↦ r.1 ])
    unfolding swallowed
    swallowed-keys keys (throw e, after) = refl
    swallowed-keys keys (ok b, after) = refl

    -- The token of the body names another key of the denylist than the access token.
    abbrev pub OtherToken : Option S.jwt.Token → ℕ → Type 0
    OtherToken none now = Unit
    OtherToken (some t) now =
        (p : Claims) → verify_refresh_token S.jwt t now ≡ ok p → (p.jti == jti) ≡ false

    module _ (c : AuthCtx) (s : Site S) (r : Revoked) (body : Option S.jwt.Token) where
      -- The denylist after the logout.
      abbrev after : Keys S
      after = (logout_user S caller body c s).1.keys

      abbrev first : Result Bool × Keys S
      first =
          revoke_token S jti (seconds_until_expiry (issued + access_token_ttl) c.ctx.now) c.ctx.now
            c.redis_up s.keys
