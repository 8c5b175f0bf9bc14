-- ===== src/Auth/Sessions/Login.antt =====
-- What a login answers, and what a stranger learns from it.
use transactguard.Prelude.{
  ◌≡◌, refl, inl, inr, String, Bool, true, false, Option, none, some, Bool-cases,
}
use transactguard.Errors.{ok, throw}
use transactguard.Schema.{User}
use transactguard.Tokens.{sign_access_token, sign_refresh_token}
use transactguard.Auth.{Services, Site, AuthCtx, find_by_email}
use transactguard.Auth.Sessions.{Token, invalid_credentials, login_found, login_with, login_user}

module _ (S : Services) where
  -- What an answer gives away: `knows` says whether the password is that of an account.
  abbrev pub knows : Option User → String → Bool
  knows none password = false
  knows (some u) password = S.bcrypt.compare password u.password_hash

  abbrev pub active : Option User → Bool
  active none = false
  active (some u) = u.is_active

  login_with-stranger :
      (o : Option User) (password : String) (c : AuthCtx) (s : Site S)
      → knows o password ≡ false
      → (login_with S o password c s).0 ≡ throw invalid_credentials
  unfolding login_with login_found
  login_with-stranger none password c s h = refl
  login_with-stranger (some u) password c s h = rw h

  -- Who does not know the password of the account learns nothing: the answer is the same whether the
  -- email is unknown, the password is wrong, or the account is disabled as well.
  pub login_user_tells_strangers_nothing :
      (email email' password password' : String) (c c' : AuthCtx) (s s' : Site S)
      → knows (find_by_email S email s.world) password ≡ false
      → knows (find_by_email S email' s'.world) password' ≡ false
      → (login_user S email password c s).0 ≡ (login_user S email' password' c' s').0
  unfolding login_user
  login_user_tells_strangers_nothing email email' password password' c c' s s' h h' =
      let a = login_with-stranger (find_by_email S email s.world) password c s h in
      let b = login_with-stranger (find_by_email S email' s'.world) password' c' s' h' in cc

  -- A session: the account and the pair of tokens that a login returns, of the account under this
  -- email, whose password was given and which is active.
  pub record Session (c : AuthCtx) (password : String) (u : User)
      (result : User × Token S × Token S) : Type 0 where
    pub user_is : result.0 ≡ u
    pub access_is : result.1 ≡ sign_access_token S.jwt u c.ctx.new_id c.ctx.now
    pub refresh_is : result.2 ≡ sign_refresh_token S.jwt u c.refresh_jti c.ctx.now
    pub knows_password : S.bcrypt.compare password u.password_hash ≡ true
    pub is_active : u.is_active ≡ true

  login_with-ok :
      (o : Option User) (password : String) (c : AuthCtx) (s : Site S)
      (x : User × Token S × Token S)
      → (login_with S o password c s).0 ≡ ok x
      → (u : User) × (o ≡ some u) × Session c password u x
  unfolding login_with login_found
  login_with-ok none password c s x h = absurd (cc)
  login_with-ok (some u) password c s x h =
      elim (Bool-cases (S.bcrypt.compare password u.password_hash)) [
        | inr n ↦ absurd (let q = rw n at h in cc)
        | inl k ↦ elim (Bool-cases u.is_active) [
          | inr n ↦ absurd (let q = rw (k, n) at h in cc)
          | inl a ↦
              let q = rw (k, a) at h in
              (
                u,
                refl,
                record {
                  user_is = cc;
                  access_is = cc;
                  refresh_is = cc;
                  knows_password = k;
                  is_active = a;
                },
              )
        ]
      ]

  -- A login succeeds only for an active account with that email whose password was given, and then
  -- returns that account with tokens signed for it now.
  pub login_user-ok :
      (email password : String) (c : AuthCtx) (s : Site S) (x : User × Token S × Token S)
      → (login_user S email password c s).0 ≡ ok x
      → (u : User) × (find_by_email S email s.world ≡ some u) × Session c password u x
  unfolding login_user
  login_user-ok email password c s x h =
      login_with-ok (find_by_email S email s.world) password c s x h

  -- The login of an account that is found, active, and whose password is given.
  pub login_user-active :
      (email password : String) (c : AuthCtx) (s : Site S) (u : User)
      → find_by_email S email s.world ≡ some u
      → S.bcrypt.compare password u.password_hash ≡ true
      → u.is_active ≡ true
      → (login_user S email password c s).0
        ≡ ok (
          u,
          sign_access_token S.jwt u c.ctx.new_id c.ctx.now,
          sign_refresh_token S.jwt u c.refresh_jti c.ctx.now,
        )
  unfolding login_user login_with login_found
  login_user-active email password c s u f k a = rw f (rw (k, a))
