-- ===== src/Auth/Users/Registered.antt =====
-- A registration, and the login that follows it.
use text.Mathlib.TextPositions.{eq_refl}
use text.Mathlib.Text.{◌==◌ as str_eq}
use transactguard.Prelude.{
  ℕ, ◌≡◌, refl, sym, ◌∙◌, ap, inl, inr, String, ◌==◌, ==_refl, Bool, true, false, Option, none,
  some, List, [], ◌∷◌, arith, Bool-cases, elem, matches,
}
use transactguard.Errors.{ok}
use transactguard.Schema.{World, Ctx, Role, User}
use transactguard.Tokens.{sign_access_token, sign_refresh_token}
use transactguard.Auth.{Services, Site, AuthCtx, first_found, find_by_email}
use transactguard.Auth.Sessions.{login_user}
use transactguard.Auth.Sessions.Login.{login_user-active}
use transactguard.Auth.Users.{register_new, register_user}

-- `where: { email }`
abbrev has_email : String → ℕ → User → Bool
has_email email id u = str_eq u.email email

module _ (S : Services) where
  -- The first key of a list whose keys are those of the rows with this email.
  first_found-some :
      (l : List ℕ) (p : ℕ → User → Bool) (w : World S.database) (id : ℕ) (u : User)
      → ((j : ℕ) → elem j l ≡ matches p j (S.database.users.find j w.users))
      → S.database.users.find id w.users ≡ some u
      → p id u ≡ true
      → ((j : ℕ) → (id == j) ≡ false → matches p j (S.database.users.find j w.users) ≡ false)
      → first_found S l w ≡ some u
  first_found-some [] p w id u law f m alone = absurd (let q = law id in let r = rw f at q in cc)
  first_found-some (k ∷ l) p w id u law f m alone = elim (Bool-cases (id == k)) [
    | inl same ↦ ground arith
    | inr other ↦ absurd (let q = law k in let a = alone k other in ground arith)
  ]

  first_found-none :
      (l : List ℕ) (p : ℕ → User → Bool) (w : World S.database)
      → ((j : ℕ) → elem j l ≡ matches p j (S.database.users.find j w.users))
      → first_found S l w ≡ none
      → (j : ℕ) → matches p j (S.database.users.find j w.users) ≡ false
  first_found-none [] p w law e j = let q = law j in cc
  first_found-none (k ∷ l) p w law e j = absurd (let q = law k in let r = rw e at q in ground arith)

  module _ (name email password : String) (role : Role) (ctx : Ctx) (w : World S.database) where
    abbrev after : World S.database
    after = (register_user S name email password role ctx w).1

    -- The account that a registration makes.
    pub record Registered (u : User) : Type 0 where
      pub free : find_by_email S email w ≡ none
      pub stored : S.database.users.find ctx.new_id after.users ≡ some u
      pub others :
          (j : ℕ)
          → (ctx.new_id == j) ≡ false
          → S.database.users.find j after.users ≡ S.database.users.find j w.users
      pub email_is : u.email ≡ email
      pub role_is : u.role ≡ role
      pub password_is : S.bcrypt.compare password u.password_hash ≡ true
      pub active : u.is_active ≡ true

    register_new-ok :
        (o : Option User) (u : User)
        → find_by_email S email w ≡ o
        → (register_new S o name email password role ctx w).0 ≡ ok u
        → let w' = (register_new S o name email password role ctx w).1 in
          (o ≡ none)
          × (S.database.users.find ctx.new_id w'.users ≡ some u)
          × ((j : ℕ)
              → (ctx.new_id == j) ≡ false
              → S.database.users.find j w'.users ≡ S.database.users.find j w.users)
          × (u.email ≡ email)
          × (u.role ≡ role)
          × (S.bcrypt.compare password u.password_hash ≡ true)
          × (u.is_active ≡ true)
    unfolding register_new
    register_new-ok (some x) u e h = absurd (cc)
    register_new-ok none u e h =
        let row : User = record {
          id = ctx.new_id;
          email = email;
          password_hash = S.bcrypt.hash password;
          name = name;
          role = role;
          is_active = true;
          created_at = ctx.now;
        } in
        let same : row ≡ u = cc in
        let law = λ (j : ℕ). S.database.users.find-put ctx.new_id j row w.users in
        (
          refl,
          law ctx.new_id ∙ (rw (==_refl ctx.new_id) (ap some same)),
          λ j ne. law j ∙ (rw ne),
          ap (λ (v : User). v.email) (sym same),
          ap (λ (v : User). v.role) (sym same),
          rw (sym same) (S.bcrypt.compare-hash password),
          ap (λ (v : User). v.is_active) (sym same),
        )

    -- A registration succeeds only for an email that no account has; it stores, under the new key, an
    -- active account with the role that was asked for and a hash of the password, and changes no other.
    pub register_user-ok :
        (u : User) → (register_user S name email password role ctx w).0 ≡ ok u → Registered u
    unfolding register_user
    register_user-ok u h =
        let (f, s, o, e, r, p, a) = register_new-ok (find_by_email S email w) u refl h in
        record {
          free = f;
          stored = s;
          others = o;
          email_is = e;
          role_is = r;
          password_is = p;
          active = a;
        }

    Registered-found : (u : User) → Registered u → find_by_email S email after ≡ some u
    unfolding find_by_email
    Registered-found u r =
        let p = has_email email in
        let T = S.database.users in
        first_found-some (T.find_ids p after.users) p after ctx.new_id u
          (λ j. T.elem-find_ids p after.users j) r.stored (rw r.email_is (eq_refl email))
          (λ j ne. rw (r.others j ne) (
            first_found-none (T.find_ids p w.users) p w (λ i. T.elem-find_ids p w.users i) r.free
              j))

    -- Who has registered can log in at once with the same email and password, and gets tokens for
    -- the account that was made.
    pub register_then_login :
        (u : User) (c : AuthCtx) (s : Site S)
        → (register_user S name email password role ctx w).0 ≡ ok u
        → s.world ≡ after
        → (login_user S email password c s).0
          ≡ ok (
            u,
            sign_access_token S.jwt u c.ctx.new_id c.ctx.now,
            sign_refresh_token S.jwt u c.refresh_jti c.ctx.now,
          )
    register_then_login u c s h e =
        let r = register_user-ok u h in
        login_user-active S email password c s u (rw e (Registered-found u r)) r.password_is
          r.active
