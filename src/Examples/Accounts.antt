-- ===== src/Examples/Accounts.antt =====
-- Accounts, sessions and tokens.
use transactguard.Prelude.{
  ℕ, ◌+◌, ◌≡◌, refl, Bool, true, false, not, ◌&&◌, ◌||◌, some, List, [], ◌∷◌, leb, ltb, ◌==◌,
  if◌then◌else◌, All,
}
use text.Mathlib.Text.{◌==◌ as str_eq}
use text.Mathlib.TextPositions.{eq_refl}
use transactguard.Errors.{ok}
use transactguard.Errors.Raise
use transactguard.Schema.{admin, analyst, viewer, User}
use transactguard.Tokens.{
  Jwt, Claims, Secret, access_secret, refresh_secret, Verified, expired, invalid, payload,
  sign_access_token, sign_refresh_token,
}
use transactguard.Tokens.Bearer.{IsPlain, is_space}
use transactguard.Auth.{Redis, Bcrypt, Services, Site, Principal, AuthCtx, find_by_email}
use transactguard.Auth.Sessions.{login_user, logout_user}
use transactguard.Auth.Sessions.Login.{login_user_tells_strangers_nothing}
use transactguard.Auth.Sessions.Logout.{caller}
use transactguard.Auth.Users.{update_user_role, register_user}
use transactguard.Auth.Users.Registered.{register_then_login}
use transactguard.Auth.Users.Roles.{holds_admin, update_user_role_keeps_admins}
use transactguard.Examples.Store.{store}
use transactguard.Examples.Data.{ctx, world, user}

-- A token that names its secret and carries its claims.
abbrev same_secret : Secret → Secret → Bool
same_secret access_secret access_secret = true
same_secret refresh_secret refresh_secret = true
same_secret _ _ = false

abbrev plain_verify : Secret → Secret × Claims → ℕ → Verified
plain_verify s (s', c) now =
    if same_secret s s' then (if leb c.exp now then expired else payload c) else invalid

pub plain-verify-sign :
    (s : Secret) (c : Claims) (now : ℕ)
    → plain_verify s (s, c) now ≡ (if leb c.exp now then expired else payload c)
plain-verify-sign access_secret c now = refl
plain-verify-sign refresh_secret c now = refl

abbrev jwt : Jwt
jwt = record {
  Token = Secret × Claims;
  sign = λ s c. (s, c);
  jwt_verify = plain_verify;
  verify-sign = plain-verify-sign;
  verify-sign_access = λ c now. refl;
  verify-sign_refresh = λ c now. refl;
}

-- The keys with the times at which they go.
abbrev keys_exists : ℕ → ℕ → List (ℕ × ℕ) → Bool
keys_exists key now [] = false
keys_exists key now ((k, until) ∷ rest) =
    (k == key && ltb now until) || (not (k == key) && keys_exists key now rest)

abbrev redis : Redis
redis = record {
  Keys = List (ℕ × ℕ);
  set_ex = λ key ttl now k. (key, now + ttl) ∷ k;
  exists = keys_exists;
  exists-set_ex = λ key ttl now j later k le. refl;
}

abbrev bcrypt : Bcrypt
bcrypt = record { hash = λ p. p; compare = str_eq; compare-hash = eq_refl }

abbrev pub services : Services
services = record { database = store; jwt = jwt; redis = redis; bcrypt = bcrypt }

abbrev pub ann : User
ann = user 4 "ann" analyst

abbrev site : Site services
site = record { world = world; keys = [] }

abbrev at : ℕ → AuthCtx
at now = record {
  ctx = record { now = now; audit_up = true; new_id = 60 };
  refresh_jti = 61;
  redis_up = true;
  redis_still_up = true;
}

abbrev scheme : List ℕ
scheme = 66 ∷ 101 ∷ 97 ∷ 114 ∷ 101 ∷ 114 ∷ []

abbrev word : List ℕ
word = 97 ∷ 98 ∷ []

scheme-IsPlain : All IsPlain scheme
unfolding is_space
scheme-IsPlain = (refl, (refl, (refl, (refl, (refl, (refl, tt))))))

word-IsPlain : All IsPlain word
unfolding is_space
word-IsPlain = (refl, (refl, tt))

abbrev later_site : Site services
later_site =
    (logout_user services (caller services ann 60 61 0) (some (sign_refresh_token jwt ann 61 0))
      (at 100) site).1

login_user_tells_strangers_nothing_example :
    (login_user services "nobody" "x" (at 5) site).0 ≡ (login_user services "ann" "y" (at 5) site).0
unfolding find_by_email
login_user_tells_strangers_nothing_example =
    login_user_tells_strangers_nothing services "nobody" "ann" "x" "y" (at 5) (at 5) site site refl
      refl

abbrev root : Principal
root = record { id = 5; email = some "root"; role = some admin; jti = 70; exp = 900 }

update_user_role_keeps_admins_example :
    holds_admin (store.users.find 4 (update_user_role services 4 viewer root ctx world).1.users)
    ≡ holds_admin (store.users.find 4 world.users)
update_user_role_keeps_admins_example =
    update_user_role_keeps_admins services 4 viewer root ctx world 4

abbrev bob : User
bob = record {
  id = 50;
  email = "bob";
  password_hash = "pw";
  name = "Bob";
  role = viewer;
  is_active = true;
  created_at = 20;
}

abbrev with_bob : Site services
with_bob = record {
  world = (register_user services "Bob" "bob" "pw" viewer ctx world).1;
  keys = [];
}

register_then_login_example :
    (login_user services "bob" "pw" (at 30) with_bob).0
    ≡ ok (bob, sign_access_token jwt bob 60 30, sign_refresh_token jwt bob 61 30)
unfolding register_user find_by_email
register_then_login_example =
    register_then_login services "Bob" "bob" "pw" viewer ctx world bob (at 30) with_bob refl refl
