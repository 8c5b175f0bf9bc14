-- ===== src/Auth/Users.antt =====
-- `registerUser`, `getUserById` and `updateUserRole` of backend/src/modules/auth/auth.service.js.
pub mod Roles
pub mod Registered
use transactguard.Prelude.{
  ℕ, ◌==◌, String, Bool, true, false, not, ◌||◌, Option, none, some, List, if◌then◌else◌,
}
use transactguard.Errors.{Code, Result, ok, throw}
use transactguard.Errors.Raise
use transactguard.Schema.{World, Ctx, Role, admin, analyst, viewer, User, Action, record_audit}
use transactguard.Auth.{Services, Principal, same_role, find_by_email}

-- `ASSIGNABLE_ROLES.includes(role)`
unfoldable pub is_assignable : Role → Bool
is_assignable analyst = true
is_assignable viewer = true
is_assignable admin = false

module _ (S : Services) where
  register_new :
      Option User
      → String
      → String
      → String
      → Role
      → Ctx
      → World S.database
      → Result User × World S.database
  register_new (some u) name email password role ctx w =
      (throw (Raise.conflict Code.email_taken), w)
  register_new none name email password role ctx w =
      let user : User = record {
        id = ctx.new_id;
        email = email;
        password_hash = S.bcrypt.hash password;
        name = name;
        role = role;
        is_active = true;
        created_at = ctx.now;
      } in
      (
        ok user,
        record w {
          users = S.database.users.put ctx.new_id user w.users;
          audit =
              record_audit ctx.audit_up
                (record {
                  user_id = some ctx.new_id;
                  action = Action.user_registered role;
                  resource_id = some ctx.new_id;
                })
                w.audit;
        },
      )

  -- `registerUser`
  unfoldable pub register_user :
      String → String → String → Role → Ctx → World S.database → Result User × World S.database
  unfolding register_new
  register_user name email password role ctx w =
      register_new (find_by_email S email w) name email password role ctx w

  found : Option User → Result User
  found none = throw Raise.not_found
  found (some u) = ok u

  -- `getUserById`
  pub get_user_by_id : ℕ → World S.database → Result User
  unfolding found
  get_user_by_id id w = found (S.database.users.find id w.users)

  write_role : ℕ → Role → Principal → User → Ctx → World S.database → Result User × World S.database
  write_role id role actor target ctx w =
      let row : User = record target { role = role } in
      (
        ok row,
        record w {
          users = S.database.users.put id row w.users;
          audit =
              record_audit ctx.audit_up
                (record {
                  user_id = some actor.id;
                  action = Action.user_role_changed target.role role;
                  resource_id = some id;
                })
                w.audit;
        },
      )

  change_role :
      ℕ → Role → Principal → Ctx → World S.database → Option User → Result User × World S.database
  unfolding write_role
  change_role id role actor ctx w none = (throw Raise.not_found, w)
  change_role id role actor ctx w (some target) =
      if same_role target.role admin
      then (throw Raise.forbidden, w)
      else (if same_role target.role role
          then (ok target, w)
          else write_role id role actor target ctx w)

  -- `updateUserRole`
  unfoldable pub update_user_role :
      ℕ → Role → Principal → Ctx → World S.database → Result User × World S.database
  unfolding change_role
  update_user_role id role actor ctx w =
      if not (is_assignable role)
      then (throw Raise.bad_request, w)
      else (if id == actor.id
          then (throw Raise.forbidden, w)
          else change_role id role actor ctx w (S.database.users.find id w.users))
