-- ===== src/Frontend/Permissions.antt =====
-- frontend/src/lib/permissions.js: what each role may do, as the interface has it.
use transactguard.Prelude.{Bool, false, ◌||◌, Option, none, some}
use transactguard.Schema.{Role, admin, analyst}
use transactguard.Auth.{same_role}

-- `user?.role === ROLES.X`
abbrev has_role : Role → Option Role → Bool
has_role r none = false
has_role r (some s) = same_role s r

pub is_admin : Option Role → Bool
is_admin role = has_role admin role

can_write : Option Role → Bool
can_write role = has_role admin role || has_role analyst role

-- The keys of `can`.
pub data Ability : Type 0 where
  create_transaction upload_csv rescore decide_case queue_job run_simulator : Ability
  delete_transaction retry_job manage_users view_deleted : Ability

unfoldable pub can : Ability → Option Role → Bool
unfolding is_admin can_write
can create_transaction role = can_write role
can upload_csv role = can_write role
can rescore role = can_write role
can decide_case role = can_write role
can queue_job role = can_write role
can run_simulator role = can_write role
can delete_transaction role = is_admin role
can retry_job role = is_admin role
can manage_users role = is_admin role
can view_deleted role = is_admin role
