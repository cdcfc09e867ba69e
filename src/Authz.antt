-- ===== src/Authz.antt =====
-- app/core/authz: the roles' permissions (policies.py), and the decision on a request (engine.py).
pub mod Decision
use ai_jin_shu.Common.{
  Bool, true, false, not, ◌&&◌, ◌||◌, Option, none, some, String, str_eq, if◌then◌else◌,
}

-- Permission
pub data Permission : Type 0 where
  novel_read novel_create novel_update novel_delete novel_generate novel_rewrite : Permission
  storyboard_read storyboard_create storyboard_update storyboard_generate : Permission
  storyboard_finalize storyboard_export : Permission
  user_read user_disable user_quota_update : Permission
  system_settings_read system_settings_write : Permission

pub record Principal : Type 0 where
  pub user_uuid : Option String
  pub role : String
  pub status : String
  pub is_authenticated : Bool

pub record ResourceContext : Type 0 where
  pub resource_type : String
  pub resource_id : String
  pub owner_uuid : Option String

-- The reasons; `user_status s` stands for the text `user_status_` followed by `s`.
pub data Reason : Type 0 where
  unauthenticated permission_not_granted admin_allow : Reason
  owner_permission_no_resource owner_allow owner_mismatch role_allow : Reason
  user_status : String → Reason

pub record AuthorizationResult : Type 0 where
  pub allowed : Bool
  pub reason : Reason

-- ROLE_BASE_PERMISSIONS["user"]
abbrev pub user_permission : Permission → Bool
user_permission user_read = false
user_permission user_disable = false
user_permission user_quota_update = false
user_permission system_settings_read = false
user_permission system_settings_write = false
user_permission p = true

-- `permission in ROLE_BASE_PERMISSIONS.get(role, set())`
abbrev pub role_grants : String → Permission → Bool
role_grants role p =
    if str_eq role "admin" then true else if str_eq role "user" then user_permission p else false

-- OWNER_SCOPED_PERMISSIONS
abbrev pub is_owner_scoped : Permission → Bool
is_owner_scoped novel_read = true
is_owner_scoped novel_update = true
is_owner_scoped novel_delete = true
is_owner_scoped novel_generate = true
is_owner_scoped novel_rewrite = true
is_owner_scoped storyboard_read = true
is_owner_scoped storyboard_update = true
is_owner_scoped storyboard_generate = true
is_owner_scoped storyboard_finalize = true
is_owner_scoped storyboard_export = true
is_owner_scoped p = false

-- `resource.owner_uuid and principal.user_uuid == resource.owner_uuid`
abbrev pub owns : Option String → Option String → Bool
owns user none = false
owns none (some owner) = false
owns (some user) (some owner) = not (str_eq owner "") && str_eq user owner

abbrev pub answer : Bool → Reason → AuthorizationResult
answer allowed reason = record { allowed = allowed; reason = reason }

abbrev pub owner_answer : Principal → Option ResourceContext → AuthorizationResult
owner_answer p none = answer true owner_permission_no_resource
owner_answer p (some r) =
    if owns p.user_uuid r.owner_uuid then answer true owner_allow else answer false owner_mismatch

-- `authorize`
unfoldable pub authorize : Principal → Permission → Option ResourceContext → AuthorizationResult
authorize p permission resource =
    if not p.is_authenticated
    then answer false unauthenticated
    else if str_eq p.status "disabled"
    then answer false (user_status "disabled")
    else if str_eq p.status "pending_activation"
    then answer false (user_status "pending_activation")
    else if not (str_eq p.status "active")
    then answer false (user_status p.status)
    else if not (role_grants p.role permission)
    then answer false permission_not_granted
    else if str_eq p.role "admin"
    then answer true admin_allow
    else if is_owner_scoped permission
    then owner_answer p resource
    else answer true role_allow
