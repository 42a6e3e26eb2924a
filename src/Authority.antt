-- ===== src/Authority.antt =====
-- Roles, permissions and the rules for handing them out: shared/domain/auth/master_data.py and
-- shared/domain/auth/authority.py. A set of codes is a list of which only the membership is asked.
pub mod Rules
mod Tests
use fastapitemplate.Common.Lists.{contains, keep}
use fastapitemplate.Common.Table.{find}
use fastapitemplate.Common.{
  ℕ, String, Bool, true, false, not, ◌&&◌, Option, none, some, List, [], ◌∷◌, ◌++◌, string_eq,
  if◌then◌else◌,
}

-- `ROLES`
abbrev pub roles : List (ℕ × String)
roles =
    (1, "owner")
    ∷ (2, "manager")
    ∷ (3, "member")
    ∷ (4, "guest")
    ∷ (5, "system-admin")
    ∷ (6, "user-admin")
    ∷ (7, "auditor")
    ∷ (8, "system-support")
    ∷ (9, "content-admin")
    ∷ []

-- `PERMISSION_CODES`
abbrev pub permission_codes : List String
permission_codes =
    "system-settings:view" ∷ "system-settings:write" ∷ "system:view" ∷ "system:manage" ∷ "log:view"
    ∷ "tenant:view" ∷ "tenant:manage" ∷ "content-settings:view" ∷ "content-settings:write"
    ∷ "user:manage" ∷ "role:manage" ∷ "audit:view" ∷ "dashboard:view" ∷ "gui:view" ∷ "item:view"
    ∷ "item:write" ∷ "note:view" ∷ "note:write" ∷ "group:manage" ∷ "notification:send" ∷ []

-- `SYSTEM_PERMISSIONS`
abbrev pub system_permissions : List String
system_permissions =
    "system-settings:view" ∷ "system-settings:write" ∷ "system:view" ∷ "system:manage" ∷ "log:view"
    ∷ "tenant:view" ∷ "tenant:manage" ∷ []

-- `SYSTEM_ROLES`
abbrev pub system_roles : List String
system_roles = "system-admin" ∷ "system-support" ∷ []

-- `_TENANT_PERMISSIONS`
unfoldable pub tenant_permissions : List String
tenant_permissions = keep (λ code. not (contains code system_permissions)) permission_codes

-- `ROLE_PERMISSIONS`, whose keys are the constructors.
pub data Role : Type 0 where
  owner manager member guest system_admin system_support user_admin content_admin auditor : Role

unfoldable pub role_permissions : Role → List String
unfolding tenant_permissions
role_permissions owner = tenant_permissions
role_permissions manager =
    "item:view" ∷ "item:write" ∷ "note:view" ∷ "note:write" ∷ "dashboard:view" ∷ "gui:view" ∷ []
role_permissions member = "item:view" ∷ "note:view" ∷ "dashboard:view" ∷ "gui:view" ∷ []
role_permissions guest = "dashboard:view" ∷ "gui:view" ∷ []
role_permissions system_admin =
    system_permissions ++ "audit:view" ∷ "dashboard:view" ∷ "gui:view" ∷ []
role_permissions system_support = "system:view" ∷ "tenant:view" ∷ "dashboard:view" ∷ "gui:view" ∷ []
role_permissions user_admin =
    "user:manage" ∷ "group:manage" ∷ "item:view" ∷ "note:view" ∷ "dashboard:view" ∷ "gui:view" ∷ []
role_permissions content_admin =
    "content-settings:view" ∷ "content-settings:write" ∷ "item:view" ∷ "note:view"
    ∷ "dashboard:view" ∷ "gui:view" ∷ []
role_permissions auditor =
    "audit:view" ∷ "content-settings:view" ∷ "dashboard:view" ∷ "gui:view" ∷ []

-- A member of `SYSTEM_ROLES`
abbrev pub is_system_role : Role → Bool
is_system_role system_admin = true
is_system_role system_support = true
is_system_role _ = false

-- `ADMINISTRATION_CORE`
abbrev pub administration_core : List String
administration_core = "user:manage" ∷ "role:manage" ∷ []

unfoldable pub beyond : (actor required : List String) → List String
beyond actor required = keep (λ code. not (contains code actor)) required

-- The symmetric difference of the two sets.
unfoldable pub changed : (before after : List String) → List String
changed before after =
    keep (λ code. not (contains code after)) before
    ++ keep (λ code. not (contains code before)) after

-- `_SYSTEM_SEAT_PERMISSIONS`
unfoldable pub system_seat_permissions : List String
unfolding role_permissions
system_seat_permissions = role_permissions system_admin ++ role_permissions system_support

unfoldable pub within_the_seat : (in_tenant : Bool) → (granted : List String) → List String
unfolding system_seat_permissions
within_the_seat true granted = keep (λ code. not (contains code system_permissions)) granted
within_the_seat false granted = keep (λ code. contains code system_seat_permissions) granted
