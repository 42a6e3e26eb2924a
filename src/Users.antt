-- ===== src/Users.antt =====
-- The users, their roles and their tenants: shared/infrastructure/models/user.py, role.py and
-- tenant.py, with the queries of shared/infrastructure/sign_in_directory.py, tenant_directory.py and
-- tenant_scope.py. A user is one row here together with the membership and the session boundary that
-- stand in tables of their own. A set of permissions is a list of which only the membership is asked.
pub mod Directory
use fastapitemplate.Authority.{within_the_seat}
use fastapitemplate.Common.Lists.{keep}
use fastapitemplate.Common.Table.{find}
use fastapitemplate.Common.Text.{is_empty}
use fastapitemplate.Common.{
  ℕ, String, Bool, true, false, not, ◌&&◌, Option, none, some, List, [], ◌∷◌, ◌++◌, is_some, nat_eq,
  string_eq, option_eq, ◌==◌, some_and, none_or, if◌then◌else◌,
}

-- A role, with the codes of its permissions.
pub record Role : Type 0 where
  pub name : String
  pub permissions : List String

pub record User : Type 0 where
  pub id : ℕ
  pub email : String
  pub username : String
  pub password_hash : Option String
  pub is_active : Bool
  pub roles : List Role
  pub sessions_valid_from : Option ℕ
  pub tenant_id : Option ℕ

pub record Tenant : Type 0 where
  pub id : ℕ
  pub slug : String
  pub issuer : Option String
  pub client_id : Option String
  pub is_active : Bool

abbrev pub user_key : User → ℕ
user_key u = u.id

abbrev pub tenant_key : Tenant → ℕ
tenant_key t = t.id

-- `User.permission_codes`, and the roles' permissions in `User.permission_codes_of`
unfoldable pub permission_codes : List Role → List String
permission_codes [] = []
permission_codes (r ∷ roles) = r.permissions ++ permission_codes roles

-- `User.permission_codes_of`
unfoldable pub permission_codes_of : User → Option String → List String
unfolding within_the_seat permission_codes
permission_codes_of user none =
    within_the_seat (is_some user.tenant_id) (permission_codes user.roles)
permission_codes_of user (some role_name) =
    within_the_seat (is_some user.tenant_id)
      (permission_codes (keep (λ r. r.name == role_name) user.roles))

-- `role_name in user.role_names`
unfoldable pub has_role : List Role → String → Bool
has_role [] role_name = false
has_role (r ∷ roles) role_name = if r.name == role_name then true else has_role roles role_name

-- `User.has_local_password`
unfoldable pub has_local_password : User → Bool
has_local_password user = is_some user.password_hash

-- `User.end_sessions`; `now` is its reading of the clock.
unfoldable pub end_sessions : User → (now : ℕ) → User
end_sessions user now = record user { sessions_valid_from = some now }

-- `tenant_admits`
unfoldable pub tenant_admits : List Tenant → User → Bool
unfolding find
tenant_admits tenants user = elim user.tenant_id [
  | none ↦ true
  | some tenant_id ↦ some_and (λ t. t.is_active) (find tenant_key tenant_id tenants)
]
