-- ===== src/Users/Directory.antt =====
-- shared/infrastructure/sign_in_directory.py: a user is looked up by address within one seat, which is
-- a tenant or the outside of all tenants; the look-ups of a tenant in
-- tenant_directory.py.
use fastapitemplate.Common.Text.{is_empty}
use fastapitemplate.Common.{
  ℕ, String, Bool, true, false, not, ◌&&◌, Option, none, some, List, [], ◌∷◌, nat_eq, string_eq,
  option_eq, ◌==◌, none_or, if◌then◌else◌,
}
use fastapitemplate.Users.{User, Tenant}

-- `account_with_email`: the first row that the query of `_seat` and the address give.
unfoldable pub account_with_email :
    List User → (email : String) → (tenant_id : Option ℕ) → Option User
account_with_email [] email tenant_id = none
account_with_email (u ∷ users) email tenant_id =
    if u.tenant_id == tenant_id && u.email == email
    then some u
    else account_with_email users email tenant_id

-- `email_taken`
unfoldable pub email_taken :
    List User → (email : String) → (tenant_id except_user_id : Option ℕ) → Bool
email_taken [] email tenant_id except_user_id = false
email_taken (u ∷ users) email tenant_id except_user_id =
    if u.tenant_id == tenant_id
      && u.email == email
      && none_or (λ id. not (u.id == id)) except_user_id
    then true
    else email_taken users email tenant_id except_user_id

-- `tenant_named`
unfoldable pub tenant_named : List Tenant → (slug : String) → Option Tenant
tenant_named [] slug = none
tenant_named (t ∷ tenants) slug = if t.slug == slug then some t else tenant_named tenants slug

-- `sole_tenant`
unfoldable pub sole_tenant : List Tenant → Option Tenant
sole_tenant (t ∷ []) = some t
sole_tenant _ = none

-- `tenant_issuing`
unfoldable pub tenant_issuing : List Tenant → (issuer : String) → Option Tenant
tenant_issuing [] issuer = none
tenant_issuing (t ∷ tenants) issuer =
    if is_empty issuer
    then none
    else if t.issuer == some issuer
    then some t
    else tenant_issuing tenants issuer

-- `entrance_tenant`
unfoldable pub entrance_tenant : List Tenant → (slug : Option String) → Option Tenant
unfolding tenant_named sole_tenant
entrance_tenant tenants none = sole_tenant tenants
entrance_tenant tenants (some slug) =
    if is_empty slug then sole_tenant tenants else tenant_named tenants slug

-- `account_with_email(session, email, tenant.id) if tenant is not None else None`
unfoldable pub account_in : List User → (email : String) → Option Tenant → Option User
unfolding account_with_email
account_in users email none = none
account_in users email (some tenant) = account_with_email users email (some tenant.id)

-- The branch of `account_signing_in` without the name of a tenant.
unfoldable pub account_without_slug : List User → List Tenant → (email : String) → Option User
unfolding account_with_email account_in sole_tenant
account_without_slug users tenants email = elim (account_with_email users email none) [
  | some outsider ↦ some outsider
  | none ↦ account_in users email (sole_tenant tenants)
]

-- `account_signing_in`
unfoldable pub account_signing_in :
    List User → List Tenant → (email : String) → (tenant_slug : Option String) → Option User
unfolding account_in account_without_slug tenant_named
account_signing_in users tenants email none = account_without_slug users tenants email
account_signing_in users tenants email (some slug) =
    if is_empty slug
    then account_without_slug users tenants email
    else account_in users email (tenant_named tenants slug)
