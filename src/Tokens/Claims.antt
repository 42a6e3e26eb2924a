-- ===== src/Tokens/Claims.antt =====
-- token_service.py: what is read from the claims of a token. Only a token that was signed with the
-- application's key passes `decode`, so `str` and `frozenset` of values that no such token has are
-- left out.
use fastapitemplate.Common.Clock.{second}
use fastapitemplate.Common.Decimal.{int}
use fastapitemplate.Common.Results.{Result, raised, done}
use fastapitemplate.Common.Text.{is_empty}
use fastapitemplate.Common.Value.{
  Value, Fields, array, get, has, as_text, as_int, is_true, texts_of,
}
use fastapitemplate.Common.{
  ℕ, ◌*◌, String, Bool, not, Option, none, some, List, [], or_else, nat_eq, string_eq, option_eq,
  ◌==◌, if◌then◌else◌,
}
use fastapitemplate.Federation.{FederatedLogin}
use fastapitemplate.RefreshSessions.{RefreshStanding}
use fastapitemplate.SessionCookies.{SessionCarryOver}
use fastapitemplate.Users.{User}

-- The reasons of `verify_access_token_with_reason`
pub data Refusal : Type 0 where
  token_expired token_invalid not_access_token token_outdated : Refusal

pub record AuthenticatedPrincipal : Type 0 where
  pub user_id : ℕ
  pub email : String
  pub username : String
  pub permissions : List String
  pub active_role : Option String
  pub authenticated_at : Option ℕ
  pub tenant_id : Option ℕ
  pub machine_client_id : Option String
  pub two_factor_setup_required : Bool

pub record RefreshedSession : Type 0 where
  pub user : User
  pub active_role : Option String
  pub federated_login : Option FederatedLogin
  pub authenticated_at : ℕ
  pub signed_in_with_passkey : Bool
  pub refresh_session_id : String
  pub jti : String
  pub standing : RefreshStanding

pub record ContinuedSession : Type 0 where
  pub user_id : ℕ
  pub active_role : Option String
  pub authenticated_at : ℕ
  pub signed_in_with_passkey : Bool

-- `RefreshedSession.carry`
unfoldable pub carry : RefreshedSession → SessionCarryOver
carry r = record {
  active_role = r.active_role;
  federated_login = r.federated_login;
  authenticated_at = some r.authenticated_at;
  refresh_session_id = some r.refresh_session_id;
  presented_jti = some r.jti;
  signed_in_with_passkey = r.signed_in_with_passkey;
  lifetime_from_session_id = none;
}

-- `int(claims.get("sub", ""))`; the library admits a text only, and `none` is the `ValueError`.
unfoldable pub subject_of : Fields → Option ℕ
unfolding get int as_text
subject_of claims = elim (as_text (get claims "sub")) [ none ↦ none | some s ↦ int s ]

-- `claims.get("type") != kind` fails.
unfoldable pub has_type : Fields → String → Bool
unfolding get as_text
has_type claims kind = as_text (get claims "type") == some kind

-- `_from_microseconds`
abbrev pub from_microseconds : ℕ → ℕ
from_microseconds value = value

-- The login of `_federated_login_of` from its three claims.
abbrev pub login_from :
    Option String → Option String → Option ℕ → (session_id : Option String) → Option FederatedLogin
login_from (some issuer) (some subject) (some started_at) session_id = some (record {
  session = record { issuer = issuer; subject = subject; session_id = session_id };
  started_at = from_microseconds started_at;
})
login_from _ _ _ session_id = none

-- `_federated_login_of`
unfoldable pub login_of : Fields → Option FederatedLogin
unfolding get as_text as_int
login_of claims =
    login_from (as_text (get claims "fed_iss")) (as_text (get claims "fed_sub"))
      (as_int (get claims "fed_iat")) (as_text (get claims "sid"))

-- `_authenticated_at_of`, where `SIGNED_IN_LONG_AGO` is the epoch.
unfoldable pub authenticated_at_of : Fields → ℕ
unfolding get as_int
authenticated_at_of claims = or_else (as_int (get claims "auth_time")) 0 * second

-- `_tenant_of`
unfoldable pub tenant_of : Fields → Option ℕ
unfolding get as_int
tenant_of claims = as_int (get claims "tenant")

-- `_machine_client_of`
unfoldable pub machine_client_of : Fields → Option String
unfolding get as_text
machine_client_of claims = elim (as_text (get claims "machine_client")) [
  | none ↦ none
  | some value ↦ if is_empty value then none else some value
]

-- `_active_role_of`
unfoldable pub active_role_of : Fields → Option String
unfolding get as_text
active_role_of claims = as_text (get claims "active_role")

-- `frozenset(claims.get("scope") or ())`
unfoldable pub scopes_in : Value → List String
unfolding texts_of
scopes_in (array items) = texts_of items
scopes_in _ = []

-- The principal of `verify_access_token_with_reason`
unfoldable pub principal_of : Fields → (user_id : ℕ) → AuthenticatedPrincipal
unfolding scopes_in get as_text active_role_of authenticated_at_of tenant_of machine_client_of
    is_true
principal_of claims user_id = record {
  user_id = user_id;
  email = or_else (as_text (get claims "email")) "";
  username = or_else (as_text (get claims "username")) "";
  permissions = scopes_in (get claims "scope");
  active_role = active_role_of claims;
  authenticated_at = some (authenticated_at_of claims);
  tenant_id = tenant_of claims;
  machine_client_id = machine_client_of claims;
  two_factor_setup_required = is_true (get claims "two_factor_setup");
}

-- The checks of `verify_access_token_with_reason` on decoded claims
unfoldable pub check_access : Fields → Result Refusal AuthenticatedPrincipal
unfolding has_type has subject_of principal_of
check_access claims =
    if not (has_type claims "access")
    then raised not_access_token
    else if not (has claims "tenant")
    then raised token_outdated
    else elim (subject_of claims) [
      | none ↦ raised token_invalid
      | some user_id ↦ done (principal_of claims user_id)
    ]
