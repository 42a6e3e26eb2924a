-- ===== src/Tokens/Access.antt =====
-- An access token is read back as the principal that it was written for.
use fastapitemplate.Common.Clock.{second, seconds}
use fastapitemplate.Common.Decimal.{str, int-str}
use fastapitemplate.Common.Lists.{contains}
use fastapitemplate.Common.Results.{done}
use fastapitemplate.Common.Text.{is_empty}
use fastapitemplate.Common.Value.{Fields, get, join, texts_of-texts}
use fastapitemplate.Common.{
  false, if◌then◌else◌, ℕ, ◌*◌, ◌/◌, ◌+◌, ◌≤◌, ◌<◌, ◌≡◌, refl, ◌∙◌, String, Option, none, some,
  or_else, arith, List, ◌&&◌, string_eq,
}
use fastapitemplate.Authority.Rules.{contains-keep}
use fastapitemplate.SessionCookies.{SessionCarryOver, or_new}
use fastapitemplate.Tokens.{
  Jwt, TokenSettings, Database, access_claims, base_claims, effective, needs_two_factor_setup,
  create_access_token, create_token_pair, create_machine_access_token, machine_claims,
  machine_scopes,
}
use fastapitemplate.Tokens.Claims.{
  AuthenticatedPrincipal, check_access, principal_of, machine_client_of,
}
use fastapitemplate.Tokens.Reading.{verify_access_token}
use fastapitemplate.Tokens.Carry.{
  ReadsBack, as_text-optional_text, as_int-optional_number, machine_client-tail,
}
use fastapitemplate.Users.{User, permission_codes_of}

-- The person that an access token stands for, from the user and what the login carries over.
abbrev pub principal_for :
    TokenSettings
    → Database
    → User
    → SessionCarryOver
    → (scopes : Option (List String)) → (issued : ℕ) → AuthenticatedPrincipal
principal_for settings db user carry scopes issued = record {
  user_id = user.id;
  email = user.email;
  username = user.username;
  permissions = effective settings db user carry scopes;
  active_role = carry.active_role;
  authenticated_at = some (or_else carry.authenticated_at issued / second * second);
  tenant_id = user.tenant_id;
  machine_client_id = none;
  two_factor_setup_required = needs_two_factor_setup settings db user carry;
}

check_access-access_claims :
    (settings : TokenSettings) (db : Database) (user : User) (carry : SessionCarryOver)
    (scopes : Option (List String)) (id : Option String) (issued : ℕ)
    → check_access (
        access_claims settings db user carry
          (base_claims settings user carry id issued)
          scopes
          issued)
      ≡ done (principal_for settings db user carry scopes issued)
unfolding check_access access_claims base_claims join
check_access-access_claims settings db user carry scopes id issued =
    rw
      (
        int-str user.id,
        principal_of,
        machine_client_of,
        machine_client-tail carry.federated_login id,
        texts_of-texts (effective settings db user carry scopes),
        as_text-optional_text carry.active_role,
        as_int-optional_number user.tenant_id,
      )
      refl

verify-read :
    {Token : Type 0} (jwt : Jwt Token) (settings : TokenSettings) (token : Token) (now : ℕ)
    (claims : Fields)
    → jwt.decode token settings.jwt_secret_key settings.access_token_audience
        settings.access_token_issuer 0 now
      ≡ done claims
    → verify_access_token jwt settings token now ≡ check_access claims
unfolding verify_access_token
verify-read jwt settings token now claims e = rw (e, verify_access_token) refl

-- Any token with the claims of an access token is read back, while it has not expired.
verify-access_claims :
    {Token : Type 0} (jwt : Jwt Token) (law : ReadsBack jwt) (settings : TokenSettings)
    (db : Database) (user : User) (carry : SessionCarryOver) (scopes : Option (List String))
    (id : Option String) (issued now : ℕ)
    → issued ≤ now
    → now < (issued + seconds settings.access_token_expires_seconds) / second * second
    → verify_access_token jwt settings
        (jwt.encode
          (access_claims settings db user carry
            (base_claims settings user carry id issued)
            scopes
            issued)
          settings.jwt_secret_key)
        now
      ≡ done (principal_for settings db user carry scopes issued)
unfolding access_claims base_claims get
verify-access_claims jwt law settings db user carry scopes id issued now past fresh =
    let claims =
      access_claims settings db user carry (base_claims settings user carry id issued) scopes
        issued in
    verify-read jwt settings _ now claims (
      law claims settings.jwt_secret_key settings.access_token_audience settings.access_token_issuer
        (str user.id) (issued / second)
        ((issued + seconds settings.access_token_expires_seconds) / second) 0 now refl refl refl
        refl refl (omega arith) (omega arith))
    ∙ check_access-access_claims settings db user carry scopes id issued

-- The access token of a login, from either entrance, is read back as the principal it was written for,
-- until it expires: the same user, address, name, tenant and active role, the time of the sign-in to the
-- second, the permissions that were decided on, the mark of a missing second factor, and no machine.
pub verify-create :
    {Token : Type 0} (jwt : Jwt Token) (law : ReadsBack jwt) (settings : TokenSettings)
    (db : Database) (user : User) (carry : SessionCarryOver) (scopes : Option (List String))
    (refresh_expires_at : Option ℕ) (id jti : String) (issued now : ℕ)
    → issued ≤ now
    → now < (issued + seconds settings.access_token_expires_seconds) / second * second
    → (verify_access_token jwt settings
          (create_token_pair jwt settings db user scopes carry refresh_expires_at id jti
            issued).access_token
          now
        ≡ done (principal_for settings db user carry scopes issued))
      × (verify_access_token jwt settings
            (create_access_token jwt settings db user carry issued)
            now
          ≡ done (principal_for settings db user carry none issued))
unfolding create_token_pair create_access_token
verify-create jwt law settings db user carry scopes refresh_expires_at id jti issued now past
      fresh =
    (
      verify-access_claims jwt law settings db user carry scopes
          (some (or_new carry.refresh_session_id id)) issued now past fresh,
      verify-access_claims jwt law settings db user carry none none issued now past fresh,
    )

-- The principal of a machine's token.
abbrev pub machine_principal :
    User → (client_id : String) → (operations : List String) → AuthenticatedPrincipal
machine_principal user client_id operations = record {
  user_id = user.id;
  email = user.email;
  username = user.username;
  permissions = machine_scopes user operations;
  active_role = none;
  authenticated_at = some 0;
  tenant_id = user.tenant_id;
  machine_client_id = if is_empty client_id then none else some client_id;
  two_factor_setup_required = false;
}

pub check_access-machine_claims :
    (settings : TokenSettings) (user : User) (client_id : String) (operations : List String)
    (now : ℕ)
    → check_access (machine_claims settings user client_id operations now)
      ≡ done (machine_principal user client_id operations)
unfolding check_access machine_claims
check_access-machine_claims settings user client_id operations now =
    rw
      (
        int-str user.id,
        texts_of-texts (machine_scopes user operations),
        as_int-optional_number user.tenant_id,
      )
      refl

-- A permission in a machine's token is one that some role of the user grants in the user's seat and that
-- the client was allowed, and both suffice; the token names the client and no role, and its sign-in is
-- the epoch, which no check of a recent one accepts.
pub verify-machine :
    {Token : Type 0} (jwt : Jwt Token) (law : ReadsBack jwt) (settings : TokenSettings)
    (user : User) (client_id : String) (operations : List String) (code : String) (issued now : ℕ)
    → issued ≤ now
    → now < (issued + seconds settings.access_token_expires_seconds) / second * second
    → (verify_access_token jwt settings
          (create_machine_access_token jwt settings user client_id operations issued).token
          now
        ≡ done (machine_principal user client_id operations))
      × (contains code (machine_principal user client_id operations).permissions
          ≡ (contains code (permission_codes_of user none) && contains code operations))
unfolding create_machine_access_token machine_claims get machine_scopes
verify-machine jwt law settings user client_id operations code issued now past fresh = (
  verify-read jwt settings _ now (machine_claims settings user client_id operations issued) (
        law (machine_claims settings user client_id operations issued) settings.jwt_secret_key
          settings.access_token_audience settings.access_token_issuer (str user.id)
          (issued / second) ((issued + seconds settings.access_token_expires_seconds) / second) 0
          now refl refl refl refl refl (omega arith) (omega arith))
      ∙ check_access-machine_claims settings user client_id operations issued,
  contains-keep (λ c. contains c operations) code (permission_codes_of user none),
)
