-- ===== src/Tokens.antt =====
-- presentation/fastapi/services/token_service.py and two_factor_requirement.py: what the signed tokens
-- say. The library that signs is a parameter: a token is what its `encode` makes of the claims. Of the
-- claims of one token only the value under a name counts, so a later entry of a Python dictionary
-- stands in front here. A datetime that is signed becomes its whole second, as the library writes it.
pub mod Claims
pub mod Reading
pub mod Carry
pub mod Access
pub mod Refreshing
pub mod Safety
pub mod Kinds
pub mod Sample
mod Tests
use fastapitemplate.Common.Clock.{second, seconds}
use fastapitemplate.Common.Decimal.{str}
use fastapitemplate.Common.Lists.{contains, keep}
use fastapitemplate.Common.Results.{Result}
use fastapitemplate.Common.Value.{
  Value, Fields, null, boolean, number, text, array, empty, field, join, texts,
}
use fastapitemplate.Common.{
  ℕ, ◌+◌, ◌*◌, ◌/◌, String, Bool, true, false, not, ◌||◌, Option, none, some, List, [], is_some,
  or_else, string_eq, if◌then◌else◌,
}
use fastapitemplate.Federation.{FederatedLogin}
use fastapitemplate.LocalFactors.{LocalFactor, factors_of}
use fastapitemplate.Passkeys.Credentials.{PasskeyCredential}
use fastapitemplate.RefreshSessions.{RefreshSession, Settings}
use fastapitemplate.Revocations.{SessionRevocation}
use fastapitemplate.SessionCookies.{SessionCarryOver, or_new}
use fastapitemplate.TwoFactor.{TotpSecret}
use fastapitemplate.Users.{User, Tenant, permission_codes_of}

pub data JwtError : Type 0 where
  expired_signature : JwtError
  invalid_token : JwtError

-- The two functions of the library `jwt`. `decode` checks the signature under the key, the audience, the
-- issuer and the times, against the clock and a leeway in microseconds.
pub record Jwt (Token : Type 0) : Type 0 where
  pub encode : Fields → (key : String) → Token
  pub decode : Token → (key audience issuer : String) → (leeway now : ℕ) → Result JwtError Fields

-- The settings that the module reads.
pub record TokenSettings : Type 0 where
  pub jwt_secret_key : String
  pub access_token_issuer : String
  pub access_token_audience : String
  pub access_token_expires_seconds : ℕ
  pub local_two_factor_required : Bool
  pub refresh : Settings

-- The tables that a session of the database gives access to.
pub record Database : Type 0 where
  pub users : List User
  pub tenants : List Tenant
  pub refresh_sessions : List RefreshSession
  pub revocations : List SessionRevocation
  pub totp_secrets : List TotpSecret
  pub passkeys : List PasskeyCredential

abbrev pub optional_text : Option String → Value
optional_text none = null
optional_text (some s) = text s

abbrev pub optional_number : Option ℕ → Value
optional_number none = null
optional_number (some n) = number n

-- `needs_two_factor_setup`
unfoldable pub needs_two_factor_setup : TokenSettings → Database → User → SessionCarryOver → Bool
unfolding factors_of
needs_two_factor_setup settings db user carry =
    if not settings.local_two_factor_required
      || is_some carry.federated_login
      || carry.signed_in_with_passkey
    then false
    else not (factors_of db.totp_secrets db.passkeys user.id).totp

-- `_to_microseconds`: a time is the number of its microseconds already. Its product of floats is exact
-- for the times up to 2038.
abbrev pub to_microseconds : ℕ → ℕ
to_microseconds moment = moment

-- The claims of `_federation_claims` for a login, with its session's id.
unfoldable pub federated_fields : FederatedLogin → (session_id : Option String) → Fields
federated_fields login session_id = field "fed_iss" (text login.session.issuer) (
    field "fed_sub" (text login.session.subject) (
      field "fed_iat" (number (to_microseconds login.started_at))
        (elim session_id [ none ↦ empty | some id ↦ field "sid" (text id) empty ])))

-- `_federation_claims`
unfoldable pub federation_claims : Option FederatedLogin → Fields
unfolding federated_fields
federation_claims none = empty
federation_claims (some login) = federated_fields login login.session.session_id

-- The claim that `_base_claims` adds for a login with a record.
abbrev pub refresh_session_claim : Option String → Fields
refresh_session_claim none = empty
refresh_session_claim (some id) = field "rsid" (text id) empty

-- `_base_claims`
unfoldable pub base_claims :
    TokenSettings
    → User
    → SessionCarryOver
    → (refresh_session_id : Option String) → (now : ℕ) → Fields
unfolding federation_claims join
base_claims settings user carry refresh_session_id now = field "sub" (text (str user.id)) (
    field "iss" (text settings.access_token_issuer) (
      field "aud" (text settings.access_token_audience) (
        field "iat" (number (now / second)) (
          field "auth_time" (number (or_else carry.authenticated_at now / second)) (
            field "active_role" (optional_text carry.active_role) (
              field "tenant" (optional_number user.tenant_id) (
                field "passkey" (boolean carry.signed_in_with_passkey) (
                  join (federation_claims carry.federated_login)
                    (refresh_session_claim refresh_session_id)))))))))

-- `granted if scopes is None else granted & set(scopes)`
abbrev pub restricted : (granted : List String) → (scopes : Option (List String)) → List String
restricted granted none = granted
restricted granted (some scopes) = keep (λ code. contains code scopes) granted

-- The permissions that `_access_token` writes; their order is left out, since they are read as a set.
unfoldable pub effective :
    TokenSettings
    → Database
    → User
    → SessionCarryOver
    → (scopes : Option (List String)) → List String
unfolding needs_two_factor_setup permission_codes_of
effective settings db user carry scopes =
    if needs_two_factor_setup settings db user carry
    then []
    else restricted (permission_codes_of user carry.active_role) scopes

-- The claims of `_access_token`; `now` is the time in the base claims.
unfoldable pub access_claims :
    TokenSettings
    → Database
    → User
    → SessionCarryOver
    → (base : Fields) → (scopes : Option (List String)) → (now : ℕ) → Fields
unfolding effective needs_two_factor_setup texts
access_claims settings db user carry base scopes now = field "type" (text "access") (
    field "scope" (array (texts (effective settings db user carry scopes))) (
      field "email" (text user.email) (
        field "username" (text user.username) (
          field "two_factor_setup" (boolean (needs_two_factor_setup settings db user carry)) (
            field "exp" (number ((now + seconds settings.access_token_expires_seconds) / second))
              base)))))

-- The claims of the refresh token in `create_token_pair`
unfoldable pub refresh_claims : (base : Fields) → (jti : String) → (expires_at : ℕ) → Fields
refresh_claims base jti expires_at =
    field "type" (text "refresh")
      (field "jti" (text jti) (field "exp" (number (expires_at / second)) base))

-- The claims of `_logout_token`
unfoldable pub logout_claims :
    TokenSettings → User → (refresh_session_id : String) → (issued_at expires_at : ℕ) → Fields
logout_claims settings user refresh_session_id issued_at expires_at =
    field "sub" (text (str user.id)) (
      field "iss" (text settings.access_token_issuer) (
        field "aud" (text settings.access_token_audience) (
          field "iat" (number (issued_at / second)) (
            field "exp" (number (expires_at / second))
              (field "type" (text "logout") (field "rsid" (text refresh_session_id) empty))))))

-- The permissions of `create_machine_access_token`
unfoldable pub machine_scopes : User → (operations : List String) → List String
unfolding permission_codes_of
machine_scopes user operations =
    keep (λ code. contains code operations) (permission_codes_of user none)

-- The claims of `create_machine_access_token`
unfoldable pub machine_claims :
    TokenSettings → User → (client_id : String) → (operations : List String) → (now : ℕ) → Fields
unfolding machine_scopes texts
machine_claims settings user client_id operations now = field "sub" (text (str user.id)) (
    field "iss" (text settings.access_token_issuer) (
      field "aud" (text settings.access_token_audience) (
        field "iat" (number (now / second)) (
          field "exp" (number ((now + seconds settings.access_token_expires_seconds) / second)) (
            field "type" (text "access") (
              field "scope" (array (texts (machine_scopes user operations))) (
                field "email" (text user.email) (
                  field "username" (text user.username) (
                    field "auth_time" (number 0) (
                      field "active_role" null (
                        field "tenant" (optional_number user.tenant_id)
                          (field "machine_client" (text client_id) empty))))))))))))

pub record MachineAccessToken (Token : Type 0) : Type 0 where
  pub token : Token
  pub expires_in : ℕ
  pub scopes : List String

pub record TokenPair (Token : Type 0) : Type 0 where
  pub access_token : Token
  pub refresh_token : Token
  pub logout_token : Token
  pub refresh_session_id : String
  pub refresh_jti : String
  pub expires_in : ℕ

module _ {Token : Type 0} (jwt : Jwt Token) (settings : TokenSettings) where
  -- `TokenService.create_access_token`
  unfoldable pub create_access_token : Database → User → SessionCarryOver → (now : ℕ) → Token
  unfolding access_claims base_claims
  create_access_token db user carry now =
      jwt.encode
        (access_claims settings db user carry (base_claims settings user carry none now) none now)
        settings.jwt_secret_key

  -- `TokenService.create_token_pair`; the two identifiers that it may draw are arguments.
  unfoldable pub create_token_pair :
      Database
      → User
      → (scopes : Option (List String)) → SessionCarryOver
      → (refresh_expires_at : Option ℕ) → (drawn_id drawn_jti : String) → (now : ℕ)
      → TokenPair Token
  unfolding access_claims base_claims refresh_claims logout_claims
  create_token_pair db user scopes carry refresh_expires_at drawn_id drawn_jti now =
      let id = or_new carry.refresh_session_id drawn_id in
      let expires_at =
        or_else refresh_expires_at (now + seconds settings.refresh.refresh_token_expires_seconds) in
      let base = base_claims settings user carry (some id) now in
      record {
        access_token =
            jwt.encode (access_claims settings db user carry base scopes now)
              settings.jwt_secret_key;
        refresh_token =
            jwt.encode (refresh_claims base drawn_jti expires_at) settings.jwt_secret_key;
        logout_token =
            jwt.encode (logout_claims settings user id now expires_at) settings.jwt_secret_key;
        refresh_session_id = id;
        refresh_jti = drawn_jti;
        expires_in = settings.access_token_expires_seconds;
      }

  -- `create_machine_access_token`
  unfoldable pub create_machine_access_token :
      User
      → (client_id : String) → (operations : List String) → (now : ℕ) → MachineAccessToken Token
  unfolding machine_claims machine_scopes
  create_machine_access_token user client_id operations now = record {
    token =
        jwt.encode (machine_claims settings user client_id operations now) settings.jwt_secret_key;
    expires_in = settings.access_token_expires_seconds;
    scopes = machine_scopes user operations;
  }
