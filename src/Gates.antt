-- ===== src/Gates.antt =====
-- presentation/fastapi/dependencies/auth.py and shared/application/authenticated_principal.py: what stands
-- in front of every route. A token is a value of the library's type; an empty text is no token, `none`.
-- A gate may record an event, so it takes the events of the request and leaves the new ones beside its
-- answer. What a gate puts into the context of the log lines is left out.
pub mod Machine
pub mod Renewal
pub mod Standing
mod Tests
use fastapitemplate.Audit.{
  AuditEvent, machine_operation_refused, machine_operation_performed, success, failure,
  record_event,
}
use fastapitemplate.Common.Clock.{seconds}
use fastapitemplate.Common.Lists.{contains, all, any, keep}
use fastapitemplate.Common.Results.{Result, raised, done}
use fastapitemplate.Common.Table.{find}
use fastapitemplate.Common.Text.{append_text, join_texts}
use fastapitemplate.Common.{
  ℕ, ◌+◌, String, Bool, true, false, not, ◌&&◌, ◌||◌, Option, none, some, List, [], ◌∷◌, is_some,
  or_else, none_or, some_and, ltb, nat_eq, string_eq, pair_eq, ◌==◌, if◌then◌else◌,
}
use fastapitemplate.Federation.{FederatedLogin}
use fastapitemplate.Machines.{MachineClient, allows, find_machine_client, client_target}
use fastapitemplate.Tokens.{Jwt, TokenSettings, Database}
use fastapitemplate.Tokens.Claims.{AuthenticatedPrincipal, Refusal}
use fastapitemplate.Tokens.Reading.{
  verify_access_token, session_is_revoked, federated_login_of, refresh_session_id_of,
  signed_in_with_passkey_of,
}
use fastapitemplate.Users.{User, user_key}

-- The errors of the gates: 401 for the first three, and 403.
pub data GateError : Type 0 where
  authentication_required : GateError
  invalid_token : (reason : Option Refusal) → GateError
  session_revoked : GateError
  machine_not_allowed two_factor_setup_required forbidden reauthentication_required : GateError

-- `AuthenticatedPrincipal.is_machine`
unfoldable pub is_machine : AuthenticatedPrincipal → Bool
is_machine principal = is_some principal.machine_client_id

-- `AuthenticatedPrincipal.can`
unfoldable pub can : AuthenticatedPrincipal → List String → Bool
can principal codes = all (λ code. contains code principal.permissions) codes

-- The header, as the scheme of the framework reads it.
pub record Credentials (Token : Type 0) : Type 0 where
  pub scheme : String
  pub credentials : Token

-- Of a request: its method, its path, and the pattern of the route that it met.
pub record Request : Type 0 where
  pub method : String
  pub path : String
  pub route : Option String

-- `_OPEN_DURING_TWO_FACTOR_SETUP`
abbrev pub open_during_two_factor_setup : List (String × String)
open_during_two_factor_setup =
    ("GET", "/api/auth/me")
    ∷ ("GET", "/api/account/security/two-factor")
    ∷ ("POST", "/api/account/security/two-factor/enrollment")
    ∷ ("POST", "/api/account/security/two-factor/confirmation")
    ∷ []

-- `_operation_of`
unfoldable pub operation_of : Request → String
operation_of request =
    append_text request.method (append_text " " (or_else request.route request.path))

-- `_refuse_machine`
unfoldable pub refuse_machine :
    List AuditEvent → AuthenticatedPrincipal → (operation why : String) → List AuditEvent
unfolding record_event
refuse_machine audit principal operation why =
    record_event audit (some principal.user_id) machine_operation_refused failure
      (client_target principal.machine_client_id)
      (some (append_text why (append_text ": " operation)))

-- `_refuse_missing_operation`; `clients` is the list of the setting `machine_clients`.
unfoldable pub refuse_missing_operation :
    List AuditEvent
    → List MachineClient
    → AuthenticatedPrincipal
    → (codes : List String) → List AuditEvent
unfolding refuse_machine find_machine_client allows
refuse_missing_operation audit clients principal codes =
    let client = find_machine_client clients (or_else principal.machine_client_id "") in
    let missing = keep (λ code. not (contains code principal.permissions)) codes in
    let outside = any (λ code. none_or (λ c. not (allows c code)) client) missing in
    refuse_machine audit principal (join_texts "," missing)
      (if outside then "not_in_allowlist" else "role_lacks_permission")

-- `_record_machine_write`
unfoldable pub record_machine_write :
    List AuditEvent → AuthenticatedPrincipal → Request → List AuditEvent
unfolding is_machine operation_of record_event
record_machine_write audit principal request =
    if not (is_machine principal) || contains request.method ("GET" ∷ "HEAD" ∷ "OPTIONS" ∷ [])
    then audit
    else record_event audit (some principal.user_id) machine_operation_performed success
        (client_target principal.machine_client_id) (some (operation_of request))

-- The answer of a gate, and the events of the request.
abbrev pub Gated : Type 0 → Type 0
Gated A = Result GateError A × List AuditEvent

-- `get_current_principal`, for a principal that was read.
unfoldable pub person_only :
    Request → List AuditEvent → AuthenticatedPrincipal → Gated AuthenticatedPrincipal
unfolding is_machine refuse_machine operation_of
person_only request audit principal =
    if is_machine principal
    then (
      raised machine_not_allowed,
      refuse_machine audit principal (operation_of request) "person_only",
    )
    else if not (contains (request.method, request.path) open_during_two_factor_setup)
        && principal.two_factor_setup_required
    then (raised two_factor_setup_required, audit)
    else (done principal, audit)

-- The refusal of `require_permission` and of `require_any_permission`
unfoldable pub refuse_missing :
    List MachineClient
    → (codes : List String) → List AuditEvent
    → AuthenticatedPrincipal
    → Gated AuthenticatedPrincipal
unfolding is_machine refuse_missing_operation
refuse_missing clients codes audit principal = (
  raised forbidden,
  if is_machine principal then refuse_missing_operation audit clients principal codes else audit,
)

-- `_check` of `require_permission`, for a principal that was read.
unfoldable pub check_permission :
    List MachineClient
    → (codes : List String) → Request
    → List AuditEvent
    → AuthenticatedPrincipal
    → Gated AuthenticatedPrincipal
unfolding can refuse_missing record_machine_write
check_permission clients codes request audit principal =
    if principal.two_factor_setup_required
    then (raised two_factor_setup_required, audit)
    else if not (can principal codes)
    then refuse_missing clients codes audit principal
    else (done principal, record_machine_write audit principal request)

-- `_check` of `require_any_permission`
unfoldable pub check_any_permission :
    List MachineClient
    → (codes : List String) → Request
    → List AuditEvent
    → AuthenticatedPrincipal
    → Gated AuthenticatedPrincipal
unfolding can refuse_missing record_machine_write
check_any_permission clients codes request audit principal =
    if principal.two_factor_setup_required
    then (raised two_factor_setup_required, audit)
    else if not (any (λ code. can principal (code ∷ [])) codes)
    then refuse_missing clients codes audit principal
    else (done principal, record_machine_write audit principal request)

-- `ensure_recent_sign_in`, as the answer whether it lets the principal through.
unfoldable pub signed_in_recently : (recent_sign_in_seconds now : ℕ) → AuthenticatedPrincipal → Bool
signed_in_recently recent_sign_in_seconds now principal =
    some_and (λ at. not (ltb (at + seconds recent_sign_in_seconds) now)) principal.authenticated_at

-- `require_recent_sign_in`, behind `get_current_principal`
unfoldable pub require_recent_sign_in :
    (recent_sign_in_seconds now : ℕ) → Gated AuthenticatedPrincipal → Gated AuthenticatedPrincipal
unfolding signed_in_recently
require_recent_sign_in recent_sign_in_seconds now (raised error, audit) = (raised error, audit)
require_recent_sign_in recent_sign_in_seconds now (done principal, audit) =
    if signed_in_recently recent_sign_in_seconds now principal
    then (done principal, audit)
    else (raised reauthentication_required, audit)

pub record CurrentSession : Type 0 where
  pub user : User
  pub federated_login : Option FederatedLogin
  pub active_role : Option String
  pub authenticated_at : Option ℕ
  pub refresh_session_id : Option String
  pub signed_in_with_passkey : Bool

-- The principal that a token was read as, if it was.
abbrev pub read_principal : Result Refusal AuthenticatedPrincipal → Option AuthenticatedPrincipal
read_principal (raised reason) = none
read_principal (done principal) = some principal

-- `principal.active_role if principal is not None else None`
abbrev pub role_in : Option AuthenticatedPrincipal → Option String
role_in none = none
role_in (some principal) = principal.active_role

abbrev pub sign_in_of : Option AuthenticatedPrincipal → Option ℕ
sign_in_of none = none
sign_in_of (some principal) = principal.authenticated_at

module _ {Token : Type 0} (jwt : Jwt Token) (settings : TokenSettings)
    (lower : String → String) where
  -- `_extract_token`
  unfoldable pub extract_token :
      Option (Credentials Token) → (access_token_cookie : Option Token) → Option Token
  extract_token none access_token_cookie = access_token_cookie
  extract_token (some header) access_token_cookie =
      if lower header.scheme == "bearer" then some header.credentials else access_token_cookie

  -- `get_operation_principal`, for the token that `_extract_token` gives.
  unfoldable pub get_operation_principal :
      Option Token → (now : ℕ) → Result GateError AuthenticatedPrincipal
  unfolding verify_access_token
  get_operation_principal none now = raised authentication_required
  get_operation_principal (some token) now = elim (verify_access_token jwt settings token now) [
    | raised reason ↦ raised (invalid_token (some reason))
    | done principal ↦ done principal
  ]

  -- A gate behind `get_operation_principal`
  unfoldable pub gate :
      {A : Type 0}
      → (List AuditEvent → AuthenticatedPrincipal → Gated A)
      → Option Token
      → (now : ℕ) → List AuditEvent
      → Gated A
  unfolding get_operation_principal
  gate check token now audit = elim (get_operation_principal token now) [
    | raised error ↦ (raised error, audit)
    | done principal ↦ check audit principal
  ]

  -- `get_current_principal`
  unfoldable pub get_current_principal :
      Request → Option Token → (now : ℕ) → List AuditEvent → Gated AuthenticatedPrincipal
  unfolding gate person_only
  get_current_principal request = gate (person_only request)

  -- `require_permission`
  unfoldable pub require_permission :
      List MachineClient
      → (codes : List String) → Request
      → Option Token
      → (now : ℕ) → List AuditEvent
      → Gated AuthenticatedPrincipal
  unfolding gate check_permission
  require_permission clients codes request = gate (check_permission clients codes request)

  -- `require_any_permission`
  unfoldable pub require_any_permission :
      List MachineClient
      → (codes : List String) → Request
      → Option Token
      → (now : ℕ) → List AuditEvent
      → Gated AuthenticatedPrincipal
  unfolding gate check_any_permission
  require_any_permission clients codes request = gate (check_any_permission clients codes request)

  -- `get_current_user`, behind `get_current_principal`
  unfoldable pub get_current_user : Database → Gated AuthenticatedPrincipal → Gated User
  unfolding find
  get_current_user db (raised error, audit) = (raised error, audit)
  get_current_user db (done principal, audit) = elim (find user_key principal.user_id db.users) [
    | none ↦ (raised (invalid_token none), audit)
    | some user ↦ (done user, audit)
  ]

  -- `get_current_user_or_none`
  unfoldable pub get_current_user_or_none : Database → Option Token → (now : ℕ) → Option User
  unfolding verify_access_token find
  get_current_user_or_none db none now = none
  get_current_user_or_none db (some token) now = elim (verify_access_token jwt settings token now) [
    | raised reason ↦ none
    | done principal ↦ find user_key principal.user_id db.users
  ]

  -- The session that `get_current_session` builds of a token that it was given.
  unfoldable pub session_with : User → Token → (now : ℕ) → CurrentSession
  unfolding verify_access_token federated_login_of refresh_session_id_of signed_in_with_passkey_of
  session_with user token now =
      let principal = read_principal (verify_access_token jwt settings token now) in
      record {
        user = user;
        federated_login = federated_login_of jwt settings token now;
        active_role = role_in principal;
        authenticated_at = sign_in_of principal;
        refresh_session_id = refresh_session_id_of jwt settings token now;
        signed_in_with_passkey = signed_in_with_passkey_of jwt settings token now;
      }

  -- `get_current_session`, for the user of `get_current_user`. There is a token then: without one that
  -- gate refuses. One reading of the clock stands for those of one request.
  unfoldable pub get_current_session :
      Database → Token → (now : ℕ) → Gated User → Gated CurrentSession
  unfolding session_is_revoked session_with
  get_current_session db token now (raised error, audit) = (raised error, audit)
  get_current_session db token now (done user, audit) =
      if session_is_revoked jwt settings token db now now
      then (raised session_revoked, audit)
      else (done (session_with user token now), audit)

  -- The whole gate in front of the routes that write new tokens.
  unfoldable pub current_session :
      Database → Request → Option Token → (now : ℕ) → List AuditEvent → Gated CurrentSession
  unfolding get_current_principal get_current_user get_current_session
  current_session db request none now audit = (raised authentication_required, audit)
  current_session db request (some token) now audit =
      get_current_session db token now
        (get_current_user db (get_current_principal request (some token) now audit))

  -- `get_settled_principal`, behind `get_current_session`
  unfoldable pub settled :
      Result GateError AuthenticatedPrincipal → Gated CurrentSession → Gated AuthenticatedPrincipal
  settled read (raised error, audit) = (raised error, audit)
  settled (raised error) (done session, audit) = (raised (invalid_token none), audit)
  settled (done principal) (done session, audit) = (done principal, audit)

  unfoldable pub get_settled_principal :
      Database → Request → Option Token → (now : ℕ) → List AuditEvent → Gated AuthenticatedPrincipal
  unfolding current_session get_operation_principal settled
  get_settled_principal db request token now audit =
      settled (get_operation_principal token now) (current_session db request token now audit)
