-- ===== src/AppTokens/Entrance.antt =====
-- presentation/app_bearer.py of bounded_contexts/identity_federation: the entrance that takes a token of an
-- application or one of this application. What the request carries is read from its headers.
use fastapitemplate.Accounts.{Policies}
use fastapitemplate.Accounts.Mapping.{ClaimsMapping}
use fastapitemplate.Audit.{AuditEvent}
use fastapitemplate.Common.Results.{Result, raised, done, and_then}
use fastapitemplate.Common.Table.{find}
use fastapitemplate.Common.Value.{Value}
use fastapitemplate.Common.{
  ℕ, String, Bool, true, false, not, ◌&&◌, ◌||◌, Option, none, some, List, [], is_some, or_else,
  nat_eq, string_eq, ◌==◌, if◌then◌else◌,
}
use fastapitemplate.DpopProofs.{ProofLibrary, DpopProofReplay}
use fastapitemplate.Gates.{
  GateError, machine_not_allowed, two_factor_setup_required, Credentials, is_machine,
  refuse_machine, get_operation_principal, extract_token,
}
use fastapitemplate.Tokens.{Jwt, TokenSettings}
use fastapitemplate.Tokens.Claims.{AuthenticatedPrincipal}
use fastapitemplate.Tokens.Reading.{verify_access_token}
use fastapitemplate.Users.{User, Tenant, user_key, tenant_admits, permission_codes_of}
use fastapitemplate.Users.Directory.{tenant_issuing}
use fastapitemplate.AppTokens.{
  AppTokenAcceptance, PresentedAppToken, AppTokenError, AppTokenGateway, AppTables,
  authenticate_app,
}

-- The errors of the entrance for applications; `user_inactive` is its own 401.
pub data EntranceError : Type 0 where
  user_inactive : EntranceError
  gate_error : GateError → EntranceError
  app_error : AppTokenError → EntranceError

-- `authenticate_app_access_token`, the part of the acceptance
unfoldable pub acceptance_for : Option Tenant → (client_ids : List String) → AppTokenAcceptance
acceptance_for none client_ids = record { issuer = ""; client_ids = client_ids }
acceptance_for (some tenant) client_ids = record {
  issuer = if tenant.is_active then or_else tenant.issuer "" else "";
  client_ids = client_ids;
}

-- `_principal_of_app_token` for the row of the user
unfoldable pub principal_for :
    List Tenant → Option User → Result EntranceError AuthenticatedPrincipal
unfolding tenant_admits permission_codes_of
principal_for tenants none = raised user_inactive
principal_for tenants (some user) =
    if not user.is_active || not (tenant_admits tenants user)
    then raised user_inactive
    else done (record {
      user_id = user.id;
      email = user.email;
      username = user.username;
      permissions = permission_codes_of user none;
      active_role = none;
      authenticated_at = none;
      tenant_id = user.tenant_id;
      machine_client_id = none;
      two_factor_setup_required = false;
    })

-- `get_app_or_web_principal` for a token of this application
unfoldable pub person_of_web :
    List AuditEvent
    → Result GateError AuthenticatedPrincipal
    → Result EntranceError AuthenticatedPrincipal × List AuditEvent
unfolding is_machine refuse_machine
person_of_web audit (raised error) = (raised (gate_error error), audit)
person_of_web audit (done principal) =
    if is_machine principal
    then (
      raised (gate_error machine_not_allowed),
      refuse_machine audit principal "app_or_web" "person_only",
    )
    else if principal.two_factor_setup_required
    then (raised (gate_error two_factor_setup_required), audit)
    else (done principal, audit)

-- A request to the entrance: the two headers that may carry a token, and the rest of `_AppRequest`.
pub record AppRequest (Token Proof : Type 0) : Type 0 where
  pub credentials : Option (Credentials Token)
  pub dpop_token : Option Token
  pub proof : Option Proof
  pub id_token : Option Token
  pub method : String
  pub uri : String

-- `_AppRequest.presented`
unfoldable pub presented_as :
    {Token Proof : Type 0} → AppRequest Token Proof → Token → PresentedAppToken Token Proof
presented_as request token = record {
  token = token;
  dpop = is_some request.dpop_token;
  proof = request.proof;
  method = request.method;
  uri = request.uri;
  id_token = request.id_token;
}

-- `_AppRequest.app_token`
unfoldable pub app_token :
    {Token Proof : Type 0} → (lower : String → String) → AppRequest Token Proof → Option Token
app_token lower request = elim request.dpop_token [
  | some token ↦ some token
  | none ↦ elim request.credentials [
    | none ↦ none
    | some header ↦ if lower header.scheme == "bearer" then some header.credentials else none
  ]
]

abbrev pub is_read : {E A : Type 0} → Result E A → Bool
is_read (raised _) = false
is_read (done _) = true

module _ {Token Proof : Type 0} (lib : ProofLibrary Token Proof) (gateway : AppTokenGateway Token)
    (show : Value → String) (lower : String → String) (mapping : ClaimsMapping)
    (policies : Policies) (jwt : Jwt Token) (settings : TokenSettings)
    (unverified_issuer_of : Token → String) (client_ids : List String) (users : List User)
    (tenants : List Tenant) where
  -- `_principal_of_app_token`, with the table of used proofs that it leaves. The user is looked up in the
  -- table after the writes, which is `users`.
  unfoldable pub principal_of_app_token :
      AppTables
      → PresentedAppToken Token Proof
      → (checked_at recorded_at : ℕ)
      → Result EntranceError (AuthenticatedPrincipal × List DpopProofReplay)
  unfolding authenticate_app acceptance_for tenant_issuing find principal_for
  principal_of_app_token tables presented checked_at recorded_at =
      let tenant = tenant_issuing tenants (unverified_issuer_of presented.token) in
      elim (authenticate_app lib gateway show lower mapping policies
        (acceptance_for tenant client_ids) tables presented checked_at recorded_at) [
          | raised error ↦ raised (app_error error)
          | done ((user_id, writes), replays) ↦
              and_then (principal_for tenants (find user_key user_id users))
                (λ principal. done (principal, replays))
        ]

  -- `_is_our_token`, for a token that did not come with a proof.
  unfoldable pub is_our_token : AppRequest Token Proof → Token → (now : ℕ) → Bool
  unfolding verify_access_token
  is_our_token request token now =
      not (is_some request.dpop_token) && is_read (verify_access_token jwt settings token now)

  -- `get_app_or_web_principal`, for a request without a token of an application.
  unfoldable pub web_principal :
      AppTables
      → AppRequest Token Proof
      → Option Token
      → List AuditEvent
      → (now : ℕ)
      → Result EntranceError (AuthenticatedPrincipal × List DpopProofReplay) × List AuditEvent
  unfolding person_of_web get_operation_principal extract_token
  web_principal tables request cookie audit now =
      let (answer, events) = person_of_web audit (
        get_operation_principal jwt settings lower
          (extract_token jwt settings lower request.credentials cookie) now) in
      (and_then answer (λ principal. done (principal, tables.replays)), events)

  -- `get_app_or_web_principal`
  unfoldable pub get_app_or_web_principal :
      AppTables
      → AppRequest Token Proof
      → Option Token
      → List AuditEvent
      → (now checked_at recorded_at : ℕ)
      → Result EntranceError (AuthenticatedPrincipal × List DpopProofReplay) × List AuditEvent
  unfolding app_token presented_as principal_of_app_token is_our_token web_principal
  get_app_or_web_principal tables request cookie audit now checked_at recorded_at =
      elim (app_token lower request) [
        | none ↦ web_principal tables request cookie audit now
        | some token ↦ elim client_ids [
          | [] ↦ web_principal tables request cookie audit now
          | _ ↦
              if is_our_token request token now
              then web_principal tables request cookie audit now
              else (
                principal_of_app_token tables (presented_as request token) checked_at recorded_at,
                audit,
              )
        ]
      ]
