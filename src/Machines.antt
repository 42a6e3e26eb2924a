-- ===== src/Machines.antt =====
-- How a machine comes in: domain/value_objects/machine_client.py and machine_claims.py,
-- application/use_cases/exchange_machine_token.py, infrastructure/sql_machine_actors.py and
-- presentation/machine_router.py of bounded_contexts/identity_federation. The check of the token's
-- signature (the gateway) and the reading of its issuer before that check are parameters.
pub mod Entrance
mod Tests
use fastapitemplate.Audit.{
  AuditEvent, AuditTarget, machine_client, success, failure, machine_token_issued,
  machine_token_refused, record_event,
}
use fastapitemplate.Common.Lists.{contains}
use fastapitemplate.Common.Results.{Result, raised, done}
use fastapitemplate.Common.Table.{find}
use fastapitemplate.Common.Text.{is_empty, strip, append_text}
use fastapitemplate.Common.Value.{
  Value, Items, Fields, object, array, text, nil, cons, get, as_text, stripped_text,
}
use fastapitemplate.Common.{
  ℕ, String, Bool, not, ◌&&◌, ◌||◌, Option, none, some, List, [], ◌∷◌, or_else, nat_eq, string_eq,
  option_eq, ◌==◌, if◌then◌else◌,
}
use fastapitemplate.Passkeys.Credentials.{take_text}
use fastapitemplate.Tokens.{Jwt, TokenSettings, MachineAccessToken, create_machine_access_token}
use fastapitemplate.Users.{User, Tenant, user_key}
use fastapitemplate.Users.Directory.{account_with_email, tenant_issuing}

pub record MachineClient : Type 0 where
  pub client_id : String
  pub name : String
  pub acts_as : String
  pub operations : List String

-- `MachineClient.allows`
unfoldable pub allows : MachineClient → (operation : String) → Bool
allows client operation = contains operation client.operations

-- The texts of a list that are not blank, without the space around them.
unfoldable pub stripped_texts : Items → List String
unfolding strip
stripped_texts nil = []
stripped_texts (cons (text s) items) =
    let rest = stripped_texts items in if is_empty (strip s) then rest else strip s ∷ rest
stripped_texts (cons _ items) = stripped_texts items

-- `_operations`
unfoldable pub operations_of : Value → List String
unfolding stripped_texts
operations_of (array items) = stripped_texts items
operations_of _ = []

-- `left or right` for texts
abbrev pub text_or : String → String → String
text_or left right = if is_empty left then right else left

-- The row that `parse_machine_clients` makes of an entry, if it keeps it.
unfoldable pub client_of : Fields → Option MachineClient
unfolding stripped_text get operations_of
client_of entry =
    let client_id = stripped_text (get entry "client_id") in
    let acts_as = stripped_text (get entry "acts_as") in
    if is_empty client_id || is_empty acts_as
    then none
    else some (record {
      client_id = client_id;
      name = text_or (stripped_text (get entry "name")) client_id;
      acts_as = acts_as;
      operations = operations_of (get entry "operations");
    })

-- `parse_machine_clients`
unfoldable pub parse_machine_clients : Items → List MachineClient
unfolding client_of
parse_machine_clients nil = []
parse_machine_clients (cons (object entry) raw) =
    let clients = parse_machine_clients raw in
    elim (client_of entry) [ none ↦ clients | some client ↦ client ∷ clients ]
parse_machine_clients (cons _ raw) = parse_machine_clients raw

abbrev pub client_key : MachineClient → String
client_key client = client.client_id

-- `find_machine_client`
unfoldable pub find_machine_client :
    List MachineClient → (client_id : String) → Option MachineClient
unfolding find
find_machine_client clients client_id = find client_key client_id clients

pub data MachineError : Type 0 where
  machine_entrance_closed machine_token_invalid identity_provider_unavailable : MachineError
  machine_client_not_registered machine_actor_not_found : (client_id : String) → MachineError

-- `MachineClaims.from_claims`
unfoldable pub from_claims : Fields → Result MachineError String
unfolding get as_text
from_claims claims =
    if not (as_text (get claims "sub_type") == some "client")
    then raised machine_token_invalid
    else elim (as_text (get claims "sub")) [
      | none ↦ raised machine_token_invalid
      | some subject ↦
          if is_empty subject || not (as_text (get claims "client_id") == some subject)
          then raised machine_token_invalid
          else done subject
    ]

pub record MachineEntrance : Type 0 where
  pub audience : String
  pub clients : List MachineClient

-- `MachineEntrance.is_open`
unfoldable pub is_open : MachineEntrance → Bool
is_open entrance = elim entrance.clients [
  | [] ↦ Bool.false
  | client ∷ clients ↦ not (is_empty entrance.audience)
]

pub record MachineSession : Type 0 where
  pub user_id : ℕ
  pub client : MachineClient

-- `user.id if user is not None and user.is_active else None`
abbrev pub active_id : Option User → Option ℕ
active_id none = none
active_id (some user) = if user.is_active then some user.id else none

-- `SqlMachineActors.active_user_id`
unfoldable pub active_user_id : List User → (tenant_id : ℕ) → (email : String) → Option ℕ
unfolding account_with_email
active_user_id users tenant_id email = active_id (account_with_email users email (some tenant_id))

-- `ExchangeMachineToken.execute` for the row that the list of clients has.
unfoldable pub act_as :
    List User
    → (tenant_id : ℕ) → (client_id : String) → Option MachineClient
    → Result MachineError MachineSession
unfolding active_user_id
act_as users tenant_id client_id none = raised (machine_client_not_registered client_id)
act_as users tenant_id client_id (some client) =
    elim (active_user_id users tenant_id client.acts_as) [
      | none ↦ raised (machine_actor_not_found client_id)
      | some user_id ↦ done (record { user_id = user_id; client = client })
    ]

-- What the router answers, beside the exceptions that it passes on.
pub data MachineAnswer (Token : Type 0) : Type 0 where
  -- 401, which gives no reason
  machine_authentication_required : MachineAnswer Token
  -- 502
  unavailable : MachineAnswer Token
  issued : MachineAccessToken Token → (acts_as client_name : String) → MachineAnswer Token

-- `error.code`
abbrev pub machine_error_code : MachineError → String
machine_error_code machine_entrance_closed = "machine_entrance_closed"
machine_error_code machine_token_invalid = "machine_token_invalid"
machine_error_code identity_provider_unavailable = "identity_provider_unavailable"
machine_error_code (machine_client_not_registered client_id) = "machine_client_not_registered"
machine_error_code (machine_actor_not_found client_id) = "machine_actor_not_found"

-- The client that an error names
abbrev pub named_client : MachineError → Option String
named_client (machine_client_not_registered client_id) = some client_id
named_client (machine_actor_not_found client_id) = some client_id
named_client _ = none

abbrev pub client_target : Option String → Option AuditTarget
client_target identifier = some (record { type = machine_client; identifier = identifier })

-- `_refused`
unfoldable pub refused :
    {Token : Type 0} → List AuditEvent → MachineError → MachineAnswer Token × List AuditEvent
unfolding record_event
refused audit error = (
  machine_authentication_required,
  record_event audit none machine_token_refused failure (client_target (named_client error))
      (some (machine_error_code error)),
)

module _ {Token : Type 0} (jwt : Jwt Token) (settings : TokenSettings)
    (unverified_issuer_of : Token → String)
    (verify_machine_token : (issuer audience : String) → Token → Result MachineError Fields) where
  -- `ExchangeMachineToken.execute` on the answer of the gateway.
  unfoldable pub exchange_claims :
      MachineEntrance
      → List User
      → (tenant_id : ℕ) → Result MachineError Fields
      → Result MachineError MachineSession
  unfolding from_claims find_machine_client act_as
  exchange_claims entrance users tenant_id (raised error) = raised error
  exchange_claims entrance users tenant_id (done claims) = elim (from_claims claims) [
    | raised error ↦ raised error
    | done client_id ↦
        act_as users tenant_id client_id (find_machine_client entrance.clients client_id)
  ]

  -- `ExchangeMachineToken.execute`
  unfoldable pub exchange_machine_token :
      MachineEntrance
      → (issuer : String) → List User
      → (tenant_id : ℕ) → Token
      → Result MachineError MachineSession
  unfolding is_open exchange_claims
  exchange_machine_token entrance issuer users tenant_id token =
      if not (is_open entrance)
      then raised machine_entrance_closed
      else if is_empty issuer
      then raised machine_token_invalid
      else exchange_claims entrance users tenant_id
          (verify_machine_token issuer entrance.audience token)

  -- `_exchange` for the tenant of the issuer, and its `execute`.
  unfoldable pub exchange_at :
      MachineEntrance → List User → Option Tenant → Token → Result MachineError MachineSession
  unfolding exchange_machine_token
  exchange_at entrance users none token = exchange_machine_token entrance "" users 0 token
  exchange_at entrance users (some tenant) token =
      if tenant.is_active && not (is_empty (or_else tenant.issuer ""))
      then exchange_machine_token entrance (or_else tenant.issuer "") users tenant.id token
      else exchange_machine_token entrance "" users 0 token

  -- `_issue`
  unfoldable pub issue_for :
      List User
      → List AuditEvent
      → (now : ℕ) → MachineSession
      → MachineAnswer Token × List AuditEvent
  unfolding create_machine_access_token record_event find
  issue_for users audit now session = elim (find user_key session.user_id users) [
    | none ↦ (machine_authentication_required, audit)
    | some user ↦ (
      issued
          (create_machine_access_token jwt settings user session.client.client_id
            session.client.operations now)
          session.client.acts_as session.client.name,
      record_event audit (some user.id) machine_token_issued success
          (client_target (some session.client.client_id))
          (some (take_text 255 (append_text "client=" session.client.name))),
    )
  ]

  -- The `try` of `issue_machine_token` on the answer of the exchange.
  unfoldable pub answer_exchange :
      List User
      → List AuditEvent
      → (now : ℕ) → Result MachineError MachineSession
      → MachineAnswer Token × List AuditEvent
  unfolding issue_for refused
  answer_exchange users audit now (raised identity_provider_unavailable) = (unavailable, audit)
  answer_exchange users audit now (raised error) = refused audit error
  answer_exchange users audit now (done session) = issue_for users audit now session

  -- `issue_machine_token`, behind the header that carries the token.
  unfoldable pub issue_machine_token :
      MachineEntrance
      → List User
      → List Tenant
      → List AuditEvent
      → (now : ℕ) → Option Token
      → MachineAnswer Token × List AuditEvent
  unfolding exchange_at answer_exchange tenant_issuing
  issue_machine_token entrance users tenants audit now none =
      (machine_authentication_required, audit)
  issue_machine_token entrance users tenants audit now (some token) =
      answer_exchange users audit now
        (exchange_at entrance users (tenant_issuing tenants (unverified_issuer_of token)) token)
