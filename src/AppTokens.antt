-- ===== src/AppTokens.antt =====
-- How an application on a device comes in, in bounded_contexts/identity_federation:
-- application/use_cases/authenticate_app_access_token.py. The gateway, which
-- checks signatures and asks the identity provider, and Python's `str` of a value that is not a text are
-- parameters. A token and a proof that a header carries are not empty.
pub mod Entrance
pub mod Possession
mod Tests
use fastapitemplate.Accounts.{
  FederatedUser, AccountError, Policies, Directory, ResolvedAccount, Write, resolve,
}
use fastapitemplate.Accounts.Mapping.{ClaimsMapping, apply}
use fastapitemplate.Audit.{AuditEvent}
use fastapitemplate.Common.Clock.{seconds}
use fastapitemplate.Common.Decimal.{int}
use fastapitemplate.Common.Lists.{contains}
use fastapitemplate.Common.Results.{Result, raised, done, and_then}
use fastapitemplate.Common.Table.{find}
use fastapitemplate.Common.Text.{is_empty}
use fastapitemplate.Common.Value.{
  Value, Fields, Items, null, boolean, number, text, array, object, nil, empty, field, get, has,
  as_int,
}
use fastapitemplate.Common.{
  ℕ, zero, String, Bool, true, false, not, ◌&&◌, ◌||◌, Option, none, some, List, [], ◌∷◌, is_some,
  or_else, nat_eq, string_eq, ◌==◌, if◌then◌else◌,
}
use fastapitemplate.DpopProofs.{
  ProofLibrary, ProofError, dpop_proof_rejected, DpopProofReplay, prove_possession,
}
use fastapitemplate.Federation.{FederatedLogin}
use fastapitemplate.Gates.{
  GateError, machine_not_allowed, two_factor_setup_required, Credentials, is_machine,
  refuse_machine, get_operation_principal, extract_token,
}
use fastapitemplate.Reconciliation.{FederatedIdentity, find_identity}
use fastapitemplate.Revocations.{SessionRevocation, is_revoked}
use fastapitemplate.Tokens.{Jwt, TokenSettings}
use fastapitemplate.Tokens.Claims.{AuthenticatedPrincipal}
use fastapitemplate.Tokens.Reading.{verify_access_token}
use fastapitemplate.Users.{User, Tenant, user_key, tenant_admits, permission_codes_of}
use fastapitemplate.Users.Directory.{tenant_issuing}

pub record AppTokenAcceptance : Type 0 where
  pub issuer : String
  pub client_ids : List String

pub record PresentedAppToken (Token Proof : Type 0) : Type 0 where
  pub token : Token
  pub dpop : Bool
  pub proof : Option Proof
  pub method : String
  pub uri : String
  pub id_token : Option Token

pub data AppTokenError : Type 0 where
  app_access_token_rejected invalid_id_token identity_provider_unavailable : AppTokenError
  proof_error : ProofError → AppTokenError
  account_error : AccountError → AppTokenError
  -- The exception of `int`
  no_number : AppTokenError

-- `AppTokenGateway`
pub record AppTokenGateway (Token : Type 0) : Type 0 where
  pub verify_app_token : (issuer : String) → Token → Result AppTokenError Fields
  pub verify_id_token : (issuer : String) → Token → List String → Result AppTokenError Fields
  pub userinfo : (issuer : String) → Token → Result AppTokenError Fields

-- What the use case reads of the tables.
pub record AppTables : Type 0 where
  pub identities : List FederatedIdentity
  pub revocations : List SessionRevocation
  pub directory : Directory
  pub replays : List DpopProofReplay

-- `_bound_key`, of the value of `cnf` and of its `jkt`.
abbrev pub key_in : Value → Result AppTokenError (Option String)
key_in (text jkt) = if is_empty jkt then raised app_access_token_rejected else done (some jkt)
key_in _ = raised app_access_token_rejected

abbrev pub bound_in : Value → Result AppTokenError (Option String)
bound_in null = done none
bound_in (object confirmation) = key_in (get confirmation "jkt")
bound_in _ = raised app_access_token_rejected

-- `_bound_key`
unfoldable pub bound_key : Fields → Result AppTokenError (Option String)
unfolding get
bound_key claims = bound_in (get claims "cnf")

-- `int(value)`
abbrev pub int_of : Value → Option ℕ
int_of (text s) = int s
int_of v = as_int v

abbrev pub because_of : {A : Type 0} → Result ProofError A → Result AppTokenError A
because_of (raised error) = raised (proof_error error)
because_of (done a) = done a

-- The errors of the accounts, and the identifier of the account.
abbrev pub account_of :
    Result AccountError (ResolvedAccount × List Write) → Result AppTokenError (ℕ × List Write)
account_of (raised error) = raised (account_error error)
account_of (done (account, writes)) = done (account.user_id, writes)

-- The profile of `_first_visit`: that of somebody else is dropped.
abbrev pub own_profile : (subject : String) → Fields → Value → Fields
own_profile subject profile null = profile
own_profile subject profile (text s) = if s == subject then profile else empty
own_profile subject profile _ = empty

module _ {Token Proof : Type 0} (lib : ProofLibrary Token Proof) (gateway : AppTokenGateway Token)
    (show : Value → String) (lower : String → String) (mapping : ClaimsMapping)
    (policies : Policies) where
  -- `str(value or "")`
  unfoldable pub text_of : Value → String
  text_of null = ""
  text_of (boolean false) = ""
  text_of (number zero) = ""
  text_of (text s) = s
  text_of (array nil) = ""
  text_of (object empty) = ""
  text_of v = show v

  -- `_check_possession`; `checked_at` and `recorded_at` are the readings of the clock.
  unfoldable pub check_possession :
      List DpopProofReplay
      → PresentedAppToken Token Proof
      → Option String
      → (checked_at recorded_at : ℕ) → Result AppTokenError (List DpopProofReplay)
  unfolding prove_possession
  check_possession rows presented none checked_at recorded_at =
      if presented.dpop then raised app_access_token_rejected else done rows
  check_possession rows presented (some bound_key) checked_at recorded_at =
      if not presented.dpop then raised app_access_token_rejected else elim presented.proof [
        | none ↦ raised (proof_error dpop_proof_rejected)
        | some proof ↦ because_of (
            prove_possession lib rows bound_key proof
              (record {
                method = presented.method;
                uri = presented.uri;
                access_token = presented.token;
                now = checked_at;
              })
              recorded_at)
      ]

  -- The login that `_accepted_subject` asks the revocations about.
  abbrev pub login_since : (issuer subject : String) → (iat : ℕ) → FederatedLogin
  login_since issuer subject iat = record {
    session = record { issuer = issuer; subject = subject; session_id = none };
    started_at = seconds iat;
  }

  -- `_accepted_subject`
  unfoldable pub accepted_subject :
      AppTokenAcceptance → List SessionRevocation → Fields → Result AppTokenError String
  unfolding text_of get has is_revoked int as_int
  accepted_subject acceptance revocations claims =
      let subject = text_of (get claims "sub") in
      if is_empty subject || has claims "sub_type"
      then raised app_access_token_rejected
      else if not (contains (text_of (get claims "client_id")) acceptance.client_ids)
      then raised app_access_token_rejected
      else elim (int_of (get claims "iat")) [
        | none ↦ raised no_number
        | some iat ↦
            if is_revoked revocations (login_since acceptance.issuer subject iat)
            then raised app_access_token_rejected
            else done subject
      ]

  -- `_profile`
  unfoldable pub profile_of :
      AppTokenAcceptance
      → PresentedAppToken Token Proof
      → (bound : Bool) → Result AppTokenError Fields
  profile_of acceptance presented false = gateway.userinfo acceptance.issuer presented.token
  profile_of acceptance presented true = elim presented.id_token [
    | none ↦ done empty
    | some id_token ↦ gateway.verify_id_token acceptance.issuer id_token acceptance.client_ids
  ]

  -- `_first_visit`, once the profile is read.
  unfoldable pub enter_with :
      AppTokenAcceptance
      → AppTables
      → (subject : String) → Fields
      → Result AppTokenError (ℕ × List Write)
  unfolding get apply resolve
  enter_with acceptance tables subject profile =
      let own = field "sub" (text subject) (own_profile subject profile (get profile "sub")) in
      elim (apply lower mapping own) [
        | none ↦ raised invalid_id_token
        | some user ↦
            account_of
              (resolve lower policies tables.directory tables.identities acceptance.issuer user)
      ]

  -- `_first_visit`
  unfoldable pub first_visit :
      AppTokenAcceptance
      → AppTables
      → PresentedAppToken Token Proof
      → (subject : String) → (bound : Bool) → Result AppTokenError (ℕ × List Write)
  unfolding profile_of enter_with
  first_visit acceptance tables presented subject bound =
      and_then (profile_of acceptance presented bound) (enter_with acceptance tables subject)

  -- The end of `execute`
  unfoldable pub user_of :
      AppTokenAcceptance
      → AppTables
      → PresentedAppToken Token Proof
      → (bound : Bool) → (subject : String) → Result AppTokenError (ℕ × List Write)
  unfolding find_identity first_visit
  user_of acceptance tables presented bound subject =
      elim (find_identity tables.identities acceptance.issuer subject) [
        | some identity ↦ done (identity.user_id, [])
        | none ↦ first_visit acceptance tables presented subject bound
      ]

  -- `execute` on the claims of a verified token
  unfoldable pub authenticate_claims :
      AppTokenAcceptance
      → AppTables
      → PresentedAppToken Token Proof
      → (checked_at recorded_at : ℕ) → Fields
      → Result AppTokenError ((ℕ × List Write) × List DpopProofReplay)
  unfolding bound_key check_possession accepted_subject user_of
  authenticate_claims acceptance tables presented checked_at recorded_at claims =
      and_then (bound_key claims) (λ bound.
        and_then (check_possession tables.replays presented bound checked_at recorded_at)
          (λ replays. and_then (accepted_subject acceptance tables.revocations claims) (λ subject.
            and_then (user_of acceptance tables presented (is_some bound) subject)
              (λ account. done (account, replays)))))

  -- `AuthenticateAppAccessToken.execute`: the user, and what it writes.
  unfoldable pub authenticate_app :
      AppTokenAcceptance
      → AppTables
      → PresentedAppToken Token Proof
      → (checked_at recorded_at : ℕ)
      → Result AppTokenError ((ℕ × List Write) × List DpopProofReplay)
  unfolding authenticate_claims
  authenticate_app acceptance tables presented checked_at recorded_at = elim acceptance.client_ids [
    | [] ↦ raised app_access_token_rejected
    | _ ↦
        if is_empty acceptance.issuer
        then raised app_access_token_rejected
        else and_then (gateway.verify_app_token acceptance.issuer presented.token)
            (authenticate_claims acceptance tables presented checked_at recorded_at)
  ]
