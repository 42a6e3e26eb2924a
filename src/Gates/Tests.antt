-- ===== src/Gates/Tests.antt =====
-- The gates at the tokens of a sample application.
use fastapitemplate.Common.Clock.{second}
use fastapitemplate.Common.Decimal.{str}
use fastapitemplate.Common.Lists.{all, any}
use fastapitemplate.Common.Results.{done}
use fastapitemplate.Common.Value.{Fields}
use fastapitemplate.Common.{
  ◌*◌, ◌≡◌, refl, String, false, none, some, List, [], ◌∷◌, nat_eq, string_eq,
}
use fastapitemplate.Gates.{
  Request, CurrentSession, get_operation_principal, get_current_principal, require_permission,
  require_any_permission, current_session,
}
use fastapitemplate.Gates.Machine.{opens, is_allowed, machine-opens}
use fastapitemplate.Gates.Renewal.{IsSettled, current_session-IsSettled}
use fastapitemplate.Machines.{MachineClient}
use fastapitemplate.SessionCookies.{fresh_sign_in}
use fastapitemplate.Tokens.{
  Database, TokenPair, MachineAccessToken, create_machine_access_token, create_token_pair,
}
use fastapitemplate.Tokens.Access.{machine_principal}
use fastapitemplate.Tokens.Sample.{
  sample_jwt, sample_jwt-IsIntact, sample_settings, sample_user, sample_row, sample_database,
}

abbrev same_text : String → String
same_text s = s

abbrev request : Request
request = record { method = "POST"; path = "/api/notes"; route = none }

abbrev codes : List String
codes = "note:view" ∷ "item:view" ∷ []

abbrev token : MachineAccessToken (Fields × String)
token =
    create_machine_access_token sample_jwt sample_settings sample_user "robot" ("note:view" ∷ [])
      (100 * second)

abbrev clients : List MachineClient
clients = []

read :
    get_operation_principal sample_jwt sample_settings same_text (some token.token) (200 * second)
    ≡ done (machine_principal sample_user "robot" ("note:view" ∷ []))
unfolding get_operation_principal create_machine_access_token sample_jwt str
read = refl

machine-opens_example :
    (opens (
        get_current_principal sample_jwt sample_settings same_text request
          (some token.token)
          (200 * second)
          [])
      ≡ false)
    × (opens (
          require_permission sample_jwt sample_settings same_text clients codes request
            (some token.token)
            (200 * second)
            [])
        ≡ all (is_allowed sample_user ("note:view" ∷ [])) codes)
    × (opens (
          require_any_permission sample_jwt sample_settings same_text clients codes request
            (some token.token)
            (200 * second)
            [])
        ≡ any (is_allowed sample_user ("note:view" ∷ [])) codes)
machine-opens_example =
    machine-opens sample_jwt sample_jwt-IsIntact sample_settings same_text clients codes request []
      sample_user "robot" ("note:view" ∷ []) (100 * second) (200 * second)
      (machine_principal sample_user "robot" ("note:view" ∷ [])) refl read

abbrev db : Database
db = sample_database (sample_row "login" "t1" (3700 * second) ∷ [])

abbrev pair : TokenPair (Fields × String)
pair =
    create_token_pair sample_jwt sample_settings (sample_database []) sample_user none fresh_sign_in
      (some (3700 * second)) "login" "t1" (100 * second)

abbrev session : CurrentSession
session = record {
  user = sample_user;
  federated_login = none;
  active_role = none;
  authenticated_at = some (100 * second);
  refresh_session_id = some "login";
  signed_in_with_passkey = false;
}

given :
    current_session sample_jwt sample_settings same_text db request
      (some pair.access_token)
      (200 * second)
      []
    ≡ (done session, [])
unfolding current_session create_token_pair sample_jwt str
given = refl

current_session-IsSettled_example :
    IsSettled sample_jwt sample_settings same_text db request pair.access_token
      (200 * second)
      session
current_session-IsSettled_example =
    current_session-IsSettled sample_jwt sample_settings same_text db request pair.access_token
      (200 * second) [] [] session given
