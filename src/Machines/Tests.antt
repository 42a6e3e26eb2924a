-- ===== src/Machines/Tests.antt =====
-- A machine that comes in with the token of its provider.
use fastapitemplate.Common.Clock.{second}
use fastapitemplate.Common.Results.{Result, done}
use fastapitemplate.Common.Table.{find}
use fastapitemplate.Common.Value.{
  Fields, Items, object, array, text, number, empty, field, nil, cons,
}
use fastapitemplate.Common.{◌*◌, ◌≡◌, refl, String, some, List, [], ◌∷◌, nat_eq, string_eq}
use fastapitemplate.Audit.{AuditEvent}
use fastapitemplate.Machines.{
  MachineClient, MachineError, MachineEntrance, MachineSession, MachineAnswer, issued,
  parse_machine_clients, issue_machine_token, refused, machine_client_not_registered,
}
use fastapitemplate.Machines.Entrance.{IsEntitled, IsIssued, issue-IsEntitled}
use fastapitemplate.Tokens.{MachineAccessToken, create_machine_access_token}
use fastapitemplate.Tokens.Sample.{sample_jwt, sample_settings, sample_user, sample_tenant}

-- The setting: one row that is whole, one without a user, and a text.
abbrev setting : Items
setting =
    cons
      (object (
        field "client_id" (text " robot ") (
          field "acts_as" (text "ann@example.com") (
            field "operations"
              (array (cons (text "note:view ") (cons (number 1) (cons (text " ") nil)))) empty))))
      (cons (object (field "client_id" (text "other") empty)) (cons (text "x") nil))

abbrev robot : MachineClient
robot = record {
  client_id = "robot";
  name = "robot";
  acts_as = "ann@example.com";
  operations = "note:view" ∷ [];
}

parsed : parse_machine_clients setting ≡ robot ∷ []
unfolding parse_machine_clients
parsed = refl

abbrev entrance : MachineEntrance
entrance = record { audience = "app"; clients = robot ∷ [] }

abbrev claims : Fields
claims =
    field "sub_type" (text "client")
      (field "sub" (text "robot") (field "client_id" (text "robot") empty))

-- The gateway of the test accepts what the provider "idp" signed for the application.
abbrev accepts : (issuer audience : String) → Fields × String → Result MachineError Fields
accepts issuer audience (cs, key) = done cs

abbrev issuer_of : Fields × String → String
issuer_of token = "idp"

abbrev answer : MachineAccessToken (Fields × String)
answer =
    create_machine_access_token sample_jwt sample_settings sample_user "robot" ("note:view" ∷ [])
      (100 * second)

abbrev audit_of : MachineAnswer (Fields × String) × List AuditEvent → List AuditEvent
audit_of (a, audit) = audit

abbrev exchange : MachineAnswer (Fields × String) × List AuditEvent
exchange =
    issue_machine_token sample_jwt sample_settings issuer_of accepts entrance (sample_user ∷ [])
      (sample_tenant ∷ []) [] (100 * second) (some (claims, "k"))

let_in : exchange ≡ (issued answer "ann@example.com" "robot", audit_of exchange)
unfolding issue_machine_token
let_in = refl

not_listed :
    (issue_machine_token sample_jwt sample_settings issuer_of accepts
      (record entrance { clients = record robot { client_id = "r2" } ∷ [] })
      (sample_user ∷ [])
      (sample_tenant ∷ [])
      []
      (100 * second)
      (some (claims, "k")))
    ≡ refused [] (machine_client_not_registered "robot")
unfolding issue_machine_token
not_listed = refl

issue-IsEntitled_example :
    (session : MachineSession) × IsEntitled sample_jwt sample_settings issuer_of accepts entrance
      (sample_user ∷ [])
      (sample_tenant ∷ [])
      (claims, "k")
      session
    × IsIssued sample_jwt sample_settings issuer_of accepts
        (sample_user ∷ [])
        (100 * second)
        session
        answer
unfolding find
issue-IsEntitled_example =
    issue-IsEntitled sample_jwt sample_settings issuer_of accepts entrance (sample_user ∷ [])
      (sample_tenant ∷ []) [] (audit_of exchange) (100 * second) (claims, "k") answer
      "ann@example.com" "robot" (refl, tt) let_in
