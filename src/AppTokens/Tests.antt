-- ===== src/AppTokens/Tests.antt =====
-- A token of an application that is bound to a key, at a sample identity provider.
use fastapitemplate.Accounts.{Policies, FederatedAccount}
use fastapitemplate.Accounts.Mapping.{ClaimsMapping}
use fastapitemplate.Common.Clock.{second}
use fastapitemplate.Common.Results.{raised, done}
use fastapitemplate.Common.Text.{is_empty}
use fastapitemplate.Common.Value.{Value, Fields, text, number, object, empty, field}
use fastapitemplate.Common.{◌*◌, ◌≡◌, refl, String, true, false, Option, none, some, [], ◌∷◌}
use fastapitemplate.DpopProofs.Sample.{sample_library, sample_proof, sample_use}
use fastapitemplate.AppTokens.{
  AppTokenAcceptance, PresentedAppToken, AppTokenGateway, app_access_token_rejected, AppTables,
  authenticate_app,
}
use fastapitemplate.AppTokens.Possession.{IsHeld, IsPerson, authenticate_app-IsHeld}

abbrev claims : Fields
claims = field "sub" (text "S1") (
    field "client_id" (text "mobile")
      (field "iat" (number 90) (field "cnf" (object (field "jkt" (text "key") empty)) empty)))

abbrev gateway : AppTokenGateway String
gateway = record {
  verify_app_token = λ issuer token. done claims;
  verify_id_token = λ issuer token ids. raised app_access_token_rejected;
  userinfo = λ issuer token. done empty;
}

abbrev show : Value → String
show v = "?"

abbrev same_text : String → String
same_text s = s

abbrev mapping : ClaimsMapping
mapping = record { email_claim = "email"; username_claim = "name" }

abbrev policies : Policies
policies = record {
  linking = record { link_by_email = false; allowed_email_domains = [] };
  auto_provision = false;
  roles = record { default_roles = []; sync_on_login = false };
}

abbrev nobody : {K : Type 0} → K → Option FederatedAccount
nobody k = none

abbrev tables : AppTables
tables = record {
  identities =
      record { issuer = "idp"; subject = "S1"; user_id = 7; linked_at = none; last_login_at = none }
      ∷ [];
  revocations = [];
  directory = record { find_by_id = nobody; find_by_email = nobody; new_user_id = some 8 };
  replays = [];
}

abbrev acceptance : AppTokenAcceptance
acceptance = record { issuer = "idp"; client_ids = "mobile" ∷ [] }

abbrev presented : PresentedAppToken String (Fields × Fields)
presented = record {
  token = "t";
  dpop = true;
  proof = some (sample_proof "p1");
  method = "GET";
  uri = "/notes";
  id_token = none;
}

accepted :
    authenticate_app sample_library gateway show same_text mapping policies acceptance tables
      presented
      (100 * second)
      (100 * second)
    ≡ done ((7, []), sample_use "key:p1" ∷ [])
unfolding authenticate_app
accepted = refl

authenticate_app-IsHeld_example :
    (cs : Fields) × (subject : String) × (is_empty acceptance.issuer ≡ false)
    × (gateway.verify_app_token acceptance.issuer presented.token ≡ done cs)
    × IsHeld sample_library gateway show same_text mapping policies tables.replays
        (sample_use "key:p1" ∷ [])
        presented
        cs
        (100 * second)
        (100 * second)
    × IsPerson sample_library gateway show same_text mapping policies acceptance tables.revocations
        cs subject
authenticate_app-IsHeld_example =
    authenticate_app-IsHeld sample_library gateway show same_text mapping policies acceptance tables
      presented (100 * second) (100 * second) 7 [] (sample_use "key:p1" ∷ []) accepted
