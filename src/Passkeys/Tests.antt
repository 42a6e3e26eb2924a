-- ===== src/Passkeys/Tests.antt =====
-- Passkeys at concrete inputs. The relying party that stands for the library's accepts every response.
use fastapitemplate.Common.Results.{raised, done}
use fastapitemplate.Common.Table.{find}
use fastapitemplate.Common.{
  String, ◌≡◌, refl, Option, false, none, some, List, [], ◌∷◌, string_eq, nat_eq, option_eq,
}
use fastapitemplate.Passkeys.{WebAuthnChallenge, authentication, challenge_not_found}
use fastapitemplate.Passkeys.Credentials.{PasskeyCredential, display_name}
use fastapitemplate.Passkeys.UseCases.{
  Store, VerifyAuthentication, VerifiedRegistration, complete_authentication,
}
use fastapitemplate.Passkeys.SingleUse.{Request, sign_in, register, serve, signs_in_once}
use fastapitemplate.Passkeys.Owners.{owner_of, owner-stays}

abbrev accepts : VerifyAuthentication
accepts challenge public_key sign_count = some 6

abbrev key : PasskeyCredential
key = record {
  user_id = 7;
  credential_id = "cred-0123456789";
  public_key = "pk";
  sign_count = 5;
  transports = [];
  name = none;
  attestation_format = none;
  aaguid = none;
  backup_eligible = false;
  backup_state = false;
  last_used_at = none;
  created_at = some 1;
  id = some 3;
}

abbrev challenge : WebAuthnChallenge
challenge = record {
  challenge_id = "c1";
  challenge = "nonce";
  purpose = authentication;
  expires_at = 100;
  user_id = none;
}

abbrev store : Store
store = record { challenges = challenge ∷ []; credentials = key ∷ [] }

abbrev after : Store
after = record {
  challenges = [];
  credentials = record key { sign_count = 6; last_used_at = some 51 } ∷ [];
}

display_name-key : display_name key ≡ "passkey-cred-012"
unfolding display_name
display_name-key = refl

signed_in :
    complete_authentication accepts store "c1" (some "cred-0123456789") 50 51 ≡ done (7, after)
unfolding complete_authentication
signed_in = refl

abbrev theft : String → Option VerifiedRegistration
theft expected = some (record {
  credential_id = "cred-0123456789";
  public_key = "other";
  sign_count = 0;
  attestation_format = none;
  aaguid = none;
  backup_eligible = false;
  backup_state = false;
})

abbrev requests : List Request
requests =
    register theft 8 "c1" [] none 60 4 60 ∷ sign_in accepts "c1" (some "cred-0123456789") 61 61 ∷ []

signs_in_once_example :
    complete_authentication accepts (serve after requests) "c1" none 70 70
    ≡ raised challenge_not_found
signs_in_once_example =
    signs_in_once accepts accepts store after "c1" (some "cred-0123456789") none 50 51 70 70 7
      requests signed_in (tt, (tt, tt))

key-owner : owner_of (key ∷ []) "cred-0123456789" ≡ some 7
unfolding find
key-owner = refl

owner-stays_example : owner_of (serve store requests).credentials "cred-0123456789" ≡ some 7
owner-stays_example = owner-stays store requests 7 "cred-0123456789" key-owner
