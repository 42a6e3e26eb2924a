-- ===== src/LocalFactors/Tests.antt =====
-- The count of factors at concrete inputs.
use fastapitemplate.Common.{◌≡◌, refl, false, none, some, [], ◌∷◌}
use fastapitemplate.Passkeys.Credentials.{PasskeyCredential}
use fastapitemplate.TwoFactor.{TotpSecret}
use fastapitemplate.LocalFactors.{look, factors_by_user}

abbrev pending : TotpSecret
pending = record { user_id = 7; secret = "S"; confirmed_at = none }

abbrev in_force : TotpSecret
in_force = record { user_id = 8; secret = "T"; confirmed_at = some 3 }

abbrev key : PasskeyCredential
key = record {
  user_id = 7;
  credential_id = "k1";
  public_key = "pk";
  sign_count = 0;
  transports = [];
  name = none;
  attestation_format = none;
  aaguid = none;
  backup_eligible = false;
  backup_state = false;
  last_used_at = none;
  created_at = none;
  id = some 1;
}

counted :
    look 7 (factors_by_user (pending ∷ in_force ∷ []) (key ∷ key ∷ []))
    ≡ some (record { totp = false; passkeys = 2 })
unfolding factors_by_user
counted = refl
