-- ===== src/SignIn/Tests.antt =====
-- Sign-ins to an application with one user.
use fastapitemplate.Common.{
  ℕ, ◌≡◌, refl, String, Bool, true, false, none, some, [], ◌∷◌, string_eq, ◌==◌,
}
use fastapitemplate.SignIn.{
  Answer, signed_in, invalid_credentials, Accounts, Trail, LoginRequest, Readings, authenticate,
}
use fastapitemplate.SignIn.Answers.{authenticate-IsCounted, authenticate-unknown, IsCounted, shown}
use fastapitemplate.SignIn.Guards.{IsAdmitted, authenticate-IsAdmitted}
use fastapitemplate.Users.{User}

abbrev same_text : String → String
same_text s = s

abbrev is_hash : String → String → Bool
is_hash hash password = hash == password

abbrev never : ℕ → String → String → Bool
never at secret code = false

abbrev ann : User
ann = record {
  id = 12;
  email = "ann@example.com";
  username = "ann";
  password_hash = some "right";
  is_active = true;
  roles = [];
  sessions_valid_from = none;
  tenant_id = none;
}

abbrev accounts : Accounts
accounts = record {
  users = ann ∷ [];
  tenants = [];
  totp_secrets = [];
  policy = record { max_failures = 3; window = 1000; lock_duration = 1000 };
  in_production = true;
}

abbrev no_trail : Trail
no_trail = record { attempts = []; audit = [] }

abbrev attempt : String → LoginRequest
attempt password = record {
  email = "ann@example.com";
  password = password;
  totp_code = none;
  tenant = none;
}

abbrev readings : Readings
readings = record { locked_at = 10; verified_at = 11; counted_at = 12 }

abbrev sign_in : String → Answer × Trail
sign_in password =
    authenticate same_text is_hash never accounts no_trail (attempt password) readings

wrong : (sign_in "wrong").0 ≡ invalid_credentials
unfolding authenticate
wrong = refl

right : (sign_in "right").0 ≡ signed_in ann
unfolding authenticate
right = refl

authenticate-IsCounted_example :
    IsCounted same_text is_hash never accounts no_trail (attempt "wrong") readings (sign_in "wrong")
authenticate-IsCounted_example =
    authenticate-IsCounted same_text is_hash never accounts no_trail (attempt "wrong") readings

authenticate-unknown_example :
    shown same_text is_hash never (sign_in "wrong")
    ≡ shown same_text is_hash never (
        authenticate same_text is_hash never
          (record accounts { users = [] })
          no_trail
          (attempt "wrong")
          readings)
authenticate-unknown_example =
    authenticate-unknown same_text is_hash never accounts no_trail (attempt "wrong") readings wrong

abbrev trail_of : Answer × Trail → Trail
trail_of (answer, trail) = trail

signed_in_as_ann : sign_in "right" ≡ (signed_in ann, trail_of (sign_in "right"))
unfolding authenticate
signed_in_as_ann = refl

authenticate-IsAdmitted_example :
    IsAdmitted same_text is_hash never accounts no_trail (attempt "right") readings ann
authenticate-IsAdmitted_example =
    authenticate-IsAdmitted same_text is_hash never accounts no_trail (trail_of (sign_in "right"))
      ann (attempt "right") readings signed_in_as_ann
