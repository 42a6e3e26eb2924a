-- ===== src/AuthRoutes/Tests.antt =====
-- The routes at a sample application with one login.
use fastapitemplate.Common.Clock.{second}
use fastapitemplate.Common.Decimal.{str}
use fastapitemplate.Common.Results.{done}
use fastapitemplate.Common.Table.{find}
use fastapitemplate.Common.Value.{Fields, get, as_text, as_int}
use package.text.Mathlib.TextEquality.{eq_iff}
use fastapitemplate.Common.{
  ℕ, ◌*◌, ◌≡◌, ◌≢◌, refl, String, Bool, true, false, none, some, List, [], ◌∷◌, arith, nat_eq,
  string_eq, ◌==◌, if◌then◌else◌,
}
use fastapitemplate.Gates.{CurrentSession}
use fastapitemplate.PasswordReset.Ending.{IsEnded}
use fastapitemplate.RefreshSessions.{RefreshSession, reused, row_id}
use fastapitemplate.SessionCookies.{Draws, fresh_sign_in}
use fastapitemplate.Tokens.{TokenPair, create_token_pair}
use fastapitemplate.Tokens.Claims.{RefreshedSession, subject_of}
use fastapitemplate.Tokens.Reading.{decode_claims, verify_refresh_token, login_to_end}
use fastapitemplate.Tokens.Sample.{
  sample_jwt, sample_settings, sample_user, sample_row, sample_database,
}
use fastapitemplate.AuthRoutes.{App, AuthSettings, RouteAnswer, unauthorized, ok}
use fastapitemplate.AuthRoutes.Sessions.{refresh, logout}
use fastapitemplate.AuthRoutes.Recovery.{change_password}
use fastapitemplate.AuthRoutes.Ending.{reuse-ends_login, logout-ends_login}
use fastapitemplate.AuthRoutes.History.{Request, sign_out, renew, after}
use fastapitemplate.AuthRoutes.Passwords.{change_password-IsEnded}

abbrev same_text : String → String
same_text s = s

abbrev is_hash : String → String → Bool
is_hash hash password = hash == password

abbrev never : ℕ → String → String → Bool
never at secret code = false

abbrev settings : AuthSettings
settings = record {
  tokens = sample_settings;
  throttle = record { max_failures = 0; window = 0; lock_duration = 0 };
  in_production = false;
  local_login_enabled = true;
  recent_sign_in_seconds = 600;
  password_reset_token_ttl_seconds = 3600;
  mail_enabled = false;
}

abbrev row : RefreshSession
row = record (sample_row "login" "t2" (3700 * second)) {
  previous_jti = some "t1";
  rotated_at = some (150 * second);
}

abbrev app : App
app = record {
  db = sample_database (row ∷ []);
  reset_tokens = [];
  mails = [];
  links = [];
  attempts = [];
  audit = [];
}

abbrev pair : TokenPair (Fields × String)
pair =
    create_token_pair sample_jwt sample_settings (sample_database []) sample_user none fresh_sign_in
      (some (3700 * second)) "login" "t1" (100 * second)

abbrev draws : Draws
draws = record {
  session_id = "next";
  jti = "t3";
  lifetime_at = 300 * second;
  settled_at = 300 * second;
  stored_at = 300 * second;
}

abbrev refreshed : RefreshedSession
refreshed = record {
  user = sample_user;
  active_role = none;
  federated_login = none;
  authenticated_at = 100 * second;
  signed_in_with_passkey = false;
  refresh_session_id = "login";
  jti = "t1";
  standing = reused;
}

comes_back :
    verify_refresh_token sample_jwt sample_settings pair.refresh_token app.db
      (300 * second)
      (300 * second)
      (300 * second)
    ≡ some refreshed
unfolding verify_refresh_token create_token_pair sample_jwt str
comes_back = refl

-- What the access token of the login says, for which it is held.
abbrev held : Fields
held = pair.access_token.0

readable : decode_claims sample_jwt sample_settings pair.access_token (350 * second) ≡ done held
unfolding decode_claims create_token_pair sample_jwt str
readable = refl

names_login : as_text (get held "rsid") ≡ some "login"
unfolding create_token_pair as_text get sample_jwt
names_login = refl

other_login : ◌≢◌ {A = String} "next" "login"
other_login = ground (arith, eq_iff "next" "login")

abbrev further : List (Request (Fields × String))
further =
    renew (some pair.refresh_token) (310 * second) (310 * second) (310 * second) draws
    ∷ sign_out none (320 * second)
    ∷ []

abbrev routes_after : App → App
routes_after left =
    after sample_jwt same_text is_hash same_text same_text never settings left further

reuse-ends_login_example :
    let (answer, left) =
      refresh sample_jwt same_text is_hash same_text same_text never settings app
        (some pair.refresh_token)
        (300 * second)
        (300 * second)
        (300 * second)
        draws in
    (answer ≡ unauthorized)
    × (find row_id "x" left.db.refresh_sessions ≡ (
        if refreshed.refresh_session_id == "x"
        then none
        else find row_id "x" app.db.refresh_sessions))
    × IsEnded sample_jwt sample_settings pair.access_token held
        (routes_after left).db
        (350 * second)
        (350 * second)
        (350 * second)
reuse-ends_login_example =
    reuse-ends_login sample_jwt same_text is_hash same_text same_text never settings app
      pair.refresh_token (300 * second) (300 * second) (300 * second) draws refreshed further
      pair.access_token held "x" (350 * second) (350 * second) (350 * second) comes_back refl
      (other_login, (tt, tt)) readable names_login

signed :
    decode_claims sample_jwt sample_settings pair.logout_token (300 * second)
    ≡ done pair.logout_token.0
unfolding decode_claims create_token_pair sample_jwt str
signed = refl

names : login_to_end pair.logout_token.0 ≡ some "login"
unfolding login_to_end create_token_pair sample_jwt
names = refl

logout-ends_login_example :
    let (answer, left) =
      logout sample_jwt same_text is_hash same_text same_text never settings app
        (some pair.logout_token)
        (300 * second) in
    (find row_id "x" left.db.refresh_sessions
      ≡ (if ◌==◌ {A = String} "login" "x" then none else find row_id "x" app.db.refresh_sessions))
    × IsEnded sample_jwt sample_settings pair.access_token held
        (routes_after left).db
        (350 * second)
        (350 * second)
        (350 * second)
logout-ends_login_example =
    logout-ends_login sample_jwt same_text is_hash same_text same_text never settings app
      pair.logout_token "login" pair.logout_token.0 (300 * second) further pair.access_token held
      "x" (350 * second) (350 * second) (350 * second) signed names (other_login, (tt, tt)) readable
      names_login

abbrev current : CurrentSession
current = record {
  user = sample_user;
  federated_login = none;
  active_role = none;
  authenticated_at = some (100 * second);
  refresh_session_id = some "login";
  signed_in_with_passkey = false;
}

abbrev change : RouteAnswer × App
change =
    change_password sample_jwt same_text is_hash same_text same_text never settings app current
      "hash" "new" (320 * second) draws

accepted_change : change.0 ≡ ok
unfolding change_password
accepted_change = refl

names_user : subject_of held ≡ some 12
unfolding create_token_pair subject_of str sample_jwt
names_user = refl

issued_at : as_int (get held "iat") ≡ some 100
unfolding create_token_pair as_int get sample_jwt
issued_at = refl

change_password-IsEnded_example :
    ((hash : String) × (sample_user.password_hash ≡ some hash) × (is_hash hash "hash" ≡ true))
    × IsEnded sample_jwt sample_settings pair.access_token held change.1.db
        (350 * second)
        (350 * second)
        (350 * second)
unfolding find
change_password-IsEnded_example =
    change_password-IsEnded sample_jwt same_text is_hash same_text same_text never settings app
      current "hash" "new" (320 * second) draws pair.access_token held 100 (350 * second)
      (350 * second) (350 * second) accepted_change refl readable names_user issued_at (omega arith)
