-- ===== src/PasswordReset/Tests.antt =====
-- A user asks for a new password, chooses it, and tries the token again.
use package.text.Mathlib.TextEquality.{eq_iff}
use fastapitemplate.Common.Clock.{seconds}
use fastapitemplate.Common.Results.{done}
use fastapitemplate.Common.Value.{Fields, text, number, empty, field, get, as_text, as_int}
use fastapitemplate.Common.{
  ℕ, ◌≡◌, ◌≢◌, refl, String, true, false, Option, none, some, List, [], ◌∷◌, arith, nat_eq,
  string_eq,
}
use fastapitemplate.PasswordReset.{Desk, PasswordResetToken, by_person, request_reset, reset}
use fastapitemplate.PasswordReset.Ending.{IsEnded, reset-IsEnded}
use fastapitemplate.PasswordReset.SingleUse.{Request, ask, purge, serve, reset_once}
use fastapitemplate.Tokens.{Database}
use fastapitemplate.Tokens.Claims.{subject_of}
use fastapitemplate.Tokens.Reading.{decode_claims}
use fastapitemplate.Tokens.Sample.{sample_jwt, sample_settings, sample_user, sample_tenant}

abbrev same_text : String → String
same_text s = s

abbrev tokens : List PasswordResetToken
tokens =
    record {
      user_id = 12;
      token_hash = "t1";
      purpose = by_person;
      expires_at = seconds 4000;
      used_at = none;
    }
    ∷ []

abbrev desk : Desk
desk = record {
  users = sample_user ∷ [];
  tenants = sample_tenant ∷ [];
  tokens = tokens;
  mails = [];
}

-- The person asks from the entrance of the tenant, and the token is kept by its hash.
asked :
    request_reset same_text same_text
      (record desk { tokens = [] })
      "ann@example.com"
      (some "acme")
      "t1"
      3600
      false
      (seconds 400)
    ≡ done (some 12, desk)
unfolding request_reset
asked = refl

abbrev chosen : Option ℕ × Desk
chosen = reset same_text same_text desk "t1" "new" (seconds 500) (seconds 501) (seconds 502)

chosen_once : chosen.0 ≡ some 12
unfolding reset
chosen_once = refl

other_token : ◌≢◌ {A = String} "t2" "t1"
other_token = ground (arith, eq_iff "t2" "t1")

abbrev further : List Request
further = ask "ann@example.com" none "t2" 3600 true (seconds 600) ∷ purge (seconds 700) ∷ []

reset_once_example :
    (reset same_text same_text
      (serve same_text same_text chosen.1 further)
      "t1"
      "newer"
      (seconds 800)
      (seconds 800)
      (seconds 800)).0
    ≡ none
reset_once_example =
    reset_once same_text same_text desk "t1" "new" "newer" (seconds 500) (seconds 501) (seconds 502)
      12 (seconds 800) (seconds 800) (seconds 800) further chosen_once (other_token, (tt, tt))

-- What a refresh token of the user says that was issued before.
abbrev claims : Fields
claims = field "sub" (text "12") (
    field "iss" (text "app") (
      field "aud" (text "app-users") (
        field "iat" (number 400)
          (field "exp" (number 9000) (field "type" (text "refresh") empty)))))

abbrev db : Database
db = record {
  users = chosen.1.users;
  tenants = sample_tenant ∷ [];
  refresh_sessions = [];
  revocations = [];
  totp_secrets = [];
  passkeys = [];
}

decoded : decode_claims sample_jwt sample_settings (claims, "secret") (seconds 900) ≡ done claims
unfolding decode_claims sample_jwt get as_text as_int
decoded = refl

reset-IsEnded_example :
    IsEnded sample_jwt sample_settings
      (claims, "secret")
      claims
      db
      (seconds 900)
      (seconds 900)
      (seconds 900)
unfolding subject_of as_int get
reset-IsEnded_example =
    reset-IsEnded same_text same_text sample_jwt sample_settings desk db "t1" "new" (seconds 500)
      (seconds 501) (seconds 502) 12 (claims, "secret") claims 400 (seconds 900) (seconds 900)
      (seconds 900) chosen_once refl decoded refl refl (omega arith)
