-- ===== src/Tokens/Tests.antt =====
-- Tokens of a login of a sample application.
use fastapitemplate.Common.Results.{done}
use fastapitemplate.Common.{◌≡◌, refl, ◌*◌, String, none, some, List, [], ◌∷◌, arith, string_eq}
use fastapitemplate.Common.Clock.{second}
use fastapitemplate.SessionCookies.{fresh_sign_in}
use fastapitemplate.Common.Value.{Fields}
use fastapitemplate.Common.Table.{find}
use fastapitemplate.RefreshSessions.{has_expired}
use fastapitemplate.Revocations.{check_revocation}
use fastapitemplate.Tokens.{
  Database, TokenPair, create_access_token, create_token_pair, effective, machine_scopes,
}
use fastapitemplate.Tokens.Access.{principal_for, verify-create}
use fastapitemplate.Tokens.Claims.{AuthenticatedPrincipal}
use fastapitemplate.Tokens.Kinds.{kinds_apart}
use fastapitemplate.Tokens.Reading.{verify_access_token, verify_refresh_token, end_refresh_session}
use fastapitemplate.Tokens.Refreshing.{refreshed_for, verify-create_pair}
use fastapitemplate.Tokens.Safety.{IsAlive, verify_refresh_token-IsAlive}
use fastapitemplate.Tokens.Sample.{
  sample_jwt, sample_jwt-ReadsBack, sample_jwt-IsIntact, sample_settings, sample_user, sample_row,
  sample_database,
}
use fastapitemplate.Users.{tenant_admits}

abbrev db_with : Database
db_with = sample_database (sample_row "login" "t1" (3700 * second) ∷ [])

abbrev pair : TokenPair (Fields × String)
pair =
    create_token_pair sample_jwt sample_settings (sample_database []) sample_user none fresh_sign_in
      (some (3700 * second)) "login" "t1" (100 * second)

verify-create_example :
    (verify_access_token sample_jwt sample_settings
        (create_token_pair sample_jwt sample_settings
          (sample_database [])
          sample_user
          none
          fresh_sign_in
          (some (3700 * second))
          "login"
          "t1"
          (100 * second)).access_token
        (200 * second)
      ≡ done (
          principal_for sample_settings
            (sample_database [])
            sample_user
            fresh_sign_in
            none
            (100 * second)))
    × (verify_access_token sample_jwt sample_settings
          (create_access_token sample_jwt sample_settings
            (sample_database [])
            sample_user
            fresh_sign_in
            (100 * second))
          (200 * second)
        ≡ done (
            principal_for sample_settings
              (sample_database [])
              sample_user
              fresh_sign_in
              none
              (100 * second)))
verify-create_example =
    verify-create sample_jwt sample_jwt-ReadsBack sample_settings (sample_database []) sample_user
      fresh_sign_in none (some (3700 * second)) "login" "t1" (100 * second) (200 * second)
      (omega arith) (omega arith)

abbrev operations : List String
operations = "note:view" ∷ "note:write" ∷ []

granted :
    effective sample_settings (sample_database []) sample_user fresh_sign_in none
    ≡ "item:view" ∷ "note:view" ∷ []
unfolding effective
granted = refl

machine_scopes_test : machine_scopes sample_user operations ≡ "note:view" ∷ []
unfolding machine_scopes
machine_scopes_test = refl

verify-create_pair_example :
    verify_refresh_token sample_jwt sample_settings pair.refresh_token db_with
      (200 * second)
      (200 * second)
      (200 * second)
    ≡ some (
        refreshed_for sample_user fresh_sign_in
          (sample_row "login" "t1" (3700 * second))
          "login"
          "t1"
          (100 * second)
          (200 * second))
unfolding find tenant_admits has_expired check_revocation
verify-create_pair_example =
    verify-create_pair sample_jwt sample_jwt-ReadsBack sample_settings (sample_database []) db_with
      sample_user sample_user none fresh_sign_in (3700 * second) "login" "t1"
      (sample_row "login" "t1" (3700 * second)) (100 * second) (200 * second) (200 * second)
      (200 * second) (omega arith) (omega arith) refl refl refl refl refl refl refl

verify_refresh_token-IsAlive_example : IsAlive db_with (200 * second) (
    refreshed_for sample_user fresh_sign_in
      (sample_row "login" "t1" (3700 * second))
      "login"
      "t1"
      (100 * second)
      (200 * second))
verify_refresh_token-IsAlive_example =
    verify_refresh_token-IsAlive sample_jwt sample_settings pair.refresh_token db_with
      (200 * second) (200 * second) (200 * second)
      (refreshed_for sample_user fresh_sign_in (sample_row "login" "t1" (3700 * second)) "login"
        "t1" (100 * second) (200 * second))
      verify-create_pair_example

abbrev principal : AuthenticatedPrincipal
principal =
    principal_for sample_settings (sample_database []) sample_user fresh_sign_in none (100 * second)

kinds_apart_example :
    (¬ (
      verify_access_token sample_jwt sample_settings pair.refresh_token (200 * second)
      ≡ done principal))
    × (¬ (
        verify_access_token sample_jwt sample_settings pair.logout_token (200 * second)
        ≡ done principal))
    × (verify_refresh_token sample_jwt sample_settings pair.access_token db_with
          (200 * second)
          (200 * second)
          (200 * second)
        ≡ none)
    × (verify_refresh_token sample_jwt sample_settings pair.logout_token db_with
          (200 * second)
          (200 * second)
          (200 * second)
        ≡ none)
    × (end_refresh_session sample_jwt sample_settings pair.access_token db_with.refresh_sessions
          (200 * second)
        ≡ db_with.refresh_sessions)
    × (end_refresh_session sample_jwt sample_settings pair.refresh_token db_with.refresh_sessions
          (200 * second)
        ≡ db_with.refresh_sessions)
kinds_apart_example =
    kinds_apart sample_jwt sample_jwt-IsIntact sample_settings (sample_database []) db_with
      sample_user none fresh_sign_in (some (3700 * second)) "login" "t1" (100 * second)
      (200 * second) (200 * second) (200 * second) principal principal
