-- ===== src/Revocations/Tests.antt =====
-- Revocations at concrete inputs.
use fastapitemplate.Common.Results.{done}
use fastapitemplate.Common.Lists.{All}
use fastapitemplate.Common.Table.{find}
use fastapitemplate.Common.Value.{Fields, empty, field, text, object}
use fastapitemplate.Common.{
  ◌≤◌, ◌≡◌, refl, true, false, none, some, List, [], ◌∷◌, arith, string_eq,
}
use fastapitemplate.Federation.{FederatedLogin}
use fastapitemplate.RefreshSessions.{RefreshSession}
use fastapitemplate.Revocations.{
  SessionRevocation, LogoutNotice, logout_event, receive_logout, record_revocation, is_revoked,
  covers, kept_until, jti_of,
}
use fastapitemplate.Revocations.Laws.{
  Recording, record_all, any_covers, is_revoked-covers, recorded-stays, kept_until-bounds,
}
use fastapitemplate.Revocations.Notices.{sid_only-ends_nothing}

abbrev events : Fields
events = field logout_event (object empty) empty

abbrev claims : Fields
claims = field "events" (object events) (field "jti" (text "n1") (field "sub" (text " ann ") empty))

abbrev sid_claims : Fields
sid_claims =
    field "events" (object events) (field "jti" (text "n2") (field "sid" (text "s1") empty))

abbrev login : FederatedLogin
login = record {
  session = record { issuer = "idp"; subject = "ann"; session_id = some "s1" };
  started_at = 5;
}

abbrev notice : LogoutNotice
notice = record {
  jti = "n1";
  session = record { issuer = "idp"; subject = "ann"; session_id = none };
}

abbrev sid_notice : LogoutNotice
sid_notice = record {
  jti = "n2";
  session = record { issuer = "idp"; subject = ""; session_id = some "s1" };
}

abbrev stop : SessionRevocation
stop = record {
  jti = "n1";
  session = record { issuer = "idp"; subject = "ann"; session_id = none };
  revoked_at = 9;
  expires_at = 1000009;
}

abbrev sid_stop : SessionRevocation
sid_stop = record stop {
  jti = "n2";
  session = record { issuer = "idp"; subject = ""; session_id = some "s1" };
}

received : receive_logout [] [] claims "idp" 1 9 9 ≡ done (notice, stop ∷ [])
unfolding receive_logout
received = refl

sid_received :
    receive_logout [] (stop ∷ []) sid_claims "idp" 1 9 9 ≡ done (sid_notice, stop ∷ sid_stop ∷ [])
unfolding receive_logout
sid_received = refl

login-ended : is_revoked (stop ∷ sid_stop ∷ []) login ≡ true
unfolding is_revoked
login-ended = refl

-- A session that is named without its user is not ended.
sid_alone : is_revoked (sid_stop ∷ []) login ≡ false
unfolding is_revoked
sid_alone = refl

nothing : find jti_of "n1" [] ≡ none
unfolding find
nothing = refl

is_revoked-covers_example : is_revoked (stop ∷ []) login ≡ any_covers (stop ∷ []) login
is_revoked-covers_example = is_revoked-covers (stop ∷ []) login

stop-covers : covers stop login ≡ true
unfolding covers
stop-covers = refl

stop-new : (record_revocation [] [] stop 9).0 ≡ true
unfolding record_revocation
stop-new = refl

abbrev between : List Recording
between = record { logins = []; revocation = sid_stop; at = 500 } ∷ []

early : All (λ a. a.at ≤ kept_until [] 1000009) between
unfolding kept_until
early = (omega arith, tt)

recorded-stays_example :
    is_revoked (record_all (record_revocation [] [] stop 9).1 between) login ≡ true
recorded-stays_example = recorded-stays [] [] stop 9 login between stop-covers stop-new early

abbrev long_login : RefreshSession
long_login = record {
  id = "s1";
  user_id = 7;
  current_jti = "j1";
  previous_jti = none;
  rotated_at = none;
  expires_at = 900;
}

kept_until-bounds_example :
    (5 ≤ kept_until (long_login ∷ []) 5)
    × All (λ row. row.expires_at ≤ kept_until (long_login ∷ []) 5) (long_login ∷ [])
kept_until-bounds_example = kept_until-bounds (long_login ∷ []) 5

sid_only-ends_nothing_example : is_revoked (stop ∷ []) login ≡ true
sid_only-ends_nothing_example =
    sid_only-ends_nothing [] (stop ∷ []) (stop ∷ sid_stop ∷ []) sid_claims "idp" 1 9 9 sid_notice
      login sid_received refl refl login-ended
