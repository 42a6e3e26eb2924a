-- ===== src/SessionCookies/Tests.antt =====
-- Logins and their cookies at concrete inputs.
use fastapitemplate.Common.Table.{find, IsKeyed}
use fastapitemplate.Common.{◌≡◌, refl, true, false, none, some, [], ◌∷◌, string_eq}
use fastapitemplate.RefreshSessions.{RefreshSession, Settings, row_id}
use fastapitemplate.SessionCookies.{SessionCarryOver, Draws, fresh_sign_in, establish_session}
use fastapitemplate.SessionCookies.Laws.{
  IsBacked, establish_session-IsBacked, continue, continue-expires_at,
}

abbrev settings : Settings
settings = record { refresh_token_expires_seconds = 60; refresh_token_sliding_enabled = false }

abbrev draws : Draws
draws = record { session_id = "s9"; jti = "j2"; lifetime_at = 10; settled_at = 11; stored_at = 12 }

abbrev row : RefreshSession
row = record {
  id = "s1";
  user_id = 7;
  current_jti = "j1";
  previous_jti = none;
  rotated_at = none;
  expires_at = 900;
}

abbrev carry : SessionCarryOver
carry = record fresh_sign_in { refresh_session_id = some "s1"; presented_jti = some "j1" }

row-IsKeyed : IsKeyed row_id (row ∷ [])
unfolding find
row-IsKeyed = (refl, tt)

row-found : find row_id "s1" (row ∷ []) ≡ some row
unfolding find
row-found = refl

-- A refresh that wins: the row is rotated, and keeps the end of its lifetime.
refreshed :
    (establish_session settings (row ∷ []) 7 true carry draws).1
    ≡ record row { previous_jti = some "j1"; current_jti = "j2"; rotated_at = some 12 } ∷ []
unfolding establish_session
refreshed = refl

-- A sign-in adds a row under the new identifier.
signed_in :
    (establish_session settings
      (row ∷ [])
      7
      true
      fresh_sign_in
      (record draws { settled_at = 900 })).1
    ≡ row
      ∷ record {
        id = "s9";
        user_id = 7;
        current_jti = "j2";
        previous_jti = none;
        rotated_at = none;
        expires_at = 60000000;
      }
      ∷ []
unfolding establish_session
signed_in = refl

establish_session-IsBacked_example :
    IsBacked (establish_session settings (row ∷ []) 7 true carry draws)
establish_session-IsBacked_example =
    establish_session-IsBacked settings (row ∷ []) 7 true carry draws row-IsKeyed

continue-expires_at_example :
    (row' : RefreshSession) × (find row_id "s1"
        (continue settings (row ∷ []) 7 ((carry, draws) ∷ (carry, draws) ∷ []))
      ≡ some row')
    × (row'.expires_at ≡ 900)
continue-expires_at_example =
    continue-expires_at settings 7 "s1" (row ∷ []) row ((carry, draws) ∷ (carry, draws) ∷ []) refl
      refl row-IsKeyed row-found ((refl, refl), ((refl, refl), tt))
