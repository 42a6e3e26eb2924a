-- ===== src/AuthRoutes/Ending.antt =====
-- What ends a login, and that it stays ended.
use fastapitemplate.Common.Lists.{All}
use fastapitemplate.Common.Results.{done}
use fastapitemplate.Common.Table.{find, find-delete_key, find-delete_key_self}
use fastapitemplate.Common.Value.{Fields, get, as_text}
use fastapitemplate.Common.{
  ℕ, ◌≡◌, refl, ap, ◌∙◌, String, true, none, some, List, Bool, Bool-cases, inl, inr, string_eq,
  ◌==◌, if◌then◌else◌,
}
use fastapitemplate.PasswordReset.Ending.{IsEnded, revoked-IsEnded}
use fastapitemplate.RefreshSessions.{RefreshSession, reused, row_id, end}
use fastapitemplate.SessionCookies.{Draws}
use fastapitemplate.Tokens.{Jwt, Database}
use fastapitemplate.Tokens.Claims.{RefreshedSession}
use fastapitemplate.Tokens.Reading.{
  decode_claims, verify_refresh_token, session_revoked, refresh_session_ended, end_refresh_session,
  login_to_end, issued_before_sessions_ended,
}
use fastapitemplate.AuthRoutes.{App, AuthSettings, unauthorized}
use fastapitemplate.AuthRoutes.Sessions.{refresh_session, refresh, logout}
use fastapitemplate.AuthRoutes.Absence.{IsGone}
use fastapitemplate.AuthRoutes.History.{Request, DrawsOther, after, after-IsGone}

-- Every token of a login that has no record counts as revoked.
gone-revoked :
    (cs : Fields) (db : Database) (id : String) (now : ℕ)
    → as_text (get cs "rsid") ≡ some id
    → IsGone id db.refresh_sessions
    → session_revoked cs db now ≡ true
unfolding session_revoked refresh_session_ended
gone-revoked cs db id now named gone = elim (Bool-cases (issued_before_sessions_ended cs db)) [
  | inl earlier ↦ rw (earlier, session_revoked) refl
  | inr later ↦ rw (later, named, gone, session_revoked, refresh_session_ended) refl
]

end-find :
    (id other : String) (rows : List RefreshSession)
    → find row_id other (end rows id) ≡ (if id == other then none else find row_id other rows)
unfolding end
end-find id other rows = find-delete_key row_id id other rows

module _ {Token : Type 0} (jwt : Jwt Token) (lower : String → String)
    (check_password_hash : (hash password : String) → Bool)
    (generate_password_hash : String → String) (hash_token : String → String)
    (verify : ℕ → String → String → Bool) (settings : AuthSettings) where
  -- After any further requests, a token of the login is ended.
  gone-IsEnded :
      (id : String) (app : App) (requests : List (Request Token)) (held : Token) (cs : Fields)
      (decoded_at checked_at now : ℕ)
      → IsGone id app.db.refresh_sessions
      → All (DrawsOther id) requests
      → decode_claims jwt settings.tokens held decoded_at ≡ done cs
      → as_text (get cs "rsid") ≡ some id
      → IsEnded jwt settings.tokens held cs
          (after jwt lower check_password_hash generate_password_hash hash_token verify settings app
            requests).db
          decoded_at
          checked_at
          now
  gone-IsEnded id app requests held cs decoded_at checked_at now gone others read named =
      revoked-IsEnded jwt settings.tokens held cs _ decoded_at checked_at now read (
        gone-revoked cs _ id checked_at named (
          after-IsGone jwt lower check_password_hash generate_password_hash hash_token verify
            settings id app requests others gone))

  -- What a refresh with a reused token leaves: a refusal, and every record but that of its login.
  refresh-reused :
      (app : App) (token : Token) (decoded_at checked_at now : ℕ) (draws : Draws)
      (r : RefreshedSession)
      → verify_refresh_token jwt settings.tokens token app.db decoded_at checked_at now ≡ some r
      → r.standing ≡ reused
      → let (answer, later) =
          refresh jwt lower check_password_hash generate_password_hash hash_token verify settings
            app
            (some token)
            decoded_at
            checked_at
            now
            draws in
        (answer ≡ unauthorized)
        × (later.db.refresh_sessions ≡ end app.db.refresh_sessions r.refresh_session_id)
  unfolding refresh refresh_session
  refresh-reused app token decoded_at checked_at now draws r e again =
      rw (e, again, refresh, refresh_session) (refl, refl)

  -- A refresh token that comes back after it was used ends its login, and that one alone: the request is
  -- refused, no other record of a login changes, and after any further requests to the routes that draw
  -- other identifiers, every token of that login, whoever holds it, refreshes nothing and counts as revoked
  -- where it is an access token.
  pub reuse-ends_login :
      (app : App) (token : Token) (decoded_at checked_at now : ℕ) (draws : Draws)
      (r : RefreshedSession) (requests : List (Request Token)) (held : Token) (cs : Fields)
      (other : String) (later_decoded later_checked later_now : ℕ)
      → verify_refresh_token jwt settings.tokens token app.db decoded_at checked_at now ≡ some r
      → r.standing ≡ reused
      → All (DrawsOther r.refresh_session_id) requests
      → decode_claims jwt settings.tokens held later_decoded ≡ done cs
      → as_text (get cs "rsid") ≡ some r.refresh_session_id
      → let (answer, left) =
          refresh jwt lower check_password_hash generate_password_hash hash_token verify settings
            app
            (some token)
            decoded_at
            checked_at
            now
            draws in
        (answer ≡ unauthorized)
        × (find row_id other left.db.refresh_sessions ≡ (
            if r.refresh_session_id == other
            then none
            else find row_id other app.db.refresh_sessions))
        × IsEnded jwt settings.tokens held cs
            (after jwt lower check_password_hash generate_password_hash hash_token verify settings
              left requests).db
            later_decoded
            later_checked
            later_now
  unfolding end
  reuse-ends_login app token decoded_at checked_at now draws r requests held cs other later_decoded
        later_checked later_now e again others read named =
      let left =
        (refresh jwt lower check_password_hash generate_password_hash hash_token verify settings app
          (some token) decoded_at checked_at now draws).1 in
      let (refused, rows) = refresh-reused app token decoded_at checked_at now draws r e again in
      (
        refused,
        ap (find row_id other) rows ∙ end-find r.refresh_session_id other app.db.refresh_sessions,
        gone-IsEnded r.refresh_session_id left requests held cs later_decoded later_checked
            later_now
            (ap (find row_id r.refresh_session_id) rows
              ∙ find-delete_key_self row_id r.refresh_session_id app.db.refresh_sessions)
            others read named,
      )

  logout-rows :
      (app : App) (token : Token) (id : String) (ls : Fields) (now : ℕ)
      → decode_claims jwt settings.tokens token now ≡ done ls
      → login_to_end ls ≡ some id
      → (logout jwt lower check_password_hash generate_password_hash hash_token verify settings app
          (some token)
          now).1.db.refresh_sessions
        ≡ end app.db.refresh_sessions id
  unfolding logout end_refresh_session
  logout-rows app token id ls now read names = rw (read, names, logout, end_refresh_session) refl

  -- Signing out ends the login that the logout token names, and that one alone: no other record of a login
  -- changes, and after any further requests to the routes that draw other identifiers, every token of
  -- that login refreshes nothing and counts as revoked where it is an access token.
  pub logout-ends_login :
      (app : App) (token : Token) (id : String) (ls : Fields) (now : ℕ)
      (requests : List (Request Token)) (held : Token) (cs : Fields) (other : String)
      (later_decoded later_checked later_now : ℕ)
      → decode_claims jwt settings.tokens token now ≡ done ls
      → login_to_end ls ≡ some id
      → All (DrawsOther id) requests
      → decode_claims jwt settings.tokens held later_decoded ≡ done cs
      → as_text (get cs "rsid") ≡ some id
      → let (answer, left) =
          logout jwt lower check_password_hash generate_password_hash hash_token verify settings app
            (some token)
            now in
        (find row_id other left.db.refresh_sessions
          ≡ (if id == other then none else find row_id other app.db.refresh_sessions))
        × IsEnded jwt settings.tokens held cs
            (after jwt lower check_password_hash generate_password_hash hash_token verify settings
              left requests).db
            later_decoded
            later_checked
            later_now
  unfolding end
  logout-ends_login app token id ls now requests held cs other later_decoded later_checked later_now
        signed names others read named =
      let left =
        (logout jwt lower check_password_hash generate_password_hash hash_token verify settings app
          (some token) now).1 in
      let rows = logout-rows app token id ls now signed names in
      (
        ap (find row_id other) rows ∙ end-find id other app.db.refresh_sessions,
        gone-IsEnded id left requests held cs later_decoded later_checked later_now
            (ap (find row_id id) rows ∙ find-delete_key_self row_id id app.db.refresh_sessions)
            others read named,
      )
