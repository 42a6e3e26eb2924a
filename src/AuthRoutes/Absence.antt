-- ===== src/AuthRoutes/Absence.antt =====
-- A login that has no record gets none by the routes that go on with a login.
use fastapitemplate.Common.Results.{Result, raised, done}
use fastapitemplate.Common.Table.{find, delete_where, find-delete_key, find-update_where}
use fastapitemplate.Common.Table.Keys.{find-delete_where-none, find-insert_row}
use fastapitemplate.Common.{
  ℕ, ◌≡◌, ◌≢◌, refl, ◌∙◌, sym, ap, subst, String, Bool, true, false, Option, none, some, List,
  arith, string_eq, nat_eq, Option-cases, Bool-cases, inl, inr, if-both, ltb,
}
use fastapitemplate.PasswordReset.{TokenError, Desk}
use fastapitemplate.RefreshSessions.{
  RefreshSession, row_id, end, begin, rotate, new_row, IssuedRefreshToken, may_rotate, rotated_row,
}
use fastapitemplate.SessionCookies.{
  SessionCarryOver, Draws, Response, establish_session, establish_local, issue,
  record_refresh_session, respond, or_new,
}
use fastapitemplate.Tokens.Claims.{RefreshedSession, carry}
use fastapitemplate.Users.{User, tenant_admits}
use fastapitemplate.AuthRoutes.{App, AuthSettings, RouteAnswer, establish, is_established}
use fastapitemplate.AuthRoutes.Sessions.{refresh_session, login, switched}
use fastapitemplate.AuthRoutes.Recovery.{requested, completed}

-- There is no record of the login.
abbrev pub IsGone : String → List RefreshSession → Type 0
IsGone id rows = find row_id id rows ≡ none

rotate-IsGone :
    (id : String) (rows : List RefreshSession) (issued : IssuedRefreshToken)
    (expected : Option String) (settled_at stored_at : ℕ)
    → IsGone id rows
    → IsGone id (rotate rows issued expected settled_at stored_at).1
unfolding rotate rotated_row
rotate-IsGone id rows issued expected settled_at stored_at gone =
    find-update_where row_id (may_rotate issued expected settled_at) (rotated_row issued stored_at)
      id rows (λ r. refl)
    ∙ rw gone refl

begin-IsGone :
    (id : String) (rows out : List RefreshSession) (issued : IssuedRefreshToken) (user_id now : ℕ)
    → issued.session_id ≢ id
    → begin rows issued user_id now ≡ some out
    → IsGone id rows
    → IsGone id out
unfolding begin new_row
begin-IsGone id rows out issued user_id now other e gone =
    let kept = find-delete_where-none row_id (λ r. ltb r.expires_at now) id rows gone in
    find-insert_row row_id (new_row issued user_id) id
      (delete_where (λ r. ltb r.expires_at now) rows) out e
    ∙ ground (arith, string_eq.beq_iff issued.session_id id)

respond-IsGone :
    (id : String) (issued : IssuedRefreshToken) (rows : List RefreshSession)
    (recorded : Option (Bool × List RefreshSession))
    → ((done_ : Bool) (out : List RefreshSession) → recorded ≡ some (done_, out) → IsGone id out)
    → IsGone id rows
    → IsGone id (respond issued rows recorded).1
respond-IsGone id issued rows none h gone = gone
respond-IsGone id issued rows (some (true, out)) h gone = h true out refl
respond-IsGone id issued rows (some (false, out)) h gone = h false out refl

recorded-IsGone :
    (id : String) (rows : List RefreshSession) (user_id : ℕ) (issued : IssuedRefreshToken)
    (carried : SessionCarryOver) (draws : Draws) (told : Bool) (out : List RefreshSession)
    → issued.session_id ≡ or_new carried.refresh_session_id draws.session_id
    → draws.session_id ≢ id
    → IsGone id rows
    → record_refresh_session rows user_id issued carried draws ≡ some (told, out)
    → IsGone id out
unfolding record_refresh_session
recorded-IsGone id rows user_id issued carried draws told out named other gone e =
    elim (Option-cases carried.refresh_session_id) [
      | inr (s, continued) ↦
          let same : rotate rows issued carried.presented_jti draws.settled_at draws.stored_at
              ≡ (told, out) =
            ground arith in
          subst (λ r. IsGone id r.1) same
            (rotate-IsGone id rows issued carried.presented_jti draws.settled_at draws.stored_at
              gone)
      | inl new ↦ elim (Option-cases (begin rows issued user_id draws.settled_at)) [
        | inl taken ↦ absurd (ground arith)
        | inr (rows', begun) ↦
            let drawn : issued.session_id ≡ draws.session_id =
              named ∙ ap (λ o. or_new o draws.session_id) new in
            let same : rows' ≡ out = ground arith in
            subst (IsGone id) same (
              begin-IsGone id rows rows' issued user_id draws.settled_at
                (λ p. other (sym drawn ∙ p)) begun gone)
      ]
    ]

pub establish-IsGone :
    (id : String) (settings : AuthSettings) (app : App) (user : User) (carried : SessionCarryOver)
    (draws : Draws)
    → draws.session_id ≢ id
    → IsGone id app.db.refresh_sessions
    → IsGone id (establish settings app user carried draws).1
unfolding establish establish_session establish_local issue
establish-IsGone id settings app user carried draws other gone =
    elim (Bool-cases (tenant_admits app.db.tenants user)) [
      | inr closed ↦ rw (closed, establish, establish_session) gone
      | inl open_ ↦ elim (Option-cases carried.federated_login) [
        | inr (login, there) ↦ rw (open_, there, establish, establish_session) gone
        | inl here ↦
            let issued = issue settings.tokens.refresh app.db.refresh_sessions carried draws in
            rw (open_, here, establish, establish_session, establish_local)
              (respond-IsGone id issued app.db.refresh_sessions
                (record_refresh_session app.db.refresh_sessions user.id issued carried draws)
                (λ told out e.
                  recorded-IsGone id app.db.refresh_sessions user.id issued carried draws told out
                    refl other gone e)
                gone)
      ]
    ]

-- The login has no record in the state that a route leaves.
abbrev pub IsOver : String → RouteAnswer × App → Type 0
IsOver id (answer, app) = IsGone id app.db.refresh_sessions

pub switched-IsOver :
    (id : String) (app : App) (user_id : ℕ) (role : Option String)
    (r : Response × List RefreshSession)
    → IsGone id r.1
    → IsOver id (switched app user_id role r)
switched-IsOver id app user_id role (response, rows) gone =
    if-both (IsOver id) (is_established response) gone gone

pub requested-IsOver :
    (id : String) (app : App) (r : Result TokenError (Option ℕ × Desk))
    → IsGone id app.db.refresh_sessions
    → IsOver id (requested app r)
requested-IsOver id app (raised e) gone = gone
requested-IsOver id app (done (none, desk)) gone = gone
requested-IsOver id app (done (some u, desk)) gone = gone

pub completed-IsOver :
    (id : String) (app : App) (r : Option ℕ × Desk)
    → IsGone id app.db.refresh_sessions
    → IsOver id (completed app r)
completed-IsOver id app (none, desk) gone = gone
completed-IsOver id app (some u, desk) gone = gone

pub end-IsGone :
    (id other : String) (rows : List RefreshSession) → IsGone id rows → IsGone id (end rows other)
unfolding end
end-IsGone id other rows gone = ground (arith, find-delete_key row_id other id rows)

pub refresh_session-IsOver :
    (id : String) (settings : AuthSettings) (app : App) (refreshed : RefreshedSession)
    (draws : Draws)
    → draws.session_id ≢ id
    → IsGone id app.db.refresh_sessions
    → IsOver id (refresh_session settings app refreshed draws)
unfolding refresh_session
refresh_session-IsOver id settings app refreshed draws other gone =
    let ended = end-IsGone id refreshed.refresh_session_id app.db.refresh_sessions gone in
    let continued =
      establish-IsGone id settings app refreshed.user (carry refreshed) draws other gone in
    ground (arith, ended, continued)
