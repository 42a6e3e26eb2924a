-- ===== src/AuthRoutes/Sessions.antt =====
-- The routes of presentation/fastapi/routers/auth.py that begin, continue and end a login: `login`, `refresh`,
-- `logout` and `switch_role`.
use fastapitemplate.Audit.{success, failure, refresh_token_reused, role_switched, record_event}
use fastapitemplate.Common.Text.{append_text, is_empty}
use fastapitemplate.Common.{
  ℕ, String, Bool, not, Option, none, some, List, none_or, nat_eq, string_eq, if◌then◌else◌,
}
use fastapitemplate.Gates.{CurrentSession}
use fastapitemplate.RefreshSessions.{RefreshSession, reused, end}
use fastapitemplate.SessionCookies.{SessionCarryOver, Draws, Response, fresh_sign_in}
use fastapitemplate.SignIn.{
  Accounts, Trail, LoginRequest, Readings, Answer, signed_in, authenticate, user_target,
}
use fastapitemplate.Tokens.{Jwt}
use fastapitemplate.Tokens.Claims.{RefreshedSession, carry}
use fastapitemplate.Tokens.Reading.{verify_refresh_token, end_refresh_session}
use fastapitemplate.Users.{has_role}
use fastapitemplate.AuthRoutes.{
  AuthSettings, App, RouteAnswer, with_audit, with_rows, is_established, establish, opened, session,
  login_refused, unauthorized, unauthorized_cleared, logged_out, role_not_granted,
  local_login_disabled,
}

-- `refresh` for a token that was accepted.
unfoldable pub refresh_session : AuthSettings → App → RefreshedSession → Draws → RouteAnswer × App
unfolding end establish record_event carry user_target
refresh_session settings app refreshed draws = elim refreshed.standing [
  | reused ↦ (
    unauthorized,
    with_audit (with_rows app (end app.db.refresh_sessions refreshed.refresh_session_id)) none
        refresh_token_reused failure (some refreshed.user.id) none,
  )
  | _ ↦ elim refreshed.federated_login [
    | some _ ↦ (
      unauthorized_cleared,
      with_rows app (end app.db.refresh_sessions refreshed.refresh_session_id),
    )
    | none ↦ opened app (establish settings app refreshed.user (carry refreshed) draws)
  ]
]

-- What a switch of the role carries over.
abbrev pub switched_carry : CurrentSession → (role : Option String) → SessionCarryOver
switched_carry current role = record {
  active_role = role;
  federated_login = current.federated_login;
  authenticated_at = current.authenticated_at;
  refresh_session_id = current.refresh_session_id;
  presented_jti = none;
  signed_in_with_passkey = current.signed_in_with_passkey;
  lifetime_from_session_id = none;
}

-- `body.role or 'all'`
abbrev pub role_label : Option String → String
role_label none = "all"
role_label (some role) = if is_empty role then "all" else role

-- The end of `switch_role`: an exception leaves no event.
abbrev pub switched :
    App → ℕ → (role : Option String) → Response × List RefreshSession → RouteAnswer × App
switched app user_id role (response, rows) =
    if is_established response
    then (
      session response,
      with_audit (with_rows app rows) (some user_id) role_switched success none
          (some (append_text "role=" (role_label role))),
    )
    else (session response, with_rows app rows)

-- `switch_role`
unfoldable pub switch_role :
    AuthSettings → App → CurrentSession → (role : Option String) → Draws → RouteAnswer × App
unfolding has_role establish record_event
switch_role settings app current role draws =
    if none_or (has_role current.user.roles) role
    then switched app current.user.id role
        (establish settings app current.user (switched_carry current role) draws)
    else (
      role_not_granted,
      with_audit app (some current.user.id) role_switched failure none (some "role_not_granted"),
    )

module _ {Token : Type 0} (jwt : Jwt Token) (lower : String → String)
    (check_password_hash : (hash password : String) → Bool)
    (generate_password_hash : String → String) (hash_token : String → String)
    (verify : ℕ → String → String → Bool) (settings : AuthSettings) where
  -- `refresh`; `none` is a missing cookie.
  unfoldable pub refresh :
      App → Option Token → (decoded_at checked_at now : ℕ) → Draws → RouteAnswer × App
  unfolding verify_refresh_token refresh_session
  refresh app none decoded_at checked_at now draws = (unauthorized, app)
  refresh app (some token) decoded_at checked_at now draws =
      elim (verify_refresh_token jwt settings.tokens token app.db decoded_at checked_at now) [
        | none ↦ (unauthorized, app)
        | some refreshed ↦ refresh_session settings app refreshed draws
      ]

  -- `logout`
  unfoldable pub logout : App → Option Token → (now : ℕ) → RouteAnswer × App
  unfolding end_refresh_session
  logout app none now = (logged_out, app)
  logout app (some token) now = (
    logged_out,
    with_rows app (end_refresh_session jwt settings.tokens token app.db.refresh_sessions now),
  )

  abbrev pub accounts_in : App → Accounts
  accounts_in app = record {
    users = app.db.users;
    tenants = app.db.tenants;
    totp_secrets = app.db.totp_secrets;
    policy = settings.throttle;
    in_production = settings.in_production;
  }

  -- What `authenticate` wrote lasts in any case.
  abbrev pub with_trail : App → Trail → App
  with_trail app trail = record app { attempts = trail.attempts; audit = trail.audit }

  -- `login`, after `authenticate`.
  unfoldable pub enter : App → Draws → Answer × Trail → RouteAnswer × App
  unfolding establish
  enter app draws (signed_in user, trail) =
      opened (with_trail app trail)
        (establish settings (with_trail app trail) user fresh_sign_in draws)
  enter app draws (refusal, trail) = (login_refused refusal, with_trail app trail)

  -- `login`
  unfoldable pub login : App → LoginRequest → Readings → Draws → RouteAnswer × App
  unfolding enter authenticate
  login app request at draws =
      if not settings.local_login_enabled
      then (local_login_disabled, app)
      else enter app draws (
          authenticate lower check_password_hash verify (accounts_in app)
            (record { attempts = app.attempts; audit = app.audit }) request at)
