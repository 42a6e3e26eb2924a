-- ===== src/AuthRoutes/Recovery.antt =====
-- The routes of presentation/fastapi/routers/auth.py that change a password: `change_password`,
-- `forgot_password` and `reset_password`.
use fastapitemplate.Audit.{
  success, failure, password_changed, password_reset_requested, password_reset_completed,
  record_event,
}
use fastapitemplate.Common.Results.{Result, raised, done}
use fastapitemplate.Common.Table.{update_where}
use fastapitemplate.Common.{
  ℕ, String, Bool, not, Option, none, some, List, some_and, nat_eq, string_eq, ◌==◌, if◌then◌else◌,
}
use fastapitemplate.Gates.{CurrentSession}
use fastapitemplate.PasswordReset.{Desk, TokenError, with_password, request_reset, reset}
use fastapitemplate.RefreshSessions.{RefreshSession}
use fastapitemplate.SessionCookies.{SessionCarryOver, Draws, Response}
use fastapitemplate.Throttle.{
  Permission, allowed, too_many_attempts, require_allowed, record_attempt,
}
use fastapitemplate.Tokens.{Jwt}
use fastapitemplate.AuthRoutes.{
  AuthSettings, App, RouteAnswer, with_audit, with_rows, with_users, is_established, establish,
  session, accepted, ok, invalid_current_password, invalid_or_expired_token, local_login_disabled,
  too_many_requests, server_error,
}

-- `PURPOSE_PASSWORD_RESET`
abbrev pub purpose_password_reset : String
purpose_password_reset = "password_reset"

-- What a change of the password carries over.
abbrev pub changed_carry : CurrentSession → SessionCarryOver
changed_carry current = record {
  active_role = current.active_role;
  federated_login = current.federated_login;
  authenticated_at = none;
  refresh_session_id = none;
  presented_jti = none;
  signed_in_with_passkey = current.signed_in_with_passkey;
  lifetime_from_session_id = current.refresh_session_id;
}

abbrev pub desk_in : App → Desk
desk_in app = record {
  users = app.db.users;
  tenants = app.db.tenants;
  tokens = app.reset_tokens;
  mails = app.mails;
}

abbrev pub with_desk : App → Desk → App
with_desk app desk = record (with_users app desk.users) {
  reset_tokens = desk.tokens;
  mails = desk.mails;
}

-- The end of `forgot_password`, after `request_reset`.
abbrev pub requested : App → Result TokenError (Option ℕ × Desk) → RouteAnswer × App
requested app (raised error) = (server_error, app)
requested app (done (none, desk)) = (
  accepted,
  with_audit (with_desk app desk) none password_reset_requested failure none (some "unknown_email"),
)
requested app (done (some user_id, desk)) = (
  accepted,
  with_audit (with_desk app desk) none password_reset_requested success (some user_id) none,
)

-- The end of `reset_password`
abbrev pub completed : App → Option ℕ × Desk → RouteAnswer × App
completed app (none, desk) = (
  invalid_or_expired_token,
  with_audit app none password_reset_completed failure none (some "invalid_or_expired_token"),
)
completed app (some user_id, desk) =
    (ok, with_audit (with_desk app desk) none password_reset_completed success (some user_id) none)

module _ {Token : Type 0} (jwt : Jwt Token) (lower : String → String)
    (check_password_hash : (hash password : String) → Bool)
    (generate_password_hash : String → String) (hash_token : String → String)
    (verify : ℕ → String → String → Bool) (settings : AuthSettings) where
  -- The end of `change_password`: an exception takes the new password back.
  abbrev pub changed : App → App → ℕ → Response × List RefreshSession → RouteAnswer × App
  changed app after user_id (response, rows) =
      if is_established response
      then (ok, with_audit (with_rows after rows) (some user_id) password_changed success none none)
      else (session response, app)

  -- `change_password` behind its checks.
  unfoldable pub set_password :
      App → CurrentSession → (new_password : String) → (ended_at : ℕ) → Draws → RouteAnswer × App
  unfolding with_password update_where establish record_event
  set_password app current new_password ended_at draws =
      let change = with_password (generate_password_hash new_password) ended_at in
      let after =
        with_users app (update_where (λ u. u.id == current.user.id) change app.db.users) in
      changed app after current.user.id
        (establish settings after (change current.user) (changed_carry current) draws)

  -- `change_password`
  unfoldable pub change_password :
      App
      → CurrentSession
      → (current_password new_password : String) → (ended_at : ℕ) → Draws
      → RouteAnswer × App
  unfolding set_password record_event
  change_password app current current_password new_password ended_at draws =
      if not settings.local_login_enabled
      then (local_login_disabled, app)
      else if not
          (some_and (λ hash. check_password_hash hash current_password) current.user.password_hash)
      then (
        invalid_current_password,
        with_audit app (some current.user.id) password_changed failure none
            (some "invalid_current_password"),
      )
      else set_password app current new_password ended_at draws

  -- `forgot_password` behind the throttle.
  unfoldable pub forgot_allowed :
      App
      → (email : String) → (tenant : Option String) → (token : String) → (counted_at now : ℕ)
      → Permission
      → RouteAnswer × App
  unfolding record_attempt request_reset record_event
  forgot_allowed app email tenant token counted_at now (too_many_attempts wait) =
      (too_many_requests wait, app)
  forgot_allowed app email tenant token counted_at now allowed =
      let (locks, attempts) =
        record_attempt lower settings.throttle app.attempts purpose_password_reset email
          counted_at in
      let counted = record app { attempts = attempts } in
      requested counted (
        request_reset hash_token generate_password_hash (desk_in counted) email tenant token
          settings.password_reset_token_ttl_seconds settings.mail_enabled now)

  -- `forgot_password`
  unfoldable pub forgot_password :
      App
      → (email : String) → (tenant : Option String) → (token : String)
      → (allowed_at counted_at now : ℕ) → RouteAnswer × App
  unfolding forgot_allowed require_allowed
  forgot_password app email tenant token allowed_at counted_at now =
      if not settings.local_login_enabled
      then (local_login_disabled, app)
      else forgot_allowed app email tenant token counted_at now (
          require_allowed lower settings.throttle app.attempts purpose_password_reset email
            allowed_at)

  -- `reset_password`
  unfoldable pub reset_password :
      App → (token new_password : String) → (checked_at ended_at used_at : ℕ) → RouteAnswer × App
  unfolding reset record_event
  reset_password app token new_password checked_at ended_at used_at =
      if not settings.local_login_enabled
      then (local_login_disabled, app)
      else completed app (
          reset hash_token generate_password_hash (desk_in app) token new_password checked_at
            ended_at used_at)
