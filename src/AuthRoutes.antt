-- ===== src/AuthRoutes.antt =====
-- presentation/fastapi/routers/auth.py: the routes of signing in, going on and signing out, which compose
-- the password check, the tokens, the records of logins, the throttle, the reset of passwords and the
-- audit log. `App` is the state that they share; Sessions, Profile and Recovery are the routes. A request
-- runs in one transaction, which an exception rolls back, apart from what it committed before; the count of
-- attempts and the audit log last. The gate in front of a route (Gates) and the identifiers and times that
-- it draws are arguments.
pub mod Absence
pub mod Ending
pub mod History
pub mod Passwords
pub mod Profile
pub mod Recovery
pub mod Sessions
mod Tests
use fastapitemplate.Audit.{
  AuditEvent, AuditEventType, AuditResult, success, failure, refresh_token_reused, role_switched,
  password_changed, password_reset_requested, password_reset_completed, profile_updated,
  record_event,
}
use fastapitemplate.Common.Results.{Result, raised, done}
use fastapitemplate.Common.Table.{find, update_where}
use fastapitemplate.Common.Text.{append_text, join_texts, is_empty}
use fastapitemplate.Common.{
  ℕ, String, Bool, true, false, not, ◌&&◌, ◌||◌, Option, none, some, List, [], ◌∷◌, ◌++◌, is_some,
  none_or, some_and, nat_eq, string_eq, ◌==◌, if◌then◌else◌,
}
use fastapitemplate.Gates.{CurrentSession, signed_in_recently}
use fastapitemplate.PasswordReset.{
  Desk, PasswordResetToken, Mail, TokenError, with_password, request_reset, reset,
}
use fastapitemplate.Reconciliation.{FederatedIdentity, is_linked}
use fastapitemplate.RefreshSessions.{RefreshSession, RefreshStanding, reused, end}
use fastapitemplate.SessionCookies.{
  SessionCarryOver, Draws, Response, tenant_suspended, integrity_error, federated, local_login,
  fresh_sign_in, establish_session,
}
use fastapitemplate.SignIn.{
  Accounts, Trail, LoginRequest, Readings, Answer, signed_in, authenticate, user_target,
}
use fastapitemplate.Throttle.{
  ThrottlePolicy, LoginAttempts, Permission, allowed, too_many_attempts, require_allowed,
  record_attempt,
}
use fastapitemplate.Tokens.{Jwt, TokenSettings, Database}
use fastapitemplate.Tokens.Claims.{AuthenticatedPrincipal, RefreshedSession, carry}
use fastapitemplate.Tokens.Reading.{verify_refresh_token, end_refresh_session}
use fastapitemplate.Users.{User, has_role, tenant_admits, user_key}
use fastapitemplate.Users.Directory.{email_taken}

-- The settings that the routes read.
pub record AuthSettings : Type 0 where
  pub tokens : TokenSettings
  pub throttle : ThrottlePolicy
  pub in_production : Bool
  pub local_login_enabled : Bool
  pub recent_sign_in_seconds : ℕ
  pub password_reset_token_ttl_seconds : ℕ
  pub mail_enabled : Bool

pub record App : Type 0 where
  pub db : Database
  pub reset_tokens : List PasswordResetToken
  pub mails : List Mail
  pub links : List FederatedIdentity
  pub attempts : List LoginAttempts
  pub audit : List AuditEvent

pub data RouteAnswer : Type 0 where
  -- What `establish_session` answers
  session : Response → RouteAnswer
  -- A 401 of the sign-in, or a 429
  login_refused : Answer → RouteAnswer
  -- 401 `invalid_token`, and the same with the refresh cookies cleared
  unauthorized unauthorized_cleared : RouteAnswer
  logged_out accepted ok profile : RouteAnswer
  role_not_granted invalid_current_password invalid_or_expired_token : RouteAnswer
  local_login_disabled profile_managed_by_idp email_already_exists reauthentication_required :
      RouteAnswer
  too_many_requests : (retry_after_seconds : ℕ) → RouteAnswer
  server_error : RouteAnswer

abbrev pub with_audit :
    App
    → (actor : Option ℕ) → AuditEventType
    → AuditResult
    → (target : Option ℕ) → (reason : Option String) → App
with_audit app actor event result target reason = record app {
  audit = record_event app.audit actor event result (user_target target) reason;
}

abbrev pub with_rows : App → List RefreshSession → App
with_rows app rows = record app { db = record app.db { refresh_sessions = rows } }

abbrev pub with_users : App → List User → App
with_users app users = record app { db = record app.db { users = users } }

-- The request did not end in an exception.
abbrev pub is_established : Response → Bool
is_established tenant_suspended = false
is_established integrity_error = false
is_established (federated max_age) = true
is_established (local_login cookie) = true

-- `establish_session` for a user of the tables
unfoldable pub establish :
    AuthSettings → App → User → SessionCarryOver → Draws → Response × List RefreshSession
unfolding establish_session tenant_admits
establish settings app user carried draws =
    establish_session settings.tokens.refresh app.db.refresh_sessions user.id
      (tenant_admits app.db.tenants user) carried draws

-- The answer of a route that ends with `establish_session`.
abbrev pub opened : App → Response × List RefreshSession → RouteAnswer × App
opened app (response, rows) = (session response, with_rows app rows)
