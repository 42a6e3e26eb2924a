-- ===== src/SignIn.antt =====
-- presentation/fastapi/services/login_service.py: the checks of a sign-in by password, in their order,
-- with the counting of failures and the audit log. Passwords are hashed, and texts put into lower case,
-- by libraries, and one-time passwords computed by one: their functions are parameters. The table of
-- attempts is written in transactions of its own and the audit log after the request, so both last when
-- a sign-in is refused.
pub mod Guards
pub mod Answers
mod Tests
use fastapitemplate.Common.Decimal.{str}
use fastapitemplate.Common.Results.{Result, raised, done}
use fastapitemplate.Common.{
  ℕ, String, Bool, true, false, not, ◌&&◌, Option, none, some, List, string_eq, ◌==◌, if◌then◌else◌,
}
use fastapitemplate.Audit.{
  AuditEvent, AuditEventType, AuditResult, AuditTarget, target_user, success, failure,
  login_succeeded, login_failed, login_locked, record_event,
}
use fastapitemplate.Throttle.{
  ThrottlePolicy, LoginAttempts, Permission, allowed, too_many_attempts, require_allowed,
  record_attempt, record_success,
}
use fastapitemplate.TwoFactor.{
  TotpSecret, TotpError, totp_required, invalid_totp_code, verify_second_factor,
}
use fastapitemplate.Users.{User, Tenant}
use fastapitemplate.Users.Directory.{account_signing_in}

pub record LoginRequest : Type 0 where
  pub email : String
  pub password : String
  pub totp_code : Option String
  pub tenant : Option String

-- `PURPOSE_LOGIN`
abbrev pub purpose_login : String
purpose_login = "login"

-- `DEFAULT_ADMIN_PASSWORD`
abbrev pub default_admin_password : String
default_admin_password = "admin@example.com"

-- The tables that a sign-in reads, and the settings.
pub record Accounts : Type 0 where
  pub users : List User
  pub tenants : List Tenant
  pub totp_secrets : List TotpSecret
  pub policy : ThrottlePolicy
  -- `load_build_info().environment == PRODUCTION`
  pub in_production : Bool

-- What a sign-in writes.
pub record Trail : Type 0 where
  pub attempts : List LoginAttempts
  pub audit : List AuditEvent

-- Its readings of the clock: at the lock, at the second factor, and at the count.
pub record Readings : Type 0 where
  pub locked_at : ℕ
  pub verified_at : ℕ
  pub counted_at : ℕ

pub data Answer : Type 0 where
  signed_in : User → Answer
  -- 401, with the error of the same name
  invalid_credentials : Answer
  -- 401, with the code of the error of the second factor
  second_factor : TotpError → Answer
  -- 429
  locked : (retry_after_seconds : ℕ) → Answer

-- `AuditTarget.of(AuditTargetType.USER, user.id) if user is not None else None`
unfoldable pub user_target : Option ℕ → Option AuditTarget
unfolding str
user_target none = none
user_target (some id) = some (record { type = target_user; identifier = some (str id) })

-- `error.code`
abbrev pub error_code : TotpError → String
error_code totp_required = "totp_required"
error_code invalid_totp_code = "invalid_totp"
error_code TotpError.totp_already_enabled = "totp_already_enabled"
error_code TotpError.totp_not_enrolled = "totp_not_enrolled"

-- `_is_published_default`
unfoldable pub is_published_default : (in_production : Bool) → (password : String) → Bool
is_published_default in_production password =
    if not in_production then false else password == default_admin_password

module _ (lower : String → String) (check_password_hash : (hash password : String) → Bool)
    (verify : ℕ → String → String → Bool) where
  -- `LoginService._record_failure`
  unfoldable pub record_failure :
      ThrottlePolicy
      → Trail
      → (user_id : Option ℕ) → (reason identifier : String) → (now : ℕ) → Trail
  unfolding record_attempt record_event user_target
  record_failure policy trail user_id reason identifier now =
      let failed =
        record_event trail.audit none login_failed failure (user_target user_id) (some reason) in
      let (locks, attempts) =
        record_attempt lower policy trail.attempts purpose_login identifier now in
      record {
        attempts = attempts;
        audit =
            if locks
            then record_event failed none login_locked failure (user_target user_id) (some reason)
            else failed;
      }

  -- `LoginService._reject`
  unfoldable pub reject :
      ThrottlePolicy
      → Trail
      → (user_id : Option ℕ) → (reason identifier : String) → (now : ℕ) → Answer × Trail
  unfolding record_failure
  reject policy trail user_id reason identifier now =
      (invalid_credentials, record_failure policy trail user_id reason identifier now)

  -- What follows the second factor in `authenticate`, and `_verify_second_factor`
  unfoldable pub finish :
      Accounts
      → Trail
      → User
      → LoginRequest
      → Readings
      → Result TotpError (Unit {0})
      → Answer × Trail
  unfolding record_failure record_success record_event
  finish accounts trail user request at (raised error) = (
    second_factor error,
    record_failure accounts.policy trail (some user.id) (error_code error) request.email
        at.counted_at,
  )
  finish accounts trail user request at (done _) = (
    signed_in user,
    record {
      attempts = record_success lower accounts.policy trail.attempts purpose_login request.email;
      audit =
          record_event trail.audit (some user.id) login_succeeded success none
            (some "method=password");
    },
  )

  -- The checks of `authenticate` on the user's password, which may be missing.
  unfoldable pub check_secret :
      Accounts → Trail → User → LoginRequest → Readings → Option String → Answer × Trail
  unfolding reject finish verify_second_factor is_published_default
  check_secret accounts trail user request at none =
      reject accounts.policy trail (some user.id) "no_local_password" request.email at.counted_at
  check_secret accounts trail user request at (some hash) =
      if not (check_password_hash hash request.password)
      then reject accounts.policy trail (some user.id) "invalid_password" request.email
          at.counted_at
      else if is_published_default accounts.in_production request.password
      then reject accounts.policy trail (some user.id) "default_password" request.email
          at.counted_at
      else finish accounts trail user request at (
          verify_second_factor verify accounts.totp_secrets user.id request.totp_code
            at.verified_at)

  -- The checks of `authenticate` behind the lock, for the account that was found.
  unfoldable pub check_account :
      Accounts → Trail → LoginRequest → Readings → Option User → Answer × Trail
  unfolding reject check_secret
  check_account accounts trail request at none =
      reject accounts.policy trail none "unknown_email" request.email at.counted_at
  check_account accounts trail request at (some user) =
      if not user.is_active
      then reject accounts.policy trail (some user.id) "inactive_user" request.email at.counted_at
      else check_secret accounts trail user request at user.password_hash

  -- `_require_not_locked` for the answer of the throttle, and the rest of `authenticate`
  unfoldable pub pass_lock :
      Accounts → Trail → LoginRequest → Readings → Permission → Answer × Trail
  unfolding check_account account_signing_in record_event
  pass_lock accounts trail request at (too_many_attempts wait) = (
    locked wait,
    record trail {
      audit = record_event trail.audit none login_failed failure none (some "locked");
    },
  )
  pass_lock accounts trail request at allowed =
      check_account accounts trail request at
        (account_signing_in accounts.users accounts.tenants request.email request.tenant)

  -- `LoginService.authenticate`
  unfoldable pub authenticate : Accounts → Trail → LoginRequest → Readings → Answer × Trail
  unfolding require_allowed pass_lock
  authenticate accounts trail request at = pass_lock accounts trail request at (
      require_allowed lower accounts.policy trail.attempts purpose_login request.email at.locked_at)
