-- ===== src/SessionCookies.antt =====
-- presentation/fastapi/services/session_cookies.py and session_carry_over.py: how a login gets its
-- cookies. The tokens themselves are signed by a library; what is kept of a refresh token here is
-- its login and its identifier. The random identifiers and the readings of the clock are arguments.
pub mod Laws
mod Tests
use fastapitemplate.Common.Text.{is_empty}
use fastapitemplate.Common.{
  ℕ, ◌*◌, String, Bool, true, false, Option, none, some, List, if◌then◌else◌,
}
use fastapitemplate.Federation.{FederatedLogin}
use fastapitemplate.RefreshSessions.{
  RefreshSession, IssuedRefreshToken, RefreshLifetime, Settings, lifetime_for, begin, rotate,
}

pub record SessionCarryOver : Type 0 where
  pub active_role : Option String
  pub federated_login : Option FederatedLogin
  pub authenticated_at : Option ℕ
  pub refresh_session_id : Option String
  pub presented_jti : Option String
  pub signed_in_with_passkey : Bool
  pub lifetime_from_session_id : Option String

-- `FRESH_SIGN_IN`
abbrev pub fresh_sign_in : SessionCarryOver
fresh_sign_in = record {
  active_role = none;
  federated_login = none;
  authenticated_at = none;
  refresh_session_id = none;
  presented_jti = none;
  signed_in_with_passkey = false;
  lifetime_from_session_id = none;
}

-- `left or right` for an optional string: an empty string counts as missing.
abbrev pub or_text : Option String → Option String → Option String
or_text none right = right
or_text (some s) right = if is_empty s then right else some s

-- `left or make()`
abbrev pub or_new : Option String → String → String
or_new none fresh = fresh
or_new (some s) fresh = if is_empty s then fresh else s

-- `RENEWAL_CARRY_SECONDS` of token_service.py
abbrev pub renewal_carry_seconds : ℕ
renewal_carry_seconds = 30 * 24 * 3600

-- What one request draws from outside: two random identifiers, and the clock at each of its reads.
pub record Draws : Type 0 where
  pub session_id : String
  pub jti : String
  pub lifetime_at : ℕ
  pub settled_at : ℕ
  pub stored_at : ℕ

-- The refresh and logout cookies; both have the same `max_age`.
pub record RefreshCookie : Type 0 where
  pub session_id : String
  pub jti : String
  pub expires_at : ℕ
  pub max_age : ℕ

pub data Response : Type 0 where
  tenant_suspended : Response
  integrity_error : Response
  -- Only the access token's cookie, kept for `max_age`; the refresh cookies are cleared.
  federated : (max_age : ℕ) → Response
  -- The access token's cookie, and the refresh cookies if the login's record was written.
  local_login : Option RefreshCookie → Response

-- `_record_refresh_session`: `none` is an `IntegrityError`.
unfoldable pub record_refresh_session :
    List RefreshSession
    → ℕ
    → IssuedRefreshToken
    → SessionCarryOver
    → Draws
    → Option (Bool × List RefreshSession)
unfolding begin rotate
record_refresh_session rows user_id issued carry draws = elim carry.refresh_session_id [
  | none ↦ elim (begin rows issued user_id draws.settled_at) [
    | none ↦ none
    | some rows' ↦ some (true, rows')
  ]
  | some _ ↦ some (rotate rows issued carry.presented_jti draws.settled_at draws.stored_at)
]

-- The identifiers and the lifetime that `create_token_pair` and `lifetime_for` settle on.
unfoldable pub issue :
    Settings → List RefreshSession → SessionCarryOver → Draws → IssuedRefreshToken
unfolding lifetime_for
issue settings rows carry draws = record {
  session_id = or_new carry.refresh_session_id draws.session_id;
  jti = draws.jti;
  lifetime =
      lifetime_for settings rows (or_text carry.refresh_session_id carry.lifetime_from_session_id)
        draws.lifetime_at;
}

abbrev pub cookie_of : IssuedRefreshToken → RefreshCookie
cookie_of issued = record {
  session_id = issued.session_id;
  jti = issued.jti;
  expires_at = issued.lifetime.expires_at;
  max_age = issued.lifetime.max_age;
}

abbrev pub respond :
    IssuedRefreshToken
    → List RefreshSession
    → Option (Bool × List RefreshSession)
    → Response × List RefreshSession
respond issued rows none = (integrity_error, rows)
respond issued rows (some (true, rows')) = (local_login (some (cookie_of issued)), rows')
respond issued rows (some (false, rows')) = (local_login none, rows')

-- The branch of `establish_session` for a password or a passkey.
unfoldable pub establish_local :
    Settings → List RefreshSession → ℕ → SessionCarryOver → Draws → Response × List RefreshSession
unfolding issue record_refresh_session
establish_local settings rows user_id carry draws =
    let issued = issue settings rows carry draws in
    respond issued rows (record_refresh_session rows user_id issued carry draws)

-- `establish_session`; `admits` is the answer of `tenant_admits` for the user.
unfoldable pub establish_session :
    Settings
    → List RefreshSession
    → ℕ
    → (admits : Bool) → SessionCarryOver
    → Draws
    → Response × List RefreshSession
unfolding establish_local
establish_session settings rows user_id admits carry draws =
    if admits
    then elim carry.federated_login [
      | some _ ↦ (federated renewal_carry_seconds, rows)
      | none ↦ establish_local settings rows user_id carry draws
    ]
    else (tenant_suspended, rows)
