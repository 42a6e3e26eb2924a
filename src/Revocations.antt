-- ===== src/Revocations.antt =====
-- Ending the sessions of an identity provider, in bounded_contexts/identity_federation:
-- domain/value_objects/logout_notice.py, domain/entities/session_revocation.py,
-- infrastructure/sql_session_revocation_repository.py and application/use_cases/
-- receive_backchannel_logout.py and check_session_revocation.py. The table is the list of its rows.
-- The signature of a logout token is checked by a library: the model starts at its claims.
pub mod Laws
pub mod Notices
mod Tests
use fastapitemplate.Common.Clock.{seconds}
use fastapitemplate.Common.Results.{Result, raised, done, and_then}
use fastapitemplate.Common.Table.{find, delete_where}
use fastapitemplate.Common.Text.{is_empty}
use fastapitemplate.Common.Value.{Value, Fields, object, get, has, stripped_text}
use fastapitemplate.Common.{
  ℕ, ◌+◌, String, Bool, true, false, not, ◌&&◌, ◌||◌, Option, none, some, List, [], ◌∷◌, ◌++◌, ltb,
  leb, none_or, is_some, string_eq, option_eq, ◌==◌, if◌then◌else◌,
}
use fastapitemplate.Federation.{FederatedSession, FederatedLogin}
use fastapitemplate.RefreshSessions.{RefreshSession}

-- `LOGOUT_EVENT`
abbrev pub logout_event : String
logout_event = "http://schemas.openid.net/event/backchannel-logout"

pub data LogoutError : Type 0 where
  invalid_logout_token : LogoutError

pub record LogoutNotice : Type 0 where
  pub jti : String
  pub session : FederatedSession

-- `_ensure_logout_event` passes.
unfoldable pub is_logout_event : Value → Bool
unfolding has
is_logout_event (object events) = has events logout_event
is_logout_event _ = false

-- `text or None`
abbrev pub text_or_none : String → Option String
text_or_none s = if is_empty s then none else some s

-- `LogoutNotice.from_claims`
unfoldable pub from_claims : Fields → (issuer : String) → Result LogoutError LogoutNotice
unfolding is_logout_event get has stripped_text
from_claims claims issuer =
    let jti = stripped_text (get claims "jti") in
    let subject = stripped_text (get claims "sub") in
    let session_id = stripped_text (get claims "sid") in
    if not (is_logout_event (get claims "events"))
    then raised invalid_logout_token
    else if has claims "nonce"
    then raised invalid_logout_token
    else if is_empty jti
    then raised invalid_logout_token
    else if is_empty subject && is_empty session_id
    then raised invalid_logout_token
    else done (record {
      jti = jti;
      session = record { issuer = issuer; subject = subject; session_id = text_or_none session_id };
    })

-- `SessionRevocation`, which is also a row of the table.
pub record SessionRevocation : Type 0 where
  pub jti : String
  pub session : FederatedSession
  pub revoked_at : ℕ
  pub expires_at : ℕ

abbrev pub jti_of : SessionRevocation → String
jti_of r = r.jti

-- `SessionRevocation.of`
unfoldable pub revocation_of : LogoutNotice → (now keep_for_seconds : ℕ) → SessionRevocation
revocation_of notice now keep_for_seconds = record {
  jti = notice.jti;
  session = notice.session;
  revoked_at = now;
  expires_at = now + seconds keep_for_seconds;
}

-- `SessionRevocation.covers`
unfoldable pub covers : SessionRevocation → FederatedLogin → Bool
covers r login =
    if not (r.session.issuer == login.session.issuer && r.session.subject == login.session.subject)
    then false
    else if is_some r.session.session_id && not (r.session.session_id == login.session.session_id)
    then false
    else leb login.started_at r.revoked_at

-- `select(func.max(RefreshSession.expires_at))`
unfoldable pub last_end : List RefreshSession → Option ℕ
last_end [] = none
last_end (row ∷ rows) = elim (last_end rows) [
  | none ↦ some row.expires_at
  | some t ↦ some (if leb t row.expires_at then row.expires_at else t)
]

-- `SqlSessionRevocationRepository._kept_until`
unfoldable pub kept_until : List RefreshSession → ℕ → ℕ
unfolding last_end
kept_until logins earliest = elim (last_end logins) [
  | none ↦ earliest
  | some t ↦ if leb earliest t then t else earliest
]

-- `SqlSessionRevocationRepository.record`; `now` is its reading of the clock.
unfoldable pub record_revocation :
    List RefreshSession
    → List SessionRevocation
    → SessionRevocation
    → ℕ
    → Bool × List SessionRevocation
unfolding delete_where find kept_until
record_revocation logins rows revocation now =
    let swept = delete_where (λ r. ltb r.expires_at now) rows in
    if is_some (find jti_of revocation.jti swept) then (false, swept) else (
      true,
      swept ++ record revocation { expires_at = kept_until logins revocation.expires_at } ∷ [],
    )

-- `matches_session` of `is_revoked`: a row without a session is for all sessions of its user.
abbrev pub matches_session : (target stored : Option String) → Bool
matches_session none stored = not (is_some stored)
matches_session (some s) stored = not (is_some stored) || stored == some s

-- The condition of `is_revoked`
unfoldable pub matches : FederatedLogin → SessionRevocation → Bool
matches login r =
    r.session.issuer == login.session.issuer
    && r.session.subject == login.session.subject
    && leb login.started_at r.revoked_at
    && matches_session login.session.session_id r.session.session_id

-- `SqlSessionRevocationRepository.is_revoked`
unfoldable pub is_revoked : List SessionRevocation → FederatedLogin → Bool
unfolding matches
is_revoked [] login = false
is_revoked (r ∷ rows) login = matches login r || is_revoked rows login

-- `CheckSessionRevocation.execute`
unfoldable pub check_revocation : List SessionRevocation → Option FederatedLogin → Bool
unfolding is_revoked
check_revocation rows none = false
check_revocation rows (some login) = is_revoked rows login

-- `ReceiveBackchannelLogout.execute`, from the claims of a verified token; `revoked_at` and `now` are
-- the two readings of the clock.
unfoldable pub receive_logout :
    List RefreshSession
    → List SessionRevocation
    → Fields
    → (issuer : String) → (keep_for_seconds revoked_at now : ℕ)
    → Result LogoutError (LogoutNotice × List SessionRevocation)
unfolding from_claims revocation_of record_revocation
receive_logout logins rows claims issuer keep_for_seconds revoked_at now =
    and_then (from_claims claims issuer) (λ notice. done (
      notice,
      (record_revocation logins rows (revocation_of notice revoked_at keep_for_seconds) now).1,
    ))
