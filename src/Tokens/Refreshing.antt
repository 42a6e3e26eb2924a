-- ===== src/Tokens/Refreshing.antt =====
-- A refresh token carries its login over whole, and is accepted for a login that still stands only.
use fastapitemplate.Common.Clock.{second}
use fastapitemplate.Common.Decimal.{str, int-str}
use fastapitemplate.Common.Results.{done}
use fastapitemplate.Common.Table.{find}
use fastapitemplate.Common.Value.{Fields, get, as_text, as_int}
use fastapitemplate.Common.{
  ℕ, ◌*◌, ◌/◌, ◌≤◌, ◌<◌, ◌≡◌, refl, ◌∙◌, String, true, false, Option, some, or_else, arith, List,
  none_or, leb, leb→le, string_eq, nat_eq, Option-cases, inl, inr,
}
use fastapitemplate.RefreshSessions.{RefreshSession, row_id, has_expired, standing_of}
use fastapitemplate.Revocations.{check_revocation}
use fastapitemplate.SessionCookies.{SessionCarryOver, or_new}
use fastapitemplate.Tokens.{
  Jwt, TokenSettings, Database, base_claims, refresh_claims, create_token_pair,
}
use fastapitemplate.Tokens.Claims.{
  RefreshedSession, subject_of, active_role_of, login_of, authenticated_at_of, has_type,
}
use fastapitemplate.Tokens.Reading.{
  verify_refresh_token, check_refresh, load_active_user, session_revoked,
  issued_before_sessions_ended, refresh_session_ended, refreshed_with, issued_before_boundary,
}
use fastapitemplate.Tokens.Carry.{ReadsBack, as_text-optional_text, login_of-tail, rsid-tail}
use fastapitemplate.Users.{User, user_key, tenant_admits}

-- What a refresh finds in its token: the user as the table has them now, and the rest as it was written.
abbrev pub refreshed_for :
    User
    → SessionCarryOver
    → RefreshSession
    → (id jti : String) → (issued now : ℕ) → RefreshedSession
refreshed_for holder c row id jti issued now = record {
  user = holder;
  active_role = c.active_role;
  federated_login = c.federated_login;
  authenticated_at = or_else c.authenticated_at issued / second * second;
  signed_in_with_passkey = c.signed_in_with_passkey;
  refresh_session_id = id;
  jti = jti;
  standing = standing_of row jti now;
}

settled_boundary :
    (u : User) (n : ℕ)
    → none_or (λ v. leb (v / second) n) u.sessions_valid_from ≡ true
    → issued_before_boundary (some n) (some u) ≡ false
settled_boundary u n h = elim (Option-cases u.sessions_valid_from) [
  | inl e ↦ rw e refl
  | inr (v, e) ↦ ground (arith, leb→le (v / second) n, e)
]

module _ (settings : TokenSettings) (db : Database) (user holder : User) (c : SessionCarryOver)
    (id jti : String) (row : RefreshSession) (issued expires_at checked_at now : ℕ) where
  abbrev claims : Fields
  claims = refresh_claims (base_claims settings user c (some id) issued) jti expires_at

  claims-login : login_of claims ≡ c.federated_login
  unfolding refresh_claims base_claims login_of
  claims-login = login_of-tail c.federated_login (some id)

  claims-rsid : as_text (get claims "rsid") ≡ some id
  unfolding refresh_claims base_claims as_text get
  claims-rsid = rw (rsid-tail c.federated_login (some id)) refl

  claims-subject : subject_of claims ≡ some user.id
  unfolding refresh_claims base_claims subject_of
  claims-subject = int-str user.id

  -- A token that is not older than the boundary of its user is not ended by it.
  claims-settled :
      find user_key user.id db.users ≡ some holder
      → none_or (λ v. leb (v / second) (issued / second)) holder.sessions_valid_from ≡ true
      → issued_before_sessions_ended claims db ≡ false
  unfolding issued_before_sessions_ended refresh_claims base_claims as_int get
  claims-settled found settled =
      rw (claims-subject, found, issued_before_sessions_ended)
        (settled_boundary holder (issued / second) settled)

  claims-kept :
      find row_id id db.refresh_sessions ≡ some row
      → has_expired row checked_at ≡ false
      → refresh_session_ended claims db checked_at ≡ false
  unfolding refresh_session_ended
  claims-kept kept current = rw (claims-rsid, kept, refresh_session_ended) current

  claims-standing :
      find user_key user.id db.users ≡ some holder
      → none_or (λ v. leb (v / second) (issued / second)) holder.sessions_valid_from ≡ true
      → find row_id id db.refresh_sessions ≡ some row
      → has_expired row checked_at ≡ false
      → check_revocation db.revocations c.federated_login ≡ false
      → session_revoked claims db checked_at ≡ false
  unfolding session_revoked
  claims-standing found settled kept current allowed =
      rw (claims-settled found settled, claims-kept kept current, claims-login) allowed

  claims-user :
      find user_key user.id db.users ≡ some holder
      → holder.is_active ≡ true
      → tenant_admits db.tenants holder ≡ true
      → load_active_user claims db ≡ some holder
  unfolding load_active_user
  claims-user found active admitted =
      rw (claims-subject, found, active, admitted, load_active_user) refl

  claims-type : has_type claims "refresh" ≡ true
  unfolding has_type refresh_claims
  claims-type = refl

  claims-jti : as_text (get claims "jti") ≡ some jti
  unfolding refresh_claims as_text get
  claims-jti = refl

  claims-carried :
      find row_id id db.refresh_sessions ≡ some row
      → refreshed_with claims db holder (some id) (some jti) now
        ≡ some (refreshed_for holder c row id jti issued now)
  unfolding refreshed_with refresh_claims base_claims active_role_of authenticated_at_of
  claims-carried kept =
      rw (kept, claims-login, as_text-optional_text c.active_role, refreshed_with) refl

  claims-refreshed :
      load_active_user claims db ≡ some holder
      → find row_id id db.refresh_sessions ≡ some row
      → session_revoked claims db checked_at ≡ false
      → check_refresh claims db checked_at now ≡ some (refreshed_for holder c row id jti issued now)
  unfolding check_refresh
  claims-refreshed user_ok kept allowed =
      rw (claims-type, user_ok, allowed, claims-rsid, claims-jti, check_refresh)
        (claims-carried kept)

verify-read :
    {Token : Type 0} (jwt : Jwt Token) (settings : TokenSettings) (token : Token) (db : Database)
    (decoded_at checked_at now : ℕ) (cs : Fields)
    → jwt.decode token settings.jwt_secret_key settings.access_token_audience
        settings.access_token_issuer 0 decoded_at
      ≡ done cs
    → verify_refresh_token jwt settings token db decoded_at checked_at now
      ≡ check_refresh cs db checked_at now
unfolding verify_refresh_token
verify-read jwt settings token db decoded_at checked_at now cs e = rw (e, verify_refresh_token) refl

-- The refresh token of a login is accepted until it expires, whoever `holder` is the user's row by then:
-- if the user is active and in a tenant that is open, no boundary of their sessions is later than the
-- token, the login's record is there and in date, and the identity provider has not ended the login. What
-- is read then is all that the login carried: role, entrance, time of the sign-in to the second, passkey,
-- record and identifier.
pub verify-create_pair :
    {Token : Type 0} (jwt : Jwt Token) (law : ReadsBack jwt) (settings : TokenSettings)
    (before db : Database) (user holder : User) (scopes : Option (List String))
    (c : SessionCarryOver) (expires_at : ℕ) (drawn_id drawn_jti : String) (row : RefreshSession)
    (issued decoded_at checked_at now : ℕ)
    → issued ≤ decoded_at
    → decoded_at < expires_at / second * second
    → find user_key user.id db.users ≡ some holder
    → holder.is_active ≡ true
    → tenant_admits db.tenants holder ≡ true
    → none_or (λ v. leb (v / second) (issued / second)) holder.sessions_valid_from ≡ true
    → find row_id (or_new c.refresh_session_id drawn_id) db.refresh_sessions ≡ some row
    → has_expired row checked_at ≡ false
    → check_revocation db.revocations c.federated_login ≡ false
    → verify_refresh_token jwt settings
        (create_token_pair jwt settings before user scopes c
          (some expires_at)
          drawn_id
          drawn_jti
          issued).refresh_token
        db
        decoded_at
        checked_at
        now
      ≡ some
          (refreshed_for holder c row (or_new c.refresh_session_id drawn_id) drawn_jti issued now)
unfolding create_token_pair base_claims refresh_claims get
verify-create_pair jwt law settings before db user holder scopes c expires_at drawn_id drawn_jti row
      issued decoded_at checked_at now past fresh found active admitted settled kept current
      allowed =
    let id = or_new c.refresh_session_id drawn_id in
    let cs = claims settings db user holder c id drawn_jti row issued expires_at checked_at now in
    verify-read jwt settings _ db decoded_at checked_at now cs (
      law cs settings.jwt_secret_key settings.access_token_audience settings.access_token_issuer
        (str user.id) (issued / second) (expires_at / second) 0 decoded_at refl refl refl refl refl
        (omega arith) (omega arith))
    ∙ claims-refreshed settings db user holder c id drawn_jti row issued expires_at checked_at now
        (claims-user settings db user holder c id drawn_jti row issued expires_at checked_at now
          found active admitted)
        kept
        (claims-standing settings db user holder c id drawn_jti row issued expires_at checked_at now
          found settled kept current allowed)
