-- ===== src/Tokens/Reading.antt =====
-- token_service.py: what is accepted of a token, against the tables.
use fastapitemplate.Common.Clock.{second, seconds}
use fastapitemplate.Common.Results.{Result, raised, done}
use fastapitemplate.Common.Table.{find}
use fastapitemplate.Common.Value.{Fields, get, as_text, as_int, is_true}
use fastapitemplate.Common.{
  ℕ, ◌/◌, String, Bool, true, false, not, ◌||◌, Option, none, some, List, is_some, ltb, nat_eq,
  string_eq, option_eq, if◌then◌else◌,
}
use fastapitemplate.Federation.{FederatedLogin}
use fastapitemplate.RefreshSessions.{RefreshSession, row_id, has_expired, standing_of, end}
use fastapitemplate.Revocations.{check_revocation}
use fastapitemplate.SessionCookies.{renewal_carry_seconds}
use fastapitemplate.Tokens.{
  Jwt, JwtError, expired_signature, invalid_token, TokenSettings, Database,
}
use fastapitemplate.Users.{User, user_key, tenant_admits}
use fastapitemplate.Tokens.Claims.{
  Refusal, AuthenticatedPrincipal, RefreshedSession, ContinuedSession, token_expired, token_invalid,
  subject_of, has_type, login_of, authenticated_at_of, active_role_of, check_access,
}

-- `_load_active_user`
unfoldable pub load_active_user : Fields → Database → Option User
unfolding subject_of find tenant_admits
load_active_user claims db = elim (subject_of claims) [
  | none ↦ none
  | some user_id ↦ elim (find user_key user_id db.users) [
    | none ↦ none
    | some user ↦
        if not user.is_active
        then none
        else if not (tenant_admits db.tenants user)
        then none
        else some user
  ]
]

-- `issued_at < int(user.sessions_valid_from.timestamp())`, where `iat` is not read as a number if none.
abbrev pub issued_before : (issued_at : Option ℕ) → (valid_from : ℕ) → Bool
issued_before none valid_from = true
issued_before (some issued_at) valid_from = ltb issued_at (valid_from / second)

-- `_issued_before_sessions_ended` for the user of the token.
abbrev pub issued_before_boundary : (issued_at : Option ℕ) → Option User → Bool
issued_before_boundary issued_at none = false
issued_before_boundary issued_at (some user) = elim user.sessions_valid_from [
  | none ↦ false
  | some valid_from ↦ issued_before issued_at valid_from
]

-- `_issued_before_sessions_ended`
unfoldable pub issued_before_sessions_ended : Fields → Database → Bool
unfolding subject_of find get as_int
issued_before_sessions_ended claims db = elim (subject_of claims) [
  | none ↦ true
  | some user_id ↦
      issued_before_boundary (as_int (get claims "iat")) (find user_key user_id db.users)
]

-- The login's record is gone or out of date.
abbrev pub is_over : Option RefreshSession → (now : ℕ) → Bool
is_over none now = true
is_over (some row) now = has_expired row now

-- `_refresh_session_ended`
unfoldable pub refresh_session_ended : Fields → Database → (now : ℕ) → Bool
unfolding get as_text find has_expired
refresh_session_ended claims db now = elim (as_text (get claims "rsid")) [
  | none ↦ false
  | some id ↦ is_over (find row_id id db.refresh_sessions) now
]

-- `_session_revoked`
unfoldable pub session_revoked : Fields → Database → (now : ℕ) → Bool
unfolding issued_before_sessions_ended refresh_session_ended check_revocation login_of
session_revoked claims db now =
    if issued_before_sessions_ended claims db || refresh_session_ended claims db now
    then true
    else check_revocation db.revocations (login_of claims)

-- The answer of `verify_refresh_token` for a user who may go on, from the two identifiers.
unfoldable pub refreshed_with :
    Fields → Database → User → (id jti : Option String) → (now : ℕ) → Option RefreshedSession
unfolding active_role_of login_of authenticated_at_of is_true get standing_of find
refreshed_with claims db user (some id) (some jti) now = elim (find row_id id db.refresh_sessions) [
  | none ↦ none
  | some row ↦ some (record {
    user = user;
    active_role = active_role_of claims;
    federated_login = login_of claims;
    authenticated_at = authenticated_at_of claims;
    signed_in_with_passkey = is_true (get claims "passkey");
    refresh_session_id = id;
    jti = jti;
    standing = standing_of row jti now;
  })
]
refreshed_with claims db user _ _ now = none

-- The checks of `verify_refresh_token` on decoded claims; `checked_at` and `now` are the readings of the
-- clock in `has_expired` and in `standing_of`.
unfoldable pub check_refresh : Fields → Database → (checked_at now : ℕ) → Option RefreshedSession
unfolding has_type load_active_user session_revoked refreshed_with get as_text
check_refresh claims db checked_at now =
    if not (has_type claims "refresh") then none else elim (load_active_user claims db) [
      | none ↦ none
      | some user ↦
          if session_revoked claims db checked_at
          then none
          else refreshed_with claims db user (as_text (get claims "rsid"))
              (as_text (get claims "jti")) now
    ]

-- The login that a logout token of these claims ends.
unfoldable pub login_to_end : Fields → Option String
unfolding has_type get as_text
login_to_end claims = if has_type claims "logout" then as_text (get claims "rsid") else none

-- What `continuation_of` reads of decoded claims.
unfoldable pub continued_from : Fields → Option ContinuedSession
unfolding has_type login_of subject_of active_role_of authenticated_at_of is_true get
continued_from claims =
    if not (has_type claims "access") || not (is_some (login_of claims))
    then none
    else elim (subject_of claims) [
      | none ↦ none
      | some user_id ↦ some (record {
        user_id = user_id;
        active_role = active_role_of claims;
        authenticated_at = authenticated_at_of claims;
        signed_in_with_passkey = is_true (get claims "passkey");
      })
    ]

-- The reason for a token that does not decode.
abbrev pub refusal_of : JwtError → Refusal
refusal_of expired_signature = token_expired
refusal_of invalid_token = token_invalid

module _ {Token : Type 0} (jwt : Jwt Token) (settings : TokenSettings) where
  -- `_decode`
  unfoldable pub decode_claims : Token → (now : ℕ) → Result Refusal Fields
  decode_claims token now =
      elim (jwt.decode token settings.jwt_secret_key settings.access_token_audience
        settings.access_token_issuer 0 now) [
          | raised error ↦ raised (refusal_of error)
          | done claims ↦ done claims
        ]

  -- `TokenService.verify_access_token_with_reason`
  unfoldable pub verify_access_token : Token → (now : ℕ) → Result Refusal AuthenticatedPrincipal
  unfolding decode_claims check_access
  verify_access_token token now = elim (decode_claims token now) [
    | raised reason ↦ raised reason
    | done claims ↦ check_access claims
  ]

  -- `TokenService.verify_refresh_token`, with its three readings of the clock.
  unfoldable pub verify_refresh_token :
      Token → Database → (decoded_at checked_at now : ℕ) → Option RefreshedSession
  unfolding decode_claims check_refresh
  verify_refresh_token token db decoded_at checked_at now = elim (decode_claims token decoded_at) [
    | raised _ ↦ none
    | done claims ↦ check_refresh claims db checked_at now
  ]

  -- `TokenService.end_refresh_session`
  unfoldable pub end_refresh_session : Token → List RefreshSession → (now : ℕ) → List RefreshSession
  unfolding decode_claims login_to_end end
  end_refresh_session token rows now = elim (decode_claims token now) [
    | raised _ ↦ rows
    | done claims ↦ elim (login_to_end claims) [ none ↦ rows | some id ↦ end rows id ]
  ]

  -- `TokenService.refresh_session_id_of`
  unfoldable pub refresh_session_id_of : Token → (now : ℕ) → Option String
  unfolding decode_claims get as_text
  refresh_session_id_of token now = elim (decode_claims token now) [
    | raised _ ↦ none
    | done claims ↦ as_text (get claims "rsid")
  ]

  -- `TokenService.signed_in_with_passkey_of`
  unfoldable pub signed_in_with_passkey_of : Token → (now : ℕ) → Bool
  unfolding decode_claims get is_true
  signed_in_with_passkey_of token now = elim (decode_claims token now) [
    | raised _ ↦ false
    | done claims ↦ is_true (get claims "passkey")
  ]

  -- `TokenService.session_is_revoked`
  unfoldable pub session_is_revoked : Token → Database → (decoded_at now : ℕ) → Bool
  unfolding decode_claims has_type session_revoked
  session_is_revoked token db decoded_at now = elim (decode_claims token decoded_at) [
    | raised _ ↦ false
    | done claims ↦ if has_type claims "access" then session_revoked claims db now else false
  ]

  -- `TokenService.federated_login_of`
  unfoldable pub federated_login_of : Token → (now : ℕ) → Option FederatedLogin
  unfolding decode_claims has_type login_of
  federated_login_of token now = elim (decode_claims token now) [
    | raised _ ↦ none
    | done claims ↦ if has_type claims "access" then login_of claims else none
  ]

  -- `continuation_of`
  unfoldable pub continuation_of : Token → (now : ℕ) → Option ContinuedSession
  unfolding continued_from
  continuation_of token now =
      elim (jwt.decode token settings.jwt_secret_key settings.access_token_audience
        settings.access_token_issuer (seconds renewal_carry_seconds) now) [
          | raised _ ↦ none
          | done claims ↦ continued_from claims
        ]
