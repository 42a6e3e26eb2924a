-- ===== src/Tokens/Safety.antt =====
-- What a token is accepted for, whoever made it.
use fastapitemplate.Common.Results.{Result-cases}
use fastapitemplate.Common.Table.{find, key-find}
use fastapitemplate.Common.Value.{Fields, get, as_text}
use fastapitemplate.Common.{
  ℕ, ◌≡◌, ◌∙◌, subst, sym, ap, String, true, false, some, arith, string_eq, nat_eq, Option-cases,
  inl, inr,
}
use fastapitemplate.RefreshSessions.{RefreshSession, row_id, has_expired}
use fastapitemplate.Revocations.{check_revocation}
use fastapitemplate.Tokens.{Jwt, TokenSettings, Database}
use fastapitemplate.Tokens.Claims.{RefreshedSession, subject_of, login_of}
use fastapitemplate.Tokens.Reading.{
  decode_claims, verify_refresh_token, check_refresh, load_active_user, session_revoked,
  refresh_session_ended, refreshed_with,
}
use fastapitemplate.Users.{User, user_key, tenant_admits}

-- A login that may go on: its user is active, in a tenant that is open, the login's record is there and in
-- date, and the identity provider has not ended the login.
abbrev pub IsAlive : Database → (checked_at : ℕ) → RefreshedSession → Type 0
IsAlive db checked_at r =
    (find user_key r.user.id db.users ≡ some r.user)
    × (r.user.is_active ≡ true)
    × (tenant_admits db.tenants r.user ≡ true)
    × ((row : RefreshSession) × (find row_id r.refresh_session_id db.refresh_sessions ≡ some row)
        × (has_expired row checked_at ≡ false))
    × (check_revocation db.revocations r.federated_login ≡ false)

load_active_user_lem :
    (cs : Fields) (db : Database) (user : User)
    → load_active_user cs db ≡ some user
    → (find user_key user.id db.users ≡ some user)
      × (user.is_active ≡ true)
      × (tenant_admits db.tenants user ≡ true)
unfolding load_active_user
load_active_user_lem cs db user e = elim (Option-cases (subject_of cs)) [
  | inl missing ↦ absurd (ground arith)
  | inr (id, is_id) ↦ elim (Option-cases (find user_key id db.users)) [
    | inl missing ↦ absurd (ground arith)
    | inr (u, found) ↦
        let same : u ≡ user = ground arith in
        subst
          (λ x.
            (find user_key x.id db.users ≡ some x)
            × (x.is_active ≡ true)
            × (tenant_admits db.tenants x ≡ true))
          same
          (
            ap (λ k. find user_key k db.users) (key-find user_key id db.users u found) ∙ found,
            ground arith,
            ground arith,
          )
  ]
]

session_revoked_lem :
    (cs : Fields) (db : Database) (checked_at : ℕ)
    → session_revoked cs db checked_at ≡ false
    → (refresh_session_ended cs db checked_at ≡ false)
      × (check_revocation db.revocations (login_of cs) ≡ false)
unfolding session_revoked
session_revoked_lem cs db checked_at e = (ground arith, ground arith)

refresh_session_ended_lem :
    (cs : Fields) (db : Database) (checked_at : ℕ) (id : String)
    → as_text (get cs "rsid") ≡ some id
    → refresh_session_ended cs db checked_at ≡ false
    → (row : RefreshSession) × (find row_id id db.refresh_sessions ≡ some row)
      × (has_expired row checked_at ≡ false)
unfolding refresh_session_ended
refresh_session_ended_lem cs db checked_at id e kept =
    elim (Option-cases (find row_id id db.refresh_sessions)) [
      | inl missing ↦ absurd (ground arith)
      | inr (row, found) ↦ (row, found, ground arith)
    ]

-- What the claims and the tables had to say for a refresh to be accepted.
check_refresh_lem :
    (cs : Fields) (db : Database) (checked_at now : ℕ) (r : RefreshedSession)
    → check_refresh cs db checked_at now ≡ some r
    → (load_active_user cs db ≡ some r.user)
      × (session_revoked cs db checked_at ≡ false)
      × (as_text (get cs "rsid") ≡ some r.refresh_session_id)
      × (login_of cs ≡ r.federated_login)
unfolding check_refresh refreshed_with
check_refresh_lem cs db checked_at now r e = elim (Option-cases (load_active_user cs db)) [
  | inl missing ↦ absurd (ground arith)
  | inr (u, found) ↦ elim (Option-cases (as_text (get cs "rsid"))) [
    | inl missing ↦ absurd (ground arith)
    | inr (id, is_id) ↦ elim (Option-cases (as_text (get cs "jti"))) [
      | inl missing ↦ absurd (ground arith)
      | inr (jti, is_jti) ↦ elim (Option-cases (find row_id id db.refresh_sessions)) [
        | inl missing ↦ absurd (ground arith)
        | inr (row, kept) ↦ (ground arith, ground arith, ground arith, ground arith)
      ]
    ]
  ]
]

-- Whatever token is presented, and whoever made it, a refresh is accepted only for a login that is alive.
pub verify_refresh_token-IsAlive :
    {Token : Type 0} (jwt : Jwt Token) (settings : TokenSettings) (token : Token) (db : Database)
    (decoded_at checked_at now : ℕ) (r : RefreshedSession)
    → verify_refresh_token jwt settings token db decoded_at checked_at now ≡ some r
    → IsAlive db checked_at r
unfolding verify_refresh_token
verify_refresh_token-IsAlive jwt settings token db decoded_at checked_at now r e =
    elim (Result-cases (decode_claims jwt settings token decoded_at)) [
      | inl (reason, refused) ↦ absurd (ground arith)
      | inr (cs, read) ↦
          let (loaded, allowed, is_id, is_login) =
            check_refresh_lem cs db checked_at now r (ground arith) in
          let (found, active, admitted) = load_active_user_lem cs db r.user loaded in
          let (kept, not_ended) = session_revoked_lem cs db checked_at allowed in
          (
            found,
            active,
            admitted,
            refresh_session_ended_lem cs db checked_at r.refresh_session_id is_id kept,
            ap (check_revocation db.revocations) (sym is_login) ∙ not_ended,
          )
    ]
