-- ===== src/PasswordReset/Ending.antt =====
-- What a new password means for the logins that began before it.
use fastapitemplate.Common.Clock.{second}
use fastapitemplate.Common.Results.{done}
use fastapitemplate.Common.Table.{find, find-update_where, key-find}
use fastapitemplate.Common.Value.{Fields, get, as_int}
use fastapitemplate.Common.{
  ℕ, ◌/◌, ◌<◌, ◌≡◌, refl, ◌∙◌, ap, subst, String, true, Option, none, some, arith, Option-cases,
  Bool-cases, inl, inr, string_eq, nat_eq, lt→ltb, beq_self, ◌==◌,
}
use fastapitemplate.PasswordReset.{
  Desk, PasswordResetToken, hash_key, is_spent, is_refused, reset, reset_user, reset_row,
  apply_reset, with_password,
}
use fastapitemplate.Tokens.{Jwt, TokenSettings, Database}
use fastapitemplate.Tokens.Claims.{subject_of, has_type}
use fastapitemplate.Tokens.Reading.{
  decode_claims, verify_refresh_token, check_refresh, load_active_user, session_revoked,
  issued_before_sessions_ended, session_is_revoked,
}
use fastapitemplate.Users.{User, user_key}

-- The user of this id has a boundary at the time.
abbrev pub HasBoundary : (id ended_at : ℕ) → Desk → Type 0
HasBoundary id ended_at desk =
    (u : User) × (find user_key id desk.users ≡ some u) × (u.sessions_valid_from ≡ some ended_at)

-- A token that was issued before the boundary of its user counts as ended.
pub session_revoked-before :
    (cs : Fields) (db : Database) (user : User) (id issued ended_at now : ℕ)
    → subject_of cs ≡ some id
    → as_int (get cs "iat") ≡ some issued
    → find user_key id db.users ≡ some user
    → user.sessions_valid_from ≡ some ended_at
    → issued < ended_at / second
    → session_revoked cs db now ≡ true
unfolding session_revoked issued_before_sessions_ended
session_revoked-before cs db user id issued ended_at now subject iat found boundary earlier =
    rw (subject, iat, found, session_revoked, issued_before_sessions_ended)
      (rw (boundary, lt→ltb issued (ended_at / second) earlier) refl)

check_refresh-revoked :
    (cs : Fields) (db : Database) (checked_at now : ℕ)
    → session_revoked cs db checked_at ≡ true
    → check_refresh cs db checked_at now ≡ none
unfolding check_refresh
check_refresh-revoked cs db checked_at now revoked = elim (Bool-cases (has_type cs "refresh")) [
  | inr other ↦ rw (other, check_refresh) refl
  | inl right ↦ elim (Option-cases (load_active_user cs db)) [
    | inl missing ↦ rw (right, missing, check_refresh) refl
    | inr (u, loaded) ↦ rw (right, loaded, revoked, check_refresh) refl
  ]
]

-- Neither way to go on with a token of these claims: no refresh, and no new token for an access token.
abbrev pub IsEnded :
    {Token : Type 0}
    → Jwt Token
    → TokenSettings
    → Token
    → Fields
    → Database
    → (decoded_at checked_at now : ℕ) → Type 0
IsEnded jwt settings token cs db decoded_at checked_at now =
    (verify_refresh_token jwt settings token db decoded_at checked_at now ≡ none)
    × (session_is_revoked jwt settings token db decoded_at checked_at ≡ has_type cs "access")

pub revoked-IsEnded :
    {Token : Type 0} (jwt : Jwt Token) (settings : TokenSettings) (token : Token) (cs : Fields)
    (db : Database) (decoded_at checked_at now : ℕ)
    → decode_claims jwt settings token decoded_at ≡ done cs
    → session_revoked cs db checked_at ≡ true
    → IsEnded jwt settings token cs db decoded_at checked_at now
unfolding verify_refresh_token session_is_revoked
revoked-IsEnded jwt settings token cs db decoded_at checked_at now read revoked = (
  rw (read, verify_refresh_token) (check_refresh-revoked cs db checked_at now revoked),
  ground (arith, read, revoked),
)

module _ (hash_token generate_password_hash : String → String) where
  applied-HasBoundary :
      (desk : Desk) (user : User) (row : PasswordResetToken) (new_password : String)
      (ended_at used_at : ℕ)
      → find user_key user.id desk.users ≡ some user
      → HasBoundary user.id ended_at (
          apply_reset hash_token generate_password_hash desk user row new_password ended_at used_at)
  unfolding apply_reset with_password
  applied-HasBoundary desk user row new_password ended_at used_at found =
      let hash = generate_password_hash new_password in
      (
        with_password hash ended_at user,
        find-update_where user_key (λ u. u.id == user.id) (with_password hash ended_at) user.id
              desk.users (λ r. refl)
            ∙ rw (found, beq_self user.id) refl,
        refl,
      )

  reset_user-HasBoundary :
      (desk : Desk) (row : PasswordResetToken) (new_password : String) (ended_at used_at id : ℕ)
      (found : Option User)
      → find user_key row.user_id desk.users ≡ found
      → (reset_user hash_token generate_password_hash desk row new_password ended_at used_at
          found).0
        ≡ some id
      → HasBoundary id ended_at
          (reset_user hash_token generate_password_hash desk row new_password ended_at used_at
            found).1
  unfolding reset_user
  reset_user-HasBoundary desk row new_password ended_at used_at id none is_found e = absurd (cc)
  reset_user-HasBoundary desk row new_password ended_at used_at id (some user) is_found e =
      elim (Bool-cases (is_refused user row.purpose)) [
        | inl refused ↦ absurd (ground arith)
        | inr free ↦
            let is_id : user.id ≡ id = ground arith in
            let is_row = key-find user_key row.user_id desk.users user is_found in
            rw (free, reset_user)
              (subst
                (λ i. HasBoundary i ended_at (
                  apply_reset hash_token generate_password_hash desk user row new_password ended_at
                    used_at))
                is_id
                (applied-HasBoundary desk user row new_password ended_at used_at
                  (ap (λ k. find user_key k desk.users) is_row ∙ is_found)))
      ]

  pub reset-HasBoundary :
      (desk : Desk) (token new_password : String) (checked_at ended_at used_at id : ℕ)
      → (reset hash_token generate_password_hash desk token new_password checked_at ended_at
          used_at).0
        ≡ some id
      → HasBoundary id ended_at
          (reset hash_token generate_password_hash desk token new_password checked_at ended_at
            used_at).1
  unfolding reset reset_row
  reset-HasBoundary desk token new_password checked_at ended_at used_at id e =
      elim (Option-cases (find hash_key (hash_token token) desk.tokens)) [
        | inl missing ↦ absurd (ground arith)
        | inr (row, found) ↦ elim (Bool-cases (is_spent row checked_at)) [
          | inl spent ↦ absurd (ground arith)
          | inr good ↦
              rw (found, good, reset, reset_row)
                (reset_user-HasBoundary desk row new_password ended_at used_at id
                  (find user_key row.user_id desk.users) refl (ground arith))
        ]
      ]

  -- A reset of the password ends the logins before it: of every token of that user, whatever else it
  -- says, that was issued in an earlier second, no refresh is accepted, and every access token counts as revoked,
  -- as long as the table of users is the one that the reset left.
  pub reset-IsEnded :
      {Token : Type 0} (jwt : Jwt Token) (settings : TokenSettings) (desk : Desk) (db : Database)
      (token new_password : String) (checked_at ended_at used_at id : ℕ) (earlier : Token)
      (cs : Fields) (issued decoded_at later now : ℕ)
      → (reset hash_token generate_password_hash desk token new_password checked_at ended_at
          used_at).0
        ≡ some id
      → db.users
        ≡ (reset hash_token generate_password_hash desk token new_password checked_at ended_at
            used_at).1.users
      → decode_claims jwt settings earlier decoded_at ≡ done cs
      → subject_of cs ≡ some id
      → as_int (get cs "iat") ≡ some issued
      → issued < ended_at / second
      → IsEnded jwt settings earlier cs db decoded_at later now
  reset-IsEnded jwt settings desk db token new_password checked_at ended_at used_at id earlier cs
        issued decoded_at later now e users read subject iat before =
      let (user, found, boundary) =
        reset-HasBoundary desk token new_password checked_at ended_at used_at id e in
      revoked-IsEnded jwt settings earlier cs db decoded_at later now read (
        session_revoked-before cs db user id issued ended_at later subject iat
          (ap (find user_key id) users ∙ found) boundary before)
