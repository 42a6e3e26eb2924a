-- ===== src/AuthRoutes/Passwords.antt =====
-- What a change of the password does to the other logins.
use fastapitemplate.Common.Clock.{second}
use fastapitemplate.Common.Results.{done}
use fastapitemplate.Common.Table.{find, update_where, find-update_where}
use fastapitemplate.Common.Value.{Fields, get, as_int}
use fastapitemplate.Common.{
  ℕ, ◌/◌, ◌<◌, ◌≡◌, refl, ap, ◌∙◌, String, Bool, true, some, List, arith, Bool-cases, Option-cases,
  inl, inr, nat_eq, ◌==◌, beq_self,
}
use fastapitemplate.Gates.{CurrentSession}
use fastapitemplate.PasswordReset.{with_password}
use fastapitemplate.PasswordReset.Ending.{IsEnded, revoked-IsEnded, session_revoked-before}
use fastapitemplate.RefreshSessions.{RefreshSession}
use fastapitemplate.SessionCookies.{Draws, Response}
use fastapitemplate.Tokens.{Jwt}
use fastapitemplate.Tokens.Claims.{subject_of}
use fastapitemplate.Tokens.Reading.{decode_claims}
use fastapitemplate.Users.{User, user_key}
use fastapitemplate.AuthRoutes.{App, AuthSettings, ok, establish, is_established, with_users}
use fastapitemplate.AuthRoutes.Recovery.{changed, changed_carry, change_password, set_password}

with_password-find :
    (users : List User) (user : User) (hash : String) (ended_at : ℕ)
    → find user_key user.id users ≡ some user
    → find user_key user.id
        (update_where (λ u. u.id == user.id) (with_password hash ended_at) users)
      ≡ some (with_password hash ended_at user)
unfolding with_password
with_password-find users user hash ended_at found =
    find-update_where user_key (λ u. u.id == user.id) (with_password hash ended_at) user.id users
      (λ r. refl)
    ∙ rw (found, beq_self user.id) refl

module _ {Token : Type 0} (jwt : Jwt Token) (lower : String → String)
    (check_password_hash : (hash password : String) → Bool)
    (generate_password_hash : String → String) (hash_token : String → String)
    (verify : ℕ → String → String → Bool) (settings : AuthSettings) where
  changed-users :
      (app later : App) (user_id : ℕ) (r : Response × List RefreshSession)
      → (changed jwt lower check_password_hash generate_password_hash hash_token verify settings app
          later user_id r).0
        ≡ ok
      → (changed jwt lower check_password_hash generate_password_hash hash_token verify settings app
          later user_id r).1.db.users
        ≡ later.db.users
  changed-users app later user_id (response, rows) e = elim (Bool-cases (is_established response)) [
    | inl done_ ↦ rw done_ refl
    | inr failed ↦ absurd (ground arith)
  ]

  change_password_lem :
      (app : App) (current : CurrentSession) (current_password new_password : String) (ended_at : ℕ)
      (draws : Draws)
      → (change_password jwt lower check_password_hash generate_password_hash hash_token verify
          settings app current current_password new_password ended_at draws).0
        ≡ ok
      → ((hash : String) × (current.user.password_hash ≡ some hash)
          × (check_password_hash hash current_password ≡ true))
        × ((change_password jwt lower check_password_hash generate_password_hash hash_token verify
              settings app current current_password new_password ended_at draws).1.db.users
            ≡ update_where
                (λ u. u.id == current.user.id)
                (with_password (generate_password_hash new_password) ended_at)
                app.db.users)
  unfolding change_password set_password
  change_password_lem app current current_password new_password ended_at draws e =
      elim (Bool-cases settings.local_login_enabled) [
        | inr closed ↦ absurd (ground arith)
        | inl open_ ↦ elim (Option-cases current.user.password_hash) [
          | inl missing ↦ absurd (ground arith)
          | inr (hash, has) ↦ elim (Bool-cases (check_password_hash hash current_password)) [
            | inr wrong ↦ absurd (ground arith)
            | inl right ↦
                let change = with_password (generate_password_hash new_password) ended_at in
                let later =
                  with_users app
                    (update_where (λ u. u.id == current.user.id) change app.db.users) in
                let r =
                  establish settings later (change current.user) (changed_carry current) draws in
                (
                  (hash, has, right),
                  rw (open_, has, right, change_password, set_password)
                      (changed-users app later current.user.id r (ground arith)),
                )
          ]
        ]
      ]

  -- A change of the password is made only with the current one, and ends the logins before it: of every
  -- token of the user that was issued in an earlier second, no refresh is accepted, and every access token
  -- counts as revoked. The user of the session is the row of the table.
  pub change_password-IsEnded :
      (app : App) (current : CurrentSession) (current_password new_password : String) (ended_at : ℕ)
      (draws : Draws) (held : Token) (cs : Fields) (issued decoded_at checked_at now : ℕ)
      → (change_password jwt lower check_password_hash generate_password_hash hash_token verify
          settings app current current_password new_password ended_at draws).0
        ≡ ok
      → find user_key current.user.id app.db.users ≡ some current.user
      → decode_claims jwt settings.tokens held decoded_at ≡ done cs
      → subject_of cs ≡ some current.user.id
      → as_int (get cs "iat") ≡ some issued
      → issued < ended_at / second
      → ((hash : String) × (current.user.password_hash ≡ some hash)
          × (check_password_hash hash current_password ≡ true))
        × IsEnded jwt settings.tokens held cs
            (change_password jwt lower check_password_hash generate_password_hash hash_token verify
              settings app current current_password new_password ended_at draws).1.db
            decoded_at
            checked_at
            now
  unfolding with_password
  change_password-IsEnded app current current_password new_password ended_at draws held cs issued
        decoded_at checked_at now e found read subject iat before =
      let (known, users) =
        change_password_lem app current current_password new_password ended_at draws e in
      let user = with_password (generate_password_hash new_password) ended_at current.user in
      (
        known,
        revoked-IsEnded jwt settings.tokens held cs _ decoded_at checked_at now read (
            session_revoked-before cs _ user current.user.id issued ended_at checked_at subject iat
              (ap (find user_key current.user.id) users
                ∙ with_password-find app.db.users current.user (generate_password_hash new_password)
                    ended_at found)
              refl before),
      )
