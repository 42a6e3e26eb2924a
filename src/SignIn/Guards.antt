-- ===== src/SignIn/Guards.antt =====
-- Who is signed in by a password.
use fastapitemplate.Common.Results.{Result}
use fastapitemplate.Common.{
  ◌&&◌, ◌==◌, string_eq, ℕ, ◌≡◌, refl, subst, String, Bool, true, false, Option, none, some, arith,
  Bool-cases, inl, inr,
}
use fastapitemplate.SignIn.{
  signed_in, Accounts, Trail, LoginRequest, Readings, reject, finish, check_secret, check_account,
  pass_lock, authenticate, purpose_login, is_published_default, default_admin_password,
}
use fastapitemplate.Throttle.{Permission, require_allowed, allowed, too_many_attempts}
use fastapitemplate.TwoFactor.{TotpError, verify_second_factor}
use fastapitemplate.Users.{User}
use fastapitemplate.Users.Directory.{account_signing_in}

default_lem :
    (in_production : Bool) (password : String)
    → is_published_default in_production password ≡ false
    → (in_production && password == default_admin_password) ≡ false
unfolding is_published_default
default_lem in_production password e = ground arith

module _ (lower : String → String) (check_password_hash : (hash password : String) → Bool)
    (verify : ℕ → String → String → Bool) where
  -- All that a sign-in as a user has to have passed.
  abbrev pub IsAdmitted : Accounts → Trail → LoginRequest → Readings → User → Type 0
  IsAdmitted accounts trail request at user =
      (require_allowed lower accounts.policy trail.attempts purpose_login request.email at.locked_at
        ≡ allowed)
      × (account_signing_in accounts.users accounts.tenants request.email request.tenant
          ≡ some user)
      × (user.is_active ≡ true)
      × ((hash : String) × (user.password_hash ≡ some hash)
          × (check_password_hash hash request.password ≡ true))
      × ((accounts.in_production && request.password == default_admin_password) ≡ false)
      × (verify_second_factor verify accounts.totp_secrets user.id request.totp_code at.verified_at
          ≡ Result.done tt)

  finish_lem :
      (accounts : Accounts) (trail after : Trail) (user u : User) (request : LoginRequest)
      (at : Readings) (checked : Result TotpError (Unit {0}))
      → finish lower check_password_hash verify accounts trail u request at checked
        ≡ (signed_in user, after)
      → (u ≡ user) × (checked ≡ Result.done tt)
  unfolding finish
  finish_lem accounts trail after user u request at (Result.raised error) e = absurd (cc)
  finish_lem accounts trail after user u request at (Result.done tt) e = (cc, refl)

  check_secret_lem :
      (accounts : Accounts) (trail after : Trail) (user u : User) (request : LoginRequest)
      (at : Readings) (password_hash : Option String)
      → check_secret lower check_password_hash verify accounts trail u request at password_hash
        ≡ (signed_in user, after)
      → (u ≡ user)
        × ((hash : String) × (password_hash ≡ some hash)
            × (check_password_hash hash request.password ≡ true))
        × ((accounts.in_production && request.password == default_admin_password) ≡ false)
        × (verify_second_factor verify accounts.totp_secrets u.id request.totp_code at.verified_at
            ≡ Result.done tt)
  unfolding check_secret reject
  check_secret_lem accounts trail after user u request at none e = absurd (cc)
  check_secret_lem accounts trail after user u request at (some hash) e =
      elim (Bool-cases (check_password_hash hash request.password)) [
        | inr wrong ↦ absurd (ground arith)
        | inl right ↦
            elim (Bool-cases (is_published_default accounts.in_production request.password)) [
              | inl default ↦ absurd (ground arith)
              | inr other ↦
                  let own = default_lem accounts.in_production request.password other in
                  let (same, passed) =
                    finish_lem accounts trail after user u request at
                      (verify_second_factor verify accounts.totp_secrets u.id request.totp_code
                        at.verified_at)
                      (ground arith) in
                  (same, (hash, refl, right), own, passed)
            ]
      ]

  check_account_lem :
      (accounts : Accounts) (trail after : Trail) (user : User) (request : LoginRequest)
      (at : Readings) (found : Option User)
      → check_account lower check_password_hash verify accounts trail request at found
        ≡ (signed_in user, after)
      → (found ≡ some user)
        × (user.is_active ≡ true)
        × ((hash : String) × (user.password_hash ≡ some hash)
            × (check_password_hash hash request.password ≡ true))
        × ((accounts.in_production && request.password == default_admin_password) ≡ false)
        × (verify_second_factor verify accounts.totp_secrets user.id request.totp_code
              at.verified_at
            ≡ Result.done tt)
  unfolding check_account reject
  check_account_lem accounts trail after user request at none e = absurd (cc)
  check_account_lem accounts trail after user request at (some u) e =
      elim (Bool-cases u.is_active) [
        | inr inactive ↦ absurd (ground arith)
        | inl active ↦
            let (same, secret, own, passed) =
              check_secret_lem accounts trail after user u request at u.password_hash
                (ground arith) in
            subst
              (λ x.
                (some u ≡ some x)
                × (x.is_active ≡ true)
                × ((hash : String) × (x.password_hash ≡ some hash)
                    × (check_password_hash hash request.password ≡ true))
                × ((accounts.in_production && request.password == default_admin_password) ≡ false)
                × (verify_second_factor verify accounts.totp_secrets x.id request.totp_code
                      at.verified_at
                    ≡ Result.done tt))
              same (refl, active, secret, own, passed)
      ]

  pass_lock_lem :
      (accounts : Accounts) (trail after : Trail) (user : User) (request : LoginRequest)
      (at : Readings) (permission : Permission)
      → require_allowed lower accounts.policy trail.attempts purpose_login request.email
          at.locked_at
        ≡ permission
      → pass_lock lower check_password_hash verify accounts trail request at permission
        ≡ (signed_in user, after)
      → IsAdmitted accounts trail request at user
  unfolding pass_lock
  pass_lock_lem accounts trail after user request at (too_many_attempts wait) lock e = absurd (cc)
  pass_lock_lem accounts trail after user request at allowed lock e =
      let (found, active, secret, own, passed) =
        check_account_lem accounts trail after user request at
          (account_signing_in accounts.users accounts.tenants request.email request.tenant) e in
      (lock, found, active, secret, own, passed)

  -- Whoever is signed in by a password is the account that the address finds in the seat of the entrance,
  -- is active, has a local password that matches, has passed the second factor where one is confirmed,
  -- was not locked out, and in production did not use the published default password.
  pub authenticate-IsAdmitted :
      (accounts : Accounts) (trail after : Trail) (user : User) (request : LoginRequest)
      (at : Readings)
      → authenticate lower check_password_hash verify accounts trail request at
        ≡ (signed_in user, after)
      → IsAdmitted accounts trail request at user
  unfolding authenticate
  authenticate-IsAdmitted accounts trail after user request at =
      pass_lock_lem accounts trail after user request at
        (require_allowed lower accounts.policy trail.attempts purpose_login request.email
          at.locked_at)
        refl
