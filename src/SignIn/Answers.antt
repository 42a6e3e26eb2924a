-- ===== src/SignIn/Answers.antt =====
-- What a sign-in leaves in the count of failures, and what its answer gives away.
use fastapitemplate.Common.Results.{Result}
use fastapitemplate.Common.{
  ℕ, ◌≡◌, refl, ◌∙◌, ap, String, Bool, Option, none, some, List, [], if-both, not,
}
use fastapitemplate.SignIn.{
  Answer, signed_in, invalid_credentials, locked, Accounts, Trail, LoginRequest, Readings,
  record_failure, reject, finish, check_secret, check_account, authenticate, pass_lock,
  purpose_login, is_published_default,
}
use fastapitemplate.Throttle.{
  LoginAttempts, ThrottlePolicy, Permission, record_attempt, record_success, require_allowed,
  allowed, too_many_attempts,
}
use fastapitemplate.TwoFactor.{TotpError}
use fastapitemplate.Common.Text.{is_empty}
use fastapitemplate.Users.{User, Tenant}
use fastapitemplate.Users.Directory.{
  account_signing_in, account_in, account_without_slug, account_with_email, sole_tenant,
  tenant_named,
}

account_in-nobody : (email : String) (tenant : Option Tenant) → account_in [] email tenant ≡ none
unfolding account_in account_with_email
account_in-nobody email none = refl
account_in-nobody email (some t) = refl

account_signing_in-nobody :
    (tenants : List Tenant) (email : String) (slug : Option String)
    → account_signing_in [] tenants email slug ≡ none
unfolding account_signing_in account_without_slug account_with_email
account_signing_in-nobody tenants email none = account_in-nobody email (sole_tenant tenants)
account_signing_in-nobody tenants email (some slug) =
    if-both (λ found. found ≡ none) (is_empty slug) (account_in-nobody email (sole_tenant tenants))
      (account_in-nobody email (tenant_named tenants slug))

module _ (lower : String → String) (check_password_hash : (hash password : String) → Bool)
    (verify : ℕ → String → String → Bool) where
  -- The count of failures that belongs to an answer: a success forgets the failures of the address, a
  -- refusal before any check leaves them, and every other answer is one failure more.
  abbrev pub attempts_after :
      ThrottlePolicy
      → List LoginAttempts
      → (email : String) → (counted_at : ℕ) → Answer
      → List LoginAttempts
  attempts_after policy rows email counted_at (signed_in user) =
      record_success lower policy rows purpose_login email
  attempts_after policy rows email counted_at (locked wait) = rows
  attempts_after policy rows email counted_at _ =
      (record_attempt lower policy rows purpose_login email counted_at).1

  abbrev pub IsCounted : Accounts → Trail → LoginRequest → Readings → Answer × Trail → Type 0
  IsCounted accounts trail request at (answer, after) =
      after.attempts
      ≡ attempts_after accounts.policy trail.attempts request.email at.counted_at answer

  reject-IsCounted :
      (accounts : Accounts) (trail : Trail) (request : LoginRequest) (at : Readings)
      (user_id : Option ℕ) (reason : String)
      → IsCounted accounts trail request at (
          reject lower check_password_hash verify accounts.policy trail user_id reason request.email
            at.counted_at)
  unfolding reject record_failure
  reject-IsCounted accounts trail request at user_id reason = refl

  finish-IsCounted :
      (accounts : Accounts) (trail : Trail) (user : User) (request : LoginRequest) (at : Readings)
      (checked : Result TotpError (Unit {0}))
      → IsCounted accounts trail request at
          (finish lower check_password_hash verify accounts trail user request at checked)
  unfolding finish record_failure
  finish-IsCounted accounts trail user request at (Result.raised e) = refl
  finish-IsCounted accounts trail user request at (Result.done x) = refl

  check_secret-IsCounted :
      (accounts : Accounts) (trail : Trail) (user : User) (request : LoginRequest) (at : Readings)
      (hash : Option String)
      → IsCounted accounts trail request at
          (check_secret lower check_password_hash verify accounts trail user request at hash)
  unfolding check_secret
  check_secret-IsCounted accounts trail user request at none =
      reject-IsCounted accounts trail request at (some user.id) "no_local_password"
  check_secret-IsCounted accounts trail user request at (some hash) =
      if-both (IsCounted accounts trail request at)
        (not (check_password_hash hash request.password))
        (reject-IsCounted accounts trail request at (some user.id) "invalid_password")
        (if-both (IsCounted accounts trail request at)
          (is_published_default accounts.in_production request.password)
          (reject-IsCounted accounts trail request at (some user.id) "default_password")
          (finish-IsCounted accounts trail user request at _))

  check_account-IsCounted :
      (accounts : Accounts) (trail : Trail) (request : LoginRequest) (at : Readings)
      (found : Option User)
      → IsCounted accounts trail request at
          (check_account lower check_password_hash verify accounts trail request at found)
  unfolding check_account
  check_account-IsCounted accounts trail request at none =
      reject-IsCounted accounts trail request at none "unknown_email"
  check_account-IsCounted accounts trail request at (some user) =
      if-both (IsCounted accounts trail request at) (not user.is_active)
        (reject-IsCounted accounts trail request at (some user.id) "inactive_user")
        (check_secret-IsCounted accounts trail user request at user.password_hash)

  pass_lock-IsCounted :
      (accounts : Accounts) (trail : Trail) (request : LoginRequest) (at : Readings)
      (permission : Permission)
      → IsCounted accounts trail request at
          (pass_lock lower check_password_hash verify accounts trail request at permission)
  unfolding pass_lock
  pass_lock-IsCounted accounts trail request at (too_many_attempts wait) = refl
  pass_lock-IsCounted accounts trail request at allowed =
      check_account-IsCounted accounts trail request at
        (account_signing_in accounts.users accounts.tenants request.email request.tenant)

  -- Every sign-in leaves the count of failures that belongs to its answer, whatever the reason: one that
  -- succeeds forgets the failures of its address, one that is refused by the lock changes nothing, and
  -- every other refusal, a wrong code of the second factor too, is one failure more for the address that
  -- was typed in.
  pub authenticate-IsCounted :
      (accounts : Accounts) (trail : Trail) (request : LoginRequest) (at : Readings)
      → IsCounted accounts trail request at
          (authenticate lower check_password_hash verify accounts trail request at)
  unfolding authenticate
  authenticate-IsCounted accounts trail request at = pass_lock-IsCounted accounts trail request at (
      require_allowed lower accounts.policy trail.attempts purpose_login request.email at.locked_at)

  -- The answer and the count of failures, without the audit log.
  abbrev pub shown : Answer × Trail → Answer × List LoginAttempts
  shown (answer, after) = (answer, after.attempts)

  pass_lock-unknown :
      (accounts : Accounts) (trail : Trail) (request : LoginRequest) (at : Readings)
      (permission : Permission)
      → (pass_lock lower check_password_hash verify accounts trail request at permission).0
        ≡ invalid_credentials
      → shown (pass_lock lower check_password_hash verify accounts trail request at permission)
        ≡ shown (
            pass_lock lower check_password_hash verify
              (record accounts { users = [] })
              trail
              request
              at
              permission)
  unfolding pass_lock check_account reject record_failure
  pass_lock-unknown accounts trail request at (too_many_attempts wait) e = absurd (cc)
  pass_lock-unknown accounts trail request at allowed e =
      let counted =
        check_account-IsCounted accounts trail request at
          (account_signing_in accounts.users accounts.tenants request.email request.tenant) in
      rw (account_signing_in-nobody accounts.tenants request.email request.tenant) (λ i. (
        e i,
        (counted ∙ ap (attempts_after accounts.policy trail.attempts request.email at.counted_at) e)
            i,
      ))

  -- A refusal for wrong credentials does not tell whether the account exists, is active, has a password
  -- or has another password: the answer and the count of failures are those of the same request to an
  -- application without any user.
  pub authenticate-unknown :
      (accounts : Accounts) (trail : Trail) (request : LoginRequest) (at : Readings)
      → (authenticate lower check_password_hash verify accounts trail request at).0
        ≡ invalid_credentials
      → shown (authenticate lower check_password_hash verify accounts trail request at)
        ≡ shown (
            authenticate lower check_password_hash verify
              (record accounts { users = [] })
              trail
              request
              at)
  unfolding authenticate
  authenticate-unknown accounts trail request at = pass_lock-unknown accounts trail request at (
      require_allowed lower accounts.policy trail.attempts purpose_login request.email at.locked_at)
