-- ===== src/TwoFactor.antt =====
-- The second factor by one-time passwords (TOTP), in bounded_contexts/account_security:
-- domain/entities/totp_secret.py, infrastructure/sql_totp_secret_repository.py and
-- application/use_cases/manage_totp.py and verify_second_factor.py. The table is the list of its
-- rows, one for each user. The computation of codes is a library's: `verify` gives its answer at the
-- time of the call, and `provisioning_uri` the text that an authenticator reads.
pub mod Laws
mod Tests
use fastapitemplate.Common.Results.{Result, raised, done}
use fastapitemplate.Common.Table.{find, upsert, update_where, delete_key}
use fastapitemplate.Common.Text.{is_empty}
use fastapitemplate.Common.{
  ℕ, String, Bool, true, false, not, Option, none, some, List, is_some, nat_eq, ◌==◌, if◌then◌else◌,
  ◌&&◌,
}

pub record TotpSecret : Type 0 where
  pub user_id : ℕ
  pub secret : String
  pub confirmed_at : Option ℕ

unfoldable pub is_confirmed : TotpSecret → Bool
is_confirmed t = is_some t.confirmed_at

abbrev pub owner : TotpSecret → ℕ
owner t = t.user_id

-- The exceptions of domain/exceptions.py that these functions raise.
pub data TotpError : Type 0 where
  invalid_totp_code totp_already_enabled totp_not_enrolled totp_required : TotpError

pub record TotpEnrollmentDto : Type 0 where
  pub secret : String
  pub otpauth_uri : String

pub record TwoFactorStatusDto : Type 0 where
  pub enabled : Bool
  pub enrolling : Bool

-- `SqlTotpSecretRepository`
unfoldable pub find_by_user : List TotpSecret → ℕ → Option TotpSecret
unfolding find
find_by_user rows user_id = find owner user_id rows

unfoldable pub save_secret : List TotpSecret → TotpSecret → List TotpSecret
unfolding upsert
save_secret rows secret = upsert owner secret rows

unfoldable pub confirm_secret : List TotpSecret → ℕ → ℕ → Result TotpError (List TotpSecret)
unfolding find update_where
confirm_secret rows user_id confirmed_at = elim (find owner user_id rows) [
  | none ↦ raised totp_not_enrolled
  | some _ ↦ done (
      update_where (λ t. t.user_id == user_id) (λ t. record t { confirmed_at = some confirmed_at })
        rows)
]

unfoldable pub delete_secret : List TotpSecret → ℕ → List TotpSecret
unfolding delete_key
delete_secret rows user_id = delete_key owner user_id rows

-- `GetTwoFactorStatus.execute`
unfoldable pub two_factor_status : List TotpSecret → ℕ → TwoFactorStatusDto
unfolding find_by_user is_confirmed
two_factor_status rows user_id = elim (find_by_user rows user_id) [
  | none ↦ record { enabled = false; enrolling = false }
  | some stored ↦ record { enabled = is_confirmed stored; enrolling = not (is_confirmed stored) }
]

module _ (provisioning_uri : String → String → String) where
  -- `StartTotpEnrollment.execute`; `secret` is what `generate_secret` returns.
  unfoldable pub start_enrollment :
      List TotpSecret
      → (user_id : ℕ) → (account_name secret : String)
      → Result TotpError (TotpEnrollmentDto × List TotpSecret)
  unfolding find_by_user is_confirmed save_secret
  start_enrollment rows user_id account_name secret =
      let saved =
        save_secret rows (record { user_id = user_id; secret = secret; confirmed_at = none }) in
      let dto : TotpEnrollmentDto = record {
        secret = secret;
        otpauth_uri = provisioning_uri secret account_name;
      } in
      elim (find_by_user rows user_id) [
        | none ↦ done (dto, saved)
        | some stored ↦
            if is_confirmed stored then raised totp_already_enabled else done (dto, saved)
      ]

-- `verify at secret code` is what `TotpAuthenticator.verify` answers at the time `at`.
module _ (verify : ℕ → String → String → Bool) where
  -- `ConfirmTotpEnrollment.execute`; `now` is its reading of the clock after the check of the code.
  unfoldable pub confirm_enrollment :
      List TotpSecret
      → (user_id : ℕ) → (code : String) → (at now : ℕ) → Result TotpError (List TotpSecret)
  unfolding find_by_user is_confirmed confirm_secret
  confirm_enrollment rows user_id code at now = elim (find_by_user rows user_id) [
    | none ↦ raised totp_not_enrolled
    | some stored ↦
        if is_confirmed stored
        then raised totp_already_enabled
        else if verify at stored.secret code
        then confirm_secret rows user_id now
        else raised invalid_totp_code
  ]

  -- `DisableTotp.execute`
  unfoldable pub disable :
      List TotpSecret
      → (user_id : ℕ) → (code : String) → (at : ℕ) → Result TotpError (List TotpSecret)
  unfolding find_by_user is_confirmed delete_secret
  disable rows user_id code at = elim (find_by_user rows user_id) [
    | none ↦ raised totp_not_enrolled
    | some stored ↦
        if is_confirmed stored && not (verify at stored.secret code)
        then raised invalid_totp_code
        else done (delete_secret rows user_id)
  ]

  -- The check of a code that may be missing, against a confirmed secret.
  unfoldable pub check_code :
      (secret : String) → Option String → (at : ℕ) → Result TotpError (Unit {0})
  check_code secret none at = raised totp_required
  check_code secret (some code) at =
      if is_empty code
      then raised totp_required
      else if verify at secret code
      then done tt
      else raised invalid_totp_code

  -- `VerifySecondFactor.execute`
  unfoldable pub verify_second_factor :
      List TotpSecret → (user_id : ℕ) → Option String → (at : ℕ) → Result TotpError (Unit {0})
  unfolding find_by_user is_confirmed check_code
  verify_second_factor rows user_id code at = elim (find_by_user rows user_id) [
    | none ↦ done tt
    | some stored ↦ if is_confirmed stored then check_code stored.secret code at else done tt
  ]
