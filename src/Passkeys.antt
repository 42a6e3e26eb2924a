-- ===== src/Passkeys.antt =====
-- Passkeys (WebAuthn), in bounded_contexts/account_security: domain/entities/webauthn_challenge.py and
-- passkey_credential.py, their repositories infrastructure/sql_webauthn_challenge_repository.py and
-- sql_passkey_credential_repository.py, and application/use_cases/register_passkey.py,
-- authenticate_with_passkey.py and manage_passkeys.py. The tables are the lists of their rows. The
-- relying party is a library's: what it verifies of a response is a parameter.
pub mod Credentials
pub mod UseCases
pub mod Owners
pub mod SingleUse
mod Tests
use fastapitemplate.Common.Clock.{seconds}
use fastapitemplate.Common.Results.{Result, raised, done}
use fastapitemplate.Common.Table.{find, insert_row, delete_where, delete_key}
use fastapitemplate.Common.{
  ℕ, String, Bool, not, Option, none, some, List, ltb, leb, string_eq, ◌==◌, if◌then◌else◌,
}

-- `CHALLENGE_PURPOSE_REGISTRATION` and `CHALLENGE_PURPOSE_AUTHENTICATION`
pub data Purpose : Type 0 where
  registration authentication : Purpose

abbrev pub same_purpose : Purpose → Purpose → Bool
same_purpose registration registration = Bool.true
same_purpose authentication authentication = Bool.true
same_purpose _ _ = Bool.false

-- The exceptions of domain/exceptions.py; `integrity_error` is the database's.
pub data PasskeyError : Type 0 where
  challenge_not_found passkey_verification passkey_already_registered passkey_not_found
        integrity_error :
      PasskeyError

pub record WebAuthnChallenge : Type 0 where
  pub challenge_id : String
  pub challenge : String
  pub purpose : Purpose
  pub expires_at : ℕ
  pub user_id : Option ℕ

abbrev pub challenge_key : WebAuthnChallenge → String
challenge_key c = c.challenge_id

unfoldable pub is_expired : WebAuthnChallenge → ℕ → Bool
is_expired c now = leb c.expires_at now

-- `SqlWebAuthnChallengeRepository.issue`
unfoldable pub issue_challenge :
    List WebAuthnChallenge → WebAuthnChallenge → ℕ → Result PasskeyError (List WebAuthnChallenge)
unfolding delete_where insert_row
issue_challenge rows challenge now =
    elim (insert_row challenge_key challenge (delete_where (λ c. ltb c.expires_at now) rows)) [
      | none ↦ raised integrity_error
      | some rows' ↦ done rows'
    ]

-- `SqlWebAuthnChallengeRepository.consume`, of a request that runs alone; the key is unique, so that
-- the `DELETE` reaches the row that was read. The row of an expired challenge is deleted too, but the
-- exception rolls the request back (shared/kernel/database/session.py), and with it the deletion.
unfoldable pub consume :
    List WebAuthnChallenge
    → (challenge_id : String) → Purpose
    → (now : ℕ) → Result PasskeyError (WebAuthnChallenge × List WebAuthnChallenge)
unfolding find delete_key is_expired
consume rows challenge_id purpose now = elim (find challenge_key challenge_id rows) [
  | none ↦ raised challenge_not_found
  | some c ↦
      if not (same_purpose c.purpose purpose)
      then raised challenge_not_found
      else if is_expired c now
      then raised challenge_not_found
      else done (c, delete_key challenge_key challenge_id rows)
]
