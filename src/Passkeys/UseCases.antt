-- ===== src/Passkeys/UseCases.antt =====
-- Registering a passkey and signing in with one. `verify_registration` and `verify_authentication` are
-- what the relying party verifies of a response, against a challenge and a stored key; `none` is its
-- `PasskeyVerificationError`. The fields of a response that the use cases read are a record.
use fastapitemplate.Common.Clock.{seconds}
use fastapitemplate.Common.Results.{Result, raised, done, and_then}
use fastapitemplate.Common.Text.{is_empty, strip}
use fastapitemplate.Common.{
  ℕ, ◌+◌, String, Bool, not, Option, none, some, List, nat_eq, option_eq, ◌==◌, if◌then◌else◌,
}
use fastapitemplate.Passkeys.{
  PasskeyError, WebAuthnChallenge, registration, authentication, challenge_not_found,
  passkey_verification, issue_challenge, consume,
}
use fastapitemplate.Passkeys.Credentials.{
  PasskeyCredential, PasskeySummaryDto, summary_of, find_by_credential_id, add_credential,
  update_usage, with_usage,
}

pub record VerifiedRegistration : Type 0 where
  pub credential_id : String
  pub public_key : String
  pub sign_count : ℕ
  pub attestation_format : Option String
  pub aaguid : Option String
  pub backup_eligible : Bool
  pub backup_state : Bool

-- The two tables.
pub record Store : Type 0 where
  pub challenges : List WebAuthnChallenge
  pub credentials : List PasskeyCredential

-- `StartPasskeyRegistration.execute`; `challenge` is that of the options, and `expires_from` and `now`
-- the two readings of the clock.
unfoldable pub start_registration :
    Store
    → (user_id : ℕ) → (challenge_id challenge : String)
    → (challenge_ttl_seconds expires_from now : ℕ) → Result PasskeyError Store
unfolding issue_challenge
start_registration s user_id challenge_id challenge ttl expires_from now =
    let issued : WebAuthnChallenge = record {
      challenge_id = challenge_id;
      challenge = challenge;
      purpose = registration;
      expires_at = expires_from + seconds ttl;
      user_id = some user_id;
    } in
    and_then (issue_challenge s.challenges issued now)
      (λ rows. done (record s { challenges = rows }))

-- `StartPasskeyAuthentication.execute`
unfoldable pub start_authentication :
    Store
    → (challenge_id challenge : String) → (challenge_ttl_seconds expires_from now : ℕ)
    → Result PasskeyError Store
unfolding issue_challenge
start_authentication s challenge_id challenge ttl expires_from now =
    let issued : WebAuthnChallenge = record {
      challenge_id = challenge_id;
      challenge = challenge;
      purpose = authentication;
      expires_at = expires_from + seconds ttl;
      user_id = none;
    } in
    and_then (issue_challenge s.challenges issued now)
      (λ rows. done (record s { challenges = rows }))

-- `(name or "").strip() or None`
abbrev pub stripped_name : Option String → Option String
stripped_name none = none
stripped_name (some s) = if is_empty (strip s) then none else some (strip s)

-- The credential that a verified registration adds.
unfoldable pub registered_credential :
    (user_id : ℕ)
    → VerifiedRegistration
    → (transports : List String) → (name : Option String) → PasskeyCredential
unfolding strip
registered_credential user_id v transports name = record {
  user_id = user_id;
  credential_id = v.credential_id;
  public_key = v.public_key;
  sign_count = v.sign_count;
  transports = transports;
  name = stripped_name name;
  attestation_format = v.attestation_format;
  aaguid = v.aaguid;
  backup_eligible = v.backup_eligible;
  backup_state = v.backup_state;
  last_used_at = none;
  created_at = none;
  id = none;
}

-- What a verification that may fail raises.
abbrev pub verified_or : {A : Type 0} → Option A → Result PasskeyError A
verified_or none = raised passkey_verification
verified_or (some a) = done a

module _ (verify_registration : (expected_challenge : String) → Option VerifiedRegistration) where
  -- `CompletePasskeyRegistration.execute`; `transports` is what `_extract_transports` finds.
  unfoldable pub complete_registration :
      Store
      → (user_id : ℕ) → (challenge_id : String) → (transports : List String)
      → (name : Option String) → (now id created_at : ℕ)
      → Result PasskeyError (PasskeySummaryDto × Store)
  unfolding consume registered_credential add_credential summary_of
  complete_registration s user_id challenge_id transports name now id created_at =
      and_then (consume s.challenges challenge_id registration now) (λ consumed.
        if not (consumed.0.user_id == some user_id)
        then raised challenge_not_found
        else and_then (verified_or (verify_registration consumed.0.challenge)) (λ v.
          and_then
            (add_credential s.credentials (registered_credential user_id v transports name) id
              created_at)
            (λ added.
              done
                (summary_of added.0, record { challenges = consumed.1; credentials = added.1 }))))

-- `self.credentials.find_by_credential_id(credential_id) if credential_id else None`
abbrev pub stored_credential :
    List PasskeyCredential → Option String → Result PasskeyError PasskeyCredential
stored_credential rows none = raised passkey_verification
stored_credential rows (some credential_id) =
    if is_empty credential_id
    then raised passkey_verification
    else verified_or (find_by_credential_id rows credential_id)

-- What is verified of a response, against a challenge, a key and its count of signatures: the new count.
abbrev pub VerifyAuthentication : Type 0
VerifyAuthentication =
    (expected_challenge stored_public_key : String) → (stored_sign_count : ℕ) → Option ℕ

module _ (verify_authentication : VerifyAuthentication) where
  -- `CompletePasskeyAuthentication.execute`; `credential_id` is that of the response, and `now` and
  -- `used_at` the two readings of the clock.
  unfoldable pub complete_authentication :
      Store
      → (challenge_id : String) → (credential_id : Option String) → (now used_at : ℕ)
      → Result PasskeyError (ℕ × Store)
  unfolding consume find_by_credential_id update_usage with_usage
  complete_authentication s challenge_id credential_id now used_at =
      and_then (consume s.challenges challenge_id authentication now) (λ consumed.
        and_then (stored_credential s.credentials credential_id) (λ stored.
          and_then
            (verified_or
              (verify_authentication consumed.0.challenge stored.public_key stored.sign_count))
            (λ count.
              and_then (update_usage s.credentials (with_usage stored count used_at)) (λ rows.
                done (stored.user_id, record { challenges = consumed.1; credentials = rows })))))
