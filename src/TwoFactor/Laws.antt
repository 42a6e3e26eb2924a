-- ===== src/TwoFactor/Laws.antt =====
-- What a user's second factor goes through: requests of all users, one after the other.
use fastapitemplate.Common.Lists.{All}
use fastapitemplate.Common.Results.{Result, raised, done, committed}
use fastapitemplate.Common.Table.{find, find-upsert, find-delete_key, find-update_where}
use fastapitemplate.Common.{
  ℕ, String, ◌≡◌, refl, ◌∙◌, Bool, false, Option, none, some, List, [], ◌∷◌, arith, nat_eq, ◌==◌,
  ◌&&◌, if◌then◌else◌, Bool-cases, inl, inr,
}
use fastapitemplate.TwoFactor.{
  TotpSecret, totp_required, owner, two_factor_status, start_enrollment, confirm_enrollment,
  disable, verify_second_factor, check_code,
}

-- A request to the pages where users manage their second factor.
pub data Request : Type 0 where
  start : (user_id : ℕ) (account_name secret : String) → Request
  confirm : (user_id : ℕ) (code : String) (at now : ℕ) → Request
  remove : (user_id : ℕ) (code : String) (at : ℕ) → Request

-- The table that an enrolment leaves.
abbrev pub table_of : {E A R : Type 0} → Result E (A × R) → Result E R
table_of (raised e) = raised e
table_of (done (_, rows)) = done rows

module _ (provisioning_uri : String → String → String) (verify : ℕ → String → String → Bool) where
  unfoldable pub handle : List TotpSecret → Request → List TotpSecret
  handle rows (start user_id account_name secret) =
      committed rows (table_of (start_enrollment provisioning_uri rows user_id account_name secret))
  handle rows (confirm user_id code at now) =
      committed rows (confirm_enrollment verify rows user_id code at now)
  handle rows (remove user_id code at) = committed rows (disable verify rows user_id code at)

  unfoldable pub serve : List TotpSecret → List Request → List TotpSecret
  serve rows [] = rows
  serve rows (r ∷ rest) = serve (handle rows r) rest

  -- The request is the user's, and removes the factor with a code that is right for this secret.
  abbrev pub unlocks : ℕ → String → Request → Bool
  unlocks user_id secret (remove other code at) = other == user_id && verify at secret code
  unlocks user_id secret _ = false

  handle-enabled :
      (rows : List TotpSecret) (user_id : ℕ) (secret : String) (t : ℕ) (r : Request)
      → let stored : TotpSecret = record {
        user_id = user_id;
        secret = secret;
        confirmed_at = some t;
      } in
        find owner user_id rows ≡ some stored
        → unlocks user_id secret r ≡ false
        → find owner user_id (handle rows r) ≡ some stored
  unfolding handle start_enrollment confirm_enrollment disable
  handle-enabled rows user_id secret t (start other account_name fresh) found safe = ground (
    arith,
    find-upsert owner (record { user_id = other; secret = fresh; confirmed_at = none }) user_id
        rows,
    nat_eq.beq_iff other user_id,
  )
  handle-enabled rows user_id secret t (confirm other code at now) found safe = ground (
    arith,
    find-update_where owner (λ t. t.user_id == other) (λ t. record t { confirmed_at = some now })
        user_id rows (λ r. refl),
    nat_eq.beq_iff user_id other,
    nat_eq.beq_iff other user_id,
  )
  handle-enabled rows user_id secret t (remove other code at) found safe =
      ground (arith, find-delete_key owner other user_id rows, nat_eq.beq_iff other user_id)

  serve-enabled :
      (rows : List TotpSecret) (user_id : ℕ) (secret : String) (t : ℕ) (requests : List Request)
      → let stored : TotpSecret = record {
        user_id = user_id;
        secret = secret;
        confirmed_at = some t;
      } in
        find owner user_id rows ≡ some stored
        → All (λ r. unlocks user_id secret r ≡ false) requests
        → find owner user_id (serve rows requests) ≡ some stored
  unfolding serve
  serve-enabled rows user_id secret t [] found all = found
  serve-enabled rows user_id secret t (r ∷ rest) found (safe, all) =
      serve-enabled (handle rows r) user_id secret t rest
        (handle-enabled rows user_id secret t r found safe) all

  enabled-asks :
      (rows : List TotpSecret) (user_id : ℕ) (secret : String) (t : ℕ) (code : Option String)
      (at : ℕ)
      → find owner user_id rows
        ≡ some (record { user_id = user_id; secret = secret; confirmed_at = some t })
      → verify_second_factor verify rows user_id code at ≡ check_code verify secret code at
  unfolding verify_second_factor
  enabled-asks rows user_id secret t code at found = ground arith

  -- An enabled second factor cannot be worked around: after any requests of any users, as long as none
  -- of them removes this user's factor with a code that is right for its secret, a login of the user
  -- is let through exactly with a code that is right for the secret that was confirmed.
  pub enabled-stays :
      (rows : List TotpSecret) (user_id : ℕ) (secret : String) (t : ℕ) (requests : List Request)
      (code : Option String) (at : ℕ)
      → find owner user_id rows
        ≡ some (record { user_id = user_id; secret = secret; confirmed_at = some t })
      → All (λ r. unlocks user_id secret r ≡ false) requests
      → verify_second_factor verify (serve rows requests) user_id code at
        ≡ check_code verify secret code at
  enabled-stays rows user_id secret t requests code at found all =
      enabled-asks (serve rows requests) user_id secret t code at
        (serve-enabled rows user_id secret t requests found all)

  -- What the status page says is what a login asks for: a login without a code is let through exactly
  -- if the factor is not shown as enabled.
  pub status-login :
      (rows : List TotpSecret) (user_id at : ℕ)
      → verify_second_factor verify rows user_id none at
        ≡ (if (two_factor_status rows user_id).enabled then raised totp_required else done tt)
  unfolding verify_second_factor two_factor_status check_code
  status-login rows user_id at = ground arith

  started :
      (rows : List TotpSecret) (user_id : ℕ) (account_name secret : String)
      → (two_factor_status rows user_id).enabled ≡ false
      → find owner user_id (handle rows (start user_id account_name secret))
        ≡ some (record { user_id = user_id; secret = secret; confirmed_at = none })
  unfolding handle start_enrollment two_factor_status
  started rows user_id account_name secret off = ground (
    arith,
    find-upsert owner (record { user_id = user_id; secret = secret; confirmed_at = none }) user_id
        rows,
    nat_eq.beq_iff user_id user_id,
  )

  confirmed :
      (rows : List TotpSecret) (user_id : ℕ) (secret code : String) (at now : ℕ)
      → find owner user_id rows
        ≡ some (record { user_id = user_id; secret = secret; confirmed_at = none })
      → find owner user_id (handle rows (confirm user_id code at now))
        ≡ some (record {
          user_id = user_id;
          secret = secret;
          confirmed_at = if verify at secret code then some now else none;
        })
  unfolding handle confirm_enrollment
  confirmed rows user_id secret code at now found = ground (
    arith,
    find-update_where owner (λ t. t.user_id == user_id) (λ t. record t { confirmed_at = some now })
        user_id rows (λ r. refl),
    nat_eq.beq_iff user_id user_id,
  )

  pending-open :
      (rows : List TotpSecret) (user_id : ℕ) (secret : String) (presented : Option String)
      (later : ℕ)
      → find owner user_id rows
        ≡ some (record { user_id = user_id; secret = secret; confirmed_at = none })
      → verify_second_factor verify rows user_id presented later ≡ done tt
  unfolding verify_second_factor
  pending-open rows user_id secret presented later found = ground arith

  -- A complete enrolment: a user without an enabled factor starts one, and then confirms it with a
  -- code. If the code is right, the factor is in force with the secret that was shown; if it is
  -- wrong, the confirmation fails and the user still signs in without a code.
  pub start-confirm :
      (rows : List TotpSecret) (user_id : ℕ) (account_name secret code : String) (at now : ℕ)
      (presented : Option String) (later : ℕ)
      → (two_factor_status rows user_id).enabled ≡ false
      → let started = handle rows (start user_id account_name secret) in
        let after = handle started (confirm user_id code at now) in
        verify_second_factor verify after user_id presented later
        ≡ (if verify at secret code then check_code verify secret presented later else done tt)
  start-confirm rows user_id account_name secret code at now presented later off =
      let rows' = handle rows (start user_id account_name secret) in
      let found =
        confirmed rows' user_id secret code at now (started rows user_id account_name secret off) in
      elim (Bool-cases (verify at secret code)) [
        | inl right ↦ rw right (
            enabled-asks (handle rows' (confirm user_id code at now)) user_id secret now presented
              later (found ∙ (rw right refl)))
        | inr wrong ↦ rw wrong (
            pending-open (handle rows' (confirm user_id code at now)) user_id secret presented later
              (found ∙ (rw wrong refl)))
      ]
