-- ===== src/Accounts/Linking.antt =====
-- When a user of the identity provider gets into an account that exists.
use fastapitemplate.Common.Results.{raised, done}
use fastapitemplate.Common.{
  String, ◌≡◌, ◌⊎◌, inl, inr, true, false, ◌||◌, some, List, ◌∷◌, arith, Option-cases, Bool-cases,
}
use fastapitemplate.Reconciliation.{FederatedIdentity}
use fastapitemplate.Accounts.{
  FederatedUser, FederatedAccount, Policies, Directory, ResolvedAccount, Write, known_account,
  enter_known, link_existing, attach, is_accepted, resolve, sso_account_inactive, touch_link,
  refresh_profile, synchronize_roles,
}

-- An account that exists is entered without a link only by a verified address: if a sign-in links a
-- user to an account, the address is verified, and either linking by address is on or the account is a
-- seat without an entrance; the account is an active one that the address finds.
pub resolve-linked :
    (lower : String → String) (policies : Policies) (directory : Directory)
    (links : List FederatedIdentity) (issuer : String) (user : FederatedUser) (r : ResolvedAccount)
    (writes : List Write)
    → resolve lower policies directory links issuer user ≡ done (r, writes)
    → r.linked ≡ true
    → (email : String) × (existing : FederatedAccount) × (user.email ≡ some email)
      × (directory.find_by_email email ≡ some existing)
      × (r.user_id ≡ existing.user_id)
      × (existing.is_active ≡ true)
      × (user.email_verified ≡ true)
      × ((policies.linking.link_by_email || existing.awaiting_owner) ≡ true)
unfolding resolve attach link_existing enter_known
resolve-linked lower policies directory links issuer user r writes e linked =
    elim (Option-cases (known_account directory links issuer user.subject)) [
      | inr (known, found) ↦ absurd (ground arith)
      | inl unknown ↦ elim (Option-cases user.email) [
        | inl missing ↦ absurd (ground arith)
        | inr (email, given) ↦ elim (Option-cases (directory.find_by_email email)) [
          | inl nobody ↦ absurd (ground arith)
          | inr (existing, found) ↦ (
            email,
            existing,
            given,
            found,
            ground arith,
            ground arith,
            ground arith,
            ground arith,
          )
        ]
      ]
    ]

-- A user who is linked is taken to the linked account, whatever address comes with the sign-in: if the
-- account is active and the domain of the address is accepted, it is the answer; if it is not active,
-- the sign-in is refused.
pub resolve-known :
    (lower : String → String) (policies : Policies) (directory : Directory)
    (links : List FederatedIdentity) (issuer : String) (user : FederatedUser)
    (known : FederatedAccount)
    → is_accepted lower policies.linking user ≡ true
    → known_account directory links issuer user.subject ≡ some known
    → ((known.is_active ≡ true)
        × ((writes : List Write) × (resolve lower policies directory links issuer user
              ≡ done (
                record { user_id = known.user_id; provisioned = false; linked = false },
                writes,
              ))))
      ⊎ ((known.is_active ≡ false)
          × (resolve lower policies directory links issuer user ≡ raised sso_account_inactive))
unfolding resolve enter_known
resolve-known lower policies directory links issuer user known accepted found =
    elim (Bool-cases known.is_active) [
      | inl active ↦ inl (
        active,
        (
          touch_link issuer user.subject
              ∷ refresh_profile known.user_id user.email user.username
              ∷ synchronize_roles policies.roles known,
          ground arith,
        ),
      )
      | inr stopped ↦ inr (stopped, ground arith)
    ]
