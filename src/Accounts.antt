-- ===== src/Accounts.antt =====
-- Which account a user of the identity provider is taken to, in bounded_contexts/identity_federation:
-- application/use_cases/resolve_federated_account.py, with domain/value_objects/federated_user.py,
-- account_linking_policy.py, role_assignment.py and domain/entities/federated_account.py. The reads of
-- the directory of users are a record, the interface FederatedUserDirectory; what the use case writes
-- is the list of its calls, in their order. `lower` is `str.lower`.
pub mod Linking
pub mod Mapping
mod Tests
use Prim.Native.Char.{code}
use fastapitemplate.Common.Lists.{contains}
use fastapitemplate.Common.Results.{Result, raised, done}
use fastapitemplate.Common.Text.{is_empty}
use fastapitemplate.Common.{
  ℕ, String, Bool, true, false, not, ◌&&◌, ◌||◌, Option, none, some, List, [], ◌∷◌, map, or_else,
  nat_beq, string_eq, if◌then◌else◌,
}
use fastapitemplate.Reconciliation.{FederatedIdentity, find_identity}

pub record FederatedUser : Type 0 where
  pub subject : String
  pub email : Option String
  pub username : String
  pub email_verified : Bool

-- `"@" in text`
unfoldable pub has_at : String → Bool
has_at String.[] = false
has_at (String.◌∷◌ c s) = nat_beq (code c) 64 || has_at s

-- `text.rpartition("@")[2]`
unfoldable pub last_part : String → String
unfolding has_at
last_part String.[] = String.[]
last_part (String.◌∷◌ c s) =
    let rest = last_part s in
    if has_at s then rest else if nat_beq (code c) 64 then s else String.◌∷◌ c s

-- `text.lstrip("@")`
unfoldable pub lstrip_at : String → String
lstrip_at String.[] = String.[]
lstrip_at (String.◌∷◌ c s) = if nat_beq (code c) 64 then lstrip_at s else String.◌∷◌ c s

pub record AccountLinkingPolicy : Type 0 where
  pub link_by_email : Bool
  pub allowed_email_domains : List String

-- `AccountLinkingPolicy.may_link`
unfoldable pub may_link : AccountLinkingPolicy → FederatedUser → Bool
may_link policy user = policy.link_by_email && user.email_verified

-- `AccountLinkingPolicy.may_claim_seat`
unfoldable pub may_claim_seat : FederatedUser → Bool
may_claim_seat user = user.email_verified

pub record RoleAssignment : Type 0 where
  pub default_roles : List String
  pub sync_on_login : Bool

pub record FederatedAccount : Type 0 where
  pub user_id : ℕ
  pub email : String
  pub is_active : Bool
  pub roles : List String
  pub awaiting_owner : Bool

-- The reads of `FederatedUserDirectory`, and the key that `provision` gives a new user; it gives none, and
-- raises, where the issuer has no tenant.
pub record Directory : Type 0 where
  pub find_by_id : ℕ → Option FederatedAccount
  pub find_by_email : String → Option FederatedAccount
  pub new_user_id : Option ℕ

pub data AccountError : Type 0 where
  sso_email_not_allowed sso_account_not_linked sso_account_inactive : AccountError

-- A call that writes; those of a request that raises are rolled back. The first and the last are of
-- the table of links, the others of the directory.
pub data Write : Type 0 where
  touch_link : (issuer subject : String) → Write
  refresh_profile : (user_id : ℕ) (email : Option String) (username : String) → Write
  apply_roles : (user_id : ℕ) (roles : List String) → Write
  provision : (email username : String) (roles : List String) → Write
  link_account : (issuer subject : String) (user_id : ℕ) → Write

pub record ResolvedAccount : Type 0 where
  pub user_id : ℕ
  pub provisioned : Bool
  pub linked : Bool

-- The settings of the use case.
pub record Policies : Type 0 where
  pub linking : AccountLinkingPolicy
  pub auto_provision : Bool
  pub roles : RoleAssignment

-- The account of `_known_account`, which a link without its user does not have.
unfoldable pub known_account :
    Directory → List FederatedIdentity → (issuer subject : String) → Option FederatedAccount
unfolding find_identity
known_account directory links issuer subject = elim (find_identity links issuer subject) [
  | none ↦ none
  | some identity ↦ directory.find_by_id identity.user_id
]

-- `_synchronize_roles`
unfoldable pub synchronize_roles : RoleAssignment → FederatedAccount → List Write
synchronize_roles roles account =
    if roles.sync_on_login then apply_roles account.user_id roles.default_roles ∷ [] else []

-- The part of `execute` for a user who is linked already.
unfoldable pub enter_known :
    Policies
    → (issuer : String) → FederatedUser
    → FederatedAccount
    → Result AccountError (ResolvedAccount × List Write)
unfolding synchronize_roles
enter_known policies issuer user known =
    if known.is_active
    then done (
      record { user_id = known.user_id; provisioned = false; linked = false },
      touch_link issuer user.subject
          ∷ refresh_profile known.user_id user.email user.username
          ∷ synchronize_roles policies.roles known,
    )
    else raised sso_account_inactive

-- `_link_existing`
unfoldable pub link_existing :
    Policies
    → (issuer : String) → FederatedUser
    → FederatedAccount
    → Result AccountError (ResolvedAccount × List Write)
unfolding may_link may_claim_seat
link_existing policies issuer user existing =
    if not (may_link policies.linking user || (existing.awaiting_owner && may_claim_seat user))
    then raised sso_account_not_linked
    else if existing.is_active
    then done (
      record { user_id = existing.user_id; provisioned = false; linked = true },
      link_account issuer user.subject existing.user_id ∷ [],
    )
    else raised sso_account_inactive

-- `_attach`
unfoldable pub attach :
    Policies
    → Directory
    → (issuer : String) → FederatedUser
    → Result AccountError (ResolvedAccount × List Write)
unfolding link_existing
attach policies directory issuer user = elim user.email [
  | none ↦ raised sso_account_not_linked
  | some email ↦ elim (directory.find_by_email email) [
    | some existing ↦ link_existing policies issuer user existing
    | none ↦
        if policies.auto_provision
        then elim directory.new_user_id [
          | none ↦ raised sso_account_not_linked
          | some user_id ↦ done (
            record { user_id = user_id; provisioned = true; linked = false },
            provision email user.username policies.roles.default_roles
                ∷ link_account issuer user.subject user_id
                ∷ [],
          )
        ]
        else raised sso_account_not_linked
  ]
]

module _ (lower : String → String) where
  -- `FederatedUser.email_domain`
  unfoldable pub email_domain : FederatedUser → String
  unfolding last_part
  email_domain user = lower (last_part (or_else user.email ""))

  -- `AccountLinkingPolicy.ensure_accepted` passes.
  unfoldable pub is_accepted : AccountLinkingPolicy → FederatedUser → Bool
  unfolding email_domain lstrip_at
  is_accepted policy user = elim policy.allowed_email_domains [
    | [] ↦ true
    | d ∷ domains ↦ contains (email_domain user) (map (λ x. lstrip_at (lower x)) (d ∷ domains))
  ]

  -- `ResolveFederatedAccount.execute`
  unfoldable pub resolve :
      Policies
      → Directory
      → List FederatedIdentity
      → (issuer : String) → FederatedUser
      → Result AccountError (ResolvedAccount × List Write)
  unfolding is_accepted known_account enter_known attach
  resolve policies directory links issuer user =
      if is_accepted policies.linking user
      then elim (known_account directory links issuer user.subject) [
        | none ↦ attach policies directory issuer user
        | some known ↦ enter_known policies issuer user known
      ]
      else raised sso_email_not_allowed
