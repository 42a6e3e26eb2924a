-- ===== src/Accounts/Tests.antt =====
-- Sign-ins at concrete inputs; `lower` is the identity, which `str.lower` is on lower-case text.
use fastapitemplate.Common.Results.{raised, done}
use fastapitemplate.Common.Table.{find}
use fastapitemplate.Common.{
  ℕ, String, ◌≡◌, refl, true, false, ◌||◌, Option, none, some, [], ◌∷◌, string_eq, pair_eq, nat_eq,
  ◌==◌, if◌then◌else◌,
}
use fastapitemplate.Reconciliation.{FederatedIdentity}
use fastapitemplate.Accounts.{
  FederatedUser, FederatedAccount, Policies, Directory, ResolvedAccount, resolve, is_accepted,
  known_account, link_account, sso_email_not_allowed,
}
use fastapitemplate.Accounts.Linking.{resolve-linked}

abbrev same : String → String
same s = s

abbrev policies : Policies
policies = record {
  linking = record { link_by_email = true; allowed_email_domains = "@example.com" ∷ [] };
  auto_provision = false;
  roles = record { default_roles = []; sync_on_login = false };
}

abbrev account : FederatedAccount
account = record {
  user_id = 7;
  email = "ann@example.com";
  is_active = true;
  roles = [];
  awaiting_owner = false;
}

abbrev by_id : ℕ → Option FederatedAccount
by_id n = if n == 7 then some account else none

abbrev directory : Directory
directory = record {
  find_by_id = by_id;
  find_by_email = λ email. if email == "ann@example.com" then some account else none;
  new_user_id = some 9;
}

abbrev ann : FederatedUser
ann = record {
  subject = "ann";
  email = some "ann@example.com";
  username = "ann";
  email_verified = true;
}

abbrev ann_link : FederatedIdentity
ann_link = record {
  issuer = "idp";
  subject = "ann";
  user_id = 7;
  linked_at = none;
  last_login_at = none;
}

abbrev entered : ResolvedAccount
entered = record { user_id = 7; provisioned = false; linked = true }

resolved :
    resolve same policies directory [] "idp" ann ≡ done (entered, link_account "idp" "ann" 7 ∷ [])
unfolding resolve find
resolved = refl

other_domain :
    resolve same policies directory [] "idp" (record ann { email = some "ann@evil.com" })
    ≡ raised sso_email_not_allowed
unfolding resolve find
other_domain = refl

resolve-linked_example :
    (email : String) × (existing : FederatedAccount) × (ann.email ≡ some email)
    × (directory.find_by_email email ≡ some existing)
    × (7 ≡ existing.user_id)
    × (existing.is_active ≡ true)
    × (ann.email_verified ≡ true)
    × ((policies.linking.link_by_email || existing.awaiting_owner) ≡ true)
resolve-linked_example =
    resolve-linked same policies directory [] "idp" ann entered (link_account "idp" "ann" 7 ∷ [])
      resolved refl

ann-accepted : is_accepted same policies.linking ann ≡ true
unfolding is_accepted
ann-accepted = refl

ann-known : known_account directory (ann_link ∷ []) "idp" "ann" ≡ some account
unfolding known_account find
ann-known = refl
