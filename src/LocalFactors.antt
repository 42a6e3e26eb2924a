-- ===== src/LocalFactors.antt =====
-- The count of the factors that this application holds itself, in bounded_contexts/account_security:
-- domain/value_objects/local_factors.py, infrastructure/sql_local_factor_directory.py and
-- application/use_cases/count_local_factors.py. A dictionary is the list of its entries, of which a
-- lookup takes the first; a set is the list of its members.
pub mod Agreement
mod Tests
use fastapitemplate.Common.Lists.{contains, keep}
use fastapitemplate.Common.Table.{count_where}
use fastapitemplate.Common.{
  ℕ, suc, Bool, true, false, ◌&&◌, ◌||◌, Option, none, some, List, [], ◌∷◌, ◌++◌, map, or_else,
  nat_eq, ◌==◌, if◌then◌else◌,
}
use fastapitemplate.Passkeys.Credentials.{PasskeyCredential}
use fastapitemplate.TwoFactor.{TotpSecret, is_confirmed}

-- `LocalFactors`
pub record LocalFactor : Type 0 where
  pub totp : Bool
  pub passkeys : ℕ

-- `dictionary.get(key)`
unfoldable pub look {ℓ} : {A : Type ℓ} → ℕ → List (ℕ × A) → Option A
look k [] = none
look k ((j, a) ∷ rest) = if j == k then some a else look k rest

-- The users with a confirmed secret.
unfoldable pub confirmed_users : List TotpSecret → List ℕ
unfolding is_confirmed
confirmed_users secrets = map (λ s. s.user_id) (keep is_confirmed secrets)

-- One more row in the group of a user.
unfoldable pub count_up : ℕ → List (ℕ × ℕ) → List (ℕ × ℕ)
count_up user_id [] = (user_id, 1) ∷ []
count_up user_id ((j, n) ∷ rest) =
    if j == user_id then (j, suc n) ∷ rest else (j, n) ∷ count_up user_id rest

-- `SELECT user_id, COUNT(*) ... GROUP BY user_id`
unfoldable pub passkey_counts : List PasskeyCredential → List (ℕ × ℕ)
unfolding count_up
passkey_counts [] = []
passkey_counts (c ∷ rows) = count_up c.user_id (passkey_counts rows)

-- The entry of a user in `factors_by_user`.
abbrev pub entry : List ℕ → List (ℕ × ℕ) → ℕ → ℕ × LocalFactor
entry confirmed passkeys user_id = (
  user_id,
  record { totp = contains user_id confirmed; passkeys = or_else (look user_id passkeys) 0 },
)

-- `SqlLocalFactorDirectory.factors_by_user`
unfoldable pub factors_by_user : List TotpSecret → List PasskeyCredential → List (ℕ × LocalFactor)
unfolding confirmed_users passkey_counts look
factors_by_user secrets credentials =
    let confirmed = confirmed_users secrets in
    let passkeys = passkey_counts credentials in
    map (entry confirmed passkeys) (confirmed ++ map (λ e. e.0) passkeys)

-- A confirmed secret of the user is found.
unfoldable pub has_confirmed : List TotpSecret → ℕ → Bool
unfolding is_confirmed
has_confirmed [] user_id = false
has_confirmed (s ∷ secrets) user_id =
    (s.user_id == user_id && is_confirmed s) || has_confirmed secrets user_id

-- `SqlLocalFactorDirectory.factors_of`
unfoldable pub factors_of : List TotpSecret → List PasskeyCredential → ℕ → LocalFactor
unfolding has_confirmed count_where
factors_of secrets credentials user_id = record {
  totp = has_confirmed secrets user_id;
  passkeys = count_where (λ c. c.user_id == user_id) credentials;
}
