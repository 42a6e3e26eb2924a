-- ===== src/LocalFactors/Agreement.antt =====
-- The inventory of all users against the count of one.
use fastapitemplate.Common.Lists.{contains}
use fastapitemplate.Common.Table.{count_where}
use fastapitemplate.Common.{
  ℕ, suc, ◌≡◌, refl, false, ◌||◌, none, some, List, [], ◌∷◌, ◌++◌, map, arith, or_else, nat_eq,
  ◌==◌, if◌then◌else◌, Bool-cases, inl, inr,
}
use fastapitemplate.Passkeys.Credentials.{PasskeyCredential}
use fastapitemplate.TwoFactor.{TotpSecret}
use fastapitemplate.LocalFactors.{
  look, confirmed_users, count_up, passkey_counts, entry, factors_by_user, has_confirmed,
  factors_of,
}

contains-append :
    (k : ℕ) (xs ys : List ℕ) → contains k (xs ++ ys) ≡ (contains k xs || contains k ys)
contains-append k [] ys = refl
contains-append k (x ∷ xs) ys = ground (arith, contains-append k xs ys)

contains-confirmed_users :
    (secrets : List TotpSecret) (user_id : ℕ)
    → contains user_id (confirmed_users secrets) ≡ has_confirmed secrets user_id
unfolding confirmed_users has_confirmed
contains-confirmed_users [] user_id = refl
contains-confirmed_users (s ∷ secrets) user_id =
    ground (arith, contains-confirmed_users secrets user_id)

-- The count of a user in a group, 0 if there is none.
look-count_up :
    (k user_id : ℕ) (counts : List (ℕ × ℕ))
    → or_else (look k (count_up user_id counts)) 0
      ≡ (if user_id == k then suc (or_else (look k counts) 0) else or_else (look k counts) 0)
unfolding look count_up
look-count_up k user_id [] = ground arith
look-count_up k user_id ((j, n) ∷ rest) = ground (
  arith,
  look-count_up k user_id rest,
  nat_eq.beq_iff j user_id,
  nat_eq.beq_iff j k,
  nat_eq.beq_iff user_id k,
)

look-passkey_counts :
    (credentials : List PasskeyCredential) (k : ℕ)
    → or_else (look k (passkey_counts credentials)) 0
      ≡ count_where (λ c. c.user_id == k) credentials
unfolding look passkey_counts count_where
look-passkey_counts [] k = refl
look-passkey_counts (c ∷ rows) k =
    ground (arith, look-passkey_counts rows k, look-count_up k c.user_id (passkey_counts rows))

contains-keys :
    (counts : List (ℕ × ℕ)) (k : ℕ)
    → contains k (map (λ e. e.0) counts) ≡ false
    → or_else (look k counts) 0 ≡ 0
unfolding look
contains-keys [] k h = refl
contains-keys ((j, n) ∷ rest) k h = ground (arith, contains-keys rest k)

look-map :
    (confirmed : List ℕ) (passkeys : List (ℕ × ℕ)) (keys : List ℕ) (k : ℕ)
    → look k (map (entry confirmed passkeys) keys)
      ≡ (if contains k keys then some (entry confirmed passkeys k).1 else none)
unfolding look
look-map confirmed passkeys [] k = refl
look-map confirmed passkeys (j ∷ keys) k = elim (Bool-cases (j == k)) [
  | inl same ↦ let e : j ≡ k = (nat_eq.beq_iff j k).0 same in rw (same, e) refl
  | inr other ↦ rw other (look-map confirmed passkeys keys k)
]

-- The inventory of all users and the count of one user agree: what the inventory says of a user, and
-- nothing at all for one whom it leaves out, is what the two queries for that user say.
pub factors_by_user-factors_of :
    (secrets : List TotpSecret) (credentials : List PasskeyCredential) (user_id : ℕ)
    → or_else
        (look user_id (factors_by_user secrets credentials))
        (record { totp = false; passkeys = 0 })
      ≡ factors_of secrets credentials user_id
unfolding factors_by_user factors_of
factors_by_user-factors_of secrets credentials user_id =
    let confirmed = confirmed_users secrets in
    let counts = passkey_counts credentials in
    let keys = confirmed ++ map (λ e. e.0) counts in
    ground (
      arith,
      look-map confirmed counts keys user_id,
      contains-append user_id confirmed (map (λ e. e.0) counts),
      contains-confirmed_users secrets user_id,
      look-passkey_counts credentials user_id,
      contains-keys counts user_id,
    )
