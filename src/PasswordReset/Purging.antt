-- ===== src/PasswordReset/Purging.antt =====
-- The removal of tokens that are used up or out of date.
use fastapitemplate.Common.Table.{find, IsKeyed}
use fastapitemplate.Common.Table.Keys.{find-delete_where}
use fastapitemplate.Common.{
  ℕ, ◌≤◌, ◌≡◌, refl, ◌∙◌, ap, String, true, Option, none, some, List, arith, Bool-cases, inl, inr,
  string_eq, nat_eq, if◌then◌else◌,
}
use fastapitemplate.PasswordReset.{
  Desk, PasswordResetToken, hash_key, is_spent, purge_tokens, reset, reset_user, reset_row,
  apply_reset,
}
use fastapitemplate.Users.{User, user_key}

-- What is spent stays so.
is_spent-later :
    (row : PasswordResetToken) (now later : ℕ)
    → now ≤ later
    → is_spent row now ≡ true
    → is_spent row later ≡ true
unfolding is_spent
is_spent-later row now later h e = ground arith

-- What the person who resets sees: the answer, and the users.
abbrev pub seen : Option ℕ × Desk → Option ℕ × List User
seen (answer, desk) = (answer, desk.users)

module _ (hash_token generate_password_hash : String → String) where
  -- The tokens that lie beside do not count.
  reset_user-tokens :
      (desk : Desk) (tokens : List PasswordResetToken) (row : PasswordResetToken)
      (new_password : String) (ended_at used_at : ℕ) (found : Option User)
      → seen (
          reset_user hash_token generate_password_hash
            (record desk { tokens = tokens })
            row
            new_password
            ended_at
            used_at
            found)
        ≡ seen (
            reset_user hash_token generate_password_hash desk row new_password ended_at used_at
              found)
  unfolding reset_user apply_reset
  reset_user-tokens desk tokens row new_password ended_at used_at none = refl
  reset_user-tokens desk tokens row new_password ended_at used_at (some user) = ground arith

  reset_row-tokens :
      (desk : Desk) (tokens : List PasswordResetToken) (new_password : String)
      (checked_at ended_at used_at : ℕ) (found : Option PasswordResetToken)
      → seen (
          reset_row hash_token generate_password_hash
            (record desk { tokens = tokens })
            new_password
            checked_at
            ended_at
            used_at
            found)
        ≡ seen (
            reset_row hash_token generate_password_hash desk new_password checked_at ended_at
              used_at found)
  unfolding reset_row
  reset_row-tokens desk tokens new_password checked_at ended_at used_at none = refl
  reset_row-tokens desk tokens new_password checked_at ended_at used_at (some row) = ground (
    arith,
    reset_user-tokens desk tokens row new_password ended_at used_at
        (find user_key row.user_id desk.users),
  )

  -- A row that a purge would remove gives the answer of a row that is not there.
  reset_row-spent :
      (desk : Desk) (new_password : String) (purged_at checked_at ended_at used_at : ℕ)
      (found : Option PasswordResetToken)
      → purged_at ≤ checked_at
      → reset_row hash_token generate_password_hash desk new_password checked_at ended_at used_at
          (elim found [ none ↦ none | some r ↦ if is_spent r purged_at then none else some r ])
        ≡ reset_row hash_token generate_password_hash desk new_password checked_at ended_at used_at
            found
  unfolding reset_row
  reset_row-spent desk new_password purged_at checked_at ended_at used_at none earlier = refl
  reset_row-spent desk new_password purged_at checked_at ended_at used_at (some row) earlier =
      elim (Bool-cases (is_spent row purged_at)) [
        | inl spent ↦ rw (spent, is_spent-later row purged_at checked_at earlier spent) refl
        | inr good ↦ rw (good) refl
      ]

  -- Nobody can tell whether the tokens were purged before: the answer to a reset, and the users that it
  -- leaves, are the same.
  pub reset-purge_tokens :
      (desk : Desk) (token new_password : String) (purged_at checked_at ended_at used_at : ℕ)
      → IsKeyed hash_key desk.tokens
      → purged_at ≤ checked_at
      → seen (
          reset hash_token generate_password_hash
            (record desk { tokens = (purge_tokens desk.tokens purged_at).1 })
            token
            new_password
            checked_at
            ended_at
            used_at)
        ≡ seen (
            reset hash_token generate_password_hash desk token new_password checked_at ended_at
              used_at)
  unfolding reset purge_tokens
  reset-purge_tokens desk token new_password purged_at checked_at ended_at used_at keyed earlier =
      let found = find hash_key (hash_token token) desk.tokens in
      reset_row-tokens desk (purge_tokens desk.tokens purged_at).1 new_password checked_at ended_at
        used_at _
      ∙ ap
          (λ o. seen (
            reset_row hash_token generate_password_hash desk new_password checked_at ended_at
              used_at o))
          (find-delete_where hash_key (λ r. is_spent r purged_at) (hash_token token) desk.tokens
            keyed)
      ∙ ap seen
          (reset_row-spent desk new_password purged_at checked_at ended_at used_at found earlier)
