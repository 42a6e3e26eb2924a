-- ===== src/PasswordReset/SingleUse.antt =====
-- A token sets a password once.
use fastapitemplate.Common.Lists.{All, all}
use fastapitemplate.Common.Results.{Result, raised, done, committed, Result-cases}
use fastapitemplate.Common.Table.{find, insert_row, key-find}
use fastapitemplate.Common.Table.Rows.{
  all-delete_where, all-update_where, all-updated, all-insert_row, find-all,
}
use fastapitemplate.Common.Clock.{seconds}
use fastapitemplate.Common.{
  ℕ, ◌+◌, ◌≡◌, ◌≢◌, refl, subst, String, Bool, true, not, ◌||◌, Option, none, some, List, [], ◌∷◌,
  arith, is_some, string_eq, nat_eq, ◌==◌, Option-cases, Bool-cases, inl, inr,
}
use fastapitemplate.PasswordReset.{
  Desk, PasswordResetToken, Purpose, TokenError, hash_key, is_spent, is_refused, purge_tokens,
  issue_token, may_request, request_reset, request_reset_for, invite, answered, by_person,
  invitation, invitation_ttl, apply_reset, reset_user, reset_row, reset,
}
use fastapitemplate.Users.{User, user_key}
use fastapitemplate.Users.Directory.{account_signing_in}

-- The row does not have the hash, or it was used.
abbrev used_or_other : (hash : String) → PasswordResetToken → Bool
used_or_other hash row = not (row.token_hash == hash) || is_some row.used_at

abbrev IsUsed : (hash : String) → Desk → Type 0
IsUsed hash desk = all (used_or_other hash) desk.tokens ≡ true

-- A request to the desk, with what it draws and the times at which it reads the clock.
pub data Request : Type 0 where
  ask :
      (email : String) (tenant : Option String) (token : String) (ttl_seconds : ℕ)
      (mail_enabled : Bool) (now : ℕ)
      → Request
  invite_user : (user : User) (token : String) (mail_enabled : Bool) (now : ℕ) → Request
  choose : (token new_password : String) (checked_at ended_at used_at : ℕ) → Request
  purge : (now : ℕ) → Request

-- The desk that an answer leaves.
abbrev pub desk_of : {A : Type 0} → Result TokenError (A × Desk) → Result TokenError Desk
desk_of (raised e) = raised e
desk_of (done (_, desk)) = done desk

module _ (hash_token generate_password_hash : String → String) where
  -- A request that raises is rolled back.
  unfoldable pub handle : Desk → Request → Desk
  handle desk (ask email tenant token ttl_seconds mail_enabled now) = committed desk (
      desk_of (
        request_reset hash_token generate_password_hash desk email tenant token ttl_seconds
          mail_enabled now))
  handle desk (invite_user user token mail_enabled now) =
      committed desk
        (desk_of (invite hash_token generate_password_hash desk user token mail_enabled now))
  handle desk (choose token new_password checked_at ended_at used_at) =
      (reset hash_token generate_password_hash desk token new_password checked_at ended_at
        used_at).1
  handle desk (purge now) = record desk { tokens = (purge_tokens desk.tokens now).1 }

  unfoldable pub serve : Desk → List Request → Desk
  serve desk [] = desk
  serve desk (r ∷ rest) = serve (handle desk r) rest

  -- New tokens are drawn at random: none has the hash again.
  abbrev pub IsOtherToken : (hash : String) → Request → Type 0
  IsOtherToken hash (ask email tenant token ttl_seconds mail_enabled now) = hash_token token ≢ hash
  IsOtherToken hash (invite_user user token mail_enabled now) = hash_token token ≢ hash
  IsOtherToken hash _ = Unit {0}

  used-refused :
      (desk : Desk) (token new_password : String) (checked_at ended_at used_at : ℕ)
      → IsUsed (hash_token token) desk
      → (reset hash_token generate_password_hash desk token new_password checked_at ended_at
          used_at).0
        ≡ none
  unfolding reset reset_row is_spent
  used-refused desk token new_password checked_at ended_at used_at used =
      elim (Option-cases (find hash_key (hash_token token) desk.tokens)) [
        | inl missing ↦ rw (missing, reset, reset_row) refl
        | inr (row, found) ↦ ground (
          arith,
          find-all (used_or_other (hash_token token)) hash_key (hash_token token) desk.tokens row
              found used,
          key-find hash_key (hash_token token) desk.tokens row found,
          string_eq.beq_iff row.token_hash (hash_token token),
        )
      ]

  -- A use marks all rows of its hash.
  applied-IsUsed :
      (desk : Desk) (user : User) (row : PasswordResetToken) (new_password : String)
      (ended_at used_at : ℕ)
      → IsUsed row.token_hash (
          apply_reset hash_token generate_password_hash desk user row new_password ended_at used_at)
  unfolding apply_reset
  applied-IsUsed desk user row new_password ended_at used_at =
      all-updated (used_or_other row.token_hash) (λ r. r.token_hash == row.token_hash)
        (λ r. record r { used_at = some used_at }) desk.tokens (λ r h. ground arith)
        (λ r h. ground arith)

  applied-stays :
      (hash : String) (desk : Desk) (user : User) (row : PasswordResetToken) (new_password : String)
      (ended_at used_at : ℕ)
      → IsUsed hash desk
      → IsUsed hash (
          apply_reset hash_token generate_password_hash desk user row new_password ended_at used_at)
  unfolding apply_reset
  applied-stays hash desk user row new_password ended_at used_at used =
      all-update_where (used_or_other hash) (λ r. r.token_hash == row.token_hash)
        (λ r. record r { used_at = some used_at }) desk.tokens (λ r h. ground arith) used

  reset_user-stays :
      (hash : String) (desk : Desk) (row : PasswordResetToken) (new_password : String)
      (ended_at used_at : ℕ) (found : Option User)
      → IsUsed hash desk
      → IsUsed hash
          (reset_user hash_token generate_password_hash desk row new_password ended_at used_at
            found).1
  unfolding reset_user
  reset_user-stays hash desk row new_password ended_at used_at none used = used
  reset_user-stays hash desk row new_password ended_at used_at (some user) used =
      elim (Bool-cases (is_refused user row.purpose)) [
        | inl refused ↦ rw (refused, reset_user) used
        | inr free ↦
            rw (free, reset_user)
              (applied-stays hash desk user row new_password ended_at used_at used)
      ]

  reset_row-stays :
      (hash : String) (desk : Desk) (new_password : String) (checked_at ended_at used_at : ℕ)
      (found : Option PasswordResetToken)
      → IsUsed hash desk
      → IsUsed hash
          (reset_row hash_token generate_password_hash desk new_password checked_at ended_at used_at
            found).1
  unfolding reset_row
  reset_row-stays hash desk new_password checked_at ended_at used_at none used = used
  reset_row-stays hash desk new_password checked_at ended_at used_at (some row) used =
      elim (Bool-cases (is_spent row checked_at)) [
        | inl spent ↦ rw (spent, reset_row) used
        | inr good ↦
            rw (good, reset_row)
              (reset_user-stays hash desk row new_password ended_at used_at
                (find user_key row.user_id desk.users) used)
      ]

  issue_token-stays :
      (hash : String) (desk : Desk) (user : User) (token : String) (purpose : Purpose)
      (expires_at : ℕ) (mail_enabled : Bool) (subject : String) (after : Desk)
      → hash_token token ≢ hash
      → issue_token hash_token generate_password_hash desk user token purpose expires_at
          mail_enabled subject
        ≡ done after
      → IsUsed hash desk
      → IsUsed hash after
  unfolding issue_token
  issue_token-stays hash desk user token purpose expires_at mail_enabled subject after other e
        used =
      let row : PasswordResetToken = record {
        user_id = user.id;
        token_hash = hash_token token;
        purpose = purpose;
        expires_at = expires_at;
        used_at = none;
      } in
      elim (Option-cases (insert_row hash_key row desk.tokens)) [
        | inl taken ↦ absurd (ground arith)
        | inr (tokens, put) ↦
            let same : tokens ≡ after.tokens = ground arith in
            subst (λ rows. all (used_or_other hash) rows ≡ true) same
              (all-insert_row (used_or_other hash) hash_key row desk.tokens tokens put
                (ground (arith, string_eq.beq_iff (hash_token token) hash)) used)
      ]

  issued-stays :
      {A : Type 0} (hash : String) (desk : Desk) (user : User) (token : String) (purpose : Purpose)
      (expires_at : ℕ) (mail_enabled : Bool) (subject : String) (answer : A)
      → hash_token token ≢ hash
      → IsUsed hash desk
      → IsUsed hash (
          committed desk (
            desk_of (
              answered answer (
                issue_token hash_token generate_password_hash desk user token purpose expires_at
                  mail_enabled subject))))
  issued-stays hash desk user token purpose expires_at mail_enabled subject answer other used =
      elim (Result-cases (
        issue_token hash_token generate_password_hash desk user token purpose expires_at
          mail_enabled subject)) [
            | inl (error, refused) ↦ rw refused used
            | inr (after, issued) ↦ rw issued (
                issue_token-stays hash desk user token purpose expires_at mail_enabled subject after
                  other issued used)
          ]

  -- An answer that leaves the desk it found, or issues a token.
  request_reset-stays :
      (hash : String) (desk : Desk) (found : Option User) (token : String) (ttl_seconds : ℕ)
      (mail_enabled : Bool) (now : ℕ)
      → hash_token token ≢ hash
      → IsUsed hash desk
      → IsUsed hash (
          committed desk (
            desk_of (
              request_reset_for hash_token generate_password_hash desk token ttl_seconds
                mail_enabled now found)))
  unfolding request_reset_for
  request_reset-stays hash desk none token ttl_seconds mail_enabled now other used = used
  request_reset-stays hash desk (some user) token ttl_seconds mail_enabled now other used =
      issued-stays hash desk user token by_person (now + seconds ttl_seconds) mail_enabled
        "Password reset" (some user.id) other used

  handle-stays :
      (hash : String) (desk : Desk) (request : Request)
      → IsOtherToken hash request
      → IsUsed hash desk
      → IsUsed hash (handle desk request)
  unfolding handle request_reset invite reset purge_tokens
  handle-stays hash desk (ask email tenant token ttl_seconds mail_enabled now) other used =
      request_reset-stays hash desk
        (may_request hash_token generate_password_hash
          (account_signing_in desk.users desk.tenants email tenant))
        token ttl_seconds mail_enabled now other used
  handle-stays hash desk (invite_user user token mail_enabled now) other used =
      issued-stays hash desk user token invitation (now + invitation_ttl) mail_enabled
        "You are invited" mail_enabled other used
  handle-stays hash desk (choose token new_password checked_at ended_at used_at) other used =
      reset_row-stays hash desk new_password checked_at ended_at used_at
        (find hash_key (hash_token token) desk.tokens) used
  handle-stays hash desk (purge now) other used =
      all-delete_where (used_or_other hash) (λ r. is_spent r now) desk.tokens used

  serve-stays :
      (hash : String) (desk : Desk) (requests : List Request)
      → All (IsOtherToken hash) requests
      → IsUsed hash desk
      → IsUsed hash (serve desk requests)
  unfolding serve
  serve-stays hash desk [] others used = used
  serve-stays hash desk (r ∷ rest) (other, others) used =
      serve-stays hash (handle desk r) rest others (handle-stays hash desk r other used)

  reset_user-IsUsed :
      (desk : Desk) (row : PasswordResetToken) (new_password : String) (ended_at used_at id : ℕ)
      (found : Option User)
      → (reset_user hash_token generate_password_hash desk row new_password ended_at used_at
          found).0
        ≡ some id
      → IsUsed row.token_hash
          (reset_user hash_token generate_password_hash desk row new_password ended_at used_at
            found).1
  unfolding reset_user
  reset_user-IsUsed desk row new_password ended_at used_at id none e = absurd (cc)
  reset_user-IsUsed desk row new_password ended_at used_at id (some user) e =
      elim (Bool-cases (is_refused user row.purpose)) [
        | inl refused ↦ absurd (ground arith)
        | inr free ↦
            rw (free, reset_user) (applied-IsUsed desk user row new_password ended_at used_at)
      ]

  reset-IsUsed :
      (desk : Desk) (token new_password : String) (checked_at ended_at used_at id : ℕ)
      → (reset hash_token generate_password_hash desk token new_password checked_at ended_at
          used_at).0
        ≡ some id
      → IsUsed
          (hash_token token)
          (reset hash_token generate_password_hash desk token new_password checked_at ended_at
            used_at).1
  unfolding reset reset_row
  reset-IsUsed desk token new_password checked_at ended_at used_at id e =
      elim (Option-cases (find hash_key (hash_token token) desk.tokens)) [
        | inl missing ↦ absurd (ground arith)
        | inr (row, found) ↦ elim (Bool-cases (is_spent row checked_at)) [
          | inl spent ↦ absurd (ground arith)
          | inr good ↦
              rw (found, good, reset, reset_row)
                (subst
                  (λ h.
                    IsUsed h
                      (reset_user hash_token generate_password_hash desk row new_password ended_at
                        used_at (find user_key row.user_id desk.users)).1)
                  (key-find hash_key (hash_token token) desk.tokens row found)
                  (reset_user-IsUsed desk row new_password ended_at used_at id
                    (find user_key row.user_id desk.users) (ground arith)))
        ]
      ]

  -- A token sets a password once: after a reset that succeeds, and any further requests to the desk (new
  -- tokens that are drawn, invitations, resets by any token, purges), a reset with the same token is
  -- refused, at any time and for any password.
  pub reset_once :
      (desk : Desk) (token new_password again : String)
      (checked_at ended_at used_at id later later_ended later_used : ℕ) (requests : List Request)
      → (reset hash_token generate_password_hash desk token new_password checked_at ended_at
          used_at).0
        ≡ some id
      → All (IsOtherToken (hash_token token)) requests
      → (reset hash_token generate_password_hash
          (serve
            (reset hash_token generate_password_hash desk token new_password checked_at ended_at
              used_at).1
            requests)
          token
          again
          later
          later_ended
          later_used).0
        ≡ none
  reset_once desk token new_password again checked_at ended_at used_at id later later_ended
        later_used requests e others =
      used-refused _ token again later later_ended later_used (
        serve-stays (hash_token token) _ requests others
          (reset-IsUsed desk token new_password checked_at ended_at used_at id e))
