-- ===== src/PasswordReset.antt =====
-- presentation/fastapi/services/password_reset_service.py and password_token_purge.py: the tokens that
-- let a person choose a new password, of which the table keeps the hash. The hashes are computed by
-- libraries, the token is drawn at random, and a mail is handed to a sender that may be switched off: the
-- functions and the values are arguments. Of a mail its receiver, subject and token are kept.
pub mod SingleUse
pub mod Purging
pub mod Ending
mod Tests
use fastapitemplate.Common.Clock.{seconds}
use fastapitemplate.Common.Results.{Result, raised, done}
use fastapitemplate.Common.Table.{find, insert_row, update_where, delete_where, count_where}
use fastapitemplate.Common.{
  ℕ, ◌+◌, ◌*◌, String, Bool, true, false, not, ◌&&◌, ◌||◌, Option, none, some, List, [], ◌∷◌, ◌++◌,
  is_some, ltb, nat_eq, string_eq, ◌==◌, if◌then◌else◌,
}
use fastapitemplate.Users.{User, Tenant, user_key, has_local_password, end_sessions}
use fastapitemplate.Users.Directory.{account_signing_in}

-- The column `purpose`; `reset` is a request of the person, `invitation` one of an administrator.
pub data Purpose : Type 0 where
  by_person : Purpose
  invitation : Purpose

pub record PasswordResetToken : Type 0 where
  pub user_id : ℕ
  pub token_hash : String
  pub purpose : Purpose
  pub expires_at : ℕ
  pub used_at : Option ℕ

abbrev pub hash_key : PasswordResetToken → String
hash_key t = t.token_hash

pub record Mail : Type 0 where
  pub to : String
  pub subject : String
  pub token : String

-- The tables, and the mails that were sent.
pub record Desk : Type 0 where
  pub users : List User
  pub tenants : List Tenant
  pub tokens : List PasswordResetToken
  pub mails : List Mail

-- A hash that is taken
pub data TokenError : Type 0 where
  integrity_error : TokenError

-- `INVITATION_TTL`
abbrev pub invitation_ttl : ℕ
invitation_ttl = seconds (7 * 24 * 3600)

-- `SendEmail.execute`, where a sender that is switched off raises `EmailSendingDisabledError`.
abbrev pub send : (enabled : Bool) → List Mail → Mail → List Mail
send enabled mails mail = if enabled then mails ++ mail ∷ [] else mails

-- The answer beside the desk that it leaves.
abbrev pub answered : {A : Type 0} → A → Result TokenError Desk → Result TokenError (A × Desk)
answered answer (raised error) = raised error
answered answer (done after) = done (answer, after)

abbrev pub is_invitation : Purpose → Bool
is_invitation by_person = false
is_invitation invitation = true

-- The refusals of `reset` by the row alone
unfoldable pub is_spent : PasswordResetToken → (now : ℕ) → Bool
is_spent row now = is_some row.used_at || ltb row.expires_at now

-- The refusals of `reset` by the user, for the purpose of the row
unfoldable pub is_refused : User → Purpose → Bool
unfolding has_local_password
is_refused user purpose =
    not user.is_active || (not (has_local_password user) && not (is_invitation purpose))

-- `purge_spent_password_tokens_once`
unfoldable pub purge_tokens : List PasswordResetToken → (now : ℕ) → ℕ × List PasswordResetToken
unfolding is_spent delete_where count_where
purge_tokens rows now =
    (count_where (λ r. is_spent r now) rows, delete_where (λ r. is_spent r now) rows)

-- A user whose password was set, and whose earlier logins were ended.
unfoldable pub with_password : (hash : String) → (now : ℕ) → User → User
unfolding end_sessions
with_password hash now user = end_sessions (record user { password_hash = some hash }) now

-- `hash_token` is `_hash_token`, and `generate_password_hash` the library's.
module _ (hash_token generate_password_hash : String → String) where
  -- `session.add(PasswordResetToken(...))` and the flush, and the mail
  unfoldable pub issue_token :
      Desk
      → User
      → (token : String) → Purpose
      → (expires_at : ℕ) → (mail_enabled : Bool) → (subject : String) → Result TokenError Desk
  unfolding insert_row
  issue_token desk user token purpose expires_at mail_enabled subject =
      let row : PasswordResetToken = record {
        user_id = user.id;
        token_hash = hash_token token;
        purpose = purpose;
        expires_at = expires_at;
        used_at = none;
      } in
      elim (insert_row hash_key row desk.tokens) [
        | none ↦ raised integrity_error
        | some tokens ↦ done (record desk {
          tokens = tokens;
          mails =
              send mail_enabled desk.mails
                (record { to = user.email; subject = subject; token = token });
        })
      ]

  -- The user of `request_reset`, once the account was looked up.
  unfoldable pub may_request : Option User → Option User
  unfolding has_local_password
  may_request none = none
  may_request (some user) =
      if not user.is_active then none else if not (has_local_password user) then none else some user

  -- `request_reset` for the user who may have a token, if there is one.
  unfoldable pub request_reset_for :
      Desk
      → (token : String) → (ttl_seconds : ℕ) → (mail_enabled : Bool) → (now : ℕ) → Option User
      → Result TokenError (Option ℕ × Desk)
  unfolding issue_token
  request_reset_for desk token ttl_seconds mail_enabled now none = done (none, desk)
  request_reset_for desk token ttl_seconds mail_enabled now (some user) = answered (some user.id) (
      issue_token desk user token by_person (now + seconds ttl_seconds) mail_enabled
        "Password reset")

  -- `PasswordResetService.request_reset`, for a token that was drawn.
  unfoldable pub request_reset :
      Desk
      → (email : String) → (tenant : Option String) → (token : String) → (ttl_seconds : ℕ)
      → (mail_enabled : Bool) → (now : ℕ) → Result TokenError (Option ℕ × Desk)
  unfolding may_request request_reset_for account_signing_in
  request_reset desk email tenant token ttl_seconds mail_enabled now =
      request_reset_for desk token ttl_seconds mail_enabled now
        (may_request (account_signing_in desk.users desk.tenants email tenant))

  -- `PasswordResetService.invite`
  unfoldable pub invite :
      Desk
      → User
      → (token : String) → (mail_enabled : Bool) → (now : ℕ) → Result TokenError (Bool × Desk)
  unfolding issue_token
  invite desk user token mail_enabled now =
      answered mail_enabled (
        issue_token desk user token invitation (now + invitation_ttl) mail_enabled
          "You are invited")

  -- The writes of `reset`
  unfoldable pub apply_reset :
      Desk → User → PasswordResetToken → (new_password : String) → (ended_at used_at : ℕ) → Desk
  unfolding with_password update_where
  apply_reset desk user row new_password ended_at used_at = record desk {
    users =
        update_where (λ u. u.id == user.id)
          (with_password (generate_password_hash new_password) ended_at) desk.users;
    tokens =
        update_where (λ r. r.token_hash == row.token_hash)
          (λ r. record r { used_at = some used_at }) desk.tokens;
  }

  -- The checks of `reset` on the user of a row that is not spent.
  unfoldable pub reset_user :
      Desk
      → PasswordResetToken
      → (new_password : String) → (ended_at used_at : ℕ) → Option User
      → Option ℕ × Desk
  unfolding apply_reset is_refused
  reset_user desk row new_password ended_at used_at none = (none, desk)
  reset_user desk row new_password ended_at used_at (some user) =
      if is_refused user row.purpose
      then (none, desk)
      else (some user.id, apply_reset desk user row new_password ended_at used_at)

  -- `reset` for the row that the hash finds.
  unfoldable pub reset_row :
      Desk
      → (new_password : String) → (checked_at ended_at used_at : ℕ) → Option PasswordResetToken
      → Option ℕ × Desk
  unfolding is_spent reset_user find
  reset_row desk new_password checked_at ended_at used_at none = (none, desk)
  reset_row desk new_password checked_at ended_at used_at (some row) =
      if is_spent row checked_at
      then (none, desk)
      else reset_user desk row new_password ended_at used_at (find user_key row.user_id desk.users)

  -- `PasswordResetService.reset`; the three readings of the clock stand in their order.
  unfoldable pub reset :
      Desk → (token new_password : String) → (checked_at ended_at used_at : ℕ) → Option ℕ × Desk
  unfolding find reset_row
  reset desk token new_password checked_at ended_at used_at =
      reset_row desk new_password checked_at ended_at used_at
        (find hash_key (hash_token token) desk.tokens)
