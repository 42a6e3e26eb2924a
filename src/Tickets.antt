-- ===== src/Tickets.antt =====
-- The tickets by which a sign-in at the identity provider comes back, in
-- bounded_contexts/identity_federation: domain/entities/sso_login_ticket.py,
-- infrastructure/sql_sso_login_ticket_repository.py and application/use_cases/exchange_sso_ticket.py.
-- The table is the list of its rows; the hash of a secret is a parameter.
pub mod SingleUse
mod Tests
use fastapitemplate.Common.Results.{Result, raised, done, and_then}
use fastapitemplate.Common.Table.{find, insert_row, delete_where, delete_key}
use fastapitemplate.Common.{
  ℕ, String, Bool, Option, none, some, List, ltb, leb, string_eq, if◌then◌else◌,
}
use fastapitemplate.Federation.{FederatedLogin}

-- A ticket, and a row of the table, which spreads the login over its columns.
pub record SsoLoginTicket : Type 0 where
  pub ticket_hash : String
  pub user_id : ℕ
  pub redirect_to : String
  pub expires_at : ℕ
  pub login : FederatedLogin

abbrev pub ticket_key : SsoLoginTicket → String
ticket_key t = t.ticket_hash

unfoldable pub is_expired : SsoLoginTicket → ℕ → Bool
is_expired t now = leb t.expires_at now

-- `SsoTicketNotFoundError`, and the database's error of a key that is taken.
pub data TicketError : Type 0 where
  sso_ticket_not_found integrity_error : TicketError

-- `SqlSsoLoginTicketRepository.issue`
unfoldable pub issue_ticket :
    List SsoLoginTicket → SsoLoginTicket → ℕ → Result TicketError (List SsoLoginTicket)
unfolding delete_where insert_row
issue_ticket rows ticket now =
    elim (insert_row ticket_key ticket (delete_where (λ t. ltb t.expires_at now) rows)) [
      | none ↦ raised integrity_error
      | some rows' ↦ done rows'
    ]

-- The answer of the `DELETE` by `redeem`, whose reading of the row came before: another request may
-- have deleted the row in between, and then no row is left to delete.
unfoldable pub redeem_read :
    SsoLoginTicket
    → List SsoLoginTicket
    → ℕ
    → Result TicketError (SsoLoginTicket × List SsoLoginTicket)
unfolding find delete_key is_expired
redeem_read ticket rows now = elim (find ticket_key ticket.ticket_hash rows) [
  | none ↦ raised sso_ticket_not_found
  | some _ ↦
      if is_expired ticket now
      then raised sso_ticket_not_found
      else done (ticket, delete_key ticket_key ticket.ticket_hash rows)
]

-- `SqlSsoLoginTicketRepository.redeem`: `before` is the table when the row is read, and `rows` when
-- the `DELETE` runs, after the requests that held its lock have been committed.
unfoldable pub redeem :
    (before rows : List SsoLoginTicket)
    → (ticket_hash : String) → ℕ
    → Result TicketError (SsoLoginTicket × List SsoLoginTicket)
unfolding find redeem_read
redeem before rows ticket_hash now = elim (find ticket_key ticket_hash before) [
  | none ↦ raised sso_ticket_not_found
  | some ticket ↦ redeem_read ticket rows now
]

pub record SsoSessionDto : Type 0 where
  pub user_id : ℕ
  pub redirect_to : String
  pub login : FederatedLogin

abbrev pub session_of : SsoLoginTicket → SsoSessionDto
session_of t = record { user_id = t.user_id; redirect_to = t.redirect_to; login = t.login }

module _ (hash_secret : String → String) where
  -- `ExchangeSsoTicket.execute`
  unfoldable pub exchange :
      (before rows : List SsoLoginTicket)
      → (ticket : String) → ℕ
      → Result TicketError (SsoSessionDto × List SsoLoginTicket)
  unfolding redeem
  exchange before rows ticket now =
      and_then (redeem before rows (hash_secret ticket) now)
        (λ redeemed. done (session_of redeemed.0, redeemed.1))
