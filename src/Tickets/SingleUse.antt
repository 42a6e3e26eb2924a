-- ===== src/Tickets/SingleUse.antt =====
-- A ticket is exchanged once, also by requests that run at the same time.
use fastapitemplate.Common.Results.{Result, raised, done, Result-cases}
use fastapitemplate.Common.Table.{find, delete_key, find-delete_key, key-find}
use fastapitemplate.Common.{
  ℕ, String, ◌≡◌, refl, sym, ap, ◌∙◌, ◌⊎◌, subst, none, List, [], ◌∷◌, arith, string_eq,
  Option-cases, inl, inr,
}
use fastapitemplate.Tickets.{
  SsoLoginTicket, SsoSessionDto, TicketError, sso_ticket_not_found, ticket_key, redeem_read, redeem,
  exchange,
}

redeem_read-missing :
    (ticket : SsoLoginTicket) (rows : List SsoLoginTicket) (now : ℕ)
    → find ticket_key ticket.ticket_hash rows ≡ none
    → redeem_read ticket rows now ≡ raised sso_ticket_not_found
unfolding redeem_read
redeem_read-missing ticket rows now missing = ground arith

-- A redemption needs a row that is still there when it deletes.
redeem-missing :
    (before rows : List SsoLoginTicket) (hash : String) (now : ℕ)
    → find ticket_key hash rows ≡ none
    → redeem before rows hash now ≡ raised sso_ticket_not_found
unfolding redeem
redeem-missing before rows hash now missing = elim (Option-cases (find ticket_key hash before)) [
  | inl unread ↦ ground arith
  | inr (ticket, read) ↦
      let own = key-find ticket_key hash before ticket read in
      ground (
        arith,
        redeem_read-missing ticket rows now
            (subst (λ h. find ticket_key h rows ≡ none) (sym own) missing),
      )
]

redeem_read-gone :
    (ticket redeemed : SsoLoginTicket) (rows rows' : List SsoLoginTicket) (hash : String) (now : ℕ)
    → redeem_read ticket rows now ≡ done (redeemed, rows')
    → ((hash ≡ ticket.ticket_hash) ⊎ (find ticket_key hash rows ≡ none))
    → find ticket_key hash rows' ≡ none
unfolding redeem_read
redeem_read-gone ticket redeemed rows rows' hash now e why =
    let left : delete_key ticket_key ticket.ticket_hash rows ≡ rows' = ground arith in
    ap (find ticket_key hash) (sym left)
    ∙ ground (
      arith,
      find-delete_key ticket_key ticket.ticket_hash hash rows,
      string_eq.beq_iff ticket.ticket_hash hash,
    )

redeem-gone :
    (before rows rows' : List SsoLoginTicket) (redeemed : SsoLoginTicket) (hash other : String)
    (now : ℕ)
    → redeem before rows other now ≡ done (redeemed, rows')
    → ((hash ≡ other) ⊎ (find ticket_key hash rows ≡ none))
    → find ticket_key hash rows' ≡ none
unfolding redeem
redeem-gone before rows rows' redeemed hash other now e why =
    elim (Option-cases (find ticket_key other before)) [
      | inl unread ↦ absurd (ground arith)
      | inr (ticket, read) ↦
          let own = key-find ticket_key other before ticket read in
          let ran : redeem_read ticket rows now ≡ done (redeemed, rows') = ground arith in
          redeem_read-gone ticket redeemed rows rows' hash now ran (ground (arith, own))
    ]

-- An exchange of a ticket: the table that it read, the secret and the time.
pub record Exchange : Type 0 where
  pub before : List SsoLoginTicket
  pub ticket : String
  pub at : ℕ

module _ (hash_secret : String → String) where
  -- The table that an exchange leaves: one that raises is rolled back.
  abbrev pub table_after :
      List SsoLoginTicket
      → Result TicketError (SsoSessionDto × List SsoLoginTicket)
      → List SsoLoginTicket
  table_after rows (raised e) = rows
  table_after rows (done (session, rows')) = rows'

  -- The exchanges of several requests, in the order in which their `DELETE` statements run.
  unfoldable pub exchange_all : List SsoLoginTicket → List Exchange → List SsoLoginTicket
  exchange_all rows [] = rows
  exchange_all rows (x ∷ rest) =
      exchange_all (table_after rows (exchange hash_secret x.before rows x.ticket x.at)) rest

  exchange-gone :
      (before rows rows' : List SsoLoginTicket) (session : SsoSessionDto) (ticket hash : String)
      (now : ℕ)
      → exchange hash_secret before rows ticket now ≡ done (session, rows')
      → ((hash ≡ hash_secret ticket) ⊎ (find ticket_key hash rows ≡ none))
      → find ticket_key hash rows' ≡ none
  unfolding exchange
  exchange-gone before rows rows' session ticket hash now e why =
      elim (Result-cases (redeem before rows (hash_secret ticket) now)) [
        | inl (_, refused) ↦ absurd (ground arith)
        | inr ((redeemed, left), ran) ↦
            let same : left ≡ rows' = ground arith in
            ap (find ticket_key hash) (sym same)
            ∙ redeem-gone before rows left redeemed hash (hash_secret ticket) now ran why
      ]

  exchange_all-missing :
      (rows : List SsoLoginTicket) (between : List Exchange) (hash : String)
      → find ticket_key hash rows ≡ none
      → find ticket_key hash (exchange_all rows between) ≡ none
  unfolding exchange_all
  exchange_all-missing rows [] hash missing = missing
  exchange_all-missing rows (x ∷ rest) hash missing =
      elim (Result-cases (exchange hash_secret x.before rows x.ticket x.at)) [
        | inl (_, refused) ↦ rw refused (exchange_all-missing rows rest hash missing)
        | inr ((session, rows'), ran) ↦ rw ran (
            exchange_all-missing rows' rest hash
              (exchange-gone x.before rows rows' session x.ticket hash x.at ran (inr missing)))
      ]

  exchange-missing :
      (before rows : List SsoLoginTicket) (ticket : String) (now : ℕ)
      → find ticket_key (hash_secret ticket) rows ≡ none
      → exchange hash_secret before rows ticket now ≡ raised sso_ticket_not_found
  unfolding exchange
  exchange-missing before rows ticket now missing =
      rw (redeem-missing before rows (hash_secret ticket) now missing)

  -- A ticket is exchanged once: after an exchange that succeeds and any further ones, an exchange of
  -- the same ticket is refused, also if it read the row before the first one deleted it.
  pub exchanged_once :
      (before rows rows' stale : List SsoLoginTicket) (session : SsoSessionDto) (ticket : String)
      (now later : ℕ) (between : List Exchange)
      → exchange hash_secret before rows ticket now ≡ done (session, rows')
      → exchange hash_secret stale (exchange_all rows' between) ticket later
        ≡ raised sso_ticket_not_found
  exchanged_once before rows rows' stale session ticket now later between ok =
      exchange-missing stale (exchange_all rows' between) ticket later (
        exchange_all-missing rows' between (hash_secret ticket)
          (exchange-gone before rows rows' session ticket (hash_secret ticket) now ok (inl refl)))
