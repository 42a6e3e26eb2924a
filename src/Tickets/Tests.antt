-- ===== src/Tickets/Tests.antt =====
-- Tickets at concrete inputs; the hash that stands for the library's is the identity.
use fastapitemplate.Common.Results.{raised, done}
use fastapitemplate.Common.{String, ◌≡◌, refl, none, List, [], ◌∷◌, string_eq}
use fastapitemplate.Tickets.{SsoLoginTicket, exchange, session_of, sso_ticket_not_found}
use fastapitemplate.Tickets.SingleUse.{Exchange, exchange_all, exchanged_once}

abbrev same : String → String
same s = s

abbrev ticket : SsoLoginTicket
ticket = record {
  ticket_hash = "t1";
  user_id = 7;
  redirect_to = "/";
  expires_at = 100;
  login = record {
    session = record { issuer = "idp"; subject = "ann"; session_id = none };
    started_at = 5;
  };
}

exchanged : exchange same (ticket ∷ []) (ticket ∷ []) "t1" 50 ≡ done (session_of ticket, [])
unfolding exchange
exchanged = refl

abbrev between : List Exchange
between = record { before = ticket ∷ []; ticket = "t1"; at = 51 } ∷ []

exchanged_once_example :
    exchange same (ticket ∷ []) (exchange_all same [] between) "t1" 52 ≡ raised sso_ticket_not_found
exchanged_once_example =
    exchanged_once same (ticket ∷ []) (ticket ∷ []) [] (ticket ∷ []) (session_of ticket) "t1" 50 52
      between exchanged
