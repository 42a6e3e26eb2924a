-- ===== src/Reconciliation/Tests.antt =====
-- A reconciliation at concrete inputs; the order of the texts that stands for the database's lists the
-- links as they come, and the digest is the subject.
use fastapitemplate.Common.Table.{find}
use fastapitemplate.Common.Value.{empty, field, text}
use fastapitemplate.Common.{
  ℕ, String, ◌≡◌, refl, Bool, false, Option, none, some, List, [], ◌∷◌, string_eq, pair_eq, ◌&&◌,
  if◌then◌else◌,
}
use fastapitemplate.Reconciliation.{
  RosterEntry, unknown, unrecognised, FederatedIdentity, Tables, link_key, reconcile,
  everyone_is_unknown, list_for_issuer, state_of, entry_of,
}
use fastapitemplate.Reconciliation.Links.{is_gone, reconcile-find}

abbrev precedes : String → String → Bool
precedes a b = false

abbrev digest : (issuer subject : String) → Option ℕ → String
digest issuer subject time = subject

abbrev at : FederatedIdentity → ℕ
at i = 20

abbrev ann : FederatedIdentity
ann = record {
  issuer = "idp";
  subject = "ann";
  user_id = 1;
  linked_at = some 1;
  last_login_at = none;
}

abbrev bob : FederatedIdentity
bob = record ann { subject = "bob"; user_id = 2 }

abbrev tables : Tables
tables = record { identities = ann ∷ bob ∷ []; revocations = []; logins = [] }

abbrev roster : List RosterEntry
roster = record { subject = "bob"; state = unknown } ∷ []

abbrev gone : List RosterEntry
gone = record { subject = "ann"; state = unknown } ∷ roster

new_state :
    entry_of (field "sub" (text "ann") (field "state" (text "paused") empty))
    ≡ some (record { subject = "ann"; state = unrecognised })
unfolding entry_of
new_state = refl

bob_unlinked : (reconcile precedes digest "idp" roster 20 60 at tables).1.identities ≡ ann ∷ []
unfolding reconcile
bob_unlinked = refl

ann_known : everyone_is_unknown (list_for_issuer precedes tables.identities "idp") roster ≡ false
unfolding everyone_is_unknown list_for_issuer
ann_known = refl

reconcile-find_example :
    find link_key
      ("idp", "ann")
      (reconcile precedes digest "idp" roster 20 60 at tables).1.identities
    ≡ (if string_eq.beq "idp" "idp" && is_gone (state_of roster "ann")
        then none
        else find link_key ("idp", "ann") tables.identities)
reconcile-find_example =
    reconcile-find precedes digest "idp" roster 20 60 at tables "idp" "ann" ann_known
