-- ===== src/Reconciliation.antt =====
-- The periodic reconciliation of linked users with the identity provider's roster, in
-- bounded_contexts/identity_federation: domain/value_objects/roster.py, domain/entities/
-- federated_identity.py, infrastructure/sql_federated_identity_repository.py, application/use_cases/
-- reconcile_federated_users.py, and the revocation that it records (session_revocation.py). The
-- answer of the roster is an argument, and so is each reading of the clock.
pub mod Links
mod Tests
use fastapitemplate.Common.Clock.{seconds}
use fastapitemplate.Common.Lists.{keep, all, length}
use fastapitemplate.Common.Table.{find, insert_row, update_where, delete_key}
use fastapitemplate.Common.Text.{is_empty}
use fastapitemplate.Common.Value.{Value, Fields, text, get}
use fastapitemplate.Common.{
  ℕ, ◌+◌, String, Bool, true, false, not, ◌&&◌, Option, none, some, List, [], ◌∷◌, ltb, is_some,
  nat_eq, string_eq, pair_eq, ◌==◌, if◌then◌else◌,
}
use fastapitemplate.RefreshSessions.{RefreshSession}
use fastapitemplate.Revocations.{SessionRevocation, record_revocation}

pub data RosterState : Type 0 where
  allowed blocked unknown unrecognised : RosterState

-- `RosterState.of`
unfoldable pub state_named : String → RosterState
state_named value =
    if value == "allowed"
    then allowed
    else if value == "blocked"
    then blocked
    else if value == "unknown"
    then unknown
    else unrecognised

unfoldable pub ends_sessions : RosterState → Bool
ends_sessions blocked = true
ends_sessions unknown = true
ends_sessions _ = false

unfoldable pub drops_the_link : RosterState → Bool
drops_the_link unknown = true
drops_the_link _ = false

pub record RosterEntry : Type 0 where
  pub subject : String
  pub state : RosterState

-- `state if isinstance(state, str) else ""`
abbrev pub state_text : Value → String
state_text (text s) = s
state_text _ = ""

-- `RosterEntry.of`, once its two values are read.
abbrev pub entry_from : (subject state : Value) → Option RosterEntry
entry_from (text subject) state =
    if is_empty subject
    then none
    else some (record { subject = subject; state = state_named (state_text state) })
entry_from _ state = none

unfoldable pub entry_of : Fields → Option RosterEntry
unfolding get state_named
entry_of payload = entry_from (get payload "sub") (get payload "state")

-- `Roster.state_of`, over its entries
unfoldable pub state_of : List RosterEntry → String → RosterState
state_of [] subject = unrecognised
state_of (e ∷ entries) subject = if e.subject == subject then e.state else state_of entries subject

-- `FederatedIdentity`, and a row of the table of links.
pub record FederatedIdentity : Type 0 where
  pub issuer : String
  pub subject : String
  pub user_id : ℕ
  pub linked_at : Option ℕ
  pub last_login_at : Option ℕ

abbrev pub link_key : FederatedIdentity → String × String
link_key i = (i.issuer, i.subject)

-- `SqlFederatedIdentityRepository.find`
unfoldable pub find_identity :
    List FederatedIdentity → (issuer subject : String) → Option FederatedIdentity
unfolding find
find_identity rows issuer subject = find link_key (issuer, subject) rows

-- `is_linked`
unfoldable pub is_linked : List FederatedIdentity → ℕ → Bool
is_linked [] user_id = false
is_linked (i ∷ rows) user_id = if i.user_id == user_id then true else is_linked rows user_id

-- `unlink`
unfoldable pub unlink : List FederatedIdentity → FederatedIdentity → List FederatedIdentity
unfolding delete_key
unlink rows identity = delete_key link_key (link_key identity) rows

-- `link`: `none` is an `IntegrityError`. `created_at` and `now` are two readings of the clock.
unfoldable pub link :
    List FederatedIdentity
    → FederatedIdentity
    → (created_at now : ℕ) → Option (List FederatedIdentity)
unfolding insert_row
link rows identity created_at now =
    insert_row link_key (record identity { linked_at = some created_at; last_login_at = some now })
      rows

-- `touch`
unfoldable pub touch :
    List FederatedIdentity → FederatedIdentity → (now : ℕ) → List FederatedIdentity
unfolding update_where
touch rows identity now =
    update_where (λ i. link_key i == link_key identity) (λ i. record i { last_login_at = some now })
      rows

pub record ReconciliationOutcome : Type 0 where
  pub checked : ℕ
  pub revoked : ℕ
  pub unlinked : ℕ
  pub held_back : Bool

-- `last_login_at or linked_at`
abbrev pub generation : FederatedIdentity → Option ℕ
generation i = elim i.last_login_at [ none ↦ i.linked_at | some t ↦ some t ]

-- `state is RosterState.UNKNOWN`
abbrev pub is_unknown : RosterState → Bool
is_unknown unknown = true
is_unknown _ = false

-- `_everyone_is_unknown`
unfoldable pub everyone_is_unknown : List FederatedIdentity → List RosterEntry → Bool
unfolding state_of
everyone_is_unknown links answers =
    if ltb (length links) 2 then false else all (λ i. is_unknown (state_of answers i.subject)) links

-- The tables that a reconciliation writes, and the logins of this application.
pub record Tables : Type 0 where
  pub identities : List FederatedIdentity
  pub revocations : List SessionRevocation
  pub logins : List RefreshSession

-- `precedes a b` is the order of the database on texts, in which the links are listed.
module _ (precedes : String → String → Bool) where
  -- `ORDER BY subject`
  unfoldable pub insert_link : FederatedIdentity → List FederatedIdentity → List FederatedIdentity
  insert_link i [] = i ∷ []
  insert_link i (j ∷ rest) =
      if precedes j.subject i.subject then j ∷ insert_link i rest else i ∷ j ∷ rest

  unfoldable pub in_order : List FederatedIdentity → List FederatedIdentity
  unfolding insert_link
  in_order [] = []
  in_order (i ∷ rest) = insert_link i (in_order rest)

  -- `list_for_issuer`
  unfoldable pub list_for_issuer : List FederatedIdentity → String → List FederatedIdentity
  unfolding in_order
  list_for_issuer rows issuer = in_order (keep (λ i. i.issuer == issuer) rows)

-- `digest` is the hash that names a revocation by its link and the time of its last login.
module _ (digest : (issuer subject : String) → Option ℕ → String) where
  -- `SessionRevocation.after_reconciliation`
  unfoldable pub after_reconciliation :
      FederatedIdentity → (now keep_for_seconds : ℕ) → SessionRevocation
  after_reconciliation i now keep_for_seconds = record {
    jti = digest i.issuer i.subject (generation i);
    session = record { issuer = i.issuer; subject = i.subject; session_id = none };
    revoked_at = now;
    expires_at = now + seconds keep_for_seconds;
  }

  -- `_apply`; `at` is the reading of the clock in `record`.
  unfoldable pub apply_state :
      FederatedIdentity
      → RosterState
      → (now keep_for_seconds at : ℕ) → ReconciliationOutcome × Tables
      → ReconciliationOutcome × Tables
  unfolding ends_sessions drops_the_link after_reconciliation record_revocation unlink
  apply_state i state now keep_for_seconds at (outcome, t) =
      if not (ends_sessions state)
      then (outcome, t)
      else let (new, rows) =
          record_revocation t.logins t.revocations (after_reconciliation i now keep_for_seconds)
            at in
        let counted = if new then record outcome { revoked = outcome.revoked + 1 } else outcome in
        if not (drops_the_link state) then (counted, record t { revocations = rows }) else (
          record counted { unlinked = counted.unlinked + 1 },
          record t { revocations = rows; identities = unlink t.identities i },
        )

  -- The loop of `execute`; `at` gives the reading of the clock for each link.
  unfoldable pub apply_all :
      List FederatedIdentity
      → List RosterEntry
      → (now keep_for_seconds : ℕ) → (at : FederatedIdentity → ℕ) → ReconciliationOutcome × Tables
      → ReconciliationOutcome × Tables
  unfolding apply_state state_of
  apply_all [] answers now keep_for_seconds at done = done
  apply_all (i ∷ links) answers now keep_for_seconds at done =
      apply_all links answers now keep_for_seconds at
        (apply_state i (state_of answers i.subject) now keep_for_seconds (at i) done)

-- `ReconcileFederatedUsers.execute`; `roster` is the answer for the subjects of the links.
module _ (precedes : String → String → Bool)
    (digest : (issuer subject : String) → Option ℕ → String) where
  -- Its decision, for the links that it lists.
  unfoldable pub reconcile_links :
      List FederatedIdentity
      → List RosterEntry
      → (now keep_for_seconds : ℕ) → (at : FederatedIdentity → ℕ) → Tables
      → ReconciliationOutcome × Tables
  unfolding everyone_is_unknown apply_all
  reconcile_links [] roster now keep_for_seconds at t =
      (record { checked = 0; revoked = 0; unlinked = 0; held_back = false }, t)
  reconcile_links (i ∷ links) roster now keep_for_seconds at t =
      let outcome : ReconciliationOutcome = record {
        checked = length (i ∷ links);
        revoked = 0;
        unlinked = 0;
        held_back = false;
      } in
      if everyone_is_unknown (i ∷ links) roster
      then (record outcome { held_back = true }, t)
      else apply_all digest (i ∷ links) roster now keep_for_seconds at (outcome, t)

  unfoldable pub reconcile :
      (issuer : String)
      → List RosterEntry
      → (now keep_for_seconds : ℕ) → (at : FederatedIdentity → ℕ) → Tables
      → ReconciliationOutcome × Tables
  unfolding list_for_issuer reconcile_links
  reconcile issuer roster now keep_for_seconds at t =
      reconcile_links (list_for_issuer precedes t.identities issuer) roster now keep_for_seconds at
        t
