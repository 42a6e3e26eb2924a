-- ===== src/Reconciliation/Links.antt =====
-- Which links a reconciliation drops.
use fastapitemplate.Common.Lists.{keep, all, All, length}
use fastapitemplate.Common.Table.{find, find-delete_key}
use fastapitemplate.Common.{
  ℕ, ◌≤◌, ltb, String, ◌≡◌, refl, ap, ◌∙◌, Bool, true, false, ◌&&◌, ◌||◌, Option, none, List, [],
  ◌∷◌, arith, string_eq, pair_eq, ◌==◌, if◌then◌else◌, Bool-cases, inl, inr,
}
use fastapitemplate.Reconciliation.{
  RosterState, allowed, blocked, unknown, unrecognised, RosterEntry, FederatedIdentity, Tables,
  ReconciliationOutcome, link_key, unlink, drops_the_link, state_of, is_unknown,
  everyone_is_unknown, insert_link, in_order, list_for_issuer, apply_state, apply_all,
  reconcile_links, reconcile,
}

abbrev pub any : (FederatedIdentity → Bool) → List FederatedIdentity → Bool
any p [] = false
any p (i ∷ rest) = p i || any p rest

-- The link has this key, and the roster says that its user is gone.
abbrev pub is_dropped : List RosterEntry → String × String → FederatedIdentity → Bool
is_dropped roster k i = link_key i == k && drops_the_link (state_of roster i.subject)

same_key : (a b : String × String) → (a == b ≡ true) → a ≡ b
same_key a b h = (pair_eq.beq_iff a b).0 h

module _ (digest : (issuer subject : String) → Option ℕ → String) where
  apply_state-identities :
      (i : FederatedIdentity) (state : RosterState) (now k at : ℕ) (outcome : ReconciliationOutcome)
      (t : Tables)
      → (apply_state digest i state now k at (outcome, t)).1.identities
        ≡ (if drops_the_link state then unlink t.identities i else t.identities)
  unfolding apply_state
  apply_state-identities i allowed now k at outcome t = refl
  apply_state-identities i blocked now k at outcome t = refl
  apply_state-identities i unknown now k at outcome t = refl
  apply_state-identities i unrecognised now k at outcome t = refl

  unlinked-find :
      (i : FederatedIdentity) (state : RosterState) (key : String × String)
      (rows : List FederatedIdentity)
      → find link_key key (if drops_the_link state then unlink rows i else rows)
        ≡ (if link_key i == key && drops_the_link state then none else find link_key key rows)
  unfolding unlink
  unlinked-find i state key rows = ground (arith, find-delete_key link_key (link_key i) key rows)

  apply_all-find :
      (links : List FederatedIdentity) (roster : List RosterEntry) (now k : ℕ)
      (at : FederatedIdentity → ℕ) (outcome : ReconciliationOutcome) (t : Tables)
      (key : String × String)
      → find link_key key (apply_all digest links roster now k at (outcome, t)).1.identities
        ≡ (if any (is_dropped roster key) links then none else find link_key key t.identities)
  unfolding apply_all
  apply_all-find [] roster now k at outcome t key = refl
  apply_all-find (i ∷ links) roster now k at outcome t key =
      let next = apply_state digest i (state_of roster i.subject) now k (at i) (outcome, t) in
      let now_found =
        ap (find link_key key)
          (apply_state-identities i (state_of roster i.subject) now k (at i) outcome t)
        ∙ unlinked-find i (state_of roster i.subject) key t.identities in
      apply_all-find links roster now k at next.0 next.1 key ∙ ground (arith, now_found)

any-insert :
    (precedes : String → String → Bool) (p : FederatedIdentity → Bool) (i : FederatedIdentity)
    (links : List FederatedIdentity)
    → any p (insert_link precedes i links) ≡ (p i || any p links)
unfolding insert_link
any-insert precedes p i [] = refl
any-insert precedes p i (j ∷ rest) = ground (arith, any-insert precedes p i rest)

any-in_order :
    (precedes : String → String → Bool) (p : FederatedIdentity → Bool)
    (links : List FederatedIdentity)
    → any p (in_order precedes links) ≡ any p links
unfolding in_order
any-in_order precedes p [] = refl
any-in_order precedes p (i ∷ rest) =
    ground (arith, any-in_order precedes p rest, any-insert precedes p i (in_order precedes rest))

reconciled-links :
    (precedes : String → String → Bool) (digest : (issuer subject : String) → Option ℕ → String)
    (links : List FederatedIdentity) (roster : List RosterEntry) (now k : ℕ)
    (at : FederatedIdentity → ℕ) (t : Tables) (key : String × String)
    → everyone_is_unknown links roster ≡ false
    → find link_key key (reconcile_links precedes digest links roster now k at t).1.identities
      ≡ (if any (is_dropped roster key) links then none else find link_key key t.identities)
unfolding reconcile_links
reconciled-links precedes digest [] roster now k at t key some_known = refl
reconciled-links precedes digest (i ∷ links) roster now k at t key some_known =
    rw some_known (apply_all-find digest (i ∷ links) roster now k at _ t key)

all-unknown :
    (roster : List RosterEntry) (links : List FederatedIdentity)
    → All (λ i. state_of roster i.subject ≡ unknown) links
    → all (λ i. is_unknown (state_of roster i.subject)) links ≡ true
all-unknown roster [] gone = refl
all-unknown roster (i ∷ links) (here, gone) = rw here (all-unknown roster links gone)

held_back-links :
    (precedes : String → String → Bool) (digest : (issuer subject : String) → Option ℕ → String)
    (links : List FederatedIdentity) (roster : List RosterEntry) (now k : ℕ)
    (at : FederatedIdentity → ℕ) (t : Tables)
    → 2 ≤ length links
    → all (λ i. is_unknown (state_of roster i.subject)) links ≡ true
    → ((reconcile_links precedes digest links roster now k at t).1 ≡ t)
      × ((reconcile_links precedes digest links roster now k at t).0.held_back ≡ true)
unfolding reconcile_links everyone_is_unknown
held_back-links precedes digest [] roster now k at t several gone = absurd (omega arith)
held_back-links precedes digest (i ∷ links) roster now k at t several gone =
    let many : ltb (length (i ∷ links)) 2 ≡ false = ground arith in rw (many, gone) (refl, refl)

any-keep :
    (p q : FederatedIdentity → Bool) (rows : List FederatedIdentity)
    → any p (keep q rows) ≡ any (λ i. q i && p i) rows
any-keep p q [] = refl
any-keep p q (i ∷ rows) = ground (arith, any-keep p q rows)

-- Whether a link of the issuer is dropped depends on the key alone.
dropped-key :
    (roster : List RosterEntry) (issuer issuer' subject : String) (i : FederatedIdentity)
    → (i.issuer == issuer && is_dropped roster (issuer', subject) i) ≡ (
        link_key i == (issuer', subject)
        && (issuer' == issuer && drops_the_link (state_of roster subject)))
dropped-key roster issuer issuer' subject i = elim (Bool-cases (link_key i == (issuer', subject))) [
  | inr other ↦ ground arith
  | inl same ↦
      let k = same_key (link_key i) (issuer', subject) same in
      let a : i.issuer ≡ issuer' = ap (λ x. x.0) k in
      let b : i.subject ≡ subject = ap (λ x. x.1) k in rw (a, b) (ground arith)
]

any-never :
    (rows : List FederatedIdentity) (p : FederatedIdentity → Bool) (key : String × String)
    (c : Bool)
    → ((i : FederatedIdentity) → p i ≡ (link_key i == key && c))
    → c ≡ false
    → any p rows ≡ false
any-never [] p key c h e = refl
any-never (i ∷ rows) p key c h e = ground (arith, h i, any-never rows p key c h e)

-- A key of which no row is dropped, or every row.
any-found :
    (rows : List FederatedIdentity) (p : FederatedIdentity → Bool) (key : String × String)
    (c : Bool)
    → ((i : FederatedIdentity) → p i ≡ (link_key i == key && c))
    → (if any p rows then none else find link_key key rows)
      ≡ (if c then none else find link_key key rows)
unfolding find
any-found [] p key c h = ground arith
any-found (i ∷ rows) p key c h =
    ground (arith, any-found rows p key c h, h i, any-never rows p key c h)

-- Of the links of one issuer, one is dropped only if its issuer and its subject say so.
any-dropped :
    (rows : List FederatedIdentity) (roster : List RosterEntry) (issuer issuer' subject : String)
    → (if any (is_dropped roster (issuer', subject)) (keep (λ i. i.issuer == issuer) rows)
        then none
        else find link_key (issuer', subject) rows)
      ≡ (if issuer' == issuer && drops_the_link (state_of roster subject)
          then none
          else find link_key (issuer', subject) rows)
any-dropped rows roster issuer issuer' subject =
    rw (any-keep (is_dropped roster (issuer', subject)) (λ i. i.issuer == issuer) rows) (
      any-found rows (λ i. i.issuer == issuer && is_dropped roster (issuer', subject) i)
        (issuer', subject) (issuer' == issuer && drops_the_link (state_of roster subject))
        (dropped-key roster issuer issuer' subject))

-- The state that the roster gives to a user who is gone.
abbrev pub is_gone : RosterState → Bool
is_gone allowed = false
is_gone blocked = false
is_gone unknown = true
is_gone unrecognised = false

drops_the_link-is_gone : (state : RosterState) → drops_the_link state ≡ is_gone state
unfolding drops_the_link
drops_the_link-is_gone allowed = refl
drops_the_link-is_gone blocked = refl
drops_the_link-is_gone unknown = refl
drops_the_link-is_gone unrecognised = refl

-- A reconciliation that is not held back drops exactly the links of its issuer to the users that the
-- roster says are gone: every other link, of a user who is allowed, blocked, not named by the roster
-- or named with a state that is not known here, or at another issuer, is what it was.
pub reconcile-find :
    (precedes : String → String → Bool) (digest : (issuer subject : String) → Option ℕ → String)
    (issuer : String) (roster : List RosterEntry) (now k : ℕ) (at : FederatedIdentity → ℕ)
    (t : Tables) (issuer' subject : String)
    → everyone_is_unknown (list_for_issuer precedes t.identities issuer) roster ≡ false
    → find link_key
        (issuer', subject)
        (reconcile precedes digest issuer roster now k at t).1.identities
      ≡ (if issuer' == issuer && is_gone (state_of roster subject)
          then none
          else find link_key (issuer', subject) t.identities)
unfolding reconcile list_for_issuer
reconcile-find precedes digest issuer roster now k at t issuer' subject some_known =
    let own = keep (λ i. i.issuer == issuer) t.identities in
    reconciled-links precedes digest (in_order precedes own) roster now k at t (issuer', subject)
      some_known
    ∙ (rw
        (
          any-in_order precedes (is_dropped roster (issuer', subject)) own,
          ← drops_the_link-is_gone (state_of roster subject),
        )
        (any-dropped t.identities roster issuer issuer' subject))

-- If every one of several links comes back as gone, a reconciliation changes nothing, and says so.
pub reconcile-everyone_is_unknown :
    (precedes : String → String → Bool) (digest : (issuer subject : String) → Option ℕ → String)
    (issuer : String) (roster : List RosterEntry) (now k : ℕ) (at : FederatedIdentity → ℕ)
    (t : Tables)
    → 2 ≤ length (list_for_issuer precedes t.identities issuer)
    → All (λ i. state_of roster i.subject ≡ unknown) (list_for_issuer precedes t.identities issuer)
    → ((reconcile precedes digest issuer roster now k at t).1 ≡ t)
      × ((reconcile precedes digest issuer roster now k at t).0.held_back ≡ true)
unfolding reconcile
reconcile-everyone_is_unknown precedes digest issuer roster now k at t several gone =
    held_back-links precedes digest (list_for_issuer precedes t.identities issuer) roster now k at t
      several (all-unknown roster (list_for_issuer precedes t.identities issuer) gone)
