-- ===== src/Revocations/Laws.antt =====
-- Which logins the table of revocations ends, and for how long.
use fastapitemplate.Common.Lists.{All}
use fastapitemplate.Common.Table.{find, delete_where}
use fastapitemplate.Common.{
  ℕ, ◌≤◌, String, ◌≡◌, refl, sym, ◌∙◌, Bool, true, false, not, ◌&&◌, ◌||◌, Option, none, some, List,
  [], ◌∷◌, ◌++◌, arith, string_eq, option_eq, ◌==◌, if◌then◌else◌, Option-cases, inl, inr, leb, ltb,
  is_some, nat_eq,
}
use fastapitemplate.Federation.{FederatedLogin}
use fastapitemplate.RefreshSessions.{RefreshSession}
use fastapitemplate.Revocations.{
  SessionRevocation, jti_of, covers, matches, matches_session, is_revoked, record_revocation,
  kept_until, last_end,
}

matches_session-covers :
    (target stored : Option String)
    → matches_session target stored ≡ not (is_some stored && not (stored == target))
matches_session-covers none none = refl
matches_session-covers none (some s) = refl
matches_session-covers (some t) none = refl
matches_session-covers (some t) (some s) = ground arith

matches-covers : (r : SessionRevocation) (login : FederatedLogin) → matches login r ≡ covers r login
unfolding matches covers
matches-covers r login =
    rw (matches_session-covers login.session.session_id r.session.session_id) (ground arith)

-- `any(row.covers(login) for row in rows)`
abbrev pub any_covers : List SessionRevocation → FederatedLogin → Bool
any_covers [] login = false
any_covers (r ∷ rows) login = covers r login || any_covers rows login

-- The SQL finds a revocation of a login exactly if one of the rows covers it by the entity's own rule.
pub is_revoked-covers :
    (rows : List SessionRevocation) (login : FederatedLogin)
    → is_revoked rows login ≡ any_covers rows login
unfolding is_revoked
is_revoked-covers [] login = refl
is_revoked-covers (r ∷ rows) login =
    ground (arith, matches-covers r login, is_revoked-covers rows login)

-- Some row that meets the test is kept up to a time.
abbrev pub is_held : (SessionRevocation → Bool) → ℕ → List SessionRevocation → Bool
is_held p t [] = false
is_held p t (r ∷ rows) = (p r && leb t r.expires_at) || is_held p t rows

-- The sweep of a later record leaves it.
swept-is_held :
    (p : SessionRevocation → Bool) (t now : ℕ) (rows : List SessionRevocation)
    → now ≤ t
    → is_held p t rows ≡ true
    → is_held p t (delete_where (λ r. ltb r.expires_at now) rows) ≡ true
unfolding delete_where
swept-is_held p t now [] early h = h
swept-is_held p t now (r ∷ rows) early h = ground (arith, swept-is_held p t now rows early)

append-is_held :
    (p : SessionRevocation → Bool) (t : ℕ) (rows extra : List SessionRevocation)
    → is_held p t (rows ++ extra) ≡ (is_held p t rows || is_held p t extra)
append-is_held p t [] extra = refl
append-is_held p t (r ∷ rows) extra = ground (arith, append-is_held p t rows extra)

-- The row that `record` writes.
abbrev kept_row : List RefreshSession → SessionRevocation → SessionRevocation
kept_row logins r = record r { expires_at = kept_until logins r.expires_at }

record-is_held :
    (p : SessionRevocation → Bool) (t now : ℕ) (logins : List RefreshSession)
    (rows : List SessionRevocation) (r : SessionRevocation)
    → now ≤ t
    → is_held p t rows ≡ true
    → is_held p t (record_revocation logins rows r now).1 ≡ true
unfolding record_revocation
record-is_held p t now logins rows r early h = ground (
  arith,
  swept-is_held p t now rows early h,
  append-is_held p t (delete_where (λ r. ltb r.expires_at now) rows) (kept_row logins r ∷ []),
)

recorded-is_held :
    (p : SessionRevocation → Bool) (logins : List RefreshSession) (rows : List SessionRevocation)
    (r : SessionRevocation) (now : ℕ)
    → p (kept_row logins r) ≡ true
    → (record_revocation logins rows r now).0 ≡ true
    → is_held p (kept_until logins r.expires_at) (record_revocation logins rows r now).1 ≡ true
unfolding record_revocation
recorded-is_held p logins rows r now met new = ground (
  arith,
  append-is_held p (kept_until logins r.expires_at) (delete_where (λ r. ltb r.expires_at now) rows)
      (kept_row logins r ∷ []),
)

-- A call of `record`, with the logins of this application at the time.
pub record Recording : Type 0 where
  pub logins : List RefreshSession
  pub revocation : SessionRevocation
  pub at : ℕ

unfoldable pub record_all : List SessionRevocation → List Recording → List SessionRevocation
record_all rows [] = rows
record_all rows (a ∷ rest) = record_all (record_revocation a.logins rows a.revocation a.at).1 rest

record_all-is_held :
    (p : SessionRevocation → Bool) (t : ℕ) (rows : List SessionRevocation)
    (recordings : List Recording)
    → All (λ a. a.at ≤ t) recordings
    → is_held p t rows ≡ true
    → is_held p t (record_all rows recordings) ≡ true
unfolding record_all
record_all-is_held p t rows [] all h = h
record_all-is_held p t rows (a ∷ rest) (early, all) h =
    record_all-is_held p t (record_revocation a.logins rows a.revocation a.at).1 rest all
      (record-is_held p t a.at a.logins rows a.revocation early h)

held-is_revoked :
    (t : ℕ) (rows : List SessionRevocation) (login : FederatedLogin)
    → is_held (matches login) t rows ≡ true
    → is_revoked rows login ≡ true
unfolding is_revoked
held-is_revoked t [] login h = h
held-is_revoked t (r ∷ rows) login h = ground (arith, held-is_revoked t rows login)

kept_row-matches :
    (logins : List RefreshSession) (r : SessionRevocation) (login : FederatedLogin)
    → matches login (kept_row logins r) ≡ covers r login
unfolding matches
kept_row-matches logins r login = matches-covers r login

-- A recorded stop holds: once `record` has kept a revocation that covers a login, the login counts
-- as revoked after any further records, of any revocations, up to the time that `_kept_until` gave.
pub recorded-stays :
    (logins : List RefreshSession) (rows : List SessionRevocation) (r : SessionRevocation) (now : ℕ)
    (login : FederatedLogin) (later : List Recording)
    → covers r login ≡ true
    → (record_revocation logins rows r now).0 ≡ true
    → All (λ a. a.at ≤ kept_until logins r.expires_at) later
    → is_revoked (record_all (record_revocation logins rows r now).1 later) login ≡ true
recorded-stays logins rows r now login later covered new all =
    let t = kept_until logins r.expires_at in
    let rows' = (record_revocation logins rows r now).1 in
    held-is_revoked t (record_all rows' later) login (
      record_all-is_held (matches login) t rows' later all (
        recorded-is_held (matches login) logins rows r now
          (kept_row-matches logins r login ∙ covered) new))

-- A row with the key that outlasts the sweep is found by the next record.
held-found :
    (t now : ℕ) (jti : String) (rows : List SessionRevocation)
    → now ≤ t
    → is_held (λ r. r.jti == jti) t rows ≡ true
    → is_some (find jti_of jti (delete_where (λ r. ltb r.expires_at now) rows)) ≡ true
unfolding find delete_where
held-found t now jti [] early h = ground arith
held-found t now jti (r ∷ rows) early h = ground (arith, held-found t now jti rows early)

-- A notice that is sent again is ignored: once `record` has kept a revocation, a further one with its
-- identifier is refused after any records in between, up to the time that `_kept_until` gave.
pub resent-ignored :
    (logins logins' : List RefreshSession) (rows : List SessionRevocation)
    (r again : SessionRevocation) (now now' : ℕ) (between : List Recording)
    → again.jti ≡ r.jti
    → (record_revocation logins rows r now).0 ≡ true
    → All (λ a. a.at ≤ kept_until logins r.expires_at) between
    → now' ≤ kept_until logins r.expires_at
    → (record_revocation logins'
        (record_all (record_revocation logins rows r now).1 between)
        again
        now').0
      ≡ false
unfolding record_revocation
resent-ignored logins logins' rows r again now now' between same new all early =
    let t = kept_until logins r.expires_at in
    let rows' = (record_revocation logins rows r now).1 in
    let test : SessionRevocation → Bool = λ x. x.jti == again.jti in
    let held = record_all-is_held test t rows' between all (
      recorded-is_held test logins rows r now ((string_eq.beq_iff r.jti again.jti).1 (sym same))
        new) in
    rw (held-found t now' again.jti (record_all rows' between) early held)

last_end-bounds :
    (logins : List RefreshSession) (b : ℕ)
    → ((t : ℕ) → last_end logins ≡ some t → t ≤ b)
    → All (λ row. row.expires_at ≤ b) logins
unfolding last_end
last_end-bounds [] b h = tt
last_end-bounds (row ∷ logins) b h = elim (Option-cases (last_end logins)) [
  | inl e ↦ (h row.expires_at (rw e refl), last_end-bounds logins b (λ t e'. absurd (ground arith)))
  | inr (s, e) ↦
      let top = h (if leb s row.expires_at then row.expires_at else s) (rw e refl) in
      (ground (arith, top), last_end-bounds logins b (λ t e'. ground (arith, top)))
]

-- The time that `_kept_until` gives is no earlier than the least that is asked for, and than the end
-- of every login of this application.
pub kept_until-bounds :
    (logins : List RefreshSession) (earliest : ℕ)
    → (earliest ≤ kept_until logins earliest)
      × All (λ row. row.expires_at ≤ kept_until logins earliest) logins
unfolding kept_until
kept_until-bounds logins earliest =
    (ground arith, last_end-bounds logins (kept_until logins earliest) (λ t e. ground arith))
