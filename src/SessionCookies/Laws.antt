-- ===== src/SessionCookies/Laws.antt =====
-- What a client holds after `establish_session`, against the table of refresh sessions.
use fastapitemplate.Common.Lists.{All}
use fastapitemplate.Common.Table.{find, IsKeyed}
use fastapitemplate.Common.Table.Keys.{find-insert_row}
use fastapitemplate.Common.Text.{is_empty}
use fastapitemplate.Common.{
  ℕ, ◌≡◌, refl, ap, subst, ◌∙◌, Bool, true, false, Option, none, some, List, [], ◌∷◌, arith, String,
  Option-cases, inl, inr, string_eq, beq_self,
}
use fastapitemplate.RefreshSessions.{
  RefreshSession, Settings, row_id, begin, new_row, rotate, rotated_row, kept_lifetime,
  IssuedRefreshToken,
}
use fastapitemplate.RefreshSessions.Rotation.{rotate-swap}
use fastapitemplate.RefreshSessions.History.{Rotation, apply, apply-find}
use fastapitemplate.SessionCookies.{
  SessionCarryOver, Draws, RefreshCookie, Response, local_login, issue, record_refresh_session,
  establish_local, establish_session, cookie_of, respond,
}

-- The table holds the token of the cookie as the current one of its login.
abbrev pub HoldsCurrent : List RefreshSession → RefreshCookie → Type 0
HoldsCurrent rows c =
    (row : RefreshSession) × (find row_id c.session_id rows ≡ some row) × (row.current_jti ≡ c.jti)

-- What a response says about the table that the request leaves.
abbrev pub IsBacked : Response × List RefreshSession → Type 0
IsBacked (local_login (some c), rows) = HoldsCurrent rows c
IsBacked _ = Unit

rotated-HoldsCurrent :
    (rows : List RefreshSession) (issued : IssuedRefreshToken) (expected : Option String)
    (settled_at stored_at : ℕ)
    → IsKeyed row_id rows
    → (rotate rows issued expected settled_at stored_at).0 ≡ true
    → HoldsCurrent (rotate rows issued expected settled_at stored_at).1 (cookie_of issued)
unfolding rotated_row
rotated-HoldsCurrent rows issued expected settled_at stored_at keyed won =
    let (done, after, _) =
      rotate-swap rows issued expected settled_at stored_at issued.session_id keyed in
    elim (Option-cases (find row_id issued.session_id rows)) [
      | inl missing ↦ absurd (ground arith)
      | inr (row, found) ↦ (
        rotated_row issued stored_at row,
        after ∙ (rw (won, found, beq_self issued.session_id) refl),
        refl,
      )
    ]

begun-HoldsCurrent :
    (rows rows' : List RefreshSession) (issued : IssuedRefreshToken) (user_id now : ℕ)
    → begin rows issued user_id now ≡ some rows'
    → HoldsCurrent rows' (cookie_of issued)
unfolding begin new_row
begun-HoldsCurrent rows rows' issued user_id now e = (
  new_row issued user_id,
  find-insert_row row_id (new_row issued user_id) issued.session_id _ rows' e
      ∙ (rw (beq_self issued.session_id) refl),
  refl,
)

recorded-HoldsCurrent :
    (rows rows' : List RefreshSession) (user_id : ℕ) (issued : IssuedRefreshToken)
    (carry : SessionCarryOver) (draws : Draws)
    → IsKeyed row_id rows
    → record_refresh_session rows user_id issued carry draws ≡ some (true, rows')
    → HoldsCurrent rows' (cookie_of issued)
unfolding record_refresh_session
recorded-HoldsCurrent rows rows' user_id issued carry draws keyed e =
    elim (Option-cases carry.refresh_session_id) [
      | inl new ↦ begun-HoldsCurrent rows rows' issued user_id draws.settled_at (ground arith)
      | inr (s, continued) ↦
          let done : rotate rows issued carry.presented_jti draws.settled_at draws.stored_at
              ≡ (true, rows') =
            ground arith in
          subst (λ out. HoldsCurrent out (cookie_of issued)) (ap (λ r. r.1) done)
            (rotated-HoldsCurrent rows issued carry.presented_jti draws.settled_at draws.stored_at
              keyed (ap (λ r. r.0) done))
    ]

respond-IsBacked :
    (issued : IssuedRefreshToken) (rows : List RefreshSession)
    (recorded : Option (Bool × List RefreshSession))
    → ((rows' : List RefreshSession)
        → recorded ≡ some (true, rows')
        → HoldsCurrent rows' (cookie_of issued))
    → IsBacked (respond issued rows recorded)
respond-IsBacked issued rows none h = tt
respond-IsBacked issued rows (some (true, rows')) h = h rows' refl
respond-IsBacked issued rows (some (false, rows')) h = tt

establish_local-IsBacked :
    (settings : Settings) (rows : List RefreshSession) (user_id : ℕ) (carry : SessionCarryOver)
    (draws : Draws)
    → IsKeyed row_id rows
    → IsBacked (establish_local settings rows user_id carry draws)
unfolding establish_local
establish_local-IsBacked settings rows user_id carry draws keyed =
    let issued = issue settings rows carry draws in
    respond-IsBacked issued rows (record_refresh_session rows user_id issued carry draws)
      (λ rows' e. recorded-HoldsCurrent rows rows' user_id issued carry draws keyed e)

-- A refresh cookie is set only for a token that the table then holds as the current one of its login,
-- whatever the request carries over: the loser of a race gets no refresh cookie.
-- The keys of the table are unique.
pub establish_session-IsBacked :
    (settings : Settings) (rows : List RefreshSession) (user_id : ℕ) (admits : Bool)
    (carry : SessionCarryOver) (draws : Draws)
    → IsKeyed row_id rows
    → IsBacked (establish_session settings rows user_id admits carry draws)
unfolding establish_session
establish_session-IsBacked settings rows user_id false carry draws keyed = tt
establish_session-IsBacked settings rows user_id true carry draws keyed =
    elim (Option-cases carry.federated_login) [
      | inl here ↦ rw here (establish_local-IsBacked settings rows user_id carry draws keyed)
      | inr (login, there) ↦ rw there tt
    ]

-- A request that continues the login `id`: a refresh or a switch of the role.
abbrev pub Continues : String → SessionCarryOver × Draws → Type 0
Continues id (carry, draws) = (carry.federated_login ≡ none) × (carry.refresh_session_id ≡ some id)

-- The table after such requests of one user, in order.
unfoldable pub continue :
    Settings → List RefreshSession → ℕ → List (SessionCarryOver × Draws) → List RefreshSession
continue settings rows user_id [] = rows
continue settings rows user_id ((carry, draws) ∷ later) =
    continue settings (establish_session settings rows user_id true carry draws).1 user_id later

abbrev as_rotation : Settings → List RefreshSession → SessionCarryOver → Draws → Rotation
as_rotation settings rows carry draws = record {
  issued = issue settings rows carry draws;
  expected = carry.presented_jti;
  settled_at = draws.settled_at;
  stored_at = draws.stored_at;
}

recorded-continued :
    (rows : List RefreshSession) (user_id : ℕ) (id : String) (issued : IssuedRefreshToken)
    (carry : SessionCarryOver) (draws : Draws)
    → carry.refresh_session_id ≡ some id
    → record_refresh_session rows user_id issued carry draws
      ≡ some (rotate rows issued carry.presented_jti draws.settled_at draws.stored_at)
unfolding record_refresh_session
recorded-continued rows user_id id issued carry draws same = ground arith

respond_rows :
    (issued : IssuedRefreshToken) (rows : List RefreshSession) (r : Bool × List RefreshSession)
    → (respond issued rows (some r)).1 ≡ r.1
respond_rows issued rows (true, rows') = refl
respond_rows issued rows (false, rows') = refl

continued-rotates :
    (settings : Settings) (rows : List RefreshSession) (user_id : ℕ) (id : String)
    (carry : SessionCarryOver) (draws : Draws)
    → Continues id (carry, draws)
    → (establish_session settings rows user_id true carry draws).1
      ≡ apply rows (as_rotation settings rows carry draws)
unfolding establish_session establish_local
continued-rotates settings rows user_id id carry draws (here, same) = rw here (
    ap (λ r. (respond (issue settings rows carry draws) rows r).1)
      (recorded-continued rows user_id id (issue settings rows carry draws) carry draws same)
    ∙ respond_rows (issue settings rows carry draws) rows _)

-- Without the sliding extension the lifetime of a continued login is the one that its row has.
issue-keeps :
    (settings : Settings) (rows : List RefreshSession) (id : String) (carry : SessionCarryOver)
    (draws : Draws) (row : RefreshSession)
    → settings.refresh_token_sliding_enabled ≡ false
    → is_empty id ≡ false
    → carry.refresh_session_id ≡ some id
    → find row_id id rows ≡ some row
    → (issue settings rows carry draws).lifetime ≡ kept_lifetime row.expires_at draws.lifetime_at
unfolding issue
issue-keeps settings rows id carry draws row fixed named same found =
    rw (same, named) (rw (fixed, found))

rotated-expires_at :
    (issued : IssuedRefreshToken) (now stored_at : ℕ) (row : RefreshSession)
    → issued.lifetime ≡ kept_lifetime row.expires_at now
    → (rotated_row issued stored_at row).expires_at ≡ row.expires_at
unfolding rotated_row kept_lifetime
rotated-expires_at issued now stored_at row e = rw e

module _ (settings : Settings) (user_id : ℕ) (id : String) where
  continued-step :
      (rows : List RefreshSession) (row : RefreshSession) (carry : SessionCarryOver) (draws : Draws)
      → settings.refresh_token_sliding_enabled ≡ false
      → is_empty id ≡ false
      → IsKeyed row_id rows
      → find row_id id rows ≡ some row
      → Continues id (carry, draws)
      → let rows' = (establish_session settings rows user_id true carry draws).1 in
        IsKeyed row_id rows'
        × ((row' : RefreshSession) × (find row_id id rows' ≡ some row')
            × (row'.expires_at ≡ row.expires_at))
  continued-step rows row carry draws fixed named keyed found c =
      let kept = issue-keeps settings rows id carry draws row fixed named c.1 found in
      let (keyed', now) =
        apply-find rows (as_rotation settings rows carry draws) id row keyed found in
      rw (continued-rotates settings rows user_id id carry draws c) (
        keyed',
        elim now [
          | inl same ↦ (row, same, refl)
          | inr (may, turned) ↦
              (_, turned, rotated-expires_at _ draws.lifetime_at draws.stored_at row kept)
        ],
      )

  -- With the sliding extension off, a login that is continued any number of times, by refreshes and
  -- role switches, keeps its row and the end of its lifetime to the microsecond.
  -- The keys of the table are unique.
  pub continue-expires_at :
      (rows : List RefreshSession) (row : RefreshSession)
      (requests : List (SessionCarryOver × Draws))
      → settings.refresh_token_sliding_enabled ≡ false
      → is_empty id ≡ false
      → IsKeyed row_id rows
      → find row_id id rows ≡ some row
      → All (Continues id) requests
      → (row' : RefreshSession) × (find row_id id (continue settings rows user_id requests)
          ≡ some row')
        × (row'.expires_at ≡ row.expires_at)
  unfolding continue
  continue-expires_at rows row [] fixed named keyed found all = (row, found, refl)
  continue-expires_at rows row ((carry, draws) ∷ later) fixed named keyed found (c, all) =
      let (keyed', (row', found', e)) =
        continued-step rows row carry draws fixed named keyed found c in
      let (last, there, e') =
        continue-expires_at (establish_session settings rows user_id true carry draws).1 row' later
          fixed named keyed' found' all in
      (last, there, e' ∙ e)
