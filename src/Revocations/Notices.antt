-- ===== src/Revocations/Notices.antt =====
-- Back-channel logout notices and the logins that they end.
use fastapitemplate.Common.Results.{done, Result-cases}
use fastapitemplate.Common.Table.{find, delete_where}
use fastapitemplate.Common.Table.Keys.{find-delete_where-none}
use fastapitemplate.Common.Text.{is_empty}
use fastapitemplate.Common.Value.{Fields}
use fastapitemplate.Common.{
  ℕ, ◌≤◌, String, ◌≡◌, sym, ap, ◌∙◌, subst, ◌⊎◌, inl, inr, true, false, ◌||◌, none, List, [], ◌∷◌,
  ◌++◌, arith, string_eq, option_eq, Bool-cases, ltb, option_beq_iff,
}
use fastapitemplate.Federation.{FederatedLogin}
use fastapitemplate.RefreshSessions.{RefreshSession}
use fastapitemplate.Revocations.{
  LogoutNotice, SessionRevocation, from_claims, revocation_of, covers, matches, is_revoked,
  record_revocation, receive_logout, jti_of, kept_until,
}
use fastapitemplate.Revocations.Laws.{recorded-stays, record_all}

swept-is_revoked :
    (rows : List SessionRevocation) (login : FederatedLogin) (now : ℕ)
    → is_revoked (delete_where (λ r. ltb r.expires_at now) rows) login ≡ true
    → is_revoked rows login ≡ true
unfolding is_revoked delete_where
swept-is_revoked [] login now h = h
swept-is_revoked (r ∷ rows) login now h = ground (arith, swept-is_revoked rows login now)

append-is_revoked :
    (rows : List SessionRevocation) (r : SessionRevocation) (login : FederatedLogin)
    → is_revoked (rows ++ r ∷ []) login ≡ (is_revoked rows login || matches login r)
unfolding is_revoked
append-is_revoked [] r login = ground arith
append-is_revoked (s ∷ rows) r login = ground (arith, append-is_revoked rows r login)

-- What a record adds is the logins that its own revocation covers.
recorded-covers :
    (logins : List RefreshSession) (rows : List SessionRevocation) (r : SessionRevocation) (now : ℕ)
    (login : FederatedLogin)
    → is_revoked (record_revocation logins rows r now).1 login ≡ true
    → (is_revoked rows login ≡ true) ⊎ (matches login r ≡ true)
unfolding record_revocation matches
recorded-covers logins rows r now login h = elim (Bool-cases (is_revoked rows login)) [
  | inl before ↦ inl before
  | inr not_before ↦ inr (
      ground (
        arith,
        swept-is_revoked rows login now,
        append-is_revoked (delete_where (λ r. ltb r.expires_at now) rows)
            (record r { expires_at = kept_until logins r.expires_at }) login,
      ))
]

received :
    (logins : List RefreshSession) (rows rows' : List SessionRevocation) (claims : Fields)
    (issuer : String) (k revoked_at now : ℕ) (notice : LogoutNotice)
    → receive_logout logins rows claims issuer k revoked_at now ≡ done (notice, rows')
    → (from_claims claims issuer ≡ done notice)
      × ((record_revocation logins rows (revocation_of notice revoked_at k) now).1 ≡ rows')
unfolding receive_logout
received logins rows rows' claims issuer k revoked_at now notice e =
    elim (Result-cases (from_claims claims issuer)) [
      | inl (_, refused) ↦ absurd (ground arith)
      | inr (n, read) ↦
          let same : n ≡ notice = ground arith in
          let after : (record_revocation logins rows (revocation_of n revoked_at k) now).1 ≡ rows' =
            ground arith in
          (
            read ∙ ap done same,
            ap (λ x. (record_revocation logins rows (revocation_of x revoked_at k) now).1)
                  (sym same)
                ∙ after,
          )
    ]

from_claims-issuer :
    (claims : Fields) (issuer : String) (notice : LogoutNotice)
    → from_claims claims issuer ≡ done notice
    → notice.session.issuer ≡ issuer
unfolding from_claims
from_claims-issuer claims issuer notice e = ground arith

-- A notice that names a session and no user is accepted, but ends no login: after it, a login of a
-- user with a name is revoked only if it was before.
pub sid_only-ends_nothing :
    (logins : List RefreshSession) (rows rows' : List SessionRevocation) (claims : Fields)
    (issuer : String) (keep_for_seconds revoked_at now : ℕ) (notice : LogoutNotice)
    (login : FederatedLogin)
    → receive_logout logins rows claims issuer keep_for_seconds revoked_at now
      ≡ done (notice, rows')
    → is_empty notice.session.subject ≡ true
    → is_empty login.session.subject ≡ false
    → is_revoked rows' login ≡ true
    → is_revoked rows login ≡ true
unfolding receive_logout revocation_of matches
sid_only-ends_nothing logins rows rows' claims issuer k revoked_at now notice login e unnamed named
      h =
    let (read, rows_after) = received logins rows rows' claims issuer k revoked_at now notice e in
    elim (recorded-covers logins rows (revocation_of notice revoked_at k) now login
      (subst (λ x. is_revoked x login ≡ true) (sym rows_after) h)) [
        | inl before ↦ before
        | inr met ↦
            absurd (ground (arith, string_eq.beq_iff notice.session.subject login.session.subject))
      ]

notice-covers :
    (notice : LogoutNotice) (revoked_at k : ℕ) (login : FederatedLogin)
    → notice.session.issuer ≡ login.session.issuer
    → notice.session.subject ≡ login.session.subject
    → (notice.session.session_id ≡ none) ⊎ (notice.session.session_id ≡ login.session.session_id)
    → login.started_at ≤ revoked_at
    → covers (revocation_of notice revoked_at k) login ≡ true
unfolding covers revocation_of
notice-covers notice revoked_at k login i s session began = ground (
  arith,
  string_eq.beq_iff notice.session.issuer login.session.issuer,
  string_eq.beq_iff notice.session.subject login.session.subject,
  option_beq_iff string_eq notice.session.session_id login.session.session_id,
)

new-recorded :
    (logins : List RefreshSession) (rows : List SessionRevocation) (r : SessionRevocation) (now : ℕ)
    → find jti_of r.jti rows ≡ none
    → (record_revocation logins rows r now).0 ≡ true
unfolding record_revocation
new-recorded logins rows r now new =
    ground (arith, find-delete_where-none jti_of (λ x. ltb x.expires_at now) r.jti rows new)

-- A notice that names a user and whose identifier is new ends every login of that user at the issuer
-- which began no later than it was received, of the session that it names or of all sessions.
pub notice-ends :
    (logins : List RefreshSession) (rows rows' : List SessionRevocation) (claims : Fields)
    (issuer : String) (keep_for_seconds revoked_at now : ℕ) (notice : LogoutNotice)
    (login : FederatedLogin)
    → receive_logout logins rows claims issuer keep_for_seconds revoked_at now
      ≡ done (notice, rows')
    → find jti_of notice.jti rows ≡ none
    → login.session.issuer ≡ issuer
    → login.session.subject ≡ notice.session.subject
    → (notice.session.session_id ≡ none) ⊎ (notice.session.session_id ≡ login.session.session_id)
    → login.started_at ≤ revoked_at
    → is_revoked rows' login ≡ true
unfolding record_all revocation_of
notice-ends logins rows rows' claims issuer k revoked_at now notice login e new same_issuer
      same_subject session began =
    let (read, rows_after) = received logins rows rows' claims issuer k revoked_at now notice e in
    let own = from_claims-issuer claims issuer notice read in
    let r = revocation_of notice revoked_at k in
    let same_issuer' : notice.session.issuer ≡ login.session.issuer = own ∙ sym same_issuer in
    subst (λ x. is_revoked x login ≡ true) rows_after
      (recorded-stays logins rows r now login []
        (notice-covers notice revoked_at k login same_issuer' (sym same_subject) session began)
        (new-recorded logins rows r now new) tt)
