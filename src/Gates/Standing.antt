-- ===== src/Gates/Standing.antt =====
-- What the claims of an access token and the tables have to say for a login to stand.
use fastapitemplate.Common.Clock.{second}
use fastapitemplate.Common.Decimal.{int}
use fastapitemplate.Common.Results.{done}
use fastapitemplate.Common.Table.{find}
use fastapitemplate.Common.Text.{is_empty}
use fastapitemplate.Common.Value.{Fields, get, as_text, as_int, is_true}
use fastapitemplate.Common.{
  ℕ, ◌*◌, ◌/◌, ◌<◌, ◌≡◌, ◌⊎◌, refl, ◌∙◌, ap, sym, subst, String, true, false, ◌&&◌, Option, none,
  some, List, is_some, or_else, none_or, some_and, leb, nat_eq, string_eq, option_eq, arith,
  Option-cases, inl, inr,
}
use fastapitemplate.Federation.{FederatedLogin}
use fastapitemplate.Gates.{CurrentSession, is_machine}
use fastapitemplate.RefreshSessions.{RefreshSession, row_id, has_expired}
use fastapitemplate.Revocations.{SessionRevocation, is_revoked, check_revocation}
use fastapitemplate.Tokens.{Database}
use fastapitemplate.Tokens.Claims.{
  AuthenticatedPrincipal, check_access, principal_of, subject_of, has_type, login_of,
  machine_client_of,
}
use fastapitemplate.Tokens.Reading.{
  session_revoked, refresh_session_ended, issued_before_sessions_ended, issued_before_boundary,
}
use fastapitemplate.Users.{User, user_key}

-- The claims are those of an access token of a person.
abbrev pub IsPersonal : Fields → (user_id : ℕ) → Type 0
IsPersonal claims user_id =
    (as_text (get claims "type") ≡ some "access")
    × ((sub : String) × (as_text (get claims "sub") ≡ some sub) × (int sub ≡ some user_id))
    × (none_or is_empty (as_text (get claims "machine_client")) ≡ true)

pub check_access_lem :
    (claims : Fields) (p : AuthenticatedPrincipal)
    → check_access claims ≡ done p
    → (has_type claims "access" ≡ true)
      × ((user_id : ℕ) × (subject_of claims ≡ some user_id) × (p ≡ principal_of claims user_id))
unfolding check_access
check_access_lem claims p e = elim (Option-cases (subject_of claims)) [
  | inl missing ↦ absurd (ground arith)
  | inr (user_id, named) ↦ (ground arith, (user_id, named, ground arith))
]

pub check_access-subject :
    (claims : Fields) (p : AuthenticatedPrincipal)
    → check_access claims ≡ done p
    → subject_of claims ≡ some p.user_id
unfolding principal_of
check_access-subject claims p e =
    let (_, (user_id, named, same)) = check_access_lem claims p e in
    named ∙ ap (λ (q : AuthenticatedPrincipal). some q.user_id) (sym same)

subject_lem :
    (claims : Fields) (user_id : ℕ)
    → subject_of claims ≡ some user_id
    → (sub : String) × (as_text (get claims "sub") ≡ some sub) × (int sub ≡ some user_id)
unfolding subject_of
subject_lem claims user_id e = elim (Option-cases (as_text (get claims "sub"))) [
  | inl missing ↦ absurd (ground arith)
  | inr (sub, named) ↦ (sub, named, ground arith)
]

no_machine :
    (claims : Fields) (user_id : ℕ)
    → is_machine (principal_of claims user_id) ≡ false
    → none_or is_empty (as_text (get claims "machine_client")) ≡ true
unfolding is_machine principal_of machine_client_of
no_machine claims user_id e = elim (Option-cases (as_text (get claims "machine_client"))) [
  | inl missing ↦ ground arith
  | inr (client, named) ↦ ground arith
]

pub check_access-IsPersonal :
    (claims : Fields) (p : AuthenticatedPrincipal)
    → check_access claims ≡ done p
    → is_machine p ≡ false
    → (p ≡ principal_of claims p.user_id) × IsPersonal claims p.user_id
unfolding has_type principal_of
check_access-IsPersonal claims p e person =
    let (typed, (user_id, named, same)) = check_access_lem claims p e in
    let own : p.user_id ≡ user_id = ap (λ (q : AuthenticatedPrincipal). q.user_id) same in
    subst (λ k. (p ≡ principal_of claims k) × IsPersonal claims k) (sym own)
      (
        same,
        (
          (option_eq.beq_iff _ _).0 typed,
          subject_lem claims user_id named,
          no_machine claims user_id (ap is_machine (sym same) ∙ person),
        ),
      )

-- The token was issued no earlier than the second of the boundary of the user's sessions, if there is one.
abbrev pub IsAfterBoundary : Fields → User → Type 0
IsAfterBoundary claims user =
    none_or
      (λ valid_from. some_and (λ iat. leb (valid_from / second) iat) (as_int (get claims "iat")))
      user.sessions_valid_from
    ≡ true

-- The record of the login, if the token names one, is there and in date.
abbrev pub HasRecord : Fields → Database → (now : ℕ) → Type 0
HasRecord claims db now =
    (as_text (get claims "rsid") ≡ none)
    ⊎ ((id : String) × (row : RefreshSession) × (as_text (get claims "rsid") ≡ some id)
        × (find row_id id db.refresh_sessions ≡ some row)
        × (now < row.expires_at))

-- The login at the identity provider that the claims tell, which it has not ended, or that there is none.
abbrev pub IsLogin : Fields → List SessionRevocation → Option FederatedLogin → Type 0
IsLogin claims revocations login =
    ((login ≡ none)
      × ((is_some (as_text (get claims "fed_iss"))
            && is_some (as_text (get claims "fed_sub"))
            && is_some (as_int (get claims "fed_iat")))
          ≡ false))
    ⊎ ((told : FederatedLogin) × (login ≡ some told)
        × (as_text (get claims "fed_iss") ≡ some told.session.issuer)
        × (as_text (get claims "fed_sub") ≡ some told.session.subject)
        × (as_int (get claims "fed_iat") ≡ some told.started_at)
        × (told.session.session_id ≡ as_text (get claims "sid"))
        × (is_revoked revocations told ≡ false))

session_revoked_lem :
    (claims : Fields) (db : Database) (now : ℕ)
    → session_revoked claims db now ≡ false
    → (issued_before_sessions_ended claims db ≡ false)
      × (refresh_session_ended claims db now ≡ false)
      × (check_revocation db.revocations (login_of claims) ≡ false)
unfolding session_revoked
session_revoked_lem claims db now e = (ground arith, ground arith, ground arith)

boundary_lem :
    (issued_at valid_from : Option ℕ) (user : User)
    → user.sessions_valid_from ≡ valid_from
    → issued_before_boundary issued_at (some user) ≡ false
    → none_or (λ t. some_and (λ iat. leb (t / second) iat) issued_at) valid_from ≡ true
boundary_lem issued_at none user is e = refl
boundary_lem none (some t) user is e = absurd (ground arith)
boundary_lem (some iat) (some t) user is e = ground arith

ended-IsAfterBoundary :
    (claims : Fields) (db : Database) (user : User) (user_id : ℕ)
    → subject_of claims ≡ some user_id
    → find user_key user_id db.users ≡ some user
    → issued_before_sessions_ended claims db ≡ false
    → IsAfterBoundary claims user
unfolding issued_before_sessions_ended
ended-IsAfterBoundary claims db user user_id named found e =
    boundary_lem (as_int (get claims "iat")) user.sessions_valid_from user refl
      (ap (issued_before_boundary (as_int (get claims "iat"))) (sym found) ∙ ground arith)

ended-HasRecord :
    (claims : Fields) (db : Database) (now : ℕ)
    → refresh_session_ended claims db now ≡ false
    → HasRecord claims db now
unfolding refresh_session_ended has_expired
ended-HasRecord claims db now e = elim (Option-cases (as_text (get claims "rsid"))) [
  | inl unnamed ↦ inl unnamed
  | inr (id, named) ↦ elim (Option-cases (find row_id id db.refresh_sessions)) [
    | inl missing ↦ absurd (ground arith)
    | inr (row, found) ↦ inr (id, row, named, found, ground arith)
  ]
]

ended-IsLogin :
    (claims : Fields) (revocations : List SessionRevocation)
    → check_revocation revocations (login_of claims) ≡ false
    → IsLogin claims revocations (login_of claims)
unfolding login_of check_revocation
ended-IsLogin claims revocations e = elim (Option-cases (as_text (get claims "fed_iss"))) [
  | inl missing ↦ inl (ground arith, ground arith)
  | inr (issuer, has_issuer) ↦ elim (Option-cases (as_text (get claims "fed_sub"))) [
    | inl missing ↦ inl (ground arith, ground arith)
    | inr (subject, has_subject) ↦ elim (Option-cases (as_int (get claims "fed_iat"))) [
      | inl missing ↦ inl (ground arith, ground arith)
      | inr (started_at, has_start) ↦ inr (
        record {
          session = record {
            issuer = issuer;
            subject = subject;
            session_id = as_text (get claims "sid");
          };
          started_at = started_at;
        },
        ground arith,
        has_issuer,
        has_subject,
        has_start,
        refl,
        ground arith,
      )
    ]
  ]
]

-- A login that was not ended: neither by a boundary of its user's sessions, nor by the record of the login, nor
-- by the identity provider.
abbrev pub Stands : Fields → Database → (now : ℕ) → User → Option FederatedLogin → Type 0
Stands claims db now user login =
    IsAfterBoundary claims user × HasRecord claims db now × IsLogin claims db.revocations login

pub session_revoked-Stands :
    (claims : Fields) (db : Database) (now user_id : ℕ) (user : User)
    → subject_of claims ≡ some user_id
    → find user_key user_id db.users ≡ some user
    → session_revoked claims db now ≡ false
    → Stands claims db now user (login_of claims)
session_revoked-Stands claims db now user_id user named found e =
    let (later, kept, not_ended) = session_revoked_lem claims db now e in
    (
      ended-IsAfterBoundary claims db user user_id named found later,
      ended-HasRecord claims db now kept,
      ended-IsLogin claims db.revocations not_ended,
    )

-- A session carries what the claims say of the sign-in.
abbrev pub IsCarried : Fields → CurrentSession → Type 0
IsCarried claims session =
    (session.active_role ≡ as_text (get claims "active_role"))
    × (session.authenticated_at ≡ some (or_else (as_int (get claims "auth_time")) 0 * second))
    × (session.refresh_session_id ≡ as_text (get claims "rsid"))
    × (session.signed_in_with_passkey ≡ is_true (get claims "passkey"))
