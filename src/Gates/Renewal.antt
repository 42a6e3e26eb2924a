-- ===== src/Gates/Renewal.antt =====
-- Who gets to the routes that write new tokens or new ways to sign in.
use fastapitemplate.Audit.{AuditEvent}
use fastapitemplate.Common.Lists.{contains}
use fastapitemplate.Common.Results.{raised, done, Result-cases}
use fastapitemplate.Common.Table.{find}
use fastapitemplate.Common.Value.{Fields, get, as_text, is_true}
use fastapitemplate.Common.{
  ℕ, ◌≡◌, sym, ap, subst, ◌∙◌, String, true, false, not, ◌||◌, some, List, arith, nat_eq, string_eq,
  pair_eq, Bool-cases, Option-cases, inl, inr,
}
use fastapitemplate.Gates.{
  Gated, Request, CurrentSession, open_during_two_factor_setup, gate, get_operation_principal,
  get_current_principal, person_only, is_machine, get_current_user, get_current_session,
  current_session, session_with, read_principal, role_in, sign_in_of,
}
use fastapitemplate.Gates.Standing.{
  check_access_lem, check_access-subject, IsPersonal, check_access-IsPersonal, Stands,
  session_revoked-Stands, IsCarried,
}
use fastapitemplate.Tokens.{Jwt, TokenSettings, Database}
use fastapitemplate.Tokens.Claims.{
  AuthenticatedPrincipal, check_access, principal_of, has_type, login_of, subject_of,
  active_role_of, authenticated_at_of,
}
use fastapitemplate.Tokens.Reading.{
  decode_claims, verify_access_token, session_is_revoked, session_revoked, federated_login_of,
  refresh_session_id_of, signed_in_with_passkey_of,
}
use fastapitemplate.Users.{User, user_key}

person_only_lem :
    (request : Request) (audit after : List AuditEvent) (principal p : AuthenticatedPrincipal)
    → person_only request audit principal ≡ (done p, after)
    → (p ≡ principal)
      × (is_machine principal ≡ false)
      × ((contains (request.method, request.path) open_during_two_factor_setup
            || not principal.two_factor_setup_required)
          ≡ true)
unfolding person_only
person_only_lem request audit after principal p e = elim (Bool-cases (is_machine principal)) [
  | inl machine ↦ absurd (ground arith)
  | inr person ↦ (ground arith, person, ground arith)
]

module _ {Token : Type 0} (jwt : Jwt Token) (settings : TokenSettings)
    (lower : String → String) where
  -- What stands behind a session that the gate gives.
  abbrev pub IsSettled : Database → Request → Token → (now : ℕ) → CurrentSession → Type 0
  IsSettled db request token now session =
      (claims : Fields) × (user_id : ℕ) × (jwt.decode token settings.jwt_secret_key
          settings.access_token_audience settings.access_token_issuer 0 now
        ≡ done claims)
      × IsPersonal claims user_id
      × (find user_key user_id db.users ≡ some session.user)
      × ((contains (request.method, request.path) open_during_two_factor_setup
            || not (is_true (get claims "two_factor_setup")))
          ≡ true)
      × Stands claims db now session.user session.federated_login
      × IsCarried claims session

  principal_lem :
      (request : Request) (token : Token) (now : ℕ) (audit after : List AuditEvent)
      (p : AuthenticatedPrincipal)
      → get_current_principal jwt settings lower request (some token) now audit ≡ (done p, after)
      → (verify_access_token jwt settings token now ≡ done p)
        × (is_machine p ≡ false)
        × ((contains (request.method, request.path) open_during_two_factor_setup
              || not p.two_factor_setup_required)
            ≡ true)
  unfolding get_current_principal gate get_operation_principal
  principal_lem request token now audit after p e =
      elim (Result-cases (verify_access_token jwt settings token now)) [
        | inl (reason, refused) ↦ absurd (ground arith)
        | inr (principal, read) ↦
            let (same, person, set_up) =
              person_only_lem request audit after principal p (ground arith) in
            (
              read ∙ ap done (sym same),
              ap is_machine same ∙ person,
              ap
                    (λ (q : AuthenticatedPrincipal).
                      contains (request.method, request.path) open_during_two_factor_setup
                      || not q.two_factor_setup_required)
                    same
                  ∙ set_up,
            )
      ]

  user_lem :
      (db : Database) (gated : Gated AuthenticatedPrincipal) (user : User) (after : List AuditEvent)
      → get_current_user jwt settings lower db gated ≡ (done user, after)
      → (p : AuthenticatedPrincipal) × (gated ≡ (done p, after))
        × (find user_key p.user_id db.users ≡ some user)
  unfolding get_current_user
  user_lem db (raised error, audit) user after e = absurd (cc)
  user_lem db (done p, audit) user after e =
      elim (Option-cases (find user_key p.user_id db.users)) [
        | inl missing ↦ absurd (ground arith)
        | inr (u, found) ↦ (p, ground arith, ground arith)
      ]

  session_lem :
      (db : Database) (token : Token) (now : ℕ) (gated : Gated User) (session : CurrentSession)
      (after : List AuditEvent)
      → get_current_session jwt settings lower db token now gated ≡ (done session, after)
      → (user : User) × (gated ≡ (done user, after))
        × (session_is_revoked jwt settings token db now now ≡ false)
        × (session ≡ session_with jwt settings lower user token now)
  unfolding get_current_session
  session_lem db token now (raised error, audit) session after e = absurd (cc)
  session_lem db token now (done user, audit) session after e =
      elim (Bool-cases (session_is_revoked jwt settings token db now now)) [
        | inl revoked ↦ absurd (ground arith)
        | inr standing ↦ (user, ground arith, standing, ground arith)
      ]

  federated_login_of-login_of :
      (token : Token) (now : ℕ) (claims : Fields)
      → decode_claims jwt settings token now ≡ done claims
      → has_type claims "access" ≡ true
      → federated_login_of jwt settings token now ≡ login_of claims
  unfolding federated_login_of
  federated_login_of-login_of token now claims read typed = ground arith

  refresh_session_id_lem :
      (token : Token) (now : ℕ) (claims : Fields)
      → decode_claims jwt settings token now ≡ done claims
      → refresh_session_id_of jwt settings token now ≡ as_text (get claims "rsid")
  unfolding refresh_session_id_of
  refresh_session_id_lem token now claims read = ground arith

  signed_in_with_passkey_lem :
      (token : Token) (now : ℕ) (claims : Fields)
      → decode_claims jwt settings token now ≡ done claims
      → signed_in_with_passkey_of jwt settings token now ≡ is_true (get claims "passkey")
  unfolding signed_in_with_passkey_of
  signed_in_with_passkey_lem token now claims read = ground arith

  -- The session that is built, by the claims of its token.
  session_with-IsCarried :
      (user : User) (token : Token) (now : ℕ) (claims : Fields) (p : AuthenticatedPrincipal)
      → decode_claims jwt settings token now ≡ done claims
      → verify_access_token jwt settings token now ≡ done p
      → has_type claims "access" ≡ true
      → p ≡ principal_of claims p.user_id
      → ((session_with jwt settings lower user token now).federated_login ≡ login_of claims)
        × IsCarried claims (session_with jwt settings lower user token now)
  unfolding session_with principal_of active_role_of authenticated_at_of
  session_with-IsCarried user token now claims p read verified typed same = (
    federated_login_of-login_of token now claims read typed,
    (
      ap (λ r. role_in (read_principal r)) verified
          ∙ ap (λ (q : AuthenticatedPrincipal). q.active_role) same,
      ap (λ r. sign_in_of (read_principal r)) verified
          ∙ ap (λ (q : AuthenticatedPrincipal). q.authenticated_at) same,
      refresh_session_id_lem token now claims read,
      signed_in_with_passkey_lem token now claims read,
    ),
  )

  -- A token that was read has claims, which the library decoded.
  verified_lem :
      (token : Token) (now : ℕ) (p : AuthenticatedPrincipal)
      → verify_access_token jwt settings token now ≡ done p
      → (claims : Fields) × (decode_claims jwt settings token now ≡ done claims)
        × (check_access claims ≡ done p)
  unfolding verify_access_token
  verified_lem token now p e = elim (Result-cases (decode_claims jwt settings token now)) [
    | inl (reason, refused) ↦ absurd (ground arith)
    | inr (claims, read) ↦ (claims, read, ground arith)
  ]

  decoded_lem :
      (token : Token) (now : ℕ) (claims : Fields)
      → decode_claims jwt settings token now ≡ done claims
      → jwt.decode token settings.jwt_secret_key settings.access_token_audience
          settings.access_token_issuer 0 now
        ≡ done claims
  unfolding decode_claims
  decoded_lem token now claims e =
      elim (Result-cases (
        jwt.decode token settings.jwt_secret_key settings.access_token_audience
          settings.access_token_issuer 0 now)) [
            | inl (error, refused) ↦ absurd (ground arith)
            | inr (cs, read) ↦ ground arith
          ]

  not_revoked_lem :
      (db : Database) (token : Token) (now : ℕ) (claims : Fields)
      → decode_claims jwt settings token now ≡ done claims
      → has_type claims "access" ≡ true
      → session_is_revoked jwt settings token db now now ≡ false
      → session_revoked claims db now ≡ false
  unfolding session_is_revoked
  not_revoked_lem db token now claims read typed e = ground arith

  -- What is known of the user, the principal and the token gives a settled session.
  session_with-IsSettled :
      (db : Database) (request : Request) (token : Token) (now : ℕ) (user : User)
      (p : AuthenticatedPrincipal)
      → verify_access_token jwt settings token now ≡ done p
      → is_machine p ≡ false
      → (contains (request.method, request.path) open_during_two_factor_setup
          || not p.two_factor_setup_required)
        ≡ true
      → find user_key p.user_id db.users ≡ some user
      → session_is_revoked jwt settings token db now now ≡ false
      → IsSettled db request token now (session_with jwt settings lower user token now)
  unfolding session_with principal_of
  session_with-IsSettled db request token now user p verified person set_up found standing =
      let (claims, read, checked) = verified_lem token now p verified in
      let (same, personal) = check_access-IsPersonal claims p checked person in
      let typed : has_type claims "access" ≡ true = (check_access_lem claims p checked).0 in
      let (login, carried) =
        session_with-IsCarried user token now claims p read verified typed same in
      let named : subject_of claims ≡ some p.user_id = check_access-subject claims p checked in
      let stands =
        session_revoked-Stands claims db now p.user_id user named found
          (not_revoked_lem db token now claims read typed standing) in
      (
        claims,
        p.user_id,
        decoded_lem token now claims read,
        personal,
        found,
        ap
              (λ (q : AuthenticatedPrincipal).
                contains (request.method, request.path) open_during_two_factor_setup
                || not q.two_factor_setup_required)
              (sym same)
            ∙ set_up,
        subst (Stands claims db now user) (sym login) stands,
        carried,
      )

  -- The routes that write new tokens are reached only with an access token that is in order and is of a person,
  -- whose row is there; who, outside of the routes that set a second factor up, owes none; and whose login was
  -- not ended: the token was not issued before the boundary of the user's sessions, the record of the login
  -- that it names is there and in date, and the identity provider did not end the login that it names. The
  -- session is of that user, of that login at the identity provider, and carries what the token says of the
  -- role, the time and the kind of the sign-in and the record.
  pub current_session-IsSettled :
      (db : Database) (request : Request) (token : Token) (now : ℕ) (audit after : List AuditEvent)
      (session : CurrentSession)
      → current_session jwt settings lower db request (some token) now audit ≡ (done session, after)
      → IsSettled db request token now session
  unfolding current_session
  current_session-IsSettled db request token now audit after session e =
      let (user, gated, standing, told) = session_lem db token now _ session after e in
      let (p, principal, found) = user_lem db _ user after gated in
      let (read, person, set_up) = principal_lem request token now audit after p principal in
      subst (IsSettled db request token now) (sym told)
        (session_with-IsSettled db request token now user p read person set_up found standing)
