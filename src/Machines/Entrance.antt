-- ===== src/Machines/Entrance.antt =====
-- Who gets a token of this application as a machine.
use fastapitemplate.Audit.{AuditEvent}
use fastapitemplate.Common.Results.{Result, raised, done, Result-cases}
use fastapitemplate.Common.Table.{find, key-find, IsKeyed}
use fastapitemplate.Common.Text.{is_empty}
use fastapitemplate.Common.Value.{Fields, get, as_text}
use fastapitemplate.Common.{
  ℕ, ◌≡◌, refl, ◌∙◌, sym, ap, subst, String, true, false, not, ◌&&◌, Option, some, List, [], ◌∷◌,
  or_else, arith, string_eq, nat_eq, option_eq, ◌==◌, Option-cases, Bool-cases, inl, inr,
}
use fastapitemplate.Machines.{
  MachineClient, MachineError, MachineEntrance, MachineSession, issued, client_key, from_claims,
  find_machine_client, act_as, active_user_id, exchange_claims, exchange_machine_token, exchange_at,
  answer_exchange, issue_for, issue_machine_token, refused,
}
use fastapitemplate.Tokens.{Jwt, TokenSettings, MachineAccessToken, create_machine_access_token}
use fastapitemplate.Users.{User, Tenant, user_key}
use fastapitemplate.Users.Directory.{account_with_email, tenant_issuing}

account-seat :
    (users : List User) (email : String) (seat : Option ℕ) (user : User)
    → IsKeyed user_key users
    → account_with_email users email seat ≡ some user
    → (find user_key user.id users ≡ some user) × (user.email ≡ email) × (user.tenant_id ≡ seat)
unfolding account_with_email find
account-seat [] email seat user keyed e = absurd (cc)
account-seat (u ∷ users) email seat user (fresh, keyed) e =
    elim (Bool-cases (u.tenant_id == seat && u.email == email)) [
      | inl here ↦
          let same : u ≡ user = ground arith in
          subst
            (λ x.
              (find user_key x.id (u ∷ users) ≡ some x) × (x.email ≡ email) × (x.tenant_id ≡ seat))
            same
            (
              ground (arith, nat_eq.beq_iff u.id u.id),
              ground (arith, string_eq.beq_iff u.email email),
              ground (arith, option_eq.beq_iff u.tenant_id seat),
            )
      | inr other ↦
          let (found, address, in_seat) = account-seat users email seat user keyed (ground arith) in
          (
            elim (Bool-cases (u.id == user.id)) [
              | inr apart ↦ ground arith
              | inl same ↦ absurd (
                  ground (
                    arith,
                    nat_eq.beq_iff u.id user.id,
                    ap (λ k. find user_key k users) ((nat_eq.beq_iff u.id user.id).0 same),
                  ))
            ],
            address,
            in_seat,
          )
    ]

from_claims-named :
    (claims : Fields) (client_id : String)
    → from_claims claims ≡ done client_id
    → is_empty client_id ≡ false
unfolding from_claims
from_claims-named claims client_id e = elim (Option-cases (as_text (get claims "sub"))) [
  | inl missing ↦ absurd (ground arith)
  | inr (subject, there) ↦ elim (Bool-cases (is_empty subject)) [
    | inl blank ↦ absurd (ground arith)
    | inr named ↦ ground arith
  ]
]

-- What stands behind a session of a machine in a tenant.
abbrev pub ActsAs : List User → List MachineClient → (tenant_id : ℕ) → MachineSession → Type 0
ActsAs users clients tenant_id session =
    (find client_key session.client.client_id clients ≡ some session.client)
    × ((user : User) × (find user_key session.user_id users ≡ some user)
        × (user.email ≡ session.client.acts_as)
        × (user.tenant_id ≡ some tenant_id)
        × (user.is_active ≡ true))

act_as-ActsAs :
    (users : List User) (clients : List MachineClient) (tenant_id : ℕ) (client_id : String)
    (session : MachineSession)
    → IsKeyed user_key users
    → act_as users tenant_id client_id (find_machine_client clients client_id) ≡ done session
    → (session.client.client_id ≡ client_id) × ActsAs users clients tenant_id session
unfolding act_as active_user_id find_machine_client
act_as-ActsAs users clients tenant_id client_id session keyed e =
    elim (Option-cases (find client_key client_id clients)) [
      | inl missing ↦ absurd (ground arith)
      | inr (client, listed) ↦
          elim (Option-cases (account_with_email users client.acts_as (some tenant_id))) [
            | inl nobody ↦ absurd (ground arith)
            | inr (user, account) ↦ elim (Bool-cases user.is_active) [
              | inr inactive ↦ absurd (ground arith)
              | inl active ↦
                  let (found, address, seat) =
                    account-seat users client.acts_as (some tenant_id) user keyed account in
                  let named = key-find client_key client_id clients client listed in
                  let is_session : record { user_id = user.id; client = client } ≡ session =
                    ground arith in
                  subst (λ s. (s.client.client_id ≡ client_id) × ActsAs users clients tenant_id s)
                    is_session
                    (
                      named,
                      (
                        ap (λ k. find client_key k clients) named ∙ listed,
                        (user, found, address, seat, active),
                      ),
                    )
            ]
          ]
    ]

module _ {Token : Type 0} (jwt : Jwt Token) (settings : TokenSettings)
    (unverified_issuer_of : Token → String)
    (verify_machine_token : (issuer audience : String) → Token → Result MachineError Fields) where
  -- A token that the gateway accepts of the issuer of an open tenant, and that names a machine which may
  -- act as an active user of that tenant.
  abbrev pub IsEntitled :
      MachineEntrance → List User → List Tenant → Token → MachineSession → Type 0
  IsEntitled entrance users tenants token session =
      (is_empty session.client.client_id ≡ false)
      × ((tenant : Tenant) × (claims : Fields) × (tenant_issuing tenants
              (unverified_issuer_of token)
            ≡ some tenant)
          × (tenant.is_active ≡ true)
          × (verify_machine_token (or_else tenant.issuer "") entrance.audience token ≡ done claims)
          × (from_claims claims ≡ done session.client.client_id)
          × ActsAs users entrance.clients tenant.id session)

  exchange_claims_lem :
      (entrance : MachineEntrance) (users : List User) (tenant_id : ℕ)
      (checked : Result MachineError Fields) (session : MachineSession)
      → IsKeyed user_key users
      → exchange_claims jwt settings unverified_issuer_of verify_machine_token entrance users
          tenant_id checked
        ≡ done session
      → (claims : Fields) × (checked ≡ done claims)
        × (from_claims claims ≡ done session.client.client_id)
        × ActsAs users entrance.clients tenant_id session
  unfolding exchange_claims
  exchange_claims_lem entrance users tenant_id (raised error) session keyed e = absurd (cc)
  exchange_claims_lem entrance users tenant_id (done claims) session keyed e =
      elim (Result-cases (from_claims claims)) [
        | inl (error, refusal) ↦ absurd (ground arith)
        | inr (client_id, named) ↦
            let (same, entitled) =
              act_as-ActsAs users entrance.clients tenant_id client_id session keyed
                (ground arith) in
            (claims, refl, named ∙ ap done (sym same), entitled)
      ]

  exchange_machine_token_lem :
      (entrance : MachineEntrance) (issuer : String) (users : List User) (tenant_id : ℕ)
      (token : Token) (session : MachineSession)
      → exchange_machine_token jwt settings unverified_issuer_of verify_machine_token entrance
          issuer users tenant_id token
        ≡ done session
      → exchange_claims jwt settings unverified_issuer_of verify_machine_token entrance users
          tenant_id
          (verify_machine_token issuer entrance.audience token)
        ≡ done session
  unfolding exchange_machine_token
  exchange_machine_token_lem entrance issuer users tenant_id token session e = ground arith

  unlisted-refused :
      (entrance : MachineEntrance) (users : List User) (token : Token) (session : MachineSession)
      → ¬ (
          exchange_machine_token jwt settings unverified_issuer_of verify_machine_token entrance ""
            users 0 token
          ≡ done session)
  unfolding exchange_machine_token
  unlisted-refused entrance users token session e = ground arith

  exchange_at-IsEntitled :
      (entrance : MachineEntrance) (users : List User) (tenants : List Tenant) (token : Token)
      (session : MachineSession)
      → IsKeyed user_key users
      → exchange_at jwt settings unverified_issuer_of verify_machine_token entrance users
          (tenant_issuing tenants (unverified_issuer_of token))
          token
        ≡ done session
      → IsEntitled entrance users tenants token session
  unfolding exchange_at
  exchange_at-IsEntitled entrance users tenants token session keyed e =
      elim (Option-cases (tenant_issuing tenants (unverified_issuer_of token))) [
        | inl unknown ↦ absurd (unlisted-refused entrance users token session (ground arith))
        | inr (tenant, known) ↦
            elim (Bool-cases (tenant.is_active && not (is_empty (or_else tenant.issuer "")))) [
              | inr unusable ↦ absurd (unlisted-refused entrance users token session (ground arith))
              | inl usable ↦
                  let (claims, checked, named, entitled) =
                    exchange_claims_lem entrance users tenant.id _ session keyed (
                      exchange_machine_token_lem entrance (or_else tenant.issuer "") users tenant.id
                        token session (ground arith)) in
                  (
                    from_claims-named claims session.client.client_id named,
                    (tenant, claims, known, ground arith, checked, named, entitled),
                  )
            ]
      ]

  -- What the machine is answered: a token for the user and the operations of its row.
  abbrev pub IsIssued : List User → (now : ℕ) → MachineSession → MachineAccessToken Token → Type 0
  IsIssued users now session answer =
      (user : User) × (find user_key session.user_id users ≡ some user)
      × (answer
          ≡ create_machine_access_token jwt settings user session.client.client_id
              session.client.operations now)

  issue_for-IsIssued :
      (users : List User) (audit after : List AuditEvent) (now : ℕ) (session : MachineSession)
      (answer : MachineAccessToken Token) (acts_as client_name : String)
      → issue_for jwt settings unverified_issuer_of verify_machine_token users audit now session
        ≡ (issued answer acts_as client_name, after)
      → IsIssued users now session answer
  unfolding issue_for
  issue_for-IsIssued users audit after now session answer acts_as client_name e =
      elim (Option-cases (find user_key session.user_id users)) [
        | inl missing ↦ absurd (ground arith)
        | inr (user, found) ↦ (user, found, ground arith)
      ]

  answer_exchange-IsIssued :
      (users : List User) (audit after : List AuditEvent) (now : ℕ)
      (exchanged : Result MachineError MachineSession) (answer : MachineAccessToken Token)
      (acts_as client_name : String)
      → answer_exchange jwt settings unverified_issuer_of verify_machine_token users audit now
          exchanged
        ≡ (issued answer acts_as client_name, after)
      → (session : MachineSession) × (exchanged ≡ done session) × IsIssued users now session answer
  unfolding answer_exchange refused
  answer_exchange-IsIssued users audit after now (raised MachineError.machine_entrance_closed)
        answer a n e =
      absurd (cc)
  answer_exchange-IsIssued users audit after now (raised MachineError.machine_token_invalid) answer
        a n e =
      absurd (cc)
  answer_exchange-IsIssued users audit after now (raised MachineError.identity_provider_unavailable)
        answer a n e =
      absurd (cc)
  answer_exchange-IsIssued users audit after now
        (raised (MachineError.machine_client_not_registered c)) answer a n e =
      absurd (cc)
  answer_exchange-IsIssued users audit after now (raised (MachineError.machine_actor_not_found c))
        answer a n e =
      absurd (cc)
  answer_exchange-IsIssued users audit after now (done session) answer a n e =
      (session, refl, issue_for-IsIssued users audit after now session answer a n e)

  -- A machine that gets a token was vouched for: its own token was accepted from the issuer of a tenant
  -- that is open, it names a client that is on the list, the list lets that client act as a user who is
  -- active and belongs to the same tenant, and the token that it gets is of that user and for the
  -- operations of that row. The identifiers of users are unique.
  pub issue-IsEntitled :
      (entrance : MachineEntrance) (users : List User) (tenants : List Tenant)
      (audit after : List AuditEvent) (now : ℕ) (token : Token) (answer : MachineAccessToken Token)
      (acts_as client_name : String)
      → IsKeyed user_key users
      → issue_machine_token jwt settings unverified_issuer_of verify_machine_token entrance users
          tenants audit now
          (some token)
        ≡ (issued answer acts_as client_name, after)
      → (session : MachineSession) × IsEntitled entrance users tenants token session
        × IsIssued users now session answer
  unfolding issue_machine_token
  issue-IsEntitled entrance users tenants audit after now token answer acts_as client_name keyed e =
      let (session, exchanged, given) =
        answer_exchange-IsIssued users audit after now _ answer acts_as client_name e in
      (session, exchange_at-IsEntitled entrance users tenants token session keyed exchanged, given)
