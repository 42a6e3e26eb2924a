-- ===== src/Passkeys/Owners.antt =====
-- The user whom a passkey signs in.
use fastapitemplate.Common.Clock.{seconds}
use fastapitemplate.Common.Results.{and_then, done, committed, Result-cases}
use fastapitemplate.Common.Table.{find, update_where, find-append, find-update_where}
use fastapitemplate.Common.{
  ℕ, ◌+◌, String, ◌≡◌, refl, subst, Bool, Option, none, some, List, [], ◌∷◌, ◌++◌, arith, string_eq,
  nat_eq, option_eq, ◌==◌, Bool-cases, Option-cases, inl, inr,
}
use fastapitemplate.Passkeys.{
  WebAuthnChallenge, issue_challenge, consume, authentication, registration,
}
use fastapitemplate.Passkeys.Credentials.{
  PasskeySummaryDto, PasskeyCredential, credential_key, add_credential, update_usage, with_usage,
  overwritten,
}
use fastapitemplate.Passkeys.UseCases.{
  Store, start_registration, start_authentication, VerifiedRegistration, VerifyAuthentication,
  complete_registration, complete_authentication, verified_or, stored_credential,
  registered_credential,
}
use fastapitemplate.Passkeys.SingleUse.{
  Request, begin_registration, begin_sign_in, register, sign_in, handle, serve,
}
use mathlib.Core.Option

-- The user to whom a credential belongs.
abbrev pub owner_of : List PasskeyCredential → String → Option ℕ
owner_of rows k = Option.map (λ c. c.user_id) (find credential_key k rows)

added-owner :
    (rows rows' : List PasskeyCredential) (c added : PasskeyCredential) (id created_at user_id : ℕ)
    (k : String)
    → add_credential rows c id created_at ≡ done (added, rows')
    → owner_of rows k ≡ some user_id
    → owner_of rows' k ≡ some user_id
unfolding add_credential overwritten
added-owner rows rows' c added id created_at user_id k e owned =
    elim (Option-cases (find credential_key c.credential_id rows)) [
      | inl new ↦
          let row : PasskeyCredential = record c {
            last_used_at = none;
            created_at = some created_at;
            id = some id;
          } in
          let same : rows ++ row ∷ [] ≡ rows' = ground arith in
          subst (λ x. owner_of x k ≡ some user_id) same
            (ground (arith, find-append credential_key k rows row))
      | inr (existing, there) ↦ elim (Bool-cases (existing.user_id == c.user_id)) [
        | inr foreign ↦ absurd (ground arith)
        | inl own ↦
            let p : PasskeyCredential → Bool = λ r. r.credential_id == c.credential_id in
            let same : update_where p (overwritten c) rows ≡ rows' = ground arith in
            subst (λ x. owner_of x k ≡ some user_id) same
              (ground
                (arith, find-update_where credential_key p (overwritten c) k rows (λ r. refl)))
      ]
    ]

used-owner :
    (rows rows' : List PasskeyCredential) (c : PasskeyCredential) (user_id : ℕ) (k : String)
    → update_usage rows c ≡ done rows'
    → owner_of rows k ≡ some user_id
    → owner_of rows' k ≡ some user_id
unfolding update_usage
used-owner rows rows' c user_id k e owned =
    let p : PasskeyCredential → Bool = λ r. r.credential_id == c.credential_id in
    let f : PasskeyCredential → PasskeyCredential =
      λ r. record r { sign_count = c.sign_count; last_used_at = c.last_used_at } in
    elim (Option-cases (find credential_key c.credential_id rows)) [
      | inl missing ↦ absurd (ground arith)
      | inr (existing, there) ↦
          let same : update_where p f rows ≡ rows' = ground arith in
          subst (λ x. owner_of x k ≡ some user_id) same
            (ground (arith, find-update_where credential_key p f k rows (λ r. refl)))
    ]

-- What the use cases leave of the credentials is what one write of them leaves.
signed_in-owner :
    (verify : VerifyAuthentication) (s s' : Store) (id : String) (credential_id : Option String)
    (now used_at user_id owner : ℕ) (k : String)
    → complete_authentication verify s id credential_id now used_at ≡ done (user_id, s')
    → owner_of s.credentials k ≡ some owner
    → owner_of s'.credentials k ≡ some owner
unfolding complete_authentication
signed_in-owner verify s s' id credential_id now used_at user_id owner k e owned =
    elim (Result-cases (consume s.challenges id authentication now)) [
      | inl (_, refused) ↦ absurd (ground arith)
      | inr ((c, rows), taken) ↦
          elim (Result-cases (stored_credential s.credentials credential_id)) [
            | inl (_, refused) ↦ absurd (ground arith)
            | inr (stored, known) ↦
                elim (Result-cases
                  (verified_or (verify c.challenge stored.public_key stored.sign_count))) [
                    | inl (_, refused) ↦ absurd (ground arith)
                    | inr (count, valid) ↦
                        elim (Result-cases
                          (update_usage s.credentials (with_usage stored count used_at))) [
                            | inl (_, refused) ↦ absurd (ground arith)
                            | inr (rows', written) ↦
                                let same : rows' ≡ s'.credentials = ground arith in
                                subst (λ x. owner_of x k ≡ some owner) same
                                  (used-owner s.credentials rows' (with_usage stored count used_at)
                                    owner k written owned)
                          ]
                  ]
          ]
    ]

registered-owner :
    (verify : String → Option VerifiedRegistration) (s s' : Store) (user_id : ℕ) (id : String)
    (transports : List String) (name : Option String) (now key created_at : ℕ)
    (added : PasskeySummaryDto) (owner : ℕ) (k : String)
    → complete_registration verify s user_id id transports name now key created_at
      ≡ done (added, s')
    → owner_of s.credentials k ≡ some owner
    → owner_of s'.credentials k ≡ some owner
unfolding complete_registration
registered-owner verify s s' user_id id transports name now key created_at added owner k e owned =
    elim (Result-cases (consume s.challenges id registration now)) [
      | inl (_, refused) ↦ absurd (ground arith)
      | inr ((c, rows), taken) ↦ elim (Bool-cases (c.user_id == some user_id)) [
        | inr foreign ↦ absurd (ground arith)
        | inl own ↦ elim (Result-cases (verified_or (verify c.challenge))) [
          | inl (_, refused) ↦ absurd (ground arith)
          | inr (v, valid) ↦
              let r = registered_credential user_id v transports name in
              elim (Result-cases (add_credential s.credentials r key created_at)) [
                | inl (_, refused) ↦ absurd (ground arith)
                | inr ((stored, rows'), written) ↦
                    let same : rows' ≡ s'.credentials = ground arith in
                    subst (λ x. owner_of x k ≡ some owner) same
                      (added-owner s.credentials rows' r stored key created_at owner k written
                        owned)
              ]
        ]
      ]
    ]

issued-owner :
    (s : Store) (c : WebAuthnChallenge) (now owner : ℕ) (k : String)
    → owner_of s.credentials k ≡ some owner
    → owner_of
        (committed s (
          and_then
            (issue_challenge s.challenges c now)
            (λ rows. done (record s { challenges = rows })))).credentials
        k
      ≡ some owner
issued-owner s c now owner k owned = elim (Result-cases (issue_challenge s.challenges c now)) [
  | inl (_, refused) ↦ rw (refused, owned)
  | inr (rows, issued) ↦ rw (issued, owned)
]

handle-owner :
    (s : Store) (r : Request) (owner : ℕ) (k : String)
    → owner_of s.credentials k ≡ some owner
    → owner_of (handle s r).credentials k ≡ some owner
unfolding handle start_registration start_authentication
handle-owner s (begin_registration user_id other challenge ttl from now) owner k owned =
    issued-owner s
      (record {
        challenge_id = other;
        challenge = challenge;
        purpose = registration;
        expires_at = from + seconds ttl;
        user_id = some user_id;
      })
      now owner k owned
handle-owner s (begin_sign_in other challenge ttl from now) owner k owned =
    issued-owner s
      (record {
        challenge_id = other;
        challenge = challenge;
        purpose = authentication;
        expires_at = from + seconds ttl;
        user_id = none;
      })
      now owner k owned
handle-owner s (register verify user_id other transports name now key created_at) owner k owned =
    elim (Result-cases
      (complete_registration verify s user_id other transports name now key created_at)) [
        | inl (_, refused) ↦ rw (refused, owned)
        | inr ((added, s'), ok) ↦ rw ok (
            registered-owner verify s s' user_id other transports name now key created_at added
              owner k ok owned)
      ]
handle-owner s (sign_in verify other credential_id now used_at) owner k owned =
    elim (Result-cases (complete_authentication verify s other credential_id now used_at)) [
      | inl (_, refused) ↦ rw (refused, owned)
      | inr ((user_id, s'), ok) ↦
          rw ok
            (signed_in-owner verify s s' other credential_id now used_at user_id owner k ok owned)
    ]

-- A passkey is never taken over: whatever is requested to register passkeys and to sign in with them,
-- by anyone and with any response, a credential goes on belonging to the user who registered it.
pub owner-stays :
    (s : Store) (requests : List Request) (owner : ℕ) (k : String)
    → owner_of s.credentials k ≡ some owner
    → owner_of (serve s requests).credentials k ≡ some owner
unfolding serve
owner-stays s [] owner k owned = owned
owner-stays s (r ∷ rest) owner k owned =
    owner-stays (handle s r) rest owner k (handle-owner s r owner k owned)
