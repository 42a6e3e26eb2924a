-- ===== src/Passkeys/SingleUse.antt =====
-- A challenge is good for one sign-in.
use fastapitemplate.Common.Clock.{seconds}
use fastapitemplate.Common.Lists.{All}
use fastapitemplate.Common.Results.{Result, raised, done, committed, Result-cases, and_then}
use fastapitemplate.Common.Table.{find, insert_row, delete_where, delete_key, find-delete_key}
use fastapitemplate.Common.Table.Keys.{find-delete_where-none, find-insert_row}
use fastapitemplate.Common.{
  ℕ, ◌+◌, String, ◌≡◌, refl, sym, ap, ◌∙◌, ◌≢◌, Option, none, some, List, [], ◌∷◌, arith, string_eq,
  nat_eq, option_eq, ltb, ◌⊎◌, ◌==◌, Bool-cases, Option-cases, inl, inr,
}
use fastapitemplate.Passkeys.{
  WebAuthnChallenge, Purpose, authentication, registration, challenge_not_found, challenge_key,
  consume, issue_challenge,
}
use fastapitemplate.Passkeys.Credentials.{
  PasskeySummaryDto, add_credential, update_usage, with_usage,
}
use fastapitemplate.Passkeys.UseCases.{
  Store, VerifiedRegistration, VerifyAuthentication, start_registration, start_authentication,
  complete_registration, complete_authentication, verified_or, stored_credential,
  registered_credential,
}

-- A challenge that is not in the table cannot be consumed.
consume-missing :
    (rows : List WebAuthnChallenge) (id : String) (purpose : Purpose) (now : ℕ)
    → find challenge_key id rows ≡ none
    → consume rows id purpose now ≡ raised challenge_not_found
unfolding consume
consume-missing rows id purpose now missing = ground arith

-- What is consumed is gone, and nothing is added.
consume-gone :
    (rows rows' : List WebAuthnChallenge) (id other : String) (purpose : Purpose) (now : ℕ)
    (c : WebAuthnChallenge)
    → consume rows other purpose now ≡ done (c, rows')
    → ((id ≡ other) ⊎ (find challenge_key id rows ≡ none))
    → find challenge_key id rows' ≡ none
unfolding consume
consume-gone rows rows' id other purpose now c e why =
    let left : delete_key challenge_key other rows ≡ rows' = ground arith in
    ap (find challenge_key id) (sym left)
    ∙ ground (arith, find-delete_key challenge_key other id rows, string_eq.beq_iff other id)

issue-missing :
    (rows rows' : List WebAuthnChallenge) (id : String) (c : WebAuthnChallenge) (now : ℕ)
    → issue_challenge rows c now ≡ done rows'
    → id ≢ c.challenge_id
    → find challenge_key id rows ≡ none
    → find challenge_key id rows' ≡ none
unfolding issue_challenge
issue-missing rows rows' id c now e other missing =
    elim (Option-cases
      (insert_row challenge_key c (delete_where (λ x. ltb x.expires_at now) rows))) [
        | inl taken ↦ absurd (ground arith)
        | inr (out, put) ↦
            let same : out ≡ rows' = ground arith in
            ap (find challenge_key id) (sym same)
            ∙ ground (
              arith,
              find-insert_row challenge_key c id (delete_where (λ x. ltb x.expires_at now) rows) out
                  put,
              find-delete_where-none challenge_key (λ x. ltb x.expires_at now) id rows missing,
              string_eq.beq_iff c.challenge_id id,
            )
      ]

-- A request to the pages of the passkeys, with what the relying party makes of it.
pub data Request : Type 0 where
  begin_registration : (user_id : ℕ) (challenge_id challenge : String) (ttl from now : ℕ) → Request
  begin_sign_in : (challenge_id challenge : String) (ttl from now : ℕ) → Request
  register :
      (verify : String → Option VerifiedRegistration) (user_id : ℕ) (challenge_id : String)
      (transports : List String) (name : Option String) (now id created_at : ℕ)
      → Request
  sign_in :
      (verify : VerifyAuthentication) (challenge_id : String) (credential_id : Option String)
      (now used_at : ℕ)
      → Request

-- The store that an answer leaves.
abbrev pub store_of : {E A S : Type 0} → Result E (A × S) → Result E S
store_of (raised e) = raised e
store_of (done (_, s)) = done s

-- A request that raises is rolled back.
unfoldable pub handle : Store → Request → Store
handle s (begin_registration user_id challenge_id challenge ttl from now) =
    committed s (start_registration s user_id challenge_id challenge ttl from now)
handle s (begin_sign_in challenge_id challenge ttl from now) =
    committed s (start_authentication s challenge_id challenge ttl from now)
handle s (register verify user_id challenge_id transports name now id created_at) = committed s (
    store_of
      (complete_registration verify s user_id challenge_id transports name now id created_at))
handle s (sign_in verify challenge_id credential_id now used_at) =
    committed s (store_of (complete_authentication verify s challenge_id credential_id now used_at))

unfoldable pub serve : Store → List Request → Store
serve s [] = s
serve s (r ∷ rest) = serve (handle s r) rest

-- The identifiers of new challenges are drawn at random: none is drawn again.
abbrev pub IsOtherChallenge : String → Request → Type 0
IsOtherChallenge id (begin_registration user_id challenge_id challenge ttl from now) =
    id ≢ challenge_id
IsOtherChallenge id (begin_sign_in challenge_id challenge ttl from now) = id ≢ challenge_id
IsOtherChallenge id _ = Unit {0}

-- A sign-in that succeeds has consumed its challenge.
signed_in-consumed :
    (verify : VerifyAuthentication) (s s' : Store) (id : String) (credential_id : Option String)
    (now used_at user_id : ℕ)
    → complete_authentication verify s id credential_id now used_at ≡ done (user_id, s')
    → (c : WebAuthnChallenge) × (consume s.challenges id authentication now
        ≡ done (c, s'.challenges))
unfolding complete_authentication
signed_in-consumed verify s s' id credential_id now used_at user_id e =
    elim (Result-cases (consume s.challenges id authentication now)) [
      | inl (_, refused) ↦ absurd (ground arith)
      | inr ((c, rows), taken) ↦
          elim (Result-cases (stored_credential s.credentials credential_id)) [
            | inl (_, refused) ↦ absurd (ground arith)
            | inr (stored, known) ↦
                elim (Result-cases
                  (verified_or (verify c.challenge stored.public_key stored.sign_count))) [
                    | inl (_, refused) ↦ absurd (ground arith)
                    | inr (count, valid) ↦
                        elim (Result-cases
                          (update_usage s.credentials (with_usage stored count used_at))) [
                            | inl (_, refused) ↦ absurd (ground arith)
                            | inr (rows', written) ↦
                                let same : rows ≡ s'.challenges = ground arith in
                                (c, taken ∙ ap (λ r. done (c, r)) same)
                          ]
                  ]
          ]
    ]

registered-consumed :
    (verify : String → Option VerifiedRegistration) (s s' : Store) (user_id : ℕ) (id : String)
    (transports : List String) (name : Option String) (now key created_at : ℕ)
    (added : PasskeySummaryDto)
    → complete_registration verify s user_id id transports name now key created_at
      ≡ done (added, s')
    → (c : WebAuthnChallenge) × (consume s.challenges id registration now ≡ done (c, s'.challenges))
unfolding complete_registration
registered-consumed verify s s' user_id id transports name now key created_at added e =
    elim (Result-cases (consume s.challenges id registration now)) [
      | inl (_, refused) ↦ absurd (ground arith)
      | inr ((c, rows), taken) ↦ elim (Bool-cases (c.user_id == some user_id)) [
        | inr foreign ↦ absurd (ground arith)
        | inl own ↦ elim (Result-cases (verified_or (verify c.challenge))) [
          | inl (_, refused) ↦ absurd (ground arith)
          | inr (v, valid) ↦
              elim (Result-cases (
                add_credential s.credentials (registered_credential user_id v transports name) key
                  created_at)) [
                    | inl (_, refused) ↦ absurd (ground arith)
                    | inr (stored, written) ↦
                        let same : rows ≡ s'.challenges = ground arith in
                        (c, taken ∙ ap (λ r. done (c, r)) same)
                  ]
        ]
      ]
    ]

issued-missing :
    (s : Store) (id : String) (c : WebAuthnChallenge) (now : ℕ)
    → id ≢ c.challenge_id
    → find challenge_key id s.challenges ≡ none
    → find challenge_key id
        (committed s (
          and_then
            (issue_challenge s.challenges c now)
            (λ rows. done (record s { challenges = rows })))).challenges
      ≡ none
issued-missing s id c now fresh missing = elim (Result-cases (issue_challenge s.challenges c now)) [
  | inl (_, refused) ↦ rw (refused, missing)
  | inr (rows, issued) ↦ rw issued (issue-missing s.challenges rows id c now issued fresh missing)
]

-- A challenge that is not in the table stays out of it.
handle-missing :
    (s : Store) (r : Request) (id : String)
    → IsOtherChallenge id r
    → find challenge_key id s.challenges ≡ none
    → find challenge_key id (handle s r).challenges ≡ none
unfolding handle start_registration start_authentication
handle-missing s (begin_registration user_id other challenge ttl from now) id fresh missing =
    issued-missing s id
      (record {
        challenge_id = other;
        challenge = challenge;
        purpose = registration;
        expires_at = from + seconds ttl;
        user_id = some user_id;
      })
      now fresh missing
handle-missing s (begin_sign_in other challenge ttl from now) id fresh missing =
    issued-missing s id
      (record {
        challenge_id = other;
        challenge = challenge;
        purpose = authentication;
        expires_at = from + seconds ttl;
        user_id = none;
      })
      now fresh missing
handle-missing s (register verify user_id other transports name now key created_at) id fresh
      missing =
    elim (Result-cases
      (complete_registration verify s user_id other transports name now key created_at)) [
        | inl (_, refused) ↦ ground arith
        | inr ((added, s'), ok) ↦
            let (c, taken) =
              registered-consumed verify s s' user_id other transports name now key created_at added
                ok in
            let gone =
              consume-gone s.challenges s'.challenges id other registration now c taken
                (inr missing) in
            ground arith
      ]
handle-missing s (sign_in verify other credential_id now used_at) id fresh missing =
    elim (Result-cases (complete_authentication verify s other credential_id now used_at)) [
      | inl (_, refused) ↦ ground arith
      | inr ((user_id, s'), ok) ↦
          let (c, taken) =
            signed_in-consumed verify s s' other credential_id now used_at user_id ok in
          let gone =
            consume-gone s.challenges s'.challenges id other authentication now c taken
              (inr missing) in
          ground arith
    ]

serve-missing :
    (s : Store) (requests : List Request) (id : String)
    → All (IsOtherChallenge id) requests
    → find challenge_key id s.challenges ≡ none
    → find challenge_key id (serve s requests).challenges ≡ none
unfolding serve
serve-missing s [] id all missing = missing
serve-missing s (r ∷ rest) id (fresh, all) missing =
    serve-missing (handle s r) rest id all (handle-missing s r id fresh missing)

sign_in-missing :
    (verify : VerifyAuthentication) (s : Store) (id : String) (credential_id : Option String)
    (now used_at : ℕ)
    → find challenge_key id s.challenges ≡ none
    → complete_authentication verify s id credential_id now used_at ≡ raised challenge_not_found
unfolding complete_authentication
sign_in-missing verify s id credential_id now used_at missing =
    rw (consume-missing s.challenges id authentication now missing)

-- A challenge signs in once: after a sign-in that succeeds, and after any further requests that draw
-- no such identifier for a new challenge, a sign-in with the same challenge is refused, whatever
-- response it presents.
pub signs_in_once :
    (verify verify' : VerifyAuthentication) (s s' : Store) (id : String)
    (credential_id credential_id' : Option String) (now used_at now' used_at' user_id : ℕ)
    (between : List Request)
    → complete_authentication verify s id credential_id now used_at ≡ done (user_id, s')
    → All (IsOtherChallenge id) between
    → complete_authentication verify' (serve s' between) id credential_id' now' used_at'
      ≡ raised challenge_not_found
signs_in_once verify verify' s s' id credential_id credential_id' now used_at now' used_at' user_id
      between ok all =
    let (c, taken) = signed_in-consumed verify s s' id credential_id now used_at user_id ok in
    let gone =
      consume-gone s.challenges s'.challenges id id authentication now c taken (inl refl) in
    sign_in-missing verify' (serve s' between) id credential_id' now' used_at'
      (serve-missing s' between id all gone)
