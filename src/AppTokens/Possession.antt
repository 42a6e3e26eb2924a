-- ===== src/AppTokens/Possession.antt =====
-- Who is accepted as a user of an application.
use fastapitemplate.Accounts.{Policies, Write}
use fastapitemplate.Accounts.Mapping.{ClaimsMapping}
use fastapitemplate.Common.Clock.{second}
use fastapitemplate.Common.Lists.{contains}
use fastapitemplate.Common.Results.{Result, raised, done, Result-cases}
use fastapitemplate.Common.Text.{is_empty}
use fastapitemplate.Common.Value.{
  Value, Fields, null, boolean, number, text, array, object, get, has,
}
use fastapitemplate.Common.{
  ℕ, ◌*◌, ◌≡◌, refl, subst, sym, ap, ◌∙◌, ◌⊎◌, String, true, false, Option, none, some, List, arith,
  Bool-cases, Option-cases, inl, inr, string_eq,
}
use fastapitemplate.DpopProofs.{ProofError, ProofLibrary, DpopProofReplay}
use fastapitemplate.DpopProofs.Signed.{IsProof, prove_possession-IsProof}
use fastapitemplate.Revocations.{SessionRevocation, is_revoked}
use fastapitemplate.AppTokens.{
  AppTokenAcceptance, PresentedAppToken, AppTokenGateway, AppTables, bound_key, key_in, bound_in,
  int_of, because_of, text_of, check_possession, accepted_subject, authenticate_claims,
  authenticate_app,
}

module _ {Token Proof : Type 0} (lib : ProofLibrary Token Proof) (gateway : AppTokenGateway Token)
    (show : Value → String) (lower : String → String) (mapping : ClaimsMapping)
    (policies : Policies) where
  -- The claims name a key: `cnf` is a mapping, whose `jkt` is a text that is not empty.
  abbrev pub NamesKey : Fields → (key : String) → Type 0
  NamesKey claims key =
      (confirmation : Fields) × (get claims "cnf" ≡ object confirmation)
      × (get confirmation "jkt" ≡ text key)
      × (is_empty key ≡ false)

  -- How the token was presented, and the table of used proofs that is left: a token that names a key came
  -- with a proof by that key, which is used now; one that says nothing of a key came as a bearer token.
  abbrev pub IsHeld :
      List DpopProofReplay
      → List DpopProofReplay
      → PresentedAppToken Token Proof
      → Fields
      → (checked_at recorded_at : ℕ) → Type 0
  IsHeld before after presented claims checked_at recorded_at =
      ((get claims "cnf" ≡ null) × (presented.dpop ≡ false) × (before ≡ after))
      ⊎ ((key : String) × (proof : Proof) × NamesKey claims key
          × (presented.dpop ≡ true)
          × (presented.proof ≡ some proof)
          × IsProof lib before after key proof
              (record {
                method = presented.method;
                uri = presented.uri;
                access_token = presented.token;
                now = checked_at;
              })
              recorded_at)

  -- Whom the claims are about: a person, by an application of the list, whose login was not ended.
  abbrev pub IsPerson :
      AppTokenAcceptance → List SessionRevocation → Fields → (subject : String) → Type 0
  IsPerson acceptance revocations claims subject =
      (text_of lib gateway show lower mapping policies (get claims "sub") ≡ subject)
      × (is_empty subject ≡ false)
      × (has claims "sub_type" ≡ false)
      × (contains (text_of lib gateway show lower mapping policies (get claims "client_id"))
            acceptance.client_ids
          ≡ true)
      × ((iat : ℕ) × (int_of (get claims "iat") ≡ some iat)
          × (is_revoked revocations (record {
            session = record { issuer = acceptance.issuer; subject = subject; session_id = none };
            started_at = iat * second;
          })
              ≡ false))

  because-done : {A : Type 0} (r : Result ProofError A) (a : A) → because_of r ≡ done a → r ≡ done a
  because-done (raised error) a e = absurd (cc)
  because-done (done b) a e = ground arith

  key_in-text :
      (v : Value) (bound : Option String)
      → key_in v ≡ done bound
      → (key : String) × (bound ≡ some key) × (v ≡ text key) × (is_empty key ≡ false)
  key_in-text (text key) bound e = (key, ground arith, refl, ground arith)
  key_in-text null bound e = absurd (cc)
  key_in-text (boolean b) bound e = absurd (cc)
  key_in-text (number n) bound e = absurd (cc)
  key_in-text (array items) bound e = absurd (cc)
  key_in-text (object fields) bound e = absurd (cc)

  -- What the claims say of a key, by what was read of them.
  abbrev Names : Value → Option String → Type 0
  Names v none = v ≡ null
  Names v (some key) =
      (confirmation : Fields) × (v ≡ object confirmation)
      × (get confirmation "jkt" ≡ text key)
      × (is_empty key ≡ false)

  bound_in-Names : (v : Value) (bound : Option String) → bound_in v ≡ done bound → Names v bound
  bound_in-Names null none e = refl
  bound_in-Names null (some key) e = absurd (cc)
  bound_in-Names (object confirmation) bound e =
      let (key, same, named, given) = key_in-text (get confirmation "jkt") bound e in
      subst (Names (object confirmation)) (sym same) (confirmation, refl, named, given)
  bound_in-Names (boolean b) bound e = absurd (cc)
  bound_in-Names (number n) bound e = absurd (cc)
  bound_in-Names (text s) bound e = absurd (cc)
  bound_in-Names (array items) bound e = absurd (cc)

  bound_key-Names :
      (claims : Fields) (bound : Option String)
      → bound_key claims ≡ done bound
      → Names (get claims "cnf") bound
  unfolding bound_key
  bound_key-Names claims bound e = bound_in-Names (get claims "cnf") bound e

  check_possession-IsHeld :
      (before after : List DpopProofReplay) (presented : PresentedAppToken Token Proof)
      (claims : Fields) (bound : Option String) (checked_at recorded_at : ℕ)
      → Names (get claims "cnf") bound
      → check_possession lib gateway show lower mapping policies before presented bound checked_at
          recorded_at
        ≡ done after
      → IsHeld before after presented claims checked_at recorded_at
  unfolding check_possession
  check_possession-IsHeld before after presented claims none checked_at recorded_at named e =
      elim (Bool-cases presented.dpop) [
        | inl dpop ↦ absurd (ground arith)
        | inr bearer ↦ inl (named, bearer, ground arith)
      ]
  check_possession-IsHeld before after presented claims (some key) checked_at recorded_at named e =
      elim (Bool-cases presented.dpop) [
        | inr bearer ↦ absurd (ground arith)
        | inl dpop ↦ elim (Option-cases presented.proof) [
          | inl missing ↦ absurd (ground arith)
          | inr (proof, given) ↦ inr (
            key,
            proof,
            named,
            dpop,
            given,
            prove_possession-IsProof lib before after key proof
                (record {
                  method = presented.method;
                  uri = presented.uri;
                  access_token = presented.token;
                  now = checked_at;
                })
                recorded_at (because-done _ after (sym (ground arith) ∙ e)),
          )
        ]
      ]

  accepted_subject-IsPerson :
      (acceptance : AppTokenAcceptance) (revocations : List SessionRevocation) (claims : Fields)
      (subject : String)
      → accepted_subject lib gateway show lower mapping policies acceptance revocations claims
        ≡ done subject
      → IsPerson acceptance revocations claims subject
  unfolding accepted_subject
  accepted_subject-IsPerson acceptance revocations claims subject e =
      elim (Option-cases (int_of (get claims "iat"))) [
        | inl unread ↦ absurd (ground arith)
        | inr (iat, read) ↦
            (ground arith, ground arith, ground arith, ground arith, (iat, read, ground arith))
      ]

  -- The token of an application is accepted only as it was issued. Its claims were read from a token of the
  -- issuer, which is not empty. Either they say nothing of a key, and it came as a bearer token; or they name
  -- a key, and it came with a proof that is signed with a key of that thumbprint, that was made for the method
  -- and the address of the request and for this token at most 120 seconds before, and that was not noted as
  -- used and now is. The token is of a person, not of a machine, by an application of the list; and the login
  -- that it is of was not ended.
  pub authenticate_app-IsHeld :
      (acceptance : AppTokenAcceptance) (tables : AppTables)
      (presented : PresentedAppToken Token Proof) (checked_at recorded_at user_id : ℕ)
      (writes : List Write) (replays : List DpopProofReplay)
      → authenticate_app lib gateway show lower mapping policies acceptance tables presented
          checked_at recorded_at
        ≡ done ((user_id, writes), replays)
      → (claims : Fields) × (subject : String) × (is_empty acceptance.issuer ≡ false)
        × (gateway.verify_app_token acceptance.issuer presented.token ≡ done claims)
        × IsHeld tables.replays replays presented claims checked_at recorded_at
        × IsPerson acceptance tables.revocations claims subject
  unfolding authenticate_app authenticate_claims
  authenticate_app-IsHeld acceptance tables presented checked_at recorded_at user_id writes replays
        e =
      elim (Result-cases (gateway.verify_app_token acceptance.issuer presented.token)) [
        | inl (error, unread) ↦ absurd (ground arith)
        | inr (claims, read) ↦ elim (Result-cases (bound_key claims)) [
          | inl (error, unbound) ↦ absurd (ground arith)
          | inr (bound, named) ↦
              elim (Result-cases (
                check_possession lib gateway show lower mapping policies tables.replays presented
                  bound checked_at recorded_at)) [
                    | inl (error, unheld) ↦ absurd (ground arith)
                    | inr (after, held) ↦
                        elim (Result-cases (
                          accepted_subject lib gateway show lower mapping policies acceptance
                            tables.revocations claims)) [
                              | inl (error, refused) ↦ absurd (ground arith)
                              | inr (subject, accepted) ↦ (
                                claims,
                                subject,
                                ground arith,
                                read,
                                check_possession-IsHeld tables.replays replays presented claims
                                    bound checked_at recorded_at
                                    (bound_key-Names claims bound named)
                                    (held ∙ ap done (ground arith)),
                                accepted_subject-IsPerson acceptance tables.revocations claims
                                    subject accepted,
                              )
                            ]
                  ]
        ]
      ]
