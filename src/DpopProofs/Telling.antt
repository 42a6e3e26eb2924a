-- ===== src/DpopProofs/Telling.antt =====
-- What a proof tells does not depend on what is asked of it.
use fastapitemplate.Common.Clock.{seconds}
use fastapitemplate.Common.Results.{done, Result-cases}
use fastapitemplate.Common.Value.{Value, Fields, null, boolean, number, text, array, object, get}
use fastapitemplate.Common.{
  ℕ, ◌+◌, ◌≡◌, ap, ◌∙◌, String, false, Option, none, some, ltb, arith, Option-cases, inl, inr,
  string_eq, option_eq,
}
use fastapitemplate.DpopProofs.{
  max_proof_age, DpopProofRequirements, VerifiedDpopProof, ProofLibrary, verify_bound, verify_proof,
  verify_header, verify_claims, verify_target, comparable_uri, check_uri, checked_jti, time_of,
  public_p256, jwk_thumbprint,
}

-- The time that a proof tells.
abbrev pub told_time : Value → Option ℕ
told_time (number iat) = some (seconds iat)
told_time _ = none

time_of-told :
    (v : Value) (now at : ℕ)
    → time_of v now ≡ some at
    → (told_time v ≡ some at) × (ltb (at + max_proof_age) now ≡ false)
unfolding time_of
time_of-told (number iat) now at e = ground arith
time_of-told null now at e = absurd (ground arith)
time_of-told (boolean b) now at e = absurd (ground arith)
time_of-told (text s) now at e = absurd (ground arith)
time_of-told (array items) now at e = absurd (ground arith)
time_of-told (object fields) now at e = absurd (ground arith)

module _ {Token Proof : Type 0} (lib : ProofLibrary Token Proof) where
  verify_target-same :
      (requirements : DpopProofRequirements Token) (claims : Fields) (proof v : VerifiedDpopProof)
      → verify_target lib requirements claims proof ≡ done v
      → proof ≡ v
  unfolding verify_target
  verify_target-same requirements claims proof v e =
      elim (Result-cases (comparable_uri lib requirements.uri)) [
        | inl (error, failed) ↦ absurd (ground arith)
        | inr (expected, read) ↦ elim (Result-cases (check_uri lib (get claims "htu") expected)) [
          | inl (error, failed) ↦ absurd (ground arith)
          | inr (uri, same) ↦ ground arith
        ]
      ]

  -- What a proof tells, whatever is asked of it.
  abbrev pub told_claims : (x y : String) → Fields → Option VerifiedDpopProof
  told_claims x y claims = elim (checked_jti claims) [
    | none ↦ none
    | some jti ↦ elim (told_time (get claims "iat")) [
      | none ↦ none
      | some issued_at ↦
          some (record { jkt = jwk_thumbprint lib x y; jti = jti; issued_at = issued_at })
    ]
  ]

  abbrev pub told_header : Proof → Fields → Option VerifiedDpopProof
  told_header proof header = elim (public_p256 lib (get header "jwk")) [
    | none ↦ none
    | some (x, y) ↦ elim (lib.decode x y proof) [
      | none ↦ none
      | some claims ↦ told_claims x y claims
    ]
  ]

  abbrev pub told : Proof → Option VerifiedDpopProof
  told proof = elim (lib.get_unverified_header proof) [
    | none ↦ none
    | some header ↦ told_header proof header
  ]

  -- A proof that is accepted tells no more than what stands in it, and its time is not over.
  abbrev pub IsTold : Option VerifiedDpopProof → (now : ℕ) → VerifiedDpopProof → Type 0
  IsTold said now v = (said ≡ some v) × (ltb (v.issued_at + max_proof_age) now ≡ false)

  verify_claims-IsTold :
      (requirements : DpopProofRequirements Token) (x y : String) (claims : Fields)
      (v : VerifiedDpopProof)
      → verify_claims lib requirements x y claims ≡ done v
      → IsTold (told_claims x y claims) requirements.now v
  unfolding verify_claims
  verify_claims-IsTold requirements x y claims v e = elim (Option-cases (checked_jti claims)) [
    | inl missing ↦ absurd (ground arith)
    | inr (jti, named) ↦ elim (Option-cases (time_of (get claims "iat") requirements.now)) [
      | inl late ↦ absurd (ground arith)
      | inr (at, timed) ↦
          let (said, fresh) = time_of-told (get claims "iat") requirements.now at timed in
          let same =
            verify_target-same requirements claims
              (record { jkt = jwk_thumbprint lib x y; jti = jti; issued_at = at }) v
              (ground arith) in
          rw (named, said, told_claims)
            (ap some same, ground (arith, ap (λ (p : VerifiedDpopProof). p.issued_at) same))
    ]
  ]

  verify_header-IsTold :
      (proof : Proof) (requirements : DpopProofRequirements Token) (header : Fields)
      (v : VerifiedDpopProof)
      → verify_header lib proof requirements header ≡ done v
      → IsTold (told_header proof header) requirements.now v
  unfolding verify_header
  verify_header-IsTold proof requirements header v e =
      elim (Option-cases (public_p256 lib (get header "jwk"))) [
        | inl no_key ↦ absurd (ground arith)
        | inr ((x, y), key) ↦ elim (Option-cases (lib.decode x y proof)) [
          | inl unsigned ↦ absurd (ground arith)
          | inr (claims, signed) ↦
              let (said, fresh) = verify_claims-IsTold requirements x y claims v (ground arith) in
              rw (key, signed, told_header) (said, fresh)
        ]
      ]

  verify_proof-IsTold :
      (proof : Proof) (requirements : DpopProofRequirements Token) (v : VerifiedDpopProof)
      → verify_proof lib proof requirements ≡ done v
      → IsTold (told proof) requirements.now v
  unfolding verify_proof
  verify_proof-IsTold proof requirements v e =
      elim (Option-cases (lib.get_unverified_header proof)) [
        | inl unread ↦ absurd (ground arith)
        | inr (header, read) ↦
            let (said, fresh) = verify_header-IsTold proof requirements header v (ground arith) in
            rw (read, told) (said, fresh)
      ]

  pub verify_bound-IsTold :
      (bound_key : String) (proof : Proof) (requirements : DpopProofRequirements Token)
      (v : VerifiedDpopProof)
      → verify_bound lib bound_key proof requirements ≡ done v
      → IsTold (told proof) requirements.now v
  unfolding verify_bound
  verify_bound-IsTold bound_key proof requirements v e =
      elim (Result-cases (verify_proof lib proof requirements)) [
        | inl (error, refused) ↦ absurd (ground arith)
        | inr (w, verified) ↦
            verify_proof-IsTold proof requirements v (verified ∙ ap done (ground arith))
      ]
