-- ===== src/DpopProofs/Said.antt =====
-- What a proof says once it is verified: the key, the time and the request that it was made for.
use fastapitemplate.Common.Clock.{second}
use fastapitemplate.Common.Results.{done, Result-cases}
use fastapitemplate.Common.Text.{is_empty}
use fastapitemplate.Common.Value.{
  Value, Fields, null, boolean, number, text, array, object, empty, field, get, has, as_text,
}
use fastapitemplate.Common.{
  ℕ, ◌+◌, ◌*◌, ◌≤◌, ◌≡◌, refl, ap, ◌∙◌, subst, String, true, false, Option, none, some, arith,
  Option-cases, inl, inr, string_eq, option_eq, ◌==◌,
}
use fastapitemplate.DpopProofs.{
  DpopProofRequirements, VerifiedDpopProof, ProofLibrary, jwk_thumbprint, comparable_uri,
  coordinates, public_p256, check_uri, checked_jti, time_of, verify_target, verify_claims,
}

as_text-text : (v : Value) (s : String) → as_text v ≡ some s → v ≡ text s
unfolding as_text
as_text-text (text t) s e = ground arith
as_text-text null s e = absurd (cc)
as_text-text (boolean b) s e = absurd (cc)
as_text-text (number n) s e = absurd (cc)
as_text-text (array items) s e = absurd (cc)
as_text-text (object fields) s e = absurd (cc)

pub equal-text : (v : Value) (s : String) → (as_text v == some s) ≡ true → v ≡ text s
equal-text v s e = as_text-text v s ((option_eq.beq_iff _ _).0 e)

-- The time that a proof says is at most 120 seconds ago, and at most 60 seconds ahead.
abbrev pub IsTimely : Value → (now issued_at : ℕ) → Type 0
IsTimely v now issued_at =
    (iat : ℕ) × (v ≡ number iat)
    × (issued_at ≡ iat * second)
    × (now ≤ issued_at + 120 * second)
    × (issued_at ≤ now + 60 * second)

time_of-IsTimely :
    (v : Value) (now issued_at : ℕ) → time_of v now ≡ some issued_at → IsTimely v now issued_at
unfolding time_of
time_of-IsTimely (number iat) now issued_at e =
    (iat, refl, ground arith, ground arith, ground arith)
time_of-IsTimely null now issued_at e = absurd (cc)
time_of-IsTimely (boolean b) now issued_at e = absurd (cc)
time_of-IsTimely (text s) now issued_at e = absurd (cc)
time_of-IsTimely (array items) now issued_at e = absurd (cc)
time_of-IsTimely (object fields) now issued_at e = absurd (cc)

checked_jti_lem :
    (claims : Fields) (jti : String)
    → checked_jti claims ≡ some jti
    → (get claims "jti" ≡ text jti) × (is_empty jti ≡ false)
unfolding checked_jti
checked_jti_lem claims jti e = elim (Option-cases (as_text (get claims "jti"))) [
  | inl missing ↦ absurd (ground arith)
  | inr (j, named) ↦ (as_text-text (get claims "jti") jti (ground arith), ground arith)
]

module _ {Token Proof : Type 0} (lib : ProofLibrary Token Proof) where
  -- The key in the header of a proof is a public one.
  abbrev pub IsPublicKey : Value → (x y : String) → Type 0
  IsPublicKey v x y =
      (jwk : Fields) × (v ≡ object jwk)
      × (has jwk "d" ≡ false)
      × (get jwk "kty" ≡ text "EC")
      × (get jwk "crv" ≡ text "P-256")
      × (get jwk "x" ≡ text x)
      × (get jwk "y" ≡ text y)

  coordinates-IsPublicKey :
      (jwk : Fields) (x y : String)
      → coordinates lib jwk ≡ some (x, y)
      → IsPublicKey (object jwk) x y
  unfolding coordinates
  coordinates-IsPublicKey jwk x y e = elim (Option-cases (as_text (get jwk "x"))) [
    | inl missing ↦ absurd (ground arith)
    | inr (x0, has_x) ↦ elim (Option-cases (as_text (get jwk "y"))) [
      | inl missing ↦ absurd (ground arith)
      | inr (y0, has_y) ↦ (
        jwk,
        refl,
        ground arith,
        equal-text (get jwk "kty") "EC" (ground arith),
        equal-text (get jwk "crv") "P-256" (ground arith),
        as_text-text (get jwk "x") x (ground arith),
        as_text-text (get jwk "y") y (ground arith),
      )
    ]
  ]

  pub public_p256-IsPublicKey :
      (v : Value) (x y : String) → public_p256 lib v ≡ some (x, y) → IsPublicKey v x y
  unfolding public_p256
  public_p256-IsPublicKey (object jwk) x y e = coordinates-IsPublicKey jwk x y e
  public_p256-IsPublicKey null x y e = absurd (cc)
  public_p256-IsPublicKey (boolean b) x y e = absurd (cc)
  public_p256-IsPublicKey (text s) x y e = absurd (cc)
  public_p256-IsPublicKey (number n) x y e = absurd (cc)
  public_p256-IsPublicKey (array items) x y e = absurd (cc)

  -- The address that a proof says is the one of the request, up to what `comparable_uri` leaves out.
  abbrev pub IsForUri : Value → (uri : String) → Type 0
  IsForUri v uri =
      (presented same : String) × (v ≡ text presented)
      × (comparable_uri lib presented ≡ done (some same))
      × (comparable_uri lib uri ≡ done (some same))

  -- What a proof says is the request that it came with.
  abbrev pub IsForRequest : Fields → DpopProofRequirements Token → Type 0
  IsForRequest claims requirements =
      (get claims "htm" ≡ text requirements.method)
      × (get claims "ath" ≡ text (lib.digest_token requirements.access_token))
      × IsForUri (get claims "htu") requirements.uri

  check_uri-IsForUri :
      (v : Value) (uri : String) (expected checked : Option String)
      → comparable_uri lib uri ≡ done expected
      → check_uri lib v expected ≡ done checked
      → IsForUri v uri
  unfolding check_uri
  check_uri-IsForUri (text presented) uri (some same) checked own e =
      elim (Result-cases (comparable_uri lib presented)) [
        | inl (error, failed) ↦ absurd (ground arith)
        | inr (read, told) ↦ (
          presented,
          same,
          refl,
          told ∙ ap done ((option_eq.beq_iff read (some same)).0 (ground arith)),
          own,
        )
      ]
  check_uri-IsForUri (text presented) uri none checked own e = absurd (cc)
  check_uri-IsForUri null uri expected checked own e = absurd (cc)
  check_uri-IsForUri (boolean b) uri expected checked own e = absurd (cc)
  check_uri-IsForUri (number n) uri expected checked own e = absurd (cc)
  check_uri-IsForUri (array items) uri expected checked own e = absurd (cc)
  check_uri-IsForUri (object fields) uri expected checked own e = absurd (cc)

  verify_target-IsForRequest :
      (requirements : DpopProofRequirements Token) (claims : Fields) (proof v : VerifiedDpopProof)
      → verify_target lib requirements claims proof ≡ done v
      → (proof ≡ v) × IsForRequest claims requirements
  unfolding verify_target
  verify_target-IsForRequest requirements claims proof v e =
      elim (Result-cases (comparable_uri lib requirements.uri)) [
        | inl (error, failed) ↦ absurd (ground arith)
        | inr (expected, own) ↦ elim (Result-cases (check_uri lib (get claims "htu") expected)) [
          | inl (error, failed) ↦ absurd (ground arith)
          | inr (checked, same) ↦ (
            ground arith,
            (
              equal-text (get claims "htm") requirements.method (ground arith),
              equal-text (get claims "ath") (lib.digest_token requirements.access_token)
                  (ground arith),
              check_uri-IsForUri (get claims "htu") requirements.uri expected checked own same,
            ),
          )
        ]
      ]

  -- What a verified proof is, of the key and of the claims that are signed with it: the thumbprint is that of
  -- the key, and the claims are for the request and for the access token, and of now.
  abbrev pub IsSaid :
      (x y : String) → Fields → DpopProofRequirements Token → VerifiedDpopProof → Type 0
  IsSaid x y claims requirements v =
      (v.jkt
        ≡ lib.digest (
            lib.dumps (
              field "crv" (text "P-256")
                (field "kty" (text "EC") (field "x" (text x) (field "y" (text y) empty))))))
      × (get claims "jti" ≡ text v.jti)
      × IsTimely (get claims "iat") requirements.now v.issued_at
      × IsForRequest claims requirements

  target-IsSaid :
      (requirements : DpopProofRequirements Token) (x y jti : String) (at : ℕ) (claims : Fields)
      (v : VerifiedDpopProof)
      → get claims "jti" ≡ text jti
      → IsTimely (get claims "iat") requirements.now at
      → record { jkt = jwk_thumbprint lib x y; jti = jti; issued_at = at } ≡ v
      → IsForRequest claims requirements
      → IsSaid x y claims requirements v
  unfolding jwk_thumbprint
  target-IsSaid requirements x y jti at claims v named timely told asked =
      subst (IsSaid x y claims requirements) told (refl, named, timely, asked)

  pub verify_claims-IsSaid :
      (requirements : DpopProofRequirements Token) (x y : String) (claims : Fields)
      (v : VerifiedDpopProof)
      → verify_claims lib requirements x y claims ≡ done v
      → IsSaid x y claims requirements v
  unfolding verify_claims
  verify_claims-IsSaid requirements x y claims v e = elim (Option-cases (checked_jti claims)) [
    | inl missing ↦ absurd (ground arith)
    | inr (jti, named) ↦ elim (Option-cases (time_of (get claims "iat") requirements.now)) [
      | inl late ↦ absurd (ground arith)
      | inr (at, timed) ↦
          let (told, asked) =
            verify_target-IsForRequest requirements claims
              (record { jkt = jwk_thumbprint lib x y; jti = jti; issued_at = at }) v
              (ground arith) in
          target-IsSaid requirements x y jti at claims v ((checked_jti_lem claims jti named).0)
            (time_of-IsTimely (get claims "iat") requirements.now at timed) told asked
    ]
  ]
