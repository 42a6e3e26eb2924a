-- ===== src/DpopProofs/Signed.antt =====
-- What stands behind a proof that is accepted: its signature, and that it is new.
use fastapitemplate.Common.Clock.{second}
use fastapitemplate.Common.Lists.{any}
use fastapitemplate.Common.Results.{done, Result-cases}
use fastapitemplate.Common.Table.{delete_where, find, insert_row}
use fastapitemplate.Common.Value.{Fields, text, get}
use fastapitemplate.Common.{
  ℕ, ◌+◌, ◌*◌, ◌≡◌, refl, ap, ◌∙◌, String, Bool, true, false, ◌&&◌, some, List, [], ◌∷◌, is_some,
  leb, arith, Option-cases, inl, inr, string_eq, option_eq, ◌==◌,
}
use fastapitemplate.DpopProofs.{
  DpopProofRequirements, VerifiedDpopProof, ProofLibrary, DpopProofReplay, key_of, is_over,
  record_if_unused, retain_until, replay_key_of, public_p256, verify_header, verify_proof,
  verify_bound, use_once, prove_possession,
}
use fastapitemplate.DpopProofs.Uses.{name_of}
use fastapitemplate.DpopProofs.SingleUse.{use_once-IsNoted}
use fastapitemplate.DpopProofs.Said.{
  equal-text, IsPublicKey, public_p256-IsPublicKey, IsSaid, verify_claims-IsSaid,
}

module _ {Token Proof : Type 0} (lib : ProofLibrary Token Proof) where
  -- A verified proof: it is signed with the key in its header.
  abbrev pub IsSigned : Proof → DpopProofRequirements Token → VerifiedDpopProof → Type 0
  IsSigned proof requirements v =
      (header : Fields) × (x y : String) × (claims : Fields) × (lib.get_unverified_header proof
        ≡ some header)
      × (get header "alg" ≡ text "ES256")
      × IsPublicKey lib (get header "jwk") x y
      × (lib.decode x y proof ≡ some claims)
      × IsSaid lib x y claims requirements v

  verify_header-IsSigned :
      (proof : Proof) (requirements : DpopProofRequirements Token) (header : Fields)
      (v : VerifiedDpopProof)
      → lib.get_unverified_header proof ≡ some header
      → verify_header lib proof requirements header ≡ done v
      → IsSigned proof requirements v
  unfolding verify_header
  verify_header-IsSigned proof requirements header v read e =
      elim (Option-cases (public_p256 lib (get header "jwk"))) [
        | inl no_key ↦ absurd (ground arith)
        | inr ((x, y), key) ↦ elim (Option-cases (lib.decode x y proof)) [
          | inl unsigned ↦ absurd (ground arith)
          | inr (claims, signed) ↦ (
            header,
            x,
            y,
            claims,
            read,
            equal-text (get header "alg") "ES256" (ground arith),
            public_p256-IsPublicKey lib (get header "jwk") x y key,
            signed,
            verify_claims-IsSaid lib requirements x y claims v (ground arith),
          )
        ]
      ]

  verify_proof-IsSigned :
      (proof : Proof) (requirements : DpopProofRequirements Token) (v : VerifiedDpopProof)
      → verify_proof lib proof requirements ≡ done v
      → IsSigned proof requirements v
  unfolding verify_proof
  verify_proof-IsSigned proof requirements v e =
      elim (Option-cases (lib.get_unverified_header proof)) [
        | inl unread ↦ absurd (ground arith)
        | inr (header, read) ↦
            verify_header-IsSigned proof requirements header v read (ground arith)
      ]

  verify_bound-IsSigned :
      (bound_key : String) (proof : Proof) (requirements : DpopProofRequirements Token)
      (v : VerifiedDpopProof)
      → verify_bound lib bound_key proof requirements ≡ done v
      → IsSigned proof requirements v × (v.jkt ≡ bound_key)
  unfolding verify_bound
  verify_bound-IsSigned bound_key proof requirements v e =
      elim (Result-cases (verify_proof lib proof requirements)) [
        | inl (error, refused) ↦ absurd (ground arith)
        | inr (w, verified) ↦ (
          verify_proof-IsSigned proof requirements v (verified ∙ ap done (ground arith)),
          (string_eq.beq_iff v.jkt bound_key).0 (ground arith),
        )
      ]

  -- A use of a proof that is still noted at a time, by its name, which `key_of` a row is.
  abbrev pub is_noted : List DpopProofReplay → VerifiedDpopProof → (now : ℕ) → Bool
  is_noted rows v now = any (λ r. key_of r == name_of lib v && leb now r.expires_at) rows

  -- The use of a proof is new, and it is noted for as long as the proof is accepted.
  abbrev pub IsNew :
      List DpopProofReplay → List DpopProofReplay → VerifiedDpopProof → (now : ℕ) → Type 0
  IsNew before after v now =
      (is_noted before v now ≡ false) × (is_noted after v (v.issued_at + 120 * second) ≡ true)

  find-is_noted :
      (now : ℕ) (v : VerifiedDpopProof) (rows : List DpopProofReplay)
      → is_some (find key_of (replay_key_of lib v) (delete_where (is_over now) rows))
        ≡ is_noted rows v now
  unfolding find delete_where replay_key_of
  find-is_noted now v [] = refl
  find-is_noted now v (r ∷ rows) = ground (arith, find-is_noted now v rows)

  use_once-IsNew :
      (before after : List DpopProofReplay) (now : ℕ) (v : VerifiedDpopProof)
      → use_once lib before now v ≡ done after
      → IsNew before after v now
  unfolding use_once record_if_unused insert_row retain_until replay_key_of
  use_once-IsNew before after now v e =
      (ground (arith, find-is_noted now v before), use_once-IsNoted lib before after now v e)

  -- A proof that is accepted is signed for the request by the key that is asked for, and new.
  abbrev pub IsProof :
      List DpopProofReplay
      → List DpopProofReplay
      → (bound_key : String) → Proof
      → DpopProofRequirements Token
      → (recorded_at : ℕ) → Type 0
  IsProof before after bound_key proof requirements recorded_at =
      (v : VerifiedDpopProof) × IsSigned proof requirements v
      × (v.jkt ≡ bound_key)
      × IsNew before after v recorded_at

  pub prove_possession-IsProof :
      (before after : List DpopProofReplay) (bound_key : String) (proof : Proof)
      (requirements : DpopProofRequirements Token) (recorded_at : ℕ)
      → prove_possession lib before bound_key proof requirements recorded_at ≡ done after
      → IsProof before after bound_key proof requirements recorded_at
  unfolding prove_possession
  prove_possession-IsProof before after bound_key proof requirements recorded_at e =
      elim (Result-cases (verify_bound lib bound_key proof requirements)) [
        | inl (error, refused) ↦ absurd (ground arith)
        | inr (v, verified) ↦
            let (signed, own) = verify_bound-IsSigned bound_key proof requirements v verified in
            (v, signed, own, use_once-IsNew before after recorded_at v (ground arith))
      ]
