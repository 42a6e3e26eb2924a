-- ===== src/DpopProofs/SingleUse.antt =====
-- What becomes of a proof that was let through.
use fastapitemplate.Common.Lists.{All, any}
use fastapitemplate.Common.Results.{raised, done, Result-cases}
use fastapitemplate.Common.Table.{delete_where, find, insert_row}
use fastapitemplate.Common.{
  ℕ, ◌+◌, ◌≤◌, ◌≡◌, refl, sym, ◌∙◌, String, Bool, true, false, ◌&&◌, some, List, [], ◌∷◌, ◌++◌,
  subst, if-both, is_some, leb, ltb, arith, inl, inr, string_eq, option_eq, ◌==◌, if◌then◌else◌,
}
use fastapitemplate.DpopProofs.{
  max_proof_age, DpopProofRequirements, VerifiedDpopProof, ProofError, dpop_proof_rejected,
  ProofLibrary, DpopProofReplay, key_of, is_over, record_if_unused, retain_until, replay_key_of,
  verify_bound, use_once, prove_possession,
}
use fastapitemplate.DpopProofs.Replays.{Presentation, answers}
use fastapitemplate.DpopProofs.Telling.{verify_bound-IsTold}

-- The use of a key is in the table until a time.
abbrev pub IsNoted : (key : String) → (until : ℕ) → List DpopProofReplay → Type 0
IsNoted key until rows = any (λ r. r.replay_key == key && leb until r.expires_at) rows ≡ true

swept-IsNoted :
    (key : String) (until now : ℕ) (rows : List DpopProofReplay)
    → now ≤ until
    → IsNoted key until rows
    → IsNoted key until (delete_where (is_over now) rows)
unfolding delete_where
swept-IsNoted key until now [] le h = h
swept-IsNoted key until now (r ∷ rows) le h = ground (arith, swept-IsNoted key until now rows le)

append-IsNoted :
    (key : String) (until : ℕ) (rows : List DpopProofReplay) (r : DpopProofReplay)
    → IsNoted key until rows
    → IsNoted key until (rows ++ r ∷ [])
append-IsNoted key until [] r h = absurd (ground arith)
append-IsNoted key until (s ∷ rows) r h = ground (arith, append-IsNoted key until rows r)

append-IsNoted_last :
    (key : String) (until : ℕ) (rows : List DpopProofReplay)
    → IsNoted key until (rows ++ record { replay_key = key; expires_at = until } ∷ [])
append-IsNoted_last key until [] = ground (arith, string_eq.beq_iff key key)
append-IsNoted_last key until (s ∷ rows) = ground (arith, append-IsNoted_last key until rows)

noted-found :
    (key : String) (until : ℕ) (rows : List DpopProofReplay)
    → IsNoted key until rows
    → is_some (find key_of key rows) ≡ true
unfolding find
noted-found key until [] h = absurd (ground arith)
noted-found key until (r ∷ rows) h = ground (arith, noted-found key until rows)

if_same : {A : Type 0} (b : Bool) (a : A) → (if b then a else a) ≡ a
if_same true a = refl
if_same false a = refl

some-same : {A : Type 0} (a b : A) → some a ≡ some b → a ≡ b
some-same a b e = cc e

in_window :
    (v : VerifiedDpopProof) (now : ℕ)
    → ltb (v.issued_at + max_proof_age) now ≡ false
    → now ≤ retain_until v
unfolding retain_until
in_window v now e = ground arith

All-until :
    {Token Proof : Type 0} {now until : ℕ}
    → now ≤ until
    → (ps : List (Presentation Token Proof)) → All (λ p. p.recorded_at ≤ now) ps
    → All (λ p. p.recorded_at ≤ until) ps
All-until le [] in_time = tt
All-until le (p ∷ ps) (early, in_time) = (omega arith, All-until le ps in_time)

module _ {Token Proof : Type 0} (lib : ProofLibrary Token Proof) where
  pub use_once-IsNoted :
      (rows after : List DpopProofReplay) (now : ℕ) (v : VerifiedDpopProof)
      → use_once lib rows now v ≡ done after
      → IsNoted (replay_key_of lib v) (retain_until v) after
  unfolding use_once record_if_unused insert_row
  use_once-IsNoted rows after now v e = ground (
    arith,
    append-IsNoted_last (replay_key_of lib v) (retain_until v) (delete_where (is_over now) rows),
  )

  use_once-stays :
      (key : String) (until : ℕ) (rows after : List DpopProofReplay) (now : ℕ)
      (v : VerifiedDpopProof)
      → now ≤ until
      → IsNoted key until rows
      → use_once lib rows now v ≡ done after
      → IsNoted key until after
  unfolding use_once record_if_unused insert_row
  use_once-stays key until rows after now v le h e =
      let kept = swept-IsNoted key until now rows le h in
      let row : DpopProofReplay = record {
        replay_key = replay_key_of lib v;
        expires_at = retain_until v;
      } in
      ground (arith, append-IsNoted key until (delete_where (is_over now) rows) row kept)

  use_once-refused :
      (until : ℕ) (rows : List DpopProofReplay) (now : ℕ) (v : VerifiedDpopProof)
      → now ≤ until
      → IsNoted (replay_key_of lib v) until rows
      → use_once lib rows now v ≡ raised dpop_proof_rejected
  unfolding use_once record_if_unused insert_row
  use_once-refused until rows now v le h =
      let there =
        noted-found (replay_key_of lib v) until (delete_where (is_over now) rows)
          (swept-IsNoted (replay_key_of lib v) until now rows le h) in
      ground (arith, there)

  presented-stays :
      (key : String) (until : ℕ) (rows after : List DpopProofReplay) (p : Presentation Token Proof)
      → p.recorded_at ≤ until
      → IsNoted key until rows
      → prove_possession lib rows p.bound_key p.proof p.requirements p.recorded_at ≡ done after
      → IsNoted key until after
  unfolding prove_possession
  presented-stays key until rows after p le h e =
      elim (Result-cases (verify_bound lib p.bound_key p.proof p.requirements)) [
        | inl (error, refused) ↦ absurd (ground arith)
        | inr (v, verified) ↦
            use_once-stays key until rows after p.recorded_at v le h (ground arith)
      ]

  answers-stays :
      (key : String) (until : ℕ) (rows : List DpopProofReplay)
      (ps : List (Presentation Token Proof))
      → All (λ p. p.recorded_at ≤ until) ps
      → IsNoted key until rows
      → IsNoted key until (answers lib rows ps).1
  unfolding answers prove_possession
  answers-stays key until rows [] in_time h = h
  answers-stays key until rows (p ∷ ps) (le, in_time) h =
      elim (Result-cases
        (prove_possession lib rows p.bound_key p.proof p.requirements p.recorded_at)) [
          | inl (error, refused) ↦
              rw (refused, if_same p.succeeds rows) (answers-stays key until rows ps in_time h)
          | inr (after, accepted) ↦ rw accepted (
              answers-stays key until (if p.succeeds then after else rows) ps in_time (
                if-both (IsNoted key until) p.succeeds
                  (presented-stays key until rows after p le h accepted) h))
        ]

  -- A proof works once: after a request that it came with was let through, and any further requests, some of
  -- which fail afterwards and are rolled back, a request with the same proof is refused, whatever it asks for
  -- and whichever key its token is bound to. Each of its two readings of the clock is the same time, and no
  -- request in between is later.
  pub proves_once :
      (rows after : List DpopProofReplay) (bound_key other_key : String) (proof : Proof)
      (requirements again : DpopProofRequirements Token) (recorded_at : ℕ)
      (between : List (Presentation Token Proof))
      → prove_possession lib rows bound_key proof requirements recorded_at ≡ done after
      → All (λ p. p.recorded_at ≤ again.now) between
      → (error : ProofError) × (prove_possession lib
            (answers lib after between).1
            other_key
            proof
            again
            again.now
          ≡ raised error)
  unfolding prove_possession
  proves_once rows after bound_key other_key proof requirements again recorded_at between e
        in_time =
      elim (Result-cases (verify_bound lib other_key proof again)) [
        | inl (error, refused) ↦ (error, rw refused refl)
        | inr (w, verified) ↦ elim (Result-cases (verify_bound lib bound_key proof requirements)) [
          | inl (error, unverified) ↦ absurd (ground arith)
          | inr (v, first) ↦
              let (said, _) = verify_bound-IsTold lib bound_key proof requirements v first in
              let (repeated, fresh) = verify_bound-IsTold lib other_key proof again w verified in
              let same : v ≡ w = some-same v w (sym said ∙ repeated) in
              let noted =
                subst (λ u. IsNoted (replay_key_of lib u) (retain_until u) after) same
                  (use_once-IsNoted rows after recorded_at v (ground arith)) in
              (
                dpop_proof_rejected,
                rw verified (
                    use_once-refused (retain_until w) (answers lib after between).1 again.now w
                      (in_window w again.now fresh)
                      (answers-stays (replay_key_of lib w) (retain_until w) after between
                        (All-until (in_window w again.now fresh) between in_time) noted)),
              )
        ]
      ]
