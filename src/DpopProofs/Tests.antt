-- ===== src/DpopProofs/Tests.antt =====
-- Proofs of one key, some of which come twice.
use fastapitemplate.Common.Clock.{second}
use fastapitemplate.Common.Results.{raised, done}
use fastapitemplate.Common.Value.{Fields}
use fastapitemplate.Common.{ℕ, ◌+◌, ◌*◌, ◌≡◌, refl, String, true, false, List, [], ◌∷◌, arith}
use fastapitemplate.DpopProofs.{ProofError, DpopProofReplay, prove_possession}
use fastapitemplate.DpopProofs.Replays.{Presentation, answers, answers_ever, answers-answers_ever}
use fastapitemplate.DpopProofs.Sample.{sample_library, sample_proof, asked_at, sample_use}
use fastapitemplate.DpopProofs.SingleUse.{proves_once}

abbrev presented : (jti : String) → (at : ℕ) → Presentation String (Fields × Fields)
presented jti at = record {
  bound_key = "key";
  proof = sample_proof jti;
  requirements = asked_at at;
  recorded_at = at + 1;
  succeeds = true;
}

abbrev rolled_back : Presentation String (Fields × Fields)
rolled_back = record (presented "p2" (120 * second)) { succeeds = false }

abbrev between : List (Presentation String (Fields × Fields))
between = presented "p1" (110 * second) ∷ rolled_back ∷ presented "p2" (130 * second) ∷ []

answers-answers_ever_example :
    (answers sample_library [] between).0 ≡ (answers_ever sample_library [] between).0
answers-answers_ever_example =
    answers-answers_ever sample_library between (omega arith, (omega arith, (omega arith, tt)))

abbrev after : List DpopProofReplay
after = sample_use "key:p1" ∷ []

let_through :
    prove_possession sample_library [] "key"
      (sample_proof "p1")
      (asked_at (100 * second))
      (100 * second)
    ≡ done after
unfolding prove_possession
let_through = refl

proves_once_example :
    (error : ProofError) × (prove_possession sample_library
        (answers sample_library after between).1
        "key"
        (sample_proof "p1")
        (asked_at (150 * second))
        (150 * second)
      ≡ raised error)
proves_once_example =
    proves_once sample_library [] after "key" "key" (sample_proof "p1") (asked_at (100 * second))
      (asked_at (150 * second)) (100 * second) between let_through
      (omega arith, (omega arith, (omega arith, tt)))
