-- ===== src/DpopProofs/Replays.antt =====
-- The answers of the table of used proofs, which forgets old rows, beside those of the abstract one.
use fastapitemplate.Common.Results.{Result, raised, done, committed, Result-cases}
use fastapitemplate.Common.Table.{delete_where}
use fastapitemplate.Common.{
  map, ℕ, ◌≤◌, ◌≡◌, refl, String, Bool, true, false, Option, none, some, List, [], ◌∷◌, ◌++◌, arith,
  Bool-cases, inl, inr, string_eq, if◌then◌else◌,
}
use fastapitemplate.DpopProofs.{
  DpopProofRequirements, VerifiedDpopProof, ProofError, ProofLibrary, DpopProofReplay, is_over,
  verify_bound, use_once, prove_possession,
}
use fastapitemplate.DpopProofs.Uses.{
  Stands, swept-Stands, map-append, is_used, use_once_ever, prove_possession_ever, row_of,
  record_if_unused-is_used,
}

abbrev pub error_of : {A : Type 0} → Result ProofError A → Option ProofError
error_of (raised error) = some error
error_of (done _) = none

-- A proof that comes with a request: the key that its token is bound to, the requirements of the request,
-- the second reading of the clock, and whether the rest of the request succeeds; what it wrote is rolled
-- back if it does not.
pub record Presentation (Token Proof : Type 0) : Type 0 where
  pub bound_key : String
  pub proof : Proof
  pub requirements : DpopProofRequirements Token
  pub recorded_at : ℕ
  pub succeeds : Bool

-- The clock does not go back.
abbrev pub IsInOrder :
    {Token Proof : Type 0} → (since : ℕ) → List (Presentation Token Proof) → Type 0
IsInOrder since [] = Unit {0}
IsInOrder since (p ∷ ps) = (since ≤ p.recorded_at) × IsInOrder p.recorded_at ps

abbrev pub table_after : {Row : Type 0} → Bool → List Row → Result ProofError (List Row) → List Row
table_after succeeds rows r = if succeeds then committed rows r else rows

later-Stands :
    (since now : ℕ) (rows uses : List DpopProofReplay)
    → since ≤ now
    → Stands since rows uses
    → Stands now rows uses
later-Stands since now rows uses le stands later after = stands later (omega arith)

cong_cons : {A : Type 0} {x y : A} {xs ys : List A} → x ≡ y → xs ≡ ys → (x ∷ xs) ≡ (y ∷ ys)
cong_cons p q = cc (p, q)

module _ {Token Proof : Type 0} (lib : ProofLibrary Token Proof) where
  -- A table of the program that stands for an abstract one.
  abbrev pub Shows : (since : ℕ) → List DpopProofReplay → List VerifiedDpopProof → Type 0
  Shows since rows uses = Stands since rows (map (row_of lib) uses)

  -- Two results that are the same answer, and leave tables that stand for each other.
  abbrev pub Agrees :
      (since : ℕ)
      → List DpopProofReplay
      → List VerifiedDpopProof
      → Result ProofError (List DpopProofReplay)
      → Result ProofError (List VerifiedDpopProof)
      → Type 0
  Agrees since rows uses r s =
      (error_of r ≡ error_of s) × Shows since (committed rows r) (committed uses s)

  table_after-Shows :
      (succeeds : Bool) (now : ℕ) (rows : List DpopProofReplay) (uses : List VerifiedDpopProof)
      (r : Result ProofError (List DpopProofReplay))
      (s : Result ProofError (List VerifiedDpopProof))
      → Shows now (committed rows r) (committed uses s)
      → Shows now rows uses
      → Shows now (table_after succeeds rows r) (table_after succeeds uses s)
  table_after-Shows true now rows uses r s after before = after
  table_after-Shows false now rows uses r s after before = before

  swept-Shows :
      (since now : ℕ) (rows : List DpopProofReplay) (uses : List VerifiedDpopProof)
      (v : VerifiedDpopProof)
      → since ≤ now
      → Shows since rows uses
      → Shows now (delete_where (is_over now) rows ++ row_of lib v ∷ []) (uses ++ v ∷ [])
  swept-Shows since now rows uses v le stands =
      rw (map-append (row_of lib) uses (v ∷ []))
        (swept-Stands since now rows (map (row_of lib) uses) (row_of lib v ∷ []) le stands)

  use_once-Agrees :
      (since now : ℕ) (rows : List DpopProofReplay) (uses : List VerifiedDpopProof)
      (v : VerifiedDpopProof)
      → since ≤ now
      → Shows since rows uses
      → Agrees now rows uses (use_once lib rows now v) (use_once_ever lib uses now v)
  unfolding use_once use_once_ever
  use_once-Agrees since now rows uses v le stands =
      let recorded = record_if_unused-is_used lib since now rows uses v le stands in
      elim (Bool-cases (is_used lib uses v now)) [
        | inl used ↦
            rw (recorded, used)
              (refl, later-Stands since now rows (map (row_of lib) uses) le stands)
        | inr unused ↦ rw (recorded, unused) (refl, swept-Shows since now rows uses v le stands)
      ]

  prove_possession-Agrees :
      (since now : ℕ) (rows : List DpopProofReplay) (uses : List VerifiedDpopProof)
      (bound_key : String) (proof : Proof) (requirements : DpopProofRequirements Token)
      → since ≤ now
      → Shows since rows uses
      → Agrees now rows uses
          (prove_possession lib rows bound_key proof requirements now)
          (prove_possession_ever lib uses bound_key proof requirements now)
  unfolding prove_possession prove_possession_ever
  prove_possession-Agrees since now rows uses bound_key proof requirements le stands =
      elim (Result-cases (verify_bound lib bound_key proof requirements)) [
        | inl (error, refused) ↦
            rw refused (refl, later-Stands since now rows (map (row_of lib) uses) le stands)
        | inr (v, verified) ↦ rw verified (use_once-Agrees since now rows uses v le stands)
      ]

  -- The answers to requests one after the other, by the table of the program and by the abstract one, and
  -- the tables that they leave.
  unfoldable pub answers :
      List DpopProofReplay
      → List (Presentation Token Proof)
      → List (Option ProofError) × List DpopProofReplay
  unfolding prove_possession
  answers rows [] = ([], rows)
  answers rows (p ∷ ps) =
      let r = prove_possession lib rows p.bound_key p.proof p.requirements p.recorded_at in
      let (rest, left) = answers (table_after p.succeeds rows r) ps in (error_of r ∷ rest, left)

  unfoldable pub answers_ever :
      List VerifiedDpopProof
      → List (Presentation Token Proof)
      → List (Option ProofError) × List VerifiedDpopProof
  unfolding prove_possession_ever
  answers_ever uses [] = ([], uses)
  answers_ever uses (p ∷ ps) =
      let r = prove_possession_ever lib uses p.bound_key p.proof p.requirements p.recorded_at in
      let (rest, left) = answers_ever (table_after p.succeeds uses r) ps in
      (error_of r ∷ rest, left)

  answers-Shows :
      (since : ℕ) (rows : List DpopProofReplay) (uses : List VerifiedDpopProof)
      (ps : List (Presentation Token Proof))
      → Shows since rows uses
      → IsInOrder since ps
      → (answers rows ps).0 ≡ (answers_ever uses ps).0
  unfolding answers answers_ever
  answers-Shows since rows uses [] stands ordered = refl
  answers-Shows since rows uses (p ∷ ps) stands (le, ordered) =
      let (same, after) =
        prove_possession-Agrees since p.recorded_at rows uses p.bound_key p.proof p.requirements le
          stands in
      let kept =
        table_after-Shows p.succeeds p.recorded_at rows uses
          (prove_possession lib rows p.bound_key p.proof p.requirements p.recorded_at)
          (prove_possession_ever lib uses p.bound_key p.proof p.requirements p.recorded_at) after
          (later-Stands since p.recorded_at rows (map (row_of lib) uses) le stands) in
      cong_cons same (answers-Shows p.recorded_at _ _ ps kept ordered)

  -- The table of used proofs implements one that never forgets a use: from an empty table, and as long as
  -- the clock does not go back, requests with any proofs, some of which fail afterwards and are rolled back,
  -- get the same answers as from an abstract table that keeps the proofs of all uses for ever and refuses a
  -- proof if one by the same key and with the same identifier was used and is at most 120 seconds old; the
  -- two are told apart by the digest of both.
  pub answers-answers_ever :
      (ps : List (Presentation Token Proof))
      → IsInOrder 0 ps
      → (answers [] ps).0 ≡ (answers_ever [] ps).0
  answers-answers_ever ps ordered = answers-Shows 0 [] [] ps (λ later le. refl) ordered
