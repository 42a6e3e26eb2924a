-- ===== src/DpopProofs/Uses.antt =====
-- An abstract table of used proofs that forgets nothing, and when the table of the program stands for it.
use fastapitemplate.Common.Clock.{second}
use fastapitemplate.Common.Lists.{any}
use fastapitemplate.Common.Results.{Result, raised, done, and_then}
use fastapitemplate.Common.Table.{delete_where, find, insert_row}
use fastapitemplate.Common.Text.{append_text}
use fastapitemplate.Common.{
  ◌+◌, ◌*◌, leb, map, ℕ, ◌≤◌, ◌≡◌, refl, ap, ◌∙◌, String, Bool, true, false, not, ◌&&◌, List, [],
  ◌∷◌, ◌++◌, is_some, arith, Bool-cases, inl, inr, string_eq, ◌==◌, if◌then◌else◌,
}
use fastapitemplate.DpopProofs.{
  DpopProofRequirements, VerifiedDpopProof, ProofError, dpop_proof_rejected, ProofLibrary,
  DpopProofReplay, key_of, is_over, record_if_unused, retain_until, replay_key_of, verify_bound,
}

-- Whether a use still counts: 120 seconds from the time of the proof, the last of them included.
abbrev pub counts : (now : ℕ) → VerifiedDpopProof → Bool
counts now proof = leb now (proof.issued_at + 120 * second)

-- A table stands for the uses of the past if it keeps those that are not over.
abbrev pub Stands : (since : ℕ) → List DpopProofReplay → List DpopProofReplay → Type 0
Stands since rows uses =
    (later : ℕ)
    → since ≤ later
    → delete_where (is_over later) rows ≡ delete_where (is_over later) uses

delete_where-twice :
    (now later : ℕ) (rows : List DpopProofReplay)
    → now ≤ later
    → delete_where (is_over later) (delete_where (is_over now) rows)
      ≡ delete_where (is_over later) rows
unfolding delete_where
delete_where-twice now later [] le = refl
delete_where-twice now later (r ∷ rows) le = ground (arith, delete_where-twice now later rows le)

delete_where-append :
    (later : ℕ) (rows more : List DpopProofReplay)
    → delete_where (is_over later) (rows ++ more)
      ≡ delete_where (is_over later) rows ++ delete_where (is_over later) more
unfolding delete_where
delete_where-append later [] more = refl
delete_where-append later (r ∷ rows) more = ground (arith, delete_where-append later rows more)

pub swept-Stands :
    (since now : ℕ) (rows uses more : List DpopProofReplay)
    → since ≤ now
    → Stands since rows uses
    → Stands now (delete_where (is_over now) rows ++ more) (uses ++ more)
swept-Stands since now rows uses more le stands later after =
    rw
      (
        delete_where-append later (delete_where (is_over now) rows) more,
        delete_where-append later uses more,
        delete_where-twice now later rows after,
        stands later (omega arith),
      )
      refl

pub map-append :
    {A B : Type 0} (f : A → B) (xs ys : List A) → map f (xs ++ ys) ≡ map f xs ++ map f ys
map-append f [] ys = refl
map-append f (x ∷ xs) ys = ap (λ zs. f x ∷ zs) (map-append f xs ys)

module _ {Token Proof : Type 0} (lib : ProofLibrary Token Proof) where
  -- The name of a use: the digest of the key and of the identifier that the sender gave the proof.
  abbrev pub name_of : VerifiedDpopProof → String
  name_of proof = lib.hexdigest (append_text proof.jkt (append_text ":" proof.jti))

  -- The abstract table: the proofs of all uses that were ever recorded, in their order.
  unfoldable pub is_used : List VerifiedDpopProof → VerifiedDpopProof → (now : ℕ) → Bool
  is_used uses proof now = any (λ u. name_of u == name_of proof && counts now u) uses

  -- The abstract `use_once`
  unfoldable pub use_once_ever :
      List VerifiedDpopProof
      → (now : ℕ) → VerifiedDpopProof
      → Result ProofError (List VerifiedDpopProof)
  unfolding is_used
  use_once_ever uses now verified =
      if is_used uses verified now then raised dpop_proof_rejected else done (uses ++ verified ∷ [])

  -- The abstract `prove_possession`
  unfoldable pub prove_possession_ever :
      List VerifiedDpopProof
      → (bound_key : String) → Proof
      → DpopProofRequirements Token
      → (recorded_at : ℕ) → Result ProofError (List VerifiedDpopProof)
  unfolding verify_bound use_once_ever
  prove_possession_ever uses bound_key proof requirements recorded_at =
      and_then (verify_bound lib bound_key proof requirements) (use_once_ever uses recorded_at)

  -- The row that the program writes for a use.
  abbrev pub row_of : VerifiedDpopProof → DpopProofReplay
  row_of proof = record { replay_key = replay_key_of lib proof; expires_at = retain_until proof }

  -- A use counts until the sweep deletes its row.
  is_over-counts :
      (now : ℕ) (proof : VerifiedDpopProof) → is_over now (row_of proof) ≡ not (counts now proof)
  unfolding retain_until
  is_over-counts now proof = ground arith

  key_of-name_of : (proof : VerifiedDpopProof) → key_of (row_of proof) ≡ name_of proof
  unfolding replay_key_of
  key_of-name_of proof = refl

  find-is_used :
      (now : ℕ) (v : VerifiedDpopProof) (uses : List VerifiedDpopProof)
      → is_some (find key_of (replay_key_of lib v) (delete_where (is_over now) (map row_of uses)))
        ≡ is_used uses v now
  unfolding find delete_where is_used
  find-is_used now v [] = refl
  find-is_used now v (u ∷ uses) =
      ground
        (arith, find-is_used now v uses, is_over-counts now u, key_of-name_of u, key_of-name_of v)

  pub record_if_unused-is_used :
      (since now : ℕ) (rows : List DpopProofReplay) (uses : List VerifiedDpopProof)
      (v : VerifiedDpopProof)
      → since ≤ now
      → Stands since rows (map row_of uses)
      → record_if_unused rows (replay_key_of lib v) (retain_until v) now ≡ (
          if is_used uses v now
          then (false, delete_where (is_over now) rows)
          else (true, delete_where (is_over now) rows ++ row_of v ∷ []))
  unfolding record_if_unused insert_row
  record_if_unused-is_used since now rows uses v le stands =
      let used : is_some (find key_of (replay_key_of lib v) (delete_where (is_over now) rows))
          ≡ is_used uses v now =
        ap (λ rs. is_some (find key_of (replay_key_of lib v) rs)) (stands now le)
        ∙ find-is_used now v uses in
      elim (Bool-cases (is_used uses v now)) [
        | inl in_use ↦ ground (arith, used, in_use)
        | inr free ↦ ground (arith, used, free)
      ]
