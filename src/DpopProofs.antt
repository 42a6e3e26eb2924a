-- ===== src/DpopProofs.antt =====
-- The proofs of possession of DPoP, in bounded_contexts/identity_federation:
-- domain/value_objects/dpop_proof.py, infrastructure/pyjwt_dpop_proof_verifier.py and
-- sql_dpop_proof_replay_repository.py. What the verifier calls of other packages (PyJWT, SHA-256, base64,
-- JSON and the parts of a URL) is the record `ProofLibrary`. A number that is too large for a time is
-- refused with those that are too late.
pub mod Replays
pub mod Said
pub mod Sample
pub mod Signed
pub mod SingleUse
pub mod Telling
pub mod Uses
mod Tests
use fastapitemplate.Common.Clock.{seconds}
use fastapitemplate.Common.Lists.{contains}
use fastapitemplate.Common.Results.{Result, raised, done, and_then}
use fastapitemplate.Common.Table.{delete_where, insert_row}
use fastapitemplate.Common.Text.{is_empty, append_text, text_length}
use fastapitemplate.Common.Value.{
  Value, Fields, object, text, number, empty, field, get, has, as_text,
}
use fastapitemplate.Common.{
  ℕ, ◌+◌, String, Bool, true, false, not, ◌&&◌, ◌||◌, Option, none, some, List, [], ◌∷◌, or_else,
  ltb, nat_eq, string_eq, option_eq, ◌==◌, if◌then◌else◌,
}

-- `MAX_PROOF_AGE` and `MAX_CLOCK_AHEAD`
abbrev pub max_proof_age : ℕ
max_proof_age = seconds 120

abbrev pub max_clock_ahead : ℕ
max_clock_ahead = seconds 60

abbrev pub max_jti_length : ℕ
max_jti_length = 256

pub record DpopProofRequirements (Token : Type 0) : Type 0 where
  pub method : String
  pub uri : String
  pub access_token : Token
  pub now : ℕ

pub record VerifiedDpopProof : Type 0 where
  pub jkt : String
  pub jti : String
  pub issued_at : ℕ

pub data ProofError : Type 0 where
  dpop_proof_rejected : ProofError
  -- The `ValueError` of `urlsplit`, which nothing catches
  value_error : ProofError

-- `urllib.parse.SplitResult`
pub record SplitUri : Type 0 where
  pub scheme : String
  pub netloc : String
  pub path : String
  pub query : String
  pub fragment : String

pub record ProofLibrary (Token Proof : Type 0) : Type 0 where
  pub lower : String → String
  -- `jwt.get_unverified_header`
  pub get_unverified_header : Proof → Option Fields
  -- `jwt.decode` with the key of the two coordinates
  pub decode : (x y : String) → Proof → Option Fields
  -- The length of `_b64url_decode`
  pub decoded_length : String → Option ℕ
  pub dumps : Fields → String
  -- `_b64url` of SHA-256, of a text and of a token
  pub digest : String → String
  pub digest_token : Token → String
  pub hexdigest : String → String
  pub urlsplit : String → Option SplitUri
  pub urlunsplit : SplitUri → String

-- `_checked_jti`
unfoldable pub checked_jti : Fields → Option String
unfolding get as_text
checked_jti claims = elim (as_text (get claims "jti")) [
  | none ↦ none
  | some jti ↦ if is_empty jti || ltb max_jti_length (text_length jti) then none else some jti
]

-- `_checked_issued_at`, for the value of `iat`.
unfoldable pub time_of : Value → (now : ℕ) → Option ℕ
time_of (number iat) now =
    if ltb (seconds iat + max_proof_age) now || ltb (now + max_clock_ahead) (seconds iat)
    then none
    else some (seconds iat)
time_of _ now = none

-- A row of the table of used proofs, `DpopProofReplayRecord`.
pub record DpopProofReplay : Type 0 where
  pub replay_key : String
  pub expires_at : ℕ

abbrev pub key_of : DpopProofReplay → String
key_of row = row.replay_key

-- The rows that a write deletes.
abbrev pub is_over : (now : ℕ) → DpopProofReplay → Bool
is_over now row = ltb row.expires_at now

-- `record_if_unused`
unfoldable pub record_if_unused :
    List DpopProofReplay
    → (replay_key : String) → (retain_until now : ℕ) → Bool × List DpopProofReplay
unfolding delete_where insert_row
record_if_unused rows replay_key retain_until now =
    let swept = delete_where (is_over now) rows in
    let row : DpopProofReplay = record { replay_key = replay_key; expires_at = retain_until } in
    elim (insert_row key_of row swept) [ none ↦ (false, swept) | some rows ↦ (true, rows) ]

-- `retain_until`
unfoldable pub retain_until : VerifiedDpopProof → ℕ
retain_until proof = proof.issued_at + max_proof_age

module _ {Token Proof : Type 0} (lib : ProofLibrary Token Proof) where
  -- `replay_key`
  unfoldable pub replay_key_of : VerifiedDpopProof → String
  replay_key_of proof = lib.hexdigest (append_text proof.jkt (append_text ":" proof.jti))

  -- `jwk_thumbprint`
  unfoldable pub jwk_thumbprint : (x y : String) → String
  jwk_thumbprint x y = lib.digest (
      lib.dumps (
        field "crv" (text "P-256")
          (field "kty" (text "EC") (field "x" (text x) (field "y" (text y) empty)))))

  -- `_comparable_uri`
  unfoldable pub comparable_uri : String → Result ProofError (Option String)
  comparable_uri uri = elim (lib.urlsplit uri) [
    | none ↦ raised value_error
    | some parts ↦
        if not (contains (lib.lower parts.scheme) ("https" ∷ "http" ∷ [])) || is_empty parts.netloc
        then done none
        else done (
            some (
              lib.urlunsplit (record {
                scheme = lib.lower parts.scheme;
                netloc = lib.lower parts.netloc;
                path = if is_empty parts.path then "/" else parts.path;
                query = "";
                fragment = "";
              })))
  ]

  -- `_public_p256` of a value that is a mapping.
  unfoldable pub coordinates : Fields → Option (String × String)
  unfolding get has as_text
  coordinates jwk =
      if has jwk "d"
        || not (as_text (get jwk "kty") == some "EC")
        || not (as_text (get jwk "crv") == some "P-256")
      then none
      else elim (as_text (get jwk "x")) [
        | none ↦ none
        | some x ↦ elim (as_text (get jwk "y")) [
          | none ↦ none
          | some y ↦
              if lib.decoded_length x == some 32 && lib.decoded_length y == some 32
              then some (x, y)
              else none
        ]
      ]

  -- `_public_p256`
  unfoldable pub public_p256 : Value → Option (String × String)
  unfolding coordinates
  public_p256 (object jwk) = coordinates jwk
  public_p256 _ = none

  -- The comparison of `htu` with the address of the request.
  unfoldable pub check_uri : Value → (expected : Option String) → Result ProofError (Option String)
  unfolding comparable_uri
  check_uri (text presented) (some expected) =
      and_then (comparable_uri presented)
        (λ uri. if uri == some expected then done uri else raised dpop_proof_rejected)
  check_uri _ _ = raised dpop_proof_rejected

  -- `verify`, once `jti` and `iat` are read.
  unfoldable pub verify_target :
      DpopProofRequirements Token → Fields → VerifiedDpopProof → Result ProofError VerifiedDpopProof
  unfolding get as_text comparable_uri check_uri
  verify_target requirements claims proof =
      if not (as_text (get claims "htm") == some requirements.method)
      then raised dpop_proof_rejected
      else and_then (comparable_uri requirements.uri) (λ expected.
        and_then (check_uri (get claims "htu") expected) (λ _.
          if as_text (get claims "ath") == some (lib.digest_token requirements.access_token)
          then done proof
          else raised dpop_proof_rejected))

  -- `verify`, once the signature is checked.
  unfoldable pub verify_claims :
      DpopProofRequirements Token → (x y : String) → Fields → Result ProofError VerifiedDpopProof
  unfolding checked_jti time_of get verify_target jwk_thumbprint
  verify_claims requirements x y claims = elim (checked_jti claims) [
    | none ↦ raised dpop_proof_rejected
    | some jti ↦ elim (time_of (get claims "iat") requirements.now) [
      | none ↦ raised dpop_proof_rejected
      | some issued_at ↦
          verify_target requirements claims
            (record { jkt = jwk_thumbprint x y; jti = jti; issued_at = issued_at })
    ]
  ]

  -- `verify`, once the header is read.
  unfoldable pub verify_header :
      Proof → DpopProofRequirements Token → Fields → Result ProofError VerifiedDpopProof
  unfolding get as_text public_p256 verify_claims
  verify_header proof requirements header =
      if not (lib.lower (or_else (as_text (get header "typ")) "") == "dpop+jwt")
        || not (as_text (get header "alg") == some "ES256")
      then raised dpop_proof_rejected
      else elim (public_p256 (get header "jwk")) [
        | none ↦ raised dpop_proof_rejected
        | some (x, y) ↦ elim (lib.decode x y proof) [
          | none ↦ raised dpop_proof_rejected
          | some claims ↦ verify_claims requirements x y claims
        ]
      ]

  -- `PyJwtDpopProofVerifier.verify`
  unfoldable pub verify_proof :
      Proof → DpopProofRequirements Token → Result ProofError VerifiedDpopProof
  unfolding verify_header
  verify_proof proof requirements = elim (lib.get_unverified_header proof) [
    | none ↦ raised dpop_proof_rejected
    | some header ↦ verify_header proof requirements header
  ]

  -- `_check_possession` for a proof: it is by the key that the token is bound to.
  unfoldable pub verify_bound :
      (bound_key : String)
      → Proof
      → DpopProofRequirements Token
      → Result ProofError VerifiedDpopProof
  unfolding verify_proof
  verify_bound bound_key proof requirements =
      and_then (verify_proof proof requirements) (λ verified.
        if verified.jkt == bound_key then done verified else raised dpop_proof_rejected)

  -- `_check_possession` for a proof that is verified: it is not used yet.
  unfoldable pub use_once :
      List DpopProofReplay
      → (now : ℕ) → VerifiedDpopProof
      → Result ProofError (List DpopProofReplay)
  unfolding record_if_unused replay_key_of retain_until
  use_once rows now verified =
      let (unused, after) =
        record_if_unused rows (replay_key_of verified) (retain_until verified) now in
      if unused then done after else raised dpop_proof_rejected

  -- The end of `_check_possession`; `recorded_at` is the second reading of the clock.
  unfoldable pub prove_possession :
      List DpopProofReplay
      → (bound_key : String) → Proof
      → DpopProofRequirements Token
      → (recorded_at : ℕ) → Result ProofError (List DpopProofReplay)
  unfolding verify_bound use_once
  prove_possession rows bound_key proof requirements recorded_at =
      and_then (verify_bound bound_key proof requirements) (use_once rows recorded_at)
