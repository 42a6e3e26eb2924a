-- ===== src/DpopProofs/Sample.antt =====
-- A library whose digests are the texts themselves, and proofs that say what they say.
use fastapitemplate.Common.Clock.{second}
use fastapitemplate.Common.Value.{Fields, text, number, object, empty, field, get, as_text}
use fastapitemplate.Common.{ℕ, ◌*◌, String, Option, some, or_else}
use fastapitemplate.DpopProofs.{ProofLibrary, SplitUri, DpopProofRequirements, DpopProofReplay}

abbrev same_text : String → String
same_text s = s

abbrev split : String → Option SplitUri
split uri =
    some (record { scheme = "https"; netloc = "app"; path = uri; query = ""; fragment = "" })

abbrev x_of : Fields → String
x_of jwk = or_else (as_text (get jwk "x")) ""

abbrev pub sample_library : ProofLibrary String (Fields × Fields)
sample_library = record {
  lower = same_text;
  get_unverified_header = λ proof. some proof.0;
  decode = λ x y proof. some proof.1;
  decoded_length = λ s. some 32;
  dumps = x_of;
  digest = same_text;
  digest_token = same_text;
  hexdigest = same_text;
  urlsplit = split;
  urlunsplit = λ parts. parts.path;
}

abbrev header : Fields
header = field "typ" (text "dpop+jwt") (
    field "alg" (text "ES256") (
      field "jwk"
        (object (
          field "kty" (text "EC")
            (field "crv" (text "P-256") (field "x" (text "key") (field "y" (text "y") empty)))))
        empty))

-- A proof with an identifier, of second 100, for a request that reads `/notes` with the token `t`.
abbrev pub sample_proof : (jti : String) → Fields × Fields
sample_proof jti = (
  header,
  field "jti" (text jti) (
      field "iat" (number 100)
        (field "htm" (text "GET") (field "htu" (text "/notes") (field "ath" (text "t") empty)))),
)

abbrev pub asked_at : (now : ℕ) → DpopProofRequirements String
asked_at now = record { method = "GET"; uri = "/notes"; access_token = "t"; now = now }

abbrev pub sample_use : (jti : String) → DpopProofReplay
sample_use jti = record { replay_key = jti; expires_at = 220 * second }
