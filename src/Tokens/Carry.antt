-- ===== src/Tokens/Carry.antt =====
-- What the claims that all tokens of a login share say when they are read back.
use fastapitemplate.Common.Clock.{second}
use fastapitemplate.Common.Results.{done}
use fastapitemplate.Common.Value.{Fields, null, number, text, get, join, as_text, as_int}
use fastapitemplate.Common.{ℕ, ◌*◌, ◌+◌, ◌≤◌, ◌<◌, ◌≡◌, refl, String, Option, none, some}
use fastapitemplate.Federation.{FederatedLogin}
use fastapitemplate.Tokens.{
  Jwt, federated_fields, optional_text, optional_number, federation_claims, refresh_session_claim,
}
use fastapitemplate.Tokens.Claims.{login_of}

-- What the library documents of a token that it signed itself: under the same key it decodes to its
-- claims, if they name the issuer and the audience that are asked for and a textual subject, were not
-- issued in the future, and have not expired by more than the leeway.
abbrev pub ReadsBack : {Token : Type 0} → Jwt Token → Type 0
ReadsBack jwt =
    (claims : Fields) (key audience issuer subject : String) (issued expires leeway now : ℕ)
    → get claims "iss" ≡ text issuer
    → get claims "aud" ≡ text audience
    → get claims "sub" ≡ text subject
    → get claims "iat" ≡ number issued
    → get claims "exp" ≡ number expires
    → issued * second ≤ now + leeway
    → now < expires * second + leeway
    → jwt.decode (jwt.encode claims key) key audience issuer leeway now ≡ done claims

pub as_text-optional_text : (o : Option String) → as_text (optional_text o) ≡ o
unfolding as_text
as_text-optional_text none = refl
as_text-optional_text (some s) = refl

pub as_int-optional_number : (o : Option ℕ) → as_int (optional_number o) ≡ o
unfolding as_int
as_int-optional_number none = refl
as_int-optional_number (some n) = refl

-- The claims that depend on the entrance and on the record of a login.
abbrev pub tail : Option FederatedLogin → Option String → Fields
tail login id = join (federation_claims login) (refresh_session_claim id)

-- Every claim that the entrance and the record may write is read back, and no other is there.
abbrev ReadsFields : Fields → (session_id id : Option String) → Type 0
ReadsFields fields session_id id =
    (get fields "machine_client" ≡ null)
    × (get fields "rsid" ≡ optional_text id)
    × (get fields "sid" ≡ optional_text session_id)

reads_fields :
    (login : FederatedLogin) (session_id id : Option String)
    → ReadsFields
        (join (federated_fields login session_id) (refresh_session_claim id))
        session_id
        id
unfolding federated_fields join get
reads_fields login none none = (refl, refl, refl)
reads_fields login none (some id) = (refl, refl, refl)
reads_fields login (some s) none = (refl, refl, refl)
reads_fields login (some s) (some id) = (refl, refl, refl)

pub machine_client-tail :
    (login : Option FederatedLogin) (id : Option String)
    → get (tail login id) "machine_client" ≡ null
unfolding federation_claims join get
machine_client-tail none none = refl
machine_client-tail none (some id) = refl
machine_client-tail (some login) id =
    let (machine, _, _) = reads_fields login login.session.session_id id in machine

pub rsid-tail :
    (login : Option FederatedLogin) (id : Option String)
    → get (tail login id) "rsid" ≡ optional_text id
unfolding federation_claims join get
rsid-tail none none = refl
rsid-tail none (some id) = refl
rsid-tail (some login) id =
    let (_, rsid, _) = reads_fields login login.session.session_id id in rsid

-- The login at the identity provider is read back whole.
pub login_of-tail :
    (login : Option FederatedLogin) (id : Option String) → login_of (tail login id) ≡ login
unfolding federation_claims join get login_of federated_fields as_int
login_of-tail none none = refl
login_of-tail none (some id) = refl
login_of-tail (some login) id =
    let (_, _, session) = reads_fields login login.session.session_id id in
    rw (session, as_text-optional_text login.session.session_id) refl
