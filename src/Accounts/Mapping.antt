-- ===== src/Accounts/Mapping.antt =====
-- domain/value_objects/claims_mapping.py: what the claims of the identity provider say of a user.
use Prim.Native.Char.{code}
use fastapitemplate.Common.Text.{is_empty}
use fastapitemplate.Common.Value.{Fields, get, is_true, stripped_text}
use fastapitemplate.Common.{String, Option, none, some, List, [], ◌∷◌, nat_beq, if◌then◌else◌}
use fastapitemplate.Accounts.{FederatedUser}

pub record ClaimsMapping : Type 0 where
  pub email_claim : String
  pub username_claim : String

-- `text.partition("@")[0]`
unfoldable pub first_part : String → String
first_part String.[] = String.[]
first_part (String.◌∷◌ c s) =
    let rest = first_part s in if nat_beq (code c) 64 then String.[] else String.◌∷◌ c rest

-- The first of the claims that is a text which is not blank.
unfoldable pub first_text : Fields → List String → Option String
unfolding get stripped_text
first_text claims [] = none
first_text claims (claim ∷ candidates) =
    let rest = first_text claims candidates in
    let value = stripped_text (get claims claim) in if is_empty value then rest else some value

-- `_username`
unfoldable pub username_of : ClaimsMapping → Fields → (email subject : String) → String
unfolding first_text first_part
username_of mapping claims email subject =
    elim (first_text claims
      (mapping.username_claim ∷ "name" ∷ "preferred_username" ∷ "nickname" ∷ [])) [
        | some value ↦ value
        | none ↦ if is_empty email then subject else first_part email
      ]

-- `ClaimsMapping.apply`; `none` is the `InvalidIdTokenError`.
unfoldable pub apply : (lower : String → String) → ClaimsMapping → Fields → Option FederatedUser
unfolding get stripped_text username_of is_true
apply lower mapping claims =
    let subject = stripped_text (get claims "sub") in
    let email = stripped_text (get claims mapping.email_claim) in
    if is_empty subject
    then none
    else some (record {
      subject = subject;
      email = if is_empty email then none else some (lower email);
      username = username_of mapping claims email subject;
      email_verified = is_true (get claims "email_verified");
    })
