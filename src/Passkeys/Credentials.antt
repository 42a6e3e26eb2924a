-- ===== src/Passkeys/Credentials.antt =====
-- The table of passkeys: domain/entities/passkey_credential.py and
-- infrastructure/sql_passkey_credential_repository.py. `created_at` and `id` are what the database
-- hands out to a new row. A credential's identifier is unique in the table.
use fastapitemplate.Common.Lists.{keep}
use fastapitemplate.Common.Results.{Result, raised, done}
use fastapitemplate.Common.Table.{find, update_where, delete_key}
use fastapitemplate.Common.Text.{is_empty, append_text}
use fastapitemplate.Common.{
  ℕ, zero, suc, String, Bool, not, Option, none, some, List, [], ◌∷◌, ◌++◌, map, or_else, nat_eq,
  string_eq, option_eq, ◌==◌, if◌then◌else◌,
}
use fastapitemplate.Passkeys.{PasskeyError, passkey_already_registered, passkey_not_found}

pub record PasskeyCredential : Type 0 where
  pub user_id : ℕ
  pub credential_id : String
  pub public_key : String
  pub sign_count : ℕ
  pub transports : List String
  pub name : Option String
  pub attestation_format : Option String
  pub aaguid : Option String
  pub backup_eligible : Bool
  pub backup_state : Bool
  pub last_used_at : Option ℕ
  pub created_at : Option ℕ
  pub id : Option ℕ

-- `PasskeyCredential.with_usage`
unfoldable pub with_usage : PasskeyCredential → (sign_count used_at : ℕ) → PasskeyCredential
with_usage c sign_count used_at = record c { sign_count = sign_count; last_used_at = some used_at }

-- The first code points of a text.
abbrev pub take_text : ℕ → String → String
take_text zero s = ""
take_text (suc n) String.[] = ""
take_text (suc n) (String.◌∷◌ c s) = String.◌∷◌ c (take_text n s)

-- `PasskeyCredential.display_name`
unfoldable pub display_name : PasskeyCredential → String
display_name c = named c.name
  where
    unnamed : String
    unnamed = append_text "passkey-" (take_text 8 c.credential_id)

    named : Option String → String
    named none = unnamed
    named (some s) = if is_empty s then unnamed else s

-- application/dto/account_security_dto.py
pub record PasskeySummaryDto : Type 0 where
  pub id : ℕ
  pub name : String
  pub transports : List String
  pub created_at : Option ℕ
  pub last_used_at : Option ℕ

-- `id or 0`, with `0` for a missing key too.
unfoldable pub summary_of : PasskeyCredential → PasskeySummaryDto
unfolding display_name
summary_of c = record {
  id = or_else c.id 0;
  name = display_name c;
  transports = c.transports;
  created_at = c.created_at;
  last_used_at = c.last_used_at;
}

abbrev pub credential_key : PasskeyCredential → String
credential_key c = c.credential_id

-- `list_for_user`, in the order in which the rows were added
unfoldable pub list_for_user : List PasskeyCredential → ℕ → List PasskeyCredential
list_for_user rows user_id = keep (λ c. c.user_id == user_id) rows

-- `ListPasskeys.execute`
unfoldable pub list_passkeys : List PasskeyCredential → ℕ → List PasskeySummaryDto
unfolding list_for_user summary_of
list_passkeys rows user_id = map summary_of (list_for_user rows user_id)

unfoldable pub find_by_credential_id : List PasskeyCredential → String → Option PasskeyCredential
unfolding find
find_by_credential_id rows credential_id = find credential_key credential_id rows

-- The assignments of `add` to the row of the same credential.
unfoldable pub overwritten : PasskeyCredential → PasskeyCredential → PasskeyCredential
overwritten c row = record row {
  public_key = c.public_key;
  sign_count = c.sign_count;
  transports = c.transports;
  name = c.name;
  attestation_format = c.attestation_format;
  aaguid = c.aaguid;
  backup_eligible = c.backup_eligible;
  backup_state = c.backup_state;
}

-- `add`; `id` and `created_at` are those of a new row, of which `last_used_at` is left empty.
unfoldable pub add_credential :
    List PasskeyCredential
    → PasskeyCredential
    → (id created_at : ℕ) → Result PasskeyError (PasskeyCredential × List PasskeyCredential)
unfolding find update_where overwritten
add_credential rows c id created_at = elim (find credential_key c.credential_id rows) [
  | some existing ↦
      if not (existing.user_id == c.user_id)
      then raised passkey_already_registered
      else done (
        overwritten c existing,
        update_where (λ r. r.credential_id == c.credential_id) (overwritten c) rows,
      )
  | none ↦
      let row = record c { last_used_at = none; created_at = some created_at; id = some id } in
      done (row, rows ++ row ∷ [])
]

-- `update_usage`
unfoldable pub update_usage :
    List PasskeyCredential → PasskeyCredential → Result PasskeyError (List PasskeyCredential)
unfolding find update_where
update_usage rows c = elim (find credential_key c.credential_id rows) [
  | none ↦ raised passkey_not_found
  | some _ ↦ done (
      update_where (λ r. r.credential_id == c.credential_id)
        (λ r. record r { sign_count = c.sign_count; last_used_at = c.last_used_at }) rows)
]

-- `delete`; a passkey of somebody else is answered like one that does not exist.
unfoldable pub delete_credential :
    List PasskeyCredential → (user_id passkey_id : ℕ) → Result PasskeyError (List PasskeyCredential)
unfolding find delete_key
delete_credential rows user_id passkey_id = elim (find (λ c. c.id) (some passkey_id) rows) [
  | none ↦ raised passkey_not_found
  | some c ↦
      if not (c.user_id == user_id)
      then raised passkey_not_found
      else done (delete_key (λ c. c.id) (some passkey_id) rows)
]
