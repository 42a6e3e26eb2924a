-- ===== src/Gates/Machine.antt =====
-- What a machine can open with its token.
use mathlib.Core.Path.{fun_ext}
use fastapitemplate.Audit.{AuditEvent}
use fastapitemplate.Common.Lists.{contains, all, any}
use fastapitemplate.Common.Results.{raised, done, Result-cases}
use fastapitemplate.Common.Text.{is_empty}
use fastapitemplate.Common.{
  ℕ, ◌≡◌, refl, ◌∙◌, sym, ap, String, Bool, true, false, ◌&&◌, none, some, List, [], ◌∷◌, arith,
  string_eq, inl, inr,
}
use fastapitemplate.Gates.{
  Gated, Request, gate, get_operation_principal, get_current_principal, person_only,
  require_permission, require_any_permission, check_permission, check_any_permission,
  refuse_missing, can,
}
use fastapitemplate.Machines.{MachineClient}
use fastapitemplate.Tokens.{
  Jwt, TokenSettings, create_machine_access_token, machine_claims, machine_scopes,
}
use fastapitemplate.Tokens.Access.{machine_principal, check_access-machine_claims}
use fastapitemplate.Authority.Rules.{contains-keep}
use fastapitemplate.Tokens.Claims.{AuthenticatedPrincipal, check_access}
use fastapitemplate.Tokens.Kinds.{IsIntact, decode-intact}
use fastapitemplate.Tokens.Reading.{decode_claims, verify_access_token}
use fastapitemplate.Users.{User, permission_codes_of}

-- The code is allowed by a role of the user, in the user's seat, and by the list of the machine.
abbrev pub is_allowed : User → (operations : List String) → (code : String) → Bool
is_allowed user operations code =
    contains code (permission_codes_of user none) && contains code operations

-- The gate lets the request through.
abbrev pub opens : {A : Type 0} → Gated A → Bool
opens (raised error, audit) = false
opens (done answer, audit) = true

scopes-is_allowed :
    (user : User) (operations : List String) (code : String)
    → contains code (machine_scopes user operations) ≡ is_allowed user operations code
unfolding machine_scopes
scopes-is_allowed user operations code =
    contains-keep (λ c. contains c operations) code (permission_codes_of user none)

can-machine :
    (user : User) (client_id : String) (operations codes : List String)
    → can (machine_principal user client_id operations) codes
      ≡ all (is_allowed user operations) codes
unfolding can
can-machine user client_id operations codes =
    ap (λ test. all test codes) (fun_ext (scopes-is_allowed user operations))

any-machine :
    (user : User) (client_id : String) (operations codes : List String)
    → any (λ code. can (machine_principal user client_id operations) (code ∷ [])) codes
      ≡ any (is_allowed user operations) codes
unfolding can
any-machine user client_id operations [] = refl
any-machine user client_id operations (code ∷ codes) =
    ground
      (arith, scopes-is_allowed user operations code, any-machine user client_id operations codes)

module _ {Token : Type 0} (jwt : Jwt Token) (law : IsIntact jwt) (settings : TokenSettings)
    (lower : String → String) where
  -- Whenever the token of a machine is read at all, it is read as the machine's principal.
  operation_principal-machine :
      (user : User) (client_id : String) (operations : List String) (issued now : ℕ)
      (p : AuthenticatedPrincipal)
      → get_operation_principal jwt settings lower
          (some (create_machine_access_token jwt settings user client_id operations issued).token)
          now
        ≡ done p
      → p ≡ machine_principal user client_id operations
  unfolding get_operation_principal verify_access_token create_machine_access_token
  operation_principal-machine user client_id operations issued now p e =
      let claims = machine_claims settings user client_id operations issued in
      elim (Result-cases
        (decode_claims jwt settings (jwt.encode claims settings.jwt_secret_key) now)) [
          | inl (reason, refused) ↦ absurd (ground arith)
          | inr (read, decoded) ↦
              let as_written =
                ap check_access (decode-intact jwt law settings claims read now decoded)
                ∙ check_access-machine_claims settings user client_id operations issued in
              ground (arith, as_written)
        ]

  -- Behind a token of a machine that is in order, a gate answers as its check does for that machine.
  gate-machine :
      {A : Type 0} (check : List AuditEvent → AuthenticatedPrincipal → Gated A) (user : User)
      (client_id : String) (operations : List String) (issued now : ℕ) (audit : List AuditEvent)
      (p : AuthenticatedPrincipal)
      → get_operation_principal jwt settings lower
          (some (create_machine_access_token jwt settings user client_id operations issued).token)
          now
        ≡ done p
      → gate jwt settings lower check
          (some (create_machine_access_token jwt settings user client_id operations issued).token)
          now
          audit
        ≡ check audit (machine_principal user client_id operations)
  unfolding gate
  gate-machine check user client_id operations issued now audit p e =
      rw (e, gate)
        (ap (check audit) (operation_principal-machine user client_id operations issued now p e))

person_only-machine :
    (request : Request) (audit : List AuditEvent) (user : User) (client_id : String)
    (operations : List String)
    → is_empty client_id ≡ false
    → opens (person_only request audit (machine_principal user client_id operations)) ≡ false
unfolding person_only
person_only-machine request audit user client_id operations named = rw named refl

check_permission-machine :
    (clients : List MachineClient) (codes : List String) (request : Request)
    (audit : List AuditEvent) (user : User) (client_id : String) (operations : List String)
    → opens
        (check_permission clients codes request audit (machine_principal user client_id operations))
      ≡ all (is_allowed user operations) codes
unfolding check_permission refuse_missing
check_permission-machine clients codes request audit user client_id operations =
    rw (sym (can-machine user client_id operations codes)) (ground arith)

check_any_permission-machine :
    (clients : List MachineClient) (codes : List String) (request : Request)
    (audit : List AuditEvent) (user : User) (client_id : String) (operations : List String)
    → opens (
        check_any_permission clients codes request audit
          (machine_principal user client_id operations))
      ≡ any (is_allowed user operations) codes
unfolding check_any_permission refuse_missing
check_any_permission-machine clients codes request audit user client_id operations =
    rw (sym (any-machine user client_id operations codes)) (ground arith)

-- What the token of a machine opens, while it is in order: no route that is for persons; a route that asks
-- for permissions exactly if each of them is allowed both by a role of the user, in the user's seat, and by
-- the operations that the token was made for; a route that asks for any of several exactly if one of them
-- is. The identifier of the client is not empty.
pub machine-opens :
    {Token : Type 0} (jwt : Jwt Token) (law : IsIntact jwt) (settings : TokenSettings)
    (lower : String → String) (clients : List MachineClient) (codes : List String)
    (request : Request) (audit : List AuditEvent) (user : User) (client_id : String)
    (operations : List String) (issued now : ℕ) (p : AuthenticatedPrincipal)
    → is_empty client_id ≡ false
    → get_operation_principal jwt settings lower
        (some (create_machine_access_token jwt settings user client_id operations issued).token)
        now
      ≡ done p
    → let token = create_machine_access_token jwt settings user client_id operations issued in
      (opens (get_current_principal jwt settings lower request (some token.token) now audit)
        ≡ false)
      × (opens (
            require_permission jwt settings lower clients codes request
              (some token.token)
              now
              audit)
          ≡ all (is_allowed user operations) codes)
      × (opens (
            require_any_permission jwt settings lower clients codes request
              (some token.token)
              now
              audit)
          ≡ any (is_allowed user operations) codes)
unfolding get_current_principal require_permission require_any_permission
machine-opens jwt law settings lower clients codes request audit user client_id operations issued
      now p named e =
    (
      ap opens (
            gate-machine jwt law settings lower (person_only request) user client_id operations
              issued now audit p e)
          ∙ person_only-machine request audit user client_id operations named,
      ap opens (
            gate-machine jwt law settings lower (check_permission clients codes request) user
              client_id operations issued now audit p e)
          ∙ check_permission-machine clients codes request audit user client_id operations,
      ap opens (
            gate-machine jwt law settings lower (check_any_permission clients codes request) user
              client_id operations issued now audit p e)
          ∙ check_any_permission-machine clients codes request audit user client_id operations,
    )
