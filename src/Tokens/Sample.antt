-- ===== src/Tokens/Sample.antt =====
-- A signing library that keeps the claims and the key beside each other, with a user, the tables and the
-- settings of an application: what the hypotheses on the library and on the tables are met by.
use fastapitemplate.Common.Clock.{second}
use fastapitemplate.Common.Results.{done, raised}
use fastapitemplate.Common.Value.{Fields, get, as_text, as_int}
use fastapitemplate.Common.{
  ℕ, ◌*◌, ◌+◌, refl, String, Bool, true, false, ◌&&◌, none, some, or_else, leb, ltb, le→leb, lt→ltb,
  List, [], ◌∷◌, string_eq, option_eq, ◌==◌, beq_self, if◌then◌else◌, arith,
}
use fastapitemplate.RefreshSessions.{RefreshSession}
use fastapitemplate.Tokens.{Jwt, expired_signature, invalid_token, TokenSettings, Database}
use fastapitemplate.Tokens.Carry.{ReadsBack}
use fastapitemplate.Tokens.Kinds.{IsIntact}
use fastapitemplate.Users.{User, Tenant}

-- The signature, the issuer, the audience and the time of issue are in order.
abbrev pub in_order : Fields × String → (key audience issuer : String) → (leeway now : ℕ) → Bool
in_order (claims, signed_with) key audience issuer leeway now =
    signed_with == key
    && as_text (get claims "iss") == some issuer
    && as_text (get claims "aud") == some audience
    && leb (or_else (as_int (get claims "iat")) 0 * second) (now + leeway)

unfoldable pub sample_jwt : Jwt (Fields × String)
unfolding get as_text as_int
sample_jwt = record {
  encode = λ claims key. (claims, key);
  decode = λ token key audience issuer leeway now.
      if in_order token key audience issuer leeway now
      then if ltb now (or_else (as_int (get token.0 "exp")) 0 * second + leeway)
        then done token.0
        else raised expired_signature
      else raised invalid_token;
}

pub sample_jwt-ReadsBack : ReadsBack sample_jwt
unfolding sample_jwt as_text as_int
sample_jwt-ReadsBack claims key audience issuer subject issued expires leeway now iss aud sub iat
      exp past fresh =
    rw
      (
        iss,
        aud,
        iat,
        exp,
        beq_self key,
        beq_self issuer,
        beq_self audience,
        le→leb _ _ past,
        lt→ltb _ _ fresh,
      )
      refl

pub sample_jwt-IsIntact : IsIntact sample_jwt
unfolding sample_jwt
sample_jwt-IsIntact claims read key audience issuer leeway now e = ground arith

abbrev pub sample_settings : TokenSettings
sample_settings = record {
  jwt_secret_key = "secret";
  access_token_issuer = "app";
  access_token_audience = "app-users";
  access_token_expires_seconds = 300;
  local_two_factor_required = false;
  refresh = record { refresh_token_expires_seconds = 3600; refresh_token_sliding_enabled = true };
}

abbrev pub sample_user : User
sample_user = record {
  id = 12;
  email = "ann@example.com";
  username = "ann";
  password_hash = some "hash";
  is_active = true;
  roles = record { name = "member"; permissions = "item:view" ∷ "note:view" ∷ [] } ∷ [];
  sessions_valid_from = none;
  tenant_id = some 1;
}

abbrev pub sample_tenant : Tenant
sample_tenant = record {
  id = 1;
  slug = "acme";
  issuer = some "idp";
  client_id = some "app";
  is_active = true;
}

-- The record of a login whose refresh token `t` is the current one.
abbrev pub sample_row : (id jti : String) → (expires_at : ℕ) → RefreshSession
sample_row id jti expires_at = record {
  id = id;
  user_id = 12;
  current_jti = jti;
  previous_jti = none;
  rotated_at = none;
  expires_at = expires_at;
}

abbrev pub sample_database : List RefreshSession → Database
sample_database rows = record {
  users = sample_user ∷ [];
  tenants = sample_tenant ∷ [];
  refresh_sessions = rows;
  revocations = [];
  totp_secrets = [];
  passkeys = [];
}
