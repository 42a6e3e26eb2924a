-- ===== src/Tokens/Kinds.antt =====
-- The three tokens of a login do not stand in for one another.
use fastapitemplate.Common.Results.{done, Result-cases}
use fastapitemplate.Common.Value.{Fields}
use fastapitemplate.Common.{
  ℕ, ◌≡◌, refl, ap, ◌∙◌, String, false, Option, none, arith, List, inl, inr,
}
use fastapitemplate.RefreshSessions.{RefreshSession}
use fastapitemplate.SessionCookies.{SessionCarryOver}
use fastapitemplate.Tokens.{
  Jwt, TokenSettings, Database, access_claims, refresh_claims, logout_claims, create_token_pair,
}
use fastapitemplate.Tokens.Claims.{AuthenticatedPrincipal, check_access, has_type}
use fastapitemplate.Tokens.Reading.{
  decode_claims, verify_access_token, verify_refresh_token, end_refresh_session, check_refresh,
  login_to_end,
}
use fastapitemplate.Users.{User}

-- What the library documents of a signature: a token that decodes, decodes to the claims it was made of.
abbrev pub IsIntact : {Token : Type 0} → Jwt Token → Type 0
IsIntact jwt =
    (claims read : Fields) (key audience issuer : String) (leeway now : ℕ)
    → jwt.decode (jwt.encode claims key) key audience issuer leeway now ≡ done read
    → read ≡ claims

pub decode-intact :
    {Token : Type 0} (jwt : Jwt Token) (law : IsIntact jwt) (settings : TokenSettings)
    (claims read : Fields) (now : ℕ)
    → decode_claims jwt settings (jwt.encode claims settings.jwt_secret_key) now ≡ done read
    → read ≡ claims
unfolding decode_claims
decode-intact jwt law settings claims read now e =
    elim (Result-cases (
      jwt.decode (jwt.encode claims settings.jwt_secret_key) settings.jwt_secret_key
        settings.access_token_audience settings.access_token_issuer 0 now)) [
          | inl (error, refused) ↦ absurd (ground arith)
          | inr (cs, decoded) ↦ ground (
            arith,
            law claims cs settings.jwt_secret_key settings.access_token_audience
                settings.access_token_issuer 0 now decoded,
          )
        ]

access-only :
    {Token : Type 0} (jwt : Jwt Token) (law : IsIntact jwt) (settings : TokenSettings)
    (claims : Fields) (now : ℕ) (p : AuthenticatedPrincipal)
    → has_type claims "access" ≡ false
    → ¬ (verify_access_token jwt settings (jwt.encode claims settings.jwt_secret_key) now ≡ done p)
unfolding verify_access_token check_access
access-only jwt law settings claims now p other e =
    elim (Result-cases
      (decode_claims jwt settings (jwt.encode claims settings.jwt_secret_key) now)) [
        | inl (reason, refused) ↦ ground arith
        | inr (cs, read) ↦ ground (
          arith,
          ap (λ x. has_type x "access") (decode-intact jwt law settings claims cs now read),
        )
      ]

refresh-only :
    {Token : Type 0} (jwt : Jwt Token) (law : IsIntact jwt) (settings : TokenSettings)
    (claims : Fields) (db : Database) (decoded_at checked_at now : ℕ)
    → has_type claims "refresh" ≡ false
    → verify_refresh_token jwt settings
        (jwt.encode claims settings.jwt_secret_key)
        db
        decoded_at
        checked_at
        now
      ≡ none
unfolding verify_refresh_token check_refresh
refresh-only jwt law settings claims db decoded_at checked_at now other =
    elim (Result-cases
      (decode_claims jwt settings (jwt.encode claims settings.jwt_secret_key) decoded_at)) [
        | inl (reason, refused) ↦ rw (refused, verify_refresh_token) refl
        | inr (cs, read) ↦
            let same =
              ap (λ x. has_type x "refresh")
                (decode-intact jwt law settings claims cs decoded_at read) in
            rw (read, same ∙ other, verify_refresh_token, check_refresh) refl
      ]

logout-only :
    {Token : Type 0} (jwt : Jwt Token) (law : IsIntact jwt) (settings : TokenSettings)
    (claims : Fields) (rows : List RefreshSession) (now : ℕ)
    → has_type claims "logout" ≡ false
    → end_refresh_session jwt settings (jwt.encode claims settings.jwt_secret_key) rows now ≡ rows
unfolding end_refresh_session login_to_end
logout-only jwt law settings claims rows now other =
    elim (Result-cases
      (decode_claims jwt settings (jwt.encode claims settings.jwt_secret_key) now)) [
        | inl (reason, refused) ↦ rw (refused, end_refresh_session) refl
        | inr (cs, read) ↦
            let same =
              ap (λ x. has_type x "logout") (decode-intact jwt law settings claims cs now read) in
            rw (read, same ∙ other, end_refresh_session, login_to_end) refl
      ]

-- The tokens of a login do one thing each, at any time: no refresh token and no logout token is accepted
-- as an access token, no access token and no logout token refreshes a login, and no access token and no
-- refresh token ends one.
pub kinds_apart :
    {Token : Type 0} (jwt : Jwt Token) (law : IsIntact jwt) (settings : TokenSettings)
    (before db : Database) (user : User) (scopes : Option (List String)) (c : SessionCarryOver)
    (expires_at : Option ℕ) (id jti : String) (issued decoded_at checked_at now : ℕ)
    (p q : AuthenticatedPrincipal)
    → let pair = create_token_pair jwt settings before user scopes c expires_at id jti issued in
      (¬ (verify_access_token jwt settings pair.refresh_token now ≡ done p))
      × (¬ (verify_access_token jwt settings pair.logout_token now ≡ done q))
      × (verify_refresh_token jwt settings pair.access_token db decoded_at checked_at now ≡ none)
      × (verify_refresh_token jwt settings pair.logout_token db decoded_at checked_at now ≡ none)
      × (end_refresh_session jwt settings pair.access_token db.refresh_sessions now
          ≡ db.refresh_sessions)
      × (end_refresh_session jwt settings pair.refresh_token db.refresh_sessions now
          ≡ db.refresh_sessions)
unfolding create_token_pair access_claims refresh_claims logout_claims has_type
kinds_apart jwt law settings before db user scopes c expires_at id jti issued decoded_at checked_at
      now p q =
    (
      access-only jwt law settings _ now p refl,
      access-only jwt law settings _ now q refl,
      refresh-only jwt law settings _ db decoded_at checked_at now refl,
      refresh-only jwt law settings _ db decoded_at checked_at now refl,
      logout-only jwt law settings _ db.refresh_sessions now refl,
      logout-only jwt law settings _ db.refresh_sessions now refl,
    )
