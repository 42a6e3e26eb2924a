-- ===== src/TwoFactor/Tests.antt =====
-- The second factor at concrete inputs. The authenticator that stands for the library's accepts the
-- secret itself as a code.
use fastapitemplate.Common.Results.{raised}
use fastapitemplate.Common.Table.{find}
use fastapitemplate.Common.{
  ℕ, String, ◌≡◌, refl, Bool, some, List, [], ◌∷◌, ◌==◌, string_eq, nat_eq,
}
use fastapitemplate.TwoFactor.{
  TotpSecret, owner, two_factor_status, disable, invalid_totp_code, verify_second_factor,
  check_code,
}
use fastapitemplate.TwoFactor.Laws.{Request, start, remove, serve, enabled-stays}

abbrev same : ℕ → String → String → Bool
same at secret code = secret == code

abbrev uri : String → String → String
uri secret account_name = secret

abbrev kept : TotpSecret
kept = record { user_id = 7; secret = "S7"; confirmed_at = some 5 }

kept-found : find owner 7 (kept ∷ []) ≡ some kept
unfolding find
kept-found = refl

abbrev requests : List Request
requests = remove 7 "guess" 8 ∷ start 7 "ann" "T7" ∷ start 8 "bob" "S8" ∷ remove 8 "" 9 ∷ []

enabled-stays_example :
    verify_second_factor same (serve uri same (kept ∷ []) requests) 7 (some "S7") 10
    ≡ check_code same "S7" (some "S7") 10
enabled-stays_example =
    enabled-stays uri same (kept ∷ []) 7 "S7" 5 requests (some "S7") 10 kept-found
      (refl, (refl, (refl, (refl, tt))))

wrong_code : disable same (kept ∷ []) 7 "guess" 8 ≡ raised invalid_totp_code
unfolding disable find
wrong_code = refl

off_at_first : (two_factor_status [] 7).enabled ≡ Bool.false
unfolding two_factor_status find
off_at_first = refl
