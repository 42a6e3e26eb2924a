-- ===== src/AuthRoutes/History.antt =====
-- Requests to the routes, in any order.
use fastapitemplate.Common.Lists.{All}
use fastapitemplate.Common.Table
use fastapitemplate.Common.Table.{update_where}
use fastapitemplate.Common.Results.{Result-cases}
use fastapitemplate.Common.{
  ℕ, ◌≡◌, ◌≢◌, refl, String, Bool, not, Option, none, some, List, [], ◌∷◌, arith, none_or, some_and,
  nat_eq, ◌==◌, Option-cases, inl, inr, if-both,
}
use fastapitemplate.Gates.{CurrentSession}
use fastapitemplate.PasswordReset.{with_password}
use fastapitemplate.RefreshSessions.{RefreshSession}
use fastapitemplate.SessionCookies.{SessionCarryOver, Draws, Response, fresh_sign_in}
use fastapitemplate.SignIn.{LoginRequest, Readings, Answer, Trail}
use fastapitemplate.Throttle.{Permission, allowed, too_many_attempts}
use fastapitemplate.Tokens.{Jwt}
use fastapitemplate.Tokens.Claims.{AuthenticatedPrincipal, RefreshedSession}
use fastapitemplate.Tokens.Reading.{
  verify_refresh_token, end_refresh_session, decode_claims, login_to_end,
}
use fastapitemplate.Users.{User, user_key, has_role}
use fastapitemplate.AuthRoutes.{
  App, AuthSettings, RouteAnswer, establish, opened, is_established, with_users,
}
use fastapitemplate.AuthRoutes.Sessions.{
  refresh, logout, login, enter, switch_role, switched_carry, with_trail,
}
use fastapitemplate.AuthRoutes.Recovery.{
  changed_carry, change_password, set_password, changed, forgot_password, forgot_allowed,
  reset_password,
}
use fastapitemplate.AuthRoutes.Profile.{update_me, update_profile}
use fastapitemplate.AuthRoutes.Absence.{
  IsGone, IsOver, establish-IsGone, end-IsGone, switched-IsOver, requested-IsOver, completed-IsOver,
  refresh_session-IsOver,
}

-- A request: what the gate in front of its route found, what it sends, the readings of the clock and what
-- it draws. `enter_otherwise` is a sign-in by a passkey or by the identity provider, whose route ends
-- with `establish_session` too.
pub data Request (Token : Type 0) : Type 0 where
  sign_in : (request : LoginRequest) (at : Readings) (draws : Draws) → Request Token
  enter_otherwise : (user : User) (carried : SessionCarryOver) (draws : Draws) → Request Token
  renew : (token : Option Token) (decoded_at checked_at now : ℕ) (draws : Draws) → Request Token
  sign_out : (token : Option Token) (now : ℕ) → Request Token
  switch : (current : CurrentSession) (role : Option String) (draws : Draws) → Request Token
  change :
      (current : CurrentSession) (current_password new_password : String) (ended_at : ℕ)
      (draws : Draws)
      → Request Token
  forget :
      (email : String) (tenant : Option String) (token : String) (allowed_at counted_at now : ℕ)
      → Request Token
  choose : (token new_password : String) (checked_at ended_at used_at : ℕ) → Request Token
  edit : (principal : AuthenticatedPrincipal) (email username : String) (now : ℕ) → Request Token

-- The identifier that a request draws for a new login is not the one of a login before.
abbrev pub DrawsOther : {Token : Type 0} → String → Request Token → Type 0
DrawsOther id (sign_in request at draws) = draws.session_id ≢ id
DrawsOther id (enter_otherwise user carried draws) = draws.session_id ≢ id
DrawsOther id (renew token decoded_at checked_at now draws) = draws.session_id ≢ id
DrawsOther id (switch current role draws) = draws.session_id ≢ id
DrawsOther id (change current p q ended_at draws) = draws.session_id ≢ id
DrawsOther id _ = Unit {0}

module _ {Token : Type 0} (jwt : Jwt Token) (lower : String → String)
    (check_password_hash : (hash password : String) → Bool)
    (generate_password_hash : String → String) (hash_token : String → String)
    (verify : ℕ → String → String → Bool) (settings : AuthSettings) where
  unfoldable pub route : App → Request Token → RouteAnswer × App
  unfolding establish
  route app (sign_in request at draws) =
      login jwt lower check_password_hash generate_password_hash hash_token verify settings app
        request at draws
  route app (enter_otherwise user carried draws) =
      opened app (establish settings app user carried draws)
  route app (renew token decoded_at checked_at now draws) =
      refresh jwt lower check_password_hash generate_password_hash hash_token verify settings app
        token decoded_at checked_at now draws
  route app (sign_out token now) =
      logout jwt lower check_password_hash generate_password_hash hash_token verify settings app
        token now
  route app (switch current role draws) = switch_role settings app current role draws
  route app (change current current_password new_password ended_at draws) =
      change_password jwt lower check_password_hash generate_password_hash hash_token verify
        settings app current current_password new_password ended_at draws
  route app (forget email tenant token allowed_at counted_at now) =
      forgot_password jwt lower check_password_hash generate_password_hash hash_token verify
        settings app email tenant token allowed_at counted_at now
  route app (choose token new_password checked_at ended_at used_at) =
      reset_password jwt lower check_password_hash generate_password_hash hash_token verify settings
        app token new_password checked_at ended_at used_at
  route app (edit principal email username now) =
      update_me settings app principal email username now

  unfoldable pub after : App → List (Request Token) → App
  unfolding route
  after app [] = app
  after app (r ∷ requests) = after (route app r).1 requests

  enter-IsOver :
      (id : String) (app : App) (draws : Draws) (answer : Answer) (trail : Trail)
      → draws.session_id ≢ id
      → IsGone id app.db.refresh_sessions
      → IsOver id (
          enter jwt lower check_password_hash generate_password_hash hash_token verify settings app
            draws
            (answer, trail))
  unfolding enter
  enter-IsOver id app draws (Answer.signed_in user) trail other gone =
      establish-IsGone id settings
        (with_trail jwt lower check_password_hash generate_password_hash hash_token verify settings
          app trail)
        user fresh_sign_in draws other gone
  enter-IsOver id app draws Answer.invalid_credentials trail other gone = gone
  enter-IsOver id app draws (Answer.second_factor e) trail other gone = gone
  enter-IsOver id app draws (Answer.locked wait) trail other gone = gone

  renew-IsOver :
      (id : String) (app : App) (refreshed : Option RefreshedSession) (token : Token)
      (decoded_at checked_at now : ℕ) (draws : Draws)
      → verify_refresh_token jwt settings.tokens token app.db decoded_at checked_at now ≡ refreshed
      → draws.session_id ≢ id
      → IsGone id app.db.refresh_sessions
      → IsOver id (
          refresh jwt lower check_password_hash generate_password_hash hash_token verify settings
            app
            (some token)
            decoded_at
            checked_at
            now
            draws)
  unfolding refresh
  renew-IsOver id app none token decoded_at checked_at now draws e other gone = rw (e, refresh) gone
  renew-IsOver id app (some refreshed) token decoded_at checked_at now draws e other gone =
      rw (e, refresh) (refresh_session-IsOver id settings app refreshed draws other gone)

  sign_out-IsGone :
      (id : String) (token : Token) (rows : List RefreshSession) (now : ℕ)
      → IsGone id rows
      → IsGone id (end_refresh_session jwt settings.tokens token rows now)
  unfolding end_refresh_session
  sign_out-IsGone id token rows now gone =
      elim (Result-cases (decode_claims jwt settings.tokens token now)) [
        | inl (reason, refused) ↦ rw (refused, end_refresh_session) gone
        | inr (cs, read) ↦ elim (Option-cases (login_to_end cs)) [
          | inl nothing ↦ rw (read, nothing, end_refresh_session) gone
          | inr (other, named) ↦
              rw (read, named, end_refresh_session) (end-IsGone id other rows gone)
        ]
      ]

  changed-IsOver :
      (id : String) (app later : App) (user_id : ℕ) (r : Response × List RefreshSession)
      → IsGone id app.db.refresh_sessions
      → IsGone id r.1
      → IsOver id (
          changed jwt lower check_password_hash generate_password_hash hash_token verify settings
            app later user_id r)
  changed-IsOver id app later user_id (response, rows) before gone =
      if-both (IsOver id) (is_established response) gone before

  set_password-IsOver :
      (id : String) (app : App) (current : CurrentSession) (new_password : String) (ended_at : ℕ)
      (draws : Draws)
      → draws.session_id ≢ id
      → IsGone id app.db.refresh_sessions
      → IsOver id (
          set_password jwt lower check_password_hash generate_password_hash hash_token verify
            settings app current new_password ended_at draws)
  unfolding set_password
  set_password-IsOver id app current new_password ended_at draws other gone =
      let change = with_password (generate_password_hash new_password) ended_at in
      let later =
        with_users app (update_where (λ u. u.id == current.user.id) change app.db.users) in
      changed-IsOver id app later current.user.id
        (establish settings later (change current.user) (changed_carry current) draws) gone
        (establish-IsGone id settings later (change current.user) (changed_carry current) draws
          other gone)

  edit-IsOver :
      (id : String) (app : App) (principal : AuthenticatedPrincipal) (user : User)
      (email username : String) (now : ℕ)
      → IsGone id app.db.refresh_sessions
      → IsOver id (update_profile settings app principal user email username now)
  unfolding update_profile
  edit-IsOver id app principal user email username now gone = ground arith

  forgot-IsOver :
      (id : String) (app : App) (email : String) (tenant : Option String) (token : String)
      (counted_at now : ℕ) (permission : Permission)
      → IsGone id app.db.refresh_sessions
      → IsOver id (
          forgot_allowed jwt lower check_password_hash generate_password_hash hash_token verify
            settings app email tenant token counted_at now permission)
  unfolding forgot_allowed
  forgot-IsOver id app email tenant token counted_at now (too_many_attempts wait) gone = gone
  forgot-IsOver id app email tenant token counted_at now allowed gone = requested-IsOver id _ _ gone

  -- No route brings a login back that has no record.
  pub route-IsOver :
      (id : String) (app : App) (request : Request Token)
      → DrawsOther id request
      → IsGone id app.db.refresh_sessions
      → IsOver id (route app request)
  unfolding route login switch_role change_password forgot_password reset_password update_me refresh
      logout
  route-IsOver id app (sign_in request at draws) other gone =
      if-both (IsOver id) (not settings.local_login_enabled) gone
        (enter-IsOver id app draws _ _ other gone)
  route-IsOver id app (enter_otherwise user carried draws) other gone =
      establish-IsGone id settings app user carried draws other gone
  route-IsOver id app (renew none decoded_at checked_at now draws) other gone = gone
  route-IsOver id app (renew (some token) decoded_at checked_at now draws) other gone =
      renew-IsOver id app _ token decoded_at checked_at now draws refl other gone
  route-IsOver id app (sign_out none now) other gone = gone
  route-IsOver id app (sign_out (some token) now) other gone =
      sign_out-IsGone id token app.db.refresh_sessions now gone
  route-IsOver id app (switch current role draws) other gone =
      if-both (IsOver id) (none_or (has_role current.user.roles) role)
        (switched-IsOver id app current.user.id role _ (
          establish-IsGone id settings app current.user (switched_carry current role) draws other
            gone))
        gone
  route-IsOver id app (change current p q ended_at draws) other gone =
      if-both (IsOver id) (not settings.local_login_enabled) gone (
        if-both (IsOver id)
          (not (some_and (λ hash. check_password_hash hash p) current.user.password_hash)) gone
          (set_password-IsOver id app current q ended_at draws other gone))
  route-IsOver id app (forget email tenant token allowed_at counted_at now) other gone =
      if-both (IsOver id) (not settings.local_login_enabled) gone
        (forgot-IsOver id app email tenant token counted_at now _ gone)
  route-IsOver id app (choose token new_password checked_at ended_at used_at) other gone =
      if-both (IsOver id) (not settings.local_login_enabled) gone (completed-IsOver id app _ gone)
  route-IsOver id app (edit principal email username now) other gone =
      elim (Option-cases (Table.find user_key principal.user_id app.db.users)) [
        | inl missing ↦ rw (missing, update_me) gone
        | inr (user, found) ↦
            rw (found, update_me) (edit-IsOver id app principal user email username now gone)
      ]

  pub after-IsGone :
      (id : String) (app : App) (requests : List (Request Token))
      → All (DrawsOther id) requests
      → IsGone id app.db.refresh_sessions
      → IsGone id (after app requests).db.refresh_sessions
  unfolding after
  after-IsGone id app [] others gone = gone
  after-IsGone id app (r ∷ requests) (other, others) gone =
      after-IsGone id (route app r).1 requests others (route-IsOver id app r other gone)
