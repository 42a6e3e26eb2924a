-- ===== src/AuthRoutes/Profile.antt =====
-- `update_me` of presentation/fastapi/routers/auth.py. Requests run one after the other, so that no other one
-- takes the address between the check and the write.
use fastapitemplate.Audit.{success, failure, profile_updated, record_event}
use fastapitemplate.Common.Table.{find, update_where}
use fastapitemplate.Common.Text.{append_text, join_texts}
use fastapitemplate.Common.{
  ℕ, String, not, ◌&&◌, none, some, List, [], ◌∷◌, nat_eq, string_eq, ◌==◌, if◌then◌else◌,
}
use fastapitemplate.Gates.{signed_in_recently}
use fastapitemplate.Reconciliation.{is_linked}
use fastapitemplate.Tokens.Claims.{AuthenticatedPrincipal}
use fastapitemplate.Users.{User, user_key}
use fastapitemplate.Users.Directory.{email_taken}
use fastapitemplate.AuthRoutes.{
  AuthSettings, App, RouteAnswer, with_audit, with_users, unauthorized, profile,
  profile_managed_by_idp, email_already_exists, reauthentication_required,
}

-- The names of the fields that differ, in their order.
abbrev pub changed_fields : User → (email username : String) → List String
changed_fields user email username =
    if email == user.email
    then if username == user.username then [] else "username" ∷ []
    else if username == user.username
    then "email" ∷ []
    else "email" ∷ "username" ∷ []

abbrev pub fields_label : List String → String
fields_label [] = "fields=none"
fields_label (f ∷ fs) = append_text "fields=" (join_texts "," (f ∷ fs))

-- `update_me` for the row of the principal.
unfoldable pub update_profile :
    AuthSettings
    → App
    → AuthenticatedPrincipal
    → User
    → (email username : String) → (now : ℕ) → RouteAnswer × App
unfolding is_linked signed_in_recently email_taken record_event update_where
update_profile settings app principal user email username now =
    if is_linked app.links user.id
    then if email == user.email && username == user.username then (profile, app) else (
      profile_managed_by_idp,
      with_audit app (some principal.user_id) profile_updated failure none
          (some "profile_managed_by_idp"),
    )
    else if not (email == user.email)
        && not (signed_in_recently settings.recent_sign_in_seconds now principal)
    then (reauthentication_required, app)
    else if email_taken app.db.users email user.tenant_id (some user.id)
    then (
      email_already_exists,
      with_audit app (some principal.user_id) profile_updated failure none
          (some "email_already_exists"),
    )
    else (
      profile,
      with_audit
          (with_users app (
            update_where (λ u. u.id == user.id)
              (λ u. record u { email = email; username = username }) app.db.users))
          (some principal.user_id) profile_updated success none
          (some (fields_label (changed_fields user email username))),
    )

-- `update_me`
unfoldable pub update_me :
    AuthSettings
    → App
    → AuthenticatedPrincipal
    → (email username : String) → (now : ℕ) → RouteAnswer × App
unfolding update_profile find
update_me settings app principal email username now =
    elim (find user_key principal.user_id app.db.users) [
      | none ↦ (unauthorized, app)
      | some user ↦ update_profile settings app principal user email username now
    ]
