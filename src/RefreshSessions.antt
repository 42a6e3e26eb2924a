-- ===== src/RefreshSessions.antt =====
-- presentation/fastapi/services/refresh_sessions.py: the record that each login keeps of its refresh
-- token, one row of `refresh_sessions` for one login (shared/infrastructure/models/user.py). The
-- table is the list of its rows. Every function takes its readings of `utcnow()` as arguments.
-- `created_at` is left out: nothing reads it. An `UPDATE` or a `DELETE` is one step.
pub mod Standing
pub mod Rotation
pub mod History
mod Tests
use fastapitemplate.Common.Clock.{seconds, whole_second, total_seconds}
use fastapitemplate.Common.Table.{
  find, insert_row, delete_where, delete_key, update_where, count_where,
}
use fastapitemplate.Common.{
  ℕ, ◌+◌, ◌-◌, String, Bool, true, false, not, ◌&&◌, Option, none, some, List, ltb, leb, none_or,
  some_and, ◌==◌, string_eq, option_eq, nat_eq, if◌then◌else◌,
}

-- `REUSE_GRACE_SECONDS`
abbrev pub reuse_grace_seconds : ℕ
reuse_grace_seconds = 30

-- `timedelta(seconds=REUSE_GRACE_SECONDS)`
abbrev pub grace : ℕ
grace = seconds reuse_grace_seconds

pub data RefreshStanding : Type 0 where
  current just_rotated reused : RefreshStanding

pub record RefreshSession : Type 0 where
  pub id : String
  pub user_id : ℕ
  pub current_jti : String
  pub previous_jti : Option String
  pub rotated_at : Option ℕ
  pub expires_at : ℕ

pub record RefreshLifetime : Type 0 where
  pub expires_at : ℕ
  pub extends : Bool
  pub max_age : ℕ

pub record IssuedRefreshToken : Type 0 where
  pub session_id : String
  pub jti : String
  pub lifetime : RefreshLifetime

-- The two settings that the module reads (shared/kernel/settings/settings.py).
pub record Settings : Type 0 where
  pub refresh_token_expires_seconds : ℕ
  pub refresh_token_sliding_enabled : Bool

abbrev pub row_id : RefreshSession → String
row_id r = r.id

-- `now - rotated_at <= grace` over the integers, for a time that may be missing.
abbrev pub within_grace : Option ℕ → ℕ → Bool
within_grace rotated_at now = some_and (λ t. leb now (t + grace)) rotated_at

unfoldable pub standing_of : RefreshSession → String → ℕ → RefreshStanding
standing_of row jti now =
    if jti == row.current_jti
    then current
    else if some jti == row.previous_jti && within_grace row.rotated_at now
    then just_rotated
    else reused

unfoldable pub has_expired : RefreshSession → ℕ → Bool
has_expired row now = leb row.expires_at now

-- The period that a new login, or a sliding one, is given.
unfoldable pub fresh_lifetime : Settings → ℕ → RefreshLifetime
fresh_lifetime settings now = record {
  expires_at = whole_second (now + seconds settings.refresh_token_expires_seconds);
  extends = true;
  max_age = settings.refresh_token_expires_seconds;
}

-- `max(0, int((kept - now).total_seconds()))` is the truncated difference in whole seconds.
unfoldable pub kept_lifetime : ℕ → ℕ → RefreshLifetime
kept_lifetime kept now = record {
  expires_at = whole_second kept;
  extends = false;
  max_age = total_seconds (whole_second kept - now);
}

unfoldable pub lifetime_for : Settings → List RefreshSession → Option String → ℕ → RefreshLifetime
unfolding fresh_lifetime kept_lifetime find
lifetime_for settings rows none now = fresh_lifetime settings now
lifetime_for settings rows (some continued) now =
    if settings.refresh_token_sliding_enabled
    then fresh_lifetime settings now
    else elim (find row_id continued rows) [
      | none ↦ fresh_lifetime settings now
      | some row ↦ kept_lifetime row.expires_at now
    ]

unfoldable pub new_row : IssuedRefreshToken → ℕ → RefreshSession
new_row issued user_id = record {
  id = issued.session_id;
  user_id = user_id;
  current_jti = issued.jti;
  previous_jti = none;
  rotated_at = none;
  expires_at = issued.lifetime.expires_at;
}

-- `none` is the `IntegrityError` of an identifier that is taken.
unfoldable pub begin :
    List RefreshSession → IssuedRefreshToken → ℕ → ℕ → Option (List RefreshSession)
unfolding delete_where insert_row new_row
begin rows issued user_id now =
    insert_row row_id (new_row issued user_id) (delete_where (λ r. ltb r.expires_at now) rows)

-- The condition of the `UPDATE` in `rotate`; `now` is the reading behind `settled`.
unfoldable pub may_rotate : IssuedRefreshToken → Option String → ℕ → RefreshSession → Bool
may_rotate issued none now row = row.id == issued.session_id
may_rotate issued (some expected) now row =
    row.id == issued.session_id
    && row.current_jti == expected
    && none_or (λ t. ltb (t + grace) now) row.rotated_at

-- Its assignments, in their order; `now` is the reading that is stored.
unfoldable pub rotated_row : IssuedRefreshToken → ℕ → RefreshSession → RefreshSession
rotated_row issued now row = record row {
  previous_jti = some row.current_jti;
  current_jti = issued.jti;
  rotated_at = some now;
  expires_at = if issued.lifetime.extends then issued.lifetime.expires_at else row.expires_at;
}

-- `settled_at` and `stored_at` are its two readings of the clock, in that order.
unfoldable pub rotate :
    List RefreshSession
    → IssuedRefreshToken
    → Option String
    → (settled_at stored_at : ℕ) → Bool × List RefreshSession
unfolding may_rotate rotated_row update_where count_where
rotate rows issued expected settled_at stored_at = (
  count_where (may_rotate issued expected settled_at) rows == 1,
  update_where (may_rotate issued expected settled_at) (rotated_row issued stored_at) rows,
)

unfoldable pub end : List RefreshSession → String → List RefreshSession
unfolding delete_key
end rows session_id = delete_key row_id session_id rows
