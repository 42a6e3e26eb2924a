-- ===== src/RefreshSessions/Tests.antt =====
-- The refresh sessions at concrete inputs.
use fastapitemplate.Common.Clock.{seconds}
use fastapitemplate.Common.Table.{find, IsKeyed}
use fastapitemplate.Common.{
  String, ◌≡◌, refl, ◌≢◌, true, false, none, some, List, [], ◌∷◌, arith, ◌==◌, ◌&&◌, if◌then◌else◌,
  string_eq, some_and,
}
use fastapitemplate.RefreshSessions.{
  RefreshSession, reused, just_rotated, IssuedRefreshToken, row_id, standing_of, may_rotate,
  rotated_row, rotate, begin, end, has_expired, lifetime_for, Settings,
}
use fastapitemplate.RefreshSessions.Rotation.{rotate-swap}
use fastapitemplate.RefreshSessions.History.{
  Rotation, run, concurrent_tabs, reused_forever, unnamed_rotation_displaces,
}
use mathlib.Core.Option
use text.Mathlib.TextEquality.{eq_iff}

refresh_sessions : Unit {0}
unfolding standing_of has_expired lifetime_for begin rotate end find run
refresh_sessions = tt

abbrev issued : String → IssuedRefreshToken
issued jti = record {
  session_id = "s1";
  jti = jti;
  lifetime = record { expires_at = 900; extends = false; max_age = 0 };
}

abbrev row : RefreshSession
row = record {
  id = "s1";
  user_id = 7;
  current_jti = "j1";
  previous_jti = none;
  rotated_at = none;
  expires_at = 900;
}

abbrev turned : RefreshSession
turned = record row { previous_jti = some "j1"; current_jti = "j2"; rotated_at = some 10 }

abbrev other : RefreshSession
other = record row { id = "s2"; current_jti = "k1" }

abbrev rows : List RefreshSession
rows = other ∷ row ∷ []

rows-IsKeyed : IsKeyed row_id rows
unfolding find
rows-IsKeyed = (refl, (refl, tt))

rotate-rows : rotate rows (issued "j2") (some "j1") 10 10 ≡ (true, other ∷ turned ∷ [])
unfolding refresh_sessions
rotate-rows = refl

-- The second of two requests that present the same token loses, and changes nothing.
rotate_loser :
    rotate (other ∷ turned ∷ []) (issued "j3") (some "j1") 11 11 ≡ (false, other ∷ turned ∷ [])
unfolding refresh_sessions
rotate_loser = refl

begin_taken : begin rows (issued "j9") 7 5 ≡ none
unfolding refresh_sessions
begin_taken = refl

end-rows : end rows "s1" ≡ other ∷ []
unfolding refresh_sessions
end-rows = refl

abbrev fixed : Settings
fixed = record { refresh_token_expires_seconds = 60; refresh_token_sliding_enabled = false }

lifetime_kept :
    lifetime_for fixed (record row { expires_at = seconds 100 } ∷ []) (some "s1") (seconds 40)
    ≡ record { expires_at = seconds 100; extends = false; max_age = 60 }
unfolding refresh_sessions
lifetime_kept = refl

turned_just_rotated : standing_of turned "j1" 20 ≡ just_rotated
unfolding refresh_sessions
turned_just_rotated = refl

rotate-swap_example :
    let (done, rows') = rotate rows (issued "j2") (some "j1") 10 10 in
    (done ≡ some_and (may_rotate (issued "j2") (some "j1") 10) (find row_id "s1" rows))
    × (find row_id "s2" rows' ≡ (
        if done && (issued "j2").session_id == "s2"
        then Option.map (rotated_row (issued "j2") 10) (find row_id "s2" rows)
        else find row_id "s2" rows))
    × IsKeyed row_id rows'
rotate-swap_example = rotate-swap rows (issued "j2") (some "j1") 10 10 "s2" rows-IsKeyed

abbrev tabs : List Rotation
tabs =
    record { issued = issued "j2"; expected = some "j1"; settled_at = 10; stored_at = 10 }
    ∷ record { issued = issued "j3"; expected = some "j1"; settled_at = 11; stored_at = 11 }
    ∷ record { issued = issued "j4"; expected = some "j2"; settled_at = 12; stored_at = 12 }
    ∷ []

row-found : find row_id "s1" rows ≡ some row
unfolding find
row-found = refl

concurrent_tabs_example :
    (row' : RefreshSession) × (find row_id "s1" (run rows tabs) ≡ some row')
    × (standing_of row' "j1" 5000 ≢ reused)
concurrent_tabs_example =
    concurrent_tabs rows "s1" row 10 5000 tabs rows-IsKeyed row-found
      (
        (("j1", refl), omega arith, omega arith),
        ((("j1", refl), omega arith, omega arith), ((("j2", refl), omega arith, omega arith), tt)),
      )
      (omega arith)

j0-reused : standing_of row "j0" 10 ≡ reused
unfolding refresh_sessions
j0-reused = refl

ne_j0 : (◌≢◌ {A = String} "j0" "j2") × (◌≢◌ {A = String} "j0" "j3") × (◌≢◌ {A = String} "j0" "j4")
ne_j0 = (
  ground (arith, eq_iff "j0" "j2"),
  ground (arith, eq_iff "j0" "j3"),
  ground (arith, eq_iff "j0" "j4"),
)

reused_forever_example :
    (row' : RefreshSession) × (find row_id "s1" (run rows tabs) ≡ some row')
    × (standing_of row' "j0" 5000 ≡ reused)
reused_forever_example =
    reused_forever rows "s1" row "j0" 10 5000 tabs rows-IsKeyed row-found j0-reused
      (ne_j0.0, (ne_j0.1, (ne_j0.2, tt))) (omega arith)

ne_j1 : (◌≢◌ {A = String} "j1" "j2") × (◌≢◌ {A = String} "j1" "j3")
ne_j1 = (ground (arith, eq_iff "j1" "j2"), ground (arith, eq_iff "j1" "j3"))

unnamed_rotation_displaces_example :
    (may_rotate (issued "j3") none 11 turned ≡ true)
    × (standing_of (rotated_row (issued "j3") 11 turned) "j1" 12 ≡ reused)
unnamed_rotation_displaces_example =
    unnamed_rotation_displaces turned (issued "j3") "j1" 11 11 12 refl ne_j1.0 ne_j1.1
