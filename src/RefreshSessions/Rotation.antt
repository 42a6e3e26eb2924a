-- ===== src/RefreshSessions/Rotation.antt =====
-- What `begin`, `rotate` and `end` do to the table of refresh sessions.
use mathlib.Core.Option
use fastapitemplate.Common.Table.{find, IsKeyed, key-find, find-update_where}
use fastapitemplate.Common.Table.Keys.{count-named, update_where-IsKeyed}
use fastapitemplate.Common.{
  ℕ, String, ◌≡◌, refl, true, Option, none, some, List, arith, ◌==◌, string_eq, nat_eq, Bool-cases,
  Option-cases, some_and, ◌&&◌, inl, inr, if◌then◌else◌,
}
use fastapitemplate.RefreshSessions.{
  RefreshSession, IssuedRefreshToken, row_id, may_rotate, rotated_row, rotate,
}

-- The condition names one login.
may_rotate-id :
    (issued : IssuedRefreshToken) (expected : Option String) (now : ℕ) (row : RefreshSession)
    → may_rotate issued expected now row ≡ true
    → row.id ≡ issued.session_id
unfolding may_rotate
may_rotate-id issued none now row h = (string_eq.beq_iff _ _).0 h
may_rotate-id issued (some e) now row h =
    (string_eq.beq_iff row.id issued.session_id).0 (ground arith)

-- The `rowcount` that `rotate` reads is 1 exactly if the row of the login meets the condition.
rotate-done :
    (rows : List RefreshSession) (issued : IssuedRefreshToken) (expected : Option String)
    (settled_at stored_at : ℕ)
    → IsKeyed row_id rows
    → (rotate rows issued expected settled_at stored_at).0
      ≡ some_and (may_rotate issued expected settled_at) (find row_id issued.session_id rows)
unfolding rotate
rotate-done rows issued expected settled_at stored_at h =
    rw
      (count-named row_id (may_rotate issued expected settled_at) issued.session_id
        (may_rotate-id issued expected settled_at) rows h)
      elim (Option-cases (find row_id issued.session_id rows)) [
        | inl missing ↦ rw missing
        | inr (row, found) ↦ rw found (ground arith)
      ]

rotate-IsKeyed :
    (rows : List RefreshSession) (issued : IssuedRefreshToken) (expected : Option String)
    (settled_at stored_at : ℕ)
    → IsKeyed row_id rows
    → IsKeyed row_id (rotate rows issued expected settled_at stored_at).1
unfolding rotate
rotate-IsKeyed rows issued expected settled_at stored_at h =
    update_where-IsKeyed row_id _ _ rows (λ r. refl) h

rotate-find :
    (rows : List RefreshSession) (issued : IssuedRefreshToken) (expected : Option String)
    (settled_at stored_at : ℕ) (id : String)
    → find row_id id (rotate rows issued expected settled_at stored_at).1
      ≡ Option.map
          (λ r.
            if may_rotate issued expected settled_at r then rotated_row issued stored_at r else r)
          (find row_id id rows)
unfolding rotate
rotate-find rows issued expected settled_at stored_at id =
    find-update_where row_id _ _ id rows (λ r. refl)

-- The row that `rotate` leaves for a login, by whether the login is the one that it rotated.
rotated_if :
    (issued : IssuedRefreshToken) (expected : Option String) (settled_at stored_at : ℕ)
    (id : String) (row : RefreshSession) (own : Option RefreshSession)
    → row.id ≡ id
    → (issued.session_id ≡ id → own ≡ some row)
    → some (
        if may_rotate issued expected settled_at row then rotated_row issued stored_at row else row)
      ≡ (if some_and (may_rotate issued expected settled_at) own && issued.session_id == id
          then some (rotated_row issued stored_at row)
          else some row)
rotated_if issued expected settled_at stored_at id row own e same =
    elim (Bool-cases (issued.session_id == id)) [
      | inl q ↦ rw (q, same ((string_eq.beq_iff _ _).0 q)) (ground arith)
      | inr q ↦ ground (
        arith,
        may_rotate-id issued expected settled_at row,
        string_eq.beq_iff issued.session_id id,
      )
    ]

-- `rotate` is a compare-and-swap on one login: it reports success exactly if the row of the login
-- meets its condition, then writes that row, and changes the row of no login otherwise.
-- The keys of the table are unique.
pub rotate-swap :
    (rows : List RefreshSession) (issued : IssuedRefreshToken) (expected : Option String)
    (settled_at stored_at : ℕ) (id : String)
    → IsKeyed row_id rows
    → let (done, rows') = rotate rows issued expected settled_at stored_at in
      (done ≡ some_and (may_rotate issued expected settled_at) (find row_id issued.session_id rows))
      × (find row_id id rows' ≡ (
          if done && issued.session_id == id
          then Option.map (rotated_row issued stored_at) (find row_id id rows)
          else find row_id id rows))
      × IsKeyed row_id rows'
rotate-swap rows issued expected settled_at stored_at id h = (
  rotate-done rows issued expected settled_at stored_at h,
  rw
      (
        rotate-done rows issued expected settled_at stored_at h,
        rotate-find rows issued expected settled_at stored_at id,
      )
      elim (Option-cases (find row_id id rows)) [
        | inl missing ↦ rw missing (ground arith)
        | inr (row, found) ↦ rw found (
            rotated_if issued expected settled_at stored_at id row _
              (key-find row_id id rows row found) (λ e. rw e found))
      ],
  rotate-IsKeyed rows issued expected settled_at stored_at h,
)
