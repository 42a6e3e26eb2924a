-- ===== src/RefreshSessions/History.antt =====
-- Sequences of rotations: the requests of several tabs, in the order in which the database runs
-- their `UPDATE` statements.
use fastapitemplate.Common.Lists.{All}
use fastapitemplate.Common.Table.{find, IsKeyed}
use fastapitemplate.Common.{
  ℕ, ◌+◌, ◌≤◌, String, ◌≡◌, refl, ◌≢◌, ◌⊎◌, inl, inr, true, false, Option, none, some, List, [],
  ◌∷◌, arith, ◌==◌, ◌&&◌, string_eq, option_eq, Bool-cases, ap, sym, subst, ◌∙◌,
}
use fastapitemplate.RefreshSessions.{
  RefreshSession, IssuedRefreshToken, row_id, may_rotate, rotated_row, rotate, grace, standing_of,
  reused, within_grace,
}
use fastapitemplate.RefreshSessions.Standing.{
  IsAccepted, is_current, is_previous, standing-reused_iff,
}
use fastapitemplate.RefreshSessions.Rotation.{rotate-swap}

-- The arguments of one call of `rotate`, with its two readings of the clock.
pub record Rotation : Type 0 where
  pub issued : IssuedRefreshToken
  pub expected : Option String
  pub settled_at : ℕ
  pub stored_at : ℕ

abbrev pub apply : List RefreshSession → Rotation → List RefreshSession
apply rows a = (rotate rows a.issued a.expected a.settled_at a.stored_at).1

unfoldable pub run : List RefreshSession → List Rotation → List RefreshSession
run rows [] = rows
run rows (a ∷ rest) = run (apply rows a) rest

-- A rotation leaves every login its row, and that row is the old one or the rotated one.
pub apply-find :
    (rows : List RefreshSession) (a : Rotation) (id : String) (row : RefreshSession)
    → IsKeyed row_id rows
    → find row_id id rows ≡ some row
    → IsKeyed row_id (apply rows a)
      × ((find row_id id (apply rows a) ≡ some row)
          ⊎ ((may_rotate a.issued a.expected a.settled_at row ≡ true)
              × (find row_id id (apply rows a) ≡ some (rotated_row a.issued a.stored_at row))))
apply-find rows a id row h found =
    let (done, after, keyed) = rotate-swap rows a.issued a.expected a.settled_at a.stored_at id h in
    (
      keyed,
      elim (Bool-cases (a.issued.session_id == id)) [
        | inr other ↦ inl (after ∙ (rw (other, found) (ground arith)))
        | inl same ↦
            let own : find row_id a.issued.session_id rows ≡ some row =
              subst (λ k. find row_id k rows ≡ some row) (sym ((string_eq.beq_iff _ _).0 same))
                found in
            elim (Bool-cases (may_rotate a.issued a.expected a.settled_at row)) [
              | inl may ↦ inr (may, after ∙ (rw (done, own, found, same) (ground arith)))
              | inr refused ↦ inl (after ∙ (rw (done, own, found, same) (ground arith)))
            ]
      ],
    )

-- The token is current, or it was the current one when a rotation at `since` or later replaced it.
data Held (jti : String) (since : ℕ) (row : RefreshSession) : Type 0 where
  as_current : jti ≡ row.current_jti → Held jti since row
  as_previous :
      (t : ℕ)
      → row.previous_jti ≡ some jti
      → row.rotated_at ≡ some t
      → since ≤ t
      → Held jti since row

-- A compare-and-swap that runs within the grace period after `since`.
abbrev pub IsConcurrent : ℕ → Rotation → Type 0
IsConcurrent since a =
    ((e : String) × (a.expected ≡ some e)) × (a.settled_at ≤ since + grace) × (since ≤ a.stored_at)

rotated-Held :
    (jti : String) (since : ℕ) (row : RefreshSession) (issued : IssuedRefreshToken) (e : String)
    (settled_at stored_at : ℕ)
    → settled_at ≤ since + grace
    → since ≤ stored_at
    → may_rotate issued (some e) settled_at row ≡ true
    → Held jti since row
    → Held jti since (rotated_row issued stored_at row)
unfolding rotated_row may_rotate
rotated-Held jti since row issued e settled_at stored_at early late may (as_current same) =
    as_previous stored_at (ap some (sym same)) refl late
rotated-Held jti since row issued e settled_at stored_at early late may (as_previous t p q le) =
    absurd (ground arith)

module _ (jti : String) (since : ℕ) (id : String) where
  run-Held :
      (rows : List RefreshSession) (history : List Rotation) (row : RefreshSession)
      → IsKeyed row_id rows
      → find row_id id rows ≡ some row
      → Held jti since row
      → All (IsConcurrent since) history
      → (row' : RefreshSession) × (find row_id id (run rows history) ≡ some row')
        × Held jti since row'
  unfolding run
  run-Held rows [] row keyed found held all = (row, found, held)
  run-Held rows (a ∷ history) row keyed found held (((e, named), early, late), all) =
      let (keyed', now) = apply-find rows a id row keyed found in
      elim now [
        | inl same ↦ run-Held (apply rows a) history row keyed' same held all
        | inr (may, turned) ↦
            run-Held (apply rows a) history _ keyed' turned
              (rotated-Held jti since row a.issued e a.settled_at a.stored_at early late
                (rw (← named) may) held)
              all
      ]

  Held-IsAccepted :
      (row : RefreshSession) (now : ℕ)
      → now ≤ since + grace
      → Held jti since row
      → IsAccepted row jti now
  Held-IsAccepted row now h (as_current e) = is_current e
  Held-IsAccepted row now h (as_previous t p q le) = is_previous t p q (omega arith)

-- Tabs that share a login do not end it: after any number of compare-and-swap rotations whose
-- conditions are read within the grace period after `since` and which write at `since` or later, the
-- token that was current at the start is not taken for a reused one, up to the end of that period.
-- The keys of the table are unique.
pub concurrent_tabs :
    (rows : List RefreshSession) (id : String) (row : RefreshSession) (since now : ℕ)
    (history : List Rotation)
    → IsKeyed row_id rows
    → find row_id id rows ≡ some row
    → All (IsConcurrent since) history
    → now ≤ since + grace
    → (row' : RefreshSession) × (find row_id id (run rows history) ≡ some row')
      × (standing_of row' row.current_jti now ≢ reused)
concurrent_tabs rows id row since now history keyed found all early =
    let (row', found', held) =
      run-Held row.current_jti since id rows history row keyed found (as_current refl) all in
    (
      row',
      found',
      (standing-reused_iff row' row.current_jti now).1
          (Held-IsAccepted row.current_jti since id row' now early held),
    )

-- A token that has been displaced for good, as seen at the time `since`.
abbrev IsSpent : String → ℕ → RefreshSession → Type 0
IsSpent jti since row =
    (jti ≢ row.current_jti)
    × ((some jti == row.previous_jti && within_grace row.rotated_at since) ≡ false)

reused-IsSpent :
    (row : RefreshSession) (jti : String) (since : ℕ)
    → standing_of row jti since ≡ reused
    → IsSpent jti since row
unfolding standing_of
reused-IsSpent row jti since h = (
  λ e. (standing-reused_iff row jti since).1 (is_current e) h,
  ground (arith, string_eq.beq_iff jti row.current_jti),
)

within_grace_mono :
    (rotated_at : Option ℕ) (since now : ℕ)
    → since ≤ now
    → within_grace rotated_at now ≡ true
    → within_grace rotated_at since ≡ true
within_grace_mono none since now le h = h
within_grace_mono (some t) since now le h = ground arith

IsSpent-reused :
    (row : RefreshSession) (jti : String) (since now : ℕ)
    → since ≤ now
    → IsSpent jti since row
    → standing_of row jti now ≡ reused
unfolding standing_of
IsSpent-reused row jti since now le (fresh, gone) =
    ground
      (arith, string_eq.beq_iff jti row.current_jti, within_grace_mono row.rotated_at since now le)

rotated-IsSpent :
    (jti : String) (since : ℕ) (row : RefreshSession) (issued : IssuedRefreshToken) (stored_at : ℕ)
    → jti ≢ issued.jti
    → IsSpent jti since row
    → IsSpent jti since (rotated_row issued stored_at row)
unfolding rotated_row
rotated-IsSpent jti since row issued stored_at ne (fresh, gone) =
    (ne, ground (arith, string_eq.beq_iff jti row.current_jti))

module _ (jti : String) (since : ℕ) (id : String) where
  run-IsSpent :
      (rows : List RefreshSession) (history : List Rotation) (row : RefreshSession)
      → IsKeyed row_id rows
      → find row_id id rows ≡ some row
      → IsSpent jti since row
      → All (λ a. jti ≢ a.issued.jti) history
      → (row' : RefreshSession) × (find row_id id (run rows history) ≡ some row')
        × IsSpent jti since row'
  unfolding run
  run-IsSpent rows [] row keyed found spent all = (row, found, spent)
  run-IsSpent rows (a ∷ history) row keyed found spent (other, all) =
      let (keyed', now) = apply-find rows a id row keyed found in
      elim now [
        | inl same ↦ run-IsSpent (apply rows a) history row keyed' same spent all
        | inr (may, turned) ↦
            run-IsSpent (apply rows a) history _ keyed' turned
              (rotated-IsSpent jti since row a.issued a.stored_at other spent) all
      ]

-- A reused token stays reused: once a presented token counts as reused, it does at every later time
-- and after any number of rotations of any kind that issue other tokens.
-- The keys of the table are unique.
pub reused_forever :
    (rows : List RefreshSession) (id : String) (row : RefreshSession) (jti : String) (since now : ℕ)
    (history : List Rotation)
    → IsKeyed row_id rows
    → find row_id id rows ≡ some row
    → standing_of row jti since ≡ reused
    → All (λ a. jti ≢ a.issued.jti) history
    → since ≤ now
    → (row' : RefreshSession) × (find row_id id (run rows history) ≡ some row')
      × (standing_of row' jti now ≡ reused)
reused_forever rows id row jti since now history keyed found h all le =
    let (row', found', spent) =
      run-IsSpent jti since id rows history row keyed found (reused-IsSpent row jti since h) all in
    (row', found', IsSpent-reused row' jti since now le spent)

-- A rotation that names no token, as the switch of a role makes, ends the grace of the token before
-- the current one at once: that token is then taken for a reused one at every time.
pub unnamed_rotation_displaces :
    (row : RefreshSession) (issued : IssuedRefreshToken) (jti : String)
    (settled_at stored_at now : ℕ)
    → row.id ≡ issued.session_id
    → jti ≢ row.current_jti
    → jti ≢ issued.jti
    → (may_rotate issued none settled_at row ≡ true)
      × (standing_of (rotated_row issued stored_at row) jti now ≡ reused)
unfolding may_rotate rotated_row standing_of
unnamed_rotation_displaces row issued jti settled_at stored_at now own old fresh = (
  (string_eq.beq_iff _ _).1 own,
  ground (arith, string_eq.beq_iff jti issued.jti, string_eq.beq_iff jti row.current_jti),
)
