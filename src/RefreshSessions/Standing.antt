-- ===== src/RefreshSessions/Standing.antt =====
-- When a presented refresh token is accepted, and how that fits with the condition of `rotate`.
use fastapitemplate.Common.{
  ℕ, ◌+◌, ◌≤◌, String, ◌≡◌, refl, ◌≢◌, ◌↔◌, inl, inr, true, false, Option, none, some, arith, ◌==◌,
  string_eq, option_eq, option_beq_iff, beq_self, Option-cases, Bool-cases, sym, ltb, ltb→lt,
  le→leb,
}
use fastapitemplate.RefreshSessions.{
  RefreshSession, just_rotated, reused, standing_of, may_rotate, grace, IssuedRefreshToken,
  within_grace,
}

-- The token that a login may present: the current one at any time, and the one before it while the
-- grace period lasts that the last rotation opened.
pub data IsAccepted (row : RefreshSession) (jti : String) (now : ℕ) : Type 0 where
  is_current : jti ≡ row.current_jti → IsAccepted row jti now
  is_previous :
      (rotated : ℕ)
      → row.previous_jti ≡ some jti
      → row.rotated_at ≡ some rotated
      → now ≤ rotated + grace
      → IsAccepted row jti now

within_grace-some :
    (rotated_at : Option ℕ) (now : ℕ)
    → within_grace rotated_at now ≡ true
    → (t : ℕ) × (rotated_at ≡ some t) × (now ≤ t + grace)
within_grace-some none now h = cc
within_grace-some (some t) now h = (t, refl, ground arith)

standing-IsAccepted :
    (row : RefreshSession) (jti : String) (now : ℕ)
    → standing_of row jti now ≢ reused
    → IsAccepted row jti now
unfolding standing_of
standing-IsAccepted row jti now h = elim (Bool-cases (jti == row.current_jti)) [
  | inl same ↦ is_current ((string_eq.beq_iff jti row.current_jti).0 same)
  | inr other ↦ elim (Bool-cases (some jti == row.previous_jti)) [
    | inr different ↦ absurd (h (rw (other, different)))
    | inl previous ↦ elim (Bool-cases (within_grace row.rotated_at now)) [
      | inr late ↦ absurd (h (rw (other, previous, late)))
      | inl early ↦
          let (t, e, le) = within_grace-some row.rotated_at now early in
          is_previous t (sym ((option_beq_iff string_eq (some jti) row.previous_jti).0 previous)) e
            le
    ]
  ]
]

IsAccepted-standing :
    (row : RefreshSession) (jti : String) (now : ℕ)
    → IsAccepted row jti now
    → standing_of row jti now ≢ reused
unfolding standing_of
IsAccepted-standing row jti now (is_current e) =
    ground (arith, string_eq.beq_iff jti row.current_jti)
IsAccepted-standing row jti now (is_previous t p q le) =
    ground (arith, beq_self jti, le→leb now (t + grace) le)

-- A presented token is told apart from a reused one exactly when it is the current token, or the one
-- before it within the grace period of the last rotation.
pub standing-reused_iff :
    (row : RefreshSession) (jti : String) (now : ℕ)
    → (standing_of row jti now ≢ reused) ↔ IsAccepted row jti now
standing-reused_iff row jti now = (standing-IsAccepted row jti now, IsAccepted-standing row jti now)

-- While the token before the current one is still accepted, no compare-and-swap rotation of that
-- login takes effect, whichever token it names: the two conditions exclude one another.
pub just_rotated-may_rotate :
    (row : RefreshSession) (issued : IssuedRefreshToken) (jti expected : String) (now later : ℕ)
    → standing_of row jti now ≡ just_rotated
    → later ≤ now
    → may_rotate issued (some expected) later row ≡ false
unfolding standing_of may_rotate
just_rotated-may_rotate row issued jti expected now later h le =
    elim (Option-cases row.rotated_at) [
      | inl e ↦ ground arith
      | inr (t, e) ↦ elim (Bool-cases (ltb (t + grace) later)) [
        | inl late ↦ absurd (ground (arith, ltb→lt (t + grace) later late))
        | inr early ↦ ground arith
      ]
    ]
