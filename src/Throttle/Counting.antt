-- ===== src/Throttle/Counting.antt =====
-- Sequences of counted attempts, of any addresses in any order.
use native.Mathlib.Nat.{add-zero}
use mathlib.Core.Path.{subst₂}
use mathlib.Core.Bool.{true≢false}
use fastapitemplate.Common.Lists.{All}
use fastapitemplate.Common.Table.{IsKeyed, find-upsert}
use fastapitemplate.Common.Table.Keys.{delete_where-IsKeyed, upsert-IsKeyed}
use fastapitemplate.Common.{
  ℕ, suc, ◌+◌, ◌<◌, String, ◌≡◌, refl, sym, ap, subst, ◌∙◌, Bool, true, false, some, List, [], ◌∷◌,
  arith, Bool-cases, inl, inr, pair_eq, string_eq, if◌then◌else◌, ◌==◌,
}
use fastapitemplate.Throttle.{
  ThrottlePolicy, LoginAttempts, enabled, address, load, sweep, save, is_stale, after_failure,
  counted, counting, window_over, normalize_identifier, load_normalized, record_attempt,
}
use fastapitemplate.Throttle.Sweep.{load-sweep, load-purpose}

save-IsKeyed :
    (rows : List LoginAttempts) (r : LoginAttempts) (now : ℕ) (policy : ThrottlePolicy)
    → IsKeyed address rows
    → IsKeyed address (save rows r now policy)
unfolding save sweep
save-IsKeyed rows r now policy keyed =
    upsert-IsKeyed address r _ (delete_where-IsKeyed address _ rows keyed)

load-save :
    (rows : List LoginAttempts) (r : LoginAttempts) (now : ℕ) (policy : ThrottlePolicy)
    (purpose identifier : String)
    → load (save rows r now policy) purpose identifier ≡ (
        if address r == (purpose, identifier)
        then r
        else load (sweep rows now policy) purpose identifier)
unfolding save load
load-save rows r now policy purpose identifier =
    rw (find-upsert address r (purpose, identifier) (sweep rows now policy))
      elim (Bool-cases (address r == (purpose, identifier))) [
        | inl same ↦ rw same
        | inr other ↦ rw other
      ]

after_failure-address :
    (r : LoginAttempts) (now : ℕ) (policy : ThrottlePolicy)
    → address (after_failure r now policy) ≡ address r
unfolding after_failure
after_failure-address r now policy = refl

pub record Attempt : Type 0 where
  pub purpose : String
  pub identifier : String
  pub at : ℕ

-- The window that began at `since` is open, and `n` failures have been counted in it.
abbrev pub HasCounted : ℕ → ℕ → LoginAttempts → Type 0
HasCounted n since r = (r.failures ≡ n) × (r.window_started_at ≡ some since)

pub counted_in_window :
    (n since now : ℕ) (r : LoginAttempts) (policy : ThrottlePolicy)
    → now < since + policy.window
    → HasCounted n since r
    → HasCounted (suc n) since (after_failure r now policy)
unfolding after_failure counted
counted_in_window n since now r policy within (e, f) =
    let over : window_over r.window_started_at now policy.window ≡ false = rw f (ground arith) in
    ground arith

open-is_stale :
    (n since now : ℕ) (r : LoginAttempts) (policy : ThrottlePolicy)
    → now < since + policy.window
    → HasCounted n since r
    → is_stale r now policy ≡ false
unfolding is_stale
open-is_stale n since now r policy within (e, f) = ground arith

-- One more, if the test holds.
abbrev tick : Bool → ℕ → ℕ
tick true n = suc n
tick false n = n

tick_move : (b : Bool) (n m : ℕ) → tick b n + m ≡ n + tick b m
tick_move true n m = omega arith
tick_move false n m = refl

module _ (lower : String → String) (policy : ThrottlePolicy) (on : enabled policy ≡ true) where
  unfoldable pub record_all : List LoginAttempts → List Attempt → List LoginAttempts
  record_all rows [] = rows
  record_all rows (a ∷ later) =
      record_all (record_attempt lower policy rows a.purpose a.identifier a.at).1 later

  abbrev pub key_of : Attempt → String × String
  key_of a = (a.purpose, normalize_identifier lower a.identifier)

  -- How many of the attempts are at the address.
  unfoldable pub attempts_at : String × String → List Attempt → ℕ
  attempts_at who [] = 0
  attempts_at who (a ∷ later) = tick (key_of a == who) (attempts_at who later)

  pub recorded-IsKeyed :
      (rows : List LoginAttempts) (a : Attempt)
      → IsKeyed address rows
      → IsKeyed address (record_attempt lower policy rows a.purpose a.identifier a.at).1
  unfolding record_attempt counting
  recorded-IsKeyed rows a keyed = rw on (save-IsKeyed rows _ a.at policy keyed)

  -- The record that a counted attempt writes.
  abbrev written : List LoginAttempts → Attempt → LoginAttempts
  written rows a =
      after_failure (load rows a.purpose (normalize_identifier lower a.identifier)) a.at policy

  written-address : (rows : List LoginAttempts) (a : Attempt) → address (written rows a) ≡ key_of a
  written-address rows a =
      after_failure-address (load rows a.purpose (normalize_identifier lower a.identifier)) a.at
        policy
      ∙ load-purpose rows a.purpose (normalize_identifier lower a.identifier)

  recorded_rows :
      (rows : List LoginAttempts) (a : Attempt)
      → (record_attempt lower policy rows a.purpose a.identifier a.at).1
        ≡ save rows (written rows a) a.at policy
  unfolding record_attempt counting load_normalized
  recorded_rows rows a = rw on

  pub recorded_here :
      (rows : List LoginAttempts) (a : Attempt) (purpose identifier : String)
      → (key_of a == (purpose, identifier)) ≡ true
      → load (record_attempt lower policy rows a.purpose a.identifier a.at).1 purpose identifier
        ≡ after_failure (load rows purpose identifier) a.at policy
  recorded_here rows a purpose identifier same =
      ap (λ t. load t purpose identifier) (recorded_rows rows a)
      ∙ load-save rows (written rows a) a.at policy purpose identifier
      ∙ ap
          (λ k.
            if k == (purpose, identifier)
            then written rows a
            else load (sweep rows a.at policy) purpose identifier)
          (written-address rows a)
      ∙ ap (λ b. if b then written rows a else load (sweep rows a.at policy) purpose identifier)
          same
      ∙ ap (λ k. after_failure (load rows k.0 k.1) a.at policy)
          ((pair_eq.beq_iff (key_of a) (purpose, identifier)).0 same)

  recorded_elsewhere :
      (rows : List LoginAttempts) (a : Attempt) (purpose identifier : String)
      → (key_of a == (purpose, identifier)) ≡ false
      → load (record_attempt lower policy rows a.purpose a.identifier a.at).1 purpose identifier
        ≡ load (sweep rows a.at policy) purpose identifier
  recorded_elsewhere rows a purpose identifier other =
      ap (λ t. load t purpose identifier) (recorded_rows rows a)
      ∙ load-save rows (written rows a) a.at policy purpose identifier
      ∙ ap
          (λ k.
            if k == (purpose, identifier)
            then written rows a
            else load (sweep rows a.at policy) purpose identifier)
          (written-address rows a)
      ∙ ap (λ b. if b then written rows a else load (sweep rows a.at policy) purpose identifier)
          other

  module _ (purpose identifier : String) (since : ℕ) where
    unswept-HasCounted :
        (n : ℕ) (rows : List LoginAttempts) (now : ℕ)
        → IsKeyed address rows
        → now < since + policy.window
        → HasCounted n since (load rows purpose identifier)
        → HasCounted n since (load (sweep rows now policy) purpose identifier)
    unswept-HasCounted n rows now keyed within h =
        elim (load-sweep rows now policy purpose identifier keyed) [
          | inl same ↦ subst (HasCounted n since) (sym same) h
          | inr (stale, _) ↦ absurd (
              true≢false (
                sym stale
                ∙ open-is_stale n since now (load rows purpose identifier) policy within h))
        ]

    recorded-HasCounted :
        (n : ℕ) (rows : List LoginAttempts) (a : Attempt)
        → IsKeyed address rows
        → a.at < since + policy.window
        → HasCounted n since (load rows purpose identifier)
        → HasCounted (tick (key_of a == (purpose, identifier)) n) since (
            load
              (record_attempt lower policy rows a.purpose a.identifier a.at).1
              purpose
              identifier)
    recorded-HasCounted n rows a keyed within h =
        elim (Bool-cases (key_of a == (purpose, identifier))) [
          | inl same ↦
              subst₂ (λ b r. HasCounted (tick b n) since r) (sym same)
                (sym (recorded_here rows a purpose identifier same))
                (counted_in_window n since a.at (load rows purpose identifier) policy within h)
          | inr other ↦
              subst₂ (λ b r. HasCounted (tick b n) since r) (sym other)
                (sym (recorded_elsewhere rows a purpose identifier other))
                (unswept-HasCounted n rows a.at keyed within h)
        ]

    -- While the window is open every attempt at the address is counted, and no attempt at another
    -- address, nor the deletion of old rows that comes with it, changes the count.
    pub record_all-HasCounted :
        (n : ℕ) (rows : List LoginAttempts) (attempts : List Attempt)
        → IsKeyed address rows
        → All (λ a. a.at < since + policy.window) attempts
        → HasCounted n since (load rows purpose identifier)
        → IsKeyed address (record_all rows attempts)
          × HasCounted
              (n + attempts_at (purpose, identifier) attempts)
              since
              (load (record_all rows attempts) purpose identifier)
    unfolding record_all attempts_at
    record_all-HasCounted n rows [] keyed all h = (keyed, rw (add-zero n) h)
    record_all-HasCounted n rows (a ∷ later) keyed (within, all) h =
        let rows' = (record_attempt lower policy rows a.purpose a.identifier a.at).1 in
        let b = key_of a == (purpose, identifier) in
        let (keyed', h') =
          record_all-HasCounted (tick b n) rows' later (recorded-IsKeyed rows a keyed) all
            (recorded-HasCounted n rows a keyed within h) in
        (
          keyed',
          subst (λ k. HasCounted k since (load (record_all rows' later) purpose identifier))
              (tick_move b n (attempts_at (purpose, identifier) later)) h',
        )
