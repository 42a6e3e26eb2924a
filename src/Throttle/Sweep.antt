-- ===== src/Throttle/Sweep.antt =====
-- The rows that every write deletes are those that no longer decide anything.
use fastapitemplate.Common.Table.{find, IsKeyed, key-find}
use fastapitemplate.Common.Table.Keys.{find-delete_where}
use fastapitemplate.Common.{
  ℕ, ◌+◌, ◌≤◌, String, ◌≡◌, refl, ap, ◌⊎◌, true, false, ◌&&◌, Option, none, some, List, arith,
  Option-cases, Bool-cases, inl, inr, pair_eq, string_eq, ltb, leb, some_and, none_or,
  if◌then◌else◌,
}
use fastapitemplate.Throttle.{
  ThrottlePolicy, LoginAttempts, no_attempts, address, load, sweep, is_swept, is_stale, retry_after,
  after_failure, counted,
}

swept-stale :
    (locked_until started : Option ℕ) (now window : ℕ)
    → (none_or (λ u. leb u now) locked_until && none_or (λ t. leb (t + window) now) started) ≡ (
        if some_and (λ u. ltb now u) locked_until
        then false
        else none_or (λ t. leb (t + window) now) started)
swept-stale none started now window = refl
swept-stale (some u) started now window = ground arith

-- The SQL condition of the sweep is the rule of the entity: a row is deleted exactly if it is stale.
pub is_swept-is_stale :
    (now : ℕ) (policy : ThrottlePolicy) (r : LoginAttempts)
    → is_swept now policy r ≡ is_stale r now policy
unfolding is_swept is_stale
is_swept-is_stale now policy r = swept-stale r.locked_until r.window_started_at now policy.window

-- A stale record decides nothing from then on.
stale-retry_after :
    (r : LoginAttempts) (policy : ThrottlePolicy) (now later : ℕ)
    → is_stale r now policy ≡ true
    → now ≤ later
    → retry_after r later ≡ none
unfolding is_stale retry_after
stale-retry_after r policy now later h le = elim (Option-cases r.locked_until) [
  | inl e ↦ ground arith
  | inr (u, e) ↦ ground arith
]

stale-counted :
    (r : LoginAttempts) (policy : ThrottlePolicy) (now later : ℕ)
    → is_stale r now policy ≡ true
    → now ≤ later
    → counted r later policy ≡ (1, some later)
unfolding is_stale counted
stale-counted r policy now later h le = elim (Option-cases r.window_started_at) [
  | inl e ↦ ground arith
  | inr (t, e) ↦ ground arith
]

retry_after-no_attempts :
    (purpose identifier : String) (now : ℕ)
    → retry_after (no_attempts purpose identifier) now ≡ none
unfolding retry_after
retry_after-no_attempts purpose identifier now = refl

counted-no_attempts :
    (purpose identifier : String) (now : ℕ) (policy : ThrottlePolicy)
    → counted (no_attempts purpose identifier) now policy ≡ (1, some now)
unfolding counted
counted-no_attempts purpose identifier now policy = refl

pub load-purpose :
    (rows : List LoginAttempts) (purpose identifier : String)
    → address (load rows purpose identifier) ≡ (purpose, identifier)
unfolding load
load-purpose rows purpose identifier =
    elim (Option-cases (find address (purpose, identifier) rows)) [
      | inl missing ↦ rw missing
      | inr (row, found) ↦ rw found (key-find address (purpose, identifier) rows row found)
    ]

-- A sweep leaves the record of an address as it is, or forgets one that is stale.
pub load-sweep :
    (rows : List LoginAttempts) (now : ℕ) (policy : ThrottlePolicy) (purpose identifier : String)
    → IsKeyed address rows
    → (load (sweep rows now policy) purpose identifier ≡ load rows purpose identifier)
      ⊎ ((is_stale (load rows purpose identifier) now policy ≡ true)
          × (load (sweep rows now policy) purpose identifier ≡ no_attempts purpose identifier))
unfolding load sweep
load-sweep rows now policy purpose identifier keyed =
    let swept = find-delete_where address (is_swept now policy) (purpose, identifier) rows keyed in
    elim (Option-cases (find address (purpose, identifier) rows)) [
      | inl missing ↦ inl (rw (swept, missing))
      | inr (row, found) ↦ elim (Bool-cases (is_swept now policy row)) [
        | inl stale ↦
            inr (rw (found, ← is_swept-is_stale now policy row) stale, rw (swept, found, stale))
        | inr fresh ↦ inl (rw (swept, found, fresh))
      ]
    ]

module _ (rows : List LoginAttempts) (policy : ThrottlePolicy) (now later : ℕ)
    (purpose identifier : String) (keyed : IsKeyed address rows) (le : now ≤ later) where
  -- The deletion of old rows is invisible: at the time of the sweep and at any later one, the wait that
  -- an address is told and the record that its next failure leaves are those without the sweep.
  -- The keys of the table are unique.
  pub sweep_invisible :
      (retry_after (load (sweep rows now policy) purpose identifier) later
        ≡ retry_after (load rows purpose identifier) later)
      × (after_failure (load (sweep rows now policy) purpose identifier) later policy
          ≡ after_failure (load rows purpose identifier) later policy)
  unfolding after_failure
  sweep_invisible = elim (load-sweep rows now policy purpose identifier keyed) [
    | inl same ↦ rw same (refl, refl)
    | inr (stale, gone) ↦
        let old = load rows purpose identifier in
        (
          rw (gone, stale-retry_after old policy now later stale le)
              (retry_after-no_attempts purpose identifier later),
          rw
              (
                gone,
                stale-counted old policy now later stale le,
                ap (λ r. r.0) (load-purpose rows purpose identifier),
                ap (λ r. r.1) (load-purpose rows purpose identifier),
              )
              refl,
        )
  ]
