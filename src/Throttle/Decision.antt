-- ===== src/Throttle/Decision.antt =====
-- When an address is refused, after a history of attempts.
use fastapitemplate.Common.Clock.{total_seconds}
use fastapitemplate.Common.Lists.{All}
use fastapitemplate.Common.Table.{IsKeyed, find-delete_key_self}
use fastapitemplate.Common.{
  ℕ, suc, ◌+◌, ◌-◌, ◌<◌, String, ◌≡◌, sym, subst, true, ◌&&◌, List, arith, inl, inr, pair_eq,
  string_eq, beq_self, ◌==◌, ltb, leb, if◌then◌else◌, Bool-cases,
}
use fastapitemplate.Throttle.{
  ThrottlePolicy, LoginAttempts, enabled, address, load, retry_after, after_failure, counted,
  window_over, normalize_identifier, load_normalized, record_attempt, record_success,
  require_allowed, Permission, allowed, too_many_attempts, at_least_one, permission_of, forget,
}
use fastapitemplate.Throttle.Counting.{
  Attempt, record_all, attempts_at, HasCounted, counted_in_window, recorded-IsKeyed, recorded_here,
  record_all-HasCounted,
}

same_key : (k : String × String) → (k == k) ≡ true
same_key k = beq_self k

-- A failure with no open window opens one.
opening-HasCounted :
    (r : LoginAttempts) (now : ℕ) (policy : ThrottlePolicy)
    → window_over r.window_started_at now policy.window ≡ true
    → HasCounted 1 now (after_failure r now policy)
unfolding after_failure counted
opening-HasCounted r now policy over = ground arith

-- The answer for an address whose last failure, the `n`-th of its window, was at `at`.
abbrev pub answer : ThrottlePolicy → (n at now : ℕ) → Permission
answer policy n at now =
    if leb policy.max_failures n && ltb now (at + policy.lock_duration)
    then too_many_attempts (at_least_one (total_seconds (at + policy.lock_duration - now)))
    else allowed

answer-after_failure :
    (n since at now : ℕ) (r : LoginAttempts) (policy : ThrottlePolicy)
    → HasCounted (suc n) since (after_failure r at policy)
    → permission_of (retry_after (after_failure r at policy) now) ≡ answer policy (suc n) at now
unfolding after_failure retry_after
answer-after_failure n since at now r policy (e, f) =
    elim (Bool-cases (leb policy.max_failures (suc n))) [
      | inr below ↦ rw (e, below)
      | inl reached ↦ elim (Bool-cases (leb (at + policy.lock_duration) now)) [
        | inl over ↦ rw (e, reached, over) (ground arith)
        | inr waits ↦ rw (e, reached, waits) (ground arith)
      ]
    ]

module _ (lower : String → String) (policy : ThrottlePolicy) (on : enabled policy ≡ true) where
  -- The table after a first attempt at an address, any number of attempts, and a last one at it.
  abbrev pub history :
      List LoginAttempts → String → String → ℕ → List Attempt → ℕ → List LoginAttempts
  history rows purpose typed since between at =
      (record_attempt lower policy
        (record_all lower policy on (record_attempt lower policy rows purpose typed since).1
          between)
        purpose typed at).1

  -- An address is refused exactly if the failures of its window have reached the limit, and then until
  -- the lock that the last of them set runs out. The count is exact whatever attempts at other
  -- addresses come between, and whatever rows the writes delete: it is that of the attempts whose
  -- address is the same once normalised, from the one that opens the window to the last one.
  -- The keys of the table are unique.
  pub lockout :
      (rows : List LoginAttempts) (purpose typed : String) (since : ℕ) (between : List Attempt)
      (at now : ℕ)
      → IsKeyed address rows
      → window_over (load_normalized lower rows purpose typed).window_started_at since policy.window
        ≡ true
      → All (λ a. a.at < since + policy.window) between
      → at < since + policy.window
      → require_allowed lower policy (history rows purpose typed since between at) purpose typed now
        ≡ answer policy
            (suc (
              suc
                (attempts_at lower policy on (purpose, normalize_identifier lower typed) between)))
            at
            now
  unfolding require_allowed load_normalized
  lockout rows purpose typed since between at now keyed over within last =
      let who = normalize_identifier lower typed in
      let first : Attempt = record { purpose = purpose; identifier = typed; at = since } in
      let final : Attempt = record { purpose = purpose; identifier = typed; at = at } in
      let self = same_key (purpose, who) in
      let opened =
        subst (HasCounted 1 since) (sym (recorded_here lower policy on rows first purpose who self))
          (opening-HasCounted (load rows purpose who) since policy over) in
      let (keyed', h) =
        record_all-HasCounted lower policy on purpose who since 1
          (record_attempt lower policy rows purpose typed since).1 between
          (recorded-IsKeyed lower policy on rows first keyed) within opened in
      let n = attempts_at lower policy on (purpose, who) between in
      let rows' =
        record_all lower policy on (record_attempt lower policy rows purpose typed since).1
          between in
      let one_more : 1 + n ≡ suc n = omega arith in
      rw (on, recorded_here lower policy on rows' final purpose who self)
        (answer-after_failure (suc n) since at now (load rows' purpose who) policy (
          counted_in_window (suc n) since at (load rows' purpose who) policy last
            (subst (λ k. HasCounted k since (load rows' purpose who)) one_more h)))

  -- A sign-in that succeeds forgets the failures: the address is allowed at once.
  pub record_success-allows :
      (rows : List LoginAttempts) (purpose typed : String) (now : ℕ)
      → require_allowed lower policy
          (record_success lower policy rows purpose typed)
          purpose
          typed
          now
        ≡ allowed
  unfolding require_allowed record_success load_normalized load forget retry_after
  record_success-allows rows purpose typed now =
      rw (on, find-delete_key_self address (purpose, normalize_identifier lower typed) rows)
