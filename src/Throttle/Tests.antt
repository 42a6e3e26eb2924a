-- ===== src/Throttle/Tests.antt =====
-- The throttle at concrete inputs; `lower` is the identity, which `str.lower` is on lower-case text.
use fastapitemplate.Common.Table.{find, IsKeyed}
use fastapitemplate.Common.{
  ◌≡◌, refl, true, some, List, [], ◌∷◌, arith, suc, String, pair_eq, string_eq,
}
use fastapitemplate.Throttle.{
  ThrottlePolicy, LoginAttempts, enabled, address, load, sweep, retry_after, after_failure,
  require_allowed, record_attempt, normalize_identifier, load_normalized, no_attempts,
}
use fastapitemplate.Throttle.Sweep.{sweep_invisible}
use fastapitemplate.Throttle.Counting.{Attempt, attempts_at, record_all}
use fastapitemplate.Throttle.Decision.{history, answer, lockout}

abbrev policy : ThrottlePolicy
policy = record { max_failures = 3; window = 100; lock_duration = 5000000 }

abbrev same : String → String
same s = s

policy-on : enabled policy ≡ true
unfolding enabled
policy-on = refl

abbrev spent : LoginAttempts
spent = record (no_attempts "login" "ann") { failures = 2; window_started_at = some 10 }

spent-IsKeyed : IsKeyed address (spent ∷ [])
unfolding find
spent-IsKeyed = (refl, tt)

sweep_invisible_example :
    (retry_after (load (sweep (spent ∷ []) 200 policy) "login" "ann") 250
      ≡ retry_after (load (spent ∷ []) "login" "ann") 250)
    × (after_failure (load (sweep (spent ∷ []) 200 policy) "login" "ann") 250 policy
        ≡ after_failure (load (spent ∷ []) "login" "ann") 250 policy)
sweep_invisible_example =
    sweep_invisible (spent ∷ []) policy 200 250 "login" "ann" spent-IsKeyed (omega arith)

abbrev between : List Attempt
between =
    record { purpose = "login"; identifier = "bob"; at = 20 }
    ∷ record { purpose = "login"; identifier = " ann "; at = 30 }
    ∷ []

-- The third failure locks, and the wait is told in whole seconds.
locked :
    require_allowed same policy
      (history same policy policy-on [] "login" "ann" 10 between 40)
      "login"
      "ann"
      41
    ≡ answer policy 3 40 41
unfolding require_allowed record_attempt record_all
locked = refl

lockout_example :
    require_allowed same policy
      (history same policy policy-on [] "login" "ann" 10 between 40)
      "login"
      "ann"
      41
    ≡ answer policy
        (suc (
          suc
            (attempts_at same policy policy-on ("login", normalize_identifier same "ann") between)))
        40
        41
unfolding load find load_normalized
lockout_example =
    lockout same policy policy-on [] "login" "ann" 10 between 40 41 tt refl
      (omega arith, (omega arith, tt)) (omega arith)
