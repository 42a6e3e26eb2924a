-- ===== src/Throttle.antt =====
-- Counting failed logins by the address that was typed in, in bounded_contexts/account_security:
-- domain/entities/login_attempts.py, infrastructure/sql_login_attempt_repository.py and
-- application/use_cases/throttle_login.py. The table of attempts is the list of its rows, which the
-- purpose and the normalised address identify. A negative `max_failures` acts like 0, and is left out.
pub mod Sweep
pub mod Counting
pub mod Decision
mod Tests
use fastapitemplate.Common.Clock.{total_seconds}
use fastapitemplate.Common.Table.{find, delete_where, delete_key, upsert}
use fastapitemplate.Common.Text.{strip}
use fastapitemplate.Common.{
  ℕ, ◌+◌, ◌-◌, String, Bool, true, false, not, ◌&&◌, ◌||◌, Option, none, some, List, ltb, leb,
  none_or, some_and, is_some, or_else, pair_eq, string_eq, if◌then◌else◌,
}

pub record ThrottlePolicy : Type 0 where
  pub max_failures : ℕ
  pub window : ℕ
  pub lock_duration : ℕ

unfoldable pub enabled : ThrottlePolicy → Bool
enabled policy = ltb 0 policy.max_failures

pub record LoginAttempts : Type 0 where
  pub purpose : String
  pub identifier : String
  pub failures : ℕ
  pub window_started_at : Option ℕ
  pub locked_until : Option ℕ

-- The defaults of the dataclass.
abbrev pub no_attempts : String → String → LoginAttempts
no_attempts purpose identifier = record {
  purpose = purpose;
  identifier = identifier;
  failures = 0;
  window_started_at = none;
  locked_until = none;
}

unfoldable pub retry_after : LoginAttempts → ℕ → Option ℕ
retry_after attempts now = elim attempts.locked_until [
  | none ↦ none
  | some until ↦ if leb until now then none else some (until - now)
]

-- `window_started_at is None or now - window_started_at >= window`
abbrev pub window_over : Option ℕ → ℕ → ℕ → Bool
window_over started now window = none_or (λ t. leb (t + window) now) started

-- The number of failures and the start of the window, after one more failure.
unfoldable pub counted : LoginAttempts → ℕ → ThrottlePolicy → ℕ × Option ℕ
counted attempts now policy =
    if window_over attempts.window_started_at now policy.window
    then (1, some now)
    else (attempts.failures + 1, attempts.window_started_at)

unfoldable pub after_failure : LoginAttempts → ℕ → ThrottlePolicy → LoginAttempts
unfolding counted
after_failure attempts now policy =
    let (failures, started) = counted attempts now policy in
    record attempts {
      failures = failures;
      window_started_at = started;
      locked_until =
          if leb policy.max_failures failures then some (now + policy.lock_duration) else none;
    }

unfoldable pub after_success : LoginAttempts → LoginAttempts
after_success attempts = record attempts {
  failures = 0;
  window_started_at = none;
  locked_until = none;
}

unfoldable pub is_stale : LoginAttempts → ℕ → ThrottlePolicy → Bool
is_stale attempts now policy =
    if some_and (λ until. ltb now until) attempts.locked_until
    then false
    else window_over attempts.window_started_at now policy.window

abbrev pub address : LoginAttempts → String × String
address r = (r.purpose, r.identifier)

-- `SqlLoginAttemptRepository.get`
unfoldable pub load : List LoginAttempts → String → String → LoginAttempts
unfolding find
load rows purpose identifier =
    or_else (find address (purpose, identifier) rows) (no_attempts purpose identifier)

-- The condition of the `DELETE` in `_sweep`.
unfoldable pub is_swept : ℕ → ThrottlePolicy → LoginAttempts → Bool
is_swept now policy r =
    none_or (λ until. leb until now) r.locked_until
    && none_or (λ t. leb (t + policy.window) now) r.window_started_at

unfoldable pub sweep : List LoginAttempts → ℕ → ThrottlePolicy → List LoginAttempts
unfolding delete_where is_swept
sweep rows now policy = delete_where (is_swept now policy) rows

-- `SqlLoginAttemptRepository.save`
unfoldable pub save : List LoginAttempts → LoginAttempts → ℕ → ThrottlePolicy → List LoginAttempts
unfolding sweep upsert
save rows attempts now policy = upsert address attempts (sweep rows now policy)

-- `SqlLoginAttemptRepository.forget`
unfoldable pub forget : List LoginAttempts → String → String → List LoginAttempts
unfolding delete_key
forget rows purpose identifier = delete_key address (purpose, identifier) rows

pub data Permission : Type 0 where
  allowed : Permission
  too_many_attempts : (retry_after_seconds : ℕ) → Permission

-- `max(int(duration.total_seconds()), 1)`
abbrev pub at_least_one : ℕ → ℕ
at_least_one n = if leb n 1 then 1 else n

-- The exception that a wait is raised as.
abbrev pub permission_of : Option ℕ → Permission
permission_of none = allowed
permission_of (some wait) = too_many_attempts (at_least_one (total_seconds wait))

-- The body of `record_attempt` behind its guard; `before` is the record that it loads.
unfoldable pub counting :
    ThrottlePolicy → List LoginAttempts → LoginAttempts → ℕ → Bool × List LoginAttempts
unfolding after_failure save retry_after
counting policy rows before now =
    let after = after_failure before now policy in
    (
      is_some after.locked_until && not (is_some (retry_after before now)),
      save rows after now policy,
    )

-- `lower` is `str.lower`, the Unicode mapping of the language.
module _ (lower : String → String) where
  unfoldable pub normalize_identifier : String → String
  unfolding strip
  normalize_identifier identifier = lower (strip identifier)

  unfoldable pub load_normalized : List LoginAttempts → String → String → LoginAttempts
  unfolding load normalize_identifier
  load_normalized rows purpose identifier = load rows purpose (normalize_identifier identifier)

  unfoldable pub require_allowed :
      ThrottlePolicy → List LoginAttempts → String → String → ℕ → Permission
  unfolding enabled retry_after load_normalized
  require_allowed policy rows purpose identifier now =
      if enabled policy
      then permission_of (retry_after (load_normalized rows purpose identifier) now)
      else allowed

  unfoldable pub record_attempt :
      ThrottlePolicy → List LoginAttempts → String → String → ℕ → Bool × List LoginAttempts
  unfolding enabled load_normalized counting
  record_attempt policy rows purpose identifier now =
      if enabled policy
      then counting policy rows (load_normalized rows purpose identifier) now
      else (false, rows)

  unfoldable pub record_success :
      ThrottlePolicy → List LoginAttempts → String → String → List LoginAttempts
  unfolding enabled forget normalize_identifier
  record_success policy rows purpose identifier =
      if enabled policy then forget rows purpose (normalize_identifier identifier) else rows
