-- ===== src/Audit/Retention.antt =====
-- How old rows of the two logs are deleted: domain/value_objects/retention_policy.py,
-- application/use_cases/purge_expired_logs.py and infrastructure/sql_expired_log_remover.py of the
-- audit context. A table is the list of its rows in the order of their keys. A number of days that is
-- negative acts like 0, and is left out.
use fastapitemplate.Common.Clock.{seconds}
use fastapitemplate.Common.Lists.{length, contains}
use fastapitemplate.Common.Table.{delete_where, count_where}
use fastapitemplate.Common.{
  ℕ, zero, suc, ◌+◌, ◌-◌, ◌*◌, Bool, ◌&&◌, Option, none, some, List, [], ◌∷◌, ltb, nat_eq, ◌==◌,
  if◌then◌else◌,
}

-- A row of `log` or of `audit_log`, of which the key and the time count.
pub record LogRow : Type 0 where
  pub id : ℕ
  pub written_at : ℕ

abbrev pub log_key : LogRow → ℕ
log_key row = row.id

pub record LogRetentionPolicy : Type 0 where
  pub application_log_days : ℕ
  pub audit_log_days : ℕ

pub record PurgeOutcome : Type 0 where
  pub application_logs : ℕ
  pub audit_logs : ℕ

-- `_cutoff`; a time before the epoch counts as the epoch, before which no row was written.
unfoldable pub cutoff : (days now : ℕ) → Option ℕ
cutoff days now = if days == 0 then none else some (now - seconds (days * 24 * 3600))

-- `purges_nothing`
unfoldable pub purges_nothing : LogRetentionPolicy → Bool
purges_nothing policy = policy.application_log_days == 0 && policy.audit_log_days == 0

-- The row is older than the cutoff.
abbrev pub is_expired : (before : ℕ) → LogRow → Bool
is_expired before row = ltb row.written_at before

-- The keys of the first expired rows, `limit` at most.
unfoldable pub expired_ids : (before : ℕ) → (limit : ℕ) → List LogRow → List ℕ
expired_ids before zero rows = []
expired_ids before (suc limit) [] = []
expired_ids before (suc limit) (r ∷ rows) =
    if is_expired before r
    then r.id ∷ expired_ids before limit rows
    else expired_ids before (suc limit) rows

-- `DELETE ... WHERE id IN ids`
unfoldable pub delete_ids : List ℕ → List LogRow → List LogRow
unfolding delete_where
delete_ids ids rows = delete_where (λ r. contains r.id ids) rows

-- Its `rowcount`
unfoldable pub count_ids : List ℕ → List LogRow → ℕ
unfolding count_where
count_ids ids rows = count_where (λ r. contains r.id ids) rows

-- The loop of `_delete_in_chunks`; `none` is a loop that goes on after `fuel` rounds.
unfoldable pub delete_in_chunks :
    (fuel : ℕ) → (before chunk_size : ℕ) → List LogRow → (deleted : ℕ) → Option (ℕ × List LogRow)
unfolding expired_ids delete_ids count_ids
delete_in_chunks zero before chunk_size rows deleted = none
delete_in_chunks (suc fuel) before chunk_size rows deleted =
    let ids = expired_ids before chunk_size rows in
    let rest = delete_ids ids rows in
    let so_far = deleted + count_ids ids rows in
    let further = delete_in_chunks fuel before chunk_size rest so_far in
    if ltb (length ids) chunk_size then some (so_far, rest) else further

-- `PurgeExpiredLogs._purge_application_logs` and `_purge_audit_logs`, for the cutoff of their table.
unfoldable pub purge_before :
    (fuel : ℕ) → (cutoff : Option ℕ) → (chunk_size : ℕ) → List LogRow → Option (ℕ × List LogRow)
unfolding delete_in_chunks
purge_before fuel none chunk_size rows = some (0, rows)
purge_before fuel (some before) chunk_size rows = delete_in_chunks fuel before chunk_size rows 0

-- The outcome and the two tables, once both are purged.
abbrev pub purged :
    Option (ℕ × List LogRow)
    → Option (ℕ × List LogRow)
    → Option (PurgeOutcome × List LogRow × List LogRow)
purged (some (n, logs)) (some (m, audit_logs)) =
    some (record { application_logs = n; audit_logs = m }, logs, audit_logs)
purged _ _ = none

-- `PurgeExpiredLogs.execute`
unfoldable pub purge_expired_logs :
    (fuel : ℕ)
    → (chunk_size : ℕ) → LogRetentionPolicy
    → (now : ℕ) → (logs audit_logs : List LogRow)
    → Option (PurgeOutcome × List LogRow × List LogRow)
unfolding purges_nothing cutoff purge_before
purge_expired_logs fuel chunk_size policy now logs audit_logs =
    if purges_nothing policy
    then some (record { application_logs = 0; audit_logs = 0 }, logs, audit_logs)
    else purged (purge_before fuel (cutoff policy.application_log_days now) chunk_size logs)
        (purge_before fuel (cutoff policy.audit_log_days now) chunk_size audit_logs)
