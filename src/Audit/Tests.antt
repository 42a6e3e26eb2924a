-- ===== src/Audit/Tests.antt =====
-- A purge of five rows, of which four are old, in chunks of two.
use fastapitemplate.Common.Table.{find, delete_where, count_where}
use fastapitemplate.Common.{ℕ, ◌+◌, ◌≡◌, refl, some, List, [], ◌∷◌, arith}
use fastapitemplate.Audit.Chunks.{delete_in_chunks_lem}
use fastapitemplate.Audit.Retention.{LogRow, is_expired, delete_in_chunks, purge_expired_logs}

abbrev row : ℕ → ℕ → LogRow
row id written_at = record { id = id; written_at = written_at }

abbrev rows : List LogRow
rows = row 1 10 ∷ row 2 20 ∷ row 3 99 ∷ row 4 30 ∷ row 5 40 ∷ []

in_chunks : delete_in_chunks 5 50 2 rows 0 ≡ some (4, row 3 99 ∷ [])
unfolding delete_in_chunks
in_chunks = refl

delete_in_chunks_lem_example :
    delete_in_chunks 5 50 2 rows 0
    ≡ some (0 + count_where (is_expired 50) rows, delete_where (is_expired 50) rows)
unfolding find count_where
delete_in_chunks_lem_example =
    delete_in_chunks_lem 5 50 2 rows 0 (refl, (refl, (refl, (refl, (refl, tt))))) (omega arith)
      (omega arith)

kept_forever :
    purge_expired_logs 1 2 (record { application_log_days = 0; audit_log_days = 0 }) 1000 rows rows
    ≡ some (record { application_logs = 0; audit_logs = 0 }, rows, rows)
unfolding purge_expired_logs
kept_forever = refl
