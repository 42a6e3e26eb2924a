-- ===== src/Audit/Chunks.antt =====
-- The deletion in chunks ends, and deletes what one statement would have deleted.
use fastapitemplate.Common.Lists.{length, contains}
use fastapitemplate.Common.Table.{find, delete_where, count_where, IsKeyed}
use fastapitemplate.Common.Table.Keys.{delete_where-IsKeyed}
use fastapitemplate.Common.{
  ℕ, zero, suc, ◌+◌, ◌<◌, ◌≡◌, refl, ap, ◌∙◌, false, none, some, List, [], ◌∷◌, ltb, nat_eq,
  if◌then◌else◌, arith, Bool-cases, inl, inr,
}
use fastapitemplate.Audit.Retention.{
  LogRow, log_key, is_expired, expired_ids, delete_ids, count_ids, delete_in_chunks,
}

-- The rows without the first expired ones, `limit` at most.
unfoldable drop_expired : (before : ℕ) → (limit : ℕ) → List LogRow → List LogRow
drop_expired before zero rows = rows
drop_expired before (suc limit) [] = []
drop_expired before (suc limit) (r ∷ rows) =
    if is_expired before r
    then drop_expired before limit rows
    else r ∷ drop_expired before (suc limit) rows

not_selected :
    (before limit k : ℕ) (rows : List LogRow)
    → find log_key k rows ≡ none
    → contains k (expired_ids before limit rows) ≡ false
unfolding find expired_ids
not_selected before zero k rows h = refl
not_selected before (suc limit) k [] h = refl
not_selected before (suc limit) k (r ∷ rows) h =
    ground (arith, not_selected before limit k rows, not_selected before (suc limit) k rows)

delete-absent :
    (k : ℕ) (ids : List ℕ) (rows : List LogRow)
    → find log_key k rows ≡ none
    → delete_ids (k ∷ ids) rows ≡ delete_ids ids rows
unfolding find delete_ids delete_where
delete-absent k ids [] h = refl
delete-absent k ids (r ∷ rows) h =
    ground (arith, delete-absent k ids rows, nat_eq.beq_iff r.id k, nat_eq.beq_iff k r.id)

count-absent :
    (k : ℕ) (ids : List ℕ) (rows : List LogRow)
    → find log_key k rows ≡ none
    → count_ids (k ∷ ids) rows ≡ count_ids ids rows
unfolding find count_ids count_where
count-absent k ids [] h = refl
count-absent k ids (r ∷ rows) h =
    ground (arith, count-absent k ids rows, nat_eq.beq_iff r.id k, nat_eq.beq_iff k r.id)

delete-none : (rows : List LogRow) → delete_ids [] rows ≡ rows
unfolding delete_ids delete_where
delete-none [] = refl
delete-none (r ∷ rows) = ground (arith, delete-none rows)

count-none : (rows : List LogRow) → count_ids [] rows ≡ 0
unfolding count_ids count_where
count-none [] = refl
count-none (r ∷ rows) = ground (arith, count-none rows)

-- A chunk deletes its rows and no other.
delete-expired_ids :
    (before limit : ℕ) (rows : List LogRow)
    → IsKeyed log_key rows
    → delete_ids (expired_ids before limit rows) rows ≡ drop_expired before limit rows
unfolding expired_ids delete_ids delete_where drop_expired
delete-expired_ids before zero rows keyed = delete-none rows
delete-expired_ids before (suc limit) [] keyed = refl
delete-expired_ids before (suc limit) (r ∷ rows) (fresh, keyed) = ground (
  arith,
  delete-expired_ids before limit rows keyed,
  delete-expired_ids before (suc limit) rows keyed,
  delete-absent r.id (expired_ids before limit rows) rows fresh,
  not_selected before (suc limit) r.id rows fresh,
  nat_eq.beq_iff r.id r.id,
)

count-expired_ids :
    (before limit : ℕ) (rows : List LogRow)
    → IsKeyed log_key rows
    → count_ids (expired_ids before limit rows) rows ≡ length (expired_ids before limit rows)
unfolding expired_ids count_ids count_where
count-expired_ids before zero rows keyed = count-none rows
count-expired_ids before (suc limit) [] keyed = refl
count-expired_ids before (suc limit) (r ∷ rows) (fresh, keyed) = ground (
  arith,
  count-expired_ids before limit rows keyed,
  count-expired_ids before (suc limit) rows keyed,
  count-absent r.id (expired_ids before limit rows) rows fresh,
  not_selected before (suc limit) r.id rows fresh,
  nat_eq.beq_iff r.id r.id,
)

count-drop_expired :
    (before limit : ℕ) (rows : List LogRow)
    → length (expired_ids before limit rows)
        + count_where (is_expired before) (drop_expired before limit rows)
      ≡ count_where (is_expired before) rows
unfolding expired_ids count_where drop_expired
count-drop_expired before zero rows = omega arith
count-drop_expired before (suc limit) [] = refl
count-drop_expired before (suc limit) (r ∷ rows) =
    ground (arith, count-drop_expired before limit rows, count-drop_expired before (suc limit) rows)

delete-drop_expired :
    (before limit : ℕ) (rows : List LogRow)
    → delete_where (is_expired before) (drop_expired before limit rows)
      ≡ delete_where (is_expired before) rows
unfolding delete_where drop_expired
delete-drop_expired before zero rows = refl
delete-drop_expired before (suc limit) [] = refl
delete-drop_expired before (suc limit) (r ∷ rows) =
    ground
      (arith, delete-drop_expired before limit rows, delete-drop_expired before (suc limit) rows)

-- A chunk that is not full was the last one.
last_chunk :
    (before limit : ℕ) (rows : List LogRow)
    → length (expired_ids before limit rows) < limit
    → (drop_expired before limit rows ≡ delete_where (is_expired before) rows)
      × (length (expired_ids before limit rows) ≡ count_where (is_expired before) rows)
unfolding expired_ids delete_where count_where drop_expired
last_chunk before zero rows h = absurd (omega arith)
last_chunk before (suc limit) [] h = (refl, refl)
last_chunk before (suc limit) (r ∷ rows) h =
    ground (arith, last_chunk before limit rows, last_chunk before (suc limit) rows)

-- What a round leaves: fewer rows to delete, by as many as it deleted, and the same rows to keep.
round_lem :
    (before limit : ℕ) (rows : List LogRow)
    → IsKeyed log_key rows
    → let ids = expired_ids before limit rows in
      IsKeyed log_key (delete_ids ids rows)
      × (length ids + count_where (is_expired before) (delete_ids ids rows)
          ≡ count_where (is_expired before) rows)
      × (delete_where (is_expired before) (delete_ids ids rows)
          ≡ delete_where (is_expired before) rows)
unfolding delete_ids
round_lem before limit rows keyed =
    let gone = delete-expired_ids before limit rows keyed in
    let ids = expired_ids before limit rows in
    (
      delete_where-IsKeyed log_key (λ r. contains r.id ids) rows keyed,
      ap (λ rest. length ids + count_where (is_expired before) rest) gone
          ∙ count-drop_expired before limit rows,
      ap (delete_where (is_expired before)) gone ∙ delete-drop_expired before limit rows,
    )

-- Deleting in chunks of at least one row ends, after at most one round more than there are rows to
-- delete, in a table with unique keys: exactly the rows older than the cutoff are gone, and their number
-- is what is reported, whatever the size of a chunk.
pub delete_in_chunks_lem :
    (fuel before chunk_size : ℕ) (rows : List LogRow) (deleted : ℕ)
    → IsKeyed log_key rows
    → 0 < chunk_size
    → count_where (is_expired before) rows < fuel
    → delete_in_chunks fuel before chunk_size rows deleted
      ≡ some (deleted + count_where (is_expired before) rows, delete_where (is_expired before) rows)
unfolding delete_in_chunks
delete_in_chunks_lem zero before chunk_size rows deleted keyed positive enough =
    absurd (omega arith)
delete_in_chunks_lem (suc fuel) before chunk_size rows deleted keyed positive enough =
    let ids = expired_ids before chunk_size rows in
    let gone = delete-expired_ids before chunk_size rows keyed in
    let counted = count-expired_ids before chunk_size rows keyed in
    let (keyed', fewer, same) = round_lem before chunk_size rows keyed in
    elim (Bool-cases (ltb (length ids) chunk_size)) [
      | inl last ↦ ground (arith, last_chunk before chunk_size rows, gone, counted)
      | inr more ↦ ground (
        arith,
        counted,
        fewer,
        same,
        delete_in_chunks_lem fuel before chunk_size (delete_ids ids rows)
            (deleted + count_ids ids rows) keyed' positive,
      )
    ]
