-- ===== src/Common/Table.antt =====
-- A SQL table with a primary key: its rows in the order of insertion, and the statements that the
-- repositories send. The number of rows that a statement touches is its `rowcount`.
pub mod Keys
pub mod Rows
use Prim.Native.Nat.{ℕ, suc}
use mathlib.Core.Path.{◌≡◌, refl}
use mathlib.Core.Bool.{Bool}
use mathlib.Core.Option
use mathlib.Core.Option.{Option, none, some}
use mathlib.Core.List.{List, [], ◌∷◌, ◌++◌}
use native.Mathlib.Omega.{arith}
use fastapitemplate.Common.Booleans.{if◌then◌else◌, is_some}
use fastapitemplate.Common.Equality.{Eq, ◌==◌, beq_self}

module _ {R : Type 0} where
  -- `DELETE ... WHERE test`
  unfoldable pub delete_where : (R → Bool) → List R → List R
  delete_where p [] = []
  delete_where p (r ∷ rs) = if p r then delete_where p rs else r ∷ delete_where p rs

  -- `UPDATE ... SET f WHERE test`
  unfoldable pub update_where : (R → Bool) → (R → R) → List R → List R
  update_where p f [] = []
  update_where p f (r ∷ rs) = (if p r then f r else r) ∷ update_where p f rs

  -- The `rowcount` of either statement.
  unfoldable pub count_where : (R → Bool) → List R → ℕ
  count_where p [] = 0
  count_where p (r ∷ rs) = if p r then suc (count_where p rs) else count_where p rs

module _ {K R : Type 0} ⦃e : Eq K⦄ (key : R → K) where
  -- `session.get(Record, k)`
  unfoldable pub find : K → List R → Option R
  find k [] = none
  find k (r ∷ rs) = if key r == k then some r else find k rs

  -- `DELETE ... WHERE key = k`
  unfoldable pub delete_key : K → List R → List R
  unfolding delete_where
  delete_key k rs = delete_where (λ r. key r == k) rs

  -- A read of the row by its key and then a write of that row, or of a new one.
  unfoldable pub upsert : R → List R → List R
  upsert r [] = r ∷ []
  upsert r (s ∷ rs) = if key s == key r then r ∷ rs else s ∷ upsert r rs

  -- `session.add(row)` and a flush: `none` is the `IntegrityError` of a key that is taken.
  unfoldable pub insert_row : R → List R → Option (List R)
  unfolding find
  insert_row r rs = if is_some (find (key r) rs) then none else some (rs ++ r ∷ [])

  -- The primary key is unique.
  abbrev pub IsKeyed : List R → Type 0
  IsKeyed [] = Unit
  IsKeyed (r ∷ rs) = (find (key r) rs ≡ none) × IsKeyed rs

module _ {K R : Type 0} ⦃e : Eq K⦄ (key : R → K) where
  pub find-nil : (k : K) → find key k [] ≡ none
  unfolding find
  find-nil k = refl

  pub find-delete_key :
      (k j : K) (rs : List R)
      → find key j (delete_key key k rs) ≡ (if k == j then none else find key j rs)
  unfolding find delete_key
  find-delete_key k j [] = ground arith
  find-delete_key k j (r ∷ rs) =
      ground
        (arith, find-delete_key k j rs, e.beq_iff (key r) k, e.beq_iff (key r) j, e.beq_iff k j)

  pub find-delete_key_self : (k : K) (rs : List R) → find key k (delete_key key k rs) ≡ none
  find-delete_key_self k rs = ground (arith, find-delete_key k k rs, beq_self k)

  pub find-upsert :
      (r : R) (j : K) (rs : List R)
      → find key j (upsert key r rs) ≡ (if key r == j then some r else find key j rs)
  unfolding find upsert
  find-upsert r j [] = refl
  find-upsert r j (s ∷ rs) = ground (
    arith,
    find-upsert r j rs,
    e.beq_iff (key s) (key r),
    e.beq_iff (key s) j,
    e.beq_iff (key r) j,
  )

  -- A found row has the key that was asked for.
  pub key-find : (k : K) (rs : List R) (r : R) → find key k rs ≡ some r → key r ≡ k
  unfolding find
  key-find k [] r h = cc
  key-find k (s ∷ rs) r h = ground (arith, key-find k rs r, e.beq_iff (key s) k)

  pub find-append :
      (k : K) (rs : List R) (r : R)
      → find key k (rs ++ r ∷ [])
        ≡ (if is_some (find key k rs) then find key k rs else if key r == k then some r else none)
  unfolding find
  find-append k [] r = refl
  find-append k (s ∷ rs) r = ground (arith, find-append k rs r)

  pub find-update_where :
      (p : R → Bool) (f : R → R) (k : K) (rs : List R)
      → ((r : R) → key (f r) ≡ key r)
      → find key k (update_where p f rs) ≡ Option.map (λ r. if p r then f r else r) (find key k rs)
  unfolding find update_where
  find-update_where p f k [] h = refl
  find-update_where p f k (r ∷ rs) h = ground (arith, find-update_where p f k rs h, h r)
