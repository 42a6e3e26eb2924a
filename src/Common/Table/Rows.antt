-- ===== src/Common/Table/Rows.antt =====
-- A test that all rows of a table pass, and what the statements keep of it.
use mathlib.Core.Path.{◌≡◌, refl}
use mathlib.Core.Bool.{Bool, true, false}
use mathlib.Core.Option.{some}
use mathlib.Core.List.{List, [], ◌∷◌, ◌++◌}
use native.Mathlib.Omega.{arith}
use fastapitemplate.Common.Equality.{Eq}
use fastapitemplate.Common.Lists.{all}
use fastapitemplate.Common.Table.{find, delete_where, update_where, insert_row}

module _ {R : Type 0} (p : R → Bool) where
  pub all-delete_where :
      (q : R → Bool) (rs : List R) → all p rs ≡ true → all p (delete_where q rs) ≡ true
  unfolding delete_where
  all-delete_where q [] h = refl
  all-delete_where q (r ∷ rs) h = ground (arith, all-delete_where q rs)

  pub all-update_where :
      (q : R → Bool) (f : R → R) (rs : List R)
      → ((r : R) → p r ≡ true → p (f r) ≡ true)
      → all p rs ≡ true
      → all p (update_where q f rs) ≡ true
  unfolding update_where
  all-update_where q f [] keeps h = refl
  all-update_where q f (r ∷ rs) keeps h = ground (arith, all-update_where q f rs keeps, keeps r)

  -- A statement that makes the rows pass that it changes, if the others pass.
  pub all-updated :
      (q : R → Bool) (f : R → R) (rs : List R)
      → ((r : R) → q r ≡ true → p (f r) ≡ true)
      → ((r : R) → q r ≡ false → p r ≡ true)
      → all p (update_where q f rs) ≡ true
  unfolding update_where
  all-updated q f [] made others = refl
  all-updated q f (r ∷ rs) made others =
      ground (arith, all-updated q f rs made others, made r, others r)

  pub all-append :
      (rs : List R) (r : R) → all p rs ≡ true → p r ≡ true → all p (rs ++ r ∷ []) ≡ true
  all-append [] r h hr = ground arith
  all-append (s ∷ rs) r h hr = ground (arith, all-append rs r)

  pub all-insert_row :
      {K : Type 0} ⦃e : Eq K⦄ (key : R → K) (r : R) (rs out : List R)
      → insert_row key r rs ≡ some out
      → p r ≡ true
      → all p rs ≡ true
      → all p out ≡ true
  unfolding insert_row
  all-insert_row key r rs out e hr h = ground (arith, all-append rs r h hr)

  pub find-all :
      {K : Type 0} ⦃e : Eq K⦄ (key : R → K) (k : K) (rs : List R) (r : R)
      → find key k rs ≡ some r
      → all p rs ≡ true
      → p r ≡ true
  unfolding find
  find-all key k [] r e h = cc
  find-all key k (s ∷ rs) r e h = ground (arith, find-all key k rs r)
