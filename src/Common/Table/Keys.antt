-- ===== src/Common/Table/Keys.antt =====
-- How the primary key constrains what the statements of a table do.
use mathlib.Core.Path.{◌≡◌, refl, sym, subst}
use mathlib.Core.Logic.{inl, inr}
use mathlib.Core.Bool.{Bool, true}
use mathlib.Core.Option.{none, some}
use mathlib.Core.List.{List, [], ◌∷◌, ◌++◌}
use native.Mathlib.Omega.{arith}
use fastapitemplate.Common.Booleans.{if◌then◌else◌, is_some, Bool-cases, Option-cases}
use fastapitemplate.Common.Equality.{Eq, ◌==◌}
use fastapitemplate.Common.Table.{
  find, delete_where, update_where, count_where, upsert, insert_row, IsKeyed, find-nil, find-append,
  find-upsert, find-update_where, key-find,
}

module _ {K R : Type 0} ⦃e : Eq K⦄ (key : R → K) where
  pub find-delete_where-none :
      (p : R → Bool) (k : K) (rs : List R)
      → find key k rs ≡ none
      → find key k (delete_where p rs) ≡ none
  unfolding find delete_where
  find-delete_where-none p k [] h = refl
  find-delete_where-none p k (r ∷ rs) h = ground (arith, find-delete_where-none p k rs)

  pub delete_where-IsKeyed :
      (p : R → Bool) (rs : List R) → IsKeyed key rs → IsKeyed key (delete_where p rs)
  unfolding delete_where
  delete_where-IsKeyed p [] h = tt
  delete_where-IsKeyed p (r ∷ rs) h =
      ground (arith, delete_where-IsKeyed p rs h.1, find-delete_where-none p (key r) rs h.0)

  -- In a table with unique keys a row is found after a deletion exactly if it was not deleted.
  pub find-delete_where :
      (p : R → Bool) (k : K) (rs : List R)
      → IsKeyed key rs
      → find key k (delete_where p rs)
        ≡ elim (find key k rs) [ none ↦ none | some r ↦ if p r then none else some r ]
  unfolding find delete_where
  find-delete_where p k [] h = refl
  find-delete_where p k (r ∷ rs) h = elim (Bool-cases (key r == k)) [
    | inl same ↦ ground (
      arith,
      find-delete_where-none p k rs
          (subst (λ j. find key j rs ≡ none) ((e.beq_iff _ _).0 same) h.0),
    )
    | inr other ↦ ground (arith, find-delete_where p k rs h.1)
  ]

  append-IsKeyed :
      (rs : List R) (r : R)
      → IsKeyed key rs
      → find key (key r) rs ≡ none
      → IsKeyed key (rs ++ r ∷ [])
  unfolding find
  append-IsKeyed [] r h new = (refl, tt)
  append-IsKeyed (s ∷ rs) r h new = ground (
    arith,
    append-IsKeyed rs r h.1,
    find-append key (key s) rs r,
    e.beq_iff (key r) (key s),
    e.beq_iff (key s) (key r),
  )

  pub insert_row-IsKeyed :
      (r : R) (rs : List R) {out : List R}
      → IsKeyed key rs
      → insert_row key r rs ≡ some out
      → IsKeyed key out
  unfolding insert_row
  insert_row-IsKeyed r rs h e = ground (arith, append-IsKeyed rs r h)

  pub find-insert_row :
      (r : R) (k : K) (rs out : List R)
      → insert_row key r rs ≡ some out
      → find key k out ≡ (if key r == k then some r else find key k rs)
  unfolding insert_row
  find-insert_row r k rs out h = ground (arith, find-append key k rs r, e.beq_iff (key r) k, h)

  upsert-find_ne :
      (r : R) (k : K) (rs : List R)
      → ¬ (key r ≡ k)
      → find key k rs ≡ none
      → find key k (upsert key r rs) ≡ none
  upsert-find_ne r k rs ne h = ground (arith, find-upsert key r k rs, e.beq_iff (key r) k)

  pub upsert-IsKeyed : (r : R) (rs : List R) → IsKeyed key rs → IsKeyed key (upsert key r rs)
  unfolding upsert
  upsert-IsKeyed r [] h = (find-nil key (key r), tt)
  upsert-IsKeyed r (s ∷ rs) h = elim (Bool-cases (key s == key r)) [
    | inl same ↦ rw same (subst (λ j. find key j rs ≡ none) ((e.beq_iff _ _).0 same) h.0, h.1)
    | inr other ↦ rw other (
      upsert-find_ne r (key s) rs (λ p. cc (other, (e.beq_iff _ _).1 (sym p))) h.0,
      upsert-IsKeyed r rs h.1,
    )
  ]

  pub update_where-IsKeyed :
      (p : R → Bool) (f : R → R) (rs : List R)
      → ((r : R) → key (f r) ≡ key r)
      → IsKeyed key rs
      → IsKeyed key (update_where p f rs)
  unfolding update_where
  update_where-IsKeyed p f [] same h = tt
  update_where-IsKeyed p f (r ∷ rs) same h = ground (
    arith,
    update_where-IsKeyed p f rs same h.1,
    find-update_where key p f (key r) rs same,
    same r,
  )

  module _ (p : R → Bool) (k : K) (named : (r : R) → p r ≡ true → key r ≡ k) where
    count-named_none : (rs : List R) → find key k rs ≡ none → count_where p rs ≡ 0
    unfolding find count_where
    count-named_none [] h = refl
    count-named_none (r ∷ rs) h = ground (arith, count-named_none rs, named r, e.beq_iff (key r) k)

    -- A statement whose condition implies the key touches at most the row of that key.
    pub count-named :
        (rs : List R)
        → IsKeyed key rs
        → count_where p rs ≡ elim (find key k rs) [ none ↦ 0 | some r ↦ if p r then 1 else 0 ]
    unfolding find count_where
    count-named [] h = refl
    count-named (r ∷ rs) h = elim (Bool-cases (key r == k)) [
      | inl same ↦ ground (
        arith,
        count-named_none rs (subst (λ j. find key j rs ≡ none) ((e.beq_iff _ _).0 same) h.0),
      )
      | inr other ↦ ground (arith, count-named rs h.1, named r, e.beq_iff (key r) k)
    ]

  -- So a deletion by the key touches one row, or none.
  pub count-key :
      (k : K) (rs : List R)
      → IsKeyed key rs
      → count_where (λ r. key r == k) rs ≡ (if is_some (find key k rs) then 1 else 0)
  count-key k rs h =
      rw (count-named (λ r. key r == k) k (λ r q. (e.beq_iff _ _).0 q) rs h)
        elim (Option-cases (find key k rs)) [
          | inl missing ↦ rw missing
          | inr (r, found) ↦ rw (found, (e.beq_iff (key r) k).1 (key-find key k rs r found))
        ]
