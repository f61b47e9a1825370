-- ===== src/Store/Order/Laws.antt =====
-- A sorted table has the rows of the table.
use corcy.Prelude.{suc, ◌≡◌, refl, List, [], ◌∷◌, leb, All, length, arith, Bool-cases, inl, inr}
use corcy.Store.Rows.{Time}
use corcy.Store.Order.{insert_desc, sort_desc, insert_asc, sort_asc}

module _ {A : Type 0} where
  length-insert_desc :
      (key : A → Time) (x : A) (xs : List A) → length (insert_desc key x xs) ≡ suc (length xs)
  unfolding insert_desc
  length-insert_desc key x [] = refl
  length-insert_desc key x (y ∷ ys) = ground (arith, length-insert_desc key x ys)

  pub length-sort_desc : (key : A → Time) (xs : List A) → length (sort_desc key xs) ≡ length xs
  unfolding sort_desc
  length-sort_desc key [] = refl
  length-sort_desc key (x ∷ xs) =
      ground (arith, length-sort_desc key xs, length-insert_desc key x (sort_desc key xs))

  module _ {κ} (P : A → Type κ) where
    All-insert_desc :
        (key : A → Time) (x : A) (xs : List A) → P x → All P xs → All P (insert_desc key x xs)
    unfolding insert_desc
    All-insert_desc key x [] p h = (p, tt)
    All-insert_desc key x (y ∷ ys) p (q, h) = elim (Bool-cases (leb (key y) (key x))) [
      | inl e ↦ rw e (p, (q, h))
      | inr e ↦ rw e (q, All-insert_desc key x ys p h)
    ]

    pub All-sort_desc : (key : A → Time) (xs : List A) → All P xs → All P (sort_desc key xs)
    unfolding sort_desc
    All-sort_desc key [] h = tt
    All-sort_desc key (x ∷ xs) (p, h) =
        All-insert_desc key x (sort_desc key xs) p (All-sort_desc key xs h)

module _ {A : Type 0} where
  length-insert_asc :
      (key : A → Time) (x : A) (xs : List A) → length (insert_asc key x xs) ≡ suc (length xs)
  unfolding insert_asc
  length-insert_asc key x [] = refl
  length-insert_asc key x (y ∷ ys) = ground (arith, length-insert_asc key x ys)

  pub length-sort_asc : (key : A → Time) (xs : List A) → length (sort_asc key xs) ≡ length xs
  unfolding sort_asc
  length-sort_asc key [] = refl
  length-sort_asc key (x ∷ xs) =
      ground (arith, length-sort_asc key xs, length-insert_asc key x (sort_asc key xs))

  module _ {κ} (P : A → Type κ) where
    All-insert_asc :
        (key : A → Time) (x : A) (xs : List A) → P x → All P xs → All P (insert_asc key x xs)
    unfolding insert_asc
    All-insert_asc key x [] p h = (p, tt)
    All-insert_asc key x (y ∷ ys) p (q, h) = elim (Bool-cases (leb (key x) (key y))) [
      | inl e ↦ rw e (p, (q, h))
      | inr e ↦ rw e (q, All-insert_asc key x ys p h)
    ]

    pub All-sort_asc : (key : A → Time) (xs : List A) → All P xs → All P (sort_asc key xs)
    unfolding sort_asc
    All-sort_asc key [] h = tt
    All-sort_asc key (x ∷ xs) (p, h) =
        All-insert_asc key x (sort_asc key xs) p (All-sort_asc key xs h)
